-- ===== src/Router/Handlers.antt =====
-- What the handlers of src/server/Router.cpp have in common: a coroutine is a function of the world
-- W that `co_await` may find changed. Each function here is a piece of code that several handlers
-- repeat.
use recipes_core.Prelude.{Text, text, Option, none, some, not, if◌then◌else◌, [], Bool}
use recipes_core.App.{Expected, expected, unexpected}
use recipes_core.Api.{Result, value, error, Glaze}
use recipes_core.Http
use recipes_core.Http.{Status, Request, Response, internal_server_error, unsupported_media_type}
use recipes_core.Router.Responses.{
  make_json_response, error_reply, make_app_error_response, is_json_content_type,
}
use recipes_core.Router.Bodies.{Body, parsed, rejected}

-- The bare response of a deletion.
abbrev pub no_content_reply : Request → Response
no_content_reply request = record {
  status = Http.no_content;
  version = request.version;
  keep_alive = request.keep_alive;
  fields = [];
  body = [];
  prepared = Bool.false;
}

module _ (glaze : Glaze) (request : Request) where
  -- `if (!result.has_value()) co_return MakeAppErrorResponse(…)`, then the rest.
  unfoldable pub on_result : {W A : Type 0} → Expected A × W → (A → W → Response × W) → Response × W
  on_result (unexpected failure, w) rest =
      (make_app_error_response glaze failure request.version request.keep_alive, w)
  on_result (expected a, w) rest = rest a w

  -- The test of the parsed body: a rejection is answered as `invalid_json`.
  unfoldable pub on_parsed : {W A : Type 0} → Body A → (A → W → Response × W) → W → Response × W
  on_parsed (rejected status message) rest w =
      (error_reply glaze request status (text "invalid_json") message, w)
  on_parsed (parsed a) rest w = rest a w

  -- `if (!IsJsonContentType(request)) …`, then the test of the parsed body.
  unfoldable pub on_json_body : {W A : Type 0} → Body A → (A → W → Response × W) → W → Response × W
  unfolding on_parsed
  on_json_body body rest w =
      if not (is_json_content_type request)
      then (
        error_reply glaze request unsupported_media_type (text "unsupported_media_type")
            (text "Content-Type must be application/json"),
        w,
      )
      else on_parsed body rest w

  -- The reply with a serialized body, or the reply that it could not be serialized.
  unfoldable pub serialized : Status → Text → Result Text → Response
  serialized status failure (value body) =
      make_json_response status request.version request.keep_alive body
  serialized status failure (error _) =
      error_reply glaze request internal_server_error (text "serialization_error") failure

  -- `if (!result->has_value())`: the id is not there.
  unfoldable pub found_or : {A : Type 0} → Text → (A → Response) → Option A → Response
  found_or message reply none = error_reply glaze request Http.not_found (text "not_found") message
  found_or message reply (some a) = reply a
