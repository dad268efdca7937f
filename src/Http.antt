-- ===== src/Http.antt =====
-- The part of Boost.Beast's message types that the program uses (net::http in
-- include/server/Router.hpp): a message is its documented content, a status or verb, a version, the
-- keep-alive setting, header fields and a body. `prepared` says that `prepare_payload` was called.
use recipes_core.Prelude.{ℕ, Text, Bool, true, false, List, [], ◌∷◌, ◌==◌, if◌then◌else◌}

pub data Verb : Type 0 where
  get post put delete_ : Verb
  other : ℕ → Verb

unfoldable pub eq_verb : Verb → Verb → Bool
eq_verb get get = true
eq_verb post post = true
eq_verb put put = true
eq_verb delete_ delete_ = true
eq_verb (other m) (other n) = m == n
eq_verb _ _ = false

pub data Status : Type 0 where
  ok created no_content bad_request not_found method_not_allowed conflict : Status
  payload_too_large unsupported_media_type unprocessable_entity : Status
  internal_server_error service_unavailable : Status

pub data Field : Type 0 where
  content_type x_content_type_options allow strict_transport_security : Field

unfoldable pub eq_field : Field → Field → Bool
eq_field content_type content_type = true
eq_field x_content_type_options x_content_type_options = true
eq_field allow allow = true
eq_field strict_transport_security strict_transport_security = true
eq_field _ _ = false

abbrev pub Fields : Type 0
Fields = List (Field × Text)

-- `message[field]`: the empty text if the field is not there.
unfoldable pub value_of : Field → Fields → Text
unfolding eq_field
value_of f [] = []
value_of f ((g, v) ∷ fields) = if eq_field g f then v else value_of f fields

-- `message.set(field, value)`: one value for a field.
unfoldable pub set : Field → Text → Fields → Fields
unfolding eq_field
set f v [] = (f, v) ∷ []
set f v ((g, w) ∷ fields) = if eq_field g f then (f, v) ∷ fields else (g, w) ∷ set f v fields

pub record Request : Type 0 where
  pub method : Verb
  pub target : Text
  pub version : ℕ
  pub keep_alive : Bool
  pub fields : Fields
  pub body : Text

pub record Response : Type 0 where
  pub status : Status
  pub version : ℕ
  pub keep_alive : Bool
  pub fields : Fields
  pub body : Text
  pub prepared : Bool
