-- ===== src/Config/Validation.antt =====
-- What `ValidateServerConfig` of src/config/ServerConfig.cpp accepts.
use recipes_core.Prelude.{
  ◌<◌, Text, eq_text_iff, ◌≡◌, ◌≢◌, refl, ◌↔◌, ◌⊎◌, true, false, [], ◌∷◌, arith,
}
use recipes_core.Api.{value}
use recipes_core.Service.{is_empty}
use recipes_core.Config.{ServerConfig, validate_server_config}

-- A configuration that a server can be run with.
pub record IsUsable (c : ServerConfig) : Type 0 where
  pub listens : (c.http.enabled ≡ true) ⊎ (c.https.enabled ≡ true)
  pub threads : 0 < c.network_threads
  pub capacity : 0 < c.database_queue_capacity
  pub headers : 0 < c.header_limit
  pub bodies : 0 < c.body_limit
  pub requests : 0 < c.request_timeout_seconds
  pub shutdown : 0 < c.shutdown_timeout_seconds
  pub certificate : c.https.enabled ≡ true → c.tls.certificate_path ≢ []
  pub private_key : c.https.enabled ≡ true → c.tls.private_key_path ≢ []
  pub endpoints :
      c.http.enabled ≡ true
      → c.https.enabled ≡ true
      → c.http.address ≡ c.https.address
      → c.http.port ≢ c.https.port

is_empty-eq_false : (s : Text) → s ≢ [] → is_empty s ≡ false
is_empty-eq_false [] h = absurd (h refl)
is_empty-eq_false (b ∷ s) h = refl

sound : (c : ServerConfig) → validate_server_config c ≡ value tt → IsUsable c
unfolding validate_server_config
sound c h = record {
  listens = ground arith;
  threads = ground arith;
  capacity = ground arith;
  headers = ground arith;
  bodies = ground arith;
  requests = ground arith;
  shutdown = ground arith;
  certificate = λ e f. ground arith;
  private_key = λ e f. ground arith;
  endpoints = λ e f g k. ground (arith, eq_text_iff c.http.address c.https.address);
}

complete : (c : ServerConfig) → IsUsable c → validate_server_config c ≡ value tt
unfolding validate_server_config
complete c h = ground (
  arith,
  h.listens,
  h.certificate,
  h.private_key,
  h.endpoints,
  is_empty-eq_false c.tls.certificate_path,
  is_empty-eq_false c.tls.private_key_path,
  eq_text_iff c.http.address c.https.address,
)

-- The validation succeeds exactly on the configurations that a server can be run with: a listener,
-- positive limits, TLS files for HTTPS, and two endpoints that differ.
pub validate_server_config_iff :
    (c : ServerConfig) → (validate_server_config c ≡ value tt) ↔ IsUsable c
validate_server_config_iff c = (sound c, complete c)
