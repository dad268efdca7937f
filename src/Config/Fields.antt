-- ===== src/Config/Fields.antt =====
-- The tables of src/config/ServerConfig.cpp.
use recipes_core.Prelude.{some, none, text, eq_text, refl, List, [], ◌∷◌}
use recipes_core.Config.{ListenerConfig, TlsConfig, ServerConfig}
use recipes_core.Fields.{Field, IsComplete, at_string, at_whole, at_flag, nested}

unfoldable listener_config : List (Field ListenerConfig (Unit {0}))
listener_config =
    at_flag (text "enabled") (λ r. r.enabled) (λ x r. record r { enabled = x })
    ∷ at_string (text "address") (λ r. r.address) (λ x r. record r { address = x })
    ∷ at_whole (text "port") (λ r. r.port) (λ x r. record r { port = x })
    ∷ []

-- The table names every member of the record, each under a name of its own.
listener_config-IsComplete : IsComplete listener_config
unfolding listener_config eq_text
listener_config-IsComplete x start = refl

unfoldable tls_config : List (Field TlsConfig (Unit {0}))
tls_config =
    at_string (text "certificate_path") (λ r. r.certificate_path)
      (λ x r. record r { certificate_path = x })
    ∷ at_string (text "private_key_path") (λ r. r.private_key_path)
        (λ x r. record r { private_key_path = x })
    ∷ at_string (text "certificate_chain_path") (λ r. r.certificate_chain_path)
        (λ x r. record r { certificate_chain_path = x })
    ∷ at_string (text "server_name") (λ r. r.server_name) (λ x r. record r { server_name = x })
    ∷ at_flag (text "enable_hsts") (λ r. r.enable_hsts) (λ x r. record r { enable_hsts = x })
    ∷ []

-- The table names every member of the record, each under a name of its own.
tls_config-IsComplete : IsComplete tls_config
unfolding tls_config eq_text
tls_config-IsComplete x start = refl

-- The records inside a configuration.
data Part : Type 0 where
  a_listener : ListenerConfig → Part
  a_tls : TlsConfig → Part

unfoldable server_config : List (Field ServerConfig Part)
server_config =
    (record {
      name = text "http";
      get = λ r. nested (a_listener r.http);
      put = λ v r. elim v [ nested (a_listener x) ↦ some (record r { http = x }) | _ ↦ none ];
    })
    ∷ (record {
      name = text "https";
      get = λ r. nested (a_listener r.https);
      put = λ v r. elim v [ nested (a_listener x) ↦ some (record r { https = x }) | _ ↦ none ];
    })
    ∷ (record {
      name = text "tls";
      get = λ r. nested (a_tls r.tls);
      put = λ v r. elim v [ nested (a_tls x) ↦ some (record r { tls = x }) | _ ↦ none ];
    })
    ∷ at_string (text "database_path") (λ r. r.database_path)
        (λ x r. record r { database_path = x })
    ∷ at_whole (text "network_threads") (λ r. r.network_threads)
        (λ x r. record r { network_threads = x })
    ∷ at_whole (text "database_queue_capacity") (λ r. r.database_queue_capacity)
        (λ x r. record r { database_queue_capacity = x })
    ∷ at_whole (text "header_limit") (λ r. r.header_limit) (λ x r. record r { header_limit = x })
    ∷ at_whole (text "body_limit") (λ r. r.body_limit) (λ x r. record r { body_limit = x })
    ∷ at_whole (text "request_timeout_seconds") (λ r. r.request_timeout_seconds)
        (λ x r. record r { request_timeout_seconds = x })
    ∷ at_whole (text "shutdown_timeout_seconds") (λ r. r.shutdown_timeout_seconds)
        (λ x r. record r { shutdown_timeout_seconds = x })
    ∷ []

-- The table names every member of the record, each under a name of its own.
server_config-IsComplete : IsComplete server_config
unfolding server_config eq_text
server_config-IsComplete x start = refl
