-- ===== src/Server/Tests/Wirings.antt =====
-- A concrete start of the server, src/server.rs.
use act_api_server_rs.Prelude.{◌≡◌, refl, Bool, true, false, some, none, [], ◌∷◌, ok, err}
use act_api_server_rs.Text.{Text, txt}
use act_api_server_rs.Config.Tests.{started, secret}
use act_api_server_rs.Transport.Worker.Loop.{default_config}
use act_api_server_rs.Server.Wiring.{
  Outside, event_subscriber, http_server, jetstream_worker, mtls_without_auth, serve,
}
use act_api_server_rs.Server.Wiring.Soft.{Alike, other, serve-Alike}

abbrev pub outside : Outside
outside = record {
  connects_nats = λ url. true;
  connects_database = λ url. true;
  builds_youtube = λ y. true;
  builds_verifier = λ a. true;
  pem_file = λ path. some (path ∷ []);
  private_key = λ path. true;
  adds_root = λ certificate. true;
  builds_tls = λ roots certificates. true;
  parses_address = λ address. true;
  binds_mtls = λ address. true;
  binds_http = λ port. true;
  supervised = true;
}

abbrev down : Text → Bool
down url = false

serve_tests :
    (serve outside started ≡ record {
      outcome = ok tt;
      launched =
          event_subscriber
          ∷ jetstream_worker secret default_config
          ∷ http_server
              (record { nats = true; youtube = none; shared_auth = true; operation_journal = true })
              9124
          ∷ [];
    })
    × ((serve (other outside down down) started).launched
        ≡ http_server
            (record { nats = false; youtube = none; shared_auth = true; operation_journal = false })
            9124
          ∷ [])
    × ((serve outside (record started {
      shared_auth = none;
      mtls = some (record {
        address = txt "0.0.0.0:7443";
        certificate_file = txt "cert";
        private_key_file = txt "key";
        client_ca_file = txt "ca";
      });
    })).outcome
        ≡ err mtls_without_auth)
unfolding serve
serve_tests = (refl, refl, refl)

serve-Alike_example :
    Alike outside down down (serve (other outside down down) started) (serve outside started)
serve-Alike_example = serve-Alike outside down down started
