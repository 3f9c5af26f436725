-- ===== src/Server/Tests/Runs.antt =====
-- A whole run of the process, src/main.rs, src/server.rs and src/telemetry.rs.
use act_api_server_rs.Prelude.{◌≡◌, refl, true, false, none, [], ◌∷◌, ok}
use act_api_server_rs.Text.{Text, txt, text_eq, trim, is_whitespace, parse_uint}
use act_api_server_rs.Transport.Tables.Store.{find}
use act_api_server_rs.Config.{from_env, validate_operation_configuration}
use act_api_server_rs.Config.Tests.{parse_url, is_socket_addr}
use act_api_server_rs.Flags.{Variables}
use act_api_server_rs.Flags.Control.{process_control}
use act_api_server_rs.Telemetry.{
  Tracing, closes_logger, console, drop, env_filter, error, fatal, info, init, installs, logs,
  open_telemetry, reports, sets_provider, shuts_provider, write,
}
use act_api_server_rs.Server.Wiring.{event_subscriber, http_server, serve}
use act_api_server_rs.Server.Tests.Wirings.{outside}
use act_api_server_rs.Server.Run.{Ran, launch, main_run, run, shutdown_complete, telemetry}
use act_api_server_rs.Server.Run.Orders.{IsGuardedRun, main_run-Guarded}
use act_api_server_rs.Server.Run.Providers.{IsBalanced, main_run-IsBalanced}

abbrev tracing : Tracing
tracing = record {
  parses_filter = λ filter. true;
  builds_exporter = λ endpoint. true;
  is_first_subscriber = true;
  closes = true;
}

abbrev collector : Text
collector = txt "http://collector:4317"

abbrev values : Variables
values =
    (txt "PORT", txt "9124")
    ∷ (txt "OTEL_EXPORTER_OTLP_ENDPOINT", collector)
    ∷ (txt "RUST_LOG", txt "info")
    ∷ []

abbrev ran : Ran
ran =
    main_run outside tracing parse_url is_socket_addr (ok values) (ok (txt "help"))
      (txt "act-api-server 1.0.0")

run_tests :
    (ran.outcome ≡ ok tt)
    × (ran.moments
        ≡ telemetry (sets_provider collector)
          ∷ telemetry (
              installs
                (env_filter (txt "info") ∷ console ∷ open_telemetry (txt "act-api-server") ∷ []))
          ∷ telemetry (reports true)
          ∷ telemetry (logs (txt "telemetry initialized"))
          ∷ launch event_subscriber
          ∷ launch (
              http_server
                (record {
                  nats = true;
                  youtube = none;
                  shared_auth = false;
                  operation_journal = false;
                })
                9124)
          ∷ shutdown_complete
          ∷ telemetry (logs (txt "telemetry shutting down"))
          ∷ telemetry closes_logger
          ∷ telemetry (shuts_provider collector)
          ∷ [])
unfolding main_run run init drop serve process_control find from_env
    validate_operation_configuration text_eq trim is_whitespace parse_uint txt
run_tests = (refl, refl)

write_tests :
    (write {E = Text} fatal (ok []) ≡ ok (error, txt "Ores fatal structured log", []))
    × (write {E = Text} info (ok []) ≡ ok (info, txt "Ores structured log", []))
unfolding write
write_tests = (refl, refl)

main_run-Guarded_example : IsGuardedRun outside tracing parse_url is_socket_addr (ok values) ran
main_run-Guarded_example =
    main_run-Guarded outside tracing parse_url is_socket_addr (ok values) (ok (txt "help"))
      (txt "act-api-server 1.0.0")

main_run-IsBalanced_example : IsBalanced ran.moments
main_run-IsBalanced_example =
    main_run-IsBalanced outside tracing parse_url is_socket_addr (ok values) (ok (txt "help"))
      (txt "act-api-server 1.0.0")
