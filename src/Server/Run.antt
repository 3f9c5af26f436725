-- ===== src/Server/Run.antt =====
-- src/server.rs, `run`, and `main` of src/main.rs: the whole process, from its command line to the end
-- of its telemetry.
pub mod Orders
pub mod Providers
use act_api_server_rs.Prelude.{
  Option, none, some, List, [], ◌∷◌, ◌++◌, map, Bool, Result, ok, err, map_err,
}
use act_api_server_rs.Text.{Text}
use act_api_server_rs.DataPlane.Policies.{Url}
use act_api_server_rs.Environment.{ConfigError, Parsed}
use act_api_server_rs.Config.{Config, from_env}
use act_api_server_rs.Flags.{FlagsError, Variables}
use act_api_server_rs.Flags.Control.{process_control, var}
use act_api_server_rs.Telemetry.{Act, Tracing, TelemetryGuard, TelemetryError, drop, init}
use act_api_server_rs.Server.Wiring.{Launch, Outside, StartError, Started, serve}

-- What the process does, in order.
pub data Moment : Type 0 where
  prints : Text → Moment
  telemetry : Act → Moment
  launch : Launch → Moment
  shutdown_complete : Moment

pub data ProcessError : Type 0 where
  bad_flags : FlagsError → ProcessError
  bad_config : ConfigError → ProcessError
  bad_telemetry : TelemetryError → ProcessError
  start_failed : StartError → ProcessError

pub record Ran : Type 0 where
  pub outcome : Result (Unit {0}) ProcessError
  pub moments : List Moment

abbrev stops : ProcessError → Ran
stops e = record { outcome = err e; moments = [] }

module _ (o : Outside) (t : Tracing) (parse_url : Text → Option Url)
    (is_socket_addr : Text → Bool) where
  says_complete : Result (Unit {0}) StartError → List Moment
  says_complete (ok _) = shutdown_complete ∷ []
  says_complete (err e) = []

  -- From the telemetry on; its guard is dropped on both ends of `serve`.
  serve_under : Config → Result (TelemetryGuard × List Act) TelemetryError → Ran
  unfolding says_complete
  serve_under c (err e) = stops (bad_telemetry e)
  serve_under c (ok (guard, acts)) =
      let s = serve o c in
      record {
        outcome = map_err s.outcome start_failed;
        moments =
            map telemetry acts
            ++ (map launch s.launched ++ (says_complete s.outcome ++ map telemetry (drop t guard)));
      }

  run_configured : (Text → Option Text) → Parsed Config → Ran
  unfolding serve_under
  run_configured flag (err e) = stops (bad_config e)
  run_configured flag (ok c) = serve_under c (init t flag c.service_name)

  -- `run`, on the resolved variables.
  unfoldable pub run : (Text → Option Text) → Ran
  unfolding run_configured
  run flag = run_configured flag (from_env flag parse_url is_socket_addr)

  main_controlled : Variables → Option Text → Ran
  main_controlled values (some output) = record { outcome = ok tt; moments = prints output ∷ [] }
  main_controlled values none = run (var values)

  main_resolved : Result Variables FlagsError → Result (Option Text) FlagsError → Ran
  unfolding main_controlled
  main_resolved (ok values) (ok control) = main_controlled values control
  main_resolved (ok values) (err e) = stops (bad_flags e)
  main_resolved (err e) control = stops (bad_flags e)

  -- `main`, on the resolution of the command line, the help table and the line of the version.
  unfoldable pub main_run : Result Variables FlagsError → Result Text FlagsError → Text → Ran
  unfolding main_resolved
  main_run resolved help version = main_resolved resolved (process_control resolved help version)
