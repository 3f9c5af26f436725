-- ===== src/Telemetry.antt =====
-- src/telemetry.rs: what is installed when tracing starts, what is shut down at its end, and the bridge
-- from the structured log. What the tracing libraries answer is a parameter.
pub mod Providers
use act_api_server_rs.Prelude.{
  Bool, Option, none, some, List, [], ◌∷◌, ◌++◌, is_some, unwrap_or, if◌then◌else◌, Result, ok,
  ◌>>=◌, ◌>>◌, ensure,
}
use act_api_server_rs.Text.{Text, txt, is_blank}

-- A layer of the subscriber; the exporter's has the name of its service.
pub data Layer : Type 0 where
  env_filter : Text → Layer
  console : Layer
  open_telemetry : Text → Layer

-- What is done, in order.
pub data Act : Type 0 where
  -- `global::set_tracer_provider`, of the exporter to an endpoint.
  sets_provider : Text → Act
  installs : List Layer → Act
  keeps_subscriber : Act
  -- "telemetry initialized", with whether traces are exported.
  reports : Bool → Act
  -- A message of the structured log.
  logs : Text → Act
  closes_logger close_failed : Act
  shuts_provider : Text → Act

-- What the tracing libraries answer.
pub record Tracing : Type 0 where
  pub parses_filter : Text → Bool
  pub builds_exporter : Text → Bool
  pub is_first_subscriber : Bool
  pub closes : Bool

-- Of the guard, the endpoint of its provider.
pub record TelemetryGuard : Type 0 where
  pub tracer_provider : Option Text

pub data TelemetryError : Type 0 where
  bad_filter : TelemetryError

module _ (t : Tracing) where
  -- The variable of the endpoint, unless it is blank.
  endpoint_of : Option Text → Option Text
  endpoint_of none = none
  endpoint_of (some value) = if is_blank value then none else some value

  -- `build_tracer_provider`, with its errors dropped.
  build_tracer_provider : Option Text → Option Text
  build_tracer_provider none = none
  build_tracer_provider (some value) = if t.builds_exporter value then some value else none

  set_provider : Option Text → List Act
  set_provider none = []
  set_provider (some endpoint) = sets_provider endpoint ∷ []

  layers : Text → Text → Option Text → List Layer
  layers filter service_name none = env_filter filter ∷ console ∷ []
  layers filter service_name (some endpoint) =
      env_filter filter ∷ console ∷ open_telemetry service_name ∷ []

  install_subscriber : Text → Text → Option Text → List Act
  unfolding layers
  install_subscriber filter service_name provider =
      installs (layers filter service_name provider)
      ∷ (if t.is_first_subscriber then [] else keeps_subscriber ∷ [])

  -- `init`, on the variables and the name of the service.
  unfoldable pub init :
      (Text → Option Text) → Text → Result (TelemetryGuard × List Act) TelemetryError
  unfolding endpoint_of build_tracer_provider set_provider install_subscriber
  init var service_name =
      let filter = unwrap_or (var (txt "RUST_LOG")) (txt "info,act_api_server=debug") in
      let provider =
        build_tracer_provider (endpoint_of (var (txt "OTEL_EXPORTER_OTLP_ENDPOINT"))) in
      do
        ensure (t.parses_filter filter) bad_filter
        ok (
          record { tracer_provider = provider },
          set_provider provider
              ++ (install_subscriber filter service_name provider
                  ++ (reports (is_some provider) ∷ logs (txt "telemetry initialized") ∷ [])),
        )

  shut_provider : Option Text → List Act
  shut_provider none = []
  shut_provider (some endpoint) = shuts_provider endpoint ∷ []

  -- `drop`
  unfoldable pub drop : TelemetryGuard → List Act
  unfolding shut_provider
  drop guard =
      logs (txt "telemetry shutting down")
      ∷ closes_logger
      ∷ ((if t.closes then [] else close_failed ∷ []) ++ shut_provider guard.tracer_provider)

pub data LogLevel : Type 0 where
  trace debug info warn error fatal : LogLevel

-- `TracingBridgeTransport::write`, on the record's encoding: the level and the message of the event
-- that it becomes. Tracing has no level for what is fatal.
unfoldable pub write : {E : Type 0} → LogLevel → Result Text E → Result (LogLevel × Text × Text) E
write fatal encoded = do json ← encoded; ok (error, txt "Ores fatal structured log", json)
write level encoded = do json ← encoded; ok (level, txt "Ores structured log", json)
