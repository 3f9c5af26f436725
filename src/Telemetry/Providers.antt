-- ===== src/Telemetry/Providers.antt =====
-- src/telemetry.rs: the trace provider that `init` sets is the one that the guard shuts down.
use act_api_server_rs.Prelude.{
  ◌≡◌, arith, Option, none, some, List, [], ◌∷◌, ◌++◌, flat_map, is_some, ok, ensure, >>=-eq-ok,
  ok-injective, subst, unwrap_or,
}
use act_api_server_rs.Text.{Text, txt}
use act_api_server_rs.Telemetry.{
  Act, Tracing, TelemetryGuard, bad_filter, build_tracer_provider, drop, endpoint_of, init,
  install_subscriber, logs, reports, set_provider, sets_provider, shut_provider, shuts_provider,
}

abbrev pub set_by : Act → List Text
set_by (sets_provider endpoint) = endpoint ∷ []
set_by _ = []

abbrev pub shut_by : Act → List Text
shut_by (shuts_provider endpoint) = endpoint ∷ []
shut_by _ = []

abbrev pub one_or_none : Option Text → List Text
one_or_none none = []
one_or_none (some endpoint) = endpoint ∷ []

module _ (t : Tracing) where
  abbrev pub Sets : TelemetryGuard × List Act → Type 0
  Sets (guard, acts) =
      (flat_map set_by acts ≡ one_or_none guard.tracer_provider) × (flat_map shut_by acts ≡ [])

  started_acts : Text → Text → Option Text → List Act
  started_acts filter name provider =
      set_provider t provider
      ++ (install_subscriber t filter name provider
          ++ (reports (is_some provider) ∷ logs (txt "telemetry initialized") ∷ []))

  started-Sets :
      (filter name : Text) (provider : Option Text)
      → Sets (record { tracer_provider = provider }, started_acts filter name provider)
  unfolding started_acts set_provider install_subscriber flat_map
  started-Sets filter name none = ground arith
  started-Sets filter name (some endpoint) = ground arith

  pub init-Sets :
      (var : Text → Option Text) (name : Text) {started : TelemetryGuard × List Act}
      → init t var name ≡ ok started
      → Sets started
  unfolding init started_acts
  init-Sets var name {started} h =
      let filter = unwrap_or (var (txt "RUST_LOG")) (txt "info,act_api_server=debug") in
      let provider =
        build_tracer_provider t (endpoint_of t (var (txt "OTEL_EXPORTER_OTLP_ENDPOINT"))) in
      let (u, parsed, same) = >>=-eq-ok (ensure (t.parses_filter filter) bad_filter) _ h in
      subst Sets (ok-injective _ _ same) (started-Sets filter name provider)

  -- What the guard's end does to the provider.
  abbrev pub Shuts : TelemetryGuard → Type 0
  Shuts guard =
      (flat_map set_by (drop t guard) ≡ [])
      × (flat_map shut_by (drop t guard) ≡ one_or_none guard.tracer_provider)

  shut-Shuts : (provider : Option Text) → Shuts (record { tracer_provider = provider })
  unfolding drop shut_provider flat_map
  shut-Shuts none = ground arith
  shut-Shuts (some endpoint) = ground arith

  pub drop-Shuts : (guard : TelemetryGuard) → Shuts guard
  drop-Shuts guard = shut-Shuts guard.tracer_provider
