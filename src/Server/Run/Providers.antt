-- ===== src/Server/Run/Providers.antt =====
-- src/telemetry.rs within src/server.rs: a trace provider that is set is shut down in the end.
use mathlib.Core.List.{append-nil}
use act_api_server_rs.Prelude.{
  ◌≤◌, ◌≡◌, refl, ap, inl, inr, Bool, Option, none, some, List, [], ◌∷◌, ◌++◌, map, flat_map,
  flat_map-append, length, arith, Result, ok, err, Result-cases,
}
use act_api_server_rs.Text.{Text}
use act_api_server_rs.DataPlane.Policies.{Url}
use act_api_server_rs.Config.{Config, from_env}
use act_api_server_rs.Flags.{FlagsError, Variables}
use act_api_server_rs.Flags.Control.{process_control, var}
use act_api_server_rs.Telemetry.{Act, Tracing, TelemetryGuard, drop, init}
use act_api_server_rs.Telemetry.Providers.{
  set_by, shut_by, one_or_none, Sets, init-Sets, drop-Shuts,
}
use act_api_server_rs.Server.Wiring.{Launch, Outside, StartError, serve}
use act_api_server_rs.Server.Run.{
  Moment, launch, main_controlled, main_resolved, main_run, run, run_configured, says_complete,
  serve_under, telemetry,
}

-- What the moments of the telemetry give, and the other ones do not.
abbrev pub of_telemetry : (Act → List Text) → Moment → List Text
of_telemetry by (telemetry act) = by act
of_telemetry by _ = []

-- The providers that are set, and those that are shut down.
abbrev pub providers_set : List Moment → List Text
providers_set = flat_map (of_telemetry set_by)

abbrev pub providers_shut : List Moment → List Text
providers_shut = flat_map (of_telemetry shut_by)

-- At most one provider is set, and the same is shut down.
abbrev pub IsBalanced : List Moment → Type 0
IsBalanced ms = (providers_shut ms ≡ providers_set ms) × (length (providers_set ms) ≤ 1)

module _ (by : Act → List Text) where
  of_telemetry-telemetry :
      (acts : List Act) → flat_map (of_telemetry by) (map telemetry acts) ≡ flat_map by acts
  unfolding flat_map
  of_telemetry-telemetry [] = refl
  of_telemetry-telemetry (a ∷ acts) = ap (λ ts. by a ++ ts) (of_telemetry-telemetry acts)

  of_telemetry-launch : (ls : List Launch) → flat_map (of_telemetry by) (map launch ls) ≡ []
  unfolding flat_map
  of_telemetry-launch [] = refl
  of_telemetry-launch (l ∷ ls) = of_telemetry-launch ls

  module _ (o : Outside) (t : Tracing) (parse_url : Text → Option Url)
      (is_socket_addr : Text → Bool) where
    of_telemetry-says_complete :
        (r : Result (Unit {0}) StartError)
        → flat_map (of_telemetry by) (says_complete o t parse_url is_socket_addr r) ≡ []
    unfolding says_complete flat_map
    of_telemetry-says_complete (ok u) = refl
    of_telemetry-says_complete (err e) = refl

    -- What the telemetry of a whole run gives.
    of_telemetry-serve_under :
        (c : Config) (guard : TelemetryGuard) (acts : List Act)
        → flat_map
            (of_telemetry by)
            (serve_under o t parse_url is_socket_addr c (ok (guard, acts))).moments
          ≡ flat_map by acts ++ flat_map by (drop t guard)
    unfolding serve_under
    of_telemetry-serve_under c guard acts =
        let s = serve o c in
        let said = says_complete o t parse_url is_socket_addr s.outcome in
        let ends = map telemetry (drop t guard) in
        rw
          (
            flat_map-append (of_telemetry by) (map telemetry acts)
                (map launch s.launched ++ (said ++ ends)),
            of_telemetry-telemetry acts,
            flat_map-append (of_telemetry by) (map launch s.launched) (said ++ ends),
            of_telemetry-launch s.launched,
            flat_map-append (of_telemetry by) said ends,
            of_telemetry-says_complete s.outcome,
            of_telemetry-telemetry (drop t guard),
          )
          refl

module _ (o : Outside) (t : Tracing) (parse_url : Text → Option Url)
    (is_socket_addr : Text → Bool) where
  one_or_none-short : (provider : Option Text) → length (one_or_none provider) ≤ 1
  one_or_none-short none = omega arith
  one_or_none-short (some endpoint) = omega arith

  serve_under-IsBalanced :
      (c : Config) (guard : TelemetryGuard) (acts : List Act)
      → Sets t (guard, acts)
      → IsBalanced (serve_under o t parse_url is_socket_addr c (ok (guard, acts))).moments
  serve_under-IsBalanced c guard acts (started, before) =
      let (after, ended) = drop-Shuts t guard in
      let sets = of_telemetry-serve_under set_by o t parse_url is_socket_addr c guard acts in
      let shuts = of_telemetry-serve_under shut_by o t parse_url is_socket_addr c guard acts in
      rw
        (sets, shuts, started, before, after, ended, append-nil (one_or_none guard.tracer_provider))
        (refl, one_or_none-short guard.tracer_provider)

  run-IsBalanced :
      (flag : Text → Option Text) → IsBalanced (run o t parse_url is_socket_addr flag).moments
  unfolding run run_configured flat_map
  run-IsBalanced flag = elim (Result-cases (from_env flag parse_url is_socket_addr)) [
    | inr (x, e) ↦ rw e (refl, omega arith)
    | inl (c, e) ↦ elim (Result-cases (init t flag c.service_name)) [
      | inr (x, i) ↦ rw (e, i, serve_under) (refl, omega arith)
      | inl ((guard, acts), i) ↦
          rw (e, i) (serve_under-IsBalanced c guard acts (init-Sets t flag c.service_name i))
    ]
  ]

  -- In every run of the process, whatever third-party code answers and however the server ends, at
  -- most one trace provider is set, and what has been set is shut down when the process ends, a
  -- failed start included.
  pub main_run-IsBalanced :
      (resolved : Result Variables FlagsError) (help : Result Text FlagsError) (version : Text)
      → IsBalanced (main_run o t parse_url is_socket_addr resolved help version).moments
  unfolding main_run main_resolved main_controlled flat_map
  main_run-IsBalanced (err e) help version = (refl, omega arith)
  main_run-IsBalanced (ok values) help version =
      elim (Result-cases (process_control (ok values) help version)) [
        | inr (x, e) ↦ rw e (refl, omega arith)
        | inl (some output, e) ↦ rw e (refl, omega arith)
        | inl (none, e) ↦ rw e (run-IsBalanced (var values))
      ]
