-- ===== src/Server/Run/Orders.antt =====
-- What holds of every run of the process of src/main.rs and src/server.rs.
use mathlib.Core.List.{append-nil}
use act_api_server_rs.Prelude.{
  ◌≡◌, refl, ap, ◌⊎◌, inl, inr, Bool, false, Option, none, some, List, [], ◌∷◌, ◌++◌, map, flat_map,
  flat_map-append, All, Result, ok, err, Result-cases, ok-injective,
}
use act_api_server_rs.Text.{Text, txt}
use act_api_server_rs.DataPlane.Policies.{Url}
use act_api_server_rs.Config.{Config, from_env}
use act_api_server_rs.Flags.{FlagsError, Variables}
use act_api_server_rs.Flags.Control.{is_true, main, main_runs_iff, process_control, var}
use act_api_server_rs.Telemetry.{Act, Tracing, TelemetryGuard, TelemetryError, drop, init}
use act_api_server_rs.Server.Wiring.{Launch, Outside, StartError, serve}
use act_api_server_rs.Server.Wiring.Guards.{IsGuarded, serve-Guarded}
use act_api_server_rs.Server.Run.{
  Moment, Ran, launch, main_controlled, main_resolved, main_run, run, run_configured, says_complete,
  serve_under, telemetry,
}

abbrev pub launch_of : Moment → List Launch
launch_of (launch l) = l ∷ []
launch_of _ = []

-- The parts of the server that are started.
abbrev pub launches : List Moment → List Launch
launches = flat_map launch_of

launches-launch : (ls : List Launch) → launches (map launch ls) ≡ ls
unfolding flat_map
launches-launch [] = refl
launches-launch (l ∷ ls) = ap (λ xs. l ∷ xs) (launches-launch ls)

launches-telemetry : (acts : List Act) → launches (map telemetry acts) ≡ []
unfolding flat_map
launches-telemetry [] = refl
launches-telemetry (a ∷ acts) = launches-telemetry acts

module _ (o : Outside) (t : Tracing) (parse_url : Text → Option Url)
    (is_socket_addr : Text → Bool) where
  says_complete-launches :
      (r : Result (Unit {0}) StartError)
      → launches (says_complete o t parse_url is_socket_addr r) ≡ []
  unfolding says_complete flat_map
  says_complete-launches (ok u) = refl
  says_complete-launches (err e) = refl

  serve_under-launches :
      (c : Config) (r : Result (TelemetryGuard × List Act) TelemetryError)
      → let ran = serve_under o t parse_url is_socket_addr c r in
        (launches ran.moments ≡ []) ⊎ (launches ran.moments ≡ (serve o c).launched)
  unfolding serve_under flat_map
  serve_under-launches c (err e) = inl refl
  serve_under-launches c (ok (guard, acts)) =
      let s = serve o c in
      let said = says_complete o t parse_url is_socket_addr s.outcome in
      inr (
        rw
          (
            flat_map-append launch_of (map telemetry acts)
                (map launch s.launched ++ (said ++ map telemetry (drop t guard))),
            launches-telemetry acts,
            flat_map-append launch_of (map launch s.launched)
                (said ++ map telemetry (drop t guard)),
            launches-launch s.launched,
            flat_map-append launch_of said (map telemetry (drop t guard)),
            says_complete-launches s.outcome,
            launches-telemetry (drop t guard),
          )
          (append-nil s.launched))

  -- What is started is nothing, or what an accepted configuration allows.
  abbrev pub IsGuardedRun : Result Variables FlagsError → Ran → Type 0
  IsGuardedRun resolved ran =
      (launches ran.moments ≡ [])
      ⊎ ((values : Variables) × (c : Config) × (resolved ≡ ok values)
          × (is_true (var values (txt "CLI_HELP_REQUESTED")) ≡ false)
          × (is_true (var values (txt "CLI_VERSION_REQUESTED")) ≡ false)
          × (from_env (var values) parse_url is_socket_addr ≡ ok c)
          × All (IsGuarded c) (launches ran.moments))

  run-Guarded :
      (values : Variables)
      → (launches (run o t parse_url is_socket_addr (var values)).moments ≡ [])
        ⊎ ((c : Config) × (from_env (var values) parse_url is_socket_addr ≡ ok c)
            × All (IsGuarded c) (launches (run o t parse_url is_socket_addr (var values)).moments))
  unfolding run run_configured flat_map
  run-Guarded values = elim (Result-cases (from_env (var values) parse_url is_socket_addr)) [
    | inr (x, e) ↦ inl (rw e refl)
    | inl (c, e) ↦ elim (serve_under-launches c (init t (var values) c.service_name)) [
      | inl nothing ↦ inl (rw e nothing)
      | inr all ↦
          inr (c, e, rw (e, all) (serve-Guarded o (var values) parse_url is_socket_addr e).0)
    ]
  ]

  -- In every run of the process, whatever third-party code answers, either no part of the server is
  -- started, or the command line and the environment resolve to values that ask neither for help nor
  -- for the version and that make an accepted configuration, and every part is started under its
  -- guard: the mTLS listener only with Shared Auth and its limit of connections, the durable worker
  -- only with Shared Auth, a database and an attestation key of 32 bytes or more, and HTTP on the
  -- configured port with a YouTube client only beside Shared Auth.
  pub main_run-Guarded :
      (resolved : Result Variables FlagsError) (help : Result Text FlagsError) (version : Text)
      → IsGuardedRun resolved (main_run o t parse_url is_socket_addr resolved help version)
  unfolding main_run main_resolved main_controlled flat_map
  main_run-Guarded (err e) help version = inl refl
  main_run-Guarded (ok values) help version =
      elim (Result-cases (process_control (ok values) help version)) [
        | inr (x, e) ↦ inl (rw e refl)
        | inl (some output, e) ↦ inl (rw e refl)
        | inl (none, e) ↦
            let (others, same, no_help, no_version) =
              (main_runs_iff (ok values) help version).0 (unfold main in rw e refl) in
            let own : values ≡ others = ok-injective values others same in
            elim (run-Guarded values) [
              | inl nothing ↦ inl (rw e nothing)
              | inr (c, accepted, guarded) ↦
                  inr (values, c, refl, rw own no_help, rw own no_version, accepted, rw e guarded)
            ]
      ]
