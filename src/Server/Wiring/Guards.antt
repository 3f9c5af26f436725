-- ===== src/Server/Wiring/Guards.antt =====
-- src/server.rs and src/config.rs: what `serve` starts with a configuration that `Config::from_env`
-- has accepted.
use mathlib.Core.Option.{some-injective}
use act_api_server_rs.Prelude.{
  ◌≤◌, ◌≡◌, refl, sym, ap, ◌∙◌, subst, inl, inr, Bool, true, false, ◌&&◌, Option, none, some, List,
  [], ◌∷◌, All, All-append, arith, is_some, if◌then◌else◌, ok, err, ensure, Bool-cases,
  Result-cases, >>=-eq-ok, ok-injective,
}
use act_api_server_rs.Text.{Text}
use act_api_server_rs.DataPlane.Policies.{Url}
use act_api_server_rs.Environment.{bad_secret}
use act_api_server_rs.Config.{Config, MtlsConfig, SharedAuthConfig, YoutubeConfig, from_env}
use act_api_server_rs.Config.Startup.{IsSafe, from_env-IsSafe}
use act_api_server_rs.Youtube.Client.{YoutubeGasClient}
use act_api_server_rs.Transport.Connections.{max_tcp_connections}
use act_api_server_rs.Transport.Worker.Loop.{max_concurrent_operations}
use act_api_server_rs.Server.Wiring.{
  HttpState, Launch, event_subscriber, mtls_listener, jetstream_worker, http_server,
  mtls_without_auth, Outside, Started, launching, mtls_acceptor, build_youtube, build_verifier,
  mtls_part, worker_part, journal_part, http_part, from_listener, from_clients, build_clients,
  serve, bad_address, mtls_bind,
}

-- A part is started only with what it needs to tell its callers apart.
abbrev pub IsGuarded : Config → Launch → Type 0
IsGuarded c event_subscriber = Unit
IsGuarded c (mtls_listener address limit) =
    (is_some c.shared_auth ≡ true) × (limit ≡ max_tcp_connections)
IsGuarded c (jetstream_worker key config) =
    (is_some c.shared_auth ≡ true)
    × (is_some c.operation_database_url ≡ true)
    × (c.operation_attestation_key ≡ some key)
    × (bad_secret 32 key ≡ false)
    × (config.max_concurrency ≤ max_concurrent_operations)
IsGuarded c (http_server state port) =
    (port ≡ c.port)
    × (state.shared_auth ≡ is_some c.shared_auth)
    × (is_some state.youtube ≡ true → state.shared_auth ≡ true)

module _ (o : Outside) where
  verifier_lem :
      (a : Option SharedAuthConfig) {auth : Bool} → build_verifier o a ≡ ok auth → auth ≡ is_some a
  unfolding build_verifier
  verifier_lem none h = ground arith
  verifier_lem (some a) h = ground arith

  youtube_lem :
      (y : Option YoutubeConfig) {client : Option YoutubeGasClient}
      → build_youtube o y ≡ ok client
      → is_some client ≡ is_some y
  unfolding build_youtube
  youtube_lem none h = ground arith
  youtube_lem (some y) h = ground arith

  clients_lem :
      (c : Config) {client : Option YoutubeGasClient} {auth : Bool}
      → build_clients o c ≡ ok (client, auth)
      → (is_some client ≡ is_some c.youtube) × (auth ≡ is_some c.shared_auth)
  unfolding build_clients
  clients_lem c {client} {auth} h =
      let (y, p, h₁) = >>=-eq-ok (build_youtube o c.youtube) _ h in
      let (a, q, h₂) = >>=-eq-ok (build_verifier o c.shared_auth) _ h₁ in
      let same : (y, a) ≡ (client, auth) = ok-injective _ _ h₂ in
      (
        ap (λ (x : Option YoutubeGasClient × Bool). is_some x.0) (sym same)
            ∙ youtube_lem c.youtube p,
        ap (λ (x : Option YoutubeGasClient × Bool). x.1) (sym same) ∙ verifier_lem c.shared_auth q,
      )

  clients_fail : (c : Config) → build_clients o c ≡ err mtls_without_auth → ⊥
  unfolding build_clients build_youtube build_verifier
  clients_fail c h = ground arith

  acceptor_fails : (m : MtlsConfig) → mtls_acceptor o m ≡ err mtls_without_auth → ⊥
  unfolding mtls_acceptor
  acceptor_fails m h = ground arith

  -- Started with nothing unguarded, and not for want of Shared Auth behind the mTLS listener.
  abbrev pub Guarded : Config → Started → Type 0
  Guarded c s = All (IsGuarded c) s.launched × (s.outcome ≡ err mtls_without_auth → ⊥)

  module _ (flag : Text → Option Text) (parse_url : Text → Option Url)
      (is_socket_addr : Text → Bool) (c : Config)
      (safe : IsSafe flag parse_url is_socket_addr c) where
    listener-IsGuarded :
        (m : Option MtlsConfig) (auth : Bool) {ls : List Launch}
        → (is_some m ≡ true → is_some c.shared_auth ≡ true)
        → mtls_part o m auth ≡ ok ls
        → All (IsGuarded c) ls
    unfolding mtls_part
    listener-IsGuarded none auth f h = rw (← ok-injective _ _ h) tt
    listener-IsGuarded (some m) auth {ls} f h =
        let (_, _, h₁) = >>=-eq-ok (ensure auth mtls_without_auth) _ h in
        let (_, _, h₂) = >>=-eq-ok (mtls_acceptor o m) _ h₁ in
        let (_, _, h₃) = >>=-eq-ok (ensure (o.parses_address m.address) bad_address) _ h₂ in
        let (_, _, h₄) = >>=-eq-ok (ensure (o.binds_mtls m.address) mtls_bind) _ h₃ in
        let same : mtls_listener m.address max_tcp_connections ∷ [] ≡ ls = ok-injective _ _ h₄ in
        rw (← same) ((f refl, refl), tt)

    listener_fails :
        (m : Option MtlsConfig) (auth : Bool)
        → (is_some m ≡ true → auth ≡ true)
        → mtls_part o m auth ≡ err mtls_without_auth
        → ⊥
    unfolding mtls_part
    listener_fails none auth f h = cc
    listener_fails (some m) auth f h =
        let on = f refl in
        elim (Result-cases (mtls_acceptor o m)) [
          | inl (_, e) ↦ ground arith
          | inr (x, e) ↦
              let own : x ≡ mtls_without_auth = ground arith in acceptor_fails m (e ∙ ap err own)
        ]

    worker-IsGuarded :
        (nats auth : Bool) (key : Option Text)
        → is_some c.operation_database_url ≡ true
        → c.operation_attestation_key ≡ key
        → All (IsGuarded c) (worker_part o nats auth key)
    unfolding worker_part
    worker-IsGuarded nats auth none on e = tt
    worker-IsGuarded nats auth (some key) on e =
        let ((k, held, good), shared, _) = safe.durable on in
        let same : k ≡ key = some-injective k key (sym held ∙ e) in
        elim (Bool-cases (nats && auth)) [
          | inl up ↦
              rw up
                ((shared, on, e, subst (λ x. bad_secret 32 x ≡ false) same good, omega arith), tt)
          | inr down ↦ rw down tt
        ]

    journal-IsGuarded :
        (nats auth : Bool) (database : Option Text)
        → c.operation_database_url ≡ database
        → All (IsGuarded c) (journal_part o c nats auth database).1
    unfolding journal_part
    journal-IsGuarded nats auth none e = tt
    journal-IsGuarded nats auth (some url) e = elim (Bool-cases (o.connects_database url)) [
      | inl up ↦ rw up (worker-IsGuarded nats auth c.operation_attestation_key (ap is_some e) refl)
      | inr down ↦ rw down tt
    ]

    http-Guarded :
        (state : HttpState)
        → state.shared_auth ≡ is_some c.shared_auth
        → is_some state.youtube ≡ is_some c.youtube
        → Guarded c (http_part o state c.port)
    unfolding http_part
    http-Guarded state same youtube = elim (Bool-cases (o.binds_http c.port)) [
      | inl up ↦
          rw up
            (((refl, same, λ on. same ∙ safe.guarded_youtube (sym youtube ∙ on)), tt), ground arith)
      | inr down ↦ rw down (tt, λ h. cc)
    ]

    launching-Guarded :
        (ls : List Launch) (s : Started)
        → All (IsGuarded c) ls
        → Guarded c s
        → Guarded c (launching ls s)
    launching-Guarded ls s h (k, e) = (All-append (IsGuarded c) ls s.launched h k, e)

    listened-Guarded :
        (nats : Bool) (youtube : Option YoutubeGasClient) (auth : Bool)
        → auth ≡ is_some c.shared_auth
        → is_some youtube ≡ is_some c.youtube
        → Guarded c (from_listener o c nats youtube auth (mtls_part o c.mtls auth))
    unfolding from_listener
    listened-Guarded nats youtube auth same client = elim (Result-cases (mtls_part o c.mtls auth)) [
      | inl (ls, e) ↦ rw e (
          launching-Guarded ls _ (listener-IsGuarded c.mtls auth safe.guarded_mtls e) (
            launching-Guarded _ _ (journal-IsGuarded nats auth c.operation_database_url refl)
              (http-Guarded _ same client)))
      | inr (x, e) ↦ rw e (
        tt,
        λ h.
            let own : x ≡ mtls_without_auth = ground arith in
            listener_fails c.mtls auth (λ on. same ∙ safe.guarded_mtls on) (e ∙ ap err own),
      )
    ]

    started-Guarded : Guarded c (serve o c)
    unfolding serve from_clients
    started-Guarded =
        launching-Guarded _ _ (subscriber (o.connects_nats c.nats_url))
          (elim (Result-cases (build_clients o c)) [
            | inl ((client, auth), e) ↦ rw e (
                listened-Guarded (o.connects_nats c.nats_url) client auth (clients_lem c e).1
                  (clients_lem c e).0)
            | inr (x, e) ↦ rw e (
              tt,
              λ h.
                  let own : x ≡ mtls_without_auth = ground arith in clients_fail c (e ∙ ap err own),
            )
          ])
      where
        subscriber : (up : Bool) → All (IsGuarded c) (if up then event_subscriber ∷ [] else [])
        subscriber true = (tt, tt)
        subscriber false = tt

  -- A server that starts with an accepted configuration, whatever its clients, files, sockets, NATS
  -- and the database answer, starts the mTLS listener only with Shared Auth and its limit of 128
  -- connections, the durable worker only with Shared Auth, a database and an attestation key of 32
  -- bytes or more, and serves HTTP on the configured port with a YouTube client only beside Shared
  -- Auth; it never fails because the listener lacks Shared Auth.
  pub serve-Guarded :
      (flag : Text → Option Text) (parse_url : Text → Option Url) (is_socket_addr : Text → Bool)
      {c : Config}
      → from_env flag parse_url is_socket_addr ≡ ok c
      → Guarded c (serve o c)
  serve-Guarded flag parse_url is_socket_addr {c} h =
      started-Guarded flag parse_url is_socket_addr c
        (from_env-IsSafe flag parse_url is_socket_addr h)
