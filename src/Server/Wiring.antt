-- ===== src/Server/Wiring.antt =====
-- src/server.rs: `serve` and `mtls_acceptor`, what they start and in which order. What NATS, the
-- database, the TLS library, the HTTP client and the sockets answer is a parameter.
pub mod Guards
pub mod Soft
use act_api_server_rs.Prelude.{
  ℕ, Bool, true, false, not, ◌&&◌, Option, none, some, List, [], ◌∷◌, ◌++◌, all, if◌then◌else◌,
  Result, ok, err, ◌>>=◌, ◌>>◌, ensure, ok_or,
}
use act_api_server_rs.Text.{Text}
use act_api_server_rs.DataPlane.Frames.{Bytes}
use act_api_server_rs.Config.{Config, MtlsConfig, SharedAuthConfig, YoutubeConfig}
use act_api_server_rs.Youtube.Client.{YoutubeGasClient}
use act_api_server_rs.Transport.Connections.{max_tcp_connections}
use act_api_server_rs.Transport.Worker.Loop.{JetStreamConfig, default_config}

-- What the router is given.
pub record HttpState : Type 0 where
  pub nats : Bool
  pub youtube : Option YoutubeGasClient
  pub shared_auth : Bool
  pub operation_journal : Bool

-- What the server starts beside itself, and the HTTP server on its port.
pub data Launch : Type 0 where
  event_subscriber : Launch
  mtls_listener : Text → ℕ → Launch
  jetstream_worker : Text → JetStreamConfig → Launch
  http_server : HttpState → ℕ → Launch

pub data StartError : Type 0 where
  youtube_client shared_auth_client mtls_without_auth : StartError
  unreadable_pem no_certificates unusable_key no_client_ca bad_client_ca tls_failed : StartError
  bad_address mtls_bind http_bind supervision : StartError

-- What third-party code answers to the calls of `serve`.
pub record Outside : Type 0 where
  pub connects_nats : Text → Bool
  pub connects_database : Text → Bool
  pub builds_youtube : YoutubeConfig → Bool
  pub builds_verifier : SharedAuthConfig → Bool
  pub pem_file : Text → Option (List Bytes)
  pub private_key : Text → Bool
  pub adds_root : Bytes → Bool
  pub builds_tls : List Bytes → List Bytes → Bool
  pub parses_address : Text → Bool
  pub binds_mtls : Text → Bool
  pub binds_http : ℕ → Bool
  pub supervised : Bool

pub record Started : Type 0 where
  pub outcome : Result (Unit {0}) StartError
  pub launched : List Launch

abbrev pub failed : StartError → Started
failed e = record { outcome = err e; launched = [] }

abbrev pub launching : List Launch → Started → Started
launching ls s = record { outcome = s.outcome; launched = ls ++ s.launched }

abbrev is_nil : List Bytes → Bool
is_nil [] = true
is_nil (c ∷ cs) = false

module _ (o : Outside) where
  -- `mtls_acceptor`
  unfoldable pub mtls_acceptor : MtlsConfig → Result (Unit {0}) StartError
  mtls_acceptor m = do
    certificates ← ok_or (o.pem_file m.certificate_file) unreadable_pem
    ensure (not (is_nil certificates)) no_certificates
    ensure (o.private_key m.private_key_file) unusable_key
    client_certificates ← ok_or (o.pem_file m.client_ca_file) unreadable_pem
    ensure (not (is_nil client_certificates)) no_client_ca
    ensure (all o.adds_root client_certificates) bad_client_ca
    ensure (o.builds_tls client_certificates certificates) tls_failed

  -- `YoutubeGasClient::new`
  client_of : YoutubeConfig → YoutubeGasClient
  client_of y = record {
    web_app_url = y.web_app_url;
    api_key = y.api_key;
    expected_channel_handle = y.expected_channel_handle;
    max_response_bytes = y.max_response_bytes;
    allow_public_actions = y.allow_public_actions;
  }

  build_youtube : Option YoutubeConfig → Result (Option YoutubeGasClient) StartError
  unfolding client_of
  build_youtube none = ok none
  build_youtube (some y) = do ensure (o.builds_youtube y) youtube_client; ok (some (client_of y))

  -- Whether there is a verifier.
  build_verifier : Option SharedAuthConfig → Result Bool StartError
  build_verifier none = ok false
  build_verifier (some a) = do ensure (o.builds_verifier a) shared_auth_client; ok true

  mtls_part : Option MtlsConfig → Bool → Result (List Launch) StartError
  mtls_part none auth = ok []
  mtls_part (some m) auth = do
    ensure auth mtls_without_auth
    mtls_acceptor m
    ensure (o.parses_address m.address) bad_address
    ensure (o.binds_mtls m.address) mtls_bind
    ok (mtls_listener m.address max_tcp_connections ∷ [])

  worker_part : Bool → Bool → Option Text → List Launch
  worker_part nats auth none = []
  worker_part nats auth (some key) =
      if nats && auth then jetstream_worker key default_config ∷ [] else []

  -- Whether there is a journal, and the worker on it.
  journal_part : Config → Bool → Bool → Option Text → Bool × List Launch
  unfolding worker_part
  journal_part c nats auth none = (false, [])
  journal_part c nats auth (some url) =
      if o.connects_database url
      then (true, worker_part nats auth c.operation_attestation_key)
      else (false, [])

  http_part : HttpState → ℕ → Started
  http_part state port =
      if o.binds_http port
      then record {
        outcome = ensure o.supervised supervision;
        launched = http_server state port ∷ [];
      }
      else failed http_bind

  from_listener :
      Config → Bool → Option YoutubeGasClient → Bool → Result (List Launch) StartError → Started
  unfolding journal_part http_part
  from_listener c nats youtube auth (err e) = failed e
  from_listener c nats youtube auth (ok listener) =
      let (journal, worker) = journal_part c nats auth c.operation_database_url in
      let state : HttpState = record {
        nats = nats;
        youtube = youtube;
        shared_auth = auth;
        operation_journal = journal;
      } in
      launching listener (launching worker (http_part state c.port))

  from_clients : Config → Bool → Result (Option YoutubeGasClient × Bool) StartError → Started
  unfolding from_listener mtls_part
  from_clients c nats (err e) = failed e
  from_clients c nats (ok (youtube, auth)) =
      from_listener c nats youtube auth (mtls_part c.mtls auth)

  build_clients : Config → Result (Option YoutubeGasClient × Bool) StartError
  unfolding build_youtube build_verifier
  build_clients c = do
    youtube ← build_youtube c.youtube
    auth ← build_verifier c.shared_auth
    ok (youtube, auth)

  -- `serve`
  unfoldable pub serve : Config → Started
  unfolding from_clients build_clients
  serve c =
      let nats = o.connects_nats c.nats_url in
      launching (if nats then event_subscriber ∷ [] else []) (from_clients c nats (build_clients c))
