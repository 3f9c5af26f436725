-- ===== src/Config/Startup.antt =====
-- What a configuration that `from_env` of src/config.rs accepts is known to have.
use act_api_server_rs.Config.{
  allow_public_actions_of, channel_handle_of, max_response_bytes_of, timeout_secs_of,
  attestation_key_of, database_url_of, mtls_of, nats_url_of, port_of, shared_auth_of, youtube_of,
  Config, SharedAuthConfig, YoutubeConfig, check_durable, from_env, parse_youtube,
  validate_operation_configuration,
}
use act_api_server_rs.Environment.{
  env_non_empty, is_exec_path, trim_end_slashes, bad_response_limit, bad_secret, bad_timeout,
  gas_url_invalid, is_script_host, mtls_needs_shared_auth, parse_apps_script_url, short_api_key,
  validate_durable_nats_url, youtube_needs_shared_auth,
}
use act_api_server_rs.Prelude.{
  ◌≤◌, ◌≡◌, refl, ap, ◌∙◌, subst, Bool, true, false, not, ◌&&◌, ◌||◌, Option, none, some, ◌++◌,
  arith, leb, in_range, in_range_iff, is_some, ok, ensure, ok_or, >>=-eq-ok, ensure-eq-ok,
  ok-injective,
}
use act_api_server_rs.Text.{Text, txt, text_eq, byte_len, starts_with}
use act_api_server_rs.Text.Laws.{text_eq-eq, starts_with-append}
use act_api_server_rs.DataPlane.Policies.{Url}
use mathlib.Core.Option.{some-injective}

-- What the YouTube settings are bounded by.
pub record IsBoundedYoutube (parse_url : Text → Option Url) (y : YoutubeConfig) : Type 0 where
  pub long_key : 32 ≤ byte_len y.api_key
  pub timeout_bounds : (1 ≤ y.timeout_secs) × (y.timeout_secs ≤ 120)
  pub response_bounds : (1024 ≤ y.max_response_bytes) × (y.max_response_bytes ≤ 16777216)
  pub handle : starts_with y.expected_channel_handle (txt "@") ≡ true
  pub secure : y.web_app_url.scheme ≡ txt "https"
  pub google : y.web_app_url.host_str ≡ some (txt "script.google.com")

script_host : (o : Option Text) → is_script_host o ≡ true → o ≡ some (txt "script.google.com")
script_host none h = cc
script_host (some host) h = ap some (text_eq-eq host (txt "script.google.com") h)

url_parts :
    (parse_url : Text → Option Url) (raw : Text) {url : Url}
    → parse_apps_script_url parse_url raw ≡ ok url
    → (url.scheme ≡ txt "https") × (url.host_str ≡ some (txt "script.google.com"))
unfolding parse_apps_script_url
url_parts parse_url raw {url} h =
    let (u, p, h₁) = >>=-eq-ok (ok_or (parse_url raw) gas_url_invalid) _ h in
    let (v, q, h₂) = >>=-eq-ok (ensure (text_eq u.scheme (txt "https")) _) _ h₁ in
    let (w, r, h₃) = >>=-eq-ok (ensure (is_script_host u.host_str) _) _ h₂ in
    let (x, s, h₄) = >>=-eq-ok (ensure (not (is_some u.query || is_some u.fragment)) _) _ h₃ in
    let (y, t, h₅) = >>=-eq-ok (ensure (is_exec_path (trim_end_slashes u.path)) _) _ h₄ in
    let same : u ≡ url = ok-injective u url h₅ in
    subst (λ (z : Url). (z.scheme ≡ txt "https") × (z.host_str ≡ some (txt "script.google.com")))
      same
      (
        text_eq-eq u.scheme (txt "https") (ensure-eq-ok _ _ q),
        script_host u.host_str (ensure-eq-ok _ _ r),
      )

module _ (flag : Text → Option Text) (parse_url : Text → Option Url)
    (is_socket_addr : Text → Bool) where
  youtube_parts :
      (raw_url api_key : Option Text) {y : YoutubeConfig}
      → parse_youtube flag parse_url is_socket_addr raw_url api_key ≡ ok (some y)
      → IsBoundedYoutube parse_url y
  unfolding parse_youtube
  youtube_parts none none h = cc
  youtube_parts none (some api_key) h = cc
  youtube_parts (some raw) none h = cc
  youtube_parts (some raw) (some api_key) {y} h =
      let (a, p, h₁) = >>=-eq-ok (ensure (leb 32 (byte_len api_key)) short_api_key) _ h in
      let (url, q, h₂) = >>=-eq-ok (parse_apps_script_url parse_url raw) _ h₁ in
      let (b, r, h₃) =
        >>=-eq-ok
          (ensure (starts_with (channel_handle_of flag parse_url is_socket_addr) (txt "@")) _) _
          h₂ in
      let (secs, s, h₄) = >>=-eq-ok (timeout_secs_of flag parse_url is_socket_addr) _ h₃ in
      let (c, t, h₅) = >>=-eq-ok (ensure (in_range 1 120 secs) bad_timeout) _ h₄ in
      let (limit, u, h₆) = >>=-eq-ok (max_response_bytes_of flag parse_url is_socket_addr) _ h₅ in
      let (d, v, h₇) = >>=-eq-ok (ensure (in_range 1024 16777216 limit) bad_response_limit) _ h₆ in
      let (allow, w, h₈) = >>=-eq-ok (allow_public_actions_of flag parse_url is_socket_addr) _ h₇ in
      let long : 32 ≤ byte_len api_key = ground (arith, ensure-eq-ok _ _ p) in
      subst (IsBoundedYoutube parse_url) (some-injective _ y (ok-injective _ (some y) h₈)) (record {
        long_key = long;
        timeout_bounds = (in_range_iff 1 120 secs).0 (ensure-eq-ok _ _ t);
        response_bounds = (in_range_iff 1024 16777216 limit).0 (ensure-eq-ok _ _ v);
        handle = ensure-eq-ok _ _ r;
        secure = (url_parts parse_url raw q).0;
        google = (url_parts parse_url raw q).1;
      })

  -- A durable configuration: a database with a key for its attestations, Shared Auth, and a NATS URL
  -- that has passed the check.
  abbrev pub IsDurable : Config → Type 0
  IsDurable c =
      ((key : Text) × (c.operation_attestation_key ≡ some key) × (bad_secret 32 key ≡ false))
      × (is_some c.shared_auth ≡ true)
      × (validate_durable_nats_url c.nats_url ≡ ok tt)

  -- What holds of every configuration that the server starts with.
  pub record IsSafe (c : Config) : Type 0 where
    pub guarded_youtube : is_some c.youtube ≡ true → is_some c.shared_auth ≡ true
    pub guarded_mtls : is_some c.mtls ≡ true → is_some c.shared_auth ≡ true
    pub durable : is_some c.operation_database_url ≡ true → IsDurable c
    pub keyless : is_some c.operation_database_url ≡ false → c.operation_attestation_key ≡ none
    pub bounded : (y : YoutubeConfig) → c.youtube ≡ some y → IsBoundedYoutube parse_url y

  implies : (a b : Bool) → not (a && not b) ≡ true → a ≡ true → b ≡ true
  implies a b h e = ground arith

  keys_lem :
      (database : Bool) (key : Option Text)
      → validate_operation_configuration database key ≡ ok tt
      → (database ≡ true → (k : Text) × (key ≡ some k) × (bad_secret 32 k ≡ false))
        × (database ≡ false → key ≡ none)
  unfolding validate_operation_configuration
  keys_lem false none h = (λ e. cc, λ e. refl)
  keys_lem false (some k) h = cc
  keys_lem true none h = cc
  keys_lem true (some k) h = (λ e. (k, refl, ground (arith, ensure-eq-ok _ _ h)), λ e. cc)

  durable_lem :
      (database : Option Text) (nats_url : Text) (shared_auth : Option SharedAuthConfig)
      → check_durable flag parse_url is_socket_addr database nats_url shared_auth ≡ ok tt
      → is_some database ≡ true
      → (is_some shared_auth ≡ true) × (validate_durable_nats_url nats_url ≡ ok tt)
  unfolding check_durable
  durable_lem none nats_url shared_auth h e = cc
  durable_lem (some url) nats_url shared_auth h e =
      let (u, p, h₁) = >>=-eq-ok (validate_durable_nats_url nats_url) _ h in
      (ensure-eq-ok _ _ h₁, p)

  -- The server starts only with a configuration in which the YouTube client, the mTLS listener and
  -- the durable worker each have Shared Auth, the worker also has a NATS URL that passed its check and
  -- a key of 32 bytes or more without control characters, a key comes only with the worker, and the
  -- YouTube settings are within their bounds.
  pub from_env-IsSafe : {c : Config} → from_env flag parse_url is_socket_addr ≡ ok c → IsSafe c
  unfolding from_env
  from_env-IsSafe {c} h =
      let F = flag in
      let U = parse_url in
      let S = is_socket_addr in
      let database = database_url_of F U S in
      let (port, p₁, h₁) = >>=-eq-ok (port_of F U S) _ h in
      let (shared_auth, p₂, h₂) = >>=-eq-ok (shared_auth_of F U S) _ h₁ in
      let (youtube, p₃, h₃) = >>=-eq-ok (youtube_of F U S) _ h₂ in
      let (a, p₄, h₄) =
        >>=-eq-ok
          (ensure (not (is_some youtube && not (is_some shared_auth))) youtube_needs_shared_auth) _
          h₃ in
      let (b, p₅, h₅) =
        >>=-eq-ok (validate_operation_configuration (is_some database) (attestation_key_of F U S)) _
          h₄ in
      let (d, p₆, h₆) =
        >>=-eq-ok (check_durable F U S database (nats_url_of F U S) shared_auth) _ h₅ in
      let (mtls, p₇, h₇) = >>=-eq-ok (mtls_of F U S) _ h₆ in
      let (e, p₈, h₈) =
        >>=-eq-ok (ensure (not (is_some mtls && not (is_some shared_auth))) mtls_needs_shared_auth)
          _ h₇ in
      let keys = keys_lem (is_some database) (attestation_key_of F U S) p₅ in
      let durable' = durable_lem database (nats_url_of F U S) shared_auth p₆ in
      subst IsSafe (ok-injective _ c h₈) (record {
        guarded_youtube = implies (is_some youtube) (is_some shared_auth) (ensure-eq-ok _ _ p₄);
        guarded_mtls = implies (is_some mtls) (is_some shared_auth) (ensure-eq-ok _ _ p₈);
        durable = λ on. (keys.0 on, (durable' on).0, (durable' on).1);
        keyless = keys.1;
        bounded = λ y same.
            youtube_parts (env_non_empty flag (txt "YOUTUBE_GAS_URL"))
              (env_non_empty flag (txt "YOUTUBE_GAS_API_KEY")) (p₃ ∙ ap ok same);
      })

-- The check of a durable NATS URL takes every text that begins with `nats://localhost`, whatever
-- follows, so also the name of another host.
pub validate_durable_nats_url_prefix :
    (rest : Text) → validate_durable_nats_url (txt "nats://localhost" ++ rest) ≡ ok tt
unfolding validate_durable_nats_url
validate_durable_nats_url_prefix rest =
    ground (arith, starts_with-append (txt "nats://localhost") rest)
