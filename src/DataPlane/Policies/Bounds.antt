-- ===== src/DataPlane/Policies/Bounds.antt =====
-- What the policies of src/web_data_plane.rs guarantee when their `validate` accepts them.
use act_api_server_rs.Prelude.{
  ◌≤◌, ◌<◌, ◌≡◌, refl, ◌⊎◌, inl, inr, true, false, ◌||◌, Option, none, some, [], arith, Bool-cases,
  ok, ok_or, >>=-eq-ok,
}
use act_api_server_rs.Text.{Text, txt, text_eq, is_blank, ends_with}
use act_api_server_rs.Text.Laws.{text_eq-eq}
use act_api_server_rs.DataPlane.{unsafe_http_policy}
use act_api_server_rs.DataPlane.Policies.{
  Url, StatelessHttpPolicy, cluster_http, is_cluster_host, unsafe_http, validate_http,
}

-- The traffic of a URL stays confidential: TLS, or the cluster's own network.
abbrev pub IsConfidential : Url → Type 0
IsConfidential url =
    (url.scheme ≡ txt "https")
    ⊎ ((url.scheme ≡ txt "http")
        × ((host : Text) × (url.host_str ≡ some host)
            × (ends_with host (txt ".svc.cluster.local") ≡ true)))

cluster_host :
    (host : Option Text)
    → is_cluster_host host ≡ true
    → (h : Text) × (host ≡ some h) × (ends_with h (txt ".svc.cluster.local") ≡ true)
cluster_host none h = cc
cluster_host (some host) h = (host, refl, h)

IsConfidential-of_tests :
    (url : Url) → (text_eq url.scheme (txt "https") || cluster_http url) ≡ true → IsConfidential url
IsConfidential-of_tests url h = elim (Bool-cases (text_eq url.scheme (txt "https"))) [
  | inl tls ↦ inl (text_eq-eq _ _ tls)
  | inr clear ↦
      inr (
        text_eq-eq url.scheme (txt "http") (ground arith),
        cluster_host url.host_str (ground arith),
      )
]

-- An accepted HTTP policy has a URL that parses and stays confidential, carries no credentials in
-- the URL, follows no redirect, names a credential, and keeps both timeouts and the response bounded.
pub validate_http_safe :
    (parse : Text → Option Url) (p : StatelessHttpPolicy)
    → validate_http parse p ≡ ok tt
    → (url : Url) × (parse p.base_url ≡ some url)
      × IsConfidential url
      × (url.username ≡ [])
      × (url.password ≡ none)
      × (p.redirects_enabled ≡ false)
      × (is_blank p.service_credential_ref ≡ false)
      × ((0 < p.connect_timeout_ms) × (p.connect_timeout_ms ≤ 2000))
      × ((0 < p.request_timeout_ms) × (p.request_timeout_ms ≤ 10000))
      × ((0 < p.max_response_bytes) × (p.max_response_bytes ≤ 1048576))
unfolding validate_http
validate_http_safe parse p h =
    let (url, parsed, rest) = >>=-eq-ok (ok_or (parse p.base_url) unsafe_http_policy) _ h in
    let safe : unsafe_http p url ≡ false = ground arith in
    (
      url,
      ground arith,
      IsConfidential-of_tests url (ground arith),
      ground arith,
      ground arith,
      ground arith,
      ground arith,
      (ground arith, ground arith),
      (ground arith, ground arith),
      (ground arith, ground arith),
    )
