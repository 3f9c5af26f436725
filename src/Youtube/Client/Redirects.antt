-- ===== src/Youtube/Client/Redirects.antt =====
-- src/youtube.rs: which redirects the HTTP client of `YoutubeGasClient::new` follows.
use act_api_server_rs.Prelude.{
  ℕ, ◌+◌, ◌≤◌, ◌≡◌, ap, ◌⊎◌, inl, inr, true, Option, none, some, List, [], ◌∷◌, All, length, leb,
  arith, Bool-cases,
}
use act_api_server_rs.Text.{Text, txt, text_eq}
use act_api_server_rs.Text.Laws.{text_eq-eq}
use act_api_server_rs.Youtube.Client.{follow, stop, refuse, on_redirect, is_google}

-- The hosts that the client goes to when the servers redirect to `hosts`, after `previous` URLs.
pub followed : ℕ → List (Option Text) → List (Option Text)
followed previous [] = []
followed previous (host ∷ hosts) = elim (on_redirect previous host) [
  | follow ↦ host ∷ followed (previous + 1) hosts
  | stop ↦ []
  | refuse ↦ []
]

abbrev pub IsGoogle : Option Text → Type 0
IsGoogle host =
    (host ≡ some (txt "script.google.com")) ⊎ (host ≡ some (txt "script.googleusercontent.com"))

IsGoogle-host : (host : Option Text) → is_google host ≡ true → IsGoogle host
IsGoogle-host none h = cc
IsGoogle-host (some host) h = elim (Bool-cases (text_eq host (txt "script.google.com"))) [
  | inl e ↦ inl (ap some (text_eq-eq host (txt "script.google.com") e))
  | inr e ↦
      let other : text_eq host (txt "script.googleusercontent.com") ≡ true = ground arith in
      inr (ap some (text_eq-eq host (txt "script.googleusercontent.com") other))
]

-- Whatever redirects the servers answer with, a request that has been to `previous` URLs goes on to
-- Google's two script hosts only, and is ended before it has been to more than five URLs.
pub followed_bounded :
    (previous : ℕ) (hosts : List (Option Text))
    → 1 ≤ previous
    → previous ≤ 5
    → All IsGoogle (followed previous hosts) × (previous + length (followed previous hosts) ≤ 5)
unfolding followed on_redirect
followed_bounded previous [] low high = (tt, omega arith)
followed_bounded previous (host ∷ hosts) low high = elim (Bool-cases (leb 5 previous)) [
  | inl spent ↦
      let e : followed previous (host ∷ hosts) ≡ [] = ground arith in rw e (tt, omega arith)
  | inr left ↦ elim (Bool-cases (is_google host)) [
    | inl google ↦
        let rest = followed (previous + 1) hosts in
        let (all, bound) = followed_bounded (previous + 1) hosts (omega arith) (ground arith) in
        let e : followed previous (host ∷ hosts) ≡ host ∷ rest = ground arith in
        rw e ((IsGoogle-host host google, all), omega arith)
    | inr foreign ↦
        let e : followed previous (host ∷ hosts) ≡ [] = ground arith in rw e (tt, omega arith)
  ]
]
