-- ===== src/Auth/Bearer.antt =====
-- What `verify` of src/auth.rs accepts.
use act_api_server_rs.Prelude.{
  ℕ, ◌≡◌, refl, ap, ◌∙◌, subst, inl, inr, true, false, not, ◌&&◌, Option, none, some, List, [], ◌∷◌,
  ◌++◌, arith, ◌==◌, ==_iff, Bool-cases, Option-cases, any, ok, ensure, ok_or, map_err, >>=-eq-ok,
  ensure-eq-ok, ok-injective, map_err-eq-ok, ok_or-eq-ok,
}
use act_api_server_rs.Text.{
  Text, txt, is_empty, is_whitespace, is_blank, split_once, eq_ignore_ascii_case,
}
use act_api_server_rs.Text.Laws.{text_eq-eq}
use act_api_server_rs.Auth.{
  Claims, HeaderMap, Introspect, bad_bearer, bearer_token, header, invalid, is_for,
  map_client_error, missing, named_subject, readable, verify,
}

split_once-eq-some :
    (c : ℕ) (s : Text) {p : Text × Text} → split_once c s ≡ some p → s ≡ p.0 ++ c ∷ p.1
unfolding split_once
split_once-eq-some c [] h = cc
split_once-eq-some c (d ∷ s) {p} h = elim (Bool-cases (c == d)) [
  | inl here ↦
      let same : p ≡ ([], s) = ground (arith, here) in
      let eq : c ≡ d = (==_iff c d).0 here in rw (same, eq) refl
  | inr other ↦ elim (Option-cases (split_once c s)) [
    | inl absent ↦ absurd (ground (arith, other, absent))
    | inr (q, found) ↦
        let same : p ≡ (d ∷ q.0, q.1) = ground (arith, other, found) in
        rw same (ap (λ t. d ∷ t) (split_once-eq-some c s found))
  ]
]

-- A header that carries one bearer token.
abbrev pub Bears : HeaderMap → Text → Type 0
Bears headers token =
    (scheme : Text) × (header (txt "authorization") headers ≡ some (some (scheme ++ b' ' ∷ token)))
    × (eq_ignore_ascii_case scheme (txt "Bearer") ≡ true)
    × (is_empty token ≡ false)
    × (any is_whitespace token ≡ false)

readable-eq-some : (o : Option (Option Text)) {t : Text} → readable o ≡ some t → o ≡ some (some t)
unfolding readable
readable-eq-some none h = cc
readable-eq-some (some o) h = ap some h

Bears-of_ok :
    (headers : HeaderMap) {token : Text} → bearer_token headers ≡ ok token → Bears headers token
unfolding bearer_token
Bears-of_ok headers {token} h =
    let (raw, p, h₁) =
      >>=-eq-ok (ok_or (readable (header (txt "authorization") headers)) missing) _ h in
    let (parts, q, h₂) = >>=-eq-ok (ok_or (split_once b' ' raw) invalid) _ h₁ in
    let (u, r, h₃) = >>=-eq-ok (ensure (not (bad_bearer parts)) invalid) _ h₂ in
    let good = ensure-eq-ok _ _ r in
    let same : parts.1 ≡ token = ok-injective parts.1 token h₃ in
    (
      parts.0,
      readable-eq-some _ (ok_or-eq-ok _ _ p)
          ∙ (ap (λ t. some (some t)) (split_once-eq-some b' ' raw (ok_or-eq-ok _ _ q))
              ∙ ap (λ t. some (some (parts.0 ++ b' ' ∷ t))) same),
      ground arith,
      subst (λ t. is_empty t ≡ false) same (ground arith),
      subst (λ t. any is_whitespace t ≡ false) same (ground arith),
    )

-- A request is authenticated only if its header carries one bearer token without white space, the
-- introspection of that token, for the server's audience and the required scopes, is active and for
-- that audience, and names the subject, which is not blank.
pub verify_sound :
    (introspect : Introspect) (audience : Text) (headers : HeaderMap) (scopes : List Text)
    {subject : Text}
    → verify introspect audience headers scopes ≡ ok subject
    → (token : Text) × (introspected : Claims) × Bears headers token
      × (introspect token audience scopes ≡ ok introspected)
      × (introspected.active ≡ true)
      × (introspected.aud ≡ some audience)
      × (introspected.sub ≡ some subject)
      × (is_blank subject ≡ false)
unfolding verify
verify_sound introspect audience headers scopes {subject} h =
    let (token, p, h₁) = >>=-eq-ok (bearer_token headers) _ h in
    let (introspected, q, h₂) =
      >>=-eq-ok (map_err (introspect token audience scopes) map_client_error) _ h₁ in
    let (u, r, h₃) =
      >>=-eq-ok (ensure (introspected.active && is_for introspected.aud audience) invalid) _ h₂ in
    let good = ensure-eq-ok _ _ r in
    let found = ok_or-eq-ok (named_subject introspected.sub) invalid h₃ in
    (
      token,
      introspected,
      Bears-of_ok headers p,
      map_err-eq-ok _ _ q,
      ground arith,
      is_for_lem introspected.aud audience (ground arith),
      (named_subject_lem introspected.sub found).0,
      (named_subject_lem introspected.sub found).1,
    )
  where
    is_for_lem : (o : Option Text) (a : Text) → is_for o a ≡ true → o ≡ some a
    is_for_lem none a h = cc
    is_for_lem (some t) a h = ap some (text_eq-eq t a h)

    named_subject_lem :
        (o : Option Text) {t : Text}
        → named_subject o ≡ some t
        → (o ≡ some t) × (is_blank t ≡ false)
    named_subject_lem none h = cc
    named_subject_lem (some t) h = ground arith
