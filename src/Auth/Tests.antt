-- ===== src/Auth/Tests.antt =====
-- Concrete bearers for src/auth.rs.
use act_api_server_rs.Prelude.{◌≡◌, refl, true, false, some, [], ◌∷◌, if◌then◌else◌, ok, err}
use act_api_server_rs.Text.{
  Text, txt, text_eq, byte_len, is_whitespace, trim, is_blank, strip_prefix, split_once,
  ascii_lower,
}
use act_api_server_rs.Auth.Bearer.{Bears, verify_sound}
use act_api_server_rs.Auth.{
  Claims, HeaderMap, Introspect, bearer_token, client_unauthorized, header, invalid,
  map_client_error, missing, verify,
}
use act_api_server_rs.Transport.Attestation.{validate_authorization}

auth : Unit {0}
unfolding header bearer_token map_client_error verify split_once text_eq trim is_whitespace
    ascii_lower txt validate_authorization strip_prefix byte_len
auth = tt

abbrev headers : HeaderMap
headers = (txt "authorization", some (txt "Bearer opaque")) ∷ []

abbrev with_value : Text → HeaderMap
with_value value = (txt "authorization", some value) ∷ []

abbrev introspect : Introspect
introspect token audience scopes =
    if text_eq token (txt "opaque")
    then ok (record { active = true; aud = some audience; sub = some (txt "actor") })
    else err client_unauthorized

bearer_tests :
    (bearer_token headers ≡ ok (txt "opaque"))
    × (bearer_token [] ≡ err missing)
    × (bearer_token (with_value (txt "Basic token")) ≡ err invalid)
    × (bearer_token (with_value (txt "Bearer")) ≡ err invalid)
    × (bearer_token (with_value (txt "Bearer token extra")) ≡ err invalid)
    × (bearer_token (with_value (txt "Bearer  token")) ≡ err invalid)
    × (verify introspect (txt "act-api") (with_value (txt "bearer other")) [] ≡ err invalid)
unfolding auth
bearer_tests = (refl, refl, refl, refl, refl, refl, refl)

headers_verified : verify introspect (txt "act-api") headers [] ≡ ok (txt "actor")
unfolding auth
headers_verified = refl

verify_sound_example :
    (token : Text) × (introspected : Claims) × Bears headers token
    × (introspect token (txt "act-api") [] ≡ ok introspected)
    × (introspected.active ≡ true)
    × (introspected.aud ≡ some (txt "act-api"))
    × (introspected.sub ≡ some (txt "actor"))
    × (is_blank (txt "actor") ≡ false)
verify_sound_example = verify_sound introspect (txt "act-api") headers [] headers_verified
