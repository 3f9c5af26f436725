-- ===== src/Auth.antt =====
-- src/auth.rs: the bearer of a request and its verification. The client of Shared Auth is a
-- parameter. A header's value is what `HeaderValue::to_str` answers, `none` when it is not ASCII.
pub mod Bearer
mod Tests
use act_api_server_rs.Prelude.{
  Bool, false, not, ◌&&◌, ◌||◌, Option, none, some, List, [], ◌∷◌, if◌then◌else◌, any, Result, ok,
  ◌>>=◌, ◌>>◌, ensure, ok_or, map_err,
}
use act_api_server_rs.Text.{
  Text, txt, text_eq, is_empty, is_whitespace, trim, is_blank, split_once, eq_ignore_ascii_case,
}

abbrev pub HeaderMap : Type 0
HeaderMap = List (Text × Option Text)

-- `headers.get(name)`
unfoldable pub header : Text → HeaderMap → Option (Option Text)
header name [] = none
header name ((n, value) ∷ rest) = if text_eq n name then some value else header name rest

pub data AuthFailure : Type 0 where
  missing invalid unavailable : AuthFailure

-- `shared_auth_client::ClientError`, the errors that the program tells apart and the others.
pub data ClientError : Type 0 where
  client_unauthorized client_invalid_input client_other : ClientError

-- What the program reads of an introspection.
pub record Claims : Type 0 where
  pub active : Bool
  pub aud : Option Text
  pub sub : Option Text

abbrev pub Introspect : Type 0
Introspect = Text → Text → List Text → Result Claims ClientError

readable : Option (Option Text) → Option Text
readable none = none
readable (some value) = value

abbrev pub bad_bearer : Text × Text → Bool
bad_bearer (scheme, token) =
    not (eq_ignore_ascii_case scheme (txt "Bearer"))
    || (is_empty token || (not (text_eq (trim token) token) || any is_whitespace token))

-- `bearer_token`
unfoldable pub bearer_token : HeaderMap → Result Text AuthFailure
unfolding readable
bearer_token headers = do
  raw ← ok_or (readable (header (txt "authorization") headers)) missing
  parts ← ok_or (split_once b' ' raw) invalid
  ensure (not (bad_bearer parts)) invalid
  ok parts.1

-- `map_client_error`
unfoldable pub map_client_error : ClientError → AuthFailure
map_client_error client_unauthorized = invalid
map_client_error client_invalid_input = invalid
map_client_error client_other = unavailable

abbrev pub is_for : Option Text → Text → Bool
is_for none audience = false
is_for (some aud) audience = text_eq aud audience

-- `introspected.sub.filter(|value| !value.trim().is_empty())`
abbrev pub named_subject : Option Text → Option Text
named_subject none = none
named_subject (some sub) = if is_blank sub then none else some sub

-- `SharedAuthVerifier::verify`, on the client and the audience of the verifier.
unfoldable pub verify : Introspect → Text → HeaderMap → List Text → Result Text AuthFailure
verify introspect audience headers required_scopes = do
  token ← bearer_token headers
  introspected ← map_err (introspect token audience required_scopes) map_client_error
  ensure (introspected.active && is_for introspected.aud audience) invalid
  ok_or (named_subject introspected.sub) invalid
