-- ===== src/Routes/Dispatch/Guards.antt =====
-- src/routes.rs: what the router answers to a caller that Shared Auth does not accept.
use act_api_server_rs.Prelude.{
  ℕ, ◌≡◌, refl, subst, ◌⊎◌, inl, inr, Option, none, some, List, [], ◌∷◌, arith, Result, ok, err,
  ◌>>=◌, ok_or, map_err, Result-cases,
}
use act_api_server_rs.Text.{Text, txt}
use act_api_server_rs.Json.{Fields, Value, null}
use act_api_server_rs.Auth.{HeaderMap, AuthFailure, missing, invalid, unavailable}
use act_api_server_rs.DataPlane.Frames.{Bytes}
use act_api_server_rs.DataPlane.Policies.{Url}
use act_api_server_rs.Transport.Journal.{OperationJournal}
use act_api_server_rs.Youtube.{GasEnvelope}
use act_api_server_rs.Youtube.Errors.{Printer}
use act_api_server_rs.Youtube.Client.{Response, YoutubeGasClient}
use act_api_server_rs.Routes.{
  ApiError, AppState, auth_not_configured, authorize, refusal, operation_status, admit_status,
  read_status_for, youtube_action, admit_action, run_action,
}
use act_api_server_rs.Routes.Dispatch.{
  Answered, Method, Route, Served, live, ready, youtube_health, youtube_status, operation, action,
  get, head, post, other, for_method, error_body, handle, into_response, read_body, respond, router,
}

-- The routes behind Shared Auth.
abbrev pub IsAdministrative : Route → Type 0
IsAdministrative live = ⊥
IsAdministrative ready = ⊥
IsAdministrative youtube_health = ⊥
IsAdministrative youtube_status = Unit
IsAdministrative (operation id) = Unit
IsAdministrative (action name) = Unit

refusal_status : (f : AuthFailure) → ((refusal f).status ≡ 401) ⊎ ((refusal f).status ≡ 503)
unfolding refusal
refusal_status missing = inl refl
refusal_status invalid = inl refl
refusal_status unavailable = inr refl

authorize_fails :
    (state : AppState) (headers : HeaderMap) {e : ApiError}
    → authorize state headers ≡ err e
    → (e.status ≡ 401) ⊎ (e.status ≡ 503)
unfolding authorize
authorize_fails state headers {e} h = go state.shared_auth h
  where
    go :
        (o : Option (HeaderMap → List Text → Result Text AuthFailure))
        → (ok_or o auth_not_configured >>= λ verify.
            map_err (verify headers (txt "youtube:admin" ∷ [])) refusal)
          ≡ err e
        → (e.status ≡ 401) ⊎ (e.status ≡ 503)
    go none p = inr (ground arith)
    go (some verify) p = elim (Result-cases (verify headers (txt "youtube:admin" ∷ []))) [
      | inl (a, q) ↦ ground arith
      | inr (f, q) ↦
          let same : refusal f ≡ e = ground arith in
          subst (λ (x : ApiError). (x.status ≡ 401) ⊎ (x.status ≡ 503)) same (refusal_status f)
    ]

module _ (J : OperationJournal) (from_slice : Bytes → Result GasEnvelope Text)
    (from_utf8_lossy : Bytes → Text) (printer : Printer) (path_segments : Url → Option (List Text))
    (version : Text) (get_health : YoutubeGasClient → Result Response Text)
    (post_action : Fields → Result Response Text) where
  open J use {Store}

  -- The body of `e` in an answer to the method.
  abbrev pub error_for : Method → ApiError → Value
  error_for head e = null
  error_for _ e = error_body e

  -- Refused with nothing done: the answer is `e`, or the refusal of the body.
  abbrev pub Refused : Method → ApiError → Result Value ℕ → Store → Answered Store → Type 0
  Refused method e json store a =
      (a.sent ≡ [])
      × (a.store ≡ store)
      × (((a.status ≡ e.status) × (a.body ≡ error_for method e)) ⊎ (json ≡ err a.status))

  status_refused :
      (s : Served) (operation_id : Text) (headers : HeaderMap) (store : Store) {e : ApiError}
      → authorize s.app headers ≡ err e
      → operation_status J s.app s.operation_journal operation_id headers store ≡ (err e, store)
  unfolding operation_status admit_status read_status_for
  status_refused s operation_id headers store h = rw h refl

  action_refused :
      (s : Served) (name : Text) (headers : HeaderMap) (payload : Value) (id : Text) {e : ApiError}
      → authorize s.app headers ≡ err e
      → youtube_action from_slice from_utf8_lossy post_action printer s.app name headers payload id
        ≡ (err e, [])
  unfolding youtube_action admit_action run_action
  action_refused s name headers payload id h = rw h refl

  handle-Refused :
      (s : Served) (route : Route) (headers : HeaderMap) (json : Result Value ℕ) (id : Text)
      (elapsed : Value) (store : Store) {e : ApiError}
      → IsAdministrative route
      → authorize s.app headers ≡ err e
      → Refused get e json store (
          handle J from_slice from_utf8_lossy printer path_segments version get_health post_action s
            route headers json id elapsed store)
  unfolding handle into_response
  handle-Refused s live headers json id elapsed store admin h = absurd admin
  handle-Refused s ready headers json id elapsed store admin h = absurd admin
  handle-Refused s youtube_health headers json id elapsed store admin h = absurd admin
  handle-Refused s youtube_status headers json id elapsed store admin h =
      rw h (refl, refl, inl (refl, refl))
  handle-Refused s (operation name) headers json id elapsed store admin h =
      rw (status_refused s name headers store h) (refl, refl, inl (refl, refl))
  handle-Refused s (action name) headers (err rejected) id elapsed store admin h =
      (refl, refl, inr refl)
  handle-Refused s (action name) headers (ok payload) id elapsed store admin h =
      rw (action_refused s name headers payload id h) (refl, refl, inl (refl, refl))

  for_method-Refused :
      (method : Method) (e : ApiError) (json : Result Value ℕ) (store : Store) (a : Answered Store)
      → Refused get e json store a
      → Refused method e json store (for_method method a)
  unfolding for_method
  for_method-Refused get e json store a h = h
  for_method-Refused head e json store a (sent, kept, inl (status, body)) =
      (sent, kept, inl (status, refl))
  for_method-Refused head e json store a (sent, kept, inr refused) = (sent, kept, inr refused)
  for_method-Refused post e json store a h = h
  for_method-Refused other e json store a h = h

  -- A request to an administrative route from a caller whom Shared Auth does not accept, or to a
  -- server without Shared Auth, is answered with 401 or 503 and the error's body (none on HEAD),
  -- unless its own body is refused; nothing is sent to the bus or to Apps Script, and the journal is not touched.
  pub respond_guarded :
      (json : Bytes → Result Value ℕ) (s : Served) (method : Method) (path : List Text)
      (headers : HeaderMap) (body : Bytes) (id : Text) (elapsed : Value) (store : Store)
      {route : Route} {e : ApiError}
      → router method path ≡ ok route
      → IsAdministrative route
      → authorize s.app headers ≡ err e
      → Refused method e (read_body json body) store (
          respond J from_slice from_utf8_lossy printer path_segments version get_health post_action
            json s method path headers body id elapsed store)
        × ((e.status ≡ 401) ⊎ (e.status ≡ 503))
  unfolding respond
  respond_guarded json s method path headers body id elapsed store {route} {e} routed admin h = (
    rw (routed, respond)
        (for_method-Refused method e (read_body json body) store _
          (handle-Refused s route headers (read_body json body) id elapsed store admin h)),
    authorize_fails s.app headers h,
  )
