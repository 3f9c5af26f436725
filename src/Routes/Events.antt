-- ===== src/Routes/Events.antt =====
-- What `youtube_action` of src/routes.rs sends.
use act_api_server_rs.Routes.{
  execute, ApiError, AppState, Sent, action_failed, admit_action, authorize, finish_action,
  from_youtube, header_string, posted, requested, run_action, succeeded, youtube_action,
}
use act_api_server_rs.Prelude.{
  ◌≤◌, ◌≡◌, refl, ap, ◌∙◌, ◌⊎◌, inl, inr, Option, some, List, [], ◌∷◌, ◌++◌, map, arith, unwrap_or,
  length, Result, ok, err, ok_or, >>=-eq-ok, ok-injective, ok_or-eq-ok,
}
use act_api_server_rs.Text.{Text, txt}
use act_api_server_rs.DataPlane.Frames.{Bytes}
use act_api_server_rs.Json.{Fields, Value}
use act_api_server_rs.Youtube.{GasEnvelope, YoutubeAction, YoutubeClientError, parse}
use act_api_server_rs.Auth.{HeaderMap}
use act_api_server_rs.Youtube.Errors.{Printer}
use act_api_server_rs.Youtube.Client.{Response, YoutubeGasClient}
use act_api_server_rs.Youtube.Client.Requests.{execute_posts}

module _ (from_slice : Bytes → Result GasEnvelope Text) (from_utf8_lossy : Bytes → Text)
    (post : Fields → Result Response Text) (printer : Printer) where
  -- What an admitted action sends: the request's event, at most one body to Apps Script, and one
  -- event of the outcome, which is the one that the caller sees.
  abbrev pub Sends :
      YoutubeAction → Text → Value → List Fields → Result Value ApiError × List Sent → Type 0
  Sends action id payload bodies run =
      (length bodies ≤ 1)
      × (((value : Value) × (run.0 ≡ ok value)
            × (run.1 ≡ requested action id payload ∷ map posted bodies ++ succeeded action id ∷ []))
          ⊎ ((e : ApiError) × (run.0 ≡ err e)
              × (e.request_id ≡ some id)
              × (run.1
                  ≡ requested action id payload ∷ map posted bodies
                    ++ action_failed action id e.code ∷ [])))

  finish-Sends :
      (action : YoutubeAction) (id : Text) (payload : Value) (r : Result Value YoutubeClientError)
      (bodies : List Fields)
      → length bodies ≤ 1
      → Sends action id payload bodies
          (finish_action from_slice from_utf8_lossy post printer action id payload (r, bodies))
  unfolding finish_action from_youtube
  finish-Sends action id payload (ok value) bodies few = (few, inl (value, refl, refl))
  finish-Sends action id payload (err e) bodies few =
      (few, inr (from_youtube printer e id, refl, refl, refl))

  posts_few :
      (client : YoutubeGasClient) (a : YoutubeAction) (payload : Value) (key : Option Text)
      → length (execute from_slice from_utf8_lossy post client a payload key).1 ≤ 1
  posts_few client a payload key =
      elim (execute_posts from_slice from_utf8_lossy post client a payload key) [
        | inl (e, _, _, none_posted) ↦ rw none_posted (omega arith)
        | inr (prepared, body, _, one_posted, _, _, _) ↦ rw one_posted (omega arith)
      ]

  -- A request is refused before anything is sent, or it comes from an authorized caller, names an
  -- action, and sends the request's event, at most one body and the event of its outcome, all under
  -- one request id: the idempotency key, where the request has one.
  pub youtube_action-Sends :
      (state : AppState) (action_name : Text) (headers : HeaderMap) (payload : Value)
      (fresh_id : Text)
      → let run =
          youtube_action from_slice from_utf8_lossy post printer state action_name headers payload
            fresh_id in
        ((e : ApiError) × (run.0 ≡ err e) × (run.1 ≡ []))
        ⊎ ((actor : Text) × (action : YoutubeAction) × (key : Option Text) × (bodies : List Fields)
            × (authorize state headers ≡ ok actor)
            × (parse action_name ≡ some action)
            × (header_string headers (txt "idempotency-key") ≡ ok key)
            × Sends action (unwrap_or key fresh_id) payload bodies run)
  unfolding youtube_action run_action admit_action
  youtube_action-Sends state action_name headers payload fresh_id =
      go (admit_action from_slice from_utf8_lossy post printer state action_name headers) refl
    where
      go :
          (r : Result (YoutubeAction × Option Text × YoutubeGasClient) ApiError)
          → admit_action from_slice from_utf8_lossy post printer state action_name headers ≡ r
          → let run = run_action from_slice from_utf8_lossy post printer fresh_id payload r in
            ((e : ApiError) × (run.0 ≡ err e) × (run.1 ≡ []))
            ⊎ ((actor : Text) × (action : YoutubeAction) × (key : Option Text) × (bodies : List
                  Fields)
                × (authorize state headers ≡ ok actor)
                × (parse action_name ≡ some action)
                × (header_string headers (txt "idempotency-key") ≡ ok key)
                × Sends action (unwrap_or key fresh_id) payload bodies run)
      go (err e) h = inl (e, refl, refl)
      go (ok (action, key, client)) h =
          let (actor, p, h₁) = >>=-eq-ok (authorize state headers) _ h in
          let (action', q, h₂) = >>=-eq-ok (ok_or (parse action_name) _) _ h₁ in
          let (key', r, h₃) = >>=-eq-ok (header_string headers (txt "idempotency-key")) _ h₂ in
          let (client', s, h₄) = >>=-eq-ok (ok_or state.youtube _) _ h₃ in
          let same = ok-injective (action', key', client') (action, key, client) h₄ in
          let run = execute from_slice from_utf8_lossy post client action payload key in
          inr (
            actor,
            action,
            key,
            run.1,
            p,
            ok_or-eq-ok (parse action_name) _ q ∙ ap (λ t. some t.0) same,
            r ∙ ap (λ t. ok t.1) same,
            finish-Sends action (unwrap_or key fresh_id) payload run.0 run.1
                (posts_few client action payload key),
          )
