-- ===== src/Routes/Tests/Dispatches.antt =====
-- Concrete requests to the router of src/routes.rs.
use act_api_server_rs.Prelude.{
  ℕ, ◌+◌, ◌≡◌, refl, ◌⊎◌, true, Option, none, some, List, [], ◌∷◌, Result, ok, err, arith,
}
use act_api_server_rs.Text.{Text, txt, trim, is_control}
use act_api_server_rs.Json.{Value, null, number}
use act_api_server_rs.Auth.{HeaderMap}
use act_api_server_rs.DataPlane.Frames.{Bytes}
use act_api_server_rs.DataPlane.Policies.{Url}
use act_api_server_rs.Transport.Journal.{OperationJournal, fresh}
use act_api_server_rs.Youtube.Client.{Response, YoutubeGasClient, health}
use act_api_server_rs.Routes.{authorize, operation_status}
use act_api_server_rs.Routes.Dispatch.{
  Answered, Method, Served, action, get, handle, head, into_response, post as posts, read_body,
  respond, router,
}
use act_api_server_rs.Routes.Dispatch.Guards.{Refused, respond_guarded}
use act_api_server_rs.Routes.Dispatch.Probes.{Reveals, respond-Reveals}
use act_api_server_rs.Routes.Tests.{
  web_app, printer, printer, from_slice, headers, lossy, post, routes, state, unauthorized,
}

abbrev J : OperationJournal
J = record {
  Store = ℕ;
  claim = λ id subject json calls. (ok fresh, calls + 1);
  complete = λ id reply calls. (ok tt, calls + 1);
  pending_result = λ id calls. (ok none, calls + 1);
  mark_result_published = λ id calls. (ok tt, calls + 1);
  status = λ id subject calls. (ok none, calls + 1);
}

abbrev served : Served
served = record { app = state; nats = true; operation_journal = true }

abbrev json : Bytes → Result Value ℕ
json body = ok null

abbrev path_segments : Url → Option (List Text)
path_segments url = none

abbrev health_of : YoutubeGasClient → Result Response Text
health_of client = err (txt "refused")

abbrev request : Method → List Text → HeaderMap → Answered ℕ
request method path hs =
    respond J from_slice lossy printer path_segments (txt "1.0.0") health_of post json served method
      path hs [] (txt "yt-1-1") (number (txt "3")) 0

abbrev jobs_path : List Text
jobs_path = txt "v1" ∷ txt "youtube" ∷ txt "actions" ∷ txt "jobs" ∷ []

dispatch_tests :
    ((request get (txt "health" ∷ []) []).status ≡ 200)
    × ((request get (txt "ready" ∷ []) []).status ≡ 200)
    × ((request get jobs_path headers).status ≡ 405)
    × ((request get (txt "v1" ∷ txt "youtube" ∷ []) headers).status ≡ 404)
    × ((request posts jobs_path headers).status ≡ 200)
    × ((request posts jobs_path []).status ≡ 401)
    × ((request posts jobs_path []).challenge ≡ true)
    × ((request get (txt "v1" ∷ txt "youtube" ∷ txt "health" ∷ []) []).status ≡ 502)
    × ((request get (txt "v1" ∷ txt "youtube" ∷ txt "status" ∷ []) headers).status ≡ 200)
    × ((request get (txt "v1" ∷ txt "operations" ∷ txt "op-1" ∷ []) headers).store ≡ 1)
    × ((request head (txt "v1" ∷ txt "operations" ∷ txt "op-1" ∷ []) headers).store ≡ 1)
    × ((request head (txt "v1" ∷ txt "operations" ∷ txt "op-1" ∷ []) []).status ≡ 401)
    × ((request head (txt "health" ∷ []) []).body ≡ null)
    × ((request head jobs_path headers).status ≡ 405)
    × ((request get (txt "v1" ∷ txt "operations" ∷ txt "" ∷ []) headers).status ≡ 404)
unfolding routes respond router handle into_response operation_status health trim is_control
dispatch_tests =
    (refl, refl, refl, refl, refl, refl, refl, refl, refl, refl, refl, refl, refl, refl, refl)

jobs_routed : router posts jobs_path ≡ ok (action (txt "jobs"))
unfolding router routes
jobs_routed = refl

jobs_unauthorized : authorize state [] ≡ err unauthorized
unfolding routes
jobs_unauthorized = refl

respond_guarded_example :
    Refused J from_slice lossy printer path_segments
      (txt "1.0.0")
      health_of
      post
      posts
      unauthorized
      (read_body json [])
      0
      (request posts jobs_path [])
    × ((unauthorized.status ≡ 401) ⊎ (unauthorized.status ≡ 503))
respond_guarded_example =
    respond_guarded J from_slice lossy printer path_segments (txt "1.0.0") health_of post json
      served posts jobs_path [] [] (txt "yt-1-1") (number (txt "3")) 0 jobs_routed tt
      jobs_unauthorized

-- The answer of an owner-only deployment.
abbrev redirected : Response
redirected = record {
  status = 302;
  final_url = web_app;
  location = some (txt "https://accounts.google.com/");
  content_length = none;
  bytes = ok [];
}

abbrev probed : Answered ℕ
probed =
    respond J from_slice lossy printer path_segments (txt "1.0.0") (λ client. ok redirected) post
      json served get (txt "v1" ∷ txt "youtube" ∷ txt "health" ∷ []) [] [] (txt "yt-1-1")
      (number (txt "3")) 0

respond-Reveals_example : Reveals printer redirected probed
respond-Reveals_example =
    respond-Reveals J from_slice lossy printer path_segments (txt "1.0.0") (λ client. ok redirected)
      post json served [] [] (txt "yt-1-1") (number (txt "3")) 0 refl refl refl refl (omega arith)
      refl
