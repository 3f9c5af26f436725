-- ===== src/Routes/Dispatch/Probes.antt =====
-- src/routes.rs: what `GET /v1/youtube/health` tells a caller without credentials when Apps Script
-- answers with a redirect.
use act_api_server_rs.Prelude.{
  ℕ, ◌≤◌, ◌≡◌, refl, sym, true, false, Option, some, List, [], ◌∷◌, ◌++◌, arith, length, leb,
  Result, ok, err,
}
use act_api_server_rs.Text.{Text, txt, text_eq}
use act_api_server_rs.Json.{Fields, Value}
use act_api_server_rs.Auth.{HeaderMap}
use act_api_server_rs.DataPlane.Frames.{Bytes}
use act_api_server_rs.DataPlane.Policies.{Url}
use act_api_server_rs.Transport.Journal.{OperationJournal}
use act_api_server_rs.Youtube.{GasEnvelope, is_redirection, upstream_http}
use act_api_server_rs.Youtube.Client.{
  Response, YoutubeGasClient, announces_more, health, is_success, parse_response,
}
use act_api_server_rs.Youtube.Errors.{Printer, debug_location, details, display}
use act_api_server_rs.Routes.{ApiError, from_youtube}
use act_api_server_rs.Routes.Dispatch.{
  Answered, Served, error_body, for_method, get, handle, into_response, respond, router,
}

module _ (printer : Printer) where
  redirect_message :
      (status : ℕ) (url : Url) (location : Option Text)
      → is_redirection status ≡ true
      → (before after : Text) × (display printer (upstream_http status url location)
          ≡ before ++ (printer.url_text url ++ after))
  unfolding display
  redirect_message status url location h = rw h (
    txt "Apps Script returned redirect " ++ (printer.status_text status ++ txt " from "),
    txt "; target was "
        ++ (debug_location printer location ++ txt ". The deployment may still be owner-only"),
    refl,
  )

  details-host :
      (status : ℕ) (u v : Url) (location : Option Text)
      → u.host_str ≡ v.host_str
      → details printer (upstream_http status u location)
        ≡ details printer (upstream_http status v location)
  unfolding details
  details-host status u v location h = rw h refl

  -- The answer names the whole URL that answered, and its details only hosts.
  abbrev pub Reveals : {Store : Type 0} → Response → Answered Store → Type 0
  Reveals r a =
      (e : ApiError) × (a.status ≡ 502)
      × (a.body ≡ error_body e)
      × ((before after : Text) × (e.message ≡ before ++ (printer.url_text r.final_url ++ after)))
      × ((url : Url)
          → url.host_str ≡ r.final_url.host_str
          → e.details ≡ details printer (upstream_http r.status url r.location))

module _ (from_slice : Bytes → Result GasEnvelope Text) (from_utf8_lossy : Bytes → Text) where
  redirect_fails :
      (limit : ℕ) (r : Response) (bytes : Bytes)
      → announces_more r.content_length limit ≡ false
      → r.bytes ≡ ok bytes
      → length bytes ≤ limit
      → is_redirection r.status ≡ true
      → parse_response from_slice from_utf8_lossy limit r
        ≡ err (upstream_http r.status r.final_url r.location)
  unfolding parse_response
  redirect_fails limit r bytes few received small redirect =
      let fits : leb (length bytes) limit ≡ true = ground arith in
      let failed : is_success r.status ≡ false = ground arith in
      rw (few, received, fits, failed) refl

module _ (J : OperationJournal) (from_slice : Bytes → Result GasEnvelope Text)
    (from_utf8_lossy : Bytes → Text) (printer : Printer) (path_segments : Url → Option (List Text))
    (version : Text) (get_health : YoutubeGasClient → Result Response Text)
    (post_action : Fields → Result Response Text) where
  open J use {Store}

  abbrev health_path : List Text
  health_path = txt "v1" ∷ txt "youtube" ∷ txt "health" ∷ []

  -- When Apps Script answers its health check with a redirect that the client does not follow, as
  -- an owner-only deployment does, `GET /v1/youtube/health` is answered with 502, whatever headers
  -- the request has: the message holds the text of the URL that answered, path included, while the
  -- details are those of any other URL of the same host.
  pub respond-Reveals :
      (json : Bytes → Result Value ℕ) (s : Served) (headers : HeaderMap) (body : Bytes) (id : Text)
      (elapsed : Value) (store : Store) {client : YoutubeGasClient} {r : Response} {bytes : Bytes}
      → s.app.youtube ≡ some client
      → get_health client ≡ ok r
      → announces_more r.content_length client.max_response_bytes ≡ false
      → r.bytes ≡ ok bytes
      → length bytes ≤ client.max_response_bytes
      → is_redirection r.status ≡ true
      → Reveals printer r (
          respond J from_slice from_utf8_lossy printer path_segments version get_health post_action
            json s get health_path headers body id elapsed store)
  unfolding respond router handle for_method into_response health from_youtube text_eq txt details
  respond-Reveals json s headers body id elapsed store {client} {r} {bytes} configured answered few
        received small redirect =
      let failed =
        redirect_fails from_slice from_utf8_lossy client.max_response_bytes r bytes few received
          small redirect in
      rw (configured, answered, failed)
        (
          from_youtube printer (upstream_http r.status r.final_url r.location) id,
          refl,
          refl,
          redirect_message printer r.status r.final_url r.location redirect,
          λ url same. details-host printer r.status r.final_url url r.location (sym same),
        )
