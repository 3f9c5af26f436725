-- ===== src/Youtube/Client/Requests.antt =====
-- What the client of src/youtube.rs sends, and what it accepts.
use act_api_server_rs.Youtube.Client.{
  run_prepared, Response, YoutubeGasClient, add_credentials, announces_more, execute, is_success,
  open_envelope, parse_response,
}
use act_api_server_rs.Json.{insert, Fields, Value, get, null, string}
use act_api_server_rs.Prelude.{
  ℕ, ◌≤◌, ◌≡◌, refl, ◌∙◌, ◌⊎◌, inl, inr, true, false, not, Option, some, [], ◌∷◌, arith, leb,
  unwrap_or, length, Result, ok, err, ensure, map_err, >>=-eq-ok, ensure-eq-ok, map_err-eq-ok,
}
use act_api_server_rs.Text.{Text, txt, text_eq}
use act_api_server_rs.DataPlane.Frames.{Bytes}
use act_api_server_rs.Youtube.{GasEnvelope, YoutubeAction, YoutubeClientError, as_str, http}
use act_api_server_rs.Json.Laws.{get-insert_ne, get-insert_self}
use act_api_server_rs.Youtube.Payloads.{prepare_payload}

module _ (from_slice : Bytes → Result GasEnvelope Text) (from_utf8_lossy : Bytes → Text) where
  -- A response is accepted only if its status is a success, its body is within the limit, and the
  -- body is an envelope with `ok`; the value is then the envelope's data.
  pub parse_response_sound :
      (limit : ℕ) (r : Response) {value : Value}
      → parse_response from_slice from_utf8_lossy limit r ≡ ok value
      → (bytes : Bytes) × (envelope : GasEnvelope) × (r.bytes ≡ ok bytes)
        × (length bytes ≤ limit)
        × (is_success r.status ≡ true)
        × (from_slice bytes ≡ ok envelope)
        × (envelope.ok_flag ≡ true)
        × (value ≡ unwrap_or envelope.data_field null)
  unfolding parse_response open_envelope
  parse_response_sound limit r {value} h =
      let (u, p, h₁) = >>=-eq-ok (ensure (not (announces_more r.content_length limit)) _) _ h in
      let (bytes, q, h₂) = >>=-eq-ok (map_err r.bytes http) _ h₁ in
      let (v, s, h₃) = >>=-eq-ok (ensure (leb (length bytes) limit) _) _ h₂ in
      let (w, t, h₄) = >>=-eq-ok (ensure (is_success r.status) _) _ h₃ in
      let (envelope, x, h₅) = >>=-eq-ok (map_err (from_slice bytes) _) _ h₄ in
      (
        bytes,
        envelope,
        map_err-eq-ok r.bytes http q,
        ground (arith, ensure-eq-ok _ _ s),
        ensure-eq-ok _ _ t,
        map_err-eq-ok (from_slice bytes) _ x,
        ground arith,
        ground arith,
      )

  -- An action posts one body or none. It posts none only if the payload is refused; otherwise the
  -- body has the action's own name and the client's key, whatever the caller wrote there, and every
  -- other field as the payload was prepared.
  pub execute_posts :
      (post : Fields → Result Response Text) (client : YoutubeGasClient) (a : YoutubeAction)
      (payload : Value) (key : Option Text)
      → let run = execute from_slice from_utf8_lossy post client a payload key in
        ((e : YoutubeClientError) × (prepare_payload a payload key client.allow_public_actions
            ≡ err e)
          × (run.0 ≡ err e)
          × (run.1 ≡ []))
        ⊎ ((prepared : Fields) × (body : Fields) × (prepare_payload a payload key
                client.allow_public_actions
              ≡ ok prepared)
            × (run.1 ≡ body ∷ [])
            × (get (txt "action") body ≡ some (string (as_str a)))
            × (get (txt "apiKey") body ≡ some (string client.api_key))
            × ((name : Text)
                → text_eq (txt "action") name ≡ false
                → text_eq (txt "apiKey") name ≡ false
                → get name body ≡ get name prepared))
  unfolding execute run_prepared add_credentials text_eq txt
  execute_posts post client a payload key =
      go (prepare_payload a payload key client.allow_public_actions)
    where
      go :
          (r : Result Fields YoutubeClientError)
          → let run = run_prepared from_slice from_utf8_lossy post client a r in
            ((e : YoutubeClientError) × (r ≡ err e) × (run.0 ≡ err e) × (run.1 ≡ []))
            ⊎ ((prepared : Fields) × (body : Fields) × (r ≡ ok prepared)
                × (run.1 ≡ body ∷ [])
                × (get (txt "action") body ≡ some (string (as_str a)))
                × (get (txt "apiKey") body ≡ some (string client.api_key))
                × ((name : Text)
                    → text_eq (txt "action") name ≡ false
                    → text_eq (txt "apiKey") name ≡ false
                    → get name body ≡ get name prepared))
      go (err e) = inl (e, refl, refl, refl)
      go (ok prepared) = inr (
        prepared,
        add_credentials client a prepared,
        refl,
        refl,
        get-insert_ne (txt "action") (txt "apiKey") (string client.api_key)
              (insert (txt "action") (string (as_str a)) prepared) refl
            ∙ get-insert_self (txt "action") (string (as_str a)) prepared,
        get-insert_self (txt "apiKey") (string client.api_key)
            (insert (txt "action") (string (as_str a)) prepared),
        λ name n m.
            get-insert_ne name (txt "apiKey") (string client.api_key)
              (insert (txt "action") (string (as_str a)) prepared) m
            ∙ get-insert_ne name (txt "action") (string (as_str a)) prepared n,
      )
