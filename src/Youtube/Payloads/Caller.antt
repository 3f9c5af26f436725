-- ===== src/Youtube/Payloads/Caller.antt =====
-- What `prepare_payload` of src/youtube.rs leaves of the caller's fields, and what it adds.
use act_api_server_rs.Prelude.{
  ◌≤◌, ◌≡◌, refl, sym, ap, ◌∙◌, ◌⊎◌, inl, inr, Bool, true, false, Option, some, arith, all, ok,
  ensure, ok_or, >>=-eq-ok, ensure-eq-ok, ok-injective,
}
use act_api_server_rs.Text.{Text, txt, text_eq, is_empty, byte_len, is_ascii_graphic}
use act_api_server_rs.Json.{Fields, Value, get, insert, remove, string}
use act_api_server_rs.Youtube.{
  YoutubeAction, add_to_playlist, admin_status, analytics, channel, create_playlist,
  export_analytics, ingest_gmail, is_mutating, jobs, key_expected, key_missing, partner_claims,
  partner_owners, partner_status, process_all_uploads, process_upload, publish_video, send_digest,
  start_upload, update_video, validation, videos, workspace_users,
}
use act_api_server_rs.Youtube.Payloads.{
  agrees_with, check_playlist, check_publication, is_true, mark_request, object_of, optional_string,
  prepare_action, prepare_payload, prepare_upload, require_non_empty_string,
  validate_idempotency_key,
}
use act_api_server_rs.Json.Laws.{get-insert_ne}

-- The steps of an accepted payload.
pub payload_parts :
    (a : YoutubeAction) (payload : Value) (key : Option Text) (allow : Bool) {body : Fields}
    → prepare_payload a payload key allow ≡ ok body
    → (caller : Fields) × (marked : Fields) × (mark_request
          (is_mutating a)
          key
          (remove (txt "apiKey") (remove (txt "action") caller))
        ≡ ok marked)
      × (prepare_action a key allow marked ≡ ok body)
unfolding prepare_payload
payload_parts a payload key allow h =
    let (caller, p, h₁) = >>=-eq-ok (object_of payload) _ h in
    let (marked, q, h₂) = >>=-eq-ok _ _ h₁ in (caller, marked, q, h₂)

-- What an accepted upload has passed.
pub record Uploads (key : Option Text) (fields body : Fields) : Type 0 where
  pub header_key : Text
  pub key_given : key ≡ some header_key
  pub confirmed : is_true (get (txt "rightsConfirmed") fields) ≡ true
  pub status : Option Text
  pub status_read : optional_string fields (txt "privacyStatus") ≡ ok status
  pub private : agrees_with status (txt "private") ≡ true
  pub made : body ≡ insert (txt "idempotencyKey") (string header_key) fields

pub upload_parts :
    (key : Option Text) (fields : Fields) {body : Fields}
    → prepare_upload key fields ≡ ok body
    → Uploads key fields body
unfolding prepare_upload
upload_parts key fields {body} h =
    let (file, p, h₁) = >>=-eq-ok (require_non_empty_string fields (txt "driveFileId")) _ h in
    let (title, q, h₂) = >>=-eq-ok (require_non_empty_string fields (txt "title")) _ h₁ in
    let (u, r, h₃) = >>=-eq-ok (ensure (is_true (get (txt "rightsConfirmed") fields)) _) _ h₂ in
    let (status, s, h₄) = >>=-eq-ok (optional_string fields (txt "privacyStatus")) _ h₃ in
    let (v, t, h₅) = >>=-eq-ok (ensure (agrees_with status (txt "private")) _) _ h₄ in
    let (header_key, k, h₆) = >>=-eq-ok (ok_or key (validation key_expected)) _ h₅ in
    let (existing, x, h₇) = >>=-eq-ok (optional_string fields (txt "idempotencyKey")) _ h₆ in
    let (w, y, h₈) = >>=-eq-ok (ensure (agrees_with existing header_key) _) _ h₇ in
    record {
      header_key = header_key;
      key_given = ground arith;
      confirmed = ensure-eq-ok _ _ r;
      status = status;
      status_read = s;
      private = ensure-eq-ok _ _ t;
      made = sym (ok-injective _ body h₈);
    }

-- The actions that test their fields, and the rest.
pub data Kind : YoutubeAction → Type 0 where
  uploads : Kind start_upload
  publishes : Kind publish_video
  lists : Kind create_playlist
  plain :
      (a : YoutubeAction)
      → ((key : Option Text) (allow : Bool) (fields : Fields)
          → prepare_action a key allow fields ≡ ok fields)
      → Kind a

pub Kind-of : (a : YoutubeAction) → Kind a
unfolding prepare_action
Kind-of start_upload = uploads
Kind-of publish_video = publishes
Kind-of create_playlist = lists
Kind-of channel = plain channel (λ k l f. refl)
Kind-of videos = plain videos (λ k l f. refl)
Kind-of analytics = plain analytics (λ k l f. refl)
Kind-of export_analytics = plain export_analytics (λ k l f. refl)
Kind-of jobs = plain jobs (λ k l f. refl)
Kind-of process_upload = plain process_upload (λ k l f. refl)
Kind-of process_all_uploads = plain process_all_uploads (λ k l f. refl)
Kind-of update_video = plain update_video (λ k l f. refl)
Kind-of add_to_playlist = plain add_to_playlist (λ k l f. refl)
Kind-of ingest_gmail = plain ingest_gmail (λ k l f. refl)
Kind-of send_digest = plain send_digest (λ k l f. refl)
Kind-of partner_status = plain partner_status (λ k l f. refl)
Kind-of partner_owners = plain partner_owners (λ k l f. refl)
Kind-of partner_claims = plain partner_claims (λ k l f. refl)
Kind-of admin_status = plain admin_status (λ k l f. refl)
Kind-of workspace_users = plain workspace_users (λ k l f. refl)

-- Only an upload changes its fields, by its idempotency key.
pub action_fields :
    (a : YoutubeAction) (key : Option Text) (allow : Bool) (fields : Fields) {body : Fields}
    → prepare_action a key allow fields ≡ ok body
    → (body ≡ fields) ⊎ ((k : Text) × (body ≡ insert (txt "idempotencyKey") (string k) fields))
unfolding prepare_action
action_fields a key allow fields {body} h = go a (Kind-of a) h
  where
    go :
        (b : YoutubeAction) (kind : Kind b)
        → prepare_action b key allow fields ≡ ok body
        → (body ≡ fields) ⊎ ((k : Text) × (body ≡ insert (txt "idempotencyKey") (string k) fields))
    go start_upload uploads h = let u = upload_parts key fields h in inr (u.header_key, u.made)
    go publish_video publishes h =
        let (u, p, e) = >>=-eq-ok (check_publication allow fields) _ h in
        inl (sym (ok-injective fields body e))
    go create_playlist lists h =
        let (u, p, e) = >>=-eq-ok (check_playlist allow fields) _ h in
        inl (sym (ok-injective fields body e))
    go _ (plain b same) h = inl (sym (ok-injective fields body (sym (same key allow fields) ∙ h)))

pub action_keeps :
    (a : YoutubeAction) (key : Option Text) (allow : Bool) (fields : Fields) {body : Fields}
    (name : Text)
    → prepare_action a key allow fields ≡ ok body
    → text_eq (txt "idempotencyKey") name ≡ false
    → get name body ≡ get name fields
action_keeps a key allow fields {body} name h other = elim (action_fields a key allow fields h) [
  | inl same ↦ ap (get name) same
  | inr (k, made) ↦
      ap (get name) made ∙ get-insert_ne name (txt "idempotencyKey") (string k) fields other
]

-- A valid idempotency key: 1 to 200 printable ASCII characters without spaces.
abbrev pub IsKey : Text → Type 0
IsKey key = (is_empty key ≡ false) × (byte_len key ≤ 200) × (all is_ascii_graphic key ≡ true)

IsKey-of_ok : (key : Text) → validate_idempotency_key key ≡ ok tt → IsKey key
unfolding validate_idempotency_key
IsKey-of_ok key h = ground arith

pub mark_parts :
    (key : Option Text) (fields : Fields) {marked : Fields}
    → mark_request true key fields ≡ ok marked
    → (k : Text) × (key ≡ some k)
      × IsKey k
      × (marked ≡ insert (txt "controlRequestId") (string k) fields)
unfolding mark_request
mark_parts key fields {marked} h =
    let (k, p, h₁) = >>=-eq-ok (ok_or key (validation key_missing)) _ h in
    let (u, q, h₂) = >>=-eq-ok (validate_idempotency_key k) _ h₁ in
    (k, ground arith, IsKey-of_ok k q, sym (ok-injective _ marked h₂))
