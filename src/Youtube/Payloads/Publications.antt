-- ===== src/Youtube/Payloads/Publications.antt =====
-- Which publications and playlists `prepare_payload` of src/youtube.rs accepts.
use act_api_server_rs.Prelude.{
  ◌≡◌, ap, ◌∙◌, subst, ◌⊎◌, inl, inr, Bool, true, false, ◌||◌, Option, some, arith, ok, ensure,
  >>=-eq-ok, ensure-eq-ok, ok-injective,
}
use act_api_server_rs.Text.{Text, txt, text_eq}
use act_api_server_rs.Text.Laws.{text_eq-eq}
use act_api_server_rs.Json.{Fields, Value}
use act_api_server_rs.Youtube.Payloads.Guards.{IsPrivate, prepare_payload-IsPrivate_upload}
use act_api_server_rs.Youtube.{YoutubeAction, create_playlist, publish_video, start_upload}
use act_api_server_rs.Youtube.Payloads.{
  check_playlist, check_publication, confirmation_of, is_privacy, optional_string, prepare_action,
  prepare_payload, require_non_empty_string,
}
use act_api_server_rs.Youtube.Payloads.Caller.{payload_parts}
use act_api_server_rs.Transport.Tables.Calls.{status}

-- What an accepted publication asks for, as the program reads it, and its bounds.
abbrev pub IsPublication : Bool → Fields → Type 0
IsPublication allow fields =
    (video_id : Text) × (privacy : Text) × (optional_string fields (txt "videoId")
      ≡ ok (some video_id))
    × (optional_string fields (txt "privacyStatus") ≡ ok (some privacy))
    × (optional_string fields (txt "confirmation") ≡ ok (some (confirmation_of video_id privacy)))
    × (is_privacy privacy ≡ true)
    × ((text_eq privacy (txt "private") || allow) ≡ true)

required :
    (fields : Fields) (name : Text) {value : Text}
    → require_non_empty_string fields name ≡ ok value
    → optional_string fields name ≡ ok (some value)
unfolding require_non_empty_string
required fields name h =
    let (found, p, e) = >>=-eq-ok (optional_string fields name) _ h in p ∙ ap ok (ground arith)

IsPublication-of_ok :
    (allow : Bool) (fields : Fields)
    → check_publication allow fields ≡ ok tt
    → IsPublication allow fields
unfolding check_publication
IsPublication-of_ok allow fields h =
    let (video_id, p, h₁) = >>=-eq-ok (require_non_empty_string fields (txt "videoId")) _ h in
    let (privacy, q, h₂) = >>=-eq-ok (require_non_empty_string fields (txt "privacyStatus")) _ h₁ in
    let (u, r, h₃) = >>=-eq-ok (ensure (is_privacy privacy) _) _ h₂ in
    let (v, s, h₄) = >>=-eq-ok (ensure (text_eq privacy (txt "private") || allow) _) _ h₃ in
    let (confirmation, t, h₅) =
      >>=-eq-ok (require_non_empty_string fields (txt "confirmation")) _ h₄ in
    let same : confirmation ≡ confirmation_of video_id privacy =
      text_eq-eq confirmation (confirmation_of video_id privacy) (ensure-eq-ok _ _ h₅) in
    (
      video_id,
      privacy,
      required fields (txt "videoId") p,
      required fields (txt "privacyStatus") q,
      required fields (txt "confirmation") t ∙ ap (λ x. ok (some x)) same,
      ensure-eq-ok _ _ r,
      ensure-eq-ok _ _ s,
    )

-- An accepted publication names a video and one of the three privacies, carries the confirmation
-- spelled for exactly these, and is private unless public actions are allowed.
pub prepare_payload-IsPublication :
    (payload : Value) (key : Option Text) (allow : Bool) {body : Fields}
    → prepare_payload publish_video payload key allow ≡ ok body
    → IsPublication allow body
unfolding prepare_action
prepare_payload-IsPublication payload key allow {body} h =
    let (caller, marked, p, q) = payload_parts publish_video payload key allow h in
    let (u, r, e) = >>=-eq-ok (check_publication allow marked) _ q in
    subst (IsPublication allow) (ok-injective marked body e) (IsPublication-of_ok allow marked r)

IsPrivate-of_publication : (fields : Fields) → IsPublication false fields → IsPrivate fields
IsPrivate-of_publication fields (video_id, privacy, v, p, c, known, private) =
    (some privacy, p, ground arith)

playlist-IsPrivate : (fields : Fields) → check_playlist false fields ≡ ok tt → IsPrivate fields
unfolding check_playlist
playlist-IsPrivate fields h =
    let (title, p, h₁) = >>=-eq-ok (require_non_empty_string fields (txt "title")) _ h in
    let (status, q, h₂) = >>=-eq-ok (optional_string fields (txt "privacyStatus")) _ h₁ in
    (status, q, ground (arith, ensure-eq-ok _ _ h₂))

-- While public actions are not allowed, no accepted upload, publication or playlist asks for another
-- privacy than `private`.
pub prepare_payload-IsPrivate :
    (a : YoutubeAction) (payload : Value) (key : Option Text) {body : Fields}
    → (a ≡ start_upload) ⊎ (a ≡ publish_video) ⊎ (a ≡ create_playlist)
    → prepare_payload a payload key false ≡ ok body
    → IsPrivate body
unfolding prepare_action
prepare_payload-IsPrivate a payload key {body} (inl e) h =
    (prepare_payload-IsPrivate_upload payload key false
      (subst (λ x. prepare_payload x payload key false ≡ ok body) e h)).0
prepare_payload-IsPrivate a payload key {body} (inr (inl e)) h = IsPrivate-of_publication body (
    prepare_payload-IsPublication payload key false
      (subst (λ x. prepare_payload x payload key false ≡ ok body) e h))
prepare_payload-IsPrivate a payload key {body} (inr (inr e)) h =
    let (caller, marked, p, q) =
      payload_parts create_playlist payload key false
        (subst (λ x. prepare_payload x payload key false ≡ ok body) e h) in
    let (u, r, same) = >>=-eq-ok (check_playlist false marked) _ q in
    subst IsPrivate (ok-injective marked body same) (playlist-IsPrivate marked r)
