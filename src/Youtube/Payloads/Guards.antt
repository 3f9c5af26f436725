-- ===== src/Youtube/Payloads/Guards.antt =====
-- What the payloads that `prepare_payload` of src/youtube.rs accepts have passed.
use act_api_server_rs.Prelude.{
  ◌≡◌, refl, sym, ap, ◌∙◌, subst, Bool, true, false, Option, none, some, ok, ok-injective,
}
use act_api_server_rs.Text.{Text, txt, text_eq}
use act_api_server_rs.Json.{Fields, Value, get, insert, remove, string}
use act_api_server_rs.Youtube.Payloads.Caller.{
  IsKey, action_keeps, mark_parts, payload_parts, upload_parts,
}
use act_api_server_rs.Youtube.{YoutubeAction, is_mutating, start_upload}
use act_api_server_rs.Youtube.Payloads.{
  agrees_with, is_true, mark_request, optional_string, optional_value, prepare_action,
  prepare_payload,
}
use act_api_server_rs.Json.Laws.{get-insert_ne, get-insert_self, get-remove_ne, get-remove_self}
use mathlib.Core.Option.{some-injective}

-- The fields of the request that the program sets itself are not the caller's.
abbrev pub IsOwn : Fields → Type 0
IsOwn body = (get (txt "action") body ≡ none) × (get (txt "apiKey") body ≡ none)

IsOwn-fields : (caller : Fields) → IsOwn (remove (txt "apiKey") (remove (txt "action") caller))
unfolding text_eq txt
IsOwn-fields caller = (
  get-remove_ne (txt "action") (txt "apiKey") (remove (txt "action") caller) refl
      ∙ get-remove_self (txt "action") caller,
  get-remove_self (txt "apiKey") (remove (txt "action") caller),
)

insert-IsOwn :
    (name : Text) (v : Value) (fields : Fields)
    → text_eq name (txt "action") ≡ false
    → text_eq name (txt "apiKey") ≡ false
    → IsOwn fields
    → IsOwn (insert name v fields)
insert-IsOwn name v fields p q (a, k) = (
  get-insert_ne (txt "action") name v fields p ∙ a,
  get-insert_ne (txt "apiKey") name v fields q ∙ k,
)

mark_request-IsOwn :
    (mutating : Bool) (key : Option Text) (fields : Fields) {marked : Fields}
    → mark_request mutating key fields ≡ ok marked
    → IsOwn fields
    → IsOwn marked
unfolding mark_request text_eq txt
mark_request-IsOwn false key fields {marked} h own = subst IsOwn (ok-injective fields marked h) own
mark_request-IsOwn true key fields {marked} h own =
    let (k, given, valid, made) = mark_parts key fields h in
    subst IsOwn (sym made) (insert-IsOwn (txt "controlRequestId") (string k) fields refl refl own)

-- An accepted payload has lost the caller's `action` and `apiKey`.
pub prepare_payload-IsOwn :
    (a : YoutubeAction) (payload : Value) (key : Option Text) (allow : Bool) {body : Fields}
    → prepare_payload a payload key allow ≡ ok body
    → IsOwn body
unfolding text_eq txt
prepare_payload-IsOwn a payload key allow {body} h =
    let (caller, marked, p, q) = payload_parts a payload key allow h in
    let own = mark_request-IsOwn (is_mutating a) key _ p (IsOwn-fields caller) in
    (
      action_keeps a key allow marked (txt "action") q refl ∙ own.0,
      action_keeps a key allow marked (txt "apiKey") q refl ∙ own.1,
    )

-- An action that changes something is accepted only with a valid idempotency key, which the payload
-- then carries as `controlRequestId`, whatever the caller wrote there.
pub prepare_payload-IsKey :
    (a : YoutubeAction) (payload : Value) (key : Option Text) (allow : Bool) {body : Fields}
    → is_mutating a ≡ true
    → prepare_payload a payload key allow ≡ ok body
    → (k : Text) × (key ≡ some k) × IsKey k × (get (txt "controlRequestId") body ≡ some (string k))
unfolding text_eq txt
prepare_payload-IsKey a payload key allow {body} mutating h =
    let (caller, marked, p, q) = payload_parts a payload key allow h in
    let own = remove (txt "apiKey") (remove (txt "action") caller) in
    let (k, given, valid, made) =
      mark_parts key own (subst (λ m. mark_request m key own ≡ ok marked) mutating p) in
    (
      k,
      given,
      valid,
      action_keeps a key allow marked (txt "controlRequestId") q refl
          ∙ (ap (get (txt "controlRequestId")) made
              ∙ get-insert_self (txt "controlRequestId") (string k) own),
    )

-- A payload that asks for no other privacy than `private`.
abbrev pub IsPrivate : Fields → Type 0
IsPrivate body =
    (status : Option Text) × (optional_string body (txt "privacyStatus") ≡ ok status)
    × (agrees_with status (txt "private") ≡ true)

optional_string_same :
    (name : Text) (f g : Fields)
    → get name f ≡ get name g
    → optional_string f name ≡ optional_string g name
unfolding optional_string
optional_string_same name f g e = ap (optional_value name) e

-- An accepted upload is private and has the confirmed rights, and its body carries the header's
-- idempotency key both as `idempotencyKey` and as `controlRequestId`.
pub prepare_payload-IsPrivate_upload :
    (payload : Value) (key : Option Text) (allow : Bool) {body : Fields}
    → prepare_payload start_upload payload key allow ≡ ok body
    → IsPrivate body
      × (is_true (get (txt "rightsConfirmed") body) ≡ true)
      × ((k : Text) × (key ≡ some k)
          × (get (txt "idempotencyKey") body ≡ some (string k))
          × (get (txt "controlRequestId") body ≡ some (string k)))
unfolding text_eq txt is_mutating prepare_action
prepare_payload-IsPrivate_upload payload key allow {body} h =
    let (caller, marked, p, q) = payload_parts start_upload payload key allow h in
    let u = upload_parts key marked q in
    let (k, given, valid, mark) = prepare_payload-IsKey start_upload payload key allow refl h in
    let same : u.header_key ≡ k = some-injective u.header_key k (sym u.key_given ∙ given) in
    let kept : (name : Text)
        → text_eq (txt "idempotencyKey") name ≡ false
        → get name body ≡ get name marked =
      λ name other. action_keeps start_upload key allow marked name q other in
    (
      (
        u.status,
        optional_string_same (txt "privacyStatus") body marked (kept (txt "privacyStatus") refl)
            ∙ u.status_read,
        u.private,
      ),
      ap is_true (kept (txt "rightsConfirmed") refl) ∙ u.confirmed,
      (
        k,
        given,
        ap (get (txt "idempotencyKey")) u.made
            ∙ (get-insert_self (txt "idempotencyKey") (string u.header_key) marked
                ∙ ap (λ x. some (string x)) same),
        mark,
      ),
    )
