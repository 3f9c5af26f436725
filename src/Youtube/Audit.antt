-- ===== src/Youtube/Audit.antt =====
-- src/youtube.rs: `redact_map_for_audit`.
use act_api_server_rs.Prelude.{
  ◌≡◌, refl, ◌∙◌, inl, inr, ◌&&◌, Option, none, some, List, [], ◌∷◌, arith, if◌then◌else◌,
  Option-cases, is_some, any,
}
use act_api_server_rs.Text.{Text, txt, text_eq}
use act_api_server_rs.Text.Laws.{text_eq_iff}
use act_api_server_rs.Json.{Fields, Value, as_object, end, get, insert}
use act_api_server_rs.Json.Laws.{get-insert}

abbrev pub audit_fields : List Text
audit_fields =
    txt "videoId"
    ∷ txt "driveFileId"
    ∷ txt "playlistId"
    ∷ txt "privacyStatus"
    ∷ txt "repository"
    ∷ txt "commit"
    ∷ []

copy_field : Text → Option Value → Fields → Fields
copy_field name none audit = audit
copy_field name (some value) audit = insert name value audit

copy_fields : Fields → List Text → Fields → Fields
unfolding copy_field
copy_fields source [] audit = audit
copy_fields source (name ∷ names) audit =
    copy_fields source names (copy_field name (get name source) audit)

redact_object : Option Fields → Fields
unfolding copy_fields
redact_object none = end
redact_object (some source) = copy_fields source audit_fields end

-- `redact_map_for_audit`
unfoldable pub redact_map_for_audit : Value → Fields
unfolding redact_object
redact_map_for_audit payload = redact_object (as_object payload)

-- What the audit view shows of a field of the payload.
abbrev pub shown : Text → Option Fields → Option Value
shown name none = none
shown name (some source) = if any (text_eq name) audit_fields then get name source else none

get-copy_fields :
    (source : Fields) (name : Text) (names : List Text) (audit : Fields)
    → get name (copy_fields source names audit) ≡ (
        if any (text_eq name) names && is_some (get name source)
        then get name source
        else get name audit)
unfolding copy_fields copy_field
get-copy_fields source name [] audit = refl
get-copy_fields source name (n ∷ names) audit = elim (Option-cases (get n source)) [
  | inl missing ↦
      rw missing
        (ground (arith, get-copy_fields source name names audit, text_eq_iff name n, missing))
  | inr (v, found) ↦ rw found (
      ground (
        arith,
        get-copy_fields source name names (insert n v audit),
        get-insert name n v audit,
        text_eq_iff name n,
        text_eq_iff n name,
        found,
      ))
]

-- The audit view of a payload has the six fields that may be logged, with the payload's values, and
-- no other field: a description, a key or a token never reaches the event bus.
pub redact_map_for_audit_lem :
    (payload : Value) (name : Text)
    → get name (redact_map_for_audit payload) ≡ shown name (as_object payload)
unfolding redact_map_for_audit
redact_map_for_audit_lem payload name = go (as_object payload)
  where
    go : (o : Option Fields) → get name (redact_object o) ≡ shown name o
    go none = unfold get in refl
    go (some source) = get-copy_fields source name audit_fields end ∙ unfold get in ground arith
