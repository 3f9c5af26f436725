-- ===== src/Transport/Tables/Calls/Existing.antt =====
-- A claim of an operation that already has a row.
use act_api_server_rs.Transport.Tables.Calls.{Session, ◌>>=◌, call, begin, commit, claim_of, claim}
use act_api_server_rs.Transport.Journal.{
  JournalClaim, RowStatus, completed, conflict, fresh, in_progress, processing, replay,
}
use act_api_server_rs.Transport.Errors.{TransportError, invalid_state}
use act_api_server_rs.Text.Laws.{text_eq_iff, text_eq_refl}
use act_api_server_rs.Transport.Tables.Store.{
  find, propose, Database, InboxRow, claim_inbox, valid_hash, valid_operation_id, valid_subject,
}
use act_api_server_rs.Prelude.{
  ℕ, ◌+◌, ◌*◌, ◌/◌, ◌%◌, ◌<◌, ◌≡◌, refl, sym, subst, ◌∙◌, ◌≢◌, ◌⊎◌, inl, inr, Bool, Bool-cases,
  true, Result, none, err, ◌||◌, Option, some, [], ◌∷◌, arith, all, all_below, all_below_sound,
  in_range, length, ok,
}
use act_api_server_rs.Text.{Text, text_eq}
use act_api_server_rs.Json.{Value}
use act_api_server_rs.DataPlane.Frames.{Bytes}
use act_api_server_rs.Transport.Hex.{encode_hex, hex_digit}
use act_api_server_rs.Transport.Hex.RoundTrip.{IsBytes}

claim_of-ne-fresh : (row : InboxRow) (hash subject : Text) → claim_of row hash subject ≢ ok fresh
unfolding claim_of
claim_of-ne-fresh row hash subject = ground arith

-- What a claim answers for an operation that has a row: a conflict with another request or owner,
-- and for the row's own the progress or the stored result.
abbrev pub IsAnswer : InboxRow → Text → Text → Result JournalClaim TransportError → Type 0
IsAnswer row hash subject r =
    ((r ≡ ok conflict) × ((row.request_hash ≢ hash) ⊎ (row.subject ≢ subject)))
    ⊎ ((row.request_hash ≡ hash)
        × (row.subject ≡ subject)
        × (((row.status ≡ in_progress) × (r ≡ ok processing))
            ⊎ ((row.status ≡ completed)
                × (((row.result_json ≡ none) × (r ≡ err invalid_state))
                    ⊎ ((result : Bytes) × (row.result_json ≡ some result)
                        × (r ≡ ok (replay result)))))))

own-IsAnswer :
    (status : RowStatus) (stored : Option Bytes) (row : InboxRow) (hash subject : Text)
    → row.status ≡ status
    → row.result_json ≡ stored
    → row.request_hash ≡ hash
    → row.subject ≡ subject
    → IsAnswer row hash subject (claim_of row hash subject)
unfolding claim_of
own-IsAnswer in_progress stored row hash subject s j h o =
    inr (h, o, inl (s, rw (h, o, s, text_eq_refl hash, text_eq_refl subject) refl))
own-IsAnswer completed none row hash subject s j h o =
    inr (h, o, inr (s, inl (j, rw (h, o, s, j, text_eq_refl hash, text_eq_refl subject) refl)))
own-IsAnswer completed (some result) row hash subject s j h o =
    inr (
      h,
      o,
      inr (s, inr (result, j, rw (h, o, s, j, text_eq_refl hash, text_eq_refl subject) refl)),
    )

claim_of-IsAnswer :
    (row : InboxRow) (hash subject : Text) → IsAnswer row hash subject (claim_of row hash subject)
claim_of-IsAnswer row hash subject = elim (Bool-cases (text_eq row.request_hash hash)) [
  | inr other ↦ inl (
    unfold claim_of in ground (arith, other),
    inl (λ e. let same = (text_eq_iff row.request_hash hash).1 e in cc),
  )
  | inl request ↦ elim (Bool-cases (text_eq row.subject subject)) [
    | inr other ↦ inl (
      unfold claim_of in ground (arith, other),
      inr (λ e. let same = (text_eq_iff row.subject subject).1 e in cc),
    )
    | inl owner ↦
        own-IsAnswer row.status row.result_json row hash subject refl refl
          ((text_eq_iff row.request_hash hash).0 request)
          ((text_eq_iff row.subject subject).0 owner)
  ]
]

abbrev is_lower_hex : ℕ → Bool
is_lower_hex c = in_range b'0' b'9' c || in_range b'a' b'f' c

lower_table : all_below 16 (λ n. is_lower_hex (hex_digit n)) ≡ true
unfolding all_below hex_digit
lower_table = refl

hex_digit_lower : (n : ℕ) → n < 16 → is_lower_hex (hex_digit n) ≡ true
hex_digit_lower n h = all_below_sound 16 (λ n. is_lower_hex (hex_digit n)) n lower_table h

encode_hex_lower : (bytes : Bytes) → IsBytes bytes → all is_lower_hex (encode_hex bytes) ≡ true
unfolding encode_hex
encode_hex_lower [] h = refl
encode_hex_lower (b ∷ bytes) (lt, h) = rw (
  hex_digit_lower (b / 16) (omega arith),
  hex_digit_lower (b % 16) (omega arith),
  encode_hex_lower bytes h,
)

length-encode_hex : (bytes : Bytes) → length (encode_hex bytes) ≡ 2 * length bytes
unfolding encode_hex
length-encode_hex [] = refl
length-encode_hex (b ∷ bytes) = omega (arith, length-encode_hex bytes)

encode_hex_valid :
    (bytes : Bytes) → IsBytes bytes → length bytes ≡ 32 → valid_hash (encode_hex bytes) ≡ true
encode_hex_valid bytes h n =
    let wide : length (encode_hex bytes) ≡ 64 = omega (arith, length-encode_hex bytes) in
    rw (wide, encode_hex_lower bytes h) refl

claim_inbox_conflicts :
    (id subject hash : Text) (db : Database) (row : InboxRow)
    → valid_operation_id id ≡ true
    → valid_subject subject ≡ true
    → valid_hash hash ≡ true
    → find id db.inbox ≡ some row
    → claim_inbox id subject hash db ≡ some (0, db)
unfolding claim_inbox propose
claim_inbox_conflicts id subject hash db row good_id good_subject good_hash found = ground arith

module _ (up : ℕ → Bool) (default_subject : Option Text) (sha256 : Bytes → Bytes)
    (from_str : Bytes → Option Value) where
  -- While the database answers, a claim of an operation that has a row answers what that row says
  -- and changes nothing: another request or owner conflicts, and otherwise the operation is in
  -- progress or its stored result is replayed. It is never new, so the operation is not run again.
  -- The id and the subject have the lengths of their columns, and SHA-256 has 32 bytes.
  pub claim_existing_lem :
      (id subject : Text) (json : Bytes) (s : Session) (row : InboxRow)
      → ((n : ℕ) → up n ≡ true)
      → valid_operation_id id ≡ true
      → valid_subject subject ≡ true
      → IsBytes (sha256 json)
      → length (sha256 json) ≡ 32
      → find id s.committed.inbox ≡ some row
      → let claimed = claim up default_subject sha256 from_str id subject json s in
        IsAnswer row (encode_hex (sha256 json)) subject claimed.0
        × (claimed.1.committed ≡ s.committed)
        × (claimed.0 ≢ ok fresh)
  unfolding claim ◌>>=◌ begin call commit
  claim_existing_lem id subject json s row alive good_id good_subject bytes width found =
      let hash = encode_hex (sha256 json) in
      let calls = s.calls in
      let good_hash = encode_hex_valid (sha256 json) bytes width in
      let answers : ((claim up default_subject sha256 from_str id subject json s).0
            ≡ claim_of row hash subject)
          × ((claim up default_subject sha256 from_str id subject json s).1.committed
              ≡ s.committed) =
        rw
          (
            alive calls,
            alive (calls + 1),
            claim_inbox_conflicts id subject hash s.committed row good_id good_subject good_hash
                found,
            alive (calls + 1 + 1),
            found,
            alive (calls + 1 + 1 + 1),
          )
          (refl, refl) in
      (
        subst (IsAnswer row hash subject) (sym answers.0) (claim_of-IsAnswer row hash subject),
        answers.1,
        λ e. claim_of-ne-fresh row hash subject (sym answers.0 ∙ e),
      )
