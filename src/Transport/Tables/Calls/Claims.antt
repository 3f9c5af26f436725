-- ===== src/Transport/Tables/Calls/Claims.antt =====
-- What `claim` of src/transport_runtime.rs commits, when it answers and when it fails, at any failing
-- database call.
use act_api_server_rs.Transport.Tables.Calls.{
  encode_hex, claim, Session, claim_of, claim_existing, claim_new,
}
use act_api_server_rs.Transport.Tables.Calls.Runs.{
  begin_rule, Outcome, bind_rule, lift_rule, call_rule, commit_rule,
}
use act_api_server_rs.Transport.Tables.Store.{
  propose, find, InboxRow, Database, claim_inbox, upsert_processing_status,
}
use act_api_server_rs.Prelude.{
  ℕ, ◌≡◌, refl, sym, ap, ◌∙◌, Bool, Option, some, arith, ok, ok_or, subst, inl, inr, false, ◌==◌,
  if◌then◌else◌, ==_iff, Bool-cases,
}
use act_api_server_rs.Text.{Text}
use act_api_server_rs.Transport.Errors.{invalid_state}
use act_api_server_rs.Json.{Value}
use act_api_server_rs.DataPlane.Frames.{Bytes}
use act_api_server_rs.Transport.Journal.{JournalClaim, fresh, replay, processing, conflict}

abbrev pub Is : Database → Database → Type 0
Is old db = db ≡ old

-- What an answered claim has done to the tables.
abbrev pub Claimed : Text → Text → Text → Database → JournalClaim → Database → Type 0
Claimed id subject hash old fresh new =
    (db : Database) × (n : ℕ) × (claim_inbox id subject hash old ≡ some (1, db))
    × (upsert_processing_status id subject db ≡ some (n, new))
Claimed id subject hash old answer new =
    (new ≡ old)
    × (row : InboxRow) × (find id old.inbox ≡ some row)
    × (claim_of row hash subject ≡ ok answer)

module _ (up : ℕ → Bool) (default_subject : Option Text) (sha256 : Bytes → Bytes)
    (from_str : Bytes → Option Value) where
  Claimed-of_row :
      (row : InboxRow) (id subject hash : Text) (old new : Database) (answer : JournalClaim)
      → new ≡ old
      → find id old.inbox ≡ some row
      → claim_of row hash subject ≡ ok answer
      → Claimed id subject hash old answer new
  unfolding claim_of
  Claimed-of_row row id subject hash old new fresh same found c = ground arith
  Claimed-of_row row id subject hash old new (replay r) same found c = (same, row, found, c)
  Claimed-of_row row id subject hash old new processing same found c = (same, row, found, c)
  Claimed-of_row row id subject hash old new conflict same found c = (same, row, found, c)

  existing_outcome :
      (id subject hash : Text) (s : Session)
      → s.view ≡ s.committed
      → Outcome
          (Is s.committed)
          (λ a t. Claimed id subject hash s.committed a t.committed)
          (claim_existing up default_subject sha256 from_str id subject hash s)
  unfolding claim_existing
  existing_outcome id subject hash s same =
      let old = s.committed in
      bind_rule _ _ (λ found t. (t.view ≡ old) × (t.committed ≡ old) × (found ≡ find id old.inbox))
        _ _ s
        (call_rule _ _ up _ s refl (λ found db e.
          let here : (found ≡ find id s.view.inbox) × (db ≡ s.view) = (cc, cc) in
          (here.1 ∙ same, refl, here.0 ∙ ap (λ (d : Database). find id d.inbox) same)))
        (λ found t h.
          bind_rule _ _
            (λ row u. (u.view ≡ old) × (u.committed ≡ old) × (find id old.inbox ≡ some row)) _ _ t
            (lift_rule _ _ (ok_or found invalid_state) t h.1
              (λ row e. (h.0, h.1, sym h.2 ∙ ground arith)))
            (λ row u k.
              bind_rule _ _ (λ _ v. v.committed ≡ old) _ _ u (commit_rule _ _ up u k.1 k.0)
                (λ _ v c.
                  lift_rule _ _ (claim_of row hash subject) v c (λ answer e.
                    Claimed-of_row row id subject hash old v.committed answer c k.2 e))))

  new_outcome :
      (id subject hash : Text) (s : Session)
      → claim_inbox id subject hash s.committed ≡ some (1, s.view)
      → Outcome
          (Is s.committed)
          (λ a t. Claimed id subject hash s.committed a t.committed)
          (claim_new up default_subject sha256 from_str id subject s)
  unfolding claim_new
  new_outcome id subject hash s inserted =
      let old = s.committed in
      bind_rule _ _
        (λ n t.
          (t.committed ≡ old) × (upsert_processing_status id subject s.view ≡ some (n, t.view)))
        _ _ s (call_rule _ _ up _ s refl (λ n db e. (refl, e)))
        (λ n t h.
          bind_rule _ _ (λ _ u. u.committed ≡ t.view) _ _ t (commit_rule _ _ up t h.0 refl)
            (λ _ u c. (s.view, n, inserted, h.1 ∙ ap (λ d. some (n, d)) (sym c))))

  conflict_changes_nothing :
      (id subject hash : Text) (old db : Database) (n : ℕ)
      → claim_inbox id subject hash old ≡ some (n, db)
      → (n == 1) ≡ false
      → db ≡ old
  unfolding claim_inbox propose
  conflict_changes_nothing id subject hash old db n e h = ground arith

  -- What a claim commits: on an answer, the rows of a new operation or nothing, as the answer says;
  -- on a failure at any call, nothing.
  pub claim-Outcome :
      (id subject : Text) (json : Bytes) (s : Session)
      → Outcome
          (Is s.committed)
          (λ a t. Claimed id subject (encode_hex (sha256 json)) s.committed a t.committed)
          (claim up default_subject sha256 from_str id subject json s)
  unfolding claim
  claim-Outcome id subject json s =
      let old = s.committed in
      let hash = encode_hex (sha256 json) in
      bind_rule _ _ (λ _ t. (t.committed ≡ old) × (t.view ≡ old)) _ _ s
        (begin_rule _ _ up s refl (refl, refl))
        (λ _ t h.
          bind_rule _ _
            (λ n u. (u.committed ≡ old) × (claim_inbox id subject hash old ≡ some (n, u.view))) _ _
            t
            (call_rule _ _ up _ t h.0
              (λ n db e. (h.0, ap (claim_inbox id subject hash) (sym h.1) ∙ e)))
            (λ n u k. branch n u k.0 k.1))
    where
      branch :
          (n : ℕ) (u : Session)
          → u.committed ≡ s.committed
          → claim_inbox id subject (encode_hex (sha256 json)) s.committed ≡ some (n, u.view)
          → Outcome
              (Is s.committed)
              (λ a t. Claimed id subject (encode_hex (sha256 json)) s.committed a t.committed)
              ((if n == 1
                  then claim_new up default_subject sha256 from_str id subject
                  else claim_existing up default_subject sha256 from_str id subject
                      (encode_hex (sha256 json)))
                u)
      branch n u same e = elim (Bool-cases (n == 1)) [
        | inl y ↦ rw y (
            subst
              (λ old.
                Outcome (Is old)
                  (λ a t. Claimed id subject (encode_hex (sha256 json)) old a t.committed)
                  (claim_new up default_subject sha256 from_str id subject u))
              same
              (new_outcome id subject (encode_hex (sha256 json)) u
                (rw same (e ∙ ap (λ (k : ℕ). some (k, u.view)) ((==_iff n 1).0 y)))))
        | inr no_row ↦ rw no_row (
            subst
              (λ old.
                Outcome (Is old)
                  (λ a t. Claimed id subject (encode_hex (sha256 json)) old a t.committed)
                  (claim_existing up default_subject sha256 from_str id subject
                    (encode_hex (sha256 json)) u))
              same
              (existing_outcome id subject (encode_hex (sha256 json)) u (
                conflict_changes_nothing id subject (encode_hex (sha256 json)) s.committed u.view n
                  e no_row
                ∙ sym same)))
      ]
