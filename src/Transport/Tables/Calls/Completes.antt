-- ===== src/Transport/Tables/Calls/Completes.antt =====
-- What `complete` of src/transport_runtime.rs commits, when it answers and when it fails, at any
-- failing database call.
use act_api_server_rs.Prelude.{
  ℕ, ◌≡◌, refl, sym, ap, ◌∙◌, Bool, Option, some, ◌==◌, ==_iff, ensure, ensure-eq-ok,
}
use act_api_server_rs.Text.{Text, txt}
use act_api_server_rs.Transport.Errors.{invalid_state}
use act_api_server_rs.Json.{Value}
use act_api_server_rs.DataPlane.Frames.{Bytes}
use act_api_server_rs.Transport.Tables.Store.{
  Database, complete_inbox, upsert_completed_status, insert_outbox,
}
use act_api_server_rs.Transport.Tables.Calls.{Session, ◌>>◌, lift, is_utf8, call, commit, complete}
use act_api_server_rs.Transport.Tables.Calls.Runs.{
  Outcome, bind_rule, lift_rule, call_rule, begin_rule, commit_rule,
}
use act_api_server_rs.Transport.Tables.Calls.Claims.{Is}

-- What an answered completion has done to the tables.
module _ (default_subject : Option Text) where
  abbrev pub Completed : Text → Bytes → Database → Database → Type 0
  Completed id result old new =
      (a : Database) × (b : Database) × (m : ℕ) × (n : ℕ) × (complete_inbox id result old
        ≡ some (1, a))
      × (upsert_completed_status default_subject id result a ≡ some (m, b))
      × (insert_outbox id (txt "act.results.api.v1") result b ≡ some (n, new))

module _ (up : ℕ → Bool) (default_subject : Option Text) (sha256 : Bytes → Bytes)
    (from_str : Bytes → Option Value) where
  -- What a completion commits: on an answer, the rows of all three tables; on a failure at any call,
  -- nothing.
  pub complete-Outcome :
      (id : Text) (result : Bytes) (s : Session)
      → Outcome
          (Is s.committed)
          (λ _ t. Completed default_subject id result s.committed t.committed)
          (complete up default_subject sha256 from_str id result s)
  unfolding complete
  complete-Outcome id result s =
      let old = s.committed in
      bind_rule _ _ (λ _ t. t.committed ≡ old) _ _ s
        (lift_rule _ _ (ensure (is_utf8 result) invalid_state) s refl (λ _ _. refl))
        (λ _ t h.
          bind_rule _ _ (λ _ u. (u.committed ≡ old) × (u.view ≡ old)) _ _ t
            (begin_rule _ _ up t h (h, h))
            (λ _ u k.
              bind_rule _ _
                (λ n v. (v.committed ≡ old) × (complete_inbox id result old ≡ some (n, v.view))) _ _
                u
                (call_rule _ _ up _ u k.0
                  (λ n db e. (k.0, ap (complete_inbox id result) (sym k.1) ∙ e)))
                (λ n v l. after_inbox n v l.0 l.1)))
    where
      after_inbox :
          (n : ℕ) (v : Session)
          → v.committed ≡ s.committed
          → complete_inbox id result s.committed ≡ some (n, v.view)
          → Outcome
              (Is s.committed)
              (λ _ t. Completed default_subject id result s.committed t.committed)
              ((lift (ensure (n == 1) invalid_state)
                  >> (call up (upsert_completed_status default_subject id result)
                      >> (call up (insert_outbox id (txt "act.results.api.v1") result)
                          >> commit up)))
                v)
      after_inbox n v same e =
          bind_rule _ _ (λ _ w. (w ≡ v) × (n ≡ 1)) _ _ v
            (lift_rule _ _ (ensure (n == 1) invalid_state) v same
              (λ _ y. (refl, (==_iff n 1).0 (ensure-eq-ok _ invalid_state y))))
            (λ _ w x.
              let here : w.committed ≡ s.committed = ap (λ (u : Session). u.committed) x.0 ∙ same in
              let inbox : complete_inbox id result s.committed ≡ some (1, w.view) =
                e
                ∙ (ap (λ (k : ℕ). some (k, v.view)) x.1
                    ∙ ap (λ (u : Session). some (1, u.view)) (sym x.0)) in
              bind_rule _ _
                (λ m y.
                  (y.committed ≡ s.committed)
                  × (upsert_completed_status default_subject id result w.view ≡ some (m, y.view)))
                _ _ w (call_rule _ _ up _ w here (λ m db q. (here, q)))
                (λ m y q.
                  bind_rule _ _
                    (λ k z.
                      (z.committed ≡ s.committed)
                      × (insert_outbox id (txt "act.results.api.v1") result y.view
                          ≡ some (k, z.view)))
                    _ _ y (call_rule _ _ up _ y q.0 (λ k db r. (q.0, r)))
                    (λ k z r. commit_rule _ _ up z r.0 (w.view, y.view, m, k, inbox, q.1, r.1))))
