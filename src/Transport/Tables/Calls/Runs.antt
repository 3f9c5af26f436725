-- ===== src/Transport/Tables/Calls/Runs.antt =====
-- Rules for the calls of a transaction, and what `claim` and `complete` commit.
use act_api_server_rs.Transport.Tables.Calls.{
  bind_at, Session, Tx, ◌>>=◌, lift, call, begin, commit,
}
use act_api_server_rs.Prelude.{
  ℕ, ◌+◌, ◌≡◌, refl, inl, inr, Bool, true, false, Option, none, some, if◌then◌else◌, Bool-cases,
  Result, ok, err,
}
use act_api_server_rs.Transport.Errors.{TransportError, database}
use act_api_server_rs.Transport.Tables.Store.{Database}

-- A run ends well in `Q`, or fails with committed tables in `E`.
abbrev pub Outcome {ℓ} :
    {A : Type ℓ}
    → (Database → Type 0)
    → (A → Session → Type 0)
    → Result A TransportError × Session
    → Type 0
Outcome E Q (ok a, s) = Q a s
Outcome E Q (err e, s) = E s.committed

module _ {ℓ} {A : Type ℓ} (E : Database → Type 0) (Q : A → Session → Type 0) where
  pub bind_rule {κ} :
      {B : Type κ} (R : B → Session → Type 0) (m : Tx B) (f : B → Tx A) (s : Session)
      → Outcome E R (m s)
      → ((b : B) (s' : Session) → R b s' → Outcome E Q (f b s'))
      → Outcome E Q ((m >>= f) s)
  unfolding ◌>>=◌
  bind_rule R m f s h k = go (m s) h
    where
      go : (p : Result _ TransportError × Session) → Outcome E R p → Outcome E Q (bind_at p.0 p.1 f)
      go (ok b, s') h = k b s' h
      go (err e, s') h = h

  pub lift_rule :
      (r : Result A TransportError) (s : Session)
      → E s.committed
      → ((a : A) → r ≡ ok a → Q a s)
      → Outcome E Q (lift r s)
  lift_rule (ok a) s e h = h a refl
  lift_rule (err x) s e h = e

  module _ (up : ℕ → Bool) where
    pub call_rule :
        (f : Database → Option (A × Database)) (s : Session)
        → E s.committed
        → ((a : A) (db : Database)
            → f s.view ≡ some (a, db)
            → Q a (record s { view = db; calls = s.calls + 1 }))
        → Outcome E Q (call up f s)
    unfolding call
    call_rule f s e h = go (up s.calls) (f s.view) refl
      where
        go :
            (b : Bool) (o : Option (A × Database))
            → f s.view ≡ o
            → Outcome E Q (
                let s' = record s { calls = s.calls + 1 } in
                if b
                then elim o [
                  | none ↦ (err database, s')
                  | some p ↦ (ok p.0, record s' { view = p.1 })
                ]
                else (err database, s'))
        go true none q = e
        go true (some (a, db)) q = h a db q
        go false o q = e

module _ (E : Database → Type 0) (Q : Unit {0} → Session → Type 0) (up : ℕ → Bool) where
  pub begin_rule :
      (s : Session)
      → E s.committed
      → Q tt (record s { view = s.committed; calls = s.calls + 1 })
      → Outcome E Q (begin up s)
  unfolding begin
  begin_rule s e h = elim (Bool-cases (up s.calls)) [
    | inl y ↦ rw (y, begin) h
    | inr n ↦ rw (n, begin) e
  ]

  pub commit_rule :
      (s : Session)
      → E s.committed
      → Q tt (record s { committed = s.view; calls = s.calls + 1 })
      → Outcome E Q (commit up s)
  unfolding commit
  commit_rule s e h = elim (Bool-cases (up s.calls)) [
    | inl y ↦ rw (y, commit) h
    | inr n ↦ rw (n, commit) e
  ]
