-- ===== src/Shutdown/Supervisor/Outcomes/Contract.antt =====
-- The contract of the supervisor of src/server/shutdown.rs over every environment.
use act_api_server_rs.Shutdown.Supervisor.{
  begin_with, returned, failed, panicked, Failure, invalid_first_trigger, invalid_transition,
  not_settled, flatten_server_result, receive_trigger, FirstEvent, server_done, received,
  DrainEvent, drained, signalled, eof, Settled, joined, still_open, World, Effect,
  graceful_shutdown, shutdown, abort, Outcome, drain_select, supervise_with_triggers, signals,
  settle, forced_shutdown, drain, begin, supervise_from, count_signal,
}
use act_api_server_rs.Prelude.{
  ℕ, ◌≡◌, refl, ap, ◌∙◌, subst, ◌≢◌, ◌⊎◌, inl, inr, Bool, true, false, ◌&&◌, Option, none, some,
  List, [], ◌∷◌, arith, Bool-cases, All, Result, ok, err,
}
use act_api_server_rs.Shutdown.{
  Trigger, stdin_eof, timeout, graceful_complete, is_signal, Action, ignore, begin_graceful, force,
  finish, State, new, apply, Config,
}
use act_api_server_rs.Shutdown.Supervisor.Outcomes.{
  calls, IsSignalFirst, IsSignalDrain, IsSignalWorld, IsInvalid, began, not_began, hint_watched,
  begin_of_signal, drain_select_eof, drain_select-IsSignal, drain_valid, forced_of_force, Forces,
}

and_true : (a b : Bool) → (a && b) ≡ true → (a ≡ true) × (b ≡ true)
and_true a b h = ground arith

begin_valid :
    (cfg : Config) (world : World) (t : Trigger)
    → is_signal t ≡ true
    → All IsSignalDrain world.before_deadline
    → ¬ IsInvalid (begin cfg world t).0
begin_valid cfg world t h a bad =
    let b = began cfg.stdin_is_tty t h in
    let watching = hint_watched cfg world t in
    drain_valid world.settled (apply (new cfg.stdin_is_tty) t).state t (signals t)
      (drain_select watching world.before_deadline) b.1
      (λ u e. drain_select-IsSignal watching world.before_deadline u a e)
      (λ e.
        let shown =
          and_true _ _ (and_true _ _ (drain_select_eof watching world.before_deadline e)).0 in
        let (tty, by_sigint) = b.4 shown.0 in (b.2 ∙ tty, b.3 ∙ ap some by_sigint))
      (subst IsInvalid (begin_of_signal cfg world t h).0 bad)

supervise_from_valid :
    (cfg : Config) (world : World) (e : FirstEvent)
    → IsSignalFirst e
    → All IsSignalDrain world.before_deadline
    → ¬ IsInvalid (supervise_from cfg world e).0
unfolding supervise_from flatten_server_result receive_trigger
supervise_from_valid cfg world (server_done returned) s a bad = bad
supervise_from_valid cfg world (server_done (failed e)) s a bad = bad
supervise_from_valid cfg world (server_done (panicked e)) s a bad = bad
supervise_from_valid cfg world (received none) s a bad = bad
supervise_from_valid cfg world (received (some (err e))) s a bad = bad
supervise_from_valid cfg world (received (some (ok t))) s a bad = begin_valid cfg world t s a bad

-- On a trigger channel that carries signals only, as `Signals::recv` fills it, no run ends in
-- "invalid first shutdown trigger" or "invalid shutdown transition".
pub supervise_valid :
    (cfg : Config) (world : World)
    → IsSignalWorld world
    → ¬ IsInvalid (supervise_with_triggers cfg world).0
unfolding supervise_with_triggers
supervise_valid cfg world w =
    supervise_from_valid cfg world world.first w.first_signals w.drain_signals

-- What the result says of the calls made on the server's handle.
abbrev pub Explains : Result Outcome Failure → List Effect → Type 0
Explains (ok o) cs =
    ((o.forced ≡ true) × (cs ≡ graceful_shutdown ∷ shutdown ∷ []))
    ⊎ ((o.forced ≡ false) × (cs ≡ graceful_shutdown ∷ []) × (is_signal o.trigger ≡ true))
    ⊎ ((o.forced ≡ false) × (cs ≡ []) × (o.trigger ≡ graceful_complete))
Explains (err (not_settled n)) cs = cs ≡ graceful_shutdown ∷ shutdown ∷ abort ∷ []
Explains (err _) cs =
    (cs ≡ []) ⊎ (cs ≡ graceful_shutdown ∷ []) ⊎ (cs ≡ graceful_shutdown ∷ shutdown ∷ [])

settle-Explains :
    (settled : Settled) (s : State) (t : Trigger) (n : ℕ)
    → Explains
        (settle settled s t n).0
        (graceful_shutdown ∷ shutdown ∷ calls (settle settled s t n).1)
unfolding settle flatten_server_result
settle-Explains (joined returned) s t n = inl (refl, refl)
settle-Explains (joined (failed e)) s t n = inr (inr refl)
settle-Explains (joined (panicked e)) s t n = inr (inr refl)
settle-Explains (still_open k) s t n = refl

Action-cases : (s : State) (t : Trigger) → Forces s t ⊎ ((apply s t).action ≢ force)
Action-cases s t = go (apply s t).action refl
  where
    go : (a : Action) → (apply s t).action ≡ a → Forces s t ⊎ ((apply s t).action ≢ force)
    go ignore e = inr (λ h. cc)
    go begin_graceful e = inr (λ h. cc)
    go force e = inl e
    go finish e = inr (λ h. cc)

forced_of_other :
    (settled : Settled) (s : State) (t : Trigger) (n : ℕ)
    → (apply s t).action ≢ force
    → forced_shutdown settled s t n ≡ (err (invalid_transition s.phase t), [])
unfolding forced_shutdown
forced_of_other settled s t n h = ground arith

forced-Explains :
    (settled : Settled) (s : State) (t : Trigger) (n : ℕ)
    → Explains
        (forced_shutdown settled s t n).0
        (graceful_shutdown ∷ calls (forced_shutdown settled s t n).1)
forced-Explains settled s t n = elim (Action-cases s t) [
  | inl h ↦
      let (result, made) = forced_of_force settled s t n h in
      rw (result, made) (settle-Explains settled (apply s t).state t (count_signal n t))
  | inr h ↦ rw (forced_of_other settled s t n h) (inr (inl refl))
]

drain-Explains :
    (settled : Settled) (s : State) (first : Trigger) (n : ℕ) (e : Option DrainEvent)
    → is_signal first ≡ true
    → Explains
        (drain settled s first n e).0
        (graceful_shutdown ∷ calls (drain settled s first n e).1)
unfolding drain flatten_server_result receive_trigger
drain-Explains settled s first n none h = forced-Explains settled s timeout n
drain-Explains settled s first n (some eof) h = forced-Explains settled s stdin_eof n
drain-Explains settled s first n (some (drained returned)) h = inr (inl (refl, refl, h))
drain-Explains settled s first n (some (drained (failed e))) h = inr (inl refl)
drain-Explains settled s first n (some (drained (panicked e))) h = inr (inl refl)
drain-Explains settled s first n (some (signalled none)) h = inr (inl refl)
drain-Explains settled s first n (some (signalled (some (err e)))) h = inr (inl refl)
drain-Explains settled s first n (some (signalled (some (ok t)))) h = forced-Explains settled s t n

begin_of_other :
    (cfg : Config) (world : World) (t : Trigger)
    → is_signal t ≡ false
    → begin cfg world t ≡ (err (invalid_first_trigger t), [])
unfolding begin
begin_of_other cfg world t h = let i = not_began cfg.stdin_is_tty t h in rw (i, begin, begin_with)

begin-Explains :
    (cfg : Config) (world : World) (t : Trigger)
    → Explains (begin cfg world t).0 (calls (begin cfg world t).1)
begin-Explains cfg world t = elim (Bool-cases (is_signal t)) [
  | inl h ↦
      let (result, made) = begin_of_signal cfg world t h in
      rw (result, made)
        (drain-Explains world.settled (apply (new cfg.stdin_is_tty) t).state t (signals t)
          (drain_select (hint_watched cfg world t) world.before_deadline) h)
  | inr h ↦ rw (begin_of_other cfg world t h) (inl refl)
]

supervise_from-Explains :
    (cfg : Config) (world : World) (e : FirstEvent)
    → Explains (supervise_from cfg world e).0 (calls (supervise_from cfg world e).1)
unfolding supervise_from flatten_server_result receive_trigger
supervise_from-Explains cfg world (server_done returned) = inr (inr (refl, refl, refl))
supervise_from-Explains cfg world (server_done (failed e)) = inl refl
supervise_from-Explains cfg world (server_done (panicked e)) = inl refl
supervise_from-Explains cfg world (received none) = inl refl
supervise_from-Explains cfg world (received (some (err e))) = inl refl
supervise_from-Explains cfg world (received (some (ok t))) = begin-Explains cfg world t

-- In every environment the calls on the server's handle are those that the result says: a forced
-- outcome has drained and then shut down, a graceful one has only drained, a server that ended by
-- itself has had no call, and only a server that did not settle is aborted, after both calls.
pub supervise-Explains :
    (cfg : Config) (world : World)
    → Explains (supervise_with_triggers cfg world).0 (calls (supervise_with_triggers cfg world).1)
unfolding supervise_with_triggers
supervise-Explains cfg world = supervise_from-Explains cfg world world.first
