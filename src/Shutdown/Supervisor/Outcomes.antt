-- ===== src/Shutdown/Supervisor/Outcomes.antt =====
-- What one run of the supervisor of src/server/shutdown.rs returns, and which calls it makes.
pub mod Contract
pub mod Interactive
use act_api_server_rs.Shutdown.Supervisor.{
  begin_with, signals, begin, receive_trigger, drain, count_signal, returned, failed, panicked,
  Failure, invalid_first_trigger, invalid_transition, flatten_server_result, FirstEvent,
  server_done, received, DrainEvent, drained, signalled, eof, Settled, joined, still_open, World,
  Effect, graceful_shutdown, shutdown, abort, log, log_force_timeout, Outcome, drain_select, settle,
  forced_shutdown,
}
use act_api_server_rs.Prelude.{
  ℕ, ◌≡◌, refl, subst, Bool, true, false, Option, none, some, List, [], ◌∷◌, arith, All, Result, ok,
  err, ◌&&◌, ◌-◌,
}
use act_api_server_rs.Text.{Text}
use act_api_server_rs.Shutdown.{
  begin_graceful, new, ignore, Config, draining, Trigger, sigint, stdin_eof, timeout, is_signal,
  force, State, apply,
}

-- The calls on the server's handle, without the log records.
abbrev pub calls : List Effect → List Effect
calls [] = []
calls (graceful_shutdown ∷ es) = graceful_shutdown ∷ calls es
calls (shutdown ∷ es) = shutdown ∷ calls es
calls (abort ∷ es) = abort ∷ calls es
calls (log r ∷ es) = calls es
calls (log_force_timeout phase trigger remaining ∷ es) = calls es

-- A trigger channel that carries signals only, as `Signals::recv` fills it.
abbrev pub IsSignal : Option (Result Trigger Text) → Type 0
IsSignal none = Unit
IsSignal (some (ok t)) = is_signal t ≡ true
IsSignal (some (err e)) = Unit

abbrev pub IsSignalFirst : FirstEvent → Type 0
IsSignalFirst (server_done r) = Unit
IsSignalFirst (received t) = IsSignal t

abbrev pub IsSignalDrain : DrainEvent → Type 0
IsSignalDrain (drained r) = Unit
IsSignalDrain (signalled t) = IsSignal t
IsSignalDrain eof = Unit

pub record IsSignalWorld (w : World) : Type 0 where
  pub first_signals : IsSignalFirst w.first
  pub drain_signals : All IsSignalDrain w.before_deadline

abbrev pub IsInvalid : Result Outcome Failure → Type 0
IsInvalid (err (invalid_first_trigger t)) = Unit
IsInvalid (err (invalid_transition p t)) = Unit
IsInvalid _ = ⊥

-- The state after the graceful shutdown has begun.
abbrev IsDraining : State → Bool → Trigger → Type 0
IsDraining s tty first =
    (s.phase ≡ draining) × (s.stdin_is_tty ≡ tty) × (s.first_trigger ≡ some first)

drain_select_eof :
    (watching : Bool) (es : List DrainEvent) → drain_select watching es ≡ some eof → watching ≡ true
unfolding drain_select
drain_select_eof watching [] h = cc
drain_select_eof watching (drained r ∷ es) h = cc
drain_select_eof watching (signalled t ∷ es) h = cc
drain_select_eof true (eof ∷ es) h = refl
drain_select_eof false (eof ∷ es) h = drain_select_eof false es h

drain_select-IsSignal :
    (watching : Bool) (es : List DrainEvent) (t : Option (Result Trigger Text))
    → All IsSignalDrain es
    → drain_select watching es ≡ some (signalled t)
    → IsSignal t
unfolding drain_select
drain_select-IsSignal watching [] t a h = cc
drain_select-IsSignal watching (drained r ∷ es) t a h = cc
drain_select-IsSignal watching (signalled u ∷ es) t (a, _) h =
    let same : u ≡ t = cc in subst IsSignal same a
drain_select-IsSignal true (eof ∷ es) t a h = cc
drain_select-IsSignal false (eof ∷ es) t (_, a) h = drain_select-IsSignal false es t a h

-- A trigger forces: the machine would answer it by `force`.
abbrev Forces : State → Trigger → Type 0
Forces s t = (apply s t).action ≡ force

settle_valid :
    (settled : Settled) (s : State) (t : Trigger) (n : ℕ) → ¬ IsInvalid (settle settled s t n).0
unfolding settle flatten_server_result
settle_valid (joined returned) s t n h = h
settle_valid (joined (failed e)) s t n h = h
settle_valid (joined (panicked e)) s t n h = h
settle_valid (still_open k) s t n h = h

-- The run after a forcing trigger: what is logged and called, and what settling then makes of it.
forced_of_force :
    (settled : Settled) (s : State) (t : Trigger) (n : ℕ)
    → Forces s t
    → ((forced_shutdown settled s t n).0
        ≡ (settle settled (apply s t).state t (count_signal n t)).0)
      × (calls (forced_shutdown settled s t n).1
          ≡ shutdown ∷ calls (settle settled (apply s t).state t (count_signal n t)).1)
unfolding forced_shutdown
forced_of_force settled s t n h = (rw (h, forced_shutdown), rw (h, forced_shutdown))

forced_valid :
    (settled : Settled) (s : State) (t : Trigger) (n : ℕ)
    → Forces s t
    → ¬ IsInvalid (forced_shutdown settled s t n).0
forced_valid settled s t n h bad =
    settle_valid settled (apply s t).state t (count_signal n t)
      (subst IsInvalid (forced_of_force settled s t n h).0 bad)

signal-Forces : (s : State) (t : Trigger) → s.phase ≡ draining → is_signal t ≡ true → Forces s t
unfolding apply is_signal
signal-Forces s t d h = ground arith

timeout-Forces : (s : State) → s.phase ≡ draining → Forces s timeout
unfolding apply
timeout-Forces s d = ground arith

eof-Forces :
    (s : State)
    → s.phase ≡ draining
    → s.stdin_is_tty ≡ true
    → s.first_trigger ≡ some sigint
    → Forces s stdin_eof
unfolding apply
eof-Forces s d tty first = ground arith

-- The drain of a server whose first signal is known: the event taken, and the end of file only
-- where the watcher can report it.
drain_valid :
    (settled : Settled) (s : State) (first : Trigger) (n : ℕ) (e : Option DrainEvent)
    → s.phase ≡ draining
    → ((t : Option (Result Trigger Text)) → e ≡ some (signalled t) → IsSignal t)
    → (e ≡ some eof → (s.stdin_is_tty ≡ true) × (s.first_trigger ≡ some sigint))
    → ¬ IsInvalid (drain settled s first n e).0
unfolding drain
drain_valid settled s first n none d sig tty bad =
    forced_valid settled s timeout n (timeout-Forces s d) bad
drain_valid settled s first n (some eof) d sig tty bad =
    let (on_tty, by_sigint) = tty refl in
    forced_valid settled s stdin_eof n (eof-Forces s d on_tty by_sigint) bad
drain_valid settled s first n (some (drained returned)) d sig tty bad =
    unfold flatten_server_result in bad
drain_valid settled s first n (some (drained (failed e))) d sig tty bad =
    unfold flatten_server_result in bad
drain_valid settled s first n (some (drained (panicked e))) d sig tty bad =
    unfold flatten_server_result in bad
drain_valid settled s first n (some (signalled none)) d sig tty bad = unfold receive_trigger in bad
drain_valid settled s first n (some (signalled (some (err e)))) d sig tty bad =
    unfold receive_trigger in bad
drain_valid settled s first n (some (signalled (some (ok t)))) d sig tty bad =
    forced_valid settled s t n (signal-Forces s t d (sig (some (ok t)) refl))
      (unfold receive_trigger in bad)

began :
    (tty : Bool) (t : Trigger)
    → is_signal t ≡ true
    → let next = apply (new tty) t in
      (next.action ≡ begin_graceful)
      × (next.state.phase ≡ draining)
      × (next.state.stdin_is_tty ≡ tty)
      × (next.state.first_trigger ≡ some t)
      × (next.show_force_hint ≡ true → (tty ≡ true) × (t ≡ sigint))
unfolding apply is_signal
began tty t h = ground arith

not_began : (tty : Bool) (t : Trigger) → is_signal t ≡ false → (apply (new tty) t).action ≡ ignore
unfolding apply is_signal
not_began tty t h = ground arith

abbrev hint_watched : Config → World → Trigger → Bool
hint_watched cfg world t =
    ((apply (new cfg.stdin_is_tty) t).show_force_hint && cfg.watch_stdin_eof)
    && world.watcher_starts

-- The run after a first signal: the calls of the request, then the drain.
begin_of_signal :
    (cfg : Config) (world : World) (t : Trigger)
    → is_signal t ≡ true
    → let rest =
        drain world.settled
          (apply (new cfg.stdin_is_tty) t).state
          t
          (signals t)
          (drain_select (hint_watched cfg world t) world.before_deadline) in
      ((begin cfg world t).0 ≡ rest.0)
      × (calls (begin cfg world t).1 ≡ graceful_shutdown ∷ calls rest.1)
unfolding begin
begin_of_signal cfg world t h =
    let act = (began cfg.stdin_is_tty t h).0 in
    (rw (act, begin, begin_with), rw (act, begin, begin_with) (ground arith))
