-- ===== src/Shutdown/Supervisor/Outcomes/Interactive.antt =====
-- What forces a shutdown in src/server/shutdown.rs: a second signal, the terminal's end of file and
-- the deadline.
use act_api_server_rs.Shutdown.Supervisor.{
  begin_with, returned, failed, panicked, Failure, server_error, join_error, not_settled,
  flatten_server_result, receive_trigger, FirstEvent, server_done, received, DrainEvent, drained,
  signalled, eof, Settled, joined, still_open, World, Outcome, drain_select,
  supervise_with_triggers, signals, settle, drain, begin, Effect, Run, abort, forced_shutdown,
  graceful_shutdown, shutdown, supervise_from, count_signal,
}
use act_api_server_rs.Prelude.{
  ℕ, ◌≡◌, refl, ap, ◌∙◌, ◌≢◌, ◌⊎◌, inl, inr, All, ◌&&◌, Bool, true, false, none, some, List, [],
  ◌∷◌, arith, Result, ok, err,
}
use act_api_server_rs.Shutdown.{
  draining, Trigger, sigint, stdin_eof, timeout, is_signal, State, new, apply, Config,
}
use act_api_server_rs.Shutdown.Supervisor.Outcomes.{
  began, calls, Forces, hint_watched, begin_of_signal, eof-Forces, forced_of_force, signal-Forces,
  timeout-Forces,
}

-- What can happen while the server drains, short of its end and of an error of the trigger channel.
abbrev pub IsSecond : DrainEvent → Type 0
IsSecond (drained r) = ⊥
IsSecond (signalled none) = ⊥
IsSecond (signalled (some (err e))) = ⊥
IsSecond (signalled (some (ok t))) = is_signal t ≡ true
IsSecond eof = Unit

abbrev by_sigint : Trigger → Bool
by_sigint sigint = true
by_sigint _ = false

-- Whether Ctrl-D is read after the first trigger.
abbrev pub reads_eof : Config → World → Trigger → Bool
reads_eof cfg world first =
    ((cfg.stdin_is_tty && by_sigint first) && cfg.watch_stdin_eof) && world.watcher_starts

-- What forces the shutdown, given whether Ctrl-D is read: the first of another signal, Ctrl-D and
-- the deadline.
abbrev pub forced_by : Bool → List DrainEvent → Trigger
forced_by reads [] = timeout
forced_by reads (drained r ∷ es) = timeout
forced_by reads (signalled none ∷ es) = timeout
forced_by reads (signalled (some (err e)) ∷ es) = timeout
forced_by reads (signalled (some (ok t)) ∷ es) = t
forced_by true (eof ∷ es) = stdin_eof
forced_by false (eof ∷ es) = forced_by false es

abbrev forced_result : Settled → Trigger → Result Outcome Failure
forced_result (joined returned) t = ok (record { forced = true; trigger = t })
forced_result (joined (failed e)) t = err (server_error e)
forced_result (joined (panicked e)) t = err (join_error e)
forced_result (still_open n) t = err (not_settled n)

abbrev abort_of : Settled → List Effect
abort_of (joined r) = []
abort_of (still_open n) = abort ∷ []

-- A run forced by a trigger: its result is the server's end, and the calls on the server's handle
-- are the graceful shutdown, the immediate one and, for a server that has not settled, the abort.
abbrev pub IsForced : Settled → Trigger → Run → Type 0
IsForced settled t run =
    (run.0 ≡ forced_result settled t)
    × (calls run.1 ≡ graceful_shutdown ∷ shutdown ∷ abort_of settled)

settle_forced :
    (settled : Settled) (s : State) (t : Trigger) (n : ℕ)
    → ((settle settled s t n).0 ≡ forced_result settled t)
      × (calls (settle settled s t n).1 ≡ abort_of settled)
unfolding settle flatten_server_result
settle_forced (joined returned) s t n = (refl, refl)
settle_forced (joined (failed e)) s t n = (refl, refl)
settle_forced (joined (panicked e)) s t n = (refl, refl)
settle_forced (still_open k) s t n = (refl, refl)

forced_shutdown_forced :
    (settled : Settled) (s : State) (t : Trigger) (n : ℕ)
    → Forces s t
    → ((forced_shutdown settled s t n).0 ≡ forced_result settled t)
      × (calls (forced_shutdown settled s t n).1 ≡ shutdown ∷ abort_of settled)
forced_shutdown_forced settled s t n h =
    let (result, made) = forced_of_force settled s t n h in
    let (ends, aborts) = settle_forced settled (apply s t).state t (count_signal n t) in
    (result ∙ ends, made ∙ ap (λ cs. shutdown ∷ cs) aborts)

drain_forced :
    (settled : Settled) (s : State) (first : Trigger) (n : ℕ) (reads : Bool) (es : List DrainEvent)
    → s.phase ≡ draining
    → (reads ≡ true → (s.stdin_is_tty ≡ true) × (s.first_trigger ≡ some sigint))
    → All IsSecond es
    → let run = drain settled s first n (drain_select reads es) in
      (run.0 ≡ forced_result settled (forced_by reads es))
      × (calls run.1 ≡ shutdown ∷ abort_of settled)
unfolding drain drain_select receive_trigger
drain_forced settled s first n reads [] d tty a =
    forced_shutdown_forced settled s timeout n (timeout-Forces s d)
drain_forced settled s first n reads (drained r ∷ es) d tty (a, _) = absurd a
drain_forced settled s first n reads (signalled none ∷ es) d tty (a, _) = absurd a
drain_forced settled s first n reads (signalled (some (err e)) ∷ es) d tty (a, _) = absurd a
drain_forced settled s first n reads (signalled (some (ok t)) ∷ es) d tty (a, _) =
    forced_shutdown_forced settled s t n (signal-Forces s t d a)
drain_forced settled s first n true (eof ∷ es) d tty a =
    forced_shutdown_forced settled s stdin_eof n (eof-Forces s d (tty refl).0 (tty refl).1)
drain_forced settled s first n false (eof ∷ es) d tty (_, a) =
    drain_forced settled s first n false es d tty a

hint_of_sigint :
    (tty : Bool) (t : Trigger) → (apply (new tty) t).show_force_hint ≡ (tty && by_sigint t)
unfolding apply
hint_of_sigint tty t = ground arith

reads_eof_only :
    (cfg : Config) (world : World) (t : Trigger)
    → reads_eof cfg world t ≡ true
    → (cfg.stdin_is_tty ≡ true) × (some t ≡ some sigint)
reads_eof_only cfg world t h = ground arith

hint_watched_lem :
    (cfg : Config) (world : World) (t : Trigger) → hint_watched cfg world t ≡ reads_eof cfg world t
hint_watched_lem cfg world t =
    ap (λ hint. (hint && cfg.watch_stdin_eof) && world.watcher_starts)
      (hint_of_sigint cfg.stdin_is_tty t)

-- Once a signal has come, a shutdown in which the server does not end by itself and the trigger
-- channel does not fail is forced, by the first of another signal, Ctrl-D and the deadline, where
-- Ctrl-D counts only after SIGINT on a terminal whose watcher runs: the server is shut down
-- gracefully and then at once, it is aborted exactly when it has not settled, and the run ends as
-- the server settles.
pub supervise-IsForced :
    (cfg : Config) (world : World) (t : Trigger)
    → world.first ≡ received (some (ok t))
    → is_signal t ≡ true
    → All IsSecond world.before_deadline
    → IsForced world.settled
        (forced_by (reads_eof cfg world t) world.before_deadline)
        (supervise_with_triggers cfg world)
unfolding supervise_with_triggers supervise_from receive_trigger
supervise-IsForced cfg world t f h a =
    let (_, d, tty, first, _) = began cfg.stdin_is_tty t h in
    let (result, made) = begin_of_signal cfg world t h in
    let (ends, called) =
      drain_forced world.settled (apply (new cfg.stdin_is_tty) t).state t (signals t)
        (reads_eof cfg world t) world.before_deadline d
        (λ e. let (on_tty, by) = reads_eof_only cfg world t e in (tty ∙ on_tty, first ∙ by)) a in
    let same = hint_watched_lem cfg world t in
    rw (f, supervise_from, result, made, same) (ends, ap (λ cs. graceful_shutdown ∷ cs) called)

-- A sequence of events without its ends of file.
abbrev pub without_eof : List DrainEvent → List DrainEvent
without_eof [] = []
without_eof (drained r ∷ es) = drained r ∷ without_eof es
without_eof (signalled t ∷ es) = signalled t ∷ without_eof es
without_eof (eof ∷ es) = without_eof es

drain_select_without :
    (watching : Bool) (es : List DrainEvent)
    → watching ≡ false
    → drain_select watching (without_eof es) ≡ drain_select watching es
unfolding drain_select
drain_select_without watching [] h = refl
drain_select_without watching (drained r ∷ es) h = refl
drain_select_without watching (signalled t ∷ es) h = refl
drain_select_without true (eof ∷ es) h = cc
drain_select_without false (eof ∷ es) h = drain_select_without false es h

-- The force hint is shown on a terminal after SIGINT only.
abbrev pub CannotForce : Config → FirstEvent → Type 0
CannotForce cfg e = (cfg.stdin_is_tty ≡ false) ⊎ (e ≢ received (some (ok sigint)))

no_hint :
    (tty : Bool) (t : Trigger)
    → (tty ≡ false) ⊎ (t ≢ sigint)
    → (apply (new tty) t).show_force_hint ≡ false
unfolding apply
no_hint tty t h = ground arith

begin_without :
    (cfg : Config) (world : World) (t : Trigger)
    → (cfg.stdin_is_tty ≡ false) ⊎ (t ≢ sigint)
    → begin cfg (record world { before_deadline = without_eof world.before_deadline }) t
      ≡ begin cfg world t
unfolding begin
begin_without cfg world t h =
    let watching = hint_watched cfg world t in
    let off : watching ≡ false = rw (no_hint cfg.stdin_is_tty t h) refl in
    ap (begin_with cfg world.settled t) (drain_select_without watching world.before_deadline off)

-- Ctrl-D changes nothing unless SIGINT came first on a terminal: the run is the run of the same
-- environment without its ends of file.
pub supervise-without_eof :
    (cfg : Config) (world : World)
    → CannotForce cfg world.first
    → supervise_with_triggers cfg
        (record world { before_deadline = without_eof world.before_deadline })
      ≡ supervise_with_triggers cfg world
unfolding supervise_with_triggers receive_trigger
supervise-without_eof cfg world h = go world.first h
  where
    go :
        (e : FirstEvent)
        → CannotForce cfg e
        → supervise_from cfg
            (record world { before_deadline = without_eof world.before_deadline })
            e
          ≡ supervise_from cfg world e
    go (server_done r) h = refl
    go (received none) h = refl
    go (received (some (err e))) h = refl
    go (received (some (ok t))) h =
        begin_without cfg world t
          (elim h [ inl p ↦ inl p | inr p ↦ inr (λ e. p (ap (λ u. received (some (ok u))) e)) ])
