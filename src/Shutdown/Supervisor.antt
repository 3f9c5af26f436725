-- ===== src/Shutdown/Supervisor.antt =====
-- src/server/shutdown.rs, `supervise_with_triggers`: three waits over what the environment offers,
-- with the calls that the supervisor makes on the server's handle and the records that it logs.
pub mod Outcomes
pub mod Signals
mod Tests
use act_api_server_rs.Prelude.{
  ℕ, zero, suc, ◌+◌, Bool, true, false, ◌&&◌, Option, none, some, List, [], ◌∷◌, ◌++◌, ltb,
  if◌then◌else◌, Result, ok, err,
}
use act_api_server_rs.Text.{Text, txt}
use act_api_server_rs.Shutdown.{
  Phase, complete, Trigger, stdin_eof, timeout, graceful_complete, is_signal, begin_graceful, force,
  State, new, apply, Config, phase_as_str, trigger_as_str,
}

-- `Result<io::Result<()>, JoinError>`, the end of the server's task. Errors are their texts.
pub data Ended : Type 0 where
  returned : Ended
  failed : Text → Ended
  panicked : Text → Ended

-- The `anyhow::Error` of the supervisor, by its origin.
pub data Failure : Type 0 where
  server_error : Text → Failure
  join_error : Text → Failure
  signal_error : Text → Failure
  invalid_first_trigger : Trigger → Failure
  invalid_transition : Phase → Trigger → Failure
  not_settled : ℕ → Failure

-- `flatten_server_result`
unfoldable pub flatten_server_result : Ended → Result (Unit {0}) Failure
flatten_server_result returned = ok tt
flatten_server_result (failed e) = err (server_error e)
flatten_server_result (panicked e) = err (join_error e)

-- `receive_trigger`: a message of the trigger channel, `none` once the channel is closed.
unfoldable pub receive_trigger : Option (Result Trigger Text) → Result Trigger Failure
receive_trigger none = err (signal_error (txt "shutdown signal stream closed"))
receive_trigger (some (ok t)) = ok t
receive_trigger (some (err e)) = err (signal_error e)

-- The loop of `spawn_stdin_eof_watcher` over the results of `read`: whether it reports an end of
-- file. A read error ends it silently.
unfoldable pub watch_stdin : List (Result ℕ Text) → Bool
watch_stdin [] = false
watch_stdin (ok zero ∷ reads) = true
watch_stdin (ok (suc n) ∷ reads) = watch_stdin reads
watch_stdin (err e ∷ reads) = false

-- What the first `select!` takes.
pub data FirstEvent : Type 0 where
  server_done : Ended → FirstEvent
  received : Option (Result Trigger Text) → FirstEvent

-- What becomes ready before the deadline, while the server drains.
pub data DrainEvent : Type 0 where
  drained : Ended → DrainEvent
  signalled : Option (Result Trigger Text) → DrainEvent
  eof : DrainEvent

pub data Settled : Type 0 where
  joined : Ended → Settled
  still_open : ℕ → Settled

-- The environment of one run: the first event, whether the watcher's thread could be started, the
-- events before the deadline in the order in which they become ready, and what the server's task
-- has done `FORCE_SETTLE_TIMEOUT` after an immediate shutdown.
pub record World : Type 0 where
  pub first : FirstEvent
  pub watcher_starts : Bool
  pub before_deadline : List DrainEvent
  pub settled : Settled

pub data Event : Type 0 where
  shutdown_requested shutdown_force_available shutdown_complete shutdown_forced : Event

-- A structured log record, less the fields of the configuration, the clock and the connections.
pub record Report : Type 0 where
  pub event : Event
  pub phase : Text
  pub trigger : Text
  pub signal_count : ℕ
  pub forced : Bool

pub data Effect : Type 0 where
  graceful_shutdown shutdown abort : Effect
  log : Report → Effect
  -- `shutdown_force_timeout`, with the phase, the trigger and the open connections.
  log_force_timeout : Text → Text → ℕ → Effect

pub record Outcome : Type 0 where
  pub forced : Bool
  pub trigger : Trigger

abbrev pub Run : Type 0
Run = Result Outcome Failure × List Effect

-- Effects that come before the rest of a run.
abbrev after : List Effect → Run → Run
after before run = (run.0, before ++ run.1)

abbrev log_complete : Phase → Text → ℕ → Bool → Effect
log_complete phase trigger signal_count forced = log (record {
  event = shutdown_complete;
  phase = phase_as_str phase;
  trigger = trigger;
  signal_count = signal_count;
  forced = forced;
})

-- The second `select!`: the first ready branch; `receive_eof` never returns without a receiver, so
-- an end of file is then passed over. `none` is the deadline.
unfoldable pub drain_select : Bool → List DrainEvent → Option DrainEvent
drain_select watching [] = none
drain_select watching (drained r ∷ es) = some (drained r)
drain_select watching (signalled t ∷ es) = some (signalled t)
drain_select true (eof ∷ es) = some eof
drain_select false (eof ∷ es) = drain_select false es

-- `u32::from(trigger.is_signal())`
abbrev signals : Trigger → ℕ
signals t = if is_signal t then 1 else 0

-- `signal_count.saturating_add(1)` on a signal.
abbrev count_signal : ℕ → Trigger → ℕ
count_signal n t = if is_signal t then (if ltb n 0xffffffff then n + 1 else n) else n

settle : Settled → State → Trigger → ℕ → Run
settle (joined r) s trigger n = elim (flatten_server_result r) [
  | err e ↦ (err e, [])
  | ok _ ↦ (
    ok (record { forced = true; trigger = trigger }),
    log_complete complete (trigger_as_str trigger) n true ∷ [],
  )
]
settle (still_open remaining) s trigger n = (
  err (not_settled remaining),
  log_force_timeout (phase_as_str s.phase) (trigger_as_str trigger) remaining ∷ abort ∷ [],
)

-- From a trigger during the drain to the end.
forced_shutdown : Settled → State → Trigger → ℕ → Run
unfolding settle
forced_shutdown settled s trigger n =
    let n' = count_signal n trigger in
    let next = apply s trigger in
    elim next.action [
      | force ↦
          after
            (log (record {
              event = shutdown_forced;
              phase = phase_as_str next.state.phase;
              trigger = trigger_as_str trigger;
              signal_count = n';
              forced = true;
            })
              ∷ shutdown
              ∷ [])
            (settle settled next.state trigger n')
      | _ ↦ (err (invalid_transition s.phase trigger), [])
    ]

drain : Settled → State → Trigger → ℕ → Option DrainEvent → Run
unfolding forced_shutdown
drain settled s first n (some (drained r)) = elim (flatten_server_result r) [
  | err e ↦ (err e, [])
  | ok _ ↦ (
    ok (record { forced = false; trigger = first }),
    log_complete (apply s graceful_complete).state.phase (trigger_as_str first) n false ∷ [],
  )
]
drain settled s first n (some (signalled t)) = elim (receive_trigger t) [
  | err e ↦ (err e, [])
  | ok trigger ↦ forced_shutdown settled s trigger n
]
drain settled s first n (some eof) = forced_shutdown settled s stdin_eof n
drain settled s first n none = forced_shutdown settled s timeout n

abbrev request_effects : Bool → State → Trigger → ℕ → List Effect
request_effects hinted s first n =
    graceful_shutdown
    ∷ log (record {
      event = shutdown_requested;
      phase = phase_as_str s.phase;
      trigger = trigger_as_str first;
      signal_count = n;
      forced = false;
    })
    ∷ (if hinted
        then log (record {
          event = shutdown_force_available;
          phase = phase_as_str s.phase;
          trigger = trigger_as_str first;
          signal_count = n;
          forced = false;
        })
          ∷ []
        else [])

abbrev hinted : Config → Trigger → Bool
hinted cfg first = (apply (new cfg.stdin_is_tty) first).show_force_hint && cfg.watch_stdin_eof

-- From the first trigger on, given what the second `select!` takes.
begin_with : Config → Settled → Trigger → Option DrainEvent → Run
unfolding drain
begin_with cfg settled first event =
    let next = apply (new cfg.stdin_is_tty) first in
    let n = signals first in
    elim next.action [
      | begin_graceful ↦
          after (request_effects (hinted cfg first) next.state first n)
            (drain settled next.state first n event)
      | _ ↦ (err (invalid_first_trigger first), [])
    ]

begin : Config → World → Trigger → Run
unfolding begin_with
begin cfg world first =
    begin_with cfg world.settled first
      (drain_select (hinted cfg first && world.watcher_starts) world.before_deadline)

supervise_from : Config → World → FirstEvent → Run
unfolding begin
supervise_from cfg world (server_done r) = elim (flatten_server_result r) [
  | err e ↦ (err e, [])
  | ok _ ↦ (
    ok (record { forced = false; trigger = graceful_complete }),
    log_complete complete (txt "server_complete") 0 false ∷ [],
  )
]
supervise_from cfg world (received t) = elim (receive_trigger t) [
  | err e ↦ (err e, [])
  | ok first ↦ begin cfg world first
]

-- `supervise_with_triggers`
unfoldable pub supervise_with_triggers : Config → World → Run
unfolding supervise_from
supervise_with_triggers cfg world = supervise_from cfg world world.first
