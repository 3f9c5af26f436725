-- ===== src/Shutdown/Supervisor/Signals.antt =====
-- src/server/shutdown.rs, `supervise`: the streams of the Unix signals and the task that passes them on
-- to `supervise_with_triggers`.
pub mod Ends
use act_api_server_rs.Prelude.{
  ◌⊎◌, inl, inr, Bool, true, false, none, some, List, [], ◌∷◌, Result, ok, err,
}
use act_api_server_rs.Text.{Text, txt}
use act_api_server_rs.Shutdown.{Trigger, sigint, sigterm, Config}
use act_api_server_rs.Shutdown.Supervisor.{
  Ended, Failure, signal_error, FirstEvent, server_done, received, DrainEvent, drained, signalled,
  eof, Settled, World, Outcome, Effect, supervise_with_triggers,
}

-- What one of the two signal streams yields: a signal, or its end.
pub data Arrival : Type 0 where
  interrupt terminate interrupt_closed terminate_closed : Arrival

-- `Signals::recv` on Unix.
unfoldable pub recv : Arrival → Result Trigger Text
recv interrupt = ok sigint
recv terminate = ok sigterm
recv interrupt_closed = err (txt "SIGINT stream closed")
recv terminate_closed = err (txt "SIGTERM stream closed")

-- What happens before the deadline, while the server drains.
pub data Incident : Type 0 where
  server_ended : Ended → Incident
  arrives : Arrival → Incident
  ctrl_d : Incident

-- The surroundings of one run of `supervise`: whether the signal handlers can be installed, what
-- comes first, and what a `World` has besides.
pub record Surroundings : Type 0 where
  pub installs : Result (Unit {0}) Text
  pub first : Ended ⊎ Arrival
  pub watcher_starts : Bool
  pub before_deadline : List Incident
  pub settled : Settled

-- The signal task, while it runs or once it has ended: it passes a trigger on and goes on, and passes
-- an error on and ends, which closes the channel.
drain_events : Bool → List Incident → List DrainEvent
drain_events running [] = []
drain_events running (server_ended r ∷ es) = drained r ∷ drain_events running es
drain_events running (ctrl_d ∷ es) = eof ∷ drain_events running es
drain_events true (arrives a ∷ es) = elim (recv a) [
  | ok t ↦ signalled (some (ok t)) ∷ drain_events true es
  | err e ↦ signalled (some (err e)) ∷ signalled none ∷ drain_events false es
]
drain_events false (arrives a ∷ es) = drain_events false es

first_event : Ended ⊎ Arrival → FirstEvent
first_event (inl r) = server_done r
first_event (inr a) = received (some (recv a))

world_of : Surroundings → World
unfolding drain_events first_event
world_of s = record {
  first = first_event s.first;
  watcher_starts = s.watcher_starts;
  before_deadline = drain_events true s.before_deadline;
  settled = s.settled;
}

-- `result.map(|_| ())`
abbrev forget : Result Outcome Failure → Result (Unit {0}) Failure
forget (ok o) = ok tt
forget (err e) = err e

-- `supervise`
unfoldable pub supervise : Config → Surroundings → Result (Unit {0}) Failure × List Effect
unfolding world_of
supervise cfg s = elim s.installs [
  | err e ↦ (err (signal_error e), [])
  | ok _ ↦ let run = supervise_with_triggers cfg (world_of s) in (forget run.0, run.1)
]
