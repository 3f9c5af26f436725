-- ===== src/Shutdown/Supervisor/Signals/Ends.antt =====
-- How `supervise` of src/server/shutdown.rs can end, in every surroundings.
use act_api_server_rs.Prelude.{
  ◌≡◌, refl, ◌⊎◌, inl, inr, Bool, true, false, some, List, [], ◌∷◌, All, Result, ok, err,
  Result-cases,
}
use act_api_server_rs.Shutdown.{Config, is_signal}
use act_api_server_rs.Shutdown.Supervisor.{
  Ended, Failure, invalid_first_trigger, invalid_transition, not_settled, signal_error,
  server_error, join_error, Outcome, Effect, graceful_shutdown, shutdown, abort,
  supervise_with_triggers,
}
use act_api_server_rs.Shutdown.Supervisor.Outcomes.{
  calls, IsSignal, IsSignalFirst, IsSignalDrain, IsInvalid,
}
use act_api_server_rs.Shutdown.Supervisor.Outcomes.Contract.{
  Explains, supervise-Explains, supervise_valid,
}
use act_api_server_rs.Shutdown.Supervisor.Signals.{
  Arrival, interrupt, terminate, interrupt_closed, terminate_closed, recv, Incident, server_ended,
  arrives, ctrl_d, Surroundings, drain_events, first_event, world_of, forget, supervise,
}

-- The calls of an orderly end: none, a graceful shutdown, or one that is then forced.
abbrev IsOrderly : List Effect → Type 0
IsOrderly cs = (cs ≡ []) ⊎ (cs ≡ graceful_shutdown ∷ []) ⊎ (cs ≡ graceful_shutdown ∷ shutdown ∷ [])

-- The result and the calls of a run of `supervise`.
abbrev pub Ends : Result (Unit {0}) Failure → List Effect → Type 0
Ends (ok _) cs = IsOrderly cs
Ends (err (invalid_first_trigger t)) cs = ⊥
Ends (err (invalid_transition p t)) cs = ⊥
Ends (err (not_settled n)) cs = cs ≡ graceful_shutdown ∷ shutdown ∷ abort ∷ []
Ends (err (server_error e)) cs = IsOrderly cs
Ends (err (join_error e)) cs = IsOrderly cs
Ends (err (signal_error e)) cs = IsOrderly cs

recv-IsSignal : (a : Arrival) → IsSignal (some (recv a))
unfolding recv is_signal
recv-IsSignal interrupt = refl
recv-IsSignal terminate = refl
recv-IsSignal interrupt_closed = tt
recv-IsSignal terminate_closed = tt

first-IsSignal : (f : Ended ⊎ Arrival) → IsSignalFirst (first_event f)
unfolding first_event
first-IsSignal (inl r) = tt
first-IsSignal (inr a) = recv-IsSignal a

drain-IsSignal : (running : Bool) (es : List Incident) → All IsSignalDrain (drain_events running es)
unfolding drain_events recv is_signal
drain-IsSignal running [] = tt
drain-IsSignal running (server_ended r ∷ es) = (tt, drain-IsSignal running es)
drain-IsSignal running (ctrl_d ∷ es) = (tt, drain-IsSignal running es)
drain-IsSignal true (arrives interrupt ∷ es) = (refl, drain-IsSignal true es)
drain-IsSignal true (arrives terminate ∷ es) = (refl, drain-IsSignal true es)
drain-IsSignal true (arrives interrupt_closed ∷ es) = (tt, (tt, drain-IsSignal false es))
drain-IsSignal true (arrives terminate_closed ∷ es) = (tt, (tt, drain-IsSignal false es))
drain-IsSignal false (arrives a ∷ es) = drain-IsSignal false es

Ends-of_Explains :
    (r : Result Outcome Failure) (cs : List Effect)
    → Explains r cs
    → ¬ IsInvalid r
    → Ends (forget r) cs
Ends-of_Explains (ok o) cs (inl (_, e)) v = inr (inr e)
Ends-of_Explains (ok o) cs (inr (inl (_, e, _))) v = inr (inl e)
Ends-of_Explains (ok o) cs (inr (inr (_, e, _))) v = inl e
Ends-of_Explains (err (invalid_first_trigger t)) cs x v = v tt
Ends-of_Explains (err (invalid_transition p t)) cs x v = v tt
Ends-of_Explains (err (not_settled n)) cs x v = x
Ends-of_Explains (err (server_error e)) cs x v = x
Ends-of_Explains (err (join_error e)) cs x v = x
Ends-of_Explains (err (signal_error e)) cs x v = x

-- Whatever signals and other events come, `supervise` never fails with an invalid first trigger or an
-- invalid transition: it ends well or with an error of the server or of the signal streams after no
-- call, a graceful shutdown, or a graceful and then a forced one; and when the server has not
-- settled it is aborted, after both.
pub supervise-Ends :
    (cfg : Config) (s : Surroundings) → Ends (supervise cfg s).0 (calls (supervise cfg s).1)
unfolding supervise
supervise-Ends cfg s = elim (Result-cases s.installs) [
  | inl (u, e) ↦ rw e (
      Ends-of_Explains (supervise_with_triggers cfg (world_of s)).0 _
        (supervise-Explains cfg (world_of s))
        (supervise_valid cfg (world_of s) (
          unfold world_of in
          record {
            first_signals = first-IsSignal s.first;
            drain_signals = drain-IsSignal true s.before_deadline;
          })))
  | inr (x, e) ↦ rw e (inl refl)
]
