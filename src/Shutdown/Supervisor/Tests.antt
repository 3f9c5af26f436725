-- ===== src/Shutdown/Supervisor/Tests.antt =====
-- Runs of `supervise_with_triggers`, src/server/shutdown.rs, in concrete environments.
use act_api_server_rs.Shutdown.Supervisor.{
  settle, forced_shutdown, drain, begin_with, supervise_from, World, abort, drain_select, eof,
  flatten_server_result, graceful_shutdown, joined, not_settled, receive_trigger, received,
  returned, shutdown, signalled, still_open, supervise_with_triggers,
}
use act_api_server_rs.Prelude.{◌≡◌, refl, inr, All, true, false, some, [], ◌∷◌, ok, err}
use act_api_server_rs.Shutdown.{
  apply_draining, apply_running, apply_in, Config, apply, is_signal, sigint, sigterm, stdin_eof,
}
use act_api_server_rs.Shutdown.Supervisor.Outcomes.Contract.{Explains, supervise-Explains}
use act_api_server_rs.Text.{txt}
use act_api_server_rs.Shutdown.Supervisor.{begin, signal_error}
use act_api_server_rs.Shutdown.Supervisor.Signals.{
  Surroundings, arrives, interrupt, recv, supervise, terminate_closed,
}
use act_api_server_rs.Shutdown.Supervisor.Signals.Ends.{Ends, supervise-Ends}
use act_api_server_rs.Shutdown.Supervisor.Outcomes.{calls}
use act_api_server_rs.Shutdown.Supervisor.Outcomes.Interactive.{
  IsForced, IsSecond, supervise-IsForced,
}

abbrev terminal : Config
terminal = record { grace_period_ms = 10000; stdin_is_tty = true; watch_stdin_eof = true }

-- SIGINT on a terminal, Ctrl-D, and a server that settles.
abbrev ctrl_d : World
ctrl_d = record {
  first = received (some (ok sigint));
  watcher_starts = true;
  before_deadline = eof ∷ [];
  settled = joined returned;
}

-- SIGTERM, and no event before the deadline.
abbrev silent : World
silent = record {
  first = received (some (ok sigterm));
  watcher_starts = true;
  before_deadline = [];
  settled = still_open 3;
}

supervisor : Unit {0}
unfolding apply apply_in apply_running apply_draining is_signal supervise_with_triggers
    supervise_from begin begin_with drain drain_select receive_trigger forced_shutdown settle
    flatten_server_result
supervisor = tt

supervisor_tests :
    ((supervise_with_triggers terminal ctrl_d).0
      ≡ ok (record { forced = true; trigger = stdin_eof }))
    × (calls (supervise_with_triggers terminal ctrl_d).1 ≡ graceful_shutdown ∷ shutdown ∷ [])
    × ((supervise_with_triggers terminal silent).0 ≡ err (not_settled 3))
    × (calls (supervise_with_triggers terminal silent).1
        ≡ graceful_shutdown ∷ shutdown ∷ abort ∷ [])
unfolding supervisor
supervisor_tests = (refl, refl, refl, refl)

supervise-Explains_example :
    Explains
      (supervise_with_triggers terminal ctrl_d).0
      (calls (supervise_with_triggers terminal ctrl_d).1)
supervise-Explains_example = supervise-Explains terminal ctrl_d

-- SIGTERM, a Ctrl-D that nobody reads, SIGINT, and a server that does not settle.
abbrev insisted : World
insisted = record silent { before_deadline = eof ∷ signalled (some (ok sigint)) ∷ [] }

insisted_signals : All IsSecond insisted.before_deadline
unfolding is_signal
insisted_signals = (tt, (refl, tt))

supervise-IsForced_example :
    IsForced (still_open 3) sigint (supervise_with_triggers terminal insisted)
unfolding is_signal
supervise-IsForced_example = supervise-IsForced terminal insisted sigterm refl refl insisted_signals

-- SIGINT, SIGINT again, and a server that settles.
abbrev twice : Surroundings
twice = record {
  installs = ok tt;
  first = inr interrupt;
  watcher_starts = false;
  before_deadline = arrives interrupt ∷ [];
  settled = joined returned;
}

-- The stream of SIGTERM ends while the server drains.
abbrev closed : Surroundings
closed = record twice { before_deadline = arrives terminate_closed ∷ arrives interrupt ∷ [] }

supervise_tests :
    ((supervise terminal twice).0 ≡ ok tt)
    × (calls (supervise terminal twice).1 ≡ graceful_shutdown ∷ shutdown ∷ [])
    × ((supervise terminal closed).0 ≡ err (signal_error (txt "SIGTERM stream closed")))
    × (calls (supervise terminal closed).1 ≡ graceful_shutdown ∷ [])
unfolding supervisor supervise recv
supervise_tests = (refl, refl, refl, refl)

supervise-Ends_example : Ends (supervise terminal twice).0 (calls (supervise terminal twice).1)
supervise-Ends_example = supervise-Ends terminal twice
