-- ===== src/Shutdown.antt =====
-- src/server/shutdown.rs, the phase machine: `Phase`, `Trigger`, `Action`, `State::apply`, and
-- `Config::from_env`. The supervisor that drives it is in Shutdown/Supervisor.antt.
pub mod Supervisor
pub mod Machine
mod Tests
use act_api_server_rs.Prelude.{
  ℕ, Bool, true, false, ◌&&◌, Option, none, some, ltb, if◌then◌else◌, Result, ok, err,
}
use act_api_server_rs.Text.{Text, txt, parse_uint}

pub data Phase : Type 0 where
  running draining forcing complete : Phase

pub data Trigger : Type 0 where
  sigint sigterm stdin_eof timeout graceful_complete : Trigger

-- `Phase::as_str`
abbrev pub phase_as_str : Phase → Text
phase_as_str running = txt "running"
phase_as_str draining = txt "draining"
phase_as_str forcing = txt "forcing"
phase_as_str complete = txt "complete"

-- `Trigger::as_str`
abbrev pub trigger_as_str : Trigger → Text
trigger_as_str sigint = txt "sigint"
trigger_as_str sigterm = txt "sigterm"
trigger_as_str stdin_eof = txt "stdin_eof"
trigger_as_str timeout = txt "timeout"
trigger_as_str graceful_complete = txt "graceful_complete"

unfoldable pub is_signal : Trigger → Bool
is_signal sigint = true
is_signal sigterm = true
is_signal _ = false

pub data Action : Type 0 where
  ignore begin_graceful force finish : Action

pub record State : Type 0 where
  pub phase : Phase
  pub stdin_is_tty : Bool
  pub first_trigger : Option Trigger

pub record Transition : Type 0 where
  pub state : State
  pub action : Action
  pub show_force_hint : Bool

-- `State::new`
abbrev pub new : Bool → State
new stdin_is_tty = record { phase = running; stdin_is_tty = stdin_is_tty; first_trigger = none }

-- `Transition::ignored`
abbrev pub ignored : State → Transition
ignored state = record { state = state; action = ignore; show_force_hint = false }

-- The first signal starts the graceful shutdown.
apply_running : Trigger → State → Transition
apply_running sigint s = record {
  state = record s { phase = draining; first_trigger = some sigint };
  action = begin_graceful;
  show_force_hint = s.stdin_is_tty;
}
apply_running sigterm s = record {
  state = record s { phase = draining; first_trigger = some sigterm };
  action = begin_graceful;
  show_force_hint = false;
}
apply_running _ s = ignored s

abbrev enter_forcing : State → Transition
enter_forcing s = record {
  state = record s { phase = forcing };
  action = force;
  show_force_hint = false;
}

-- `matches!(self.first_trigger, Some(Trigger::Sigint))`
abbrev pub is_sigint : Option Trigger → Bool
is_sigint (some sigint) = true
is_sigint _ = false

apply_draining : Trigger → State → Transition
apply_draining graceful_complete s = record {
  state = record s { phase = complete };
  action = finish;
  show_force_hint = false;
}
apply_draining sigint s = enter_forcing s
apply_draining sigterm s = enter_forcing s
apply_draining timeout s = enter_forcing s
apply_draining stdin_eof s =
    if s.stdin_is_tty && is_sigint s.first_trigger then enter_forcing s else ignored s

apply_in : Phase → Trigger → State → Transition
unfolding apply_running apply_draining
apply_in running trigger s = apply_running trigger s
apply_in draining trigger s = apply_draining trigger s
apply_in forcing trigger s = ignored s
apply_in complete trigger s = ignored s

-- `State::apply`
unfoldable pub apply : State → Trigger → Transition
unfolding apply_in
apply s trigger = apply_in s.phase trigger s

abbrev pub default_shutdown_grace_ms : ℕ
default_shutdown_grace_ms = 10000

abbrev pub u64_max : ℕ
u64_max = 0xffffffffffffffff

-- `std::env::VarError`
pub data VarError : Type 0 where
  not_present not_unicode : VarError

pub record Config : Type 0 where
  pub grace_period_ms : ℕ
  pub stdin_is_tty : Bool
  pub watch_stdin_eof : Bool

positive_or_default : Option ℕ → ℕ
positive_or_default none = default_shutdown_grace_ms
positive_or_default (some value) = if ltb 0 value then value else default_shutdown_grace_ms

grace_ms_of : Result Text VarError → ℕ
unfolding positive_or_default
grace_ms_of (ok raw) = positive_or_default (parse_uint u64_max raw)
grace_ms_of (err _) = default_shutdown_grace_ms

-- `Config::from_env`, given what `flags::var("SHUTDOWN_GRACE_MS")` and `is_terminal` answer.
unfoldable pub from_env : Result Text VarError → Bool → Config
unfolding grace_ms_of
from_env grace is_terminal = record {
  grace_period_ms = grace_ms_of grace;
  stdin_is_tty = is_terminal;
  watch_stdin_eof = true;
}
