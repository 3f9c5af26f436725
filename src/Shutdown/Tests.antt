-- ===== src/Shutdown/Tests.antt =====
-- Runs of the shutdown of src/server/shutdown.rs on concrete environments.
use act_api_server_rs.Prelude.{◌≡◌, refl, true, false, List, [], ◌∷◌, ok, err}
use act_api_server_rs.Text.{txt, parse_uint}
use act_api_server_rs.Shutdown.{
  positive_or_default, grace_ms_of, apply_draining, apply_running, apply_in, Trigger, apply,
  begin_graceful, finish, force, from_env, graceful_complete, is_signal, new, not_present, sigint,
  sigterm, stdin_eof, timeout,
}
use act_api_server_rs.Shutdown.Machine.{IsLife, actions, actions-IsLife}

machine : Unit {0}
unfolding apply apply_in apply_running apply_draining is_signal from_env grace_ms_of
    positive_or_default parse_uint txt
machine = tt

abbrev presses : List Trigger
presses = stdin_eof ∷ sigint ∷ stdin_eof ∷ sigterm ∷ []

machine_tests :
    (actions (new true) presses ≡ begin_graceful ∷ force ∷ [])
    × (actions (new false) presses ≡ begin_graceful ∷ force ∷ [])
    × (actions (new false) (sigint ∷ stdin_eof ∷ graceful_complete ∷ [])
        ≡ begin_graceful ∷ finish ∷ [])
    × (actions (new false) (stdin_eof ∷ timeout ∷ []) ≡ [])
unfolding machine
machine_tests = (refl, refl, refl, refl)

config_tests :
    ((from_env (ok (txt "250")) true).grace_period_ms ≡ 250)
    × ((from_env (ok (txt "+7")) true).grace_period_ms ≡ 7)
    × ((from_env (ok (txt "0")) true).grace_period_ms ≡ 10000)
    × ((from_env (ok (txt "ten")) true).grace_period_ms ≡ 10000)
    × ((from_env (err not_present) true).grace_period_ms ≡ 10000)
unfolding machine
config_tests = (refl, refl, refl, refl, refl)

actions-IsLife_example : IsLife (actions (new true) presses)
actions-IsLife_example = actions-IsLife true presses
