-- ===== src/Shutdown/Machine.antt =====
-- What every sequence of triggers does to the phase machine of src/server/shutdown.rs.
use act_api_server_rs.Prelude.{ap}
use act_api_server_rs.Prelude.{
  ◌≡◌, refl, ◌∙◌, ◌≢◌, ◌⊎◌, inl, inr, Bool, true, false, Option, none, some, List, [], ◌∷◌, arith,
  if◌then◌else◌,
}
use act_api_server_rs.Shutdown.{
  running, draining, forcing, complete, Trigger, is_signal, Action, ignore, begin_graceful, force,
  finish, State, new, apply,
}

-- The state after a sequence of triggers, and the actions that are not `ignore`.
abbrev pub feed : State → List Trigger → State
feed s [] = s
feed s (t ∷ ts) = feed (apply s t).state ts

abbrev keep : Action → List Action → List Action
keep ignore rest = rest
keep begin_graceful rest = begin_graceful ∷ rest
keep force rest = force ∷ rest
keep finish rest = finish ∷ rest

abbrev pub actions : State → List Trigger → List Action
actions s [] = []
actions s (t ∷ ts) = keep (apply s t).action (actions (apply s t).state ts)

-- The first trigger of a sequence that is a signal.
abbrev pub first_signal : List Trigger → Option Trigger
first_signal [] = none
first_signal (t ∷ ts) = if is_signal t then some t else first_signal ts

-- The lives of a server: it runs, it drains, and it ends once, by force or by completion.
pub data IsLife : List Action → Type 0 where
  runs : IsLife []
  drains : IsLife (begin_graceful ∷ [])
  forces : IsLife (begin_graceful ∷ force ∷ [])
  completes : IsLife (begin_graceful ∷ finish ∷ [])

abbrev IsOver : State → Type 0
IsOver s = (s.phase ≡ forcing) ⊎ (s.phase ≡ complete)

over_absorbs :
    (s : State) (t : Trigger) → IsOver s → ((apply s t).state ≡ s) × ((apply s t).action ≡ ignore)
unfolding apply
over_absorbs s t h = ground arith

actions_of_over : (s : State) (ts : List Trigger) → IsOver s → actions s ts ≡ []
actions_of_over s [] h = refl
actions_of_over s (t ∷ ts) h =
    let (same, ignored) = over_absorbs s t h in rw (ignored, same) (actions_of_over s ts h)

abbrev Ends : List Action → Type 0
Ends as' = (as' ≡ []) ⊎ (as' ≡ force ∷ []) ⊎ (as' ≡ finish ∷ [])

draining_step :
    (s : State) (t : Trigger)
    → s.phase ≡ draining
    → (((apply s t).state ≡ s) × ((apply s t).action ≡ ignore))
      ⊎ (IsOver (apply s t).state × (((apply s t).action ≡ force) ⊎ ((apply s t).action ≡ finish)))
unfolding apply
draining_step s t h = ground arith

actions_of_draining : (s : State) (ts : List Trigger) → s.phase ≡ draining → Ends (actions s ts)
actions_of_draining s [] h = inl refl
actions_of_draining s (t ∷ ts) h = elim (draining_step s t h) [
  | inl (same, ignored) ↦ rw (ignored, same) (actions_of_draining s ts h)
  | inr (over, inl f) ↦ rw (f, actions_of_over (apply s t).state ts over) (inr (inl refl))
  | inr (over, inr f) ↦ rw (f, actions_of_over (apply s t).state ts over) (inr (inr refl))
]

running_step :
    (s : State) (t : Trigger)
    → s.phase ≡ running
    → (((apply s t).state ≡ s) × ((apply s t).action ≡ ignore) × (is_signal t ≡ false))
      ⊎ (((apply s t).state.phase ≡ draining)
          × ((apply s t).action ≡ begin_graceful)
          × (is_signal t ≡ true)
          × ((apply s t).state.first_trigger ≡ some t))
unfolding apply is_signal
running_step s t h = ground arith

IsLife-of_draining : (as' : List Action) → Ends as' → IsLife (begin_graceful ∷ as')
IsLife-of_draining as' (inl e) = rw e drains
IsLife-of_draining as' (inr (inl e)) = rw e forces
IsLife-of_draining as' (inr (inr e)) = rw e completes

actions_of_running : (s : State) (ts : List Trigger) → s.phase ≡ running → IsLife (actions s ts)
actions_of_running s [] h = runs
actions_of_running s (t ∷ ts) h = elim (running_step s t h) [
  | inl (same, ignored, _) ↦ rw (ignored, same) (actions_of_running s ts h)
  | inr (drain, began, _, _) ↦
      rw began (IsLife-of_draining _ (actions_of_draining (apply s t).state ts drain))
]

-- Whatever the sequence of triggers, the machine of a new server begins the graceful shutdown at
-- most once, forces or completes at most once and only after that, and never does both.
pub actions-IsLife :
    (stdin_is_tty : Bool) (ts : List Trigger) → IsLife (actions (new stdin_is_tty) ts)
actions-IsLife stdin_is_tty ts = actions_of_running (new stdin_is_tty) ts refl

first_kept :
    (s : State) (t : Trigger)
    → s.phase ≢ running
    → ((apply s t).state.first_trigger ≡ s.first_trigger) × ((apply s t).state.phase ≢ running)
unfolding apply
first_kept s t h = ground arith

feed_first_kept :
    (s : State) (ts : List Trigger)
    → s.phase ≢ running
    → (feed s ts).first_trigger ≡ s.first_trigger
feed_first_kept s [] h = refl
feed_first_kept s (t ∷ ts) h =
    let (same, later) = first_kept s t h in feed_first_kept (apply s t).state ts later ∙ same

feed_first :
    (s : State) (ts : List Trigger)
    → s.phase ≡ running
    → s.first_trigger ≡ none
    → (feed s ts).first_trigger ≡ first_signal ts
feed_first s [] h n = n
feed_first s (t ∷ ts) h n = elim (running_step s t h) [
  | inl (same, _, plain) ↦ rw plain (ap (λ u. (feed u ts).first_trigger) same ∙ feed_first s ts h n)
  | inr (drain, _, signal, first) ↦
      rw signal (feed_first_kept (apply s t).state ts (λ e. cc) ∙ first)
]

-- `first_trigger` is the first signal of the sequence, whatever came before and after it.
pub feed-first_trigger :
    (stdin_is_tty : Bool) (ts : List Trigger)
    → (feed (new stdin_is_tty) ts).first_trigger ≡ first_signal ts
feed-first_trigger stdin_is_tty ts = feed_first (new stdin_is_tty) ts refl refl
