-- ===== src/Actions/Panel.antt =====
-- The row of buttons of `DecisionActions` (orbynadmin, src/components/decision-actions.tsx) and of
-- `ScenarioActions` (the Builder's application, src/app/(dashboard)/scenarios/[id]/components/
-- scenario-actions.tsx): one component over a table of actions. `run` is cut at its wait.
use meadow_ops.Base.{
  ℕ, suc, ◌+◌, ◌-◌, ◌≡◌, refl, String, Bool, true, false, not, ◌&&◌, Option, none, some, List, [],
  ◌∷◌, length, get_elem?, if◌then◌else◌, is_some, All, arith, zero, Option-cases, inl, inr,
}
use meadow_ops.Base.Json.{Json}
use meadow_ops.Actions.{Answer, accepted, refused, unreachable, Toast, success, failure}

-- A table of actions, and what the backend's state machine allows: each button is allowed.
pub record ActionTable : Type 1 where
  pub Status : Type 0
  pub Action : Type 0
  pub shown : Status → List Action
  pub needs_confirm : Action → Bool
  pub success_text : Action → String
  pub error_text : Json → String
  pub allowed : Status → Action → Bool
  pub shown-allowed : (s : Status) → All (λ a. allowed s a ≡ true) (shown s)

-- The status that is shown, the action that is pending, the toasts, the refreshes of the page, the
-- posts that are not answered, and all posts with the status that was shown, the latest first.
pub record Panel (Status Action : Type 0) : Type 0 where
  pub status : Status
  pub pending : Option Action
  pub toasts : List Toast
  pub refreshes : ℕ
  pub on_way : ℕ
  pub posted : List (Status × Action)

abbrev pub one_if : Bool → ℕ
one_if true = 1
one_if false = 0

module _ (table : ActionTable) where
  open table use {Status, Action, shown, needs_confirm, success_text, error_text, allowed}

  pub data Event : Type 0 where
    press : ℕ → Bool → Event
    answered : Answer → Event
    reloaded : Status → Event

  -- `run(action)` up to its wait; `agreed` is the answer to `window.confirm`.
  unfoldable pub run_action : Action → Bool → Panel Status Action → Panel Status Action
  run_action a agreed s =
      if needs_confirm a && not agreed
      then s
      else record s { pending = some a; on_way = suc s.on_way; posted = (s.status, a) ∷ s.posted }

  abbrev pub done : Toast → ℕ → Panel Status Action → Panel Status Action
  done toast refreshes s = record s {
    toasts = toast ∷ s.toasts;
    refreshes = refreshes + s.refreshes;
    on_way = s.on_way - 1;
    pending = none;
  }

  abbrev pub text_of : Option Action → String
  text_of none = ""
  text_of (some a) = success_text a

  -- `run(action)` after its wait. The action is the pending one: the other buttons are disabled.
  unfoldable pub run_answered : Answer → Panel Status Action → Panel Status Action
  run_answered accepted s = done (success (text_of s.pending)) 1 s
  run_answered (refused body) s = done (failure (error_text body)) 0 s
  run_answered unreachable s = done (failure "Could not reach the server") 0 s

  -- The i-th button is pressed, if there is one.
  abbrev pub press_button : Option Action → Bool → Panel Status Action → Panel Status Action
  press_button none agreed s = s
  press_button (some a) agreed s = run_action a agreed s

  abbrev pub settle : ℕ → Answer → Panel Status Action → Panel Status Action
  settle zero a s = s
  settle (suc n) a s = run_answered a s

  -- Every button is disabled while an action is pending.
  unfoldable pub step : Event → Panel Status Action → Panel Status Action
  unfolding run_action run_answered
  step (press i agreed) s =
      if is_some s.pending then s else press_button (get_elem? (shown s.status) i) agreed s
  step (answered a) s = settle s.on_way a s
  step (reloaded status) s = record s { status = status }

  unfoldable pub run : List Event → Panel Status Action → Panel Status Action
  run [] s = s
  run (e ∷ es) s = run es (step e s)

  unfoldable pub initial : Status → Panel Status Action
  initial status = record {
    status = status;
    pending = none;
    toasts = [];
    refreshes = 0;
    on_way = 0;
    posted = [];
  }

  pub record IsSettled (s : Panel Status Action) : Type 0 where
    pub single : s.on_way ≡ one_if (is_some s.pending)
    pub told : length s.toasts + s.on_way ≡ length s.posted
    pub legal : All (λ p. allowed p.0 p.1 ≡ true) s.posted

  All-get_elem? :
      (s : Status) (xs : List Action) (i : ℕ) (a : Action)
      → All (λ a. allowed s a ≡ true) xs
      → get_elem? xs i ≡ some a
      → allowed s a ≡ true
  All-get_elem? s [] i a h e = ground arith
  All-get_elem? s (x ∷ xs) zero a (h, rest) e = ground arith
  All-get_elem? s (x ∷ xs) (suc i) a (h, rest) e = All-get_elem? s xs i a rest e

  press-IsSettled :
      (o : Option Action) (i : ℕ) (agreed : Bool) (s : Panel Status Action)
      → get_elem? (shown s.status) i ≡ o
      → s.pending ≡ none
      → IsSettled s
      → IsSettled (press_button o agreed s)
  unfolding run_action
  press-IsSettled none i agreed s e free v = v
  press-IsSettled (some a) i agreed s e free v =
      let ok = All-get_elem? s.status (shown s.status) i a (table.shown-allowed s.status) e in
      let legal = v.legal in ground arith

  step-IsSettled : (e : Event) (s : Panel Status Action) → IsSettled s → IsSettled (step e s)
  unfolding step
  step-IsSettled (press i agreed) s v = elim (Option-cases s.pending) [
    | inl free ↦ simp free (press-IsSettled (get_elem? (shown s.status) i) i agreed s refl free v)
    | inr (a, busy) ↦ simp busy v
  ]
  step-IsSettled (answered accepted) s v = ground arith
  step-IsSettled (answered (refused body)) s v = ground arith
  step-IsSettled (answered unreachable) s v = ground arith
  step-IsSettled (reloaded status) s v = ground arith

  run-IsSettled : (es : List Event) (s : Panel Status Action) → IsSettled s → IsSettled (run es s)
  unfolding run
  run-IsSettled [] s v = v
  run-IsSettled (e ∷ es) s v = run-IsSettled es (step e s) (step-IsSettled e s v)

  -- After any presses, answers and reloads, at most one post is on its way, exactly while an action is
  -- pending; every other post was told in one toast; and each post was of an action that the backend
  -- allows in the status that was shown.
  pub run-initial-IsSettled :
      (es : List Event) (status : Status) → IsSettled (run es (initial status))
  run-initial-IsSettled es status =
      run-IsSettled es (initial status)
        (unfold initial in record { single = refl; told = refl; legal = tt })
