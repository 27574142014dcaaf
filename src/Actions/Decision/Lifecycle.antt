-- ===== src/Actions/Decision/Lifecycle.antt =====
-- What the page offers on a decision, against what the backend allows.
use meadow_ops.Base.{◌≡◌, ◌≢◌, refl, String, Bool, true, false, not, ◌&&◌, any, All, arith}
use meadow_ops.Base.Json.{Json}
use meadow_ops.Actions.{extract_error_message}
use meadow_ops.Actions.Panel.{ActionTable}
use meadow_ops.Actions.Decision.{
  DecisionStatus, proposed, clarification_requested, accepted, rejected, implemented,
  partially_implemented, outcome_observed, stale, SimpleAction, request_clarification, resubmit,
  reject, implement, partially_implement, Action, simple, accept, outcome, needs_confirm,
  simple_action_label, shown_simple, shown_actions, target, allowed,
}

unfoldable pub same_action : Action → Action → Bool
same_action (simple request_clarification) (simple request_clarification) = true
same_action (simple resubmit) (simple resubmit) = true
same_action (simple reject) (simple reject) = true
same_action (simple implement) (simple implement) = true
same_action (simple partially_implement) (simple partially_implement) = true
same_action accept accept = true
same_action outcome outcome = true
same_action _ _ = false

unfoldable pub shows : DecisionStatus → Action → Bool
unfolding same_action shown_actions
shows s a = any (same_action a) (shown_actions s)

-- A decision whose verdict is due but that the page takes no verdict on.
abbrev pub is_waiting : DecisionStatus → Bool
is_waiting clarification_requested = true
is_waiting stale = true
is_waiting _ = false

abbrev pub is_verdict : Action → Bool
is_verdict accept = true
is_verdict (simple reject) = true
is_verdict _ = false

-- The page offers an action exactly where the backend allows its transition, but for the verdicts,
-- accept and reject, on a decision that is stale or whose clarification was requested: the backend
-- allows these and the page does not offer them.
pub shows-allowed :
    (s : DecisionStatus) (a : Action)
    → shows s a ≡ (allowed s (target a) && not (is_waiting s && is_verdict a))
unfolding shows allowed target
shows-allowed proposed a = ground arith
shows-allowed s a = ground arith

-- The statuses that presses of buttons lead to, one after another.
pub data Reaches : DecisionStatus → DecisionStatus → Type 0 where
  here : (s : DecisionStatus) → Reaches s s
  press :
      (s : DecisionStatus) (a : Action) (t : DecisionStatus)
      → shows s a ≡ true
      → Reaches (target a) t
      → Reaches s t

-- From a proposed decision the page's own actions lead to every status but stale.
pub proposed-Reaches : (t : DecisionStatus) → t ≢ stale → Reaches proposed t
unfolding shows target
proposed-Reaches proposed h = here proposed
proposed-Reaches clarification_requested h = press _ (simple request_clarification) _ refl (here _)
proposed-Reaches accepted h = press _ accept _ refl (here _)
proposed-Reaches rejected h = press _ (simple reject) _ refl (here _)
proposed-Reaches implemented h = press _ accept _ refl (press _ (simple implement) _ refl (here _))
proposed-Reaches partially_implemented h =
    press _ accept _ refl (press _ (simple partially_implement) _ refl (here _))
proposed-Reaches outcome_observed h =
    press _ accept _ refl (press _ (simple implement) _ refl (press _ outcome _ refl (here _)))
proposed-Reaches stale h = absurd (h refl)

-- A stale decision stays stale, whatever is pressed on the page.
pub stale_stuck : (t : DecisionStatus) → Reaches stale t → t ≡ stale
unfolding shows
stale_stuck _ (here s) = refl
stale_stuck _ (press s a t e r) = cc

pub shown-allowed_simple :
    (s : DecisionStatus) → All (λ a. allowed s (target (simple a)) ≡ true) (shown_simple s)
unfolding allowed target shown_simple
shown-allowed_simple proposed = ground arith
shown-allowed_simple s = ground arith

-- The table of the buttons that call `run`.
abbrev pub decision_table : (Json → String) → ActionTable
decision_table printed = record {
  Status = DecisionStatus;
  Action = SimpleAction;
  shown = shown_simple;
  needs_confirm = needs_confirm;
  success_text = simple_action_label;
  error_text = extract_error_message printed (λ s. s);
  allowed = λ s a. allowed s (target (simple a));
  shown-allowed = shown-allowed_simple;
}
