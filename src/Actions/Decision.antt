-- ===== src/Actions/Decision.antt =====
-- orbynadmin's decisions: src/components/{decision-actions,propose-decision-dialog}.tsx and
-- src/types/ledger.ts, with the backend's transitions (backend/app/domain/ledger.py and
-- backend/app/services/ledger.py).
pub mod Lifecycle
pub mod Dialogs
use meadow_ops.Base.{
  ℕ, String, Bool, true, false, not, ◌&&◌, ◌||◌, List, [], ◌∷◌, ◌++◌, if◌then◌else◌, map, filter,
}

pub data DecisionStatus : Type 0 where
  proposed clarification_requested accepted rejected : DecisionStatus
  implemented partially_implemented outcome_observed stale : DecisionStatus

pub data SimpleAction : Type 0 where
  request_clarification resubmit reject implement partially_implement : SimpleAction

-- All that a decision's row can offer: the buttons of `run`, and the two dialogs.
pub data Action : Type 0 where
  simple : SimpleAction → Action
  accept outcome : Action

unfoldable pub simple_action_label : SimpleAction → String
simple_action_label request_clarification = "Request Clarification"
simple_action_label resubmit = "Resubmit"
simple_action_label reject = "Reject"
simple_action_label implement = "Mark Implemented"
simple_action_label partially_implement = "Mark Partially Implemented"

-- `SIMPLE_ACTION_CONFIRM`
unfoldable pub needs_confirm : SimpleAction → Bool
needs_confirm reject = true
needs_confirm _ = false

unfoldable pub simple_actions_for : DecisionStatus → List SimpleAction
simple_actions_for clarification_requested = resubmit ∷ []
simple_actions_for accepted = implement ∷ partially_implement ∷ []
simple_actions_for _ = []

abbrev pub is_proposed : DecisionStatus → Bool
is_proposed proposed = true
is_proposed _ = false

-- `showOutcome`
abbrev pub show_outcome : DecisionStatus → Bool
show_outcome implemented = true
show_outcome partially_implemented = true
show_outcome _ = false

abbrev pub is_reject : SimpleAction → Bool
is_reject reject = true
is_reject _ = false

abbrev pub when {ℓ} : {A : Type ℓ} → Bool → A → List A
when true x = x ∷ []
when false x = []

-- The buttons that call `run`, in the order in which they are rendered.
unfoldable pub shown_simple : DecisionStatus → List SimpleAction
unfolding simple_actions_for
shown_simple s =
    when (is_proposed s) request_clarification
    ++ (when (is_proposed s) reject ++ filter (λ a. not (is_reject a)) (simple_actions_for s))

-- All of a row's actions, with the two dialogs.
unfoldable pub shown_actions : DecisionStatus → List Action
unfolding shown_simple
shown_actions s =
    map simple (shown_simple s) ++ (when (is_proposed s) accept ++ when (show_outcome s) outcome)

-- The status that the backend's service of an action moves a decision to.
unfoldable pub target : Action → DecisionStatus
target (simple request_clarification) = clarification_requested
target (simple resubmit) = proposed
target (simple reject) = rejected
target (simple implement) = implemented
target (simple partially_implement) = partially_implemented
target accept = accepted
target outcome = outcome_observed

-- `_ALLOWED_TRANSITIONS`
unfoldable pub allowed : DecisionStatus → DecisionStatus → Bool
allowed proposed clarification_requested = true
allowed proposed accepted = true
allowed proposed rejected = true
allowed proposed stale = true
allowed clarification_requested proposed = true
allowed clarification_requested accepted = true
allowed clarification_requested rejected = true
allowed clarification_requested stale = true
allowed stale accepted = true
allowed stale rejected = true
allowed accepted implemented = true
allowed accepted partially_implemented = true
allowed implemented outcome_observed = true
allowed partially_implemented outcome_observed = true
allowed _ _ = false
