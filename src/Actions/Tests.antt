-- ===== src/Actions/Tests.antt =====
-- The laws of the actions at concrete decisions, scenarios and answers.
use meadow_ops.Base.{◌≡◌, String, true, false, not, ◌&&◌, some, List, [], ◌∷◌, any}
use meadow_ops.Base.Json.{Json, obj, end}
use meadow_ops.Actions.{accepted, refused}
use meadow_ops.Actions.Panel
use meadow_ops.Actions.Panel.{IsSettled, run-initial-IsSettled}
use meadow_ops.Actions.Decision.{proposed, stale, accept, target, allowed}
use meadow_ops.Actions.Decision.Lifecycle.{
  decision_table, shows, is_waiting, is_verdict, shows-allowed,
}
use meadow_ops.Actions.Decision.Dialogs
use meadow_ops.Actions.Form.{Event, toggle, submit, fill, answered, IsTold, closed_form}
use meadow_ops.Actions.Scenario.{draft, cancel, available_actions, backend_allows}
use meadow_ops.Actions.Scenario.Lifecycle.{same_action, offers-allowed}

abbrev printed : Json → String
printed v = "?"

abbrev presses : List (Panel.Event (decision_table printed))
presses =
    Panel.press 0 true
    ∷ Panel.answered (refused (obj end))
    ∷ Panel.press 1 false
    ∷ Panel.press 1 true
    ∷ []

run-initial-IsSettled_example :
    IsSettled
      (decision_table printed)
      (Panel.run (decision_table printed) presses (Panel.initial (decision_table printed) proposed))
run-initial-IsSettled_example = run-initial-IsSettled (decision_table printed) presses proposed

shows-allowed_example :
    shows stale accept
    ≡ (allowed stale (target accept) && not (is_waiting stale && is_verdict accept))
shows-allowed_example = shows-allowed stale accept

offers-allowed_example :
    any (same_action cancel) (available_actions draft) ≡ backend_allows draft cancel
offers-allowed_example = offers-allowed draft cancel

abbrev no_error : Json → String
no_error v = "Request failed"

abbrev filled : Dialogs.ProposeInput
filled = record {
  entity_type = some Dialogs.supplier;
  entity_id = "s1";
  title = " late ";
  summary = "two weeks";
}

abbrev typing : List (Event Dialogs.ProposeInput)
typing = toggle true ∷ submit ∷ fill filled ∷ submit ∷ answered accepted ∷ []

proposals-IsComplete_example :
    IsTold Dialogs.IsComplete
      (Dialogs.propose_run no_error typing (closed_form Dialogs.empty_input))
proposals-IsComplete_example = Dialogs.proposals-IsComplete no_error typing
