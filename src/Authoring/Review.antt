-- ===== src/Authoring/Review.antt =====
-- What the page of a scenario shows below it for each thread (src/app/(dashboard)/scenarios/[id] of the
-- Builder's application): evaluation-panel.tsx, human-review-section.tsx and
-- portfolio-export-dialog.tsx, with thread-types.ts. Each loads once and then may post.
pub mod Human
pub mod Once
mod Tests
use meadow_ops.Base.{
  ℕ, suc, ◌+◌, String, Bool, true, false, not, ◌&&◌, ◌||◌, Option, none, some, List, [], ◌∷◌, ◌==◌,
  if◌then◌else◌, nat_eq, leb, ltb, truthy, trim, is_some,
}
use meadow_ops.Base.Json.{Json, Fields, str, obj, get}
use meadow_ops.Base.Response.{Response, no_answer, response, is_ok, error_message, body_or_empty}
use meadow_ops.Actions.{Toast, success, failure}

pub data DifficultyRecommendation : Type 0 where
  foundational standard stretch hold : DifficultyRecommendation

pub data HumanReviewVerdict : Type 0 where
  agree override : HumanReviewVerdict

pub data LoadState : Type 0 where
  loading absent loaded failed : LoadState

pub data ThreadStatus : Type 0 where
  opened completed : ThreadStatus

-- `EvaluationPanel`; `awaited` says that its one load is on its way.
pub record EvaluationPanel : Type 0 where
  pub state : LoadState
  pub evaluation : Option Json
  pub completing : Bool
  pub awaited : Bool
  pub toasts : List Toast
  -- How many times a completion was accepted.
  pub accepted : ℕ

unfoldable pub load_answered : Response → EvaluationPanel → EvaluationPanel
load_answered no_answer s = record s { state = failed; awaited = false }
load_answered (response status none) s = record s {
  state = if nat_eq status 404 then absent else failed;
  awaited = false;
}
load_answered (response status (some body)) s =
    if nat_eq status 404
    then record s { state = absent; awaited = false }
    else if not (is_ok status)
    then record s { state = failed; awaited = false }
    else record s { evaluation = some (obj body); state = loaded; awaited = false }

-- The button is rendered for an open thread that is known to have no evaluation.
unfoldable pub offers_completion : ThreadStatus → LoadState → Bool
offers_completion opened absent = true
offers_completion _ _ = false

unfoldable pub handle_complete : EvaluationPanel → EvaluationPanel
handle_complete s = record s { completing = true }

unfoldable pub complete_answered : Response → EvaluationPanel → EvaluationPanel
unfolding error_message
complete_answered no_answer s = record s {
  toasts = failure "Could not reach the server" ∷ s.toasts;
  completing = false;
}
complete_answered (response status json) s =
    let body = body_or_empty json in
    if nat_eq status 503
    then record s {
      toasts = failure "AI evaluation is not configured (no Claude client)." ∷ s.toasts;
      completing = false;
    }
    else if not (is_ok status)
    then record s {
      toasts = failure (error_message body "Could not complete this thread") ∷ s.toasts;
      completing = false;
    }
    else record s {
      evaluation = some body;
      state = loaded;
      toasts = success "Evaluation generated" ∷ s.toasts;
      completing = false;
      accepted = suc s.accepted;
    }

pub data PanelEvent : Type 0 where
  evaluation_loaded : Response → PanelEvent
  press_complete : PanelEvent
  completion_answered : Response → PanelEvent

unfoldable pub panel_step : ThreadStatus → PanelEvent → EvaluationPanel → EvaluationPanel
unfolding load_answered offers_completion handle_complete complete_answered
panel_step status (evaluation_loaded r) s = if s.awaited then load_answered r s else s
panel_step status press_complete s =
    if offers_completion status s.state && not s.completing then handle_complete s else s
panel_step status (completion_answered r) s = if s.completing then complete_answered r s else s

unfoldable pub panel_run : ThreadStatus → List PanelEvent → EvaluationPanel → EvaluationPanel
panel_run status [] s = s
panel_run status (e ∷ es) s = panel_run status es (panel_step status e s)

-- After the first effect.
unfoldable pub mounted_panel : EvaluationPanel
mounted_panel = record {
  state = loading;
  evaluation = none;
  completing = false;
  awaited = true;
  toasts = [];
  accepted = 0;
}

-- `PortfolioExportDialog`: it fetches when it is first opened.
pub data ExportState : Type 0 where
  idle fetching fetched not_ready export_failed : ExportState

pub record PortfolioDialog : Type 0 where
  pub open_dialog : Bool
  pub state : ExportState
  pub data_shown : Option Json
  pub fetches : ℕ

abbrev pub open_from : ExportState → Bool → PortfolioDialog → PortfolioDialog
open_from idle true s = record s { open_dialog = true; state = fetching; fetches = suc s.fetches }
open_from _ next s = record s { open_dialog = next }

unfoldable pub handle_open_change : Bool → PortfolioDialog → PortfolioDialog
handle_open_change next s = open_from s.state next s

unfoldable pub export_answered : Response → PortfolioDialog → PortfolioDialog
export_answered no_answer s = record s { state = export_failed }
export_answered (response status none) s = record s {
  state = if nat_eq status 409 then not_ready else export_failed;
}
export_answered (response status (some body)) s =
    if nat_eq status 409
    then record s { state = not_ready }
    else if not (is_ok status)
    then record s { state = export_failed }
    else record s { data_shown = some (obj body); state = fetched }

pub data ExportEvent : Type 0 where
  open_changes : Bool → ExportEvent
  export_arrives : Response → ExportEvent

abbrev pub is_fetching : ExportState → Bool
is_fetching fetching = true
is_fetching _ = false

unfoldable pub export_step : ExportEvent → PortfolioDialog → PortfolioDialog
unfolding handle_open_change export_answered
export_step (open_changes b) s = handle_open_change b s
export_step (export_arrives r) s = if is_fetching s.state then export_answered r s else s

unfoldable pub export_run : List ExportEvent → PortfolioDialog → PortfolioDialog
export_run [] s = s
export_run (e ∷ es) s = export_run es (export_step e s)

unfoldable pub closed_dialog : PortfolioDialog
closed_dialog = record { open_dialog = false; state = idle; data_shown = none; fetches = 0 }
