-- ===== src/Actions/Form.antt =====
-- A dialog that posts a form: the shape that `AcceptDialog` and `OutcomeDialog` of orbynadmin's
-- src/components/decision-actions.tsx and `ProposeDecisionDialog` of propose-decision-dialog.tsx share.
-- They differ in the body that the inputs make, if they make one, in what a success leaves of the
-- inputs, and in the text of its toast.
use meadow_ops.Base.{
  ℕ, suc, ◌+◌, ◌≡◌, String, Bool, true, false, not, ◌&&◌, Option, none, some, List, [], ◌∷◌, length,
  if◌then◌else◌, All, arith, Option-cases, inl, inr,
}
use meadow_ops.Base.Json.{Json}
use meadow_ops.Actions.{Answer, accepted, refused, unreachable, Toast, success, failure}

-- The inputs and the flags of a dialog, its toasts, the refreshes of the page, and the bodies that
-- were posted, the latest first.
pub record Form (Input Body : Type 0) : Type 0 where
  pub open_dialog : Bool
  pub input : Input
  pub pending : Bool
  pub toasts : List Toast
  pub refreshes : ℕ
  pub posted : List Body

pub data Event (Input : Type 0) : Type 0 where
  toggle : Bool → Event Input
  fill : Input → Event Input
  submit : Event Input
  answered : Answer → Event Input

abbrev pub one_if : Bool → ℕ
one_if true = 1
one_if false = 0

-- A dialog tells what became of each post, and posts only bodies with a property.
pub record IsTold {Input Body : Type 0} (Complete : Body → Type 0) (s : Form Input Body)
    : Type 0 where
  pub told : length s.toasts + one_if s.pending ≡ length s.posted
  pub complete : All Complete s.posted

module _ {Input Body : Type 0} (body_of : Input → Option Body) (keep : Input → Input)
    (done_text : String) (error_text : Json → String) where
  -- The handler up to its wait.
  abbrev pub post : Option Body → Form Input Body → Form Input Body
  post none s = s
  post (some b) s = record s { pending = true; posted = b ∷ s.posted }

  unfoldable pub handle_submit : Form Input Body → Form Input Body
  handle_submit s = post (body_of s.input) s

  -- The handler after its wait.
  unfoldable pub submit_answered : Answer → Form Input Body → Form Input Body
  submit_answered accepted s = record s {
    toasts = success done_text ∷ s.toasts;
    open_dialog = false;
    input = keep s.input;
    refreshes = suc s.refreshes;
    pending = false;
  }
  submit_answered (refused body) s = record s {
    toasts = failure (error_text body) ∷ s.toasts;
    pending = false;
  }
  submit_answered unreachable s = record s {
    toasts = failure "Could not reach the server" ∷ s.toasts;
    pending = false;
  }

  -- The dialog's contents are rendered while it is open; its button is disabled while a post is on
  -- its way.
  unfoldable pub step : Event Input → Form Input Body → Form Input Body
  unfolding handle_submit submit_answered
  step (toggle b) s = record s { open_dialog = b }
  step (fill i) s = if s.open_dialog then record s { input = i } else s
  step submit s = if s.open_dialog && not s.pending then handle_submit s else s
  step (answered a) s = if s.pending then submit_answered a s else s

  module _ (Complete : Body → Type 0)
      (body_of-Complete : (i : Input) (b : Body) → body_of i ≡ some b → Complete b) where
    pub step-IsTold :
        (e : Event Input) (s : Form Input Body) → IsTold Complete s → IsTold Complete (step e s)
    unfolding step
    step-IsTold (toggle b) s v = ground arith
    step-IsTold (answered accepted) s v = ground arith
    step-IsTold (answered (refused body)) s v = ground arith
    step-IsTold submit s v = elim (Option-cases (body_of s.input)) [
      | inl incomplete ↦ ground arith
      | inr (b, made) ↦ let all = body_of-Complete s.input b made in ground arith
    ]
    step-IsTold e s v = ground arith

-- A dialog at the first render.
abbrev pub closed_form : {Input Body : Type 0} → Input → Form Input Body
closed_form i = record {
  open_dialog = false;
  input = i;
  pending = false;
  toasts = [];
  refreshes = 0;
  posted = [];
}
