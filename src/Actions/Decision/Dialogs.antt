-- ===== src/Actions/Decision/Dialogs.antt =====
-- The dialogs of a decision: `AcceptDialog` and `OutcomeDialog` of orbynadmin's src/components/
-- decision-actions.tsx and `ProposeDecisionDialog` of src/components/propose-decision-dialog.tsx.
use meadow_ops.Base.{
  ◌≡◌, refl, String, true, false, ◌&&◌, Option, none, some, List, [], ◌∷◌, if◌then◌else◌, trim,
  truthy, arith, Bool-cases, inl, inr,
}
use mathlib.Core.Path.{subst}
use mathlib.Core.Option.{some-injective}
use meadow_ops.Base.Lines.{trim_idem}
use meadow_ops.Base.Json.{Json}
use meadow_ops.Actions.{accepted, refused, unreachable}
use meadow_ops.Actions.Form.{Form, Event, answered, step, IsTold, step-IsTold, closed_form}

-- `AcceptDialog`: any input can be posted, and a success keeps it.
pub data ApprovalAuthority : Type 0 where
  manager procurement_operations informational_only : ApprovalAuthority

abbrev pub accept_body_of : Option ApprovalAuthority → Option (Option ApprovalAuthority)
accept_body_of authority = some authority

-- `OutcomeDialog`: an outcome must be chosen; blank notes are posted as null.
pub data DecisionOutcome : Type 0 where
  succeeded partially_succeeded failed unintended_consequence insufficient_evidence :
      DecisionOutcome

pub record OutcomeInput : Type 0 where
  pub outcome : Option DecisionOutcome
  pub notes : String

pub record OutcomeBody : Type 0 where
  pub outcome : DecisionOutcome
  pub notes : Option String

abbrev pub notes_of : String → Option String
notes_of notes = if truthy (trim notes) then some (trim notes) else none

abbrev pub with_outcome : Option DecisionOutcome → String → Option OutcomeBody
with_outcome none notes = none
with_outcome (some o) notes = some (record { outcome = o; notes = notes_of notes })

unfoldable pub outcome_body_of : OutcomeInput → Option OutcomeBody
outcome_body_of i = with_outcome i.outcome i.notes

-- `ProposeDecisionDialog`: all four inputs are needed, and a success empties them.
pub data EntityType : Type 0 where
  supplier warehouse product customer carrier : EntityType

pub record ProposeInput : Type 0 where
  pub entity_type : Option EntityType
  pub entity_id : String
  pub title : String
  pub summary : String

pub record ProposeBody : Type 0 where
  pub entity_type : EntityType
  pub entity_id : String
  pub title : String
  pub summary : String

abbrev pub with_entity : Option EntityType → ProposeInput → Option ProposeBody
with_entity none i = none
with_entity (some e) i =
    if truthy (trim i.entity_id) && (truthy (trim i.title) && truthy (trim i.summary))
    then some (record {
      entity_type = e;
      entity_id = trim i.entity_id;
      title = trim i.title;
      summary = trim i.summary;
    })
    else none

unfoldable pub propose_body_of : ProposeInput → Option ProposeBody
propose_body_of i = with_entity i.entity_type i

abbrev pub empty_input : ProposeInput
empty_input = record { entity_type = none; entity_id = ""; title = ""; summary = "" }

-- A text that is not blank, with no white space at its ends.
abbrev pub IsFilled : String → Type 0
IsFilled t = (truthy (trim t) ≡ true) × (trim t ≡ t)

pub record IsComplete (b : ProposeBody) : Type 0 where
  pub entity_id : IsFilled b.entity_id
  pub title : IsFilled b.title
  pub summary : IsFilled b.summary

IsFilled-trim : (t : String) → truthy (trim t) ≡ true → IsFilled (trim t)
IsFilled-trim t h = (rw (trim_idem t) h, trim_idem t)

with_entity-IsComplete :
    (entity_type : Option EntityType) (i : ProposeInput) (b : ProposeBody)
    → with_entity entity_type i ≡ some b
    → IsComplete b
with_entity-IsComplete none i b e = cc
with_entity-IsComplete (some t) i b e =
    elim (Bool-cases
      (truthy (trim i.entity_id) && (truthy (trim i.title) && truthy (trim i.summary)))) [
        | inl all ↦
            let made : some (record {
              entity_type = t;
              entity_id = trim i.entity_id;
              title = trim i.title;
              summary = trim i.summary;
            })
                ≡ some b =
              rw all at e in
            subst IsComplete (some-injective _ _ made) (record {
              entity_id = IsFilled-trim i.entity_id (ground arith);
              title = IsFilled-trim i.title (ground arith);
              summary = IsFilled-trim i.summary (ground arith);
            })
        | inr missing ↦ let none_made : none ≡ some b = rw missing at e in cc
      ]

propose_body_of-IsComplete :
    (i : ProposeInput) (b : ProposeBody) → propose_body_of i ≡ some b → IsComplete b
unfolding propose_body_of
propose_body_of-IsComplete i b e = with_entity-IsComplete i.entity_type i b e

module _ (error_text : Json → String) where
  unfoldable pub accept_step :
      Event (Option ApprovalAuthority)
      → Form (Option ApprovalAuthority) (Option ApprovalAuthority)
      → Form (Option ApprovalAuthority) (Option ApprovalAuthority)
  accept_step e s = step accept_body_of (λ i. i) "Decision accepted" error_text e s

  unfoldable pub outcome_step :
      Event OutcomeInput → Form OutcomeInput OutcomeBody → Form OutcomeInput OutcomeBody
  outcome_step e s = step outcome_body_of (λ i. i) "Outcome recorded" error_text e s

  unfoldable pub propose_step :
      Event ProposeInput → Form ProposeInput ProposeBody → Form ProposeInput ProposeBody
  propose_step e s = step propose_body_of (λ i. empty_input) "Decision proposed" error_text e s

  unfoldable pub propose_run :
      List (Event ProposeInput) → Form ProposeInput ProposeBody → Form ProposeInput ProposeBody
  propose_run [] s = s
  propose_run (e ∷ es) s = propose_run es (propose_step e s)

  propose_run-IsTold :
      (es : List (Event ProposeInput)) (s : Form ProposeInput ProposeBody)
      → IsTold IsComplete s
      → IsTold IsComplete (propose_run es s)
  unfolding propose_run propose_step
  propose_run-IsTold [] s v = v
  propose_run-IsTold (e ∷ es) s v = propose_run-IsTold es (propose_step e s) (
      step-IsTold propose_body_of (λ i. empty_input) "Decision proposed" error_text IsComplete
        propose_body_of-IsComplete e s v)

  -- Whatever is typed, pressed and answered, a proposal is posted only with an entity's id, a title
  -- and a summary that are not blank and have no white space at their ends; of all posts but the one on its way, each has been told in one
  -- toast.
  pub proposals-IsComplete :
      (es : List (Event ProposeInput))
      → IsTold IsComplete (propose_run es (closed_form empty_input))
  proposals-IsComplete es =
      propose_run-IsTold es (closed_form empty_input) (record { told = refl; complete = tt })

  -- A refused or unreachable submission keeps the dialog open with all that was typed, and it can be
  -- submitted again; only a success closes and empties the dialog.
  pub propose_answered_lem :
      (s : Form ProposeInput ProposeBody) (body : Json)
      → s.pending ≡ true
      → ((propose_step (answered (refused body)) s).input ≡ s.input)
        × ((propose_step (answered (refused body)) s).open_dialog ≡ s.open_dialog)
        × ((propose_step (answered unreachable) s).input ≡ s.input)
        × ((propose_step (answered unreachable) s).pending ≡ false)
        × ((propose_step (answered accepted) s).input ≡ empty_input)
        × ((propose_step (answered accepted) s).open_dialog ≡ false)
  unfolding propose_step step
  propose_answered_lem s body busy = ground arith
