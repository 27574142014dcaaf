-- ===== src/Authoring/Notes.antt =====
-- The forms of the Builder's application that edit a scenario's ground truth (src/app/(dashboard)/
-- scenarios/[id]/components): ground-truth-edit-form.tsx for a draft, builder-notes-form.tsx after it.
-- Both copy the ground truth into their inputs at the first render, and only then.
pub mod Resave
pub mod Stale
mod Tests
use meadow_ops.Base.{String, Bool, true, false, Option, none, some, List, [], ◌∷◌, if◌then◌else◌}
use meadow_ops.Base.Json.{Json}
use meadow_ops.Actions.{Answer}
use meadow_ops.Authoring.{
  ScenarioGroundTruth, to_lines, from_lines, error_detail, Poster, fresh, send, answered,
}

-- The inputs of `GroundTruthEditForm`.
pub record Inputs : Type 0 where
  pub known_cause : String
  pub supporting_signals : String
  pub distractors : String
  pub expected_considerations : String
  pub acceptable_conclusions : String
  pub unacceptable_conclusions : String
  pub uncertainty : String
  pub narrative : String
  pub expected_query : String

-- The body of its PATCH.
pub record GroundTruthUpdate : Type 0 where
  pub known_cause : String
  pub supporting_signals : List String
  pub distractors : List String
  pub expected_considerations : List String
  pub acceptable_conclusions : List String
  pub unacceptable_conclusions : List String
  pub uncertainty : String
  pub narrative : String
  pub expected_query : String

-- `value ?? ""`
abbrev pub or_empty : Option String → String
or_empty none = ""
or_empty (some s) = s

unfoldable pub inputs_of : ScenarioGroundTruth → Inputs
unfolding to_lines
inputs_of g = record {
  known_cause = g.known_cause;
  supporting_signals = to_lines g.supporting_signals;
  distractors = to_lines g.distractors;
  expected_considerations = to_lines g.expected_considerations;
  acceptable_conclusions = to_lines g.acceptable_conclusions;
  unacceptable_conclusions = to_lines g.unacceptable_conclusions;
  uncertainty = g.uncertainty;
  narrative = or_empty g.narrative;
  expected_query = or_empty g.expected_query;
}

unfoldable pub update_of : Inputs → GroundTruthUpdate
unfolding from_lines
update_of i = record {
  known_cause = i.known_cause;
  supporting_signals = from_lines i.supporting_signals;
  distractors = from_lines i.distractors;
  expected_considerations = from_lines i.expected_considerations;
  acceptable_conclusions = from_lines i.acceptable_conclusions;
  unacceptable_conclusions = from_lines i.unacceptable_conclusions;
  uncertainty = i.uncertainty;
  narrative = i.narrative;
  expected_query = i.expected_query;
}

-- `{**scenario.ground_truth, **updates}` with the narrative `n` and the query `q`.
abbrev pub merged : String → String → GroundTruthUpdate → ScenarioGroundTruth → ScenarioGroundTruth
merged n q u g = record g {
  known_cause = u.known_cause;
  supporting_signals = u.supporting_signals;
  distractors = u.distractors;
  expected_considerations = u.expected_considerations;
  acceptable_conclusions = u.acceptable_conclusions;
  unacceptable_conclusions = u.unacceptable_conclusions;
  uncertainty = u.uncertainty;
  narrative = some n;
  expected_query = some q;
}

-- What the backend does with a PATCH: its schema normalises the narrative and the query, or refuses
-- one (`none`), and the service merges.
module _ (normalize_narrative normalize_expected_query : String → Option String) where
  abbrev pub merge_with :
      Option String
      → Option String
      → GroundTruthUpdate
      → ScenarioGroundTruth
      → Option ScenarioGroundTruth
  merge_with (some n) (some q) u g = some (merged n q u g)
  merge_with _ _ u g = none

  unfoldable pub merge : GroundTruthUpdate → ScenarioGroundTruth → Option ScenarioGroundTruth
  merge u g =
      merge_with (normalize_narrative u.narrative) (normalize_expected_query u.expected_query) u g

-- The form for a draft, with the ground truth that the page shows beside it.
pub record EditForm : Type 0 where
  pub shown : ScenarioGroundTruth
  pub inputs : Inputs
  pub save : Poster GroundTruthUpdate

pub data EditEvent : Type 0 where
  edit_inputs : Inputs → EditEvent
  press_save : EditEvent
  save_answered : Answer → EditEvent
  page_refreshed : ScenarioGroundTruth → EditEvent

unfoldable pub edit_form : ScenarioGroundTruth → EditForm
unfolding inputs_of
edit_form g = record { shown = g; inputs = inputs_of g; save = fresh }

unfoldable pub handle_save : EditForm → EditForm
unfolding update_of send
handle_save s = record s { save = send (update_of s.inputs) s.save }

-- A refresh of the page gives the form a new `groundTruth`, which its inputs do not take over.
unfoldable pub edit_step : EditEvent → EditForm → EditForm
unfolding handle_save answered error_detail
edit_step (edit_inputs i) s = record s { inputs = i }
edit_step press_save s = if s.save.busy then s else handle_save s
edit_step (save_answered a) s =
    if s.save.busy
    then record s { save = answered "Ground truth saved" error_detail a s.save }
    else s
edit_step (page_refreshed g) s = record s { shown = g }

unfoldable pub edit_run : List EditEvent → EditForm → EditForm
edit_run [] s = s
edit_run (e ∷ es) s = edit_run es (edit_step e s)

-- `BuilderNotesForm`: two inputs, and only those two keys in the body.
pub record Notes : Type 0 where
  pub narrative : String
  pub expected_query : String

pub record NotesForm : Type 0 where
  pub shown : ScenarioGroundTruth
  pub notes : Notes
  pub save : Poster Notes

pub data NotesEvent : Type 0 where
  type_narrative : String → NotesEvent
  type_query : String → NotesEvent
  press_save_notes : NotesEvent
  notes_answered : Answer → NotesEvent
  notes_refreshed : ScenarioGroundTruth → NotesEvent

unfoldable pub notes_form : ScenarioGroundTruth → NotesForm
notes_form g = record {
  shown = g;
  notes = record { narrative = or_empty g.narrative; expected_query = or_empty g.expected_query };
  save = fresh;
}

unfoldable pub handle_save_notes : NotesForm → NotesForm
unfolding send
handle_save_notes s = record s { save = send s.notes s.save }

unfoldable pub notes_step : NotesEvent → NotesForm → NotesForm
unfolding handle_save_notes answered error_detail
notes_step (type_narrative v) s = record s {
  notes = record { narrative = v; expected_query = s.notes.expected_query };
}
notes_step (type_query v) s = record s {
  notes = record { narrative = s.notes.narrative; expected_query = v };
}
notes_step press_save_notes s = if s.save.busy then s else handle_save_notes s
notes_step (notes_answered a) s =
    if s.save.busy then record s { save = answered "Notes saved" error_detail a s.save } else s
notes_step (notes_refreshed g) s = record s { shown = g }

unfoldable pub notes_run : List NotesEvent → NotesForm → NotesForm
notes_run [] s = s
notes_run (e ∷ es) s = notes_run es (notes_step e s)
