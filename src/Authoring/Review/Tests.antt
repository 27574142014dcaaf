-- ===== src/Authoring/Review/Tests.antt =====
-- A review that is recorded, one whose load fails, and an export that is opened twice.
use meadow_ops.Base.{◌≡◌, ◌≤◌, refl, true, false, none, some, List, [], ◌∷◌, trim}
use meadow_ops.Base.Json.{end}
use meadow_ops.Base.Response.{no_answer, response}
use meadow_ops.Authoring.Review.{
  override, hold, loading, open_changes, export_arrives, export_run, closed_dialog,
}
use meadow_ops.Authoring.Review.Human.{
  ReviewInputs, Event, load_ends, fill, submit, submit_ends, step, run, mounted_section,
  review_body_of,
}
use meadow_ops.Authoring.Review.Once.{failed_load_hangs, fetches_at_most_once}

abbrev filled : ReviewInputs
filled = record {
  reviewer_name = " Ada ";
  verdict = some override;
  notes = "too easy";
  overridden = some hold;
}

abbrev events : List Event
events =
    load_ends (response 404 none)
    ∷ fill filled
    ∷ submit
    ∷ submit_ends (response 201 (some end))
    ∷ submit
    ∷ []

recorded_test : (run events mounted_section).recorded ≡ 1
unfolding run step mounted_section review_body_of trim
recorded_test = refl

failed_load_hangs_example :
    (run (load_ends no_answer ∷ fill filled ∷ submit ∷ []) mounted_section).state ≡ loading
failed_load_hangs_example = failed_load_hangs (fill filled ∷ submit ∷ [])

fetches_at_most_once_example :
    (export_run
      (open_changes true
        ∷ export_arrives (response 500 none)
        ∷ open_changes false
        ∷ open_changes true
        ∷ [])
      closed_dialog).fetches
    ≤ 1
fetches_at_most_once_example = fetches_at_most_once (
    open_changes true
    ∷ export_arrives (response 500 none)
    ∷ open_changes false
    ∷ open_changes true
    ∷ [])
