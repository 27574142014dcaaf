-- ===== src/Authoring/Notes/Tests.antt =====
-- The forms of the ground truth at one scenario.
use meadow_ops.Base.{◌≡◌, refl, String, Option, none, some, [], ◌∷◌, trim}
use meadow_ops.Base.Json.{nil, cons, str, arr, obj, field, end, get, property}
use meadow_ops.Base.Lines.{split_lines}
use meadow_ops.Authoring.{
  Evidence, ScenarioGroundTruth, from_lines, error_detail, first_msg, after_prefix,
}
use meadow_ops.Authoring.Notes.{
  Inputs, update_of, merge, merged, type_query, press_save_notes, notes_refreshed, notes_form,
  notes_run,
}
use meadow_ops.Authoring.Notes.Resave.{IsResaved, update_of-inputs_of}
use meadow_ops.Authoring.Notes.Stale.{stale_narrative_posted}

abbrev evidence : Evidence
evidence = record {
  source_exception_flag_id = "f1";
  category = "late_shipment";
  product_id = some "p1";
  warehouse_id = none;
  purchase_order_id = none;
  shipment_id = some "s1";
  simulation_date = "2026-01-05";
  first_detected_simulation_date = "2026-01-02";
  measured_value = some "4.0";
  threshold_value = "2.0";
}

abbrev with_narrative : String → ScenarioGroundTruth
with_narrative narrative = record {
  known_cause = "carrier";
  evidence = evidence;
  supporting_signals = "late scans" ∷ [];
  distractors = [];
  expected_considerations = [];
  acceptable_conclusions = [];
  unacceptable_conclusions = [];
  uncertainty = "";
  narrative = some narrative;
  expected_query = none;
}

abbrev typed : Inputs
typed = record {
  known_cause = "carrier";
  supporting_signals = "  late scans \n\n missing label\n";
  distractors = "";
  expected_considerations = "weather\n";
  acceptable_conclusions = "change carrier";
  unacceptable_conclusions = " ";
  uncertainty = "some";
  narrative = " A story. ";
  expected_query = "";
}

from_lines_test : from_lines typed.supporting_signals ≡ "late scans" ∷ "missing label" ∷ []
unfolding from_lines split_lines trim
from_lines_test = refl

error_detail_test :
    error_detail (
      obj (
        field "detail"
          (arr (cons (obj (field "msg" (str "Value error, one SELECT only") end)) nil))
          end))
    ≡ "one SELECT only"
unfolding error_detail get property first_msg after_prefix
error_detail_test = refl

abbrev stripped : String → Option String
stripped t = some (trim t)

abbrev as_sent : String → Option String
as_sent t = some t

abbrev resaved : ScenarioGroundTruth
resaved =
    merged (trim typed.narrative) typed.expected_query (update_of typed) (with_narrative "Old.")

update_of-inputs_of_example : IsResaved stripped as_sent typed resaved
unfolding merge update_of
update_of-inputs_of_example =
    update_of-inputs_of stripped as_sent typed (with_narrative "Old.") resaved refl

stale_narrative_posted_example :
    let s =
      notes_run
        (notes_refreshed (with_narrative "New.") ∷ type_query "SELECT 1" ∷ press_save_notes ∷ [])
        (notes_form (with_narrative "Old.")) in
    (s.save.posted ≡ record { narrative = "Old."; expected_query = "SELECT 1" } ∷ [])
    × (s.shown ≡ with_narrative "New.")
stale_narrative_posted_example =
    stale_narrative_posted (with_narrative "Old.") (with_narrative "New.") "SELECT 1"
