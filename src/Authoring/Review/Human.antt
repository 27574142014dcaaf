-- ===== src/Authoring/Review/Human.antt =====
-- `HumanReviewSection` of human-review-section.tsx: it loads the review of a thread once, and records
-- one where there is none.
use meadow_ops.Base.{
  ℕ, suc, String, Bool, true, false, not, ◌&&◌, Option, none, some, List, [], ◌∷◌, if◌then◌else◌,
  nat_eq, truthy, trim,
}
use meadow_ops.Base.Json.{Json, obj}
use meadow_ops.Actions.{Toast, success, failure}
use meadow_ops.Base.Response.{Response, no_answer, response, is_ok, error_message, body_or_empty}
use meadow_ops.Authoring.Review.{
  DifficultyRecommendation, HumanReviewVerdict, agree, override, LoadState, loading, absent, loaded,
}

-- The form's inputs; the empty selections are `none`.
pub record ReviewInputs : Type 0 where
  pub reviewer_name : String
  pub verdict : Option HumanReviewVerdict
  pub notes : String
  pub overridden : Option DifficultyRecommendation

pub record HumanReviewCreate : Type 0 where
  pub reviewer_name : String
  pub verdict : HumanReviewVerdict
  pub tier_assessment_notes : String
  pub overridden_recommendation : Option DifficultyRecommendation

-- The state, whether the one load is on its way, the toasts, what was posted (the latest first), and
-- how many posts were accepted.
pub record HumanReviewSection : Type 0 where
  pub state : LoadState
  pub review : Option Json
  pub inputs : ReviewInputs
  pub submitting : Bool
  pub awaited : Bool
  pub toasts : List Toast
  pub posted : List HumanReviewCreate
  pub recorded : ℕ

-- `load` has no `catch`: after an exception the state is what it was.
unfoldable pub review_loaded : Response → HumanReviewSection → HumanReviewSection
review_loaded no_answer s = record s { awaited = false }
review_loaded (response status none) s =
    if not (nat_eq status 404) && is_ok status
    then record s { awaited = false }
    else record s { state = absent; awaited = false }
review_loaded (response status (some body)) s =
    if not (nat_eq status 404) && is_ok status
    then record s { review = some (obj body); state = loaded; awaited = false }
    else record s { state = absent; awaited = false }

-- `canSubmit` and the body, of which `overridden` is a part for an override alone.
abbrev review_of :
    String
    → Option HumanReviewVerdict
    → String
    → Option DifficultyRecommendation
    → Option HumanReviewCreate
review_of name none notes overridden = none
review_of name (some agree) notes overridden = some (record {
  reviewer_name = name;
  verdict = agree;
  tier_assessment_notes = notes;
  overridden_recommendation = none;
})
review_of name (some override) notes none = none
review_of name (some override) notes (some d) = some (record {
  reviewer_name = name;
  verdict = override;
  tier_assessment_notes = notes;
  overridden_recommendation = some d;
})

unfoldable pub review_body_of : ReviewInputs → Option HumanReviewCreate
unfolding trim
review_body_of i =
    if truthy (trim i.reviewer_name) && truthy (trim i.notes)
    then review_of (trim i.reviewer_name) i.verdict (trim i.notes) i.overridden
    else none

abbrev pub post_review : Option HumanReviewCreate → HumanReviewSection → HumanReviewSection
post_review none s = s
post_review (some body) s = record s { submitting = true; posted = body ∷ s.posted }

unfoldable pub handle_submit : HumanReviewSection → HumanReviewSection
handle_submit s = post_review (review_body_of s.inputs) s

unfoldable pub submit_answered : Response → HumanReviewSection → HumanReviewSection
unfolding error_message
submit_answered no_answer s = record s {
  toasts = failure "Could not reach the server" ∷ s.toasts;
  submitting = false;
}
submit_answered (response status json) s =
    let body = body_or_empty json in
    if not (is_ok status)
    then record s {
      toasts = failure (error_message body "Could not record the human review") ∷ s.toasts;
      submitting = false;
    }
    else record s {
      review = some body;
      state = loaded;
      toasts = success "Human review recorded" ∷ s.toasts;
      submitting = false;
      recorded = suc s.recorded;
    }

pub data Event : Type 0 where
  load_ends : Response → Event
  fill : ReviewInputs → Event
  submit : Event
  submit_ends : Response → Event

-- The form is rendered unless the review is loading or there is one.
unfoldable pub shows_form : LoadState → Option Json → Bool
shows_form loading r = false
shows_form loaded (some r) = false
shows_form _ _ = true

unfoldable pub step : Event → HumanReviewSection → HumanReviewSection
unfolding review_loaded handle_submit submit_answered shows_form
step (load_ends r) s = if s.awaited then review_loaded r s else s
step (fill i) s = if shows_form s.state s.review then record s { inputs = i } else s
step submit s = if shows_form s.state s.review && not s.submitting then handle_submit s else s
step (submit_ends r) s = if s.submitting then submit_answered r s else s

unfoldable pub run : List Event → HumanReviewSection → HumanReviewSection
run [] s = s
run (e ∷ es) s = run es (step e s)

unfoldable pub mounted_section : HumanReviewSection
mounted_section = record {
  state = loading;
  review = none;
  inputs = record { reviewer_name = ""; verdict = none; notes = ""; overridden = none };
  submitting = false;
  awaited = true;
  toasts = [];
  posted = [];
  recorded = 0;
}
