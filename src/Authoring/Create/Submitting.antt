-- ===== src/Authoring/Create/Submitting.antt =====
-- What the form of a new scenario posts.
use meadow_ops.Base.{
  ◌+◌, ◌≤◌, ◌≡◌, true, some, List, [], ◌∷◌, All, length, truthy, trim, Option-cases, arith, inl,
  inr,
}
use meadow_ops.Base.Lines.{trim_idem}
use meadow_ops.Base.Response.{no_answer, response}
use meadow_ops.Authoring.{one_if}
use meadow_ops.Authoring.Create.{
  Details, ScenarioCreate, CreateForm, create_body_of, handle_submit, submit_answered, Event,
  submit, answered, step, run, empty_form,
}

-- A body that can be posted: nothing is empty, and the title has no white space around it.
pub record IsFilled (b : ScenarioCreate) : Type 0 where
  pub flagged : truthy b.exception_flag_id ≡ true
  pub typed : truthy b.scenario_type ≡ true
  pub clustered : truthy b.competency_cluster ≡ true
  pub tiered : truthy b.difficulty_tier ≡ true
  pub titled : truthy b.title ≡ true
  pub trimmed : trim b.title ≡ b.title

create_body_of-IsFilled :
    (d : Details) (b : ScenarioCreate) → create_body_of d ≡ some b → IsFilled b
unfolding create_body_of
create_body_of-IsFilled d b e = ground (arith, trim_idem d.title)

-- Between any two events: only filled bodies were posted, and the form has gone to the page of a new
-- scenario at most once for each post that was answered.
pub record IsPosting (s : CreateForm) : Type 0 where
  pub filled : All IsFilled s.posted
  pub visits : length s.visited + one_if s.submitting ≤ length s.posted

step-IsPosting : (e : Event) (s : CreateForm) → IsPosting s → IsPosting (step e s)
unfolding step handle_submit submit_answered
step-IsPosting submit s v = elim (Option-cases (create_body_of s.details)) [
  | inl incomplete ↦ ground arith
  | inr (b, made) ↦ let all = create_body_of-IsFilled s.details b made in ground arith
]
step-IsPosting (answered no_answer) s v = ground arith
step-IsPosting (answered (response st json)) s v = ground arith
step-IsPosting e s v = ground arith

run-IsPosting : (es : List Event) (s : CreateForm) → IsPosting s → IsPosting (run es s)
unfolding run
run-IsPosting [] s v = v
run-IsPosting (e ∷ es) s v = run-IsPosting es (step e s) (step-IsPosting e s v)

-- After any events at the form of a new scenario: every body that was posted names an exception, a
-- type, a competency, a tier and a title that is trimmed and not empty; and the form has gone to the
-- page of a new scenario at most once for each post that was answered.
pub run-empty_form-IsPosting : (es : List Event) → IsPosting (run es empty_form)
run-empty_form-IsPosting es = run-IsPosting es empty_form (unfold empty_form in ground arith)
