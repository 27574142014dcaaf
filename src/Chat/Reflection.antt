-- ===== src/Chat/Reflection.antt =====
-- reflection-form.tsx of orbynadmin (src/app/(app)/chat/components): what thread-view.tsx renders in
-- place of the composer for a completed thread. The form has no key, so it stays mounted when another
-- completed thread is shown; a thread that is not completed, or none, unmounts it.
pub mod Kept
mod Tests
use meadow_ops.Base.{
  ℕ, String, Bool, true, false, not, ◌&&◌, ◌||◌, Option, none, some, List, [], ◌∷◌, ◌==◌,
  if◌then◌else◌, nat_eq, all, map, truthy, trim,
}
use meadow_ops.Base.Json.{Json, Fields}
use meadow_ops.Base.Response.{Response, no_answer, response, is_ok, error_message, body_or_empty}

pub data Question : Type 0 where
  what_happened initial_thought evidence_that_mattered what_missed : Question
  what_changed_after_pushback what_differently skill_improved : Question

abbrev pub questions : List Question
questions =
    what_happened ∷ initial_thought ∷ evidence_that_mattered ∷ what_missed
    ∷ what_changed_after_pushback ∷ what_differently ∷ skill_improved ∷ []

abbrev pub same : Question → Question → Bool
same what_happened what_happened = true
same initial_thought initial_thought = true
same evidence_that_mattered evidence_that_mattered = true
same what_missed what_missed = true
same what_changed_after_pushback what_changed_after_pushback = true
same what_differently what_differently = true
same skill_improved skill_improved = true
same _ _ = false

-- The answer to each question.
abbrev pub ReflectionFields : Type 0
ReflectionFields = Question → String

abbrev pub empty_fields : ReflectionFields
empty_fields q = ""

-- Whether the form is rendered, its state, the thread of the latest render, and what was posted with
-- its thread, the latest first.
pub record ReflectionForm : Type 0 where
  pub is_mounted : Bool
  pub thread_id : String
  pub fields : ReflectionFields
  pub submitting : Bool
  pub submitted : Bool
  pub error : Option String
  pub posted : List (String × ReflectionFields)

unfoldable pub can_submit : ReflectionFields → Bool
unfolding trim
can_submit fields = all (λ q. truthy (trim (fields q))) questions

unfoldable pub set_field : Question → String → ReflectionForm → ReflectionForm
set_field q value s = record s { fields = λ r. if same r q then value else s.fields r }

unfoldable pub handle_submit : ReflectionForm → ReflectionForm
unfolding can_submit
handle_submit s =
    if not (can_submit s.fields)
    then s
    else record s { submitting = true; error = none; posted = (s.thread_id, s.fields) ∷ s.posted }

unfoldable pub submit_answered : Response → ReflectionForm → ReflectionForm
unfolding error_message
submit_answered no_answer s = record s {
  error = some "Could not reach the server";
  submitting = false;
}
submit_answered (response status body) s =
    if nat_eq status 409
    then record s { submitted = true; submitting = false }
    else if not (is_ok status)
    then record s {
      error = some (error_message (body_or_empty body) "Could not submit your reflection.");
      submitting = false;
    }
    else record s { submitted = true; submitting = false }

pub data Event : Type 0 where
  answer_question : Question → String → Event
  submit : Event
  answered : Response → Event
  show_completed : String → Event
  show_other : Event

-- Without a completed thread the form is not rendered: its state is lost, and an answer that arrives
-- then has no effect.
unfoldable pub unmount : ReflectionForm → ReflectionForm
unmount s = record s {
  is_mounted = false;
  fields = empty_fields;
  submitting = false;
  submitted = false;
  error = none;
}

-- The questions and the button are rendered until a reflection counts as submitted.
unfoldable pub step : Event → ReflectionForm → ReflectionForm
unfolding set_field handle_submit submit_answered can_submit unmount
step (answer_question q value) s =
    if not s.is_mounted || s.submitted then s else set_field q value s
step submit s = if not s.is_mounted || (s.submitted || s.submitting) then s else handle_submit s
step (answered r) s = if s.submitting then submit_answered r s else s
step (show_completed thread_id) s = record s { is_mounted = true; thread_id = thread_id }
step show_other s = unmount s

-- No event of a run unmounts the form.
unfoldable pub stays_mounted : List Event → Bool
stays_mounted [] = true
stays_mounted (show_other ∷ es) = false
stays_mounted (e ∷ es) = stays_mounted es

-- A response after which the form counts the reflection as submitted: 409 says that there is one.
abbrev pub is_submitted : ℕ → Bool
is_submitted status = is_ok status || nat_eq status 409

unfoldable pub run : List Event → ReflectionForm → ReflectionForm
run [] s = s
run (e ∷ es) s = run es (step e s)

unfoldable pub mounted_form : String → ReflectionForm
mounted_form thread_id = record {
  is_mounted = true;
  thread_id = thread_id;
  fields = empty_fields;
  submitting = false;
  submitted = false;
  error = none;
  posted = [];
}
