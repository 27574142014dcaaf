-- ===== src/Chat/Reflection/Kept.antt =====
-- What a form that stays mounted keeps from one thread to the next.
use meadow_ops.Base.{ℕ, ◌≡◌, ◌∙◌, refl, String, true, Option, List, [], ◌∷◌, All, arith}
use meadow_ops.Base.Json.{Fields}
use meadow_ops.Base.Response.{response, no_answer}
use meadow_ops.Chat.Reflection.{
  ReflectionForm, ReflectionFields, Event, answered, show_completed, show_other, unmount,
  stays_mounted, is_submitted, step, run, mounted_form, can_submit, handle_submit, submit_answered,
  set_field,
}

-- Every reflection that was posted answers all questions.
abbrev pub AllAnswered : ReflectionForm → Type 0
AllAnswered s = All (λ (p : String × ReflectionFields). can_submit (p.1) ≡ true) s.posted

step-AllAnswered : (e : Event) (s : ReflectionForm) → AllAnswered s → AllAnswered (step e s)
unfolding step set_field handle_submit submit_answered unmount
step-AllAnswered (answered no_answer) s v = ground arith
step-AllAnswered (answered (response st b)) s v = ground arith
step-AllAnswered e s v = ground arith

run-AllAnswered : (es : List Event) (s : ReflectionForm) → AllAnswered s → AllAnswered (run es s)
unfolding run
run-AllAnswered [] s v = v
run-AllAnswered (e ∷ es) s v = run-AllAnswered es (step e s) (step-AllAnswered e s v)

-- A form that counts as submitted stays so and posts nothing while it is mounted.
abbrev IsDone : ReflectionForm → ReflectionForm → Type 0
IsDone s s' = (s'.submitted ≡ true) × (s'.posted ≡ s.posted)

step-IsDone :
    (e : Event) (es : List Event) (s : ReflectionForm)
    → stays_mounted (e ∷ es) ≡ true
    → s.submitted ≡ true
    → IsDone s (step e s) × (stays_mounted es ≡ true)
unfolding step submit_answered stays_mounted
step-IsDone (answered no_answer) es s stays h = ground arith
step-IsDone (answered (response st b)) es s stays h = ground arith
step-IsDone show_other es s stays h = cc
step-IsDone e es s stays h = ground arith

run-IsDone :
    (es : List Event) (s : ReflectionForm)
    → stays_mounted es ≡ true
    → s.submitted ≡ true
    → IsDone s (run es s)
unfolding run
run-IsDone [] s stays h = (h, refl)
run-IsDone (e ∷ es) s stays h =
    let ((kept, same), stays') = step-IsDone e es s stays h in
    let (kept', same') = run-IsDone es (step e s) stays' kept in (kept', same' ∙ same)

-- A reflection is on its way, and the backend answers that it took it or that there is one already
-- (409). Whichever completed thread is shown next: until a thread that is not completed, or none, is
-- shown, the form says that the reflection was submitted and posts nothing.
pub submitted_blocks_other :
    (s : ReflectionForm) (status : ℕ) (body : Option Fields) (thread_id : String) (es : List Event)
    → s.submitting ≡ true
    → is_submitted status ≡ true
    → stays_mounted es ≡ true
    → let s' = run (answered (response status body) ∷ show_completed thread_id ∷ es) s in
      (s'.submitted ≡ true) × (s'.posted ≡ s.posted)
unfolding run step submit_answered
submitted_blocks_other s status body thread_id es out taken stays =
    let done = run (answered (response status body) ∷ show_completed thread_id ∷ []) s in
    ground (arith, run-IsDone es done stays)

-- After any events, every reflection that was posted has an answer that is not blank to each of the
-- seven questions.
pub run-mounted_form-AllAnswered :
    (thread_id : String) (es : List Event) → AllAnswered (run es (mounted_form thread_id))
run-mounted_form-AllAnswered thread_id es =
    run-AllAnswered es (mounted_form thread_id) (unfold mounted_form in tt)
