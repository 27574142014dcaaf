-- ===== src/Chat/Reflection/Tests.antt =====
-- A reflection that is submitted for one thread.
use meadow_ops.Base.{◌≡◌, refl, true, none, List, [], ◌∷◌, trim}
use meadow_ops.Base.Response.{response}
use meadow_ops.Chat.Reflection.{
  ReflectionForm, Event, what_happened, initial_thought, evidence_that_mattered, what_missed,
  what_changed_after_pushback, what_differently, skill_improved, answer_question, submit, answered,
  show_completed, set_field, can_submit, step, run, mounted_form, stays_mounted,
}
use meadow_ops.Chat.Reflection.Kept.{submitted_blocks_other}

abbrev events : List Event
events =
    answer_question what_happened "a"
    ∷ answer_question initial_thought "b"
    ∷ answer_question evidence_that_mattered "c"
    ∷ answer_question what_missed "d"
    ∷ answer_question what_changed_after_pushback "e"
    ∷ answer_question what_differently "f"
    ∷ answer_question skill_improved "g"
    ∷ submit
    ∷ []

abbrev submitting_now : ReflectionForm
submitting_now = run events (mounted_form "t1")

submitted_blocks_other_example :
    let s' =
      run (answered (response 409 none) ∷ show_completed "t2" ∷ submit ∷ []) submitting_now in
    (s'.submitted ≡ true) × (s'.posted ≡ submitting_now.posted)
unfolding run step set_field mounted_form can_submit trim stays_mounted
submitted_blocks_other_example =
    submitted_blocks_other submitting_now 409 none "t2" (submit ∷ []) refl refl refl
