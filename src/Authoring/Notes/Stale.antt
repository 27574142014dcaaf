-- ===== src/Authoring/Notes/Stale.antt =====
-- The forms of the ground truth against a page that is refreshed under them.
use meadow_ops.Base.{◌≡◌, String, List, [], ◌∷◌, arith}
use meadow_ops.Actions.{accepted, refused}
use meadow_ops.Authoring.{ScenarioGroundTruth, send, answered, IsTold}
use meadow_ops.Authoring.Notes.{
  type_query, press_save_notes, notes_refreshed, notes_form, notes_step, notes_run, or_empty,
  EditEvent, EditForm, edit_step, edit_run, edit_form, handle_save, save_answered,
}

-- On a page whose narrative or expected query was regenerated after the notes form was rendered:
-- changing the query and saving posts the narrative of before the regeneration.
pub stale_narrative_posted :
    (g g' : ScenarioGroundTruth) (q : String)
    → let s =
        notes_run (notes_refreshed g' ∷ type_query q ∷ press_save_notes ∷ []) (notes_form g) in
      (s.save.posted ≡ record { narrative = or_empty g.narrative; expected_query = q } ∷ [])
      × (s.shown ≡ g')
unfolding notes_run notes_step notes_form send
stale_narrative_posted g g' q = ground arith

edit_step-IsTold : (e : EditEvent) (s : EditForm) → IsTold s.save → IsTold (edit_step e s).save
unfolding edit_step handle_save send answered
edit_step-IsTold (save_answered accepted) s v = ground arith
edit_step-IsTold (save_answered (refused body)) s v = ground arith
edit_step-IsTold e s v = ground arith

edit_run-IsTold : (es : List EditEvent) (s : EditForm) → IsTold s.save → IsTold (edit_run es s).save
unfolding edit_run
edit_run-IsTold [] s v = v
edit_run-IsTold (e ∷ es) s v = edit_run-IsTold es (edit_step e s) (edit_step-IsTold e s v)

-- After any events, each save of the ground truth has had its toast, but for one that is on its way
-- exactly while the button is disabled.
pub edit_run-edit_form-IsTold :
    (g : ScenarioGroundTruth) (es : List EditEvent) → IsTold (edit_run es (edit_form g)).save
edit_run-edit_form-IsTold g es = edit_run-IsTold es (edit_form g) (unfold edit_form in ground arith)
