-- ===== src/Chat/Composer/Drafts.antt =====
-- What becomes of the text that was typed: restoring, switching, sending and failing.
use meadow_ops.Base.{
  ◌≡◌, ap, ◌∙◌, String, Bool, Option, true, false, not, ◌||◌, none, some, List, [], ◌∷◌, ◌==◌,
  eq_iff, eq_refl, truthy, trim, Option-cases, arith, inl, inr,
}
use mathlib.Core.Option
use meadow_ops.Draft.{WebStorage, storage_key, load_draft_buffer, save_draft_buffer}
use meadow_ops.Draft.Laws.{load-save, load-clear}
use meadow_ops.Chat.{ChatThread, is_completed}
use meadow_ops.Chat.Composer.{
  Sync, Attachment, Sending, Composer, sent, refused, threw, fire_sync, cleanup, enter,
  handle_draft_change, handle_send, send_answered, attached, upload_answered,
}
use meadow_ops.Chat.Composer.Steps.{
  Event, initial, show, type_text, press_send, send_result, upload_result, step, run,
}
use meadow_ops.Chat.Composer.Wire.{live, live-abort, live_syncs, live_syncs-fire_sync}
use meadow_ops.Chat.Composer.Invariant.{IsConsistent, run-initial-IsConsistent}

-- The thread `t` is shown next and is `u`.
abbrev pub is_shown : ChatThread → Option ChatThread → Bool
is_shown u none = false
is_shown u (some t) = u.id == t.id

module _ (w : WebStorage) where
  open w use {Store, enabled, set_item}

  -- The composer with a sync due, when its thread is left.
  abbrev due_state : Sync → Composer Store → Composer Store
  due_state p s = record (handle_draft_change w p.thread_id p.body s) { sync_timer = none }

  leave-wire :
      (s : Composer Store) (u : ChatThread) (t : Option ChatThread) (v : String)
      → s.thread ≡ some u
      → is_completed u.status ≡ false
      → is_shown u t ≡ false
      → let p : Sync = record { thread_id = u.id; body = v } in
        (run w (type_text v ∷ show t ∷ []) s).wire ≡ (fire_sync w p (due_state p s)).wire
  unfolding run step enter cleanup handle_draft_change fire_sync
  leave-wire s u none v e open_u other = ground arith
  leave-wire s u (some t) v e open_u other = ground arith

  -- However the state came about: text that is typed on a thread `u` that is not completed is, as
  -- soon as another thread or none is shown, on its way to the server for `u`, and it is the one sync
  -- on its way that is not aborted.
  pub show-flushes :
      (store : Store) (es : List Event) (u : ChatThread) (t : Option ChatThread) (v : String)
      → (run w es (initial w store)).thread ≡ some u
      → is_completed u.status ≡ false
      → is_shown u t ≡ false
      → live_syncs (run w (type_text v ∷ show t ∷ []) (run w es (initial w store))).wire
        ≡ record { thread_id = u.id; body = v } ∷ []
  unfolding handle_draft_change
  show-flushes store es u t v e open_u other =
      let s = run w es (initial w store) in
      let p : Sync = record { thread_id = u.id; body = v } in
      let consistent = run-initial-IsConsistent w store es in
      ap live_syncs (leave-wire s u t v e open_u other)
      ∙ live_syncs-fire_sync w p (due_state p s) consistent.signalled

  -- On a thread `u` that is not completed, with a storage that is accessible and takes the text:
  -- typing in `u`, looking at another thread `t` and coming back shows the text that was typed,
  -- whatever the server's copy of the draft says.
  pub show-restores :
      (s : Composer Store) (u u' t : ChatThread) (v : String) (stored : Store)
      → s.thread ≡ some u
      → u'.id ≡ u.id
      → u.id == t.id ≡ false
      → is_completed u.status ≡ false
      → enabled s.store ≡ true
      → set_item s.store (storage_key u.id) v ≡ some stored
      → (run w (type_text v ∷ show (some t) ∷ show (some u') ∷ []) s).draft ≡ v
  unfolding run step enter cleanup fire_sync
  show-restores s u u' t v stored e same other open_u on kept = ground (
    arith,
    load-save w s.store stored u.id u.id v on kept,
    eq_refl u.id,
    eq_iff t.id u'.id,
    eq_iff u.id t.id,
  )

  -- In a composer with `IsConsistent` that shows an open thread, with no send on its way: pressing
  -- Send with text that is not blank puts one request with the trimmed text on its way, with the
  -- attachment, and leaves no sync due and none live; the text stays.
  pub press_send_lem :
      (s : Composer Store) (t : ChatThread)
      → IsConsistent s
      → s.thread ≡ some t
      → is_completed t.status ≡ false
      → s.sending ≡ false
      → truthy (trim s.draft) ≡ true
      → let s' = step w press_send s in
        (s'.sends
          ≡ record {
            thread_id = t.id;
            body = trim s.draft;
            attachment_id = Option.map (λ (a : Attachment). a.id) s.pending_attachment;
          }
            ∷ [])
        × (s'.sending ≡ true)
        × (s'.sync_timer ≡ none)
        × (s'.pending_sync ≡ none)
        × (live s'.wire ≡ 0)
        × (s'.draft ≡ s.draft)
  unfolding step handle_send
  press_send_lem s t v e open_t idle text =
      ground (arith, live-abort s.sync_abort s.wire v.signalled)

  -- Blank text, or a send on its way: pressing Send changes nothing.
  pub press_send_ignored :
      (s : Composer Store)
      → (s.sending || not (truthy (trim s.draft))) ≡ true
      → step w press_send s ≡ s
  unfolding step
  press_send_ignored s h = elim (Option-cases s.thread) [
    | inl gone ↦ ground arith
    | inr (t, shown) ↦ ground arith
  ]

  -- A send that is refused, or that throws, keeps the text, the buffer and the attachment, and
  -- allows another send. The error is shown for a refusal.
  pub failed_send_keeps :
      (s : Composer Store) (p : Sending) (ps : List Sending)
      → s.sends ≡ p ∷ ps
      → step w (send_result refused) s ≡ record s { sends = ps; error = true; sending = false }
        × (step w (send_result threw) s ≡ record s { sends = ps; sending = false })
  unfolding step send_answered
  failed_send_keeps s p ps e = ground arith

  -- On a thread that is not completed, with a send for it on its way: text that is typed then is
  -- lost when the send succeeds, for the composer is empty and the buffer of the thread is gone.
  pub typing_while_sending_lost :
      (s : Composer Store) (t : ChatThread) (p : Sending) (ps : List Sending) (v : String)
      → s.thread ≡ some t
      → is_completed t.status ≡ false
      → s.sends ≡ p ∷ ps
      → p.thread_id ≡ t.id
      → let s' = run w (type_text v ∷ send_result sent ∷ []) s in
        (s'.draft ≡ "") × (load_draft_buffer w s'.store t.id ≡ none)
  unfolding run step handle_draft_change send_answered
  typing_while_sending_lost s t p ps v e open_t out same =
      ground (arith, load-clear w (save_draft_buffer w s.store t.id v) t.id t.id, eq_refl t.id)

  -- A send for one thread that succeeds while another is shown empties the composer of that other
  -- thread and drops its attachment; the buffer of the other thread is kept.
  pub sent_after_switch_clears :
      (s : Composer Store) (t : ChatThread) (p : Sending) (ps : List Sending)
      → s.thread ≡ some t
      → s.sends ≡ p ∷ ps
      → p.thread_id == t.id ≡ false
      → let s' = step w (send_result sent) s in
        (s'.thread ≡ some t)
        × (s'.draft ≡ "")
        × (s'.pending_attachment ≡ none)
        × (load_draft_buffer w s'.store t.id ≡ load_draft_buffer w s.store t.id)
  unfolding step send_answered
  sent_after_switch_clears s t p ps e out other =
      ground (arith, load-clear w s.store p.thread_id t.id)

  -- An upload that is answered after the user has moved to another thread leaves its attachment
  -- pending on that other thread.
  pub upload_after_switch_attaches :
      (s : Composer Store) (u t : ChatThread) (a : Attachment)
      → s.thread ≡ some u
      → u.id == t.id ≡ false
      → s.uploading ≡ true
      → let s' = run w (show (some t) ∷ upload_result (attached a) ∷ []) s in
        (s'.thread ≡ some t) × (s'.pending_attachment ≡ some a)
  unfolding run step cleanup fire_sync enter upload_answered
  upload_after_switch_attaches s u t a e other up = ground arith
