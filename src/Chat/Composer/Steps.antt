-- ===== src/Chat/Composer/Steps.antt =====
-- The events that a rendered ThreadView handles, under the conditions with which thread-view.tsx
-- renders or disables its controls, and the runs of them.
use meadow_ops.Base.{
  String, Bool, false, not, ◌||◌, ◌&&◌, Option, none, some, List, [], ◌∷◌, if◌then◌else◌, truthy,
  trim, is_some,
}
use meadow_ops.Draft.{WebStorage}
use meadow_ops.Chat.{ChatThread, is_completed}
use meadow_ops.Chat.Composer.{
  Sending, Composer, Outcome, UploadOutcome, set_thread, handle_draft_change, timer_fires,
  handle_send, send_answered, handle_file_selected, upload_answered, ask_delete, press_delete,
  delete_answered,
}

pub data Event : Type 0 where
  show : Option ChatThread → Event
  type_text : String → Event
  debounce_ends : Event
  press_send : Event
  send_result : Outcome → Event
  pick_file : Event
  upload_result : UploadOutcome → Event
  drop_attachment : Event
  open_dialog : Event
  close_dialog : Event
  confirm_delete : Event
  delete_result : Outcome → Event

module _ (w : WebStorage) where
  open w use {Store}

  -- The text area and the Send button are rendered for an open thread that is not completed.
  abbrev pub composing :
      Option ChatThread → (ChatThread → Composer Store) → Composer Store → Composer Store
  composing none act s = s
  composing (some t) act s = if is_completed t.status then s else act t

  abbrev pub send_disabled : Composer Store → Bool
  send_disabled s = s.sending || not (truthy (trim s.draft))

  abbrev pub attach_disabled : Composer Store → Bool
  attach_disabled s = s.uploading || is_some s.pending_attachment

  -- The first call of `onSend` on its way is answered.
  abbrev pub answer_send : Outcome → List Sending → Composer Store → Composer Store
  answer_send o [] s = s
  answer_send o (p ∷ rest) s = send_answered w p.thread_id o (record s { sends = rest })

  unfoldable pub step : Event → Composer Store → Composer Store
  unfolding set_thread handle_draft_change timer_fires handle_send send_answered
      handle_file_selected upload_answered ask_delete press_delete delete_answered
  step (show t) s = set_thread w t s
  step (type_text v) s = composing s.thread (λ t. handle_draft_change w t.id v s) s
  step debounce_ends s = timer_fires w s
  step press_send s =
      composing s.thread (λ t. if send_disabled s then s else handle_send w t.id s) s
  step (send_result o) s = answer_send o s.sends s
  step pick_file s =
      composing s.thread (λ t. if attach_disabled s then s else handle_file_selected w s) s
  step (upload_result u) s = if s.uploading then upload_answered w u s else s
  step drop_attachment s = composing s.thread (λ t. record s { pending_attachment = none }) s
  step open_dialog s = if is_some s.thread then ask_delete w s else s
  step close_dialog s = record s { confirming_delete = false }
  step confirm_delete s = if s.confirming_delete && not s.deleting then press_delete w s else s
  step (delete_result o) s = if s.deleting then delete_answered w o s else s

  unfoldable pub run : List Event → Composer Store → Composer Store
  run [] s = s
  run (e ∷ es) s = run es (step e s)

  -- `useState` and `useRef` at the first render.
  unfoldable pub initial : Store → Composer Store
  initial store = record {
    thread = none;
    draft = "";
    sending = false;
    error = false;
    confirming_delete = false;
    deleting = false;
    delete_failed = false;
    pending_attachment = none;
    uploading = false;
    attach_error = none;
    sync_timer = none;
    sync_abort = none;
    pending_sync = none;
    store = store;
    wire = [];
    next_controller = 0;
    sends = [];
  }
