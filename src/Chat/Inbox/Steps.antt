-- ===== src/Chat/Inbox/Steps.antt =====
-- The events that reach the inbox, in any order, and the runs of them.
use meadow_ops.Base.{ℕ, String, Bool, Option, List, [], ◌∷◌}
use meadow_ops.Draft.{WebStorage}
use meadow_ops.Chat.{ChatThread, ChatMessage}
use meadow_ops.Chat.Inbox.{
  ChatSocketFrame, Inbox, fetched_or_empty, apply_threads, mark_read_fires, select_thread,
  history_arrived, read_answered, send_answered, delete_answered, handle_frame,
}

pub data Event : Type 0 where
  polled : Option (List ChatThread) → Event
  selected : String → Event
  history : String → Option (List ChatMessage) → Event
  read_done : String → Event
  send_done : Option ChatMessage → Event
  delete_done : String → ℕ → Bool → Event
  frame : ChatSocketFrame → Event
  read_timer : Event

module _ (w : WebStorage) where
  open w use {Store}

  unfoldable pub step : Event → Inbox Store → Inbox Store
  step (polled answer) s = apply_threads (fetched_or_empty answer) s
  step (selected id) s = select_thread id s
  step (history id answer) s = history_arrived id answer s
  step (read_done id) s = read_answered id s
  step (send_done answer) s = (send_answered answer s).0
  step (delete_done id status ok) s = (delete_answered w id status ok s).0
  step (frame f) s = handle_frame w f s
  step read_timer s = mark_read_fires s

  unfoldable pub run : List Event → Inbox Store → Inbox Store
  run [] s = s
  run (e ∷ es) s = run es (step e s)
