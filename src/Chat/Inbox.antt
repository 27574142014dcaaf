-- ===== src/Chat/Inbox.antt =====
-- The inbox: chat-inbox.tsx of orbynadmin (src/app/(app)/chat/components), and the creation of a
-- thread in mail.tsx of the Builder's application. A callback that waits is a function for each part.
-- `selectedIdRef` is set after each render, so it holds the selected id whenever an event is handled.
pub mod Steps
pub mod Soundness
pub mod Races
mod Tests
use meadow_ops.Base.{
  ℕ, String, Bool, true, false, not, ◌&&◌, ◌||◌, Option, none, some, List, [], ◌∷◌, ◌++◌, map, ◌==◌,
  if◌then◌else◌, any, filter, find, names, nat_eq,
}
use meadow_ops.Draft.{WebStorage, clear_draft_buffer}
use meadow_ops.Chat.{ChatThread, ChatMessage, SenderRole}

pub record ChatMessageFrame : Type 0 where
  pub thread_id : String
  pub message_id : String
  pub sender_role : SenderRole
  pub body : String
  pub attachment_ref : Option String
  pub sent_at : String

pub data ChatSocketFrame : Type 0 where
  message : ChatMessageFrame → ChatSocketFrame
  thread_deleted : String → ChatSocketFrame

-- The state and the refs of `ChatInbox`, the storage, the threads whose `/read` was posted (the
-- latest first), and the number of calls of `fetchThreads`.
pub record Inbox (Store : Type 0) : Type 0 where
  pub threads : List ChatThread
  pub selected_id : Option String
  pub messages : List ChatMessage
  pub deleted_ids : List String
  pub mark_read_timer : Option String
  pub store : Store
  pub reads : List String
  pub refetches : ℕ

abbrev pub member : String → List String → Bool
member id ids = any (λ i. i == id) ids

-- `fetchThreads` and `fetchMessages`: an answer that is not ok is an empty list.
abbrev pub fetched_or_empty {ℓ} : {A : Type ℓ} → Option (List A) → List A
fetched_or_empty none = []
fetched_or_empty (some xs) = xs

abbrev pub read_if : Bool → ChatThread → ChatThread
read_if b t = if b then record t { unread_count = 0 } else t

abbrev pub has_message : String → List ChatMessage → Bool
has_message id ms = any (λ (m : ChatMessage). m.id == id) ms

-- `prev.some((m) => m.id === message.id) ? prev : [...prev, message]`
unfoldable pub add_message : ChatMessage → List ChatMessage → List ChatMessage
add_message m ms = if has_message m.id ms then ms else ms ++ m ∷ []

abbrev pub message_of : ChatMessageFrame → ChatMessage
message_of f = record {
  id = f.message_id;
  thread_id = f.thread_id;
  sender_user_id = "";
  sender_role = f.sender_role;
  body = f.body;
  attachment_ref = f.attachment_ref;
  sent_at = f.sent_at;
}

abbrev pub without : String → List ChatThread → List ChatThread
without id ts = filter (λ (t : ChatThread). not (t.id == id)) ts

module _ {Store : Type 0} where
  unfoldable pub apply_threads : List ChatThread → Inbox Store → Inbox Store
  apply_threads fetched s = record s {
    threads =
        map (λ (t : ChatThread). read_if (names s.selected_id t.id) t)
          (filter (λ (t : ChatThread). not (member t.id s.deleted_ids)) fetched);
  }

  unfoldable pub selected_thread : Inbox Store → Option ChatThread
  selected_thread s = find (λ (t : ChatThread). names s.selected_id t.id) s.threads

  -- A timer that is set is replaced.
  unfoldable pub mark_read_debounced : String → Inbox Store → Inbox Store
  mark_read_debounced thread_id s = record s { mark_read_timer = some thread_id }

  unfoldable pub mark_read_fires : Inbox Store → Inbox Store
  mark_read_fires s = elim s.mark_read_timer [
    | none ↦ s
    | some thread_id ↦ record s { mark_read_timer = none; reads = thread_id ∷ s.reads }
  ]

  -- `selectThread` before its first wait, between its waits, and after both.
  unfoldable pub select_thread : String → Inbox Store → Inbox Store
  select_thread thread_id s = record s { selected_id = some thread_id }

  unfoldable pub history_arrived : String → Option (List ChatMessage) → Inbox Store → Inbox Store
  history_arrived thread_id history s = record s {
    messages = fetched_or_empty history;
    reads = thread_id ∷ s.reads;
  }

  unfoldable pub read_answered : String → Inbox Store → Inbox Store
  read_answered thread_id s = record s {
    threads = map (λ (t : ChatThread). read_if (t.id == thread_id) t) s.threads;
  }

  -- `handleSend`: the thread that a message is posted to, and what its answer does.
  unfoldable pub send_target : Inbox Store → Option String
  send_target s = s.selected_id

  unfoldable pub send_answered : Option ChatMessage → Inbox Store → Inbox Store × Bool
  send_answered none s = (s, false)
  send_answered (some m) s = (record s { messages = add_message m s.messages }, true)

  -- `handleCreateThread` of mail.tsx, between the answer and the selection of the thread.
  unfoldable pub thread_created : ChatThread → Inbox Store → Inbox Store
  thread_created t s = record s {
    threads = if any (λ (u : ChatThread). u.id == t.id) s.threads then s.threads else t ∷ s.threads;
  }

module _ (w : WebStorage) where
  open w use {Store}

  unfoldable pub remove_thread : String → Inbox Store → Inbox Store
  remove_thread thread_id s =
      let open_thread = names s.selected_id thread_id in
      record s {
        deleted_ids = thread_id ∷ s.deleted_ids;
        store = clear_draft_buffer w s.store thread_id;
        threads = without thread_id s.threads;
        selected_id = if open_thread then none else s.selected_id;
        messages = if open_thread then [] else s.messages;
      }

  -- `handleDeleteThread` after its wait, by the status of the answer.
  unfoldable pub delete_answered : String → ℕ → Bool → Inbox Store → Inbox Store × Bool
  delete_answered thread_id status ok s =
      if not ok && not (nat_eq status 404) then (s, false) else (remove_thread thread_id s, true)

  unfoldable pub handle_frame : ChatSocketFrame → Inbox Store → Inbox Store
  handle_frame (thread_deleted thread_id) s = remove_thread thread_id s
  handle_frame (message f) s =
      if names s.selected_id f.thread_id
      then mark_read_debounced f.thread_id
          (record s { messages = add_message (message_of f) s.messages })
      else record s { refetches = ℕ.suc s.refetches }
