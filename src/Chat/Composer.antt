-- ===== src/Chat/Composer.antt =====
-- The composer of orbynadmin's thread-view.tsx (src/app/(app)/chat/components): the draft and its
-- buffer, the debounced sync with its abort controllers, sending, attachments and the delete dialog.
-- A handler that waits for a response is two functions, before and after the wait.
pub mod Steps
pub mod Wire
pub mod Invariant
pub mod Drafts
mod Tests
use mathlib.Core.Option
use meadow_ops.Base.{
  ℕ, suc, String, Bool, true, false, not, ◌||◌, Option, none, some, List, [], ◌∷◌, ◌++◌, map, ◌==◌,
  nat_eq, if◌then◌else◌, truthy, trim,
}
use meadow_ops.Draft.{WebStorage, load_draft_buffer, save_draft_buffer, clear_draft_buffer}
use meadow_ops.Chat.{ChatThread}

-- The arguments of a sync that is due.
pub record Sync : Type 0 where
  pub thread_id : String
  pub body : String

-- A PUT of a draft on its way, with the controller whose signal it carries.
pub record InFlight : Type 0 where
  pub sync : Sync
  pub controller : ℕ
  pub aborted : Bool

pub record Attachment : Type 0 where
  pub id : String
  pub filename : String

-- A call of `onSend` that has not been answered.
pub record Sending : Type 0 where
  pub thread_id : String
  pub body : String
  pub attachment_id : Option String

-- The state and the refs of `ThreadView`, the storage, and the requests on their way.
pub record Composer (Store : Type 0) : Type 0 where
  pub thread : Option ChatThread
  pub draft : String
  pub sending : Bool
  pub error : Bool
  pub confirming_delete : Bool
  pub deleting : Bool
  pub delete_failed : Bool
  pub pending_attachment : Option Attachment
  pub uploading : Bool
  pub attach_error : Option String
  pub sync_timer : Option Sync
  pub sync_abort : Option ℕ
  pub pending_sync : Option Sync
  pub store : Store
  pub wire : List InFlight
  pub next_controller : ℕ
  pub sends : List Sending

-- `controller.abort()` reaches the requests that carry its signal.
abbrev pub abort_one : ℕ → InFlight → InFlight
abort_one c x = if nat_eq x.controller c then record x { aborted = true } else x

unfoldable pub abort : Option ℕ → List InFlight → List InFlight
abort none xs = xs
abort (some c) [] = []
abort (some c) (x ∷ xs) = abort_one c x ∷ abort (some c) xs

-- The answer to `onSend`: `true`, `false`, or an exception.
pub data Outcome : Type 0 where
  sent refused threw : Outcome

-- The answer to an upload: the attachment, an error with or without a text detail, an exception.
pub data UploadOutcome : Type 0 where
  attached : Attachment → UploadOutcome
  rejected : Option String → UploadOutcome
  upload_threw : UploadOutcome

abbrev pub attach_message : String
attach_message = "Couldn't attach that file — try again."

module _ (w : WebStorage) where
  open w use {Store}

  unfoldable pub fire_sync : Sync → Composer Store → Composer Store
  fire_sync p s = record s {
    wire =
        abort s.sync_abort s.wire
        ++ record { sync = p; controller = s.next_controller; aborted = false } ∷ [];
    sync_abort = some s.next_controller;
    next_controller = suc s.next_controller;
    pending_sync = none;
  }

  abbrev pub flush : Option Sync → Composer Store → Composer Store
  flush none s = s
  flush (some p) s = fire_sync p s

  -- What the effect on `thread?.id` returns.
  unfoldable pub cleanup : Composer Store → Composer Store
  cleanup s = flush s.pending_sync (record s { sync_timer = none })

  abbrev pub restored : Option String → String → String
  restored none draft_body = draft_body
  restored (some buffered) draft_body = buffered

  -- The effect on `thread?.id`.
  unfoldable pub enter : Option ChatThread → Composer Store → Composer Store
  enter none s = record s {
    thread = none;
    confirming_delete = false;
    delete_failed = false;
    draft = "";
  }
  enter (some t) s = record s {
    thread = some t;
    confirming_delete = false;
    delete_failed = false;
    draft = restored (load_draft_buffer w s.store t.id) t.draft_body;
    error = false;
    pending_attachment = none;
    attach_error = none;
  }

  -- A new `thread` prop: the effect runs if the id changes, after the old effect's cleanup.
  abbrev pub change : Option ChatThread → Option ChatThread → Composer Store → Composer Store
  change none none s = s
  change none (some t) s = enter (some t) s
  change (some u) none s = enter none (cleanup s)
  change (some u) (some t) s =
      if u.id == t.id then record s { thread = some t } else enter (some t) (cleanup s)

  unfoldable pub set_thread : Option ChatThread → Composer Store → Composer Store
  set_thread t s = change s.thread t s

  unfoldable pub handle_draft_change : String → String → Composer Store → Composer Store
  handle_draft_change thread_id value s =
      let due : Sync = record { thread_id = thread_id; body = value } in
      record s {
        draft = value;
        error = false;
        store = save_draft_buffer w s.store thread_id value;
        pending_sync = some due;
        sync_timer = some due;
      }

  -- The debounce timer's callback, if a timer is set.
  abbrev pub callback : Option Sync → Composer Store → Composer Store
  callback none s = s
  callback (some due) s = fire_sync due (record s { sync_timer = none })

  unfoldable pub timer_fires : Composer Store → Composer Store
  timer_fires s = callback s.sync_timer s

  -- `handleSend` up to its wait.
  unfoldable pub handle_send : String → Composer Store → Composer Store
  handle_send thread_id s =
      let body = trim s.draft in
      if not (truthy body) || s.sending then s else record s {
        sending = true;
        sync_timer = none;
        pending_sync = none;
        wire = abort s.sync_abort s.wire;
        sends =
            record {
              thread_id = thread_id;
              body = body;
              attachment_id = Option.map (λ (a : Attachment). a.id) s.pending_attachment;
            }
            ∷ s.sends;
      }

  -- `handleSend` after its wait, with the thread of the closure.
  unfoldable pub send_answered : String → Outcome → Composer Store → Composer Store
  send_answered thread_id sent s = record s {
    error = false;
    draft = "";
    store = clear_draft_buffer w s.store thread_id;
    pending_attachment = none;
    sending = false;
  }
  send_answered thread_id refused s = record s { error = true; sending = false }
  send_answered thread_id threw s = record s { sending = false }

  unfoldable pub handle_file_selected : Composer Store → Composer Store
  handle_file_selected s = record s { attach_error = none; uploading = true }

  unfoldable pub upload_answered : UploadOutcome → Composer Store → Composer Store
  upload_answered (attached a) s = record s { pending_attachment = some a; uploading = false }
  upload_answered (rejected detail) s = record s {
    attach_error = some (Option.get_or detail attach_message);
    uploading = false;
  }
  upload_answered upload_threw s = record s {
    attach_error = some attach_message;
    uploading = false;
  }

  -- The delete dialog: its opening button, and the confirming button before and after its wait.
  unfoldable pub ask_delete : Composer Store → Composer Store
  ask_delete s = record s { delete_failed = false; confirming_delete = true }

  unfoldable pub press_delete : Composer Store → Composer Store
  press_delete s = record s { deleting = true; delete_failed = false }

  unfoldable pub delete_answered : Outcome → Composer Store → Composer Store
  delete_answered sent s = record s { confirming_delete = false; deleting = false }
  delete_answered refused s = record s { delete_failed = true; deleting = false }
  delete_answered threw s = record s { deleting = false }
