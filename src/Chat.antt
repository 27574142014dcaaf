-- ===== src/Chat.antt =====
-- The chat surface of both applications. Here: types.ts (src/app/(app)/chat/types.ts of orbynadmin);
-- below: the composer (thread-view.tsx), the inbox (chat-inbox.tsx) and the socket
-- (use-chat-socket.ts).
pub mod Samples
pub mod Composer
pub mod Assist
pub mod Inbox
pub mod Socket
pub mod NewThread
pub mod Reflection
use meadow_ops.Base.{ℕ, String, Bool, true, false, Option, none, some, ◌==◌, if◌then◌else◌}

abbrev pub max_message_body_length : ℕ
max_message_body_length = 10_000

pub data Persona : Type 0 where
  operations_manager procurement_manager warehouse_manager it_manager : Persona
  operations_director cfo : Persona

-- `PERSONA_LABELS[persona] ?? persona`, over the text that the backend sends.
unfoldable pub persona_label : String → String
persona_label p =
    if p == "operations_manager"
    then "Operations Manager"
    else if p == "procurement_manager"
    then "Procurement Manager"
    else if p == "warehouse_manager"
    then "Warehouse Manager"
    else if p == "it_manager"
    then "IT Manager"
    else if p == "operations_director"
    then "Operations Director"
    else if p == "cfo"
    then "CFO"
    else p

pub data ThreadStatus : Type 0 where
  opened completed : ThreadStatus

abbrev pub is_completed : ThreadStatus → Bool
is_completed completed = true
is_completed opened = false

pub record ChatThread : Type 0 where
  pub id : String
  pub scenario_id : String
  pub persona : Persona
  pub status : ThreadStatus
  pub created_at : String
  pub deadline_at : Option String
  pub is_overdue : Bool
  pub unread_count : ℕ
  pub draft_body : String

pub data SenderRole : Type 0 where
  admin analyst : SenderRole

pub record ChatMessage : Type 0 where
  pub id : String
  pub thread_id : String
  pub sender_user_id : String
  pub sender_role : SenderRole
  pub body : String
  pub attachment_ref : Option String
  pub sent_at : String
