-- ===== src/Chat/Samples.antt =====
-- Threads, messages and a browser that the tests of the chat share.
use meadow_ops.Base.{String, true, false, none, []}
use meadow_ops.Draft.ListStorage.{Items}
use meadow_ops.Chat.{ChatThread, ChatMessage, operations_manager, opened, analyst}

abbrev pub thread_with : String → String → ChatThread
thread_with id draft = record {
  id = id;
  scenario_id = "s";
  persona = operations_manager;
  status = opened;
  created_at = "2026-01-01";
  deadline_at = none;
  is_overdue = false;
  unread_count = 2;
  draft_body = draft;
}

abbrev pub stock : ChatThread
stock = thread_with "stock" ""

abbrev pub freight : ChatThread
freight = thread_with "freight" "from the server"

abbrev pub message_with : String → String → ChatMessage
message_with id thread = record {
  id = id;
  thread_id = thread;
  sender_user_id = "u";
  sender_role = analyst;
  body = "hi";
  attachment_ref = none;
  sent_at = "2026-01-01";
}

abbrev pub browser : Items
browser = record { on = true; room = 3; pairs = [] }
