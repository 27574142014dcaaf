-- ===== src/Chat/Inbox/Tests.antt =====
-- The inbox run over a list storage: instances of its laws.
use meadow_ops.Base.{◌≡◌, refl, String, false, none, some, List, [], ◌∷◌, any, ◌==◌, All}
use meadow_ops.Draft.ListStorage.{Items, list_storage}
use meadow_ops.Chat.{ChatThread, ChatMessage, analyst}
use meadow_ops.Chat.Samples.{stock, freight, browser, message_with}
use meadow_ops.Chat.Inbox.{Inbox, ChatMessageFrame, message, remove_thread}
use meadow_ops.Chat.Inbox.Steps.{Event, polled, history, frame, run}
use meadow_ops.Chat.Inbox.Soundness.{
  IsSound, IsGenuine, distinct, clean, run-IsSound, removed_never_returns,
}

abbrev two_threads : Inbox Items
two_threads = record {
  threads = stock ∷ freight ∷ [];
  selected_id = some "stock";
  messages = message_with "m1" "stock" ∷ [];
  deleted_ids = [];
  mark_read_timer = none;
  store = browser;
  reads = [];
  refetches = 0;
}

abbrev frame_of : String → ChatMessageFrame
frame_of id = record {
  thread_id = "stock";
  message_id = id;
  sender_role = analyst;
  body = "hi";
  attachment_ref = none;
  sent_at = "2026-01-01";
}

abbrev of_stock : List ChatMessage
of_stock = message_with "m1" "stock" ∷ []

abbrev late_poll : List Event
late_poll =
    polled (some (stock ∷ freight ∷ []))
    ∷ history "stock" (some of_stock)
    ∷ frame (message (frame_of "m2"))
    ∷ []

sound : IsSound two_threads
unfolding distinct clean
sound = record { unique = refl; removed = refl }

genuine : All IsGenuine late_poll
unfolding distinct
genuine = (tt, (refl, (tt, tt)))

run-IsSound_example : IsSound (run list_storage late_poll two_threads)
run-IsSound_example = run-IsSound list_storage late_poll two_threads genuine sound

removed_never_returns_example :
    any
      (λ (t : ChatThread). t.id == "stock")
      (run list_storage late_poll (remove_thread list_storage "stock" two_threads)).threads
    ≡ false
removed_never_returns_example =
    removed_never_returns list_storage "stock" two_threads late_poll genuine sound

abbrev frame_of_freight : ChatMessageFrame
frame_of_freight = record (frame_of "m3") { thread_id = "freight" }
