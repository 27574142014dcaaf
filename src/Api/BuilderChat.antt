-- ===== src/Api/BuilderChat.antt =====
-- The Builder's application's lib/chat-api.ts.
use meadow_ops.Base.{String, true, false, Option, none, ◌++◌}
use meadow_ops.Base.Json.{str, obj, field, end}
use meadow_ops.Api.Uri.{Bytes, text, encode}
use meadow_ops.Api.Fetch.{
  post, put, delete, Call, Reply, fetch_with, call_get, call_post, call_with,
}

unfoldable pub list_threads : Call
list_threads = call_get (text "/api/v1/chat/threads")

unfoldable pub complete_thread : Bytes → Call
complete_thread thread_id =
    call_post (text "/api/v1/chat/threads/" ++ (encode thread_id ++ text "/complete"))

unfoldable pub create_thread : String → String → Call
create_thread scenario_id persona =
    call_with post (text "/api/v1/chat/threads")
      (obj (field "scenario_id" (str scenario_id) (field "persona" (str persona) end)))

unfoldable pub mark_thread_read : Bytes → Call
mark_thread_read thread_id =
    call_post (text "/api/v1/chat/threads/" ++ (encode thread_id ++ text "/read"))

unfoldable pub list_messages : Bytes → Call
list_messages thread_id =
    call_get (text "/api/v1/chat/threads/" ++ (encode thread_id ++ text "/messages"))

unfoldable pub send_message : Bytes → String → Call
send_message thread_id body =
    call_with post (text "/api/v1/chat/threads/" ++ (encode thread_id ++ text "/messages"))
      (obj (field "body" (str body) end))

unfoldable pub delete_thread : Bytes → Call
delete_thread thread_id = record {
  method = delete;
  path = text "/api/v1/chat/threads/" ++ encode thread_id;
  body = none;
}

unfoldable pub mint_ws_ticket : Call
mint_ws_ticket = call_post (text "/api/v1/chat/ws-ticket")

unfoldable pub suggest_opening : Bytes → String → Call
suggest_opening thread_id attitude =
    call_with post (text "/api/v1/chat/threads/" ++ (encode thread_id ++ text "/suggest-opening"))
      (obj (field "attitude" (str attitude) end))

unfoldable pub suggest_pushback : Bytes → String → Call
suggest_pushback thread_id attitude =
    call_with post (text "/api/v1/chat/threads/" ++ (encode thread_id ++ text "/suggest-pushback"))
      (obj (field "attitude" (str attitude) end))

unfoldable pub check_sufficiency : Bytes → Call
check_sufficiency thread_id =
    call_post (text "/api/v1/chat/threads/" ++ (encode thread_id ++ text "/sufficiency-check"))

unfoldable pub list_notifications : Call
list_notifications = call_get (text "/api/v1/chat/notifications")

unfoldable pub list_notification_feed : Call
list_notification_feed = call_get (text "/api/v1/chat/notification-feed")

unfoldable pub mark_notification_read : Bytes → Call
mark_notification_read notification_id =
    call_post (text "/api/v1/chat/notifications/" ++ (encode notification_id ++ text "/read"))

unfoldable pub save_draft : Bytes → String → Call
save_draft thread_id body =
    call_with put (text "/api/v1/chat/threads/" ++ (encode thread_id ++ text "/draft"))
      (obj (field "body" (str body) end))

unfoldable pub get_attachment : Option String → Option String → Bytes → Reply
unfolding fetch_with
get_attachment cookie base message_id =
    fetch_with false true cookie base
      (call_get (text "/api/v1/chat/messages/" ++ (encode message_id ++ text "/attachment")))
