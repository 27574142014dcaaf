-- ===== src/Api/Chat.antt =====
-- orbynadmin's lib/chat-api.ts.
use meadow_ops.Base.{String, true, false, Option, none, some, ◌++◌, if◌then◌else◌, truthy}
use meadow_ops.Base.Json.{Json, str, obj, field, end}
use meadow_ops.Api.Uri.{Bytes, text, encode}
use meadow_ops.Api.Fetch.{
  post, put, delete, Call, Reply, fetch_with, call_get, call_post, call_with,
}

unfoldable pub list_threads : Call
list_threads = call_get (text "/api/v1/chat/threads")

unfoldable pub list_notification_feed : Call
list_notification_feed = call_get (text "/api/v1/chat/notification-feed")

unfoldable pub mark_notification_read : Bytes → Call
mark_notification_read notification_id =
    call_post (text "/api/v1/chat/notifications/" ++ (encode notification_id ++ text "/read"))

unfoldable pub delete_thread : Bytes → Call
delete_thread thread_id = record {
  method = delete;
  path = text "/api/v1/chat/threads/" ++ encode thread_id;
  body = none;
}

unfoldable pub mark_thread_read : Bytes → Call
mark_thread_read thread_id =
    call_post (text "/api/v1/chat/threads/" ++ (encode thread_id ++ text "/read"))

unfoldable pub list_messages : Bytes → Call
list_messages thread_id =
    call_get (text "/api/v1/chat/threads/" ++ (encode thread_id ++ text "/messages"))

-- `attachmentId ? { body, attachment_id: attachmentId } : { body }`
abbrev pub message_body : String → Option String → Json
message_body body none = obj (field "body" (str body) end)
message_body body (some id) =
    if truthy id
    then obj (field "body" (str body) (field "attachment_id" (str id) end))
    else obj (field "body" (str body) end)

unfoldable pub send_message : Bytes → String → Option String → Call
send_message thread_id body attachment_id =
    call_with post (text "/api/v1/chat/threads/" ++ (encode thread_id ++ text "/messages"))
      (message_body body attachment_id)

unfoldable pub mint_ws_ticket : Call
mint_ws_ticket = call_post (text "/api/v1/chat/ws-ticket")

unfoldable pub submit_reflection : Bytes → Json → Call
submit_reflection thread_id body =
    call_with post (text "/api/v1/portfolio/threads/" ++ (encode thread_id ++ text "/reflection"))
      body

unfoldable pub save_draft : Bytes → String → Call
save_draft thread_id body =
    call_with put (text "/api/v1/chat/threads/" ++ (encode thread_id ++ text "/draft"))
      (obj (field "body" (str body) end))

-- The form data are passed on as they are, with no JSON content type and no cache setting.
unfoldable pub upload_attachment : Option String → Option String → Bytes → Json → Reply
unfolding fetch_with
upload_attachment cookie base thread_id form_data = fetch_with false false cookie base (
    call_with post (text "/api/v1/chat/threads/" ++ (encode thread_id ++ text "/attachments"))
      form_data)

unfoldable pub get_attachment : Option String → Option String → Bytes → Reply
unfolding fetch_with
get_attachment cookie base message_id =
    fetch_with false true cookie base
      (call_get (text "/api/v1/chat/messages/" ++ (encode message_id ++ text "/attachment")))
