-- ===== src/Handlers/Orbynadmin/Granted.antt =====
-- The handlers of orbynadmin that call the backend for a session: all under src/app/api but login and
-- logout. Which requests they are for, and when they answer that one succeeded.
use meadow_ops.Base.{◌≡◌, String, Bool, true, false, Option, none, some}
use meadow_ops.Base.Json.{Json}
use meadow_ops.Api.Uri.{Bytes}
use meadow_ops.Api.Chat.{save_draft, upload_attachment, get_attachment}
use meadow_ops.Handlers.{Server, Outcome}
use meadow_ops.Handlers.Relay.{
  succeeded, IsGranted, call-IsGranted, fetch-IsGranted, draft-IsGranted, relay-IsOk,
  relay_caught-IsOk, relay_or_empty-IsOk, relay_caught_or_empty-IsOk, relay_file-IsOk,
}
use meadow_ops.Handlers.Orbynadmin.{
  get_carriers, post_carrier, patch_carrier, get_products, post_product, patch_product,
  get_suppliers, post_supplier, patch_supplier, get_warehouses, post_warehouse, patch_warehouse,
  get_attachment_file, post_attachment, put_draft, get_messages, post_message, post_read,
  post_reflection, delete_thread_route, get_threads, post_ws_ticket, post_accept, post_implement,
  post_outcome, post_partially_implement, post_reject, post_request_clarification, post_resubmit,
  post_decision, post_notification_read, get_notification_feed, post_cancel_confirmation,
  post_execute, get_history, post_refresh_sandbox, get_schema,
}

-- A request of the browser, by the handler that Next.js chooses, with the id of its path and its
-- payload (`none` is a body that is no JSON).
pub data Incoming : Type 0 where
  get_carriers_request : Incoming
  post_carrier_request : Option Json → Incoming
  patch_carrier_request : Bytes → Option Json → Incoming
  get_products_request : Incoming
  post_product_request : Option Json → Incoming
  patch_product_request : Bytes → Option Json → Incoming
  get_suppliers_request : Incoming
  post_supplier_request : Option Json → Incoming
  patch_supplier_request : Bytes → Option Json → Incoming
  get_warehouses_request : Incoming
  post_warehouse_request : Option Json → Incoming
  patch_warehouse_request : Bytes → Option Json → Incoming
  get_attachment_file_request : Bytes → Incoming
  post_attachment_request : Bytes → Json → Incoming
  put_draft_request : Bytes → Option Json → Incoming
  get_messages_request : Bytes → Incoming
  post_message_request : Bytes → Option (String × Option String) → Incoming
  post_read_request : Bytes → Incoming
  post_reflection_request : Bytes → Option Json → Incoming
  delete_thread_route_request : Bytes → Incoming
  get_threads_request : Incoming
  post_ws_ticket_request : Incoming
  post_accept_request : Bytes → Option String → Incoming
  post_implement_request : Bytes → Incoming
  post_outcome_request : Bytes → Option (String × Option String) → Incoming
  post_partially_implement_request : Bytes → Incoming
  post_reject_request : Bytes → Incoming
  post_request_clarification_request : Bytes → Incoming
  post_resubmit_request : Bytes → Incoming
  post_decision_request : Option Json → Incoming
  post_notification_read_request : Bytes → Incoming
  get_notification_feed_request : Incoming
  post_cancel_confirmation_request : Option String → Incoming
  post_execute_request : Option (String × Bool) → Incoming
  get_history_request : Incoming
  post_refresh_sandbox_request : Incoming
  get_schema_request : Incoming

unfoldable pub handle : Server → Incoming → Outcome
unfolding get_carriers post_carrier patch_carrier get_products post_product patch_product
    get_suppliers post_supplier patch_supplier get_warehouses post_warehouse patch_warehouse
    get_attachment_file post_attachment put_draft get_messages post_message post_read
    post_reflection delete_thread_route get_threads post_ws_ticket post_accept post_implement
    post_outcome post_partially_implement post_reject post_request_clarification post_resubmit
    post_decision post_notification_read get_notification_feed post_cancel_confirmation post_execute
    get_history post_refresh_sandbox get_schema
handle s get_carriers_request = get_carriers s
handle s (post_carrier_request payload) = post_carrier s payload
handle s (patch_carrier_request id payload) = patch_carrier s id payload
handle s get_products_request = get_products s
handle s (post_product_request payload) = post_product s payload
handle s (patch_product_request id payload) = patch_product s id payload
handle s get_suppliers_request = get_suppliers s
handle s (post_supplier_request payload) = post_supplier s payload
handle s (patch_supplier_request id payload) = patch_supplier s id payload
handle s get_warehouses_request = get_warehouses s
handle s (post_warehouse_request payload) = post_warehouse s payload
handle s (patch_warehouse_request id payload) = patch_warehouse s id payload
handle s (get_attachment_file_request id) = get_attachment_file s id
handle s (post_attachment_request id form_data) = post_attachment s id form_data
handle s (put_draft_request id payload) = put_draft s id payload
handle s (get_messages_request id) = get_messages s id
handle s (post_message_request id payload) = post_message s id payload
handle s (post_read_request id) = post_read s id
handle s (post_reflection_request id payload) = post_reflection s id payload
handle s (delete_thread_route_request id) = delete_thread_route s id
handle s get_threads_request = get_threads s
handle s post_ws_ticket_request = post_ws_ticket s
handle s (post_accept_request id approval_authority) = post_accept s id approval_authority
handle s (post_implement_request id) = post_implement s id
handle s (post_outcome_request id payload) = post_outcome s id payload
handle s (post_partially_implement_request id) = post_partially_implement s id
handle s (post_reject_request id) = post_reject s id
handle s (post_request_clarification_request id) = post_request_clarification s id
handle s (post_resubmit_request id) = post_resubmit s id
handle s (post_decision_request payload) = post_decision s payload
handle s (post_notification_read_request id) = post_notification_read s id
handle s get_notification_feed_request = get_notification_feed s
handle s (post_cancel_confirmation_request sql) = post_cancel_confirmation s sql
handle s (post_execute_request payload) = post_execute s payload
handle s get_history_request = get_history s
handle s post_refresh_sandbox_request = post_refresh_sandbox s
handle s get_schema_request = get_schema s

-- If a handler answers that a request succeeded, then the browser sent a session cookie, and the
-- backend was asked with the token of that cookie and answered that it succeeded.
pub orbynadmin-IsGranted : (s : Server) (i : Incoming) → succeeded (handle s i) ≡ true → IsGranted s
unfolding handle succeeded upload_attachment get_attachment get_carriers post_carrier patch_carrier
    get_products post_product patch_product get_suppliers post_supplier patch_supplier
    get_warehouses post_warehouse patch_warehouse get_attachment_file post_attachment put_draft
    get_messages post_message post_read post_reflection delete_thread_route get_threads
    post_ws_ticket post_accept post_implement post_outcome post_partially_implement post_reject
    post_request_clarification post_resubmit post_decision post_notification_read
    get_notification_feed post_cancel_confirmation post_execute get_history post_refresh_sandbox
    get_schema
orbynadmin-IsGranted s get_carriers_request h = call-IsGranted true s _ (relay-IsOk _ h)
orbynadmin-IsGranted s (post_carrier_request none) h = cc
orbynadmin-IsGranted s (post_carrier_request (some p)) h = call-IsGranted true s _ (relay-IsOk _ h)
orbynadmin-IsGranted s (patch_carrier_request id none) h = cc
orbynadmin-IsGranted s (patch_carrier_request id (some p)) h =
    call-IsGranted true s _ (relay-IsOk _ h)
orbynadmin-IsGranted s get_products_request h = call-IsGranted true s _ (relay-IsOk _ h)
orbynadmin-IsGranted s (post_product_request none) h = cc
orbynadmin-IsGranted s (post_product_request (some p)) h = call-IsGranted true s _ (relay-IsOk _ h)
orbynadmin-IsGranted s (patch_product_request id none) h = cc
orbynadmin-IsGranted s (patch_product_request id (some p)) h =
    call-IsGranted true s _ (relay-IsOk _ h)
orbynadmin-IsGranted s get_suppliers_request h = call-IsGranted true s _ (relay-IsOk _ h)
orbynadmin-IsGranted s (post_supplier_request none) h = cc
orbynadmin-IsGranted s (post_supplier_request (some p)) h = call-IsGranted true s _ (relay-IsOk _ h)
orbynadmin-IsGranted s (patch_supplier_request id none) h = cc
orbynadmin-IsGranted s (patch_supplier_request id (some p)) h =
    call-IsGranted true s _ (relay-IsOk _ h)
orbynadmin-IsGranted s get_warehouses_request h = call-IsGranted true s _ (relay-IsOk _ h)
orbynadmin-IsGranted s (post_warehouse_request none) h = cc
orbynadmin-IsGranted s (post_warehouse_request (some p)) h =
    call-IsGranted true s _ (relay-IsOk _ h)
orbynadmin-IsGranted s (patch_warehouse_request id none) h = cc
orbynadmin-IsGranted s (patch_warehouse_request id (some p)) h =
    call-IsGranted true s _ (relay-IsOk _ h)
orbynadmin-IsGranted s (get_attachment_file_request id) h =
    fetch-IsGranted false true s _ (relay_file-IsOk _ h)
orbynadmin-IsGranted s (post_attachment_request id form_data) h =
    fetch-IsGranted false false s _ (relay-IsOk _ h)
orbynadmin-IsGranted s (put_draft_request id payload) h =
    draft-IsGranted s (λ body. (save_draft id body)) payload h
orbynadmin-IsGranted s (get_messages_request id) h = call-IsGranted true s _ (relay-IsOk _ h)
orbynadmin-IsGranted s (post_message_request id none) h = cc
orbynadmin-IsGranted s (post_message_request id (some p)) h =
    call-IsGranted true s _ (relay-IsOk _ h)
orbynadmin-IsGranted s (post_read_request id) h = call-IsGranted true s _ (relay_or_empty-IsOk _ h)
orbynadmin-IsGranted s (post_reflection_request id none) h = cc
orbynadmin-IsGranted s (post_reflection_request id (some p)) h =
    call-IsGranted true s _ (relay-IsOk _ h)
orbynadmin-IsGranted s (delete_thread_route_request id) h =
    call-IsGranted true s _ (relay_or_empty-IsOk _ h)
orbynadmin-IsGranted s get_threads_request h = call-IsGranted true s _ (relay-IsOk _ h)
orbynadmin-IsGranted s post_ws_ticket_request h = call-IsGranted true s _ (relay-IsOk _ h)
orbynadmin-IsGranted s (post_accept_request id approval_authority) h =
    call-IsGranted true s _ (relay-IsOk _ h)
orbynadmin-IsGranted s (post_implement_request id) h = call-IsGranted true s _ (relay-IsOk _ h)
orbynadmin-IsGranted s (post_outcome_request id none) h = cc
orbynadmin-IsGranted s (post_outcome_request id (some p)) h =
    call-IsGranted true s _ (relay-IsOk _ h)
orbynadmin-IsGranted s (post_partially_implement_request id) h =
    call-IsGranted true s _ (relay-IsOk _ h)
orbynadmin-IsGranted s (post_reject_request id) h = call-IsGranted true s _ (relay-IsOk _ h)
orbynadmin-IsGranted s (post_request_clarification_request id) h =
    call-IsGranted true s _ (relay-IsOk _ h)
orbynadmin-IsGranted s (post_resubmit_request id) h = call-IsGranted true s _ (relay-IsOk _ h)
orbynadmin-IsGranted s (post_decision_request none) h = cc
orbynadmin-IsGranted s (post_decision_request (some p)) h = call-IsGranted true s _ (relay-IsOk _ h)
orbynadmin-IsGranted s (post_notification_read_request id) h =
    call-IsGranted true s _ (relay_caught_or_empty-IsOk _ h)
orbynadmin-IsGranted s get_notification_feed_request h =
    call-IsGranted true s _ (relay_caught-IsOk _ h)
orbynadmin-IsGranted s (post_cancel_confirmation_request none) h = cc
orbynadmin-IsGranted s (post_cancel_confirmation_request (some p)) h =
    call-IsGranted true s _ (relay_or_empty-IsOk _ h)
orbynadmin-IsGranted s (post_execute_request none) h = cc
orbynadmin-IsGranted s (post_execute_request (some p)) h = call-IsGranted true s _ (relay-IsOk _ h)
orbynadmin-IsGranted s get_history_request h = call-IsGranted true s _ (relay-IsOk _ h)
orbynadmin-IsGranted s post_refresh_sandbox_request h = call-IsGranted true s _ (relay-IsOk _ h)
orbynadmin-IsGranted s get_schema_request h = call-IsGranted true s _ (relay-IsOk _ h)
