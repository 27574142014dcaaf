-- ===== src/Handlers/Orbynadmin.antt =====
-- The route handlers of orbynadmin: src/app/api/admin, chat, ledger, notifications and query.
pub mod Granted
use meadow_ops.Base.{ℕ, String, Bool, true, Option, none, some}
use meadow_ops.Base.Json.{Json}
use meadow_ops.Api.Uri.{Bytes, text}
use meadow_ops.Api.Chat.{
  list_threads, list_notification_feed, mark_notification_read, delete_thread, mark_thread_read,
  list_messages, send_message, mint_ws_ticket, submit_reflection, save_draft, upload_attachment,
  get_attachment,
}
use meadow_ops.Api.Ledger.{
  propose_decision, request_clarification, resubmit_decision, accept_decision, reject_decision,
  mark_implemented, mark_partially_implemented, record_outcome,
}
use meadow_ops.Api.Admin.{
  list_master_data, create_master_data, update_master_data, execute_query,
  cancel_query_confirmation, refresh_sandbox, get_sandbox_schema, get_query_history,
}
use meadow_ops.Handlers.{
  Server, Outcome, answer_to, relay, relay_caught, relay_or_empty, relay_caught_or_empty,
  relay_file, with_payload, payload_or_400, with_draft, call,
}

unfoldable pub get_carriers : Server → Outcome
unfolding relay list_master_data call
get_carriers s = relay (call true s (list_master_data (text "carriers")))

unfoldable pub post_carrier : Server → Option Json → Outcome
unfolding relay create_master_data call
post_carrier s payload =
    with_payload payload (λ p. relay (call true s (create_master_data (text "carriers") p)))

unfoldable pub patch_carrier : Server → Bytes → Option Json → Outcome
unfolding relay update_master_data call
patch_carrier s id payload =
    with_payload payload (λ p. relay (call true s (update_master_data (text "carriers") id p)))

unfoldable pub get_products : Server → Outcome
unfolding relay list_master_data call
get_products s = relay (call true s (list_master_data (text "products")))

unfoldable pub post_product : Server → Option Json → Outcome
unfolding relay create_master_data call
post_product s payload =
    with_payload payload (λ p. relay (call true s (create_master_data (text "products") p)))

unfoldable pub patch_product : Server → Bytes → Option Json → Outcome
unfolding relay update_master_data call
patch_product s id payload =
    with_payload payload (λ p. relay (call true s (update_master_data (text "products") id p)))

unfoldable pub get_suppliers : Server → Outcome
unfolding relay list_master_data call
get_suppliers s = relay (call true s (list_master_data (text "suppliers")))

unfoldable pub post_supplier : Server → Option Json → Outcome
unfolding relay create_master_data call
post_supplier s payload =
    with_payload payload (λ p. relay (call true s (create_master_data (text "suppliers") p)))

unfoldable pub patch_supplier : Server → Bytes → Option Json → Outcome
unfolding relay update_master_data call
patch_supplier s id payload =
    with_payload payload (λ p. relay (call true s (update_master_data (text "suppliers") id p)))

unfoldable pub get_warehouses : Server → Outcome
unfolding relay list_master_data call
get_warehouses s = relay (call true s (list_master_data (text "warehouses")))

unfoldable pub post_warehouse : Server → Option Json → Outcome
unfolding relay create_master_data call
post_warehouse s payload =
    with_payload payload (λ p. relay (call true s (create_master_data (text "warehouses") p)))

unfoldable pub patch_warehouse : Server → Bytes → Option Json → Outcome
unfolding relay update_master_data call
patch_warehouse s id payload =
    with_payload payload (λ p. relay (call true s (update_master_data (text "warehouses") id p)))

unfoldable pub get_attachment_file : Server → Bytes → Outcome
unfolding relay_file get_attachment answer_to
get_attachment_file s id = relay_file (answer_to s (get_attachment s.cookie s.base_url id))

unfoldable pub post_attachment : Server → Bytes → Json → Outcome
unfolding relay upload_attachment answer_to
post_attachment s id form_data =
    relay (answer_to s (upload_attachment s.cookie s.base_url id form_data))

unfoldable pub put_draft : Server → Bytes → Option Json → Outcome
unfolding relay_or_empty save_draft call
put_draft s id payload =
    with_draft payload (λ body. relay_or_empty (call true s (save_draft id body)))

unfoldable pub get_messages : Server → Bytes → Outcome
unfolding relay list_messages call
get_messages s id = relay (call true s (list_messages id))

unfoldable pub post_message : Server → Bytes → Option (String × Option String) → Outcome
unfolding relay send_message call
post_message s id payload =
    with_payload payload (λ p. relay (call true s (send_message id (p.0) (p.1))))

unfoldable pub post_read : Server → Bytes → Outcome
unfolding relay_or_empty mark_thread_read call
post_read s id = relay_or_empty (call true s (mark_thread_read id))

unfoldable pub post_reflection : Server → Bytes → Option Json → Outcome
unfolding relay submit_reflection call
post_reflection s id payload =
    with_payload payload (λ p. relay (call true s (submit_reflection id p)))

unfoldable pub delete_thread_route : Server → Bytes → Outcome
unfolding relay_or_empty delete_thread call
delete_thread_route s id = relay_or_empty (call true s (delete_thread id))

unfoldable pub get_threads : Server → Outcome
unfolding relay list_threads call
get_threads s = relay (call true s list_threads)

unfoldable pub post_ws_ticket : Server → Outcome
unfolding relay mint_ws_ticket call
post_ws_ticket s = relay (call true s mint_ws_ticket)

unfoldable pub post_accept : Server → Bytes → Option String → Outcome
unfolding relay accept_decision call
post_accept s id approval_authority = relay (call true s (accept_decision id approval_authority))

unfoldable pub post_implement : Server → Bytes → Outcome
unfolding relay mark_implemented call
post_implement s id = relay (call true s (mark_implemented id))

unfoldable pub post_outcome : Server → Bytes → Option (String × Option String) → Outcome
unfolding relay record_outcome call
post_outcome s id payload =
    with_payload payload (λ p. relay (call true s (record_outcome id (p.0) (p.1))))

unfoldable pub post_partially_implement : Server → Bytes → Outcome
unfolding relay mark_partially_implemented call
post_partially_implement s id = relay (call true s (mark_partially_implemented id))

unfoldable pub post_reject : Server → Bytes → Outcome
unfolding relay reject_decision call
post_reject s id = relay (call true s (reject_decision id))

unfoldable pub post_request_clarification : Server → Bytes → Outcome
unfolding relay request_clarification call
post_request_clarification s id = relay (call true s (request_clarification id))

unfoldable pub post_resubmit : Server → Bytes → Outcome
unfolding relay resubmit_decision call
post_resubmit s id = relay (call true s (resubmit_decision id))

unfoldable pub post_decision : Server → Option Json → Outcome
unfolding relay propose_decision call
post_decision s payload = with_payload payload (λ p. relay (call true s (propose_decision p)))

unfoldable pub post_notification_read : Server → Bytes → Outcome
unfolding relay_caught_or_empty mark_notification_read call
post_notification_read s id = relay_caught_or_empty (call true s (mark_notification_read id))

unfoldable pub get_notification_feed : Server → Outcome
unfolding relay_caught list_notification_feed call
get_notification_feed s = relay_caught (call true s list_notification_feed)

unfoldable pub post_cancel_confirmation : Server → Option String → Outcome
unfolding relay_or_empty cancel_query_confirmation call
post_cancel_confirmation s sql =
    with_payload sql (λ p. relay_or_empty (call true s (cancel_query_confirmation p)))

unfoldable pub post_execute : Server → Option (String × Bool) → Outcome
unfolding relay execute_query call
post_execute s payload = with_payload payload (λ p. relay (call true s (execute_query (p.0) (p.1))))

unfoldable pub get_history : Server → Outcome
unfolding relay get_query_history call
get_history s = relay (call true s get_query_history)

unfoldable pub post_refresh_sandbox : Server → Outcome
unfolding relay refresh_sandbox call
post_refresh_sandbox s = relay (call true s refresh_sandbox)

unfoldable pub get_schema : Server → Outcome
unfolding relay get_sandbox_schema call
get_schema s = relay (call true s get_sandbox_schema)
