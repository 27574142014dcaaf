-- ===== src/Handlers/Builder.antt =====
-- The route handlers of the Builder's application: src/app/api/chat, evaluations, portfolio, scenarios
-- and simulation.
pub mod Granted
use meadow_ops.Base.{ℕ, String, Bool, true, Option, none, some}
use meadow_ops.Base.Json.{Json}
use meadow_ops.Api.Uri.{Bytes, text}
use meadow_ops.Api.BuilderChat.{
  list_threads, complete_thread, create_thread, mark_thread_read, list_messages, send_message,
  delete_thread, mint_ws_ticket, suggest_opening, suggest_pushback, check_sufficiency,
  list_notifications, mark_notification_read, save_draft, get_attachment,
}
use meadow_ops.Api.Evaluation.{
  get_evaluation, get_human_review, submit_human_review, get_portfolio_export,
}
use meadow_ops.Api.Scenario.{
  create_scenario, update_ground_truth, regenerate_scenario, regenerate_narrative,
  regenerate_expected_query, run_expected_query, approve_scenario, activate_scenario,
  cancel_scenario, start_repopulate, get_repopulate_status,
}
use meadow_ops.Handlers.Threads.{list_threads_for_scenario}
use meadow_ops.Handlers.{
  Server, Outcome, answer_to, relay, relay_caught, relay_or_empty, relay_caught_or_empty,
  relay_file, with_payload, payload_or_400, with_draft, call,
}

unfoldable pub get_attachment_file : Server → Bytes → Outcome
unfolding relay_file get_attachment answer_to
get_attachment_file s id = relay_file (answer_to s (get_attachment s.cookie s.base_url id))

unfoldable pub post_notification_read : Server → Bytes → Outcome
unfolding relay_or_empty mark_notification_read call
post_notification_read s id = relay_or_empty (call true s (mark_notification_read id))

unfoldable pub get_notifications : Server → Outcome
unfolding relay list_notifications call
get_notifications s = relay (call true s list_notifications)

unfoldable pub post_complete : Server → Bytes → Outcome
unfolding relay complete_thread call
post_complete s id = relay (call true s (complete_thread id))

unfoldable pub put_draft : Server → Bytes → Option Json → Outcome
unfolding relay_or_empty save_draft call
put_draft s id payload =
    with_draft payload (λ body. relay_or_empty (call true s (save_draft id body)))

unfoldable pub get_messages : Server → Bytes → Outcome
unfolding relay list_messages call
get_messages s id = relay (call true s (list_messages id))

unfoldable pub post_message : Server → Bytes → Option String → Outcome
unfolding relay send_message call
post_message s id text_body = with_payload text_body (λ p. relay (call true s (send_message id p)))

unfoldable pub post_read : Server → Bytes → Outcome
unfolding relay_or_empty mark_thread_read call
post_read s id = relay_or_empty (call true s (mark_thread_read id))

unfoldable pub delete_thread_route : Server → Bytes → Outcome
unfolding relay_or_empty delete_thread call
delete_thread_route s id = relay_or_empty (call true s (delete_thread id))

unfoldable pub post_sufficiency_check : Server → Bytes → Outcome
unfolding relay check_sufficiency call
post_sufficiency_check s id = relay (call true s (check_sufficiency id))

unfoldable pub post_suggest_opening : Server → Bytes → Option String → Outcome
unfolding relay suggest_opening call
post_suggest_opening s id attitude =
    with_payload attitude (λ p. relay (call true s (suggest_opening id p)))

unfoldable pub post_suggest_pushback : Server → Bytes → Option String → Outcome
unfolding relay suggest_pushback call
post_suggest_pushback s id attitude =
    with_payload attitude (λ p. relay (call true s (suggest_pushback id p)))

unfoldable pub get_threads : Server → Outcome
unfolding relay list_threads call
get_threads s = relay (call true s list_threads)

unfoldable pub get_scenario_threads : Server → String → Outcome
unfolding relay list_threads call list_threads_for_scenario
get_scenario_threads s id = relay (list_threads_for_scenario id (call true s list_threads))

unfoldable pub post_thread : Server → Option (String × String) → Outcome
unfolding relay create_thread call
post_thread s payload = with_payload payload (λ p. relay (call true s (create_thread (p.0) (p.1))))

unfoldable pub post_ws_ticket : Server → Outcome
unfolding relay mint_ws_ticket call
post_ws_ticket s = relay (call true s mint_ws_ticket)

unfoldable pub get_review : Server → Bytes → Outcome
unfolding relay get_human_review call
get_review s id = relay (call true s (get_human_review id))

unfoldable pub post_review : Server → Bytes → Option Json → Outcome
unfolding relay submit_human_review call
post_review s id payload =
    with_payload payload (λ p. relay (call true s (submit_human_review id p)))

unfoldable pub get_thread_evaluation : Server → Bytes → Outcome
unfolding relay get_evaluation call
get_thread_evaluation s id = relay (call true s (get_evaluation id))

unfoldable pub get_portfolio : Server → Bytes → Outcome
unfolding relay get_portfolio_export call
get_portfolio s id = relay (call true s (get_portfolio_export id))

unfoldable pub post_activate : Server → Bytes → Outcome
unfolding relay activate_scenario call
post_activate s id = relay (call true s (activate_scenario id))

unfoldable pub post_approve : Server → Bytes → Outcome
unfolding relay approve_scenario call
post_approve s id = relay (call true s (approve_scenario id))

unfoldable pub post_cancel : Server → Bytes → Outcome
unfolding relay cancel_scenario call
post_cancel s id = relay (call true s (cancel_scenario id))

unfoldable pub post_run : Server → Bytes → Outcome
unfolding relay run_expected_query call
post_run s id = relay (call true s (run_expected_query id))

unfoldable pub patch_ground_truth : Server → Bytes → Option Json → Outcome
unfolding relay update_ground_truth call
patch_ground_truth s id payload =
    payload_or_400 "Invalid request body" payload
      (λ p. relay (call true s (update_ground_truth id p)))

unfoldable pub post_regenerate_query : Server → Bytes → Outcome
unfolding relay_caught regenerate_expected_query call
post_regenerate_query s id = relay_caught (call true s (regenerate_expected_query id))

unfoldable pub post_regenerate_narrative : Server → Bytes → Outcome
unfolding relay_caught regenerate_narrative call
post_regenerate_narrative s id = relay_caught (call true s (regenerate_narrative id))

unfoldable pub post_regenerate : Server → Bytes → Outcome
unfolding relay regenerate_scenario call
post_regenerate s id = relay (call true s (regenerate_scenario id))

unfoldable pub post_scenario : Server → Option Json → Outcome
unfolding relay create_scenario call
post_scenario s payload =
    payload_or_400 "Invalid request body" payload (λ p. relay (call true s (create_scenario p)))

unfoldable pub post_repopulate : Server → Option Json → Outcome
unfolding relay_caught start_repopulate call
post_repopulate s payload =
    payload_or_400 "Invalid request body" payload
      (λ p. relay_caught (call true s (start_repopulate p)))

unfoldable pub get_repopulate : Server → Outcome
unfolding relay_caught get_repopulate_status call
get_repopulate s = relay_caught (call true s get_repopulate_status)
