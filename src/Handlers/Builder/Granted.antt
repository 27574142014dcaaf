-- ===== src/Handlers/Builder/Granted.antt =====
-- The handlers of the Builder's application that call the backend for a session: all under src/app/api
-- but login, logout and session-expired. Which requests they are for, and when they answer that one
-- succeeded.
use meadow_ops.Base.Response.{is_ok}
use meadow_ops.Base.{◌≡◌, refl, Bool-cases, inl, inr, String, true, false, Option, none, some}
use meadow_ops.Base.Json.{Json}
use meadow_ops.Api.Uri.{Bytes}
use meadow_ops.Api.BuilderChat.{save_draft, get_attachment}
use meadow_ops.Handlers.Threads.{list_threads_for_scenario}
use meadow_ops.Handlers.{Answer, Server, Outcome}
use meadow_ops.Handlers.Relay.{
  succeeded, IsGranted, IsOkAnswer, call-IsGranted, fetch-IsGranted, draft-IsGranted, relay-IsOk,
  relay_caught-IsOk, relay_or_empty-IsOk, relay_file-IsOk,
}
use meadow_ops.Handlers.Builder.{
  get_attachment_file, post_notification_read, get_notifications, post_complete, put_draft,
  get_messages, post_message, post_read, delete_thread_route, post_sufficiency_check,
  post_suggest_opening, post_suggest_pushback, get_threads, get_scenario_threads, post_thread,
  post_ws_ticket, get_review, post_review, get_thread_evaluation, get_portfolio, post_activate,
  post_approve, post_cancel, post_run, patch_ground_truth, post_regenerate_query,
  post_regenerate_narrative, post_regenerate, post_scenario, post_repopulate, get_repopulate,
}

-- A request of the browser, by the handler that Next.js chooses, with the id of its path and its
-- payload (`none` is a body that is no JSON).
pub data Incoming : Type 0 where
  get_attachment_file_request : Bytes → Incoming
  post_notification_read_request : Bytes → Incoming
  get_notifications_request : Incoming
  post_complete_request : Bytes → Incoming
  put_draft_request : Bytes → Option Json → Incoming
  get_messages_request : Bytes → Incoming
  post_message_request : Bytes → Option String → Incoming
  post_read_request : Bytes → Incoming
  delete_thread_route_request : Bytes → Incoming
  post_sufficiency_check_request : Bytes → Incoming
  post_suggest_opening_request : Bytes → Option String → Incoming
  post_suggest_pushback_request : Bytes → Option String → Incoming
  get_threads_request : Incoming
  get_scenario_threads_request : String → Incoming
  post_thread_request : Option (String × String) → Incoming
  post_ws_ticket_request : Incoming
  get_review_request : Bytes → Incoming
  post_review_request : Bytes → Option Json → Incoming
  get_thread_evaluation_request : Bytes → Incoming
  get_portfolio_request : Bytes → Incoming
  post_activate_request : Bytes → Incoming
  post_approve_request : Bytes → Incoming
  post_cancel_request : Bytes → Incoming
  post_run_request : Bytes → Incoming
  patch_ground_truth_request : Bytes → Option Json → Incoming
  post_regenerate_query_request : Bytes → Incoming
  post_regenerate_narrative_request : Bytes → Incoming
  post_regenerate_request : Bytes → Incoming
  post_scenario_request : Option Json → Incoming
  post_repopulate_request : Option Json → Incoming
  get_repopulate_request : Incoming

unfoldable pub handle : Server → Incoming → Outcome
unfolding get_attachment_file post_notification_read get_notifications post_complete put_draft
    get_messages post_message post_read delete_thread_route post_sufficiency_check
    post_suggest_opening post_suggest_pushback get_threads get_scenario_threads post_thread
    post_ws_ticket get_review post_review get_thread_evaluation get_portfolio post_activate
    post_approve post_cancel post_run patch_ground_truth post_regenerate_query
    post_regenerate_narrative post_regenerate post_scenario post_repopulate get_repopulate
handle s (get_attachment_file_request id) = get_attachment_file s id
handle s (post_notification_read_request id) = post_notification_read s id
handle s get_notifications_request = get_notifications s
handle s (post_complete_request id) = post_complete s id
handle s (put_draft_request id payload) = put_draft s id payload
handle s (get_messages_request id) = get_messages s id
handle s (post_message_request id text_body) = post_message s id text_body
handle s (post_read_request id) = post_read s id
handle s (delete_thread_route_request id) = delete_thread_route s id
handle s (post_sufficiency_check_request id) = post_sufficiency_check s id
handle s (post_suggest_opening_request id attitude) = post_suggest_opening s id attitude
handle s (post_suggest_pushback_request id attitude) = post_suggest_pushback s id attitude
handle s get_threads_request = get_threads s
handle s (get_scenario_threads_request id) = get_scenario_threads s id
handle s (post_thread_request payload) = post_thread s payload
handle s post_ws_ticket_request = post_ws_ticket s
handle s (get_review_request id) = get_review s id
handle s (post_review_request id payload) = post_review s id payload
handle s (get_thread_evaluation_request id) = get_thread_evaluation s id
handle s (get_portfolio_request id) = get_portfolio s id
handle s (post_activate_request id) = post_activate s id
handle s (post_approve_request id) = post_approve s id
handle s (post_cancel_request id) = post_cancel s id
handle s (post_run_request id) = post_run s id
handle s (patch_ground_truth_request id payload) = patch_ground_truth s id payload
handle s (post_regenerate_query_request id) = post_regenerate_query s id
handle s (post_regenerate_narrative_request id) = post_regenerate_narrative s id
handle s (post_regenerate_request id) = post_regenerate s id
handle s (post_scenario_request payload) = post_scenario s payload
handle s (post_repopulate_request payload) = post_repopulate s payload
handle s get_repopulate_request = get_repopulate s

list_threads_for_scenario-IsOk :
    (id : String) (o : Option Answer) → IsOkAnswer (list_threads_for_scenario id o) → IsOkAnswer o
unfolding list_threads_for_scenario
list_threads_for_scenario-IsOk id none h = h
list_threads_for_scenario-IsOk id (some a) h = elim (Bool-cases (is_ok a.status)) [
  | inl ok ↦ (a, refl, ok)
  | inr failed ↦ rw failed at h
]

-- If a handler under app/api, other than those of login, logout and session-expired, answers that a
-- request succeeded, then the browser sent a session cookie, and the backend was asked with the token
-- of that cookie and answered that it succeeded.
pub builder-IsGranted : (s : Server) (i : Incoming) → succeeded (handle s i) ≡ true → IsGranted s
unfolding handle succeeded get_attachment get_attachment_file post_notification_read
    get_notifications post_complete put_draft get_messages post_message post_read
    delete_thread_route post_sufficiency_check post_suggest_opening post_suggest_pushback
    get_threads get_scenario_threads post_thread post_ws_ticket get_review post_review
    get_thread_evaluation get_portfolio post_activate post_approve post_cancel post_run
    patch_ground_truth post_regenerate_query post_regenerate_narrative post_regenerate post_scenario
    post_repopulate get_repopulate
builder-IsGranted s (get_attachment_file_request id) h =
    fetch-IsGranted false true s _ (relay_file-IsOk _ h)
builder-IsGranted s (post_notification_read_request id) h =
    call-IsGranted true s _ (relay_or_empty-IsOk _ h)
builder-IsGranted s get_notifications_request h = call-IsGranted true s _ (relay-IsOk _ h)
builder-IsGranted s (post_complete_request id) h = call-IsGranted true s _ (relay-IsOk _ h)
builder-IsGranted s (put_draft_request id payload) h =
    draft-IsGranted s (λ body. (save_draft id body)) payload h
builder-IsGranted s (get_messages_request id) h = call-IsGranted true s _ (relay-IsOk _ h)
builder-IsGranted s (post_message_request id none) h = cc
builder-IsGranted s (post_message_request id (some p)) h = call-IsGranted true s _ (relay-IsOk _ h)
builder-IsGranted s (post_read_request id) h = call-IsGranted true s _ (relay_or_empty-IsOk _ h)
builder-IsGranted s (delete_thread_route_request id) h =
    call-IsGranted true s _ (relay_or_empty-IsOk _ h)
builder-IsGranted s (post_sufficiency_check_request id) h = call-IsGranted true s _ (relay-IsOk _ h)
builder-IsGranted s (post_suggest_opening_request id none) h = cc
builder-IsGranted s (post_suggest_opening_request id (some p)) h =
    call-IsGranted true s _ (relay-IsOk _ h)
builder-IsGranted s (post_suggest_pushback_request id none) h = cc
builder-IsGranted s (post_suggest_pushback_request id (some p)) h =
    call-IsGranted true s _ (relay-IsOk _ h)
builder-IsGranted s get_threads_request h = call-IsGranted true s _ (relay-IsOk _ h)
builder-IsGranted s (get_scenario_threads_request id) h =
    call-IsGranted true s _ (list_threads_for_scenario-IsOk id _ (relay-IsOk _ h))
builder-IsGranted s (post_thread_request none) h = cc
builder-IsGranted s (post_thread_request (some p)) h = call-IsGranted true s _ (relay-IsOk _ h)
builder-IsGranted s post_ws_ticket_request h = call-IsGranted true s _ (relay-IsOk _ h)
builder-IsGranted s (get_review_request id) h = call-IsGranted true s _ (relay-IsOk _ h)
builder-IsGranted s (post_review_request id none) h = cc
builder-IsGranted s (post_review_request id (some p)) h = call-IsGranted true s _ (relay-IsOk _ h)
builder-IsGranted s (get_thread_evaluation_request id) h = call-IsGranted true s _ (relay-IsOk _ h)
builder-IsGranted s (get_portfolio_request id) h = call-IsGranted true s _ (relay-IsOk _ h)
builder-IsGranted s (post_activate_request id) h = call-IsGranted true s _ (relay-IsOk _ h)
builder-IsGranted s (post_approve_request id) h = call-IsGranted true s _ (relay-IsOk _ h)
builder-IsGranted s (post_cancel_request id) h = call-IsGranted true s _ (relay-IsOk _ h)
builder-IsGranted s (post_run_request id) h = call-IsGranted true s _ (relay-IsOk _ h)
builder-IsGranted s (patch_ground_truth_request id none) h = cc
builder-IsGranted s (patch_ground_truth_request id (some p)) h =
    call-IsGranted true s _ (relay-IsOk _ h)
builder-IsGranted s (post_regenerate_query_request id) h =
    call-IsGranted true s _ (relay_caught-IsOk _ h)
builder-IsGranted s (post_regenerate_narrative_request id) h =
    call-IsGranted true s _ (relay_caught-IsOk _ h)
builder-IsGranted s (post_regenerate_request id) h = call-IsGranted true s _ (relay-IsOk _ h)
builder-IsGranted s (post_scenario_request none) h = cc
builder-IsGranted s (post_scenario_request (some p)) h = call-IsGranted true s _ (relay-IsOk _ h)
builder-IsGranted s (post_repopulate_request none) h = cc
builder-IsGranted s (post_repopulate_request (some p)) h =
    call-IsGranted true s _ (relay_caught-IsOk _ h)
builder-IsGranted s get_repopulate_request h = call-IsGranted true s _ (relay_caught-IsOk _ h)
