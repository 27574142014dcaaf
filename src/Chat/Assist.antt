-- ===== src/Chat/Assist.antt =====
-- The Builder's thread view: ai-assist-panel.tsx inside thread-view.tsx, with the three requests of
-- mail.tsx that the panel makes (src/app/(dashboard)/mail/components of the second application). The
-- composer is that of Chat/Composer, without attachments and for every thread; neither component is
-- mounted again when another thread is shown.
pub mod Suggestions
mod Tests
use meadow_ops.Base.{
  ℕ, String, Bool, true, false, not, ◌||◌, ◌&&◌, Option, none, some, List, [], ◌∷◌, ◌==◌, ◌<>◌,
  if◌then◌else◌, truthy, trim, is_some, get_elem?, remove_at,
}
use meadow_ops.Base.Json.{Json, Fields, str, obj, get, as_text}
use meadow_ops.Base.Response.{Response, no_answer, response, is_ok, body_or_empty}
use meadow_ops.Draft.{WebStorage}
use meadow_ops.Chat.{ChatThread}
use meadow_ops.Chat.Composer.{
  Composer, Sending, Outcome, set_thread, handle_draft_change, timer_fires, handle_send,
  send_answered, ask_delete, press_delete, delete_answered,
}
use meadow_ops.Chat.Composer.Steps.{initial}

pub data Attitude : Type 0 where
  neutral frustrated urgent skeptical appreciative : Attitude

-- What becomes of a request of the panel: `SuggestResult` or `SufficiencyResult`, or an exception.
pub data SuggestResult : Type 0 where
  suggested : String → SuggestResult
  suggest_failed : String → SuggestResult
  suggest_threw : SuggestResult

pub data SufficiencyResult : Type 0 where
  judged : Bool → Option String → SufficiencyResult
  check_failed : String → SufficiencyResult
  check_threw : SufficiencyResult

-- `printed` is how JavaScript prints a status.
module _ (printed : ℕ → String) where
  abbrev detail_or : ℕ → Option String → String
  detail_or status none = "Request failed (" <> (printed status <> ")")
  detail_or status (some detail) = detail

  unfoldable pub ai_error_detail : ℕ → Option Fields → String
  unfolding get
  ai_error_detail status body = detail_or status (as_text (get "detail" (body_or_empty body)))

  -- The backend's success carries the texts and the verdict; a body that is no JSON throws, and so does
  -- here one without them, which the backend does not send.
  abbrev message_or_threw : Option String → SuggestResult
  message_or_threw none = suggest_threw
  message_or_threw (some m) = suggested m

  unfoldable pub suggest_result : Response → SuggestResult
  unfolding ai_error_detail get
  suggest_result no_answer = suggest_threw
  suggest_result (response status body) =
      if not (is_ok status)
      then suggest_failed (ai_error_detail status body)
      else message_or_threw (as_text (get "suggested_message" (body_or_empty body)))

  abbrev judged_or_threw : Option String → Option String → SufficiencyResult
  judged_or_threw none pushback = check_threw
  judged_or_threw (some verdict) pushback = judged (verdict == "sufficient") pushback

  unfoldable pub sufficiency_result : Response → SufficiencyResult
  unfolding ai_error_detail get
  sufficiency_result no_answer = check_threw
  sufficiency_result (response status body) =
      let fields = body_or_empty body in
      if not (is_ok status)
      then check_failed (ai_error_detail status body)
      else judged_or_threw (as_text (get "verdict" fields))
          (as_text (get "suggested_pushback" fields))

pub record Verdict : Type 0 where
  pub text : String
  pub suggested_pushback : Option String

-- The request that is on its way, with the thread of the closure that made it.
pub data Asked : Type 0 where
  asked_suggestion : String → Asked
  asked_check : Asked

-- The state of `AiAssistPanel` beside the composer, and what the page tells it of the messages.
pub record Assist (Store : Type 0) : Type 0 where
  pub composer : Composer Store
  pub has_messages : Bool
  pub has_analyst_message : Bool
  pub attitude : Attitude
  pub pending : Bool
  pub error : Option String
  pub verdict : Option Verdict
  pub asked : Option Asked
  -- The requests on their way whose panel is gone, for no thread was shown meanwhile.
  pub orphans : List Asked

pub data Event : Type 0 where
  show : Option ChatThread → Event
  messages_change : Bool → Bool → Event
  type_text : String → Event
  debounce_ends : Event
  press_send : Event
  send_result : Outcome → Event
  open_dialog : Event
  close_dialog : Event
  confirm_delete : Event
  delete_result : Outcome → Event
  choose_attitude : Attitude → Event
  press_opening : Event
  press_pushback : Event
  press_check : Event
  suggestion : SuggestResult → Event
  sufficiency : SufficiencyResult → Event
  use_pushback : Event
  late_suggestion : ℕ → SuggestResult → Event
  late_sufficiency : ℕ → Event

module _ (w : WebStorage) where
  open w use {Store}

  -- The effect on `[hasMessages, hasAnalystMessage]`.
  unfoldable pub set_messages : Bool → Bool → Assist Store → Assist Store
  set_messages has_messages has_analyst_message s = record s {
    has_messages = has_messages;
    has_analyst_message = has_analyst_message;
    error = none;
    verdict = none;
  }

  abbrev pub same_flag : Bool → Bool → Bool
  same_flag true b = b
  same_flag false b = not b

  -- `runSuggest` and `runSufficiencyCheck` up to their wait.
  unfoldable pub ask : Asked → Assist Store → Assist Store
  ask a s = record s { pending = true; error = none; verdict = none; asked = some a }

  -- `runSuggest` after its wait: `onAcceptSuggestion` is `handleDraftChange` of the thread for which
  -- the request was made.
  unfoldable pub suggest_answered : String → SuggestResult → Assist Store → Assist Store
  unfolding handle_draft_change
  suggest_answered thread_id (suggested m) s = record s {
    composer = handle_draft_change w thread_id m s.composer;
    pending = false;
    asked = none;
  }
  suggest_answered thread_id (suggest_failed text) s = record s {
    error = some text;
    pending = false;
    asked = none;
  }
  suggest_answered thread_id suggest_threw s = record s { pending = false; asked = none }

  abbrev pub verdict_text : Bool → String
  verdict_text true = "Sufficient — safe to mark Completed."
  verdict_text false = "Insufficient."

  -- `runSufficiencyCheck` after its wait.
  unfoldable pub check_answered : SufficiencyResult → Assist Store → Assist Store
  check_answered (judged sufficient pushback) s = record s {
    verdict = some (record { text = verdict_text sufficient; suggested_pushback = pushback });
    pending = false;
    asked = none;
  }
  check_answered (check_failed text) s = record s {
    error = some text;
    pending = false;
    asked = none;
  }
  check_answered check_threw s = record s { pending = false; asked = none }

  -- `acceptSuggestedPushback` for the thread that is shown: its button is rendered for a verdict with
  -- a text that is not empty.
  abbrev pub accept_text : String → Option String → Assist Store → Assist Store
  accept_text thread_id none s = s
  accept_text thread_id (some m) s =
      if truthy m
      then record s { composer = handle_draft_change w thread_id m s.composer; verdict = none }
      else s

  unfoldable pub accept_pushback : String → Option Verdict → Assist Store → Assist Store
  unfolding handle_draft_change
  accept_pushback thread_id none s = s
  accept_pushback thread_id (some v) s = accept_text thread_id v.suggested_pushback s

  abbrev pub orphaned : Option Asked → List Asked → List Asked
  orphaned none orphans = orphans
  orphaned (some a) orphans = a ∷ orphans

  -- Without a thread the panel is not rendered: its state is lost, and its requests go on.
  unfoldable pub show_thread : Option ChatThread → Assist Store → Assist Store
  unfolding set_thread
  show_thread (some t) s = record s { composer = set_thread w (some t) s.composer }
  show_thread none s = record s {
    composer = set_thread w none s.composer;
    attitude = neutral;
    pending = false;
    error = none;
    verdict = none;
    asked = none;
    orphans = orphaned s.asked s.orphans;
  }

  -- The answer to a request whose panel is gone: a suggestion still reaches the composer, and all
  -- else sets the state of a panel that is no longer there.
  abbrev pub late_answer : Option Asked → SuggestResult → Assist Store → Assist Store
  late_answer (some (asked_suggestion thread_id)) (suggested m) s = record s {
    composer = handle_draft_change w thread_id m s.composer;
  }
  late_answer a r s = s

  abbrev pub is_check : Option Asked → Bool
  is_check (some asked_check) = true
  is_check _ = false

  abbrev pub is_suggestion : Option Asked → Bool
  is_suggestion (some (asked_suggestion thread_id)) = true
  is_suggestion _ = false

  abbrev pub forget : ℕ → Assist Store → Assist Store
  forget n s = record s { orphans = remove_at n s.orphans }

  -- The panel, the text area and the dialog are rendered while a thread is shown.
  abbrev pub on_thread : Option ChatThread → (String → Assist Store) → Assist Store → Assist Store
  on_thread none act s = s
  on_thread (some t) act s = act t.id

  abbrev pub answer_suggestion : Option Asked → SuggestResult → Assist Store → Assist Store
  answer_suggestion (some (asked_suggestion thread_id)) r s = suggest_answered thread_id r s
  answer_suggestion _ r s = s

  abbrev pub answer_check : Option Asked → SufficiencyResult → Assist Store → Assist Store
  answer_check (some asked_check) r s = check_answered r s
  answer_check _ r s = s

  abbrev pub answer_send : Outcome → List Sending → Assist Store → Assist Store
  answer_send o [] s = s
  answer_send o (p ∷ rest) s = record s {
    composer = send_answered w p.thread_id o (record s.composer { sends = rest });
  }

  abbrev pub set_composer : Composer Store → Assist Store → Assist Store
  set_composer c s = record s { composer = c }

  unfoldable pub step : Event → Assist Store → Assist Store
  unfolding show_thread set_messages ask suggest_answered check_answered accept_pushback set_thread
      handle_draft_change timer_fires handle_send send_answered ask_delete press_delete
      delete_answered
  step (show t) s = show_thread t s
  step (messages_change m a) s =
      if same_flag m s.has_messages && same_flag a s.has_analyst_message
      then s
      else set_messages m a s
  step (type_text v) s =
      on_thread s.composer.thread (λ id. set_composer (handle_draft_change w id v s.composer) s) s
  step debounce_ends s = record s { composer = timer_fires w s.composer }
  step press_send s =
      on_thread s.composer.thread (λ id. set_composer (handle_send w id s.composer) s) s
  step (send_result o) s = answer_send o s.composer.sends s
  step open_dialog s =
      on_thread s.composer.thread (λ id. set_composer (ask_delete w s.composer) s) s
  step close_dialog s = record s { composer = record s.composer { confirming_delete = false } }
  step confirm_delete s =
      if s.composer.confirming_delete && not s.composer.deleting
      then record s { composer = press_delete w s.composer }
      else s
  step (delete_result o) s =
      if s.composer.deleting then record s { composer = delete_answered w o s.composer } else s
  step (choose_attitude a) s = on_thread s.composer.thread (λ id. record s { attitude = a }) s
  step press_opening s =
      on_thread s.composer.thread
        (λ id. if s.has_messages || s.pending then s else ask (asked_suggestion id) s) s
  step press_pushback s =
      on_thread s.composer.thread
        (λ id. if not s.has_analyst_message || s.pending then s else ask (asked_suggestion id) s) s
  step press_check s =
      on_thread s.composer.thread
        (λ id. if not s.has_analyst_message || s.pending then s else ask asked_check s) s
  step (suggestion r) s = answer_suggestion s.asked r s
  step (sufficiency r) s = answer_check s.asked r s
  step use_pushback s = on_thread s.composer.thread (λ id. accept_pushback id s.verdict s) s
  step (late_suggestion n r) s =
      let a = get_elem? s.orphans n in if is_suggestion a then forget n (late_answer a r s) else s
  step (late_sufficiency n) s = if is_check (get_elem? s.orphans n) then forget n s else s

  unfoldable pub run : List Event → Assist Store → Assist Store
  run [] s = s
  run (e ∷ es) s = run es (step e s)

  -- The page before a thread is selected.
  unfoldable pub initial_assist : Store → Assist Store
  unfolding initial
  initial_assist store = record {
    composer = initial w store;
    has_messages = false;
    has_analyst_message = false;
    attitude = neutral;
    pending = false;
    error = none;
    verdict = none;
    asked = none;
    orphans = [];
  }
