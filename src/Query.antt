-- ===== src/Query.antt =====
-- The query playground of orbynadmin (src/components/query-playground.tsx): running a statement,
-- confirming one that writes, declining it, the history and the refresh of the sandbox. A handler
-- that waits is two functions, before and after the wait. While the confirmation dialog is open, the
-- page behind it cannot be used (the dialog is modal).
pub mod Safety
pub mod Schema
mod Tests
use meadow_ops.Base.{
  ℕ, suc, String, Bool, true, false, not, ◌||◌, ◌&&◌, Option, none, some, List, [], ◌∷◌, ◌==◌, ◌<>◌,
  if◌then◌else◌, trim, trim_end, is_some,
}
use mathlib.Core.Option

pub record StatementPreview : Type 0 where
  pub sql : String
  pub statement_type : String

pub data ResultStatus : Type 0 where
  success error timed_out : ResultStatus

pub record ExecuteResult : Type 0 where
  pub status : ResultStatus
  pub columns : List String
  pub row_count : Option ℕ
  pub error_message : Option String

-- The body of a POST to /api/query/execute.
pub record Execute : Type 0 where
  pub sql : String
  pub confirmed : Bool

-- The answers to it: a demand for confirmation, a result, a refusal with `String(body.detail)` if the
-- body has one, and an exception.
pub data ExecuteAnswer : Type 0 where
  confirmation_required : Option (List StatementPreview) → ExecuteAnswer
  finished : ExecuteResult → ExecuteAnswer
  not_ok : Option String → ExecuteAnswer
  execute_threw : ExecuteAnswer

-- The answers to a refresh of the sandbox.
pub data RefreshAnswer : Type 0 where
  complete : ℕ → RefreshAnswer
  incomplete : Option String → RefreshAnswer
  refresh_refused : Option String → RefreshAnswer
  refresh_threw : RefreshAnswer

pub data Toast : Type 0 where
  failure : String → Toast
  mirrored : ℕ → Toast

-- The state of `QueryPlayground`; the requests to execute that were posted and the statements whose
-- cancellation was posted, the latest first; the loads of the history that are on their way.
pub record Playground : Type 0 where
  pub statement : String
  pub running : Bool
  pub result : Option ExecuteResult
  pub pending_confirmation : Option (List StatementPreview)
  pub history : List String
  pub refreshing : Bool
  pub schema_reload_key : ℕ
  pub toasts : List Toast
  pub posted : List Execute
  pub cancelled : List String
  pub loads : ℕ

abbrev pub tell : String → Playground → Playground
tell text s = record s { toasts = failure text ∷ s.toasts }

unfoldable pub insert_into_editor : String → Playground → Playground
insert_into_editor text s = record s {
  statement = if trim s.statement == "" then text else trim_end s.statement <> (" " <> text);
}

abbrev pub load_history : Playground → Playground
load_history s = record s { loads = suc s.loads }

unfoldable pub history_loaded : Option (List String) → Playground → Playground
history_loaded none s = tell "Failed to load query history" s
history_loaded (some entries) s = record s { history = entries }

-- `runQuery` before and after its wait.
unfoldable pub run_query : Bool → Playground → Playground
run_query confirmed s = record s {
  running = true;
  posted = record { sql = s.statement; confirmed = confirmed } ∷ s.posted;
}

unfoldable pub executed : ExecuteAnswer → Playground → Playground
executed (confirmation_required statements) s = record s {
  pending_confirmation = some (Option.get_or statements []);
  running = false;
}
executed (finished r) s = load_history (record s { result = some r; running = false })
executed (not_ok detail) s =
    tell (Option.get_or detail "Query failed") (record s { running = false })
executed execute_threw s =
    tell "Query failed — check your connection and try again" (record s { running = false })

unfoldable pub confirm_and_run : Playground → Playground
unfolding run_query
confirm_and_run s = run_query true (record s { pending_confirmation = none })

-- `declineConfirmation` before and after its wait, by whether it was answered and ok.
unfoldable pub decline_confirmation : Playground → Playground
decline_confirmation s = record s {
  pending_confirmation = none;
  cancelled = s.statement ∷ s.cancelled;
}

unfoldable pub cancel_answered : Bool → Playground → Playground
cancel_answered true s = load_history s
cancel_answered false s = tell "Failed to record the cancelled query" s

-- `doRefreshSandbox` before and after its wait.
unfoldable pub do_refresh_sandbox : Playground → Playground
do_refresh_sandbox s = record s { refreshing = true }

unfoldable pub refreshed : RefreshAnswer → Playground → Playground
refreshed (complete n) s = record s {
  toasts = mirrored n ∷ s.toasts;
  schema_reload_key = suc s.schema_reload_key;
  refreshing = false;
}
refreshed (incomplete why) s =
    tell (Option.get_or why "Sandbox refresh failed") (record s { refreshing = false })
refreshed (refresh_refused detail) s =
    tell (Option.get_or detail "Refresh failed") (record s { refreshing = false })
refreshed refresh_threw s =
    tell "Sandbox refresh failed — check your connection and try again"
      (record s { refreshing = false })

pub data Event : Type 0 where
  edit : String → Event
  insert : String → Event
  press_run : Event
  answer : ExecuteAnswer → Event
  confirm decline dismiss : Event
  cancel_result : Bool → Event
  history_result : Option (List String) → Event
  press_refresh : Event
  refresh_result : RefreshAnswer → Event

abbrev pub in_dialog : (Playground → Playground) → Playground → Playground
in_dialog act s = if is_some s.pending_confirmation then act s else s

abbrev pub on_page : (Playground → Playground) → Playground → Playground
on_page act s = if is_some s.pending_confirmation then s else act s

abbrev pub run_disabled : Playground → Bool
run_disabled s = s.running || trim s.statement == ""

unfoldable pub step : Event → Playground → Playground
unfolding insert_into_editor run_query executed confirm_and_run decline_confirmation cancel_answered
    history_loaded do_refresh_sandbox refreshed
step (edit text) s = on_page (λ s. record s { statement = text }) s
step (insert text) s = on_page (insert_into_editor text) s
step press_run s = on_page (λ s. if run_disabled s then s else run_query false s) s
step (answer a) s = if s.running then executed a s else s
step confirm s = in_dialog confirm_and_run s
step decline s = in_dialog decline_confirmation s
step dismiss s = in_dialog (λ s. record s { pending_confirmation = none }) s
step (cancel_result ok) s = cancel_answered ok s
step (history_result h) s = history_loaded h s
step press_refresh s = on_page (λ s. if s.refreshing then s else do_refresh_sandbox s) s
step (refresh_result r) s = if s.refreshing then refreshed r s else s

unfoldable pub run : List Event → Playground → Playground
run [] s = s
run (e ∷ es) s = run es (step e s)

-- `useState` at the first render; the effect loads the history.
unfoldable pub initial : Playground
initial = record {
  statement = "select * from product limit 50;";
  running = false;
  result = none;
  pending_confirmation = none;
  history = [];
  refreshing = false;
  schema_reload_key = 0;
  toasts = [];
  posted = [];
  cancelled = [];
  loads = 1;
}
