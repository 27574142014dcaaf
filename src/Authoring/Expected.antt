-- ===== src/Authoring/Expected.antt =====
-- expected-query-panel.tsx, narrative-card.tsx and regenerate-button.tsx of the Builder's application
-- (src/app/(dashboard)/scenarios/[id]/components).
pub mod Running
mod Tests
use mathlib.Core.Option
use meadow_ops.Base.{
  ℕ, suc, ◌-◌, String, Bool, true, false, not, ◌&&◌, Option, none, some, List, [], ◌∷◌, ◌==◌, ◌<>◌,
  if◌then◌else◌, nat_eq, truthy,
}
use meadow_ops.Base.Json.{Json, Items, Fields, null, str, arr, obj, get}
use meadow_ops.Base.Response.{error_message}
use meadow_ops.Actions.{Answer, Toast, success, failure}
use meadow_ops.Actions.Scenario.{ScenarioStatus, cancelled}
use meadow_ops.Authoring.{Poster, send, answered, refusal_text}

pub record RunResult : Type 0 where
  pub status : String
  pub columns : List String
  pub rows : List Fields
  pub row_count : ℕ
  pub truncated : Bool
  pub duration_ms : ℕ
  pub error_message : Option String

-- `printed` is how JavaScript prints a value that is no object, `stringified` is `JSON.stringify`.
module _ (printed stringified : Json → String) where
  unfoldable pub format_cell : Option Json → String
  format_cell none = "NULL"
  format_cell (some null) = "NULL"
  format_cell (some (obj fields)) = stringified (obj fields)
  format_cell (some (arr items)) = stringified (arr items)
  format_cell (some (str s)) = s
  format_cell (some value) = printed value

-- What stands below the query for a result that is no success.
unfoldable pub alert_text : RunResult → Option String
alert_text r =
    if r.status == "success"
    then none
    else if r.status == "timed_out"
    then some "The query timed out."
    else some (Option.get_or r.error_message "The query failed.")

-- `printed` is how JavaScript prints a number.
unfoldable pub summary_text : (ℕ → String) → RunResult → Option String
summary_text printed r =
    if r.status == "success"
    then some (
        printed r.row_count
        <> (" "
            <> ((if nat_eq r.row_count 1 then "row" else "rows")
                <> (" in "
                    <> (printed r.duration_ms
                        <> (" ms"
                            <> (if r.truncated then " (showing the first rows only)" else "")))))))
    else none

-- What became of a run: the result, a refusal with its body, an exception.
pub data RunAnswer : Type 0 where
  ran : RunResult → RunAnswer
  run_refused : Json → RunAnswer
  run_threw : RunAnswer

-- `copy_timers` are the timers that will take the mark of a copy away.
pub record ExpectedQueryPanel : Type 0 where
  pub query : String
  pub running : Bool
  pub result : Option RunResult
  pub copied : Bool
  pub copy_timers : ℕ
  pub toasts : List Toast
  pub runs : ℕ

unfoldable pub handle_run : ExpectedQueryPanel → ExpectedQueryPanel
handle_run s = record s { running = true; runs = suc s.runs }

abbrev pub run_text : Json → String
run_text body = error_message body "Could not run the query"

unfoldable pub run_answered : RunAnswer → ExpectedQueryPanel → ExpectedQueryPanel
unfolding error_message
run_answered (ran r) s = record s { result = some r; running = false }
run_answered (run_refused body) s = record s {
  toasts = failure (refusal_text run_text body) ∷ s.toasts;
  running = false;
}
run_answered run_threw s = record s {
  toasts = failure "Could not reach the server" ∷ s.toasts;
  running = false;
}

-- `handleCopy` by what the clipboard does, and its timer.
unfoldable pub handle_copy : Bool → ExpectedQueryPanel → ExpectedQueryPanel
handle_copy true s = record s { copied = true; copy_timers = suc s.copy_timers }
handle_copy false s = record s { toasts = failure "Could not copy to the clipboard" ∷ s.toasts }

unfoldable pub copy_timer_fires : ExpectedQueryPanel → ExpectedQueryPanel
copy_timer_fires s =
    if nat_eq s.copy_timers 0
    then s
    else record s { copied = false; copy_timers = s.copy_timers - 1 }

pub data Event : Type 0 where
  press_run : Event
  run_ends : RunAnswer → Event
  press_copy : Bool → Event
  timer : Event
  new_query : String → Event

-- The buttons are rendered for a query that is not empty.
unfoldable pub step : Event → ExpectedQueryPanel → ExpectedQueryPanel
unfolding handle_run run_answered handle_copy copy_timer_fires
step press_run s = if truthy s.query && not s.running then handle_run s else s
step (run_ends a) s = if s.running then run_answered a s else s
step (press_copy ok) s = if truthy s.query then handle_copy ok s else s
step timer s = copy_timer_fires s
step (new_query q) s = record s { query = q }

unfoldable pub run : List Event → ExpectedQueryPanel → ExpectedQueryPanel
run [] s = s
run (e ∷ es) s = run es (step e s)

unfoldable pub first_panel : String → ExpectedQueryPanel
first_panel query = record {
  query = query;
  running = false;
  result = none;
  copied = false;
  copy_timers = 0;
  toasts = [];
  runs = 0;
}

-- The panel and the card of the narrative render the button unless the scenario is cancelled.
unfoldable pub can_regenerate : ScenarioStatus → Bool
can_regenerate cancelled = false
can_regenerate status = true

-- `RegenerateButton`: `agreed` is the answer to `window.confirm`, which is asked if there is a text.
unfoldable pub handle_click : Bool → Bool → Poster Unit → Poster Unit
unfolding send
handle_click has_existing agreed s = if has_existing && not agreed then s else send tt s

unfoldable pub click_answered : String → Answer → Poster Unit → Poster Unit
unfolding answered error_message
click_answered noun a s =
    answered ("New " <> (noun <> " generated"))
      (λ body. error_message body ("Could not regenerate the " <> noun)) a s
