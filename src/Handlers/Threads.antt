-- ===== src/Handlers/Threads.antt =====
-- `listThreadsForScenario` of the Builder's src/lib/chat-api.ts, on the answer to `listThreads`.
use mathlib.Core.Option
use meadow_ops.Base.{String, Bool, true, false, not, Option, none, some, [], names, if◌then◌else◌}
use meadow_ops.Base.Json.{Json, null, arr, Items, nil, cons, get, as_text}
use meadow_ops.Base.Response.{is_ok}
use meadow_ops.Handlers.{Answer}

-- `threads.filter((t) => t.scenario_id === scenarioId)`, which throws on a `null` in the list.
abbrev pub keep_if : Bool → Json → Items → Items
keep_if true t items = cons t items
keep_if false t items = items

unfoldable pub threads_of : String → Items → Option Items
threads_of scenario_id nil = some nil
threads_of scenario_id (cons null items) = none
threads_of scenario_id (cons t items) =
    Option.map (keep_if (names (as_text (get "scenario_id" t)) scenario_id) t)
      (threads_of scenario_id items)

-- `Response.json`
abbrev pub fresh_answer : Items → Answer
fresh_answer items = record {
  status = 200;
  json = some (arr items);
  content = [];
  content_type = some "application/json";
  content_disposition = none;
  content_type_options = none;
}

-- A body that is no list has no `filter`.
abbrev pub filtered_answer : String → Option Json → Option Answer
filtered_answer scenario_id (some (arr items)) =
    Option.map fresh_answer (threads_of scenario_id items)
filtered_answer scenario_id _ = none

unfoldable pub list_threads_for_scenario : String → Option Answer → Option Answer
list_threads_for_scenario scenario_id none = none
list_threads_for_scenario scenario_id (some a) =
    if not (is_ok a.status) then some a else filtered_answer scenario_id a.json
