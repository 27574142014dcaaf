-- ===== src/Api/Scenario.antt =====
-- The Builder's application's lib/scenario-api.ts, without `listOpenExceptions`.
use meadow_ops.Base.{Option, none, some, ◌++◌, []}
use meadow_ops.Base.Json.{Json}
use meadow_ops.Api.Uri.{Bytes, text, encode}
use meadow_ops.Api.Fetch.{post, patch, Call, call_get, call_post, call_with}

abbrev pub scenario_path : Bytes → Bytes → Bytes
scenario_path id action = text "/api/v1/admin/scenarios/" ++ (encode id ++ action)

-- `statusFilter ? … : ""`; an empty filter is no filter.
abbrev pub status_query : Option Bytes → Bytes
status_query none = []
status_query (some []) = []
status_query (some filter) = text "?status_filter=" ++ encode filter

unfoldable pub list_scenarios : Option Bytes → Call
list_scenarios filter = call_get (text "/api/v1/admin/scenarios" ++ status_query filter)

unfoldable pub get_scenario : Bytes → Call
get_scenario id = call_get (text "/api/v1/admin/scenarios/" ++ encode id)

unfoldable pub create_scenario : Json → Call
create_scenario body = call_with post (text "/api/v1/admin/scenarios") body

unfoldable pub update_ground_truth : Bytes → Json → Call
update_ground_truth id body = call_with patch (scenario_path id (text "/ground-truth")) body

unfoldable pub regenerate_scenario : Bytes → Call
regenerate_scenario id = call_post (scenario_path id (text "/regenerate"))

unfoldable pub regenerate_narrative : Bytes → Call
regenerate_narrative id = call_post (scenario_path id (text "/regenerate-narrative"))

unfoldable pub regenerate_expected_query : Bytes → Call
regenerate_expected_query id = call_post (scenario_path id (text "/regenerate-expected-query"))

unfoldable pub run_expected_query : Bytes → Call
run_expected_query id = call_post (scenario_path id (text "/expected-query/run"))

unfoldable pub approve_scenario : Bytes → Call
approve_scenario id = call_post (scenario_path id (text "/approve"))

unfoldable pub activate_scenario : Bytes → Call
activate_scenario id = call_post (scenario_path id (text "/activate"))

unfoldable pub cancel_scenario : Bytes → Call
cancel_scenario id = call_post (scenario_path id (text "/cancel"))

unfoldable pub get_executive_summary : Call
get_executive_summary = call_get (text "/api/v1/dashboard/executive")

unfoldable pub start_repopulate : Json → Call
start_repopulate body = call_with post (text "/api/v1/admin/simulation/repopulate") body

unfoldable pub get_repopulate_status : Call
get_repopulate_status = call_get (text "/api/v1/admin/simulation/repopulate/status")
