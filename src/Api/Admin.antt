-- ===== src/Api/Admin.antt =====
-- orbynadmin's lib/admin-api.ts. An entity is one of the fixed path segments of its callers.
use meadow_ops.Base.{String, Bool, ◌++◌}
use meadow_ops.Base.Json.{Json, bool, str, obj, field, end}
use meadow_ops.Api.Uri.{Bytes, text, encode}
use meadow_ops.Api.Fetch.{post, patch, Call, call_get, call_post, call_with}

unfoldable pub list_master_data : Bytes → Call
list_master_data entity = call_get (text "/api/v1/admin/" ++ entity)

unfoldable pub create_master_data : Bytes → Json → Call
create_master_data entity body = call_with post (text "/api/v1/admin/" ++ entity) body

unfoldable pub update_master_data : Bytes → Bytes → Json → Call
update_master_data entity id body =
    call_with patch (text "/api/v1/admin/" ++ (entity ++ (text "/" ++ encode id))) body

unfoldable pub execute_query : String → Bool → Call
execute_query sql confirmed =
    call_with post (text "/api/v1/query/execute")
      (obj (field "sql" (str sql) (field "confirmed" (bool confirmed) end)))

unfoldable pub cancel_query_confirmation : String → Call
cancel_query_confirmation sql =
    call_with post (text "/api/v1/query/cancel-confirmation") (obj (field "sql" (str sql) end))

unfoldable pub refresh_sandbox : Call
refresh_sandbox = call_post (text "/api/v1/query/refresh-sandbox")

unfoldable pub get_sandbox_schema : Call
get_sandbox_schema = call_get (text "/api/v1/query/schema")

unfoldable pub get_query_history : Call
get_query_history = call_get (text "/api/v1/query/history")
