-- ===== src/Api/Ledger.antt =====
-- orbynadmin's lib/ledger-api.ts.
use meadow_ops.Base.{String, Option, none, some, ◌++◌, if◌then◌else◌, truthy}
use meadow_ops.Base.Json.{Json, null, str, obj, field, end}
use meadow_ops.Api.Uri.{Bytes, text, encode}
use meadow_ops.Api.Fetch.{post, Call, call_get, call_post, call_with}

abbrev pub decision_path : Bytes → Bytes → Bytes
decision_path decision_id action =
    text "/api/v1/ledger/decisions/" ++ (encode decision_id ++ action)

unfoldable pub list_decisions : Call
list_decisions = call_get (text "/api/v1/ledger/decisions")

unfoldable pub propose_decision : Json → Call
propose_decision body = call_with post (text "/api/v1/ledger/decisions") body

unfoldable pub request_clarification : Bytes → Call
request_clarification id = call_post (decision_path id (text "/request-clarification"))

unfoldable pub resubmit_decision : Bytes → Call
resubmit_decision id = call_post (decision_path id (text "/resubmit"))

-- `approvalAuthority ? { approval_authority: approvalAuthority } : {}`
abbrev pub accept_body : Option String → Json
accept_body none = obj end
accept_body (some authority) =
    if truthy authority then obj (field "approval_authority" (str authority) end) else obj end

unfoldable pub accept_decision : Bytes → Option String → Call
accept_decision id authority =
    call_with post (decision_path id (text "/accept")) (accept_body authority)

unfoldable pub reject_decision : Bytes → Call
reject_decision id = call_post (decision_path id (text "/reject"))

unfoldable pub mark_implemented : Bytes → Call
mark_implemented id = call_post (decision_path id (text "/implement"))

unfoldable pub mark_partially_implemented : Bytes → Call
mark_partially_implemented id = call_post (decision_path id (text "/partially-implement"))

abbrev pub text_or_null : Option String → Json
text_or_null none = null
text_or_null (some s) = str s

unfoldable pub record_outcome : Bytes → String → Option String → Call
record_outcome id outcome notes =
    call_with post (decision_path id (text "/outcome"))
      (obj (field "outcome" (str outcome) (field "notes" (text_or_null notes) end)))
