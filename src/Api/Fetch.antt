-- ===== src/Api/Fetch.antt =====
-- `chatFetch`, `ledgerFetch`, `adminFetch`, `dashboardFetch`, `scenarioFetch`, `evaluationFetch`: the
-- one shape of all proxies. A request leaves only with the session token, to the configured backend.
pub mod Guards
use meadow_ops.Base.{
  ℕ, ◌≡◌, refl, String, Bool, true, false, Option, none, some, List, [], ◌∷◌, ◌++◌, if◌then◌else◌,
  truthy, arith, ◌<>◌,
}
use meadow_ops.Base.Json.{Json, str, obj, field, end}
use meadow_ops.Api.Uri.{Bytes, text}

pub data Method : Type 0 where
  get post put patch delete : Method

-- The path and the `init` of a call of the proxy.
pub record Call : Type 0 where
  pub method : Method
  pub path : Bytes
  pub body : Option Json

-- The request that leaves for the backend.
pub record Request : Type 0 where
  pub base_url : String
  pub call : Call
  pub authorization : String
  pub json_content : Bool
  pub no_store : Bool

pub data Reply : Type 0 where
  local : ℕ → String → Reply
  upstream : Request → Reply

-- `chatFetch` and its five like; `json_content` is false for `dashboardFetch`, `getAttachment` and
-- `uploadAttachment`, and `no_store` for `uploadAttachment`.
abbrev pub send : Bool → Bool → Call → String → String → Reply
send json_content no_store call base_url token = upstream (record {
  base_url = base_url;
  call = call;
  authorization = "Bearer " <> token;
  json_content = json_content;
  no_store = no_store;
})

abbrev pub with_token : Option String → (String → Reply) → Reply
with_token none k = local 401 "Not authenticated"
with_token (some token) k = if truthy token then k token else local 401 "Not authenticated"

abbrev pub with_base : Option String → (String → Reply) → Reply
with_base none k = local 500 "Server is not configured"
with_base (some base_url) k =
    if truthy base_url then k base_url else local 500 "Server is not configured"

unfoldable pub fetch_with : Bool → Bool → Option String → Option String → Call → Reply
fetch_with json_content no_store cookie base call =
    with_token cookie (λ token. with_base base (λ url. send json_content no_store call url token))

unfoldable pub chat_fetch : Option String → Option String → Call → Reply
unfolding fetch_with
chat_fetch cookie base call = fetch_with true true cookie base call

unfoldable pub ledger_fetch : Option String → Option String → Call → Reply
unfolding fetch_with
ledger_fetch cookie base call = fetch_with true true cookie base call

unfoldable pub admin_fetch : Option String → Option String → Call → Reply
unfolding fetch_with
admin_fetch cookie base call = fetch_with true true cookie base call

unfoldable pub dashboard_fetch : Option String → Option String → Call → Reply
unfolding fetch_with
dashboard_fetch cookie base call = fetch_with false true cookie base call

unfoldable pub scenario_fetch : Option String → Option String → Call → Reply
unfolding fetch_with
scenario_fetch cookie base call = fetch_with true true cookie base call

unfoldable pub evaluation_fetch : Option String → Option String → Call → Reply
unfolding fetch_with
evaluation_fetch cookie base call = fetch_with true true cookie base call

abbrev pub call_get : Bytes → Call
call_get path = record { method = get; path = path; body = none }

abbrev pub call_post : Bytes → Call
call_post path = record { method = post; path = path; body = none }

abbrev pub call_with : Method → Bytes → Json → Call
call_with method path body = record { method = method; path = path; body = some body }
