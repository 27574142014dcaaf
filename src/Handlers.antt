-- ===== src/Handlers.antt =====
-- The route handlers under app/api of both applications (src/app/api/**/route.ts): each passes a
-- request of the browser on to one function of the clients (Api) and relays the answer. Here: what they
-- share. Handlers/Orbynadmin and Handlers/Builder have a definition for each handler; the sign-in and
-- the end of a session are in Session. A handler that reads fields of its payload is modelled for
-- payloads with those fields, as the pages send them.
pub mod Relay
pub mod Threads
pub mod Orbynadmin
pub mod Builder
mod Tests
use meadow_ops.Base.{
  ℕ, String, Bool, true, false, not, ◌&&◌, ◌||◌, Option, none, some, [], ◌==◌, ◌<>◌, if◌then◌else◌,
  nat_eq, truthy,
}
use meadow_ops.Base.Json.{Json, null, Fields, field, end, str, obj, get, as_text}
use meadow_ops.Base.Response.{is_ok}
use meadow_ops.Api.Uri.{Bytes}
use meadow_ops.Api.Fetch.{Call, Reply, Request, local, upstream, fetch_with}

-- The backend's answer: the body as JSON, if it is JSON, and as bytes, and three of the headers.
pub record Answer : Type 0 where
  pub status : ℕ
  pub json : Option Json
  pub content : Bytes
  pub content_type : Option String
  pub content_disposition : Option String
  pub content_type_options : Option String

-- The session cookie, the configured URL, and the backend; a call of it may throw.
pub record Server : Type 0 where
  pub cookie : Option String
  pub base_url : Option String
  pub backend : Request → Option Answer

-- What a handler answers; `crashed` where it throws, which Next.js answers with 500.
pub data Outcome : Type 0 where
  json_response : ℕ → Json → Outcome
  no_content : Outcome
  file_response : ℕ → Bytes → Option String → Option String → Option String → Outcome
  crashed : Outcome

-- The answer that a client's function returns.
unfoldable pub answer_to : Server → Reply → Option Answer
answer_to s (local status detail) = some (record {
  status = status;
  json = some (obj (field "detail" (str detail) end));
  content = [];
  content_type = none;
  content_disposition = none;
  content_type_options = none;
})
answer_to s (upstream r) = s.backend r

-- `NextResponse.json(await response.json(), { status: response.status })`
abbrev pub has_no_body : ℕ → Bool
has_no_body status = nat_eq status 204 || (nat_eq status 205 || nat_eq status 304)

-- A response of such a status cannot have a body, and `NextResponse.json` throws.
abbrev pub json_answer : ℕ → Json → Outcome
json_answer status body = if has_no_body status then crashed else json_response status body

abbrev pub json_or_crash : ℕ → Option Json → Outcome
json_or_crash status none = crashed
json_or_crash status (some body) = json_answer status body

unfoldable pub relay : Option Answer → Outcome
relay none = crashed
relay (some a) = json_or_crash a.status a.json

-- The same with `.catch(() => ({}))` on the body.
abbrev pub json_or_empty : ℕ → Option Json → Outcome
json_or_empty status none = json_answer status (obj end)
json_or_empty status (some body) = json_answer status body

unfoldable pub relay_caught : Option Answer → Outcome
relay_caught none = crashed
relay_caught (some a) = json_or_empty a.status a.json

-- With `if (response.status === 204) return new NextResponse(null, { status: 204 })` before it.
unfoldable pub relay_or_empty : Option Answer → Outcome
relay_or_empty none = crashed
relay_or_empty (some a) = if nat_eq a.status 204 then no_content else json_or_crash a.status a.json

unfoldable pub relay_caught_or_empty : Option Answer → Outcome
relay_caught_or_empty none = crashed
relay_caught_or_empty (some a) =
    if nat_eq a.status 204 then no_content else json_or_empty a.status a.json

-- A header that is absent or empty is not set.
abbrev pub header : Option String → Option String
header none = none
header (some v) = if truthy v then some v else none

unfoldable pub relay_file : Option Answer → Outcome
relay_file none = crashed
relay_file (some a) =
    if not (is_ok a.status)
    then json_or_crash a.status a.json
    else file_response a.status a.content (header a.content_type) (header a.content_disposition)
        (header a.content_type_options)

-- `await request.json()`, uncaught.
abbrev pub with_payload {ℓ} : {A : Type ℓ} → Option A → (A → Outcome) → Outcome
with_payload none k = crashed
with_payload (some payload) k = k payload

-- The same caught, with a response that says so.
abbrev pub refuse : String → Outcome
refuse detail = json_response 400 (obj (field "detail" (str detail) end))

abbrev pub payload_or_400 {ℓ} : {A : Type ℓ} → String → Option A → (A → Outcome) → Outcome
payload_or_400 detail none k = refuse detail
payload_or_400 detail (some payload) k = k payload

abbrev pub text_or_400 : Option String → (String → Outcome) → Outcome
text_or_400 none k = refuse "body must be a string"
text_or_400 (some body) k = k body

-- The payload of a draft, with its two checks.
abbrev pub with_draft : Option Json → (String → Outcome) → Outcome
with_draft none k = refuse "Invalid JSON body"
with_draft (some null) k = crashed
with_draft (some payload) k = text_or_400 (as_text (get "body" payload)) k

-- The proxies of the clients, called by a handler.
unfoldable pub call : Bool → Server → Call → Option Answer
unfolding fetch_with answer_to
call json_content s c = answer_to s (fetch_with json_content true s.cookie s.base_url c)
