-- ===== src/Base/Response.antt =====
-- Answers to `fetch`, and what the handlers read from them.
use Prim.Native.Nat.{ℕ}
use Prim.Native.String.{String}
use mathlib.Core.Bool.{Bool, ◌&&◌}
use mathlib.Core.Option.{Option, none, some}
use meadow_ops.Base.Tests.{leb, ltb}
use meadow_ops.Base.Json.{Json, Fields, str, obj, get}

-- `response.ok`
abbrev pub is_ok : ℕ → Bool
is_ok status = leb 200 status && ltb status 300

-- The answer to a fetch: an exception, or a status with the body, which is a JSON object or no JSON.
pub data Response : Type 0 where
  no_answer : Response
  response : ℕ → Option Fields → Response

abbrev text_detail : Option Json → String → String
text_detail (some (str s)) fallback = s
text_detail _ fallback = fallback

unfoldable pub error_message : Json → String → String
unfolding get
error_message body fallback = text_detail (get "detail" body) fallback

-- `response.json().catch(() => ({}))`
abbrev pub body_or_empty : Option Fields → Json
body_or_empty none = obj Fields.end
body_or_empty (some body) = obj body
