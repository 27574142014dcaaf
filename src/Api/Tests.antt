-- ===== src/Api/Tests.antt =====
-- The clients' laws at concrete ids and tokens.
use meadow_ops.Base.{true, not, none, List, filter, [], ◌∷◌, ◌++◌}
use meadow_ops.Base.Json.{obj, end}
use meadow_ops.Api.Uri.{Bytes, text}
use meadow_ops.Api.Fetch.{Request}
use meadow_ops.Api.Chat
use meadow_ops.Api.BuilderChat
use meadow_ops.Api.Ledger.{reject_decision}
use meadow_ops.Api.Dots.{is_dot_segment}
use meadow_ops.Api.Routes.{Payload, call}

-- An id with a slash, a question mark and a byte outside ASCII.
abbrev odd_id : Bytes
odd_id = text "../a?b" ++ 195 ∷ []

abbrev payload : Payload
payload = record { text = ""; choice = none; json = obj end }

-- A parser that takes out every dot segment.
abbrev without_dots : List Bytes → List Bytes
without_dots segs = filter (λ s. not (is_dot_segment s)) segs

abbrev request : Request
request = record {
  base_url = "http://api";
  call = reject_decision odd_id;
  authorization = "Bearer t1";
  json_content = true;
  no_store = true;
}
