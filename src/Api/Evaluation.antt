-- ===== src/Api/Evaluation.antt =====
-- The Builder's application's lib/evaluation-api.ts.
use meadow_ops.Base.{◌++◌}
use meadow_ops.Base.Json.{Json}
use meadow_ops.Api.Uri.{Bytes, text, encode}
use meadow_ops.Api.Fetch.{post, Call, call_get, call_with}

unfoldable pub get_evaluation : Bytes → Call
get_evaluation thread_id = call_get (text "/api/v1/evaluations/threads/" ++ encode thread_id)

unfoldable pub get_human_review : Bytes → Call
get_human_review thread_id =
    call_get (text "/api/v1/evaluations/threads/" ++ (encode thread_id ++ text "/human-review"))

unfoldable pub submit_human_review : Bytes → Json → Call
submit_human_review thread_id body =
    call_with post
      (text "/api/v1/evaluations/threads/" ++ (encode thread_id ++ text "/human-review")) body

unfoldable pub get_portfolio_export : Bytes → Call
get_portfolio_export thread_id = call_get (text "/api/v1/portfolio/threads/" ++ encode thread_id)
