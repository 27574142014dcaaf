-- ===== src/Authoring/Expected/Tests.antt =====
-- The texts of a result.
use meadow_ops.Base.{ℕ, ◌≡◌, refl, String, true, none, some, []}
use meadow_ops.Authoring.Expected.{RunResult, alert_text, summary_text}

abbrev result : RunResult
result = record {
  status = "success";
  columns = [];
  rows = [];
  row_count = 1;
  truncated = true;
  duration_ms = 12;
  error_message = none;
}

abbrev printed : ℕ → String
printed n = "1"

summary_test : summary_text printed result ≡ some "1 row in 1 ms (showing the first rows only)"
unfolding summary_text
summary_test = refl

alert_test : alert_text (record result { status = "timed_out" }) ≡ some "The query timed out."
unfolding alert_text
alert_test = refl
