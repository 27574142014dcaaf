-- ===== src/Chat/Assist/Tests.antt =====
-- The panel run over a list storage: two threads and a suggestion.
use meadow_ops.Base.{ℕ, ◌≡◌, refl, String, none, some, List, [], ◌∷◌, trim}
use meadow_ops.Base.Json.{get, property, as_text}
use meadow_ops.Base.Response.{response}
use meadow_ops.Draft.ListStorage.{Items, list_storage}
use meadow_ops.Chat.Samples.{stock, freight, browser}
use meadow_ops.Chat.Composer.{enter}
use meadow_ops.Chat.Composer.Steps.{initial}
use meadow_ops.Chat.Assist.{
  Assist, Event, show, press_opening, press_send, suggestion, suggested, suggest_failed,
  suggest_result, ai_error_detail, show_thread, ask, step, run, initial_assist,
}
use meadow_ops.Chat.Assist.Suggestions.{suggestion_sent_to_other}

abbrev printed : ℕ → String
printed n = "503"

detail_test : suggest_result printed (response 503 none) ≡ suggest_failed "Request failed (503)"
unfolding suggest_result ai_error_detail get property as_text
detail_test = refl

abbrev events : List Event
events = show (some stock) ∷ press_opening ∷ []

abbrev asking : Assist Items
asking = run list_storage events (initial_assist list_storage browser)

suggestion_sent_to_other_example :
    let s' =
      run list_storage
        (show (some freight) ∷ suggestion (suggested "Please send the counts.") ∷ press_send ∷ [])
        asking in
    (s'.composer.draft ≡ "Please send the counts.")
    × (s'.composer.sends
        ≡ record {
          thread_id = "freight";
          body = trim "Please send the counts.";
          attachment_id = none;
        }
          ∷ [])
unfolding run step initial_assist initial show_thread enter ask trim
suggestion_sent_to_other_example =
    suggestion_sent_to_other list_storage asking stock freight "Please send the counts." refl refl
      refl refl refl refl
