-- ===== src/Actions.antt =====
-- Buttons that post an action on a record: orbynadmin's decisions (src/components/decision-actions.tsx,
-- propose-decision-dialog.tsx) and the Builder's scenarios (src/app/(dashboard)/scenarios/[id]/
-- components/scenario-actions.tsx). Here: the answers, and the text of an error.
pub mod Panel
pub mod Form
pub mod Decision
pub mod Scenario
mod Tests
use meadow_ops.Base.{String, Bool, Option, none, some, List, [], ◌∷◌, ◌<>◌, map, join}
use meadow_ops.Base.Json.{Json, Items, nil, cons, str, arr, obj, get}

-- The answer to a POST: ok, not ok with its body (`{}` where it is no JSON), and an exception.
pub data Answer : Type 0 where
  accepted : Answer
  refused : Json → Answer
  unreachable : Answer

pub data Toast : Type 0 where
  success : String → Toast
  failure : String → Toast

-- `printed` is how JavaScript prints an element that is no text.
module _ (printed : Json → String) where
  abbrev pub item_text : Json → String
  item_text (str s) = s
  item_text other = printed other

  unfoldable pub item_texts : Items → List String
  item_texts nil = []
  item_texts (cons x xs) = item_text x ∷ item_texts xs

  abbrev pub errors_of : (String → String) → Option Json → String
  errors_of edit (some (arr xs)) = join "; " (map edit (item_texts xs))
  errors_of edit _ = "Request failed"

  abbrev pub detail_text : (String → String) → Option Json → String
  detail_text edit (some (str s)) = s
  detail_text edit (some (obj fields)) = errors_of edit (get "errors" (obj fields))
  detail_text edit _ = "Request failed"

  -- `extractErrorMessage`, with what it does to each error: nothing for a decision.
  unfoldable pub extract_error_message : (String → String) → Json → String
  extract_error_message edit body = detail_text edit (get "detail" body)
