-- ===== src/Actions/Scenario.antt =====
-- The Builder's actions on a scenario: src/app/(dashboard)/scenarios/[id]/components/
-- scenario-actions.tsx, with the backend's transitions (backend/app/domain/scenario.py).
pub mod Lifecycle
use meadow_ops.Base.{
  ℕ, zero, suc, String, Bool, true, false, not, ◌&&◌, ◌||◌, Option, none, some, List, [], ◌∷◌, ◌==◌,
  ◌<>◌, if◌then◌else◌, nat_eq, leb, truthy,
}
use Prim.Native.Char.{code}
use text.Mathlib.Text.{starts_with}
use mathlib.Core.Option

pub data ScenarioStatus : Type 0 where
  draft approved active cancelled : ScenarioStatus

pub data Action : Type 0 where
  regenerate approve activate cancel : Action

unfoldable pub action_label : Action → String
action_label regenerate = "Regenerate"
action_label approve = "Approve"
action_label activate = "Activate"
action_label cancel = "Remove"

abbrev pub action_name : Action → String
action_name regenerate = "regenerate"
action_name approve = "approve"
action_name activate = "activate"
action_name cancel = "cancel"

-- `ACTION_CONFIRM`
unfoldable pub needs_confirm : Action → Bool
needs_confirm regenerate = true
needs_confirm cancel = true
needs_confirm _ = false

unfoldable pub available_actions : ScenarioStatus → List Action
available_actions draft = regenerate ∷ approve ∷ cancel ∷ []
available_actions approved = activate ∷ cancel ∷ []
available_actions active = cancel ∷ []
available_actions cancelled = []

unfoldable pub success_text : Action → String
success_text cancel = "Scenario removed (cancelled)"
success_text a = "Scenario " <> (action_name a <> "d")

unfoldable pub ground_truth_field_label : String → Option String
ground_truth_field_label f =
    if f == "known_cause"
    then some "Known cause"
    else if f == "evidence"
    then some "Evidence"
    else if f == "supporting_signals"
    then some "Supporting signals"
    else if f == "distractors"
    then some "Distractors"
    else if f == "expected_considerations"
    then some "Expected considerations"
    else if f == "acceptable_conclusions"
    then some "Acceptable conclusions"
    else if f == "unacceptable_conclusions"
    then some "Unacceptable conclusions"
    else if f == "uncertainty"
    then some "Uncertainty"
    else none

-- `\w`
abbrev pub is_word : ℕ → Bool
is_word c =
    (leb 48 c && leb c 57) || (leb 65 c && leb c 90) || (leb 97 c && leb c 122) || nat_eq c 95

-- What `(\w+)` takes at the front of a text, and what it leaves.
unfoldable pub word_of : String → String
word_of String.[] = ""
word_of (String.◌∷◌ c s) =
    let rest = word_of s in if is_word (code c) then String.◌∷◌ c rest else ""

unfoldable pub after_word : String → String
after_word String.[] = ""
after_word (String.◌∷◌ c s) =
    let rest = after_word s in if is_word (code c) then rest else String.◌∷◌ c s

abbrev pub drop_text : ℕ → String → String
drop_text zero s = s
drop_text (suc n) String.[] = ""
drop_text (suc n) (String.◌∷◌ c s) = drop_text n s

abbrev pub field_prefix : String
field_prefix = "ground_truth."

-- A match of the pattern with the field's label, or as it is where the field has none.
abbrev pub replaced : String → String
replaced field = Option.get_or (ground_truth_field_label field) (field_prefix <> field)

-- `error.replace(/ground_truth\.(\w+)/, …)`: the first match.
unfoldable pub humanize_validation_error : String → String
unfolding word_of after_word ground_truth_field_label
humanize_validation_error String.[] = ""
humanize_validation_error (String.◌∷◌ c s) =
    let rest = humanize_validation_error s in
    let tail = drop_text 13 (String.◌∷◌ c s) in
    if starts_with (String.◌∷◌ c s) field_prefix && truthy (word_of tail)
    then replaced (word_of tail) <> after_word tail
    else String.◌∷◌ c rest

-- `VALID_TRANSITIONS`, by the status that an action asks for; a regeneration keeps a draft a draft.
unfoldable pub can_transition : ScenarioStatus → ScenarioStatus → Bool
can_transition draft approved = true
can_transition draft cancelled = true
can_transition approved active = true
can_transition approved cancelled = true
can_transition active cancelled = true
can_transition _ _ = false

unfoldable pub backend_allows : ScenarioStatus → Action → Bool
unfolding can_transition
backend_allows draft regenerate = true
backend_allows s regenerate = false
backend_allows s approve = can_transition s approved
backend_allows s activate = can_transition s active
backend_allows s cancel = can_transition s cancelled
