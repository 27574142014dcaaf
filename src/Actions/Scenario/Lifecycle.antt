-- ===== src/Actions/Scenario/Lifecycle.antt =====
-- What the page offers on a scenario, against what the backend allows, and the text of an error.
use meadow_ops.Base.{
  ℕ, suc, ◌∙◌, ◌≡◌, refl, String, Bool, true, false, not, ◌&&◌, any, All, arith, ◌<>◌, truthy,
}
use meadow_ops.Base.Json.{Json}
use Prim.Native.Char.{code}
use text.Mathlib.Text.{starts_with}
use text.Mathlib.TextLemmas.{nil-append, cons-append}
use text.Mathlib.TextPositions.{starts_with-append}
use meadow_ops.Actions.{extract_error_message}
use meadow_ops.Actions.Panel.{ActionTable}
use meadow_ops.Actions.Scenario.{
  ScenarioStatus, draft, Action, regenerate, approve, activate, cancel, needs_confirm,
  available_actions, success_text, backend_allows, is_word, word_of, after_word, field_prefix,
  replaced, humanize_validation_error, drop_text,
}

unfoldable pub same_action : Action → Action → Bool
same_action regenerate regenerate = true
same_action approve approve = true
same_action activate activate = true
same_action cancel cancel = true
same_action _ _ = false

-- The page offers an action on a scenario exactly in the statuses in which the backend's state
-- machine allows it.
pub offers-allowed :
    (s : ScenarioStatus) (a : Action)
    → any (same_action a) (available_actions s) ≡ backend_allows s a
unfolding same_action available_actions backend_allows
offers-allowed draft a = ground arith
offers-allowed s a = ground arith

pub available-allowed :
    (s : ScenarioStatus) → All (λ a. backend_allows s a ≡ true) (available_actions s)
unfolding available_actions backend_allows
available-allowed draft = ground arith
available-allowed s = ground arith

abbrev pub scenario_table : (Json → String) → ActionTable
scenario_table printed = record {
  Status = ScenarioStatus;
  Action = Action;
  shown = available_actions;
  needs_confirm = needs_confirm;
  success_text = success_text;
  error_text = extract_error_message printed humanize_validation_error;
  allowed = backend_allows;
  shown-allowed = available-allowed;
}

abbrev pub is_field : String → Bool
is_field String.[] = true
is_field (String.◌∷◌ c s) = is_word (code c) && is_field s

-- No letter, digit or underscore at the front.
abbrev pub breaks : String → Bool
breaks String.[] = true
breaks (String.◌∷◌ c s) = not (is_word (code c))

word_of-break : (s : String) → breaks s ≡ true → word_of s ≡ ""
unfolding word_of
word_of-break String.[] h = refl
word_of-break (String.◌∷◌ c s) h = ground arith

after_word-break : (s : String) → breaks s ≡ true → after_word s ≡ s
unfolding after_word
after_word-break String.[] h = refl
after_word-break (String.◌∷◌ c s) h = ground arith

word_of-append : (f s : String) → is_field f ≡ true → breaks s ≡ true → word_of (f <> s) ≡ f
unfolding word_of
word_of-append String.[] s h b = rw (nil-append s) (word_of-break s b)
word_of-append (String.◌∷◌ c f) s h b = rw (cons-append c f s) (ground (arith, word_of-append f s))

after_word-append : (f s : String) → is_field f ≡ true → breaks s ≡ true → after_word (f <> s) ≡ s
unfolding after_word
after_word-append String.[] s h b = rw (nil-append s) (after_word-break s b)
after_word-append (String.◌∷◌ c f) s h b =
    rw (cons-append c f s) (ground (arith, after_word-append f s))

abbrev size : String → ℕ
size String.[] = 0
size (String.◌∷◌ c s) = suc (size s)

drop_text-append : (p x : String) → drop_text (size p) (p <> x) ≡ x
drop_text-append String.[] x = nil-append x
drop_text-append (String.◌∷◌ c p) x = rw (cons-append c p x) (drop_text-append p x)

humanize-match :
    (t : String)
    → starts_with t field_prefix ≡ true
    → truthy (word_of (drop_text 13 t)) ≡ true
    → humanize_validation_error t
      ≡ replaced (word_of (drop_text 13 t)) <> after_word (drop_text 13 t)
unfolding humanize_validation_error
humanize-match String.[] h w = cc
humanize-match (String.◌∷◌ c t) h w = rw (h, w) refl

-- An error that begins with a field of the ground truth, a word that is followed by no further
-- letter, digit or underscore, is shown with the label of the field in its place, if it has one, and
-- what follows as it was.
pub humanize-field :
    (f s : String)
    → is_field f ≡ true
    → truthy f ≡ true
    → breaks s ≡ true
    → humanize_validation_error (field_prefix <> (f <> s)) ≡ replaced f <> s
humanize-field f s h t b =
    let dropped : drop_text 13 (field_prefix <> (f <> s)) ≡ f <> s =
      drop_text-append field_prefix (f <> s) in
    let word = word_of-append f s h b in
    let after = after_word-append f s h b in
    humanize-match (field_prefix <> (f <> s)) (starts_with-append field_prefix (f <> s))
      (rw (dropped, word) t)
    ∙ rw (dropped, word, after) refl
