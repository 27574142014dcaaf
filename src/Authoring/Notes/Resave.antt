-- ===== src/Authoring/Notes/Resave.antt =====
-- What a save of the ground truth posts is what the form shows again.
use meadow_ops.Base.{
  ◌≡◌, refl, ap, ◌∙◌, String, Bool, true, Option, none, some, List, [], ◌∷◌, map, truthy, trim,
  filter, all, join, Bool-cases, arith, inl, inr, ◌&&◌, ◌==◌, eq_iff,
}
use mathlib.Core.Path.{subst}
use mathlib.Core.Option.{some-injective}
use meadow_ops.Base.Lines.{
  one_line, split_lines, split_lines-join, one_line-split_lines, one_line-trim, trim_idem,
}
use meadow_ops.Authoring.{ScenarioGroundTruth, to_lines, from_lines}
use meadow_ops.Authoring.Notes.{Inputs, inputs_of, update_of, merge, merge_with, merged}

-- A line that `fromLines` keeps as it is.
abbrev pub is_line : String → Bool
is_line l = one_line l && (trim l == l && truthy l)

kept : (ls : List String) → all is_line ls ≡ true → filter truthy (map trim ls) ≡ ls
kept [] h = refl
kept (l ∷ ls) h =
    let same : trim l ≡ l = (eq_iff (trim l) l).0 (ground arith) in
    let rest = kept ls (ground arith) in ground arith

one_line_of_is_line : (ls : List String) → all is_line ls ≡ true → all one_line ls ≡ true
one_line_of_is_line [] h = refl
one_line_of_is_line (l ∷ ls) h = ground (arith, one_line_of_is_line ls)

-- A list of lines survives the text area.
pub from_lines-to_lines : (ls : List String) → all is_line ls ≡ true → from_lines (to_lines ls) ≡ ls
unfolding from_lines to_lines
from_lines-to_lines [] h = unfold join split_lines in refl
from_lines-to_lines (l ∷ ls) h =
    ap (λ xs. filter truthy (map trim xs)) (split_lines-join l ls (one_line_of_is_line (l ∷ ls) h))
    ∙ kept (l ∷ ls) h

is_line-filter :
    (ls : List String) → all one_line ls ≡ true → all is_line (filter truthy (map trim ls)) ≡ true
is_line-filter [] h = refl
is_line-filter (l ∷ ls) h =
    let rest = is_line-filter ls (ground arith) in
    let whole = one_line-trim l (ground arith) in
    let same : (trim (trim l) == trim l) ≡ true =
      (eq_iff (trim (trim l)) (trim l)).1 (trim_idem l) in
    elim (Bool-cases (truthy (trim l))) [ inl text ↦ ground arith | inr blank ↦ ground arith ]

pub is_line-from_lines : (s : String) → all is_line (from_lines s) ≡ true
unfolding from_lines
is_line-from_lines s = is_line-filter (split_lines s) (one_line-split_lines s)

again : (s : String) → from_lines (to_lines (from_lines s)) ≡ from_lines s
again s = from_lines-to_lines (from_lines s) (is_line-from_lines s)

update_of-merged :
    (n q : String) (i : Inputs) (g : ScenarioGroundTruth)
    → update_of (inputs_of (merged n q (update_of i) g))
      ≡ record (update_of i) { narrative = n; expected_query = q }
unfolding update_of inputs_of
update_of-merged n q i g = ground (
  arith,
  again i.supporting_signals,
  again i.distractors,
  again i.expected_considerations,
  again i.acceptable_conclusions,
  again i.unacceptable_conclusions,
)

module _ (normalize_narrative normalize_expected_query : String → Option String) where
  -- What a save with the inputs `i` leads to, when the merged ground truth is saved unchanged.
  abbrev pub IsResaved : Inputs → ScenarioGroundTruth → Type 0
  IsResaved i g' =
      (n : String) × (q : String) × (normalize_narrative i.narrative ≡ some n)
      × (normalize_expected_query i.expected_query ≡ some q)
      × (update_of (inputs_of g') ≡ record (update_of i) { narrative = n; expected_query = q })

  merge_with-IsResaved :
      (n q : Option String) (i : Inputs) (g g' : ScenarioGroundTruth)
      → normalize_narrative i.narrative ≡ n
      → normalize_expected_query i.expected_query ≡ q
      → merge_with normalize_narrative normalize_expected_query n q (update_of i) g ≡ some g'
      → IsResaved i g'
  merge_with-IsResaved none q i g g' en eq e = cc
  merge_with-IsResaved (some n) none i g g' en eq e = cc
  merge_with-IsResaved (some n) (some q) i g g' en eq e =
      subst (IsResaved i) (some-injective _ _ e) (n, q, en, eq, update_of-merged n q i g)

  -- Whatever the inputs hold and however the backend normalises a narrative and a query: if it takes
  -- what a save posts, the form of the merged ground truth, saved unchanged, posts the same body with
  -- the normalised narrative and query; the lines of the five lists come back as they were posted.
  pub update_of-inputs_of :
      (i : Inputs) (g g' : ScenarioGroundTruth)
      → merge normalize_narrative normalize_expected_query (update_of i) g ≡ some g'
      → IsResaved i g'
  unfolding merge update_of
  update_of-inputs_of i g g' e = merge_with-IsResaved _ _ i g g' refl refl e
