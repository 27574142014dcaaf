-- ===== src/Base/Lines.antt =====
-- The lines of a text: `String.prototype.split` at line feeds, and what `join` and `trim` do to them.
use Prim.Native.Char.{Char, code}
use Prim.Native.String.{String}
use mathlib.Core.Path.{◌≡◌, refl, ap, ◌∙◌}
use mathlib.Core.Logic.{inl, inr}
use mathlib.Core.Bool.{Bool, true, false, not, ◌&&◌}
use mathlib.Core.List.{List, [], ◌∷◌, ◌++◌}
use native.Mathlib.Omega.{arith}
use text.Mathlib.Text.{◌==◌}
use text.Mathlib.TextLemmas.{nil-append, cons-append}
use meadow_ops.Base.Tests.{nat_eq, if◌then◌else◌, ◌<>◌, Bool-cases}
use meadow_ops.Base.Lists.{all, join}
use meadow_ops.Base.Text.{is_space, trim_start, trim_end, trim}

-- A text without a line feed.
unfoldable pub one_line : String → Bool
one_line String.[] = true
one_line (String.◌∷◌ c s) = not (nat_eq (code c) 10) && one_line s

pub one_line-append :
    (s t : String) → one_line s ≡ true → one_line t ≡ true → one_line (s <> t) ≡ true
unfolding one_line
one_line-append String.[] t h k = rw (nil-append t) k
one_line-append (String.◌∷◌ c s) t h k =
    rw (cons-append c s t) (ground (arith, one_line-append s t))

pub one_line-trim_end : (s : String) → one_line s ≡ true → one_line (trim_end s) ≡ true
unfolding one_line trim_end
one_line-trim_end String.[] h = refl
one_line-trim_end (String.◌∷◌ c s) h = elim (Bool-cases (is_space (code c) && trim_end s == "")) [
  | inl blank ↦ rw blank refl
  | inr kept ↦ rw kept (ground (arith, one_line-trim_end s))
]

pub all-append :
    (xs ys : List String)
    → all one_line xs ≡ true
    → all one_line ys ≡ true
    → all one_line (xs ++ ys) ≡ true
all-append [] ys h k = k
all-append (x ∷ xs) ys h k = ground (arith, all-append xs ys)

-- The lines of a text.
abbrev pub push_first : Char → List String → List String
push_first c [] = String.◌∷◌ c "" ∷ []
push_first c (l ∷ ls) = String.◌∷◌ c l ∷ ls

unfoldable pub split_lines : String → List String
split_lines String.[] = "" ∷ []
split_lines (String.◌∷◌ c s) =
    let rest = split_lines s in if nat_eq (code c) 10 then "" ∷ rest else push_first c rest

pub split_lines_one : (x : String) → one_line x ≡ true → split_lines x ≡ x ∷ []
unfolding split_lines one_line
split_lines_one String.[] h = refl
split_lines_one (String.◌∷◌ c x) h = ground (arith, split_lines_one x)

pub split_lines-sep :
    (x : String) (c : Char) (s : String)
    → code c ≡ 10
    → one_line x ≡ true
    → split_lines (x <> (String.◌∷◌ c "" <> s)) ≡ x ∷ split_lines s
unfolding split_lines one_line
split_lines-sep String.[] c s feed h =
    rw (nil-append (String.◌∷◌ c "" <> s), cons-append c "" s, nil-append s) (ground arith)
split_lines-sep (String.◌∷◌ d x) c s feed h =
    rw (cons-append d x (String.◌∷◌ c "" <> s)) (ground (arith, split_lines-sep x c s feed))

pub split_lines-join :
    (l : String) (ls : List String)
    → all one_line (l ∷ ls) ≡ true
    → split_lines (join "\n" (l ∷ ls)) ≡ l ∷ ls
unfolding join
split_lines-join l [] h = split_lines_one l (ground arith)
split_lines-join l (k ∷ ls) h =
    split_lines-sep l "\n" (join "\n" (k ∷ ls)) refl (ground arith)
    ∙ ap (λ rest. l ∷ rest) (split_lines-join k ls (ground arith))

-- A text that does not start with white space.
abbrev starts_clean : String → Bool
starts_clean String.[] = true
starts_clean (String.◌∷◌ c s) = not (is_space (code c))

starts_clean-trim_start : (s : String) → starts_clean (trim_start s) ≡ true
unfolding trim_start
starts_clean-trim_start String.[] = refl
starts_clean-trim_start (String.◌∷◌ c s) = ground (arith, starts_clean-trim_start s)

trim_start-clean : (s : String) → starts_clean s ≡ true → trim_start s ≡ s
unfolding trim_start
trim_start-clean String.[] h = refl
trim_start-clean (String.◌∷◌ c s) h = ground arith

starts_clean-trim_end : (s : String) → starts_clean s ≡ true → starts_clean (trim_end s) ≡ true
unfolding trim_end
starts_clean-trim_end String.[] h = refl
starts_clean-trim_end (String.◌∷◌ c s) h = ground arith

trim_end_idem : (s : String) → trim_end (trim_end s) ≡ trim_end s
unfolding trim_end
trim_end_idem String.[] = refl
trim_end_idem (String.◌∷◌ c s) = elim (Bool-cases (is_space (code c) && trim_end s == "")) [
  | inl blank ↦ rw blank refl
  | inr kept ↦ rw kept (ground (arith, trim_end_idem s))
]

-- Trimming twice is trimming once.
pub trim_idem : (s : String) → trim (trim s) ≡ trim s
unfolding trim
trim_idem s =
    let clean = starts_clean-trim_end (trim_start s) (starts_clean-trim_start s) in
    rw (trim_start-clean (trim_end (trim_start s)) clean) (trim_end_idem (trim_start s))

one_line-trim_start : (s : String) → one_line s ≡ true → one_line (trim_start s) ≡ true
unfolding one_line trim_start
one_line-trim_start String.[] h = refl
one_line-trim_start (String.◌∷◌ c s) h = ground (arith, one_line-trim_start s)

pub one_line-trim : (s : String) → one_line s ≡ true → one_line (trim s) ≡ true
unfolding trim
one_line-trim s h = one_line-trim_end (trim_start s) (one_line-trim_start s h)

one_line-push_first :
    (c : Char) (ls : List String)
    → nat_eq (code c) 10 ≡ false
    → all one_line ls ≡ true
    → all one_line (push_first c ls) ≡ true
unfolding one_line
one_line-push_first c [] h k = ground arith
one_line-push_first c (l ∷ ls) h k = ground arith

-- No line has a line feed.
pub one_line-split_lines : (s : String) → all one_line (split_lines s) ≡ true
unfolding split_lines one_line
one_line-split_lines String.[] = refl
one_line-split_lines (String.◌∷◌ c s) = elim (Bool-cases (nat_eq (code c) 10)) [
  | inl feed ↦ rw feed (one_line-split_lines s)
  | inr other ↦ rw other (one_line-push_first c (split_lines s) other (one_line-split_lines s))
]
