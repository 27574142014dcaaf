-- ===== src/Theme/Reset.antt =====
-- The reset of hooks/use-theme-manager.ts: its loop over a list that shrinks as it goes.
use meadow_ops.Base.{
  ℕ, zero, suc, ◌<◌, ◌≡◌, ◌≢◌, refl, ◌∙◌, sym, String, true, false, some, List, [], ◌∷◌, ◌==◌,
  eq_iff, if◌then◌else◌, Bool-cases, inl, inr, arith, text_cases,
}
use mathlib.Core.Option.{some-injective}
use text.Mathlib.TextPositions.{starts_with-append}
use native.Mathlib.Decide.{dec_lt}
use meadow_ops.Theme.{
  InlineStyle, is_custom, css_var, all_possible_vars, remove_vars, remove_inline, reset_theme,
}

pub is_custom-css_var : (name : String) → is_custom (css_var name) ≡ true
is_custom-css_var name = starts_with-append "--" name

module _ (w : InlineStyle) where
  open w use {Style, get_property, remove_property, size, item}

  -- No custom property is left and all others are as they were.
  abbrev pub IsReset : Style → Style → Type 0
  IsReset s t = (k : String) → get_property t k ≡ (if is_custom k then "" else get_property s k)

  -- Every custom property that is present has an index below `n`.
  abbrev pub IsCovered : Style → ℕ → Type 0
  IsCovered s n =
      (k : String)
      → is_custom k ≡ true
      → get_property s k ≢ ""
      → (i : ℕ) × (i < n) × (item s i ≡ some k)

  abbrev pub IsFull : Style → ℕ → Type 0
  IsFull s n = (i : ℕ) → i < n → (k : String) × (item s i ≡ some k)

  differ : (a b : String) → (a == b) ≡ false → a ≢ b
  differ a b e same = let h : (a == b) ≡ true = (eq_iff a b).1 same in cc

  nothing_below : {i : ℕ} → ¬ (i < 0)
  nothing_below {i} = omega arith

  absent : (s : Style) (k : String) → is_custom k ≡ true → IsCovered s 0 → get_property s k ≡ ""
  absent s k custom covered = elim (text_cases (get_property s k) "") [
    | inl e ↦ e
    | inr e ↦ let (i, lt, at_i) = covered k custom (differ _ _ e) in elim (nothing_below lt) [ ]
  ]

  last :
      {s : Style} {i n : ℕ} {p k : String}
      → ¬ (i < n)
      → i < suc n
      → item s n ≡ some p
      → item s i ≡ some k
      → p ≡ k
  last {s} {i} {n} above lt at_n at_i =
      let same : i ≡ n = omega arith in
      let at_k : item s n ≡ some _ = rw same at at_i in some-injective _ _ (sym at_n ∙ at_k)

  other_name : (p k : String) → is_custom p ≡ true → is_custom k ≡ false → (p == k) ≡ false
  other_name p k custom other = elim (text_cases p k) [
    | inl same ↦ let h : is_custom k ≡ true = rw same at custom in cc
    | inr e ↦ e
  ]

  -- One removal, of the last index that is left.
  IsCovered-remove :
      (n : ℕ) (s : Style) (p : String)
      → is_custom p ≡ true
      → item s n ≡ some p
      → IsCovered s (suc n)
      → IsCovered (remove_property s p) n
  IsCovered-remove n s p custom at_n covered k k_custom present = elim (Bool-cases (p == k)) [
    | inl same ↦ elim (present (w.get-remove s p k custom ∙ rw same)) [ ]
    | inr other ↦
        let (i, lt, at_i) =
          covered k k_custom (λ e. present (w.get-remove s p k custom ∙ rw (other, e))) in
        elim (dec_lt i n) [
          | yes below ↦ (i, below, w.item-remove s p n i at_n below ∙ at_i)
          | no above ↦ elim (differ p k other (last above lt at_n at_i)) [ ]
        ]
  ]

  IsFull-remove :
      (n : ℕ) (s : Style) (p : String)
      → item s n ≡ some p
      → IsFull s (suc n)
      → IsFull (remove_property s p) n
  IsFull-remove n s p at_n full i lt =
      let (k, at_i) = full i (omega arith) in (k, w.item-remove s p n i at_n lt ∙ at_i)

  IsCovered-skip :
      (n : ℕ) (s : Style) (p : String)
      → is_custom p ≡ false
      → item s n ≡ some p
      → IsCovered s (suc n)
      → IsCovered s n
  IsCovered-skip n s p other at_n covered k custom present =
      let (i, lt, at_i) = covered k custom present in
      elim (dec_lt i n) [
        | yes below ↦ (i, below, at_i)
        | no above ↦
            let same : p ≡ k = last above lt at_n at_i in
            let h : is_custom p ≡ true = rw same custom in cc
      ]

  IsReset-remove :
      (s t : Style) (p : String)
      → is_custom p ≡ true
      → IsReset (remove_property s p) t
      → IsReset s t
  IsReset-remove s t p custom reset k = elim (Bool-cases (is_custom k)) [
    | inl k_custom ↦ reset k ∙ rw k_custom
    | inr other ↦ reset k ∙ rw other (w.get-remove s p k custom ∙ rw (other_name p k custom other))
  ]

  remove_inline-suc :
      (n : ℕ) (s : Style) (p : String)
      → item s n ≡ some p
      → remove_inline w (suc n) s
        ≡ remove_inline w n (if is_custom p then remove_property s p else s)
  unfolding remove_inline
  remove_inline-suc n s p at_n = rw (remove_inline, at_n)

  pub remove_inline-IsReset :
      (n : ℕ) (s : Style)
      → IsCovered s n
      → IsFull s n
      → (t : Style) × (remove_inline w n s ≡ some t) × IsReset s t
  unfolding remove_inline
  remove_inline-IsReset zero s covered full = (
    s,
    refl,
    λ k. elim (Bool-cases (is_custom k)) [
      | inl custom ↦ rw custom (absent s k custom covered)
      | inr other ↦ rw other
    ],
  )
  remove_inline-IsReset (suc n) s covered full =
      let (p, at_n) = full n (omega arith) in
      elim (Bool-cases (is_custom p)) [
        | inl custom ↦
            let (t, ends, reset) =
              remove_inline-IsReset n (remove_property s p)
                (IsCovered-remove n s p custom at_n covered) (IsFull-remove n s p at_n full) in
            (t, remove_inline-suc n s p at_n ∙ rw custom ends, IsReset-remove s t p custom reset)
        | inr other ↦
            let (t, ends, reset) =
              remove_inline-IsReset n s (IsCovered-skip n s p other at_n covered)
                (λ i lt. full i (omega arith)) in
            (t, remove_inline-suc n s p at_n ∙ rw other ends, reset)
      ]

  IsReset-remove_vars :
      (names : List String) (s t : Style) → IsReset (remove_vars w names s) t → IsReset s t
  unfolding remove_vars
  IsReset-remove_vars [] s t reset = reset
  IsReset-remove_vars (name ∷ names) s t reset =
      IsReset-remove s t (css_var name) (is_custom-css_var name)
        (IsReset-remove_vars names (remove_property s (css_var name)) t reset)

  -- Whatever the inline style holds: the reset does not throw, and afterwards every custom property
  -- is absent, listed by name or not, and every other property is as before.
  pub reset_theme-IsReset : (s : Style) → (t : Style) × (reset_theme w s ≡ some t) × IsReset s t
  unfolding reset_theme
  reset_theme-IsReset s =
      let u = remove_vars w all_possible_vars s in
      let (t, ends, reset) = remove_inline-IsReset (size u) u (w.item_present u) (w.item_below u) in
      (t, ends, IsReset-remove_vars all_possible_vars s t reset)
