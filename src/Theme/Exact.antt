-- ===== src/Theme/Exact.antt =====
-- What the functions of hooks/use-theme-manager.ts leave on the root element.
use meadow_ops.Base.{
  ◌≡◌, refl, ◌∙◌, ap, sym, String, Bool, true, false, Option, none, some, List, [], ◌∷◌, ◌==◌,
  eq_iff, text_cases, inl, inr,
}
use text.Mathlib.TextLemmas.{append_cancel_left}
use meadow_ops.Theme.{
  InlineStyle, Styles, Brands, ThemePreset, ColorTheme, ImportedTheme, lookup, css_var, set_all,
  update_brand_colors, styles_of, imported_styles, find_theme, apply_tweakcn_theme, apply_theme,
  apply_imported_theme,
}
use meadow_ops.Theme.Reset.{is_custom-css_var, reset_theme-IsReset}

abbrev pub or_else : Option String → String → String
or_else none old = old
or_else (some v) old = v

-- The keys of an object differ from each other.
unfoldable pub IsDistinct : Styles → Type 0
IsDistinct [] = Unit
IsDistinct ((k, v) ∷ rest) = (lookup k rest ≡ none) × IsDistinct rest

pub css_var-differ : (k j : String) → (k == j) ≡ false → (css_var k == css_var j) ≡ false
css_var-differ k j other = elim (text_cases (css_var k) (css_var j)) [
  | inl same ↦ let h : (k == j) ≡ true = (eq_iff k j).1 (append_cancel_left "--" k j same) in cc
  | inr e ↦ e
]

module _ (w : InlineStyle) where
  open w use {Style, accepts, get_property, set_property}

  unfoldable pub IsAccepted : Styles → Type 0
  IsAccepted [] = Unit
  IsAccepted ((k, v) ∷ rest) = (accepts v ≡ true) × IsAccepted rest

  pub get-set_all :
      (styles : Styles) (s : Style) (j : String)
      → IsDistinct styles
      → IsAccepted styles
      → get_property (set_all w styles s) (css_var j)
        ≡ or_else (lookup j styles) (get_property s (css_var j))
  unfolding set_all lookup IsDistinct IsAccepted
  get-set_all [] s j distinct accepted = refl
  get-set_all ((k, v) ∷ rest) s j (once, distinct) (ok, accepted) =
      let others = get-set_all rest (set_property s (css_var k) v) j distinct accepted in
      elim (text_cases k j) [
        | inl same ↦
            let at_j : lookup j rest ≡ none = rw same at once in
            let hit : (k == j) ≡ true = (eq_iff k j).1 same in
            others ∙ rw (at_j, hit, sym same) (w.get-set s (css_var k) v (is_custom-css_var k) ok)
        | inr other ↦
            others
            ∙ rw other (
                ap (or_else (lookup j rest))
                  (w.get-set_other s _ v _ (is_custom-css_var k) (css_var-differ k j other)))
      ]

  -- The custom properties are those of `styles`, and no other is present.
  abbrev pub IsPainted : Styles → Style → Type 0
  IsPainted styles t = (j : String) → get_property t (css_var j) ≡ or_else (lookup j styles) ""

  pub apply_tweakcn_theme-IsPainted :
      (preset : ThemePreset) (dark : Bool) (s : Style) (brands : Brands)
      → IsDistinct (styles_of preset dark)
      → IsAccepted (styles_of preset dark)
      → (t : Style) × (apply_tweakcn_theme w preset dark (s, brands)
          ≡ some (t, update_brand_colors (styles_of preset dark)))
        × IsPainted (styles_of preset dark) t
  unfolding apply_tweakcn_theme
  apply_tweakcn_theme-IsPainted preset dark s brands distinct accepted =
      let styles = styles_of preset dark in
      let (u, ends, reset) = reset_theme-IsReset w s in
      (
        set_all w styles u,
        rw ends,
        λ j.
            get-set_all styles u j distinct accepted
            ∙ ap (or_else (lookup j styles)) (reset (css_var j) ∙ rw (is_custom-css_var j)),
      )

  pub apply_theme-found :
      (themes : List ColorTheme) (v : String) (theme : ColorTheme) (dark : Bool)
      (painted : Style × Brands)
      → find_theme v themes ≡ some theme
      → apply_theme w themes v dark painted ≡ apply_tweakcn_theme w theme.preset dark painted
  unfolding apply_theme
  apply_theme-found themes v theme dark painted found = rw (apply_theme, found)

  -- An imported theme is laid over what is there.
  pub apply_imported_theme_lem :
      (theme : ImportedTheme) (dark : Bool) (s : Style) (brands : Brands) (j : String)
      → IsDistinct (imported_styles theme dark)
      → IsAccepted (imported_styles theme dark)
      → get_property (apply_imported_theme w theme dark (s, brands)).0 (css_var j)
        ≡ or_else (lookup j (imported_styles theme dark)) (get_property s (css_var j))
  unfolding apply_imported_theme
  apply_imported_theme_lem theme dark s brands j distinct accepted =
      get-set_all (imported_styles theme dark) s j distinct accepted
