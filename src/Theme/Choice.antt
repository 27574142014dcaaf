-- ===== src/Theme/Choice.antt =====
-- What the customizer of components/theme-customizer/index.tsx has selected and what it shows.
use meadow_ops.Base.{
  ◌≡◌, refl, ◌∙◌, ap, String, Bool, true, false, not, ◌&&◌, Option, none, some, is_some, List, [],
  ◌∷◌, truthy, Bool-cases, Option-cases, All, inl, inr,
}
use mathlib.Core.Option
use meadow_ops.Theme.{
  InlineStyle, Brands, ColorTheme, ImportedTheme, find_theme, apply_theme, apply_tweakcn_theme,
  apply_imported_theme,
}
use meadow_ops.Theme.Reset.{reset_theme-IsReset}
use meadow_ops.Theme.Exact.{apply_theme-found}
use meadow_ops.Theme.Customizer.{
  Catalogue, Panel, Event, selects_theme, selects_tweakcn_theme, selects_radius, changes_color,
  imports, resets, sets_dark_mode, selects_variant, selects_collapsible, selects_side,
  initial_panel, handle_theme_select, handle_tweakcn_select, handle_radius_select, handle_import,
  handle_reset, handle, reapply_preset, reapply_with, reapply, paint, has_changed, react, step,
}

pub map-some {ℓ κ} :
    {A : Type ℓ} {B : Type κ} (f : A → B) {o : Option A} {a : A}
    → o ≡ some a
    → Option.map f o ≡ some (f a)
map-some f e = ap (Option.map f) e

module _ (w : InlineStyle) where
  open w use {Style}

  apply_tweakcn_theme-total :
      (preset : _) (dark : Bool) (painted : Style × Brands)
      → (out : Style × Brands) × (apply_tweakcn_theme w preset dark painted ≡ some out)
  unfolding apply_tweakcn_theme
  apply_tweakcn_theme-total preset dark (s, brands) =
      let (t, ends, _) = reset_theme-IsReset w s in (_, map-some _ ends)

  apply_theme-total :
      (themes : List ColorTheme) (v : String) (dark : Bool) (painted : Style × Brands)
      → (out : Style × Brands) × (apply_theme w themes v dark painted ≡ some out)
  unfolding apply_theme
  apply_theme-total themes v dark painted = elim (Option-cases (find_theme v themes)) [
    | inl missing ↦ (painted, rw (apply_theme, missing))
    | inr (theme, found) ↦
        let (out, ends) = apply_tweakcn_theme-total theme.preset dark painted in
        (out, apply_theme-found w themes v theme dark painted found ∙ ends)
  ]

module _ (w : InlineStyle) (themes : Catalogue) where
  open w use {Style}

  abbrev one_of : Bool → Bool → Bool → Bool
  one_of true b c = not b && not c
  one_of false true c = not c
  one_of false false c = c

  -- Of an imported theme, a preset and a tweakcn preset, exactly one is selected.
  abbrev pub IsOneSource : Panel w themes → Type 0
  IsOneSource p =
      one_of (is_some p.imported_theme) (truthy p.selected_theme) (truthy p.selected_tweakcn_theme)
      ≡ true

  -- The values of the selects are keys that are not empty.
  abbrev pub IsNamed : Event w themes → Type 0
  IsNamed (selects_theme value) = truthy value ≡ true
  IsNamed (selects_tweakcn_theme value) = truthy value ≡ true
  IsNamed event = Unit

  abbrev pub Lands : Option (Panel w themes) → Type 0
  Lands o = (q : Panel w themes) × (o ≡ some q) × IsOneSource q

  handle-IsOneSource :
      (event : Event w themes) (p : Panel w themes)
      → IsNamed event
      → IsOneSource p
      → Lands (handle w themes event p)
  unfolding handle handle_theme_select handle_tweakcn_select handle_radius_select handle_import
      handle_reset
  handle-IsOneSource (selects_theme value) p named one =
      let (out, ends) =
        apply_theme-total w themes.color_themes value p.is_dark_mode (p.style, []) in
      (_, map-some _ ends, rw named refl)
  handle-IsOneSource (selects_tweakcn_theme value) p named one =
      let (out, ends) =
        apply_theme-total w themes.tweakcn_themes value p.is_dark_mode (p.style, []) in
      (_, map-some _ ends, rw named refl)
  handle-IsOneSource resets p named one =
      let (t, ends, _) = reset_theme-IsReset w p.style in (_, map-some _ ends, refl)
  handle-IsOneSource (imports theme) p named one = (_, refl, refl)
  handle-IsOneSource (selects_radius radius) p named one = (_, refl, one)
  handle-IsOneSource (changes_color var value) p named one = (_, refl, one)
  handle-IsOneSource (sets_dark_mode dark) p named one = (_, refl, one)
  handle-IsOneSource (selects_variant v) p named one = (_, refl, one)
  handle-IsOneSource (selects_collapsible c) p named one = (_, refl, one)
  handle-IsOneSource (selects_side s) p named one = (_, refl, one)

  pub reapply-imported :
      (p : Panel w themes) (theme : ImportedTheme)
      → p.imported_theme ≡ some theme
      → reapply w themes p
        ≡ some (paint w themes p (apply_imported_theme w theme p.is_dark_mode (p.style, p.brands)))
  unfolding reapply reapply_with
  reapply-imported p theme e = ap (λ o. reapply_with w themes o p) e

  pub reapply-none :
      (p : Panel w themes)
      → p.imported_theme ≡ none
      → reapply w themes p ≡ reapply_preset w themes p
  unfolding reapply reapply_with
  reapply-none p e = ap (λ o. reapply_with w themes o p) e

  -- What a selection of a preset that is not blank leads to.
  pub reapply_preset-theme :
      (p : Panel w themes) (out : Style × Brands)
      → truthy p.selected_theme ≡ true
      → apply_theme w themes.color_themes p.selected_theme p.is_dark_mode (p.style, p.brands)
        ≡ some out
      → reapply_preset w themes p ≡ some (paint w themes p out)
  unfolding reapply_preset
  reapply_preset-theme p out t ends = rw t (map-some _ ends)

  reapply_preset-tweakcn :
      (p : Panel w themes) (out : Style × Brands)
      → truthy p.selected_theme ≡ false
      → truthy p.selected_tweakcn_theme ≡ true
      → apply_theme w themes.tweakcn_themes p.selected_tweakcn_theme p.is_dark_mode
          (p.style, p.brands)
        ≡ some out
      → reapply_preset w themes p ≡ some (paint w themes p out)
  unfolding reapply_preset
  reapply_preset-tweakcn p out f t ends = rw (f, t) (map-some _ ends)

  reapply_preset-neither :
      (p : Panel w themes)
      → truthy p.selected_theme ≡ false
      → truthy p.selected_tweakcn_theme ≡ false
      → reapply_preset w themes p ≡ some p
  unfolding reapply_preset
  reapply_preset-neither p f g = rw (f, g)

  reapply_preset-IsOneSource :
      (p : Panel w themes) → IsOneSource p → Lands (reapply_preset w themes p)
  reapply_preset-IsOneSource p one = elim (Bool-cases (truthy p.selected_theme)) [
    | inl t ↦
        let (out, ends) =
          apply_theme-total w themes.color_themes p.selected_theme p.is_dark_mode
            (p.style, p.brands) in
        (paint w themes p out, reapply_preset-theme p out t ends, one)
    | inr f ↦ elim (Bool-cases (truthy p.selected_tweakcn_theme)) [
      | inl t ↦
          let (out, ends) =
            apply_theme-total w themes.tweakcn_themes p.selected_tweakcn_theme p.is_dark_mode
              (p.style, p.brands) in
          (paint w themes p out, reapply_preset-tweakcn p out f t ends, one)
      | inr g ↦ (p, reapply_preset-neither p f g, one)
    ]
  ]

  reapply-IsOneSource : (p : Panel w themes) → IsOneSource p → Lands (reapply w themes p)
  reapply-IsOneSource p one = elim (Option-cases p.imported_theme) [
    | inl e ↦
        let (q, ends, kept) = reapply_preset-IsOneSource p one in (q, reapply-none p e ∙ ends, kept)
    | inr (theme, e) ↦ (_, reapply-imported p theme e, one)
  ]

  step-IsOneSource :
      (event : Event w themes) (p : Panel w themes)
      → IsNamed event
      → IsOneSource p
      → Lands (step w themes event p)
  unfolding step react
  step-IsOneSource event p named one =
      let (q, ends, kept) = handle-IsOneSource event p named one in
      elim (Bool-cases (has_changed w themes event p q)) [
        | inl changed ↦
            let (r, settled, still) = reapply-IsOneSource q kept in
            (r, rw (ends, changed) settled, still)
        | inr same ↦ (q, rw (ends, same), kept)
      ]

  unfoldable pub run : List (Event w themes) → Panel w themes → Option (Panel w themes)
  run [] p = some p
  run (event ∷ events) p = elim (step w themes event p) [ none ↦ none | some q ↦ run events q ]

  pub run-cons :
      (event : Event w themes) (events : List (Event w themes)) (p q : Panel w themes)
      → step w themes event p ≡ some q
      → run (event ∷ events) p ≡ run events q
  unfolding run
  run-cons event events p q ends = rw (run, ends)

  run-IsOneSource :
      (events : List (Event w themes)) (p : Panel w themes)
      → All IsNamed events
      → IsOneSource p
      → Lands (run events p)
  unfolding run
  run-IsOneSource [] p named one = (p, refl, one)
  run-IsOneSource (event ∷ events) p (first, named) one =
      let (q, ends, kept) = step-IsOneSource event p first one in
      let (r, settled, still) = run-IsOneSource events q named kept in
      (r, run-cons event events p q ends ∙ settled, still)

  -- From the page's start, with any selections of presets whose keys are not empty, imports, resets,
  -- changes of mode, radius, colour and sidebar: no handler and no run of the effect throws, and
  -- exactly one of an imported theme, a preset and a tweakcn preset is selected.
  pub run-initial_panel-IsOneSource :
      (events : List (Event w themes)) (s : Style) (dark : Bool)
      → All IsNamed events
      → Lands (run events (initial_panel w themes s dark))
  unfolding initial_panel
  run-initial_panel-IsOneSource events s dark named = run-IsOneSource events _ named refl
