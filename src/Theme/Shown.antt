-- ===== src/Theme/Shown.antt =====
-- What a choice in components/theme-customizer/theme-tab.tsx and the reset of its index.tsx leave on
-- the page, the run of the effect after them included.
use meadow_ops.Base.{
  ◌≡◌, refl, ◌∙◌, ap, String, Bool, true, false, not, ◌&&◌, Option, none, some, [], ◌∷◌, ◌==◌,
  truthy, Bool-cases, inl, inr,
}
use meadow_ops.Theme.{
  InlineStyle, ImportedTheme, imported_styles, apply_imported_theme, css_var, lookup, Brands,
  ColorTheme, find_theme, styles_of, update_brand_colors, apply_theme, apply_radius,
}
use meadow_ops.Theme.Reset.{reset_theme-IsReset}
use meadow_ops.Theme.Exact.{
  IsDistinct, IsAccepted, IsPainted, or_else, apply_imported_theme_lem,
  apply_tweakcn_theme-IsPainted, apply_theme-found,
}
use meadow_ops.Theme.Customizer.{
  Catalogue, Panel, imports, sets_dark_mode, handle_import, paint, selects_theme, resets,
  handle_theme_select, handle_reset, handle, has_changed, react, step, initial_sidebar,
}
use meadow_ops.Theme.Choice.{run, run-cons, reapply-imported, reapply-none, reapply_preset-theme}

not-and_third : (a b c d : Bool) → c ≡ false → not (a && b && c && d) ≡ true
not-and_third false b c d e = refl
not-and_third true false c d e = refl
not-and_third true true c d e = rw e

module _ (w : InlineStyle) (themes : Catalogue) where
  open w use {Style, get_property}

  -- A preset of the list is applied with exactly its properties, over whatever was there.
  apply_theme-IsPainted :
      (v : String) (theme : ColorTheme) (dark : Bool) (s : Style) (brands : Brands)
      → find_theme v themes.color_themes ≡ some theme
      → IsDistinct (styles_of theme.preset dark)
      → IsAccepted w (styles_of theme.preset dark)
      → (t : Style) × (apply_theme w themes.color_themes v dark (s, brands)
          ≡ some (t, update_brand_colors (styles_of theme.preset dark)))
        × IsPainted w (styles_of theme.preset dark) t
  apply_theme-IsPainted v theme dark s brands found distinct accepted =
      let (t, ends, painted) =
        apply_tweakcn_theme-IsPainted w theme.preset dark s brands distinct accepted in
      (t, apply_theme-found w themes.color_themes v theme dark (s, brands) found ∙ ends, painted)

  -- For a preset of the list, whose key is not empty, whose names are distinct and whose values the
  -- browser accepts: whatever was applied before, its choice leaves exactly the custom properties of
  -- the preset and its brand colours in the tab, while the panel keeps the radius it marks.
  pub selects_theme-IsPainted :
      (p : Panel w themes) (v : String) (theme : ColorTheme)
      → truthy v ≡ true
      → find_theme v themes.color_themes ≡ some theme
      → IsDistinct (styles_of theme.preset p.is_dark_mode)
      → IsAccepted w (styles_of theme.preset p.is_dark_mode)
      → (q : Panel w themes) × (step w themes (selects_theme v) p ≡ some q)
        × IsPainted w (styles_of theme.preset p.is_dark_mode) q.style
        × (q.tab_brands ≡ update_brand_colors (styles_of theme.preset p.is_dark_mode))
        × (q.selected_radius ≡ p.selected_radius)
  unfolding step handle handle_theme_select react
  selects_theme-IsPainted p v theme t found distinct accepted =
      let dark = p.is_dark_mode in
      let (s, ends, painted) =
        apply_theme-IsPainted v theme dark p.style [] found distinct accepted in
      let brands = update_brand_colors (styles_of theme.preset dark) in
      let (s', ends', painted') =
        apply_theme-IsPainted v theme dark s p.brands found distinct accepted in
      let chosen : Panel w themes = record p {
        selected_theme = v;
        selected_tweakcn_theme = "";
        imported_theme = none;
        style = s;
        tab_brands = brands;
      } in
      elim (Bool-cases (has_changed w themes (selects_theme v) p chosen)) [
        | inl changed ↦ (
          record chosen { style = s'; brands = brands },
          rw (ends, changed)
              (reapply-none w themes chosen refl
                ∙ reapply_preset-theme w themes chosen (s', brands) t ends'),
          painted',
          refl,
          refl,
        )
        | inr same ↦ (chosen, rw (ends, same), painted, refl, refl)
      ]

  -- When another preset than "default" was selected and "default" is in the list, with distinct
  -- names and accepted values: after a reset the page has the radius and all other properties of
  -- "default", while the panel marks 0.5rem, and the tab keeps the brand colours it had.
  pub resets-IsPainted :
      (p : Panel w themes) (theme : ColorTheme)
      → (p.selected_theme == "default") ≡ false
      → find_theme "default" themes.color_themes ≡ some theme
      → IsDistinct (styles_of theme.preset p.is_dark_mode)
      → IsAccepted w (styles_of theme.preset p.is_dark_mode)
      → (q : Panel w themes) × (step w themes resets p ≡ some q)
        × IsPainted w (styles_of theme.preset p.is_dark_mode) q.style
        × (q.selected_radius ≡ "0.5rem")
        × (q.tab_brands ≡ p.tab_brands)
  unfolding step handle handle_reset react has_changed
  resets-IsPainted p theme other found distinct accepted =
      let dark = p.is_dark_mode in
      let (s, ends, _) = reset_theme-IsReset w p.style in
      let u = apply_radius w "0.5rem" s in
      let (t, ends', painted) =
        apply_theme-IsPainted "default" theme dark u [] found distinct accepted in
      let brands = update_brand_colors (styles_of theme.preset dark) in
      let cleared : Panel w themes = record p {
        selected_theme = "default";
        selected_tweakcn_theme = "";
        selected_radius = "0.5rem";
        imported_theme = none;
        brands = [];
        style = u;
        sidebar_config = initial_sidebar;
      } in
      (
        record cleared { style = t; brands = brands },
        rw (ends, not-and_third _ _ _ _ other)
            (reapply-none w themes cleared refl
              ∙ reapply_preset-theme w themes cleared (t, brands) refl ends'),
        painted,
        refl,
        refl,
      )

  or_else-twice : (o : Option String) (old : String) → or_else o (or_else o old) ≡ or_else o old
  or_else-twice none old = refl
  or_else-twice (some v) old = refl

  -- An import, and the effect after it.
  imports_lem :
      (p : Panel w themes) (theme : ImportedTheme)
      → IsDistinct (imported_styles theme p.is_dark_mode)
      → IsAccepted w (imported_styles theme p.is_dark_mode)
      → (q : Panel w themes) × (step w themes (imports theme) p ≡ some q)
        × ((j : String)
            → get_property q.style (css_var j)
              ≡ or_else
                  (lookup j (imported_styles theme p.is_dark_mode))
                  (get_property p.style (css_var j)))
        × (q.imported_theme ≡ some theme)
        × (q.is_dark_mode ≡ p.is_dark_mode)
  unfolding step handle handle_import react has_changed
  imports_lem p theme distinct accepted =
      let q = handle_import w themes theme p in
      let styles = imported_styles theme p.is_dark_mode in
      let lay = apply_imported_theme_lem w theme p.is_dark_mode in
      (
        paint w themes q (apply_imported_theme w theme p.is_dark_mode (q.style, q.brands)),
        reapply-imported w themes q theme refl,
        λ j.
            lay q.style q.brands j distinct accepted
            ∙ ap (or_else (lookup j styles)) (lay p.style p.brands j distinct accepted)
            ∙ or_else-twice (lookup j styles) (get_property p.style (css_var j)),
        refl,
        refl,
      )

  -- The mode changes while an imported theme is selected.
  sets_dark_mode_lem :
      (p : Panel w themes) (theme : ImportedTheme)
      → p.imported_theme ≡ some theme
      → p.is_dark_mode ≡ false
      → IsDistinct theme.dark
      → IsAccepted w theme.dark
      → (q : Panel w themes) × (step w themes (sets_dark_mode true) p ≡ some q)
        × ((j : String)
            → get_property q.style (css_var j)
              ≡ or_else (lookup j theme.dark) (get_property p.style (css_var j)))
  unfolding step handle react has_changed
  sets_dark_mode_lem p theme imported light distinct accepted =
      let q : Panel w themes = record p { is_dark_mode = true } in
      (
        paint w themes q (apply_imported_theme w theme true (p.style, p.brands)),
        rw light (reapply-imported w themes q theme imported),
        λ j. apply_imported_theme_lem w theme true p.style p.brands j distinct accepted,
      )

  -- In light mode, for an imported theme whose names are distinct in each part and whose values the
  -- browser accepts: after the import and the change to dark mode, each custom property has its dark
  -- value, where there is none its light value, and where there is none either the value from before
  -- the import.
  pub imported_light_stays :
      (p : Panel w themes) (theme : ImportedTheme)
      → p.is_dark_mode ≡ false
      → IsDistinct theme.light
      → IsAccepted w theme.light
      → IsDistinct theme.dark
      → IsAccepted w theme.dark
      → (q : Panel w themes) × (run w themes (imports theme ∷ sets_dark_mode true ∷ []) p ≡ some q)
        × ((j : String)
            → get_property q.style (css_var j)
              ≡ or_else
                  (lookup j theme.dark)
                  (or_else (lookup j theme.light) (get_property p.style (css_var j))))
  unfolding run
  imported_light_stays p theme light distinct accepted distinct' accepted' =
      let shown : imported_styles theme p.is_dark_mode ≡ theme.light =
        ap (imported_styles theme) light in
      let (q, ends, laid, imported, mode) =
        imports_lem p theme (rw shown distinct) (rw shown accepted) in
      let (r, ends', laid') =
        sets_dark_mode_lem q theme imported (mode ∙ light) distinct' accepted' in
      (
        r,
        run-cons w themes _ (sets_dark_mode true ∷ []) p q ends ∙ run-cons w themes _ [] q r ends',
        λ j.
            laid' j
            ∙ ap (or_else (lookup j theme.dark)) (laid j)
            ∙ ap
                (λ s.
                  or_else (lookup j theme.dark)
                    (or_else (lookup j s) (get_property p.style (css_var j))))
                shown,
      )
