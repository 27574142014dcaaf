-- ===== src/Theme/Tests.antt =====
-- A small style, two presets and an imported theme.
use meadow_ops.Base.{◌≡◌, refl, String, true, false, none, some, [], ◌∷◌}
use mathlib.Core.Option
use meadow_ops.Draft.ListStorage.{key_at, remove, lookup as pair_lookup}
use meadow_ops.Theme.{
  Styles, ColorTheme, ImportedTheme, lookup, find_theme, css_var, reset_theme, remove_vars,
  remove_inline, update_brand_colors, brands_among, add_brand,
}
use meadow_ops.Theme.Sheet.{Sheet, list_style}
use meadow_ops.Theme.Reset.{IsReset, reset_theme-IsReset}
use meadow_ops.Theme.Exact.{IsDistinct, IsAccepted, IsPainted, or_else}
use meadow_ops.Theme.Customizer.{
  Catalogue, Panel, initial_panel, step, selects_theme, imports, resets, sets_dark_mode,
}
use meadow_ops.Theme.Choice.{run, Lands, run-initial_panel-IsOneSource}
use meadow_ops.Theme.Shown.{selects_theme-IsPainted, resets-IsPainted, imported_light_stays}

abbrev old_sheet : Sheet
unfolding pair_lookup
old_sheet = (
  ("--x", "1%") ∷ ("color", "red") ∷ ("--y", "2%") ∷ ("--primary", "green") ∷ [],
  (refl, (refl, (refl, (refl, tt)))),
)

-- The names that no list has are gone too, and the property without dashes stays.
reset_test : Option.map (λ s. s.0) (reset_theme list_style old_sheet) ≡ some (("color", "red") ∷ [])
unfolding reset_theme remove_vars remove_inline remove old_sheet key_at
reset_test = refl

reset_theme-IsReset_example :
    (t : Sheet) × (reset_theme list_style old_sheet ≡ some t) × IsReset list_style old_sheet t
reset_theme-IsReset_example = reset_theme-IsReset list_style old_sheet

abbrev default_styles : Styles
default_styles = ("primary", "black") ∷ ("radius", "0.625rem") ∷ []

abbrev default_theme : ColorTheme
default_theme = record {
  name = "Default";
  value = "default";
  preset = record { label = some "Default"; light = default_styles; dark = [] };
}

abbrev blue_theme : ColorTheme
blue_theme = record {
  name = "Blue";
  value = "blue";
  preset = record { label = none; light = ("primary", "blue") ∷ []; dark = [] };
}

abbrev catalogue : Catalogue
catalogue = record { color_themes = default_theme ∷ blue_theme ∷ []; tweakcn_themes = [] }

abbrev imported : ImportedTheme
imported = record { light = ("ring", "pink") ∷ []; dark = ("primary", "navy") ∷ [] }

abbrev first_panel : Panel list_style catalogue
unfolding initial_panel
first_panel = initial_panel list_style catalogue old_sheet false

abbrev blue_panel : Panel list_style catalogue
blue_panel = record first_panel { selected_theme = "blue" }

brands_test : update_brand_colors default_styles ≡ (("--primary", "black") ∷ [])
unfolding update_brand_colors brands_among add_brand lookup
brands_test = refl

run-initial_panel-IsOneSource_example : Lands list_style catalogue (
    run list_style catalogue
      (selects_theme "blue" ∷ imports imported ∷ resets ∷ [])
      (initial_panel list_style catalogue old_sheet false))
run-initial_panel-IsOneSource_example =
    run-initial_panel-IsOneSource list_style catalogue
      (selects_theme "blue" ∷ imports imported ∷ resets ∷ []) old_sheet false (refl, (tt, (tt, tt)))

selects_theme-IsPainted_example :
    (q : Panel list_style catalogue) × (step list_style catalogue
        (selects_theme "default")
        blue_panel
      ≡ some q)
    × IsPainted list_style default_styles q.style
    × (q.tab_brands ≡ update_brand_colors default_styles)
    × (q.selected_radius ≡ "0.5rem")
unfolding find_theme IsDistinct IsAccepted lookup initial_panel
selects_theme-IsPainted_example =
    selects_theme-IsPainted list_style catalogue blue_panel "default" default_theme refl refl
      (refl, (refl, tt)) (refl, (refl, tt))

resets-IsPainted_example :
    (q : Panel list_style catalogue) × (step list_style catalogue resets blue_panel ≡ some q)
    × IsPainted list_style default_styles q.style
    × (q.selected_radius ≡ "0.5rem")
    × (q.tab_brands ≡ [])
unfolding find_theme IsDistinct IsAccepted lookup initial_panel
resets-IsPainted_example =
    resets-IsPainted list_style catalogue blue_panel default_theme refl refl (refl, (refl, tt))
      (refl, (refl, tt))

imported_light_stays_example :
    (q : Panel list_style catalogue) × (run list_style catalogue
        (imports imported ∷ sets_dark_mode true ∷ [])
        first_panel
      ≡ some q)
    × ((j : String)
        → list_style.get_property q.style (css_var j)
          ≡ or_else
              (lookup j imported.dark)
              (or_else (lookup j imported.light) (list_style.get_property old_sheet (css_var j))))
unfolding IsDistinct IsAccepted lookup initial_panel
imported_light_stays_example =
    imported_light_stays list_style catalogue first_panel imported refl (refl, tt) (refl, tt)
      (refl, tt) (refl, tt)
