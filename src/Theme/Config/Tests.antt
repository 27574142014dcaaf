-- ===== src/Theme/Config/Tests.antt =====
-- A configuration with an accent and the default font.
use meadow_ops.Base.{◌≡◌, refl, none, some, [], ◌∷◌, ◌++◌, map, join, All}
use meadow_ops.Draft.ListStorage.{lookup as pair_lookup, insert, remove}
use meadow_ops.Theme.{css_var, lookup}
use meadow_ops.Theme.Sheet.{list_style, put}
use meadow_ops.Theme.Exact.{IsAccepted, or_else}
use meadow_ops.Theme.Config.{
  ThemeConfig, Accent, FontOption, Tables, Root, default_config, chosen_accent, chosen_font,
  primary_of, primary_with, stack_of, stack_with, accent_lines, font_lines, opening_lines,
  closing_lines, build_theme_css, apply_accent, apply_font, apply_config, centered,
}
use meadow_ops.Theme.Config.Snippet.{managed, print, styles_of_config, apply_config-build_theme_css}

abbrev blue : Accent
blue = record { key = "blue"; label = "Blue"; swatch = "b"; primary = some "b1"; fg = "b2" }

abbrev geist : FontOption
geist = record { key = "geist"; label = "Geist"; stack = none }

abbrev tables : Tables
tables = record { accents = blue ∷ []; fonts = geist ∷ [] }

abbrev blue_config : ThemeConfig
blue_config = record default_config { accent = "blue" }

abbrev old_root : Root tables list_style
unfolding pair_lookup
old_root = record {
  style = (("--font-sans", "serif") ∷ ("--ring", "red") ∷ [], (refl, (refl, tt)));
  content = centered;
}

neutral_test :
    build_theme_css tables default_config
    ≡ "/* MeadowOps theme — generated by the customizer. */\n:root {\n  --radius: 0.65rem;\n}\n\n/* <Sidebar variant=\"floating\" collapsible=\"icon\" /> */\n/* content layout: full */"
unfolding build_theme_css chosen_accent chosen_font primary_of stack_of stack_with accent_lines
    font_lines join
neutral_test = refl

applied_test : (apply_config tables list_style blue_config old_root).style.0 ≡ (
    ("--ring", "b1")
    ∷ ("--primary", "b1")
    ∷ ("--primary-foreground", "b2")
    ∷ ("--sidebar-primary", "b1")
    ∷ ("--sidebar-ring", "b1")
    ∷ ("--radius", "0.65rem")
    ∷ [])
unfolding apply_config apply_accent apply_font chosen_accent chosen_font primary_of primary_with
    stack_of stack_with put insert remove old_root
applied_test = refl

apply_config-build_theme_css_example :
    (build_theme_css tables blue_config
      ≡ join "\n" (
          opening_lines tables
          ++ (map print (styles_of_config tables blue_config) ++ closing_lines tables blue_config)))
    × All
        (λ j.
          list_style.get_property
            (apply_config tables list_style blue_config old_root).style
            (css_var j)
          ≡ or_else (lookup j (styles_of_config tables blue_config)) "")
        managed
unfolding IsAccepted styles_of_config chosen_accent chosen_font primary_of primary_with stack_of
    stack_with
apply_config-build_theme_css_example =
    apply_config-build_theme_css tables list_style blue_config old_root
      (refl, (refl, (refl, (refl, (refl, (refl, tt))))))
