-- ===== src/Theme.antt =====
-- The theme manager of frontend/subsystem_2/shadcn-dashboard/nextjs-version/src
-- (hooks/use-theme-manager.ts, types/theme-customizer.ts, config/theme-customizer-constants.ts): the
-- custom properties that a theme puts on the document's root element. The element's inline style is
-- the browser's, so it is a parameter; the presets are an argument.
pub mod Customizer
pub mod Config
pub mod Reset
pub mod Exact
mod Choice
mod Shown
mod Sheet
mod Tests
use meadow_ops.Base.{
  ℕ, zero, suc, ◌<◌, ◌≡◌, ◌≢◌, String, Bool, true, false, Option, none, some, List, [], ◌∷◌, ◌==◌,
  if◌then◌else◌, ◌<>◌, truthy, find,
}
use mathlib.Core.Option
use text.Mathlib.Text.{starts_with}

abbrev pub is_custom : String → Bool
is_custom k = starts_with k "--"

-- A `CSSStyleDeclaration`: an ordered list of declarations. A property that is absent reads as the
-- empty text; a value that does not parse is ignored.
pub record InlineStyle : Type 1 where
  pub Style : Type 0
  pub accepts : String → Bool
  pub get_property : Style → String → String
  pub set_property : Style → String → String → Style
  pub remove_property : Style → String → Style
  pub size : Style → ℕ
  pub item : Style → ℕ → Option String
  pub get-set :
      (s : Style) (k v : String)
      → is_custom k ≡ true
      → accepts v ≡ true
      → get_property (set_property s k v) k ≡ v
  pub get-set_other :
      (s : Style) (k v j : String)
      → is_custom k ≡ true
      → (k == j) ≡ false
      → get_property (set_property s k v) j ≡ get_property s j
  pub get-remove :
      (s : Style) (k j : String)
      → is_custom k ≡ true
      → get_property (remove_property s k) j ≡ (if k == j then "" else get_property s j)
  -- Indices below `length` hold a name, and a property that is present has an index.
  pub item_below : (s : Style) (i : ℕ) → i < size s → (k : String) × (item s i ≡ some k)
  pub item_present :
      (s : Style) (k : String)
      → is_custom k ≡ true
      → get_property s k ≢ ""
      → (i : ℕ) × (i < size s) × (item s i ≡ some k)
  -- A removal moves the later declarations only.
  pub item-remove :
      (s : Style) (k : String) (i j : ℕ)
      → item s i ≡ some k
      → j < i
      → item (remove_property s k) j ≡ item s j

-- `Record<string, string>`, in the order of `Object.entries`.
abbrev pub Styles : Type 0
Styles = List (String × String)

-- `styles[key]`
unfoldable pub lookup : String → Styles → Option String
lookup k [] = none
lookup k ((j, v) ∷ m) = if j == k then some v else lookup k m

pub record ThemePreset : Type 0 where
  pub label : Option String
  pub light : Styles
  pub dark : Styles

pub record ColorTheme : Type 0 where
  pub name : String
  pub value : String
  pub preset : ThemePreset

pub record ImportedTheme : Type 0 where
  pub light : Styles
  pub dark : Styles

abbrev pub css_var : String → String
css_var name = "--" <> name

-- The names of `allPossibleVars`.
abbrev pub all_possible_vars : List String
all_possible_vars =
    "background" ∷ "foreground" ∷ "card" ∷ "card-foreground" ∷ "popover" ∷ "popover-foreground"
    ∷ "primary" ∷ "primary-foreground" ∷ "secondary" ∷ "secondary-foreground" ∷ "muted"
    ∷ "muted-foreground" ∷ "accent" ∷ "accent-foreground" ∷ "destructive" ∷ "destructive-foreground"
    ∷ "border" ∷ "input" ∷ "ring" ∷ "radius" ∷ "chart-1" ∷ "chart-2" ∷ "chart-3" ∷ "chart-4"
    ∷ "chart-5" ∷ "sidebar" ∷ "sidebar-background" ∷ "sidebar-foreground" ∷ "sidebar-primary"
    ∷ "sidebar-primary-foreground" ∷ "sidebar-accent" ∷ "sidebar-accent-foreground"
    ∷ "sidebar-border" ∷ "sidebar-ring" ∷ "font-sans" ∷ "font-serif" ∷ "font-mono" ∷ "shadow-2xs"
    ∷ "shadow-xs" ∷ "shadow-sm" ∷ "shadow" ∷ "shadow-md" ∷ "shadow-lg" ∷ "shadow-xl" ∷ "shadow-2xl"
    ∷ "spacing" ∷ "tracking-normal" ∷ "card-header" ∷ "card-content" ∷ "card-footer"
    ∷ "muted-background" ∷ "accent-background" ∷ "destructive-background" ∷ "warning"
    ∷ "warning-foreground" ∷ "success" ∷ "success-foreground" ∷ "info" ∷ "info-foreground" ∷ []

-- The names of `baseColors`, whose `cssVar` is the name behind two dashes.
abbrev pub base_colors : List String
base_colors =
    "primary" ∷ "primary-foreground" ∷ "secondary" ∷ "secondary-foreground" ∷ "accent"
    ∷ "accent-foreground" ∷ "muted" ∷ "muted-foreground" ∷ []

-- The values of the brand colours, by their CSS variable.
abbrev pub Brands : Type 0
Brands = List (String × String)

unfoldable pub add_brand : String → Option String → Brands → Brands
add_brand name none rest = rest
add_brand name (some v) rest = if truthy v then (css_var name, v) ∷ rest else rest

unfoldable pub brands_among : List String → Styles → Brands
brands_among [] styles = []
brands_among (name ∷ names) styles = add_brand name (lookup name styles) (brands_among names styles)

-- `updateBrandColorsFromTheme`
unfoldable pub update_brand_colors : Styles → Brands
update_brand_colors styles = brands_among base_colors styles

abbrev pub styles_of : ThemePreset → Bool → Styles
styles_of preset dark_mode = if dark_mode then preset.dark else preset.light

abbrev pub imported_styles : ImportedTheme → Bool → Styles
imported_styles theme dark_mode = if dark_mode then theme.dark else theme.light

unfoldable pub find_theme : String → List ColorTheme → Option ColorTheme
find_theme v themes = find (λ t. t.value == v) themes

module _ (w : InlineStyle) where
  open w use {Style, set_property, remove_property, size, item}

  unfoldable pub remove_vars : List String → Style → Style
  remove_vars [] s = s
  remove_vars (name ∷ names) s = remove_vars names (remove_property s (css_var name))

  -- The loop from the last index down on the live list, with `n` indices left. An index without a
  -- name would throw.
  unfoldable pub remove_inline : ℕ → Style → Option Style
  remove_inline zero s = some s
  remove_inline (suc n) s = elim (item s n) [
    | none ↦ none
    | some property ↦ remove_inline n (if is_custom property then remove_property s property else s)
  ]

  unfoldable pub reset_theme : Style → Option Style
  reset_theme s = let t = remove_vars all_possible_vars s in remove_inline (size t) t

  unfoldable pub set_all : Styles → Style → Style
  set_all [] s = s
  set_all ((key, value) ∷ rest) s = set_all rest (set_property s (css_var key) value)

  -- `applyTweakcnTheme`, with the brand colours of the hook that applies it.
  unfoldable pub apply_tweakcn_theme : ThemePreset → Bool → Style × Brands → Option (Style × Brands)
  apply_tweakcn_theme preset dark_mode (s, brands) =
      let styles = styles_of preset dark_mode in
      Option.map (λ t. (set_all styles t, update_brand_colors styles)) (reset_theme s)

  unfoldable pub apply_theme :
      List ColorTheme → String → Bool → Style × Brands → Option (Style × Brands)
  apply_theme color_themes theme_value dark_mode painted =
      elim (find_theme theme_value color_themes) [
        | none ↦ some painted
        | some theme ↦ apply_tweakcn_theme theme.preset dark_mode painted
      ]

  -- There is no reset here.
  unfoldable pub apply_imported_theme : ImportedTheme → Bool → Style × Brands → Style × Brands
  apply_imported_theme theme dark_mode (s, brands) =
      let theme_vars = imported_styles theme dark_mode in
      (set_all theme_vars s, update_brand_colors theme_vars)

  unfoldable pub apply_radius : String → Style → Style
  apply_radius radius s = set_property s "--radius" radius

  unfoldable pub handle_color_change : String → String → Style → Style
  handle_color_change var value s = set_property s var value
