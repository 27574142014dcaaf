-- ===== src/Theme/Customizer.antt =====
-- The customizer of frontend/subsystem_2/shadcn-dashboard/nextjs-version/src
-- (components/theme-customizer/index.tsx and theme-tab.tsx, contexts/sidebar-context.tsx): the
-- selections, the style they lead to and the effect that applies a selection again.
use meadow_ops.Base.{
  String, Bool, true, not, ◌&&◌, Option, none, some, List, [], ◌==◌, is_null, if◌then◌else◌, truthy,
}
use mathlib.Core.Option
use meadow_ops.Theme.{
  InlineStyle, Brands, ColorTheme, ImportedTheme, reset_theme, apply_theme, apply_imported_theme,
  apply_radius, handle_color_change,
}

pub data Variant : Type 0 where
  sidebar : Variant
  floating : Variant
  inset : Variant

pub data Collapsible : Type 0 where
  offcanvas : Collapsible
  icon : Collapsible
  -- The source’s "none".
  unset : Collapsible

pub data Side : Type 0 where
  left : Side
  right : Side

pub record SidebarConfig : Type 0 where
  pub variant : Variant
  pub collapsible : Collapsible
  pub side : Side

abbrev pub initial_sidebar : SidebarConfig
initial_sidebar = record { variant = inset; collapsible = offcanvas; side = left }

-- The lists of config/theme-data.ts.
pub record Catalogue : Type 0 where
  pub color_themes : List ColorTheme
  pub tweakcn_themes : List ColorTheme

module _ (w : InlineStyle) (themes : Catalogue) where
  open w use {Style}

  -- `brands` is the state of the hook in the panel, `tab_brands` that of the hook in the theme tab,
  -- whose pickers show it.
  pub record Panel : Type 0 where
    pub selected_theme : String
    pub selected_tweakcn_theme : String
    pub selected_radius : String
    pub imported_theme : Option ImportedTheme
    pub brands : Brands
    pub tab_brands : Brands
    pub style : Style
    pub is_dark_mode : Bool
    pub sidebar_config : SidebarConfig

  pub data Event : Type 0 where
    selects_theme : String → Event
    selects_tweakcn_theme : String → Event
    selects_radius : String → Event
    changes_color : String → String → Event
    imports : ImportedTheme → Event
    resets : Event
    sets_dark_mode : Bool → Event
    selects_variant : Variant → Event
    selects_collapsible : Collapsible → Event
    selects_side : Side → Event

  unfoldable pub initial_panel : Style → Bool → Panel
  initial_panel s dark = record {
    selected_theme = "default";
    selected_tweakcn_theme = "";
    selected_radius = "0.5rem";
    imported_theme = none;
    brands = [];
    tab_brands = [];
    style = s;
    is_dark_mode = dark;
    sidebar_config = initial_sidebar;
  }

  abbrev pub paint : Panel → Style × Brands → Panel
  paint p (s, brands) = record p { style = s; brands = brands }

  abbrev pub paint_tab : Panel → Style × Brands → Panel
  paint_tab p (s, brands) = record p { style = s; tab_brands = brands }

  -- The handler of the select, which that of the random button is too.
  unfoldable pub handle_theme_select : String → Panel → Option Panel
  handle_theme_select value p =
      Option.map
        (paint_tab
          (record p { selected_theme = value; selected_tweakcn_theme = ""; imported_theme = none }))
        (apply_theme w themes.color_themes value p.is_dark_mode (p.style, []))

  -- The search in `tweakcnThemes` and the guard are those of `applyTheme`.
  unfoldable pub handle_tweakcn_select : String → Panel → Option Panel
  handle_tweakcn_select value p =
      Option.map
        (paint_tab
          (record p { selected_tweakcn_theme = value; selected_theme = ""; imported_theme = none }))
        (apply_theme w themes.tweakcn_themes value p.is_dark_mode (p.style, []))

  unfoldable pub handle_radius_select : String → Panel → Panel
  handle_radius_select radius p = record p {
    selected_radius = radius;
    style = apply_radius w radius p.style;
  }

  unfoldable pub handle_import : ImportedTheme → Panel → Panel
  handle_import theme p =
      paint
        (record p { imported_theme = some theme; selected_theme = ""; selected_tweakcn_theme = "" })
        (apply_imported_theme w theme p.is_dark_mode (p.style, p.brands))

  unfoldable pub handle_reset : Panel → Option Panel
  handle_reset p =
      Option.map
        (λ s. record p {
          selected_theme = "default";
          selected_tweakcn_theme = "";
          selected_radius = "0.5rem";
          imported_theme = none;
          brands = [];
          style = apply_radius w "0.5rem" s;
          sidebar_config = initial_sidebar;
        })
        (reset_theme w p.style)

  -- `updateConfig` with a part of the configuration.
  abbrev pub update_sidebar : Panel → SidebarConfig → Panel
  update_sidebar p config = record p { sidebar_config = config }

  unfoldable pub handle : Event → Panel → Option Panel
  handle (selects_theme value) p = handle_theme_select value p
  handle (selects_tweakcn_theme value) p = handle_tweakcn_select value p
  handle (selects_radius radius) p = some (handle_radius_select radius p)
  handle (changes_color var value) p =
      some (record p { style = handle_color_change w var value p.style })
  handle (imports theme) p = some (handle_import theme p)
  handle resets p = handle_reset p
  handle (sets_dark_mode dark) p = some (record p { is_dark_mode = dark })
  handle (selects_variant v) p = some (update_sidebar p (record p.sidebar_config { variant = v }))
  handle (selects_collapsible c) p =
      some (update_sidebar p (record p.sidebar_config { collapsible = c }))
  handle (selects_side s) p = some (update_sidebar p (record p.sidebar_config { side = s }))

  unfoldable pub reapply_preset : Panel → Option Panel
  reapply_preset p =
      if truthy p.selected_theme
      then Option.map (paint p)
          (apply_theme w themes.color_themes p.selected_theme p.is_dark_mode (p.style, p.brands))
      else if truthy p.selected_tweakcn_theme
      then Option.map (paint p) (
          apply_theme w themes.tweakcn_themes p.selected_tweakcn_theme p.is_dark_mode
            (p.style, p.brands))
      else some p

  unfoldable pub reapply_with : Option ImportedTheme → Panel → Option Panel
  reapply_with (some theme) p =
      some (paint p (apply_imported_theme w theme p.is_dark_mode (p.style, p.brands)))
  reapply_with none p = reapply_preset p

  -- The effect.
  unfoldable pub reapply : Panel → Option Panel
  reapply p = reapply_with p.imported_theme p

  abbrev pub equal_flag : Bool → Bool → Bool
  equal_flag a b = if a then b else not b

  -- The dependencies of the effect. An import puts a new object in place, and nothing else does.
  unfoldable pub has_changed : Event → Panel → Panel → Bool
  has_changed (imports theme) p q = true
  has_changed event p q = not (
      equal_flag p.is_dark_mode q.is_dark_mode
      && equal_flag (is_null p.imported_theme) (is_null q.imported_theme)
      && p.selected_theme == q.selected_theme
      && p.selected_tweakcn_theme == q.selected_tweakcn_theme)

  unfoldable pub react : Event → Panel → Option Panel → Option Panel
  react event p none = none
  react event p (some q) = if has_changed event p q then reapply q else some q

  -- `none` where a handler or the effect throws.
  unfoldable pub step : Event → Panel → Option Panel
  step event p = react event p (handle event p)
