-- ===== src/Theme/Config.antt =====
-- The theme of orbynadmin (frontend/subsystem_1/orbynadmin/src): lib/theme-config.ts and the effect
-- of the provider in components/theme-customizer.tsx that puts a configuration on the page.
mod Snippet
mod Tests
use meadow_ops.Base.{
  String, Bool, true, false, Option, none, some, List, [], ◌∷◌, ◌++◌, ◌==◌, if◌then◌else◌, ◌<>◌,
  truthy, find, join,
}
use meadow_ops.Theme.{InlineStyle}

pub data SidebarVariant : Type 0 where
  inset : SidebarVariant
  sidebar : SidebarVariant
  floating : SidebarVariant

pub data SidebarCollapsible : Type 0 where
  icon : SidebarCollapsible
  offcanvas : SidebarCollapsible

pub data ContentLayout : Type 0 where
  centered : ContentLayout
  full : ContentLayout

-- The radius is kept as the text that a template literal makes of the number.
pub record ThemeConfig : Type 0 where
  pub accent : String
  pub radius : String
  pub font : String
  pub sidebar_variant : SidebarVariant
  pub sidebar_collapsible : SidebarCollapsible
  pub content_layout : ContentLayout

abbrev pub default_config : ThemeConfig
default_config = record {
  accent = "neutral";
  radius = "0.65";
  font = "geist";
  sidebar_variant = floating;
  sidebar_collapsible = icon;
  content_layout = full;
}

pub record Accent : Type 0 where
  pub key : String
  pub label : String
  pub swatch : String
  pub primary : Option String
  pub fg : String

pub record FontOption : Type 0 where
  pub key : String
  pub label : String
  pub stack : Option String

-- The tables of lib/theme-config.ts are an argument.
pub record Tables : Type 0 where
  pub accents : List Accent
  pub fonts : List FontOption

abbrev pub variant_text : SidebarVariant → String
variant_text inset = "inset"
variant_text sidebar = "sidebar"
variant_text floating = "floating"

abbrev pub collapsible_text : SidebarCollapsible → String
collapsible_text icon = "icon"
collapsible_text offcanvas = "offcanvas"

abbrev pub layout_text : ContentLayout → String
layout_text centered = "centered"
layout_text full = "full"

-- `accent?.primary`, with the accent's `fg`.
unfoldable pub primary_with : Option String → String → Option (String × String)
primary_with none fg = none
primary_with (some primary) fg = if truthy primary then some (primary, fg) else none

unfoldable pub primary_of : Option Accent → Option (String × String)
primary_of none = none
primary_of (some accent) = primary_with accent.primary accent.fg

-- `font?.stack`
unfoldable pub stack_with : Option String → Option String
stack_with none = none
stack_with (some stack) = if truthy stack then some stack else none

unfoldable pub stack_of : Option FontOption → Option String
stack_of none = none
stack_of (some font) = stack_with font.stack

abbrev pub declaration : String → String → String
declaration name value = "  --" <> (name <> (": " <> (value <> ";")))

module _ (tables : Tables) where
  unfoldable pub chosen_accent : ThemeConfig → Option (String × String)
  chosen_accent config = primary_of (find (λ a. a.key == config.accent) tables.accents)

  unfoldable pub chosen_font : ThemeConfig → Option String
  chosen_font config = stack_of (find (λ f. f.key == config.font) tables.fonts)

  unfoldable pub accent_lines : Option (String × String) → List String
  accent_lines none = []
  accent_lines (some (primary, fg)) =
      declaration "primary" primary
      ∷ declaration "primary-foreground" fg
      ∷ declaration "ring" primary
      ∷ declaration "sidebar-primary" primary
      ∷ declaration "sidebar-ring" primary
      ∷ []

  unfoldable pub font_lines : Option String → List String
  font_lines none = []
  font_lines (some stack) = declaration "font-sans" stack ∷ []

  -- The lines before and behind the declarations.
  abbrev pub opening_lines : List String
  opening_lines = "/* MeadowOps theme — generated by the customizer. */" ∷ ":root {" ∷ []

  abbrev pub closing_lines : ThemeConfig → List String
  closing_lines config =
      "}"
      ∷ ""
      ∷ ("/* <Sidebar variant=\""
          <> (variant_text config.sidebar_variant
              <> ("\" collapsible=\""
                  <> (collapsible_text config.sidebar_collapsible <> "\" /> */"))))
      ∷ ("/* content layout: " <> (layout_text config.content_layout <> " */"))
      ∷ []

  unfoldable pub build_theme_css : ThemeConfig → String
  build_theme_css config = join "\n" (
      opening_lines
      ++ ((declaration "radius" (config.radius <> "rem") ∷ [])
          ++ (accent_lines (chosen_accent config)
              ++ (font_lines (chosen_font config) ++ closing_lines config))))

module _ (tables : Tables) (w : InlineStyle) where
  open w use {Style, set_property, remove_property}

  -- `document.documentElement` with `dataset.content`.
  pub record Root : Type 0 where
    pub style : Style
    pub content : ContentLayout

  unfoldable pub apply_accent : Option (String × String) → Style → Style
  apply_accent (some (primary, fg)) s0 =
      let s1 = set_property s0 "--primary" primary in
      let s2 = set_property s1 "--primary-foreground" fg in
      let s3 = set_property s2 "--ring" primary in
      let s4 = set_property s3 "--sidebar-primary" primary in
      set_property s4 "--sidebar-ring" primary
  apply_accent none s0 =
      let s1 = remove_property s0 "--primary" in
      let s2 = remove_property s1 "--primary-foreground" in
      let s3 = remove_property s2 "--ring" in
      let s4 = remove_property s3 "--sidebar-primary" in remove_property s4 "--sidebar-ring"

  unfoldable pub apply_font : Option String → Style → Style
  apply_font (some stack) s = set_property s "--font-sans" stack
  apply_font none s = remove_property s "--font-sans"

  -- The effect on the configuration, before it is stored.
  unfoldable pub apply_config : ThemeConfig → Root → Root
  apply_config config root =
      let s = apply_accent (chosen_accent tables config) root.style in
      let t = set_property s "--radius" (config.radius <> "rem") in
      record { style = apply_font (chosen_font tables config) t; content = config.content_layout }
