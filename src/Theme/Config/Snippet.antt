-- ===== src/Theme/Config/Snippet.antt =====
-- The snippet of buildThemeCss in lib/theme-config.ts and the page of the provider in
-- components/theme-customizer.tsx.
use meadow_ops.Base.{
  ◌≡◌, refl, ◌∙◌, ap, String, Bool, true, false, Option, none, some, List, [], ◌∷◌, ◌++◌, ◌==◌,
  eq_iff, if◌then◌else◌, ◌<>◌, text_cases, map, join, is_null, ◌&&◌, any, All, inl, inr,
}
use meadow_ops.Theme.{InlineStyle, Styles, css_var, lookup, set_all, remove_vars}
use meadow_ops.Theme.Reset.{is_custom-css_var}
use meadow_ops.Theme.Exact.{IsDistinct, IsAccepted, get-set_all, or_else, css_var-differ}
use meadow_ops.Theme.Config.{
  ThemeConfig, Tables, Root, declaration, chosen_accent, chosen_font, accent_lines, font_lines,
  opening_lines, closing_lines, build_theme_css, apply_accent, apply_font, apply_config,
}

if_same {ℓ} : {A : Type ℓ} (b : Bool) (x : A) → (if b then x else x) ≡ x
if_same true x = refl
if_same false x = refl

-- The properties that the provider manages.
abbrev pub accent_names : List String
accent_names = "primary" ∷ "primary-foreground" ∷ "ring" ∷ "sidebar-primary" ∷ "sidebar-ring" ∷ []

abbrev pub managed : List String
managed = "radius" ∷ "font-sans" ∷ accent_names

abbrev accent_styles : Option (String × String) → Styles
accent_styles none = []
accent_styles (some (primary, fg)) =
    ("primary", primary)
    ∷ ("primary-foreground", fg)
    ∷ ("ring", primary)
    ∷ ("sidebar-primary", primary)
    ∷ ("sidebar-ring", primary)
    ∷ []

abbrev font_styles : Option String → Styles
font_styles none = []
font_styles (some stack) = ("font-sans", stack) ∷ []

abbrev pub print : String × String → String
print (name, value) = declaration name value

module _ (tables : Tables) where
  -- The declarations of a configuration.
  unfoldable pub styles_of_config : ThemeConfig → Styles
  styles_of_config config =
      ("radius", config.radius <> "rem")
      ∷ (accent_styles (chosen_accent tables config) ++ font_styles (chosen_font tables config))

  lines_lem :
      (a : Option (String × String)) (f : Option String) (rest : List String)
      → accent_lines tables a ++ (font_lines tables f ++ rest)
        ≡ map print (accent_styles a ++ font_styles f) ++ rest
  unfolding accent_lines font_lines
  lines_lem none none rest = refl
  lines_lem none (some stack) rest = refl
  lines_lem (some (primary, fg)) none rest = refl
  lines_lem (some (primary, fg)) (some stack) rest = refl

  build_theme_css_lem :
      (config : ThemeConfig)
      → build_theme_css tables config
        ≡ join "\n" (
            opening_lines tables
            ++ (map print (styles_of_config config) ++ closing_lines tables config))
  unfolding build_theme_css styles_of_config
  build_theme_css_lem config =
      ap
        (λ ls.
          join "\n" (opening_lines tables ++ (declaration "radius" (config.radius <> "rem") ∷ ls)))
        (lines_lem (chosen_accent tables config) (chosen_font tables config) _)

  module _ (w : InlineStyle) where
    open w use {Style, get_property, set_property, remove_property}

    get-remove_vars :
        (names : List String) (s : Style) (j : String)
        → get_property (remove_vars w names s) (css_var j)
          ≡ (if any (λ n. n == j) names then "" else get_property s (css_var j))
    unfolding remove_vars
    get-remove_vars [] s j = refl
    get-remove_vars (n ∷ names) s j =
        let others = get-remove_vars names (remove_property s (css_var n)) j in
        let removed = w.get-remove s (css_var n) (css_var j) (is_custom-css_var n) in
        elim (text_cases n j) [
          | inl same ↦
              let hit : (n == j) ≡ true = (eq_iff n j).1 same in
              let hit' : (css_var n == css_var j) ≡ true = (eq_iff _ _).1 (ap css_var same) in
              others ∙ rw (removed, hit', hit) (if_same (any (λ n'. n' == j) names) "")
          | inr other ↦ others ∙ rw (removed, css_var-differ n j other, other)
        ]

    apply_accent_lem :
        (a : Option (String × String)) (s : Style) (j : String)
        → IsAccepted w (accent_styles a)
        → get_property (apply_accent tables w a s) (css_var j)
          ≡ or_else (lookup j (accent_styles a)) (
              if is_null a && any (λ n. n == j) accent_names
              then ""
              else get_property s (css_var j))
    unfolding apply_accent remove_vars set_all lookup IsDistinct
    apply_accent_lem none s j h = get-remove_vars accent_names s j
    apply_accent_lem (some (primary, fg)) s j h =
        let distinct : IsDistinct (accent_styles (some (primary, fg))) =
          (refl, (refl, (refl, (refl, (refl, tt))))) in
        get-set_all w (accent_styles (some (primary, fg))) s j distinct h

    apply_font_lem :
        (f : Option String) (s : Style) (j : String)
        → IsAccepted w (font_styles f)
        → get_property (apply_font tables w f s) (css_var j)
          ≡ or_else (lookup j (font_styles f)) (
              if is_null f && any (λ n. n == j) ("font-sans" ∷ [])
              then ""
              else get_property s (css_var j))
    unfolding apply_font remove_vars set_all lookup IsDistinct
    apply_font_lem none s j h = get-remove_vars ("font-sans" ∷ []) s j
    apply_font_lem (some stack) s j h = get-set_all w (font_styles (some stack)) s j (refl, tt) h

    -- What a configuration puts into a property, from what was there.
    abbrev layered : Option (String × String) → Option String → String → String → String → String
    layered a f radius j old = or_else (lookup j (font_styles f)) (
        if is_null f && any (λ n. n == j) ("font-sans" ∷ [])
        then ""
        else or_else (lookup j (("radius", radius) ∷ [])) (
            or_else (lookup j (accent_styles a))
              (if is_null a && any (λ n. n == j) accent_names then "" else old)))

    applied :
        (a : Option (String × String)) (f : Option String) (radius : String) (s : Style)
        (j : String)
        → IsAccepted w (accent_styles a)
        → IsAccepted w (("radius", radius) ∷ [])
        → IsAccepted w (font_styles f)
        → get_property
            (apply_font tables w f (set_property (apply_accent tables w a s) "--radius" radius))
            (css_var j)
          ≡ layered a f radius j (get_property s (css_var j))
    unfolding set_all IsDistinct lookup
    applied a f radius s j ha hr hf =
        apply_font_lem f _ j hf
        ∙ ap
            (λ old.
              or_else (lookup j (font_styles f))
                (if is_null f && any (λ n. n == j) ("font-sans" ∷ []) then "" else old))
            (get-set_all w (("radius", radius) ∷ []) (apply_accent tables w a s) j (refl, tt) hr
              ∙ ap (or_else (lookup j (("radius", radius) ∷ []))) (apply_accent_lem a s j ha))

    each : (P : String → Type 0) → ((j : String) → P j) → All P managed
    each P h = (
      h "radius",
      (
        h "font-sans",
        (
          h "primary",
          (h "primary-foreground", (h "ring", (h "sidebar-primary", (h "sidebar-ring", tt)))),
        ),
      ),
    )

    -- Of the old values nothing is left in the properties that are managed.
    managed_lem :
        (a : Option (String × String)) (f : Option String) (radius : String)
        (now old : String → String)
        → ((j : String) → now j ≡ layered a f radius j (old j))
        → All
            (λ j.
              now j
              ≡ or_else (lookup j (("radius", radius) ∷ (accent_styles a ++ font_styles f))) "")
            managed
    unfolding lookup
    managed_lem none none radius now old e =
        each (λ j. now j ≡ layered none none radius j (old j)) e
    managed_lem none (some stack) radius now old e =
        each (λ j. now j ≡ layered none (some stack) radius j (old j)) e
    managed_lem (some accent) none radius now old e =
        each (λ j. now j ≡ layered (some accent) none radius j (old j)) e
    managed_lem (some accent) (some stack) radius now old e =
        each (λ j. now j ≡ layered (some accent) (some stack) radius j (old j)) e

    IsAccepted-parts :
        (a : Option (String × String)) (f : Option String)
        → IsAccepted w (accent_styles a ++ font_styles f)
        → IsAccepted w (accent_styles a) × IsAccepted w (font_styles f)
    unfolding IsAccepted
    IsAccepted-parts none f h = (tt, h)
    IsAccepted-parts (some accent) f (h1, (h2, (h3, (h4, (h5, rest))))) =
        ((h1, (h2, (h3, (h4, (h5, tt))))), rest)

    -- For a configuration whose values the browser accepts: the copied snippet has one declaration
    -- for each of a list of properties between its fixed lines, and after the effect each property
    -- that the provider manages has its value in that list, or is absent where the list has none,
    -- whatever configuration was applied before.
    pub apply_config-build_theme_css :
        (config : ThemeConfig) (root : Root tables w)
        → IsAccepted w (styles_of_config config)
        → (build_theme_css tables config
            ≡ join "\n" (
                opening_lines tables
                ++ (map print (styles_of_config config) ++ closing_lines tables config)))
          × All
              (λ j.
                get_property (apply_config tables w config root).style (css_var j)
                ≡ or_else (lookup j (styles_of_config config)) "")
              managed
    unfolding styles_of_config apply_config IsAccepted
    apply_config-build_theme_css config root (hr, h) =
        let a = chosen_accent tables config in
        let f = chosen_font tables config in
        let (ha, hf) = IsAccepted-parts a f h in
        (
          build_theme_css_lem config,
          managed_lem a f (config.radius <> "rem") _ (λ j. get_property root.style (css_var j))
              (λ j. applied a f (config.radius <> "rem") root.style j ha (hr, tt) hf),
        )
