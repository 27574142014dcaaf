-- ===== src/Query/Schema/Browse.antt =====
-- The panel of schema-browser.tsx: loading, filtering and expanding tables, and the diagram's zoom.
use text.Mathlib.Text.{find?}
use meadow_ops.Base.{
  ℕ, suc, ◌+◌, ◌-◌, ◌<◌, ◌≡◌, refl, ap, String, Bool, true, false, not, ◌||◌, ◌&&◌, Option, none,
  some, List, [], ◌∷◌, ◌==◌, eq_iff, text_cases, if◌then◌else◌, nat_eq, leb, any, filter, trim,
  is_some, arith, length, inl, inr,
}
use meadow_ops.Query.Schema.{SchemaColumn, SchemaTable, SandboxSchema}

-- `DIAGRAM_ZOOM_STEPS`, in hundredths.
abbrev pub diagram_zoom_steps : List ℕ
diagram_zoom_steps = 30 ∷ 40 ∷ 50 ∷ 65 ∷ 80 ∷ 100 ∷ []

-- The state of `SchemaBrowser`, with the zoom of the diagram and the number of its latest load; a
-- load that a newer one replaced is cancelled.
pub record Browser : Type 0 where
  pub schema : Option SandboxSchema
  pub load_error : Bool
  pub filter_text : String
  pub expanded : List String
  pub diagram_open : Bool
  pub zoom_index : ℕ
  pub latest_load : ℕ

unfoldable pub reload : Browser → Browser
reload s = record s { latest_load = suc s.latest_load }

abbrev pub show_load : Option SandboxSchema → Browser → Browser
show_load none s = record s { load_error = true }
show_load (some schema) s = record s { schema = some schema; load_error = false }

unfoldable pub loaded : ℕ → Option SandboxSchema → Browser → Browser
loaded load answer s = if nat_eq load s.latest_load then show_load answer s else s

abbrev pub without_name : String → List String → List String
without_name x xs = filter (λ y. not (y == x)) xs

unfoldable pub toggle : String → List String → List String
toggle name current =
    if any (λ y. y == name) current then without_name name current else name ∷ current

unfoldable pub zoom_out : Browser → Browser
zoom_out s = if nat_eq s.zoom_index 0 then s else record s { zoom_index = s.zoom_index - 1 }

abbrev pub at_most : ℕ → ℕ → ℕ
at_most a b = if leb a b then a else b

unfoldable pub zoom_in : Browser → Browser
zoom_in s =
    let last = length diagram_zoom_steps - 1 in
    if nat_eq s.zoom_index last
    then s
    else record s { zoom_index = at_most last (s.zoom_index + 1) }

-- `lower` is `String.prototype.toLowerCase`.
module _ (lower : String → String) where
  abbrev pub includes : String → String → Bool
  includes s needle = is_some (find? s needle)

  unfoldable pub is_visible : String → SchemaTable → Bool
  is_visible filter_text t =
      let needle = lower (trim filter_text) in
      needle == ""
      || (includes t.name needle || any (λ (c : SchemaColumn). includes c.name needle) t.columns)

  unfoldable pub visible_tables : Option SandboxSchema → String → List SchemaTable
  unfolding is_visible
  visible_tables none filter_text = []
  visible_tables (some schema) filter_text = filter (is_visible filter_text) schema.tables

unfoldable pub is_open : Browser → SchemaTable → Bool
is_open s t = any (λ y. y == t.name) s.expanded || not (trim s.filter_text == "")

pub data Event : Type 0 where
  reload_key_changed : Event
  load_answered : ℕ → Option SandboxSchema → Event
  type_filter : String → Event
  press_table : String → Event
  press_zoom_out press_zoom_in : Event
  open_diagram : Bool → Event

unfoldable pub step : Event → Browser → Browser
unfolding reload loaded toggle zoom_out zoom_in
step reload_key_changed s = reload s
step (load_answered load answer) s = loaded load answer s
step (type_filter text) s = record s { filter_text = text }
step (press_table name) s = record s { expanded = toggle name s.expanded }
step press_zoom_out s = zoom_out s
step press_zoom_in s = zoom_in s
-- The diagram is rendered anew, at the default zoom, each time its dialog opens.
step (open_diagram b) s = record s { diagram_open = b; zoom_index = 2 }

unfoldable pub run : List Event → Browser → Browser
run [] s = s
run (e ∷ es) s = run es (step e s)

unfoldable pub initial : Browser
initial = record {
  schema = none;
  load_error = false;
  filter_text = "";
  expanded = [];
  diagram_open = false;
  zoom_index = 2;
  latest_load = 1;
}

step-zoom_index : (e : Event) (s : Browser) → s.zoom_index < 6 → (step e s).zoom_index < 6
unfolding step
step-zoom_index press_zoom_out s h = ground arith
step-zoom_index press_zoom_in s h = ground arith
step-zoom_index (load_answered load none) s h = ground arith
step-zoom_index (load_answered load (some schema)) s h = ground arith
step-zoom_index e s h = ground arith

run-zoom_index : (es : List Event) (s : Browser) → s.zoom_index < 6 → (run es s).zoom_index < 6
unfolding run
run-zoom_index [] s h = h
run-zoom_index (e ∷ es) s h = run-zoom_index es (step e s) (step-zoom_index e s h)

-- The zoom's index stays inside the table of steps, after any events.
pub zoom_index_bound : (es : List Event) → (run es initial).zoom_index < length diagram_zoom_steps
zoom_index_bound es = run-zoom_index es initial (unfold initial in omega arith)

any-without_name :
    (x y : String) (xs : List String)
    → any (λ z. z == y) (without_name x xs) ≡ (any (λ z. z == y) xs && not (x == y))
any-without_name x y [] = refl
any-without_name x y (z ∷ xs) = elim (text_cases z y) [
  | inl same ↦ ground (arith, any-without_name x y xs, eq_iff z y, eq_iff z x, eq_iff x y)
  | inr other ↦ ground (arith, any-without_name x y xs, eq_iff z x, eq_iff x y)
]

-- Pressing a table's name opens it if it was closed and closes it if it was open, and changes no
-- other table.
pub any-toggle :
    (name y : String) (current : List String)
    → any (λ z. z == y) (toggle name current)
      ≡ (if name == y then not (any (λ z. z == y) current) else any (λ z. z == y) current)
unfolding toggle
any-toggle name y current = elim (text_cases name y) [
  | inl same ↦
      let moved = ap (λ x. any (λ z. z == x) current) same in
      ground (arith, any-without_name name y current, eq_iff name y)
  | inr other ↦ ground (arith, any-without_name name y current)
]
