-- ===== src/Query/Schema.antt =====
-- The schema browser beside the query playground (orbynadmin, src/components/schema-browser.tsx):
-- the text of the entity diagram, the zoom, and the list of tables.
pub mod Diagram
pub mod Browse
use Prim.Native.Char.{Char, code}
use meadow_ops.Base.{
  ℕ, suc, ◌-◌, String, Bool, true, false, not, ◌||◌, ◌&&◌, Option, none, some, List, [], ◌∷◌, ◌++◌,
  map, ◌==◌, ◌<>◌, if◌then◌else◌, nat_eq, leb, ltb, any, filter, join, trim, trim_end, truthy,
}

pub record SchemaColumn : Type 0 where
  pub name : String
  pub type_name : String
  pub nullable : Bool
  pub is_primary_key : Bool

pub record SchemaTable : Type 0 where
  pub name : String
  pub qualified_name : String
  pub columns : List SchemaColumn

pub record SchemaRelationship : Type 0 where
  pub from_table : String
  pub from_column : String
  pub to_table : String
  pub to_column : String

pub record SandboxSchema : Type 0 where
  pub tables : List SchemaTable
  pub relationships : List SchemaRelationship
  pub sandbox_populated : Option Bool

-- A character that `SAFE_IDENTIFIER` leaves.
abbrev pub is_identifier : ℕ → Bool
is_identifier c =
    (leb 48 c && leb c 57) || (leb 65 c && leb c 90) || (leb 97 c && leb c 122) || nat_eq c 95

-- `clean`: the pattern replaces UTF-16 units, of which a character past 0xffff has two.
unfoldable pub clean : String → String
clean String.[] = ""
clean (String.◌∷◌ c s) =
    let rest = clean s in
    if is_identifier (code c)
    then String.◌∷◌ c rest
    else if ltb 0xffff (code c)
    then String.◌∷◌ "_" (String.◌∷◌ "_" rest)
    else String.◌∷◌ "_" rest

-- A `Map` from tables to the sets of their columns that refer to another table.
abbrev pub ForeignKeys : Type 0
ForeignKeys = List (String × List String)

unfoldable pub columns_of : String → ForeignKeys → List String
columns_of table [] = []
columns_of table ((t, cs) ∷ m) = if t == table then cs else columns_of table m

-- `set.add(column)` on a set as the list of its members.
abbrev pub add_column : String → List String → List String
add_column c cs = if any (λ d. d == c) cs then cs else c ∷ cs

unfoldable pub add_key : String → String → ForeignKeys → ForeignKeys
add_key table c [] = (table, c ∷ []) ∷ []
add_key table c ((t, cs) ∷ m) =
    if t == table then (t, add_column c cs) ∷ m else (t, cs) ∷ add_key table c m

-- The first loop of `buildErDiagram`, from the map that it has so far.
unfoldable pub foreign_keys : List SchemaRelationship → ForeignKeys → ForeignKeys
foreign_keys [] m = m
foreign_keys (r ∷ rs) m = foreign_keys rs (add_key r.from_table r.from_column m)

unfoldable pub relationship_line : SchemaRelationship → String
relationship_line r =
    "  "
    <> (clean r.from_table
        <> (" }o--|| " <> (clean r.to_table <> (" : \"" <> (clean r.from_column <> "\"")))))

-- `type.split("(")[0]`
unfoldable pub before_paren : String → String
before_paren String.[] = ""
before_paren (String.◌∷◌ c s) =
    let rest = before_paren s in if nat_eq (code c) 40 then "" else String.◌∷◌ c rest

abbrev pub or_unknown : String → String
or_unknown s = if truthy s then s else "unknown"

abbrev pub keys_text : Bool → Bool → String
keys_text true true = "PK,FK"
keys_text true false = "PK"
keys_text false true = "FK"
keys_text false false = ""

unfoldable pub column_line : List String → SchemaColumn → String
column_line fks c = trim_end (
    "    "
    <> (or_unknown (clean (trim (before_paren c.type_name)))
        <> (" "
            <> (clean c.name <> (" " <> keys_text c.is_primary_key (any (λ d. d == c.name) fks))))))

abbrev pub is_key : List String → SchemaColumn → Bool
is_key fks c = c.is_primary_key || any (λ d. d == c.name) fks

unfoldable pub table_lines : ForeignKeys → SchemaTable → List String
unfolding columns_of column_line
table_lines m t =
    let fks = columns_of t.name m in
    ("  " <> (clean t.name <> " {"))
    ∷ (map (column_line fks) (filter (is_key fks) t.columns) ++ "  }" ∷ [])

unfoldable pub all_table_lines : ForeignKeys → List SchemaTable → List String
unfolding table_lines
all_table_lines m [] = []
all_table_lines m (t ∷ ts) = table_lines m t ++ all_table_lines m ts

unfoldable pub diagram_lines : SandboxSchema → List String
unfolding foreign_keys relationship_line all_table_lines
diagram_lines schema =
    "erDiagram"
    ∷ (map relationship_line schema.relationships
        ++ all_table_lines (foreign_keys schema.relationships []) schema.tables)

unfoldable pub build_er_diagram : SandboxSchema → String
unfolding diagram_lines
build_er_diagram schema = join "\n" (diagram_lines schema)
