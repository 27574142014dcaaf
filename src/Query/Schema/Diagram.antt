-- ===== src/Query/Schema/Diagram.antt =====
-- The diagram's text has the lines that were meant, whatever the schema's names hold.
use Prim.Native.Char.{code}
use meadow_ops.Base.{
  ◌≡◌, refl, ap, ◌∙◌, String, Bool, true, false, ◌||◌, ◌&&◌, List, [], ◌∷◌, map, ◌==◌, eq_iff,
  text_cases, ◌<>◌, any, all, filter, truthy, arith, Bool-cases, inl, inr,
}
use meadow_ops.Base.Lines.{
  one_line, one_line-append, one_line-trim_end, all-append, split_lines, split_lines-join,
}
use meadow_ops.Query.Schema.{
  SchemaColumn, SchemaTable, SchemaRelationship, SandboxSchema, is_identifier, clean, ForeignKeys,
  columns_of, add_column, add_key, foreign_keys, relationship_line, or_unknown, keys_text,
  column_line, is_key, table_lines, all_table_lines, diagram_lines, build_er_diagram,
}

-- The names of the schema, reduced: only letters, digits and underscores.
abbrev pub all_identifier : String → Bool
all_identifier String.[] = true
all_identifier (String.◌∷◌ c s) = is_identifier (code c) && all_identifier s

pub clean-all_identifier : (s : String) → all_identifier (clean s) ≡ true
unfolding clean
clean-all_identifier String.[] = refl
clean-all_identifier (String.◌∷◌ c s) = ground (arith, clean-all_identifier s)

one_line_identifier : (s : String) → all_identifier s ≡ true → one_line s ≡ true
unfolding one_line
one_line_identifier String.[] h = refl
one_line_identifier (String.◌∷◌ c s) h = ground (arith, one_line_identifier s)

one_line-clean : (s : String) → one_line (clean s) ≡ true
one_line-clean s = one_line_identifier (clean s) (clean-all_identifier s)

one_line-relationship_line : (r : SchemaRelationship) → one_line (relationship_line r) ≡ true
unfolding relationship_line one_line
one_line-relationship_line r = search (one_line-append, one_line-clean) depth 12

one_line-or_unknown : (s : String) → one_line (or_unknown (clean s)) ≡ true
one_line-or_unknown s = elim (Bool-cases (truthy (clean s))) [
  | inl some_type ↦ rw some_type (one_line-clean s)
  | inr no_type ↦ rw no_type (unfold one_line in refl)
]

one_line-keys_text : (p f : Bool) → one_line (keys_text p f) ≡ true
unfolding one_line
one_line-keys_text true true = refl
one_line-keys_text false true = refl
one_line-keys_text p f = refl

one_line-column_line : (fks : List String) (c : SchemaColumn) → one_line (column_line fks c) ≡ true
unfolding column_line one_line
one_line-column_line fks c =
    search
      (one_line-trim_end, one_line-append, one_line-clean, one_line-or_unknown, one_line-keys_text)
      depth 12

one_line-columns :
    (fks : List String) (cs : List SchemaColumn)
    → all one_line (map (column_line fks) (filter (is_key fks) cs)) ≡ true
one_line-columns fks [] = refl
one_line-columns fks (c ∷ cs) = elim (Bool-cases (is_key fks c)) [
  | inl key ↦ rw (key, one_line-column_line fks c) (one_line-columns fks cs)
  | inr plain ↦ rw plain (one_line-columns fks cs)
]

one_line-frame : (t : SchemaTable) → one_line ("  " <> (clean t.name <> " {")) ≡ true
unfolding one_line
one_line-frame t = search (one_line-append, one_line-clean) depth 12

one_line-table_lines : (m : ForeignKeys) (t : SchemaTable) → all one_line (table_lines m t) ≡ true
unfolding table_lines
one_line-table_lines m t = rw (one_line-frame t) (
    all-append _ ("  }" ∷ []) (one_line-columns (columns_of t.name m) t.columns)
      (unfold one_line in refl))

one_line-tables :
    (m : ForeignKeys) (ts : List SchemaTable) → all one_line (all_table_lines m ts) ≡ true
unfolding all_table_lines
one_line-tables m [] = refl
one_line-tables m (t ∷ ts) =
    all-append (table_lines m t) _ (one_line-table_lines m t) (one_line-tables m ts)

one_line-relationships :
    (rs : List SchemaRelationship) → all one_line (map relationship_line rs) ≡ true
one_line-relationships [] = refl
one_line-relationships (r ∷ rs) = rw (one_line-relationship_line r) (one_line-relationships rs)

one_line-diagram_lines : (schema : SandboxSchema) → all one_line (diagram_lines schema) ≡ true
unfolding diagram_lines one_line
one_line-diagram_lines schema =
    all-append (map relationship_line schema.relationships) _
      (one_line-relationships schema.relationships)
      (one_line-tables (foreign_keys schema.relationships []) schema.tables)

-- The diagram's text has exactly the lines that were drawn: the header, one line for each
-- relationship and, for each table, its frame and its key columns. No name or type of the schema can
-- add a line, whatever characters it holds.
pub split_lines-build_er_diagram :
    (schema : SandboxSchema) → split_lines (build_er_diagram schema) ≡ diagram_lines schema
unfolding build_er_diagram diagram_lines
split_lines-build_er_diagram schema = split_lines-join _ _ (one_line-diagram_lines schema)

has-add_column :
    (c d : String) (cs : List String)
    → any (λ e. e == c) (add_column d cs) ≡ (any (λ e. e == c) cs || d == c)
has-add_column c d cs = elim (text_cases d c) [
  | inl same ↦ let moved = ap (λ x. any (λ e. e == x) cs) same in ground (arith, eq_iff d c)
  | inr other ↦ ground arith
]

has-add_key :
    (table c t d : String) (m : ForeignKeys)
    → any (λ e. e == c) (columns_of table (add_key t d m))
      ≡ (any (λ e. e == c) (columns_of table m) || (t == table && d == c))
unfolding columns_of add_key
has-add_key table c t d [] = ground (arith, eq_iff t table)
has-add_key table c t d ((u, cs) ∷ m) = ground (
  arith,
  eq_iff t table,
  eq_iff u t,
  eq_iff u table,
  has-add_column c d cs,
  has-add_key table c t d m,
)

any-columns_of :
    (table c : String) (rs : List SchemaRelationship) (m : ForeignKeys)
    → any (λ d. d == c) (columns_of table (foreign_keys rs m)) ≡ (
        any (λ d. d == c) (columns_of table m)
        || any (λ (r : SchemaRelationship). r.from_table == table && r.from_column == c) rs)
unfolding foreign_keys
any-columns_of table c [] m = ground arith
any-columns_of table c (r ∷ rs) m = ground (
  arith,
  any-columns_of table c rs (add_key r.from_table r.from_column m),
  has-add_key table c r.from_table r.from_column m,
)

-- In the diagram a column counts as a foreign key exactly if some relationship of the schema starts
-- from it and its table.
pub foreign_keys-any :
    (table c : String) (rs : List SchemaRelationship)
    → any (λ d. d == c) (columns_of table (foreign_keys rs []))
      ≡ any (λ (r : SchemaRelationship). r.from_table == table && r.from_column == c) rs
foreign_keys-any table c rs = any-columns_of table c rs [] ∙ (unfold columns_of in refl)
