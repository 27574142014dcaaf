-- ===== src/Query/Tests.antt =====
-- The query playground on short runs.
use meadow_ops.Base.{
  join, trim, trim_start, trim_end, is_space, none, ◌≡◌, ◌≤◌, refl, true, false, some, List, [],
  ◌∷◌,
}
use meadow_ops.Query.{
  StatementPreview, Playground, Event, edit, press_run, answer, confirm, confirmation_required,
  step, run, initial,
}
use meadow_ops.Query.Safety.{
  confirmed_count, prompts, reviewed, edits_while_running, confirmed_by_prompts,
  confirmed_as_reviewed, confirms_unreviewed,
}
use meadow_ops.Base.Lines.{split_lines}
use meadow_ops.Query.Schema.{
  SchemaRelationship, SandboxSchema, build_er_diagram, diagram_lines, foreign_keys, columns_of,
  relationship_line, clean, table_lines, all_table_lines, column_line, before_paren, add_key,
}
use meadow_ops.Query.Schema.Diagram.{split_lines-build_er_diagram}

abbrev preview : List StatementPreview
preview = record { sql = "delete from product"; statement_type = "write" } ∷ []

abbrev careful : List Event
careful =
    edit "delete from product"
    ∷ press_run
    ∷ answer (confirmation_required (some preview))
    ∷ confirm
    ∷ []

confirmed_by_prompts_example : confirmed_count (run careful initial).posted ≤ prompts careful
confirmed_by_prompts_example = confirmed_by_prompts careful

confirmed_as_reviewed_example : reviewed (run careful initial).posted ≡ true
unfolding edits_while_running step initial trim
confirmed_as_reviewed_example = confirmed_as_reviewed careful refl

confirms_unreviewed_example :
    (run
      (press_run
        ∷ edit "drop table product"
        ∷ answer (confirmation_required (some preview))
        ∷ confirm
        ∷ [])
      initial).posted
    ≡ record { sql = "drop table product"; confirmed = true }
      ∷ record { sql = "select * from product limit 50;"; confirmed = false }
      ∷ []
unfolding initial trim
confirms_unreviewed_example =
    confirms_unreviewed initial "drop table product" preview refl refl refl

abbrev asked : Playground
asked = run (press_run ∷ answer (confirmation_required (some preview)) ∷ []) initial

abbrev lines_to_orders : List SchemaRelationship
lines_to_orders =
    record { from_table = "line"; from_column = "order_id"; to_table = "order"; to_column = "id" }
    ∷ []

-- A table whose name holds a line feed.
abbrev odd_schema : SandboxSchema
odd_schema = record {
  tables =
      record {
        name = "li\nne";
        qualified_name = "sandbox.line";
        columns =
            record {
              name = "id";
              type_name = "VARCHAR(20)";
              nullable = false;
              is_primary_key = true;
            }
            ∷ [];
      }
      ∷ [];
  relationships = lines_to_orders;
  sandbox_populated = none;
}

drawn :
    build_er_diagram odd_schema
    ≡ "erDiagram\n  line }o--|| order : \"order_id\"\n  li_ne {\n    VARCHAR id PK\n  }"
unfolding build_er_diagram diagram_lines relationship_line clean join table_lines all_table_lines
    columns_of column_line before_paren trim trim_end trim_start is_space foreign_keys add_key
drawn = refl

split_lines-build_er_diagram_example :
    split_lines (build_er_diagram odd_schema) ≡ diagram_lines odd_schema
split_lines-build_er_diagram_example = split_lines-build_er_diagram odd_schema
