-- ===== src/MasterData/Tests.antt =====
-- The editor of master data with a form of three fields.
use meadow_ops.Base.{
  ◌≡◌, refl, String, true, false, ◌&&◌, ◌||◌, none, some, List, [], ◌∷◌, ◌==◌, if◌then◌else◌, any,
}
use meadow_ops.Base.Json.{obj, field, end, str}
use meadow_ops.MasterData.{
  FieldConfig, text, switch, FormValues, typed, flag, lookup, payload_of, MasterDataRow,
  MasterDataCrud, edit,
}
use meadow_ops.MasterData.Payload.{lookup-payload_of}

abbrev fields : List FieldConfig
fields =
    record { name = "id"; label = "Id"; field_type = text; editable = false }
    ∷ record { name = "name"; label = "Name"; field_type = text; editable = true }
    ∷ record { name = "is_active"; label = "Active"; field_type = switch; editable = true }
    ∷ []

abbrev values : FormValues
values = ("id", typed "p1") ∷ ("name", typed "Pallet") ∷ ("is_active", flag true) ∷ []

edited :
    payload_of "products" false fields values
    ≡ ("name", typed "Pallet") ∷ ("is_active", flag true) ∷ []
unfolding payload_of
edited = refl

lookup-payload_of_example : lookup "id" (payload_of "products" false fields values) ≡ (
    if any (λ (f : FieldConfig). f.name == "id" && (false || f.editable)) fields
    then lookup "id" values
    else none)
lookup-payload_of_example = lookup-payload_of "products" false fields values "id" refl

abbrev row_of : String → MasterDataRow
row_of id = record { id = id; is_active = true; properties = obj (field "id" (str id) end) }

abbrev editing : MasterDataCrud
editing = record {
  dialog_state = some (edit (row_of "p1"));
  form_values = values;
  error = none;
  is_submitting = false;
  toasts = [];
  refreshes = 0;
  posted = [];
}
