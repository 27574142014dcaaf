-- ===== src/MasterData.antt =====
-- The editor of master data (orbynadmin, src/components/master-data-crud.tsx): the form of an entity,
-- the body that it posts, the dialog, and the activation of a row. A handler that waits is two
-- functions, before and after the wait.
pub mod Payload
mod Tests
use meadow_ops.Base.{
  ℕ, suc, String, Bool, true, false, not, ◌||◌, ◌&&◌, Option, none, some, List, [], ◌∷◌, ◌==◌, ◌<>◌,
  if◌then◌else◌, filter, truthy, nat_eq,
}
use meadow_ops.Base.Json.{Json, null, bool, num, str, arr, obj, get, as_text}
use meadow_ops.Actions.{Answer, accepted, refused, unreachable, Toast, success, failure}
use mathlib.Core.Option

pub data FieldType : Type 0 where
  text integer decimal select switch : FieldType

-- `editable` is false only where the configuration says so.
pub record FieldConfig : Type 0 where
  pub name : String
  pub label : String
  pub field_type : FieldType
  pub editable : Bool

pub data FormValue : Type 0 where
  typed : String → FormValue
  flag : Bool → FormValue

-- An object with a value for each name, as a list with at most one pair for a name.
abbrev pub FormValues : Type 0
FormValues = List (String × FormValue)

unfoldable pub lookup : String → FormValues → Option FormValue
lookup k [] = none
lookup k ((j, v) ∷ m) = if j == k then some v else lookup k m

-- `values[k] = v`
unfoldable pub put : String → FormValue → FormValues → FormValues
put k v [] = (k, v) ∷ []
put k v ((j, u) ∷ m) = if j == k then (j, v) ∷ m else (j, u) ∷ put k v m

abbrev pub empty_value : FieldType → FormValue
empty_value switch = flag true
empty_value _ = typed ""

-- The loop of `emptyFormValues`.
unfoldable pub empty_form_values : List FieldConfig → FormValues → FormValues
empty_form_values [] values = values
empty_form_values (f ∷ fs) values =
    empty_form_values fs (put f.name (empty_value f.field_type) values)

-- A row is a JSON object; `id` and `is_active` are among its properties.
pub record MasterDataRow : Type 0 where
  pub id : String
  pub is_active : Bool
  pub properties : Json

-- `printed` is how JavaScript prints a value that is no text, and `holds` is `Boolean(value)` of one.
module _ (printed : Json → String) (holds : Json → Bool) where
  abbrev pub text_of : Option Json → String
  text_of none = ""
  text_of (some null) = ""
  text_of (some (str s)) = s
  text_of (some v) = printed v

  abbrev pub flag_of : Option Json → Bool
  flag_of none = false
  flag_of (some null) = false
  flag_of (some (bool b)) = b
  flag_of (some v) = holds v

  abbrev pub row_value : FieldType → Option Json → FormValue
  row_value switch raw = flag (flag_of raw)
  row_value _ raw = typed (text_of raw)

  -- The loop of `rowToFormValues`.
  unfoldable pub row_to_form_values : List FieldConfig → Json → FormValues → FormValues
  row_to_form_values [] row values = values
  row_to_form_values (f ∷ fs) row values =
      row_to_form_values fs row (put f.name (row_value f.field_type (get f.name row)) values)

abbrev pub put_if : String → Option FormValue → FormValues → FormValues
put_if k none payload = payload
put_if k (some v) payload = put k v payload

-- The loop that fills the payload; `undefined` is not written to JSON.
unfoldable pub collect : List FieldConfig → FormValues → FormValues → FormValues
collect [] values payload = payload
collect (f ∷ fs) values payload = collect fs values (put_if f.name (lookup f.name values) payload)

abbrev pub is_relevant : Bool → FieldConfig → Bool
is_relevant is_create f = is_create || f.editable

-- The payload of `handleSubmit`: a product's `sku` is its `id`.
unfoldable pub payload_of : String → Bool → List FieldConfig → FormValues → FormValues
unfolding collect lookup put
payload_of entity is_create fields values =
    let payload = collect (filter (is_relevant is_create) fields) values [] in
    if entity == "products" && is_create
    then put_if "sku" (lookup "id" payload) payload
    else payload

pub data Mode : Type 0 where
  create : Mode
  edit : MasterDataRow → Mode

-- A save that was posted: a POST for the entity, or a PATCH for the row of an id; and the PATCH of
-- `toggleActive`.
pub data Save : Type 0 where
  post : FormValues → Save
  patch : String → FormValues → Save
  activate : String → Bool → Save

pub record MasterDataCrud : Type 0 where
  pub dialog_state : Option Mode
  pub form_values : FormValues
  pub error : Option String
  pub is_submitting : Bool
  pub toasts : List Toast
  pub refreshes : ℕ
  pub posted : List Save

module _ (entity entity_label : String) (fields : List FieldConfig) where
  unfoldable pub open_create : MasterDataCrud → MasterDataCrud
  unfolding empty_form_values
  open_create s = record s {
    form_values = empty_form_values fields [];
    error = none;
    dialog_state = some create;
  }

  unfoldable pub open_edit :
      (Json → String) → (Json → Bool) → MasterDataRow → MasterDataCrud → MasterDataCrud
  unfolding row_to_form_values
  open_edit printed holds row s = record s {
    form_values = row_to_form_values printed holds fields row.properties [];
    error = none;
    dialog_state = some (edit row);
  }

  abbrev pub save_of : Mode → FormValues → Save
  save_of create values = post (payload_of entity true fields values)
  save_of (edit row) values = patch row.id (payload_of entity false fields values)

  abbrev pub submit : Option Mode → MasterDataCrud → MasterDataCrud
  submit none s = s
  submit (some mode) s = record s {
    error = none;
    is_submitting = true;
    posted = save_of mode s.form_values ∷ s.posted;
  }

  unfoldable pub handle_submit : MasterDataCrud → MasterDataCrud
  unfolding payload_of
  handle_submit s = submit s.dialog_state s

  abbrev pub saved_text : Mode → String
  saved_text create = entity_label <> " created"
  saved_text (edit row) = entity_label <> " updated"

  -- After the wait, with the mode of the closure.
  unfoldable pub submit_answered : Mode → Answer → MasterDataCrud → MasterDataCrud
  submit_answered mode accepted s = record s {
    toasts = success (saved_text mode) ∷ s.toasts;
    dialog_state = none;
    refreshes = suc s.refreshes;
    is_submitting = false;
  }
  submit_answered mode (refused body) s = record s {
    error = some (Option.get_or (as_text (get "detail" body)) "Request failed");
    is_submitting = false;
  }
  submit_answered mode unreachable s = record s {
    error = some "Could not reach the server";
    is_submitting = false;
  }

  unfoldable pub toggle_active : MasterDataRow → MasterDataCrud → MasterDataCrud
  toggle_active row s = record s { posted = activate row.id (not row.is_active) ∷ s.posted }

  -- `body.detail ?? "Could not update status"`, as the toast shows it.
  abbrev pub detail_or : (Json → String) → Option Json → String
  detail_or printed none = "Could not update status"
  detail_or printed (some null) = "Could not update status"
  detail_or printed (some (str s)) = s
  detail_or printed (some v) = printed v

  -- `toggleActive` after its wait; an exception is not caught.
  unfoldable pub toggle_answered :
      (Json → String) → MasterDataRow → Answer → MasterDataCrud → MasterDataCrud
  toggle_answered printed row accepted s = record s {
    toasts =
        success (entity_label <> (if row.is_active then " deactivated" else " activated"))
        ∷ s.toasts;
    refreshes = suc s.refreshes;
  }
  toggle_answered printed row (refused body) s = record s {
    toasts = failure (detail_or printed (get "detail" body)) ∷ s.toasts;
  }
  toggle_answered printed row unreachable s = s

-- `setDialogState(null)`, by which the dialog is closed.
unfoldable pub close_dialog : MasterDataCrud → MasterDataCrud
close_dialog s = record s { dialog_state = none }

-- A change of an input of the form.
unfoldable pub change_field : String → FormValue → MasterDataCrud → MasterDataCrud
unfolding put
change_field name value s = record s { form_values = put name value s.form_values }
