-- ===== src/MasterData/Payload.antt =====
-- What a save of the form posts.
use meadow_ops.Base.{
  ◌≡◌, refl, ap, ◌∙◌, String, Bool, true, false, ◌||◌, ◌&&◌, Option, none, some, List, [], ◌∷◌,
  ◌==◌, eq_iff, text_cases, if◌then◌else◌, filter, any, arith, inl, inr, Option-cases,
}
use meadow_ops.Base.Json.{Json}
use meadow_ops.Actions.{accepted}
use meadow_ops.MasterData.{
  FieldConfig, FormValue, FormValues, lookup, put, put_if, collect, is_relevant, payload_of,
  MasterDataRow, MasterDataCrud, edit, open_edit, handle_submit, submit_answered, close_dialog,
}

pub lookup-put :
    (k j : String) (v : FormValue) (m : FormValues)
    → lookup j (put k v m) ≡ (if k == j then some v else lookup j m)
unfolding lookup put
lookup-put k j v [] = refl
lookup-put k j v ((i, u) ∷ m) =
    ground (arith, eq_iff k j, eq_iff i k, eq_iff i j, lookup-put k j v m)

abbrev pub named : String → List FieldConfig → Bool
named k fs = any (λ (f : FieldConfig). f.name == k) fs

abbrev pub or_else {ℓ} : {A : Type ℓ} → Option A → Option A → Option A
or_else none b = b
or_else (some a) b = some a

lookup-put_if :
    (k j : String) (o : Option FormValue) (m : FormValues)
    → lookup j (put_if k o m) ≡ (if k == j then or_else o (lookup j m) else lookup j m)
lookup-put_if k j none m = ground arith
lookup-put_if k j (some v) m = lookup-put k j v m

lookup-collect_from :
    (fs : List FieldConfig) (values payload : FormValues) (k : String)
    → lookup k (collect fs values payload)
      ≡ (if named k fs then or_else (lookup k values) (lookup k payload) else lookup k payload)
unfolding collect
lookup-collect_from [] values payload k = refl
lookup-collect_from (f ∷ fs) values payload k =
    let rest = lookup-collect_from fs values (put_if f.name (lookup f.name values) payload) k in
    let here = lookup-put_if f.name k (lookup f.name values) payload in
    elim (text_cases f.name k) [
      | inl same ↦
          let moved = ap (λ j. lookup j values) same in
          elim (Option-cases (lookup k values)) [
            | inl missing ↦ ground (arith, eq_iff f.name k)
            | inr (v, found) ↦ ground (arith, eq_iff f.name k)
          ]
      | inr other ↦ ground arith
    ]

named-filter :
    (is_create : Bool) (k : String) (fs : List FieldConfig)
    → named k (filter (is_relevant is_create) fs)
      ≡ any (λ (f : FieldConfig). f.name == k && is_relevant is_create f) fs
named-filter is_create k [] = refl
named-filter is_create k (f ∷ fs) = ground (arith, named-filter is_create k fs)

lookup-collect :
    (is_create : Bool) (fields : List FieldConfig) (values : FormValues) (k : String)
    → lookup k (collect (filter (is_relevant is_create) fields) values []) ≡ (
        if any (λ (f : FieldConfig). f.name == k && (is_create || f.editable)) fields
        then lookup k values
        else none)
lookup-collect is_create fields values k =
    let all = lookup-collect_from (filter (is_relevant is_create) fields) values [] k in
    let empty : lookup k [] ≡ none = unfold lookup in refl in
    elim (Option-cases (lookup k values)) [
      | inl missing ↦ ground (arith, named-filter is_create k fields)
      | inr (v, found) ↦ ground (arith, named-filter is_create k fields)
    ]

-- The fields that a save posts, but for a new product's sku: of the fields of the form those that may
-- be posted, each with the value that the form holds; nothing else. A field that is not editable is
-- posted on creation alone.
pub lookup-payload_of :
    (entity : String) (is_create : Bool) (fields : List FieldConfig) (values : FormValues)
    (k : String)
    → (entity == "products" && (is_create && "sku" == k)) ≡ false
    → lookup k (payload_of entity is_create fields values) ≡ (
        if any (λ (f : FieldConfig). f.name == k && (is_create || f.editable)) fields
        then lookup k values
        else none)
unfolding payload_of
lookup-payload_of entity is_create fields values k other = ground (
  arith,
  lookup-collect is_create fields values k,
  lookup-put_if "sku" k (lookup "id" (collect (filter (is_relevant is_create) fields) values []))
      (collect (filter (is_relevant is_create) fields) values []),
)

named_on_create :
    (k : String) (fs : List FieldConfig)
    → any (λ (f : FieldConfig). f.name == k && (true || f.editable)) fs ≡ named k fs
named_on_create k [] = refl
named_on_create k (f ∷ fs) = ground (arith, named_on_create k fs)

-- A new product is posted with its id as its sku.
pub products_sku :
    (fields : List FieldConfig) (values : FormValues) (v : FormValue)
    → any (λ (f : FieldConfig). f.name == "id") fields ≡ true
    → lookup "id" values ≡ some v
    → (lookup "sku" (payload_of "products" true fields values) ≡ some v)
      × (lookup "id" (payload_of "products" true fields values) ≡ some v)
unfolding payload_of
products_sku fields values v has_id given =
    let payload = collect (filter (is_relevant true) fields) values [] in
    let all_named : any (λ (f : FieldConfig). f.name == "id" && (true || f.editable)) fields
        ≡ true =
      named_on_create "id" fields ∙ has_id in
    let id_posted : lookup "id" payload ≡ some v =
      lookup-collect true fields values "id" ∙ rw (all_named, given) refl in
    (
      lookup-put_if "sku" "sku" (lookup "id" payload) payload ∙ rw id_posted refl,
      lookup-put_if "sku" "id" (lookup "id" payload) payload ∙ id_posted,
    )

-- The answer to a save closes whatever dialog is open by then: that of another row, if the first was
-- closed and the other opened while the save was on its way.
pub late_save_closes :
    (entity label : String) (fields : List FieldConfig) (printed : Json → String)
    (holds : Json → Bool) (first second : MasterDataRow) (s : MasterDataCrud)
    → s.dialog_state ≡ some (edit first)
    → let reopened =
        open_edit entity label fields printed holds second
          (close_dialog (handle_submit entity label fields s)) in
      (reopened.dialog_state ≡ some (edit second))
      × ((submit_answered entity label fields (edit first) accepted reopened).dialog_state ≡ none)
unfolding open_edit close_dialog handle_submit submit_answered
late_save_closes entity label fields printed holds first second s shown = ground arith
