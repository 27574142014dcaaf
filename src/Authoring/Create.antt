-- ===== src/Authoring/Create.antt =====
-- create-scenario-form.tsx of the Builder's application (src/app/(dashboard)/scenarios/new/components)
-- with the options of types.ts.
pub mod Submitting
mod Tests
use text.Mathlib.Text.{find?}
use meadow_ops.Base.{
  ℕ, zero, suc, String, Bool, true, false, not, ◌&&◌, ◌||◌, Option, none, some, List, [], ◌∷◌, ◌==◌,
  ◌<>◌, if◌then◌else◌, any, filter, join, truthy, trim, is_some,
}
use meadow_ops.Base.Json.{Json, as_text, get}
use meadow_ops.Base.Response.{Response, no_answer, response, is_ok, error_message, body_or_empty}

pub record ExceptionFlag : Type 0 where
  pub id : String
  pub category : String
  pub product_id : Option String
  pub warehouse_id : Option String
  pub purchase_order_id : Option String
  pub shipment_id : Option String
  pub measured_value : Option String
  pub threshold_value : String

-- `s.slice(0, n)`
abbrev pub first_chars : ℕ → String → String
first_chars zero s = ""
first_chars (suc n) String.[] = ""
first_chars (suc n) (String.◌∷◌ c s) = let rest = first_chars n s in String.◌∷◌ c rest

-- `id ? label + id : null`, then `filter(Boolean)`.
abbrev pub bit : String → (String → String) → Option String → List String → List String
bit label cut none rest = rest
bit label cut (some id) rest = if truthy id then (label <> cut id) ∷ rest else rest

abbrev pub or_no_entity : List String → String
or_no_entity [] = "no linked entity"
or_no_entity (b ∷ bits) = join ", " (b ∷ bits)

unfoldable pub describe_exception : ExceptionFlag → String
unfolding join
describe_exception flag = or_no_entity (
    bit "product " (λ s. s) flag.product_id
      (bit "warehouse " (λ s. s) flag.warehouse_id
        (bit "PO " (first_chars 8) flag.purchase_order_id
          (bit "shipment " (first_chars 8) flag.shipment_id []))))

-- The texts of a flag that the filter looks at: those that are not empty.
abbrev pub text_if : Option String → List String → List String
text_if none rest = rest
text_if (some s) rest = if truthy s then s ∷ rest else rest

unfoldable pub searched : ExceptionFlag → List String
searched flag =
    text_if (some flag.category) (text_if flag.product_id (text_if flag.warehouse_id []))

-- `lower` is `String.prototype.toLowerCase`.
module _ (lower : String → String) where
  abbrev pub matches : String → ExceptionFlag → Bool
  matches needle flag = any (λ v. is_some (find? (lower v) needle)) (searched flag)

  unfoldable pub filtered : String → List ExceptionFlag → List ExceptionFlag
  unfolding searched trim
  filtered query exceptions =
      let needle = lower (trim query) in
      if truthy needle then filter (matches needle) exceptions else exceptions

-- The state of the form, the bodies that were posted (the latest first), and the pages that it went
-- to.
pub record Details : Type 0 where
  pub selected_id : Option String
  pub title : String
  pub scenario_type : String
  pub competency_cluster : String
  pub difficulty_tier : String

pub record ScenarioCreate : Type 0 where
  pub exception_flag_id : String
  pub scenario_type : String
  pub competency_cluster : String
  pub difficulty_tier : String
  pub title : String

pub record CreateForm : Type 0 where
  pub query : String
  pub details : Details
  pub error : Option String
  pub submitting : Bool
  pub posted : List ScenarioCreate
  pub visited : List String

-- `canSubmit` and the body.
abbrev pub body_with : Details → Option String → Option ScenarioCreate
body_with d none = none
body_with d (some id) =
    if truthy id
      && (truthy (trim d.title)
          && (truthy d.scenario_type && (truthy d.competency_cluster && truthy d.difficulty_tier)))
    then some (record {
      exception_flag_id = id;
      scenario_type = d.scenario_type;
      competency_cluster = d.competency_cluster;
      difficulty_tier = d.difficulty_tier;
      title = trim d.title;
    })
    else none

unfoldable pub create_body_of : Details → Option ScenarioCreate
unfolding trim
create_body_of d = body_with d d.selected_id

abbrev pub post_create : Option ScenarioCreate → CreateForm → CreateForm
post_create none s = s
post_create (some body) s = record s { error = none; submitting = true; posted = body ∷ s.posted }

unfoldable pub handle_submit : CreateForm → CreateForm
unfolding create_body_of
handle_submit s = post_create (create_body_of s.details) s

-- The page of the new scenario; `${body.id}` of a body without an id is "undefined".
abbrev pub id_text : Option String → String
id_text none = "undefined"
id_text (some id) = id

unfoldable pub submit_answered : Response → CreateForm → CreateForm
unfolding error_message get
submit_answered no_answer s = record s {
  error = some "Could not reach the server";
  submitting = false;
}
submit_answered (response status json) s =
    let body = body_or_empty json in
    if not (is_ok status)
    then record s {
      error = some (error_message body "Could not create scenario");
      submitting = false;
    }
    else record s {
      visited = ("/scenarios/" <> id_text (as_text (get "id" body))) ∷ s.visited;
      submitting = false;
    }

pub data Event : Type 0 where
  type_query : String → Event
  fill : Details → Event
  submit : Event
  answered : Response → Event

unfoldable pub step : Event → CreateForm → CreateForm
unfolding create_body_of handle_submit submit_answered
step (type_query q) s = record s { query = q }
step (fill d) s = record s { details = d }
step submit s =
    if not (is_some (create_body_of s.details)) || s.submitting then s else handle_submit s
step (answered r) s = if s.submitting then submit_answered r s else s

unfoldable pub run : List Event → CreateForm → CreateForm
run [] s = s
run (e ∷ es) s = run es (step e s)

unfoldable pub empty_form : CreateForm
empty_form = record {
  query = "";
  details = record {
    selected_id = none;
    title = "";
    scenario_type = "";
    competency_cluster = "";
    difficulty_tier = "";
  };
  error = none;
  submitting = false;
  posted = [];
  visited = [];
}
