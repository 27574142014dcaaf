-- ===== src/Authoring/Create/Tests.antt =====
-- A scenario that is created.
use meadow_ops.Base.{◌≡◌, refl, none, some, List, [], ◌∷◌, trim, join}
use meadow_ops.Base.Json.{str, field, end, get, property, as_text}
use meadow_ops.Base.Response.{response}
use meadow_ops.Authoring.Create.{
  ExceptionFlag, describe_exception, Details, Event, fill, submit, answered, step, run, empty_form,
  create_body_of,
}

abbrev flag : ExceptionFlag
flag = record {
  id = "f1";
  category = "late_shipment";
  product_id = some "p1";
  warehouse_id = some "";
  purchase_order_id = none;
  shipment_id = some "0123456789";
  measured_value = none;
  threshold_value = "2";
}

describe_test : describe_exception flag ≡ "product p1, shipment 01234567"
unfolding describe_exception join
describe_test = refl

abbrev details : Details
details = record {
  selected_id = some "f1";
  title = " Late ";
  scenario_type = "process_breakdown";
  competency_cluster = "communication";
  difficulty_tier = "standard";
}

abbrev events : List Event
events = fill details ∷ submit ∷ answered (response 201 (some (field "id" (str "s9") end))) ∷ []

visited_test : (run events empty_form).visited ≡ "/scenarios/s9" ∷ []
unfolding run step empty_form create_body_of trim get property as_text
visited_test = refl
