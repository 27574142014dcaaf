-- ===== src/Authoring.antt =====
-- The pages of the Builder's application on which scenarios are written (src/app/(dashboard)/scenarios).
-- Here: types.ts, what the forms of the ground truth share, and a button that posts.
pub mod Notes
pub mod Review
pub mod Create
pub mod Expected
use Prim.Native.Char.{Char, code}
use meadow_ops.Base.{
  ℕ, suc, ◌+◌, ◌≡◌, String, Bool, true, false, not, ◌&&◌, Option, none, some, List, [], ◌∷◌, map,
  ◌==◌, if◌then◌else◌, nat_eq, truthy, trim, filter, join, length, arith,
}
use meadow_ops.Base.Json.{Json, Items, nil, cons, null, str, arr, get}
use meadow_ops.Base.Lines.{split_lines}
use meadow_ops.Actions.{Answer, accepted, refused, unreachable, Toast, success, failure}

pub record Evidence : Type 0 where
  pub source_exception_flag_id : String
  pub category : String
  pub product_id : Option String
  pub warehouse_id : Option String
  pub purchase_order_id : Option String
  pub shipment_id : Option String
  pub simulation_date : String
  pub first_detected_simulation_date : String
  pub measured_value : Option String
  pub threshold_value : String

pub record ScenarioGroundTruth : Type 0 where
  pub known_cause : String
  pub evidence : Evidence
  pub supporting_signals : List String
  pub distractors : List String
  pub expected_considerations : List String
  pub acceptable_conclusions : List String
  pub unacceptable_conclusions : List String
  pub uncertainty : String
  pub narrative : Option String
  pub expected_query : Option String

unfoldable pub to_lines : List String → String
unfolding join
to_lines value = join "\n" value

unfoldable pub from_lines : String → List String
unfolding split_lines trim
from_lines value = filter truthy (map trim (split_lines value))

-- `message.replace(/^Value error, /, "")`: the text after a prefix, if it starts with it.
unfoldable pub after_prefix : String → String → Option String
after_prefix String.[] s = some s
after_prefix (String.◌∷◌ c p) String.[] = none
after_prefix (String.◌∷◌ c p) (String.◌∷◌ d s) =
    let rest = after_prefix p s in if nat_eq (code c) (code d) then rest else none

abbrev pub or_whole : Option String → String → String
or_whole none s = s
or_whole (some rest) s = rest

-- The first `msg` of the list that is a text.
abbrev pub text_or : Option Json → Option String → Option String
text_or (some (str s)) rest = some s
text_or _ rest = rest

unfoldable pub first_msg : Items → Option String
unfolding get
first_msg nil = none
first_msg (cons item items) = let rest = first_msg items in text_or (get "msg" item) rest

abbrev pub message_text : Option String → String
message_text none = "Could not save"
message_text (some m) =
    if truthy m then or_whole (after_prefix "Value error, " m) m else "Could not save"

abbrev pub detail_message : Option Json → String
detail_message (some (str s)) = s
detail_message (some (arr items)) = message_text (first_msg items)
detail_message _ = "Could not save"

unfoldable pub error_detail : Json → String
unfolding get first_msg after_prefix
error_detail body = detail_message (get "detail" body)

-- A button that posts: its flag, the toasts, the refreshes of the page and what was posted, the
-- latest first.
pub record Poster (Body : Type 0) : Type 0 where
  pub busy : Bool
  pub toasts : List Toast
  pub refreshes : ℕ
  pub posted : List Body

abbrev pub fresh : {Body : Type 0} → Poster Body
fresh = record { busy = false; toasts = []; refreshes = 0; posted = [] }

-- Reading `detail` of the JSON value `null` throws, and the handlers catch that as they catch a
-- failed fetch.
abbrev pub refusal_text : (Json → String) → Json → String
refusal_text error_text null = "Could not reach the server"
refusal_text error_text body = error_text body

abbrev pub one_if : Bool → ℕ
one_if true = 1
one_if false = 0

module _ {Body : Type 0} where
  unfoldable pub send : Body → Poster Body → Poster Body
  send body s = record s { busy = true; posted = body ∷ s.posted }

  unfoldable pub answered : String → (Json → String) → Answer → Poster Body → Poster Body
  answered done_text error_text accepted s = record s {
    busy = false;
    toasts = success done_text ∷ s.toasts;
    refreshes = suc s.refreshes;
  }
  answered done_text error_text (refused body) s = record s {
    busy = false;
    toasts = failure (refusal_text error_text body) ∷ s.toasts;
  }
  answered done_text error_text unreachable s = record s {
    busy = false;
    toasts = failure "Could not reach the server" ∷ s.toasts;
  }

  -- Each post has had its toast, but for the one on its way.
  pub record IsTold (s : Poster Body) : Type 0 where
    pub told : length s.toasts + one_if s.busy ≡ length s.posted
