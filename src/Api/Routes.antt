-- ===== src/Api/Routes.antt =====
-- The calls of the clients that name a resource by an id, the backend's routes that they mean, and the
-- paths that are handed to fetch.
use meadow_ops.Base.{
  ◌<◌, ◌≡◌, refl, sym, ap, ◌∙◌, String, Option, some, List, [], ◌∷◌, ◌++◌, All, arith,
}
use meadow_ops.Base.Json.{Json}
use meadow_ops.Api.Uri.{
  Bytes, text, encode, decode, decode-encode, split_slash, split_slash-encode,
  split_slash-encode_last,
}
use meadow_ops.Api.Fetch.{Method, get, post, put, patch, delete, Call}
use meadow_ops.Api.Chat
use meadow_ops.Api.BuilderChat
use meadow_ops.Api.Ledger
use meadow_ops.Api.Scenario
use meadow_ops.Api.Evaluation

-- A route of the backend: a method, the segments before the id, and those after it.
pub record Route : Type 0 where
  pub method : Method
  pub before : List Bytes
  pub after : List Bytes

-- The calls of the clients that name a resource by an id.
pub data Endpoint : Type 0 where
  read_notification removes_thread read_thread thread_messages new_message reflection draft :
      Endpoint
  complete builder_reads_thread builder_messages builder_message builder_removes_thread : Endpoint
  suggest_opening suggest_pushback sufficiency_check builder_reads_notification : Endpoint
  builder_draft clarification resubmit accept reject implement partially_implement outcome :
      Endpoint
  scenario ground_truth regenerate narrative expected_query run_expected approve activate : Endpoint
  cancel evaluation human_review new_human_review portfolio : Endpoint

-- What the calls are given besides the id.
pub record Payload : Type 0 where
  pub text : String
  pub choice : Option String
  pub json : Json

abbrev pub route_of : Method → String → List Bytes → Route
route_of m before after = record { method = m; before = split_slash (text before); after = after }

-- The backend's routes (backend/app/api), by the endpoint that the client means.
unfoldable pub route : Endpoint → Route
route read_notification = route_of post "/api/v1/chat/notifications" (text "read" ∷ [])
route removes_thread = route_of delete "/api/v1/chat/threads" []
route read_thread = route_of post "/api/v1/chat/threads" (text "read" ∷ [])
route thread_messages = route_of get "/api/v1/chat/threads" (text "messages" ∷ [])
route new_message = route_of post "/api/v1/chat/threads" (text "messages" ∷ [])
route reflection = route_of post "/api/v1/portfolio/threads" (text "reflection" ∷ [])
route draft = route_of put "/api/v1/chat/threads" (text "draft" ∷ [])
route complete = route_of post "/api/v1/chat/threads" (text "complete" ∷ [])
route builder_reads_thread = route_of post "/api/v1/chat/threads" (text "read" ∷ [])
route builder_messages = route_of get "/api/v1/chat/threads" (text "messages" ∷ [])
route builder_message = route_of post "/api/v1/chat/threads" (text "messages" ∷ [])
route builder_removes_thread = route_of delete "/api/v1/chat/threads" []
route suggest_opening = route_of post "/api/v1/chat/threads" (text "suggest-opening" ∷ [])
route suggest_pushback = route_of post "/api/v1/chat/threads" (text "suggest-pushback" ∷ [])
route sufficiency_check = route_of post "/api/v1/chat/threads" (text "sufficiency-check" ∷ [])
route builder_reads_notification = route_of post "/api/v1/chat/notifications" (text "read" ∷ [])
route builder_draft = route_of put "/api/v1/chat/threads" (text "draft" ∷ [])
route clarification = route_of post "/api/v1/ledger/decisions" (text "request-clarification" ∷ [])
route resubmit = route_of post "/api/v1/ledger/decisions" (text "resubmit" ∷ [])
route accept = route_of post "/api/v1/ledger/decisions" (text "accept" ∷ [])
route reject = route_of post "/api/v1/ledger/decisions" (text "reject" ∷ [])
route implement = route_of post "/api/v1/ledger/decisions" (text "implement" ∷ [])
route partially_implement =
    route_of post "/api/v1/ledger/decisions" (text "partially-implement" ∷ [])
route outcome = route_of post "/api/v1/ledger/decisions" (text "outcome" ∷ [])
route scenario = route_of get "/api/v1/admin/scenarios" []
route ground_truth = route_of patch "/api/v1/admin/scenarios" (text "ground-truth" ∷ [])
route regenerate = route_of post "/api/v1/admin/scenarios" (text "regenerate" ∷ [])
route narrative = route_of post "/api/v1/admin/scenarios" (text "regenerate-narrative" ∷ [])
route expected_query =
    route_of post "/api/v1/admin/scenarios" (text "regenerate-expected-query" ∷ [])
route run_expected =
    route_of post "/api/v1/admin/scenarios" (text "expected-query" ∷ text "run" ∷ [])
route approve = route_of post "/api/v1/admin/scenarios" (text "approve" ∷ [])
route activate = route_of post "/api/v1/admin/scenarios" (text "activate" ∷ [])
route cancel = route_of post "/api/v1/admin/scenarios" (text "cancel" ∷ [])
route evaluation = route_of get "/api/v1/evaluations/threads" []
route human_review = route_of get "/api/v1/evaluations/threads" (text "human-review" ∷ [])
route new_human_review = route_of post "/api/v1/evaluations/threads" (text "human-review" ∷ [])
route portfolio = route_of get "/api/v1/portfolio/threads" []

unfoldable pub call : Endpoint → Bytes → Payload → Call
unfolding BuilderChat.check_sufficiency BuilderChat.complete_thread BuilderChat.delete_thread
    BuilderChat.list_messages BuilderChat.mark_notification_read BuilderChat.mark_thread_read
    BuilderChat.save_draft BuilderChat.send_message BuilderChat.suggest_opening
    BuilderChat.suggest_pushback Chat.delete_thread Chat.list_messages Chat.mark_notification_read
    Chat.mark_thread_read Chat.save_draft Chat.send_message Chat.submit_reflection
    Evaluation.get_evaluation Evaluation.get_human_review Evaluation.get_portfolio_export
    Evaluation.submit_human_review Ledger.accept_decision Ledger.mark_implemented
    Ledger.mark_partially_implemented Ledger.record_outcome Ledger.reject_decision
    Ledger.request_clarification Ledger.resubmit_decision Scenario.activate_scenario
    Scenario.approve_scenario Scenario.cancel_scenario Scenario.get_scenario
    Scenario.regenerate_expected_query Scenario.regenerate_narrative Scenario.regenerate_scenario
    Scenario.run_expected_query Scenario.update_ground_truth
call read_notification id p = Chat.mark_notification_read id
call removes_thread id p = Chat.delete_thread id
call read_thread id p = Chat.mark_thread_read id
call thread_messages id p = Chat.list_messages id
call new_message id p = Chat.send_message id p.text p.choice
call reflection id p = Chat.submit_reflection id p.json
call draft id p = Chat.save_draft id p.text
call complete id p = BuilderChat.complete_thread id
call builder_reads_thread id p = BuilderChat.mark_thread_read id
call builder_messages id p = BuilderChat.list_messages id
call builder_message id p = BuilderChat.send_message id p.text
call builder_removes_thread id p = BuilderChat.delete_thread id
call suggest_opening id p = BuilderChat.suggest_opening id p.text
call suggest_pushback id p = BuilderChat.suggest_pushback id p.text
call sufficiency_check id p = BuilderChat.check_sufficiency id
call builder_reads_notification id p = BuilderChat.mark_notification_read id
call builder_draft id p = BuilderChat.save_draft id p.text
call clarification id p = Ledger.request_clarification id
call resubmit id p = Ledger.resubmit_decision id
call accept id p = Ledger.accept_decision id p.choice
call reject id p = Ledger.reject_decision id
call implement id p = Ledger.mark_implemented id
call partially_implement id p = Ledger.mark_partially_implemented id
call outcome id p = Ledger.record_outcome id p.text p.choice
call scenario id p = Scenario.get_scenario id
call ground_truth id p = Scenario.update_ground_truth id p.json
call regenerate id p = Scenario.regenerate_scenario id
call narrative id p = Scenario.regenerate_narrative id
call expected_query id p = Scenario.regenerate_expected_query id
call run_expected id p = Scenario.run_expected_query id
call approve id p = Scenario.approve_scenario id
call activate id p = Scenario.activate_scenario id
call cancel id p = Scenario.cancel_scenario id
call evaluation id p = Evaluation.get_evaluation id
call human_review id p = Evaluation.get_human_review id
call new_human_review id p = Evaluation.submit_human_review id p.json
call portfolio id p = Evaluation.get_portfolio_export id

-- The segments that a call of a route with an id has.
abbrev pub segments : Route → Bytes → List Bytes
segments r id = r.before ++ encode id ∷ r.after

-- Whatever bytes the id holds, a slash or a question mark too, the path of a call has the segments
-- of its route with the encoded id in the id's place, and the method is the route's.
pub call-segments :
    (e : Endpoint) (id : Bytes) (p : Payload)
    → All (λ b. b < 256) id
    → (split_slash (call e id p).path ≡ segments (route e) id)
      × ((call e id p).method ≡ (route e).method)
unfolding call route
call-segments removes_thread id p h = (rw (split_slash-encode_last id h) refl, refl)
call-segments e id p h =
    (simp (λ (s : Bytes). split_slash-encode id s h, split_slash-encode_last id h), refl)

before-length :
    (e : Endpoint) → (b1 b2 b3 b4 b5 : Bytes) × ((route e).before ≡ b1 ∷ b2 ∷ b3 ∷ b4 ∷ b5 ∷ [])
unfolding route
before-length removes_thread = (_, _, _, _, _, refl)
before-length e = (_, _, _, _, _, refl)

pub encode-injective :
    (s t : Bytes) → All (λ b. b < 256) s → All (λ b. b < 256) t → encode s ≡ encode t → s ≡ t
encode-injective s t h k e =
    let back : decode (encode s) ≡ some s = decode-encode s h in
    let back_t : decode (encode t) ≡ some t = decode-encode t k in grind arith

same_prefix :
    (b1 b2 b3 b4 b5 c1 c2 c3 c4 c5 x y : Bytes) (s t : List Bytes)
    → b1 ∷ b2 ∷ b3 ∷ b4 ∷ b5 ∷ x ∷ s ≡ c1 ∷ c2 ∷ c3 ∷ c4 ∷ c5 ∷ y ∷ t
    → (b1 ∷ b2 ∷ b3 ∷ b4 ∷ b5 ∷ [] ≡ c1 ∷ c2 ∷ c3 ∷ c4 ∷ c5 ∷ []) × (x ≡ y) × (s ≡ t)
same_prefix b1 b2 b3 b4 b5 c1 c2 c3 c4 c5 x y s t e = (grind arith, grind arith, grind arith)

pub same_segments :
    (e f : Endpoint) (id other : Bytes)
    → segments (route e) id ≡ segments (route f) other
    → ((route e).before ≡ (route f).before)
      × (encode id ≡ encode other)
      × ((route e).after ≡ (route f).after)
same_segments e f id other h =
    let (b1, b2, b3, b4, b5, p) = before-length e in
    let (c1, c2, c3, c4, c5, q) = before-length f in
    let h : (b1 ∷ b2 ∷ b3 ∷ b4 ∷ b5 ∷ []) ++ encode id ∷ (route e).after
        ≡ (c1 ∷ c2 ∷ c3 ∷ c4 ∷ c5 ∷ []) ++ encode other ∷ (route f).after =
      cc in
    let (k, l, m) =
      same_prefix b1 b2 b3 b4 b5 c1 c2 c3 c4 c5 (encode id) (encode other) (route e).after
        (route f).after h in
    (p ∙ k ∙ sym q, l, m)

-- Two calls with the same path, as it is handed to fetch, of ids that are bytes, are for the same id
-- and for routes with the same segments.
pub call-path_injective :
    (e f : Endpoint) (id other : Bytes) (p q : Payload)
    → All (λ b. b < 256) id
    → All (λ b. b < 256) other
    → (call e id p).path ≡ (call f other q).path
    → (id ≡ other) × ((route e).before ≡ (route f).before) × ((route e).after ≡ (route f).after)
call-path_injective e f id other p q h k same =
    let (there, m) = call-segments e id p h in
    let (here, n) = call-segments f other q k in
    let (before, ids, after) =
      same_segments e f id other (sym there ∙ ap split_slash same ∙ here) in
    (encode-injective id other h k ids, before, after)
