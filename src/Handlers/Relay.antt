-- ===== src/Handlers/Relay.antt =====
-- A handler says that a request succeeded only if the backend did.
use mathlib.Core.Option.{some-injective}
use meadow_ops.Base.{
  ℕ, ◌≡◌, refl, sym, ap, ◌∙◌, String, Bool, true, false, Option, none, some, ◌<>◌, nat_eq,
  Bool-cases, arith, inl, inr,
}
use meadow_ops.Base.Json.{Json, obj, end, null, get, as_text}
use meadow_ops.Base.Response.{is_ok}
use meadow_ops.Api.Fetch.{Call, Reply, Request, local, upstream, fetch_with}
use meadow_ops.Api.Fetch.Guards.{present, value, fetch_with_lem, sent_with_token}
use meadow_ops.Handlers.{
  Answer, Server, Outcome, json_response, no_content, file_response, crashed, answer_to, relay,
  relay_caught, relay_or_empty, relay_caught_or_empty, relay_file, call, json_or_crash,
  json_or_empty, json_answer, has_no_body, with_draft, text_or_400,
}

unfoldable pub succeeded : Outcome → Bool
succeeded (json_response status body) = is_ok status
succeeded no_content = true
succeeded (file_response status content t d o) = is_ok status
succeeded crashed = false

-- There is a session, and the backend was asked with its token and answered that it succeeded.
pub record IsGranted (s : Server) : Type 0 where
  pub signed_in : present s.cookie ≡ true
  pub request : Request
  pub answer : Answer
  pub asked : s.backend request ≡ some answer
  pub authorized : request.authorization ≡ "Bearer " <> value s.cookie
  pub granted : is_ok answer.status ≡ true

abbrev pub IsOkAnswer : Option Answer → Type 0
IsOkAnswer o = (a : Answer) × (o ≡ some a) × (is_ok a.status ≡ true)

json_answer-IsOk :
    (status : ℕ) (body : Json) → succeeded (json_answer status body) ≡ true → is_ok status ≡ true
unfolding succeeded
json_answer-IsOk status body h = elim (Bool-cases (has_no_body status)) [
  | inl empty ↦ let h : false ≡ true = rw empty at h in cc
  | inr other ↦ rw other at h
]

json_or_crash-IsOk :
    (status : ℕ) (j : Option Json) → succeeded (json_or_crash status j) ≡ true → is_ok status ≡ true
unfolding succeeded
json_or_crash-IsOk status none h = cc
json_or_crash-IsOk status (some b) h = json_answer-IsOk status b h

json_or_empty-IsOk :
    (status : ℕ) (j : Option Json) → succeeded (json_or_empty status j) ≡ true → is_ok status ≡ true
unfolding succeeded
json_or_empty-IsOk status none h = json_answer-IsOk status (obj end) h
json_or_empty-IsOk status (some b) h = json_answer-IsOk status b h

pub relay-IsOk : (o : Option Answer) → succeeded (relay o) ≡ true → IsOkAnswer o
unfolding relay succeeded
relay-IsOk none h = cc
relay-IsOk (some a) h = (a, refl, json_or_crash-IsOk a.status a.json h)

pub relay_caught-IsOk : (o : Option Answer) → succeeded (relay_caught o) ≡ true → IsOkAnswer o
unfolding relay_caught succeeded
relay_caught-IsOk none h = cc
relay_caught-IsOk (some a) h = (a, refl, json_or_empty-IsOk a.status a.json h)

empty_status : (status : ℕ) → nat_eq status 204 ≡ true → is_ok status ≡ true
empty_status status h = ground arith

pub relay_or_empty-IsOk : (o : Option Answer) → succeeded (relay_or_empty o) ≡ true → IsOkAnswer o
unfolding relay_or_empty succeeded
relay_or_empty-IsOk none h = cc
relay_or_empty-IsOk (some a) h = elim (Bool-cases (nat_eq a.status 204)) [
  | inl empty ↦ (a, refl, empty_status a.status empty)
  | inr other ↦ (a, refl, json_or_crash-IsOk a.status a.json (ground arith))
]

pub relay_caught_or_empty-IsOk :
    (o : Option Answer) → succeeded (relay_caught_or_empty o) ≡ true → IsOkAnswer o
unfolding relay_caught_or_empty succeeded
relay_caught_or_empty-IsOk none h = cc
relay_caught_or_empty-IsOk (some a) h = elim (Bool-cases (nat_eq a.status 204)) [
  | inl empty ↦ (a, refl, empty_status a.status empty)
  | inr other ↦ (a, refl, json_or_empty-IsOk a.status a.json (ground arith))
]

pub relay_file-IsOk : (o : Option Answer) → succeeded (relay_file o) ≡ true → IsOkAnswer o
unfolding relay_file succeeded
relay_file-IsOk none h = cc
relay_file-IsOk (some a) h = elim (Bool-cases (is_ok a.status)) [
  | inl ok ↦ (a, refl, ok)
  | inr failed ↦ (a, refl, json_or_crash-IsOk a.status a.json (ground arith))
]

local_status : Reply → ℕ
local_status (local status detail) = status
local_status (upstream q) = 500

-- What a proxy answers by itself is no success.
local_fails :
    (json_content no_store : Bool) (cookie base : Option String) (c : Call)
    → is_ok (local_status (fetch_with json_content no_store cookie base c)) ≡ false
unfolding local_status
local_fails j n cookie base c =
    rw (fetch_with_lem j n cookie base c) (elim (Bool-cases (present cookie)) [
      | inl signed_in ↦ elim (Bool-cases (present base)) [
        | inl configured ↦ rw (signed_in, configured) refl
        | inr not_configured ↦ rw (signed_in, not_configured) refl
      ]
      | inr signed_out ↦ rw signed_out refl
    ])

reply-IsGranted :
    (json_content no_store : Bool) (s : Server) (c : Call) (r : Reply)
    → fetch_with json_content no_store s.cookie s.base_url c ≡ r
    → IsOkAnswer (answer_to s r)
    → IsGranted s
unfolding answer_to local_status
reply-IsGranted j n s c (local status detail) e (a, answered, ok) =
    let fails = local_fails j n s.cookie s.base_url c in
    let bad : is_ok status ≡ false = rw e at fails in
    let same : status ≡ a.status = ap (λ (x : Answer). x.status) (some-injective _ _ answered) in
    let clash : false ≡ true = sym bad ∙ (ap is_ok same ∙ ok) in cc
reply-IsGranted j n s c (upstream q) e (a, answered, ok) = record {
  signed_in = (sent_with_token j n s.cookie s.base_url c q e).0;
  request = q;
  answer = a;
  asked = answered;
  authorized = (sent_with_token j n s.cookie s.base_url c q e).2;
  granted = ok;
}

pub fetch-IsGranted :
    (json_content no_store : Bool) (s : Server) (c : Call)
    → IsOkAnswer (answer_to s (fetch_with json_content no_store s.cookie s.base_url c))
    → IsGranted s
fetch-IsGranted j n s c h = reply-IsGranted j n s c _ refl h

pub call-IsGranted :
    (json_content : Bool) (s : Server) (c : Call) → IsOkAnswer (call json_content s c) → IsGranted s
unfolding call
call-IsGranted j s c h = fetch-IsGranted j true s c h

text-IsGranted :
    (s : Server) (c : String → Call) (body : Option String)
    → succeeded (text_or_400 body (λ b. relay_or_empty (call true s (c b)))) ≡ true
    → IsGranted s
unfolding succeeded
text-IsGranted s c none h = cc
text-IsGranted s c (some b) h = call-IsGranted true s (c b) (relay_or_empty-IsOk _ h)

pub draft-IsGranted :
    (s : Server) (c : String → Call) (payload : Option Json)
    → succeeded (with_draft payload (λ body. relay_or_empty (call true s (c body)))) ≡ true
    → IsGranted s
unfolding succeeded
draft-IsGranted s c none h = cc
draft-IsGranted s c (some null) h = cc
draft-IsGranted s c (some payload) h = text-IsGranted s c (as_text (get "body" payload)) h
