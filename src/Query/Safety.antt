-- ===== src/Query/Safety.antt =====
-- What is confirmed, and whether it is what was reviewed.
use meadow_ops.Base.{
  ℕ, ◌+◌, ◌≤◌, ◌≡◌, refl, String, Bool, true, false, not, ◌||◌, ◌&&◌, none, some, List, [], ◌∷◌,
  ◌==◌, eq_refl, trim, is_some, arith,
}
use meadow_ops.Query.{
  Execute, StatementPreview, Playground, confirmation_required, Event, edit, insert, press_run,
  answer, confirm, decline, dismiss, step, run, initial,
}

abbrev pub one_if : Bool → ℕ
one_if true = 1
one_if false = 0

-- The requests that were posted as confirmed, and the answers among events that ask for confirmation.
unfoldable pub confirmed_count : List Execute → ℕ
confirmed_count [] = 0
confirmed_count (x ∷ xs) = one_if x.confirmed + confirmed_count xs

abbrev pub prompts_of : Event → ℕ
prompts_of (answer (confirmation_required p)) = 1
prompts_of _ = 0

unfoldable pub prompts : List Event → ℕ
prompts [] = 0
prompts (e ∷ es) = prompts_of e + prompts es

-- Confirmed requests and open prompts.
abbrev pub spent : Playground → ℕ
spent s = confirmed_count s.posted + one_if (is_some s.pending_confirmation)

abbrev IsIdle : Playground → Type 0
IsIdle s = (s.running && is_some s.pending_confirmation) ≡ false

step-spent :
    (e : Event) (s : Playground)
    → IsIdle s
    → IsIdle (step e s) × (spent (step e s) ≤ spent s + prompts_of e)
unfolding step confirmed_count
step-spent (answer (confirmation_required p)) s v = ground arith
step-spent e s v = ground arith

run-spent : (es : List Event) (s : Playground) → IsIdle s → spent (run es s) ≤ spent s + prompts es
unfolding run prompts
run-spent [] s v = omega arith
run-spent (e ∷ es) s v =
    let (still, one) = step-spent e s v in let rest = run-spent es (step e s) still in omega arith

-- In every run, no more requests are sent as confirmed than the backend asked for confirmations.
pub confirmed_by_prompts : (es : List Event) → confirmed_count (run es initial).posted ≤ prompts es
confirmed_by_prompts es =
    let all = run-spent es initial (unfold initial in refl) in
    let none_yet : spent initial ≡ 0 = unfold initial confirmed_count in refl in omega arith

-- The statement of a confirmed request is the one that was posted before it.
abbrev pub follows : Execute → List Execute → Bool
follows x [] = not x.confirmed
follows x (y ∷ ys) = not x.confirmed || y.sql == x.sql

unfoldable pub reviewed : List Execute → Bool
reviewed [] = true
reviewed (x ∷ xs) = follows x xs && reviewed xs

-- The statement in the editor is the one that was posted last.
abbrev pub posted_last : String → List Execute → Bool
posted_last statement [] = false
posted_last statement (x ∷ xs) = x.sql == statement

abbrev pub is_edit : Event → Bool
is_edit (edit text) = true
is_edit (insert text) = true
is_edit _ = false

-- Whether the editor is used while a query runs.
unfoldable pub edits_while_running : List Event → Playground → Bool
edits_while_running [] s = false
edits_while_running (e ∷ es) s =
    let rest = edits_while_running es (step e s) in (s.running && is_edit e) || rest

pub record IsReviewed (s : Playground) : Type 0 where
  pub idle : (s.running && is_some s.pending_confirmation) ≡ false
  pub same :
      (s.running || is_some s.pending_confirmation) ≡ true → posted_last s.statement s.posted ≡ true
  pub all : reviewed s.posted ≡ true

posted_last-reviewed :
    (statement : String) (xs : List Execute)
    → posted_last statement xs ≡ true
    → reviewed xs ≡ true
    → reviewed (record { sql = statement; confirmed = true } ∷ xs) ≡ true
unfolding reviewed
posted_last-reviewed statement [] p v = ground arith
posted_last-reviewed statement (x ∷ xs) p v = ground arith

unconfirmed-reviewed :
    (statement : String) (xs : List Execute)
    → reviewed xs ≡ true
    → reviewed (record { sql = statement; confirmed = false } ∷ xs) ≡ true
unfolding reviewed
unconfirmed-reviewed statement [] v = ground arith
unconfirmed-reviewed statement (x ∷ xs) v = ground arith

step-IsReviewed :
    (e : Event) (s : Playground)
    → (s.running && is_edit e) ≡ false
    → IsReviewed s
    → IsReviewed (step e s)
unfolding step
step-IsReviewed press_run s q v =
    ground (arith, unconfirmed-reviewed s.statement s.posted, eq_refl s.statement)
step-IsReviewed (answer (confirmation_required p)) s q v = ground arith
step-IsReviewed confirm s q v =
    ground (arith, posted_last-reviewed s.statement s.posted, eq_refl s.statement)
step-IsReviewed e s q v = ground arith

run-IsReviewed :
    (es : List Event) (s : Playground)
    → edits_while_running es s ≡ false
    → IsReviewed s
    → IsReviewed (run es s)
unfolding run edits_while_running
run-IsReviewed [] s q v = v
run-IsReviewed (e ∷ es) s q v =
    run-IsReviewed es (step e s) (ground arith) (step-IsReviewed e s (ground arith) v)

-- In every run in which the editor is not used while a query runs, each confirmed request has the
-- statement of the request that was posted just before it.
pub confirmed_as_reviewed :
    (es : List Event)
    → edits_while_running es initial ≡ false
    → reviewed (run es initial).posted ≡ true
confirmed_as_reviewed es quiet =
    (run-IsReviewed es initial quiet
      (unfold initial reviewed in record { idle = refl; same = λ h. cc; all = refl })).all

-- From an idle page with a statement that is not blank: text that is typed while the statement runs
-- is sent as confirmed when the dialog that shows the statement is confirmed.
pub confirms_unreviewed :
    (s : Playground) (typed : String) (shown : List StatementPreview)
    → s.running ≡ false
    → s.pending_confirmation ≡ none
    → trim s.statement == "" ≡ false
    → let s' =
        run
          (press_run ∷ edit typed ∷ answer (confirmation_required (some shown)) ∷ confirm ∷ [])
          s in
      s'.posted
      ≡ record { sql = typed; confirmed = true }
        ∷ record { sql = s.statement; confirmed = false }
        ∷ s.posted
unfolding run step
confirms_unreviewed s typed shown idle closed text = ground arith

-- Closing the dialog by the Escape key or the overlay records no cancellation; the Cancel button
-- records one.
pub dismissal_unrecorded :
    (s : Playground) (shown : List StatementPreview)
    → s.pending_confirmation ≡ some shown
    → ((step dismiss s).cancelled ≡ s.cancelled)
      × ((step dismiss s).pending_confirmation ≡ none)
      × ((step decline s).cancelled ≡ s.statement ∷ s.cancelled)
      × ((step decline s).pending_confirmation ≡ none)
unfolding step
dismissal_unrecorded s shown open_dialog = ground arith
