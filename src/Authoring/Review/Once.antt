-- ===== src/Authoring/Review/Once.antt =====
-- What is recorded for a thread is recorded once.
use meadow_ops.Base.{
  ℕ, ◌≤◌, ◌≡◌, Bool, true, false, not, ◌&&◌, Option, none, some, List, [], ◌∷◌, if◌then◌else◌,
  truthy, All, is_some, arith,
}
use meadow_ops.Base.Response.{no_answer, response}
use meadow_ops.Authoring.Review.{
  DifficultyRecommendation, HumanReviewVerdict, agree, override, LoadState, loading, loaded, idle,
  ExportState, PortfolioDialog, ExportEvent, open_changes, export_arrives, export_step, export_run,
  closed_dialog, handle_open_change, export_answered,
}
use meadow_ops.Authoring.Review.Human.{
  HumanReviewCreate, HumanReviewSection, review_loaded, shows_form, Event, load_ends, fill, submit,
  submit_ends, step, run, mounted_section,
}

-- A body that the backend takes: a name and notes that are not empty, and a
-- recommendation for an override alone.
abbrev pub matches_verdict : HumanReviewVerdict → Option DifficultyRecommendation → Bool
matches_verdict agree none = true
matches_verdict override (some d) = true
matches_verdict _ _ = false

pub record IsComplete (b : HumanReviewCreate) : Type 0 where
  pub named : truthy b.reviewer_name ≡ true
  pub noted : truthy b.tier_assessment_notes ≡ true
  pub matching : matches_verdict b.verdict b.overridden_recommendation ≡ true

abbrev is_loaded : LoadState → Bool
is_loaded loaded = true
is_loaded _ = false

abbrev is_loading : LoadState → Bool
is_loading loading = true
is_loading _ = false

-- Between any two events: every body that was posted is complete, and none was accepted, or one, and
-- then it is shown in place of the form.
pub record IsRecordedOnce (s : HumanReviewSection) : Type 0 where
  pub complete : All IsComplete s.posted
  pub once : s.recorded ≤ 1
  pub kept : (if is_loaded s.state && is_some s.review then 0 else s.recorded) ≡ 0
  pub offered : (if s.submitting then shows_form s.state s.review else true) ≡ true
  pub loads_first : (if s.awaited then is_loading s.state else true) ≡ true

abbrev pub is_stuck : HumanReviewSection → Bool
is_stuck s = is_loading s.state && (not s.awaited && not s.submitting)

run-is_stuck :
    (es : List Event) (s : HumanReviewSection) → is_stuck s ≡ true → (run es s).state ≡ loading
unfolding run step shows_form
run-is_stuck [] s h = ground arith
run-is_stuck (load_ends r ∷ es) s h = run-is_stuck es (step (load_ends r) s) (ground arith)
run-is_stuck (fill i ∷ es) s h = run-is_stuck es (step (fill i) s) (ground arith)
run-is_stuck (submit ∷ es) s h = run-is_stuck es (step submit s) (ground arith)
run-is_stuck (submit_ends r ∷ es) s h = run-is_stuck es (step (submit_ends r) s) (ground arith)

-- If the load of the review ends with an exception, as it does without a network, the section says
-- that it is loading whatever follows.
pub failed_load_hangs :
    (es : List Event) → (run (load_ends no_answer ∷ es) mounted_section).state ≡ loading
unfolding run step review_loaded mounted_section
failed_load_hangs es = run-is_stuck es (step (load_ends no_answer) mounted_section) (ground arith)

abbrev pub before_fetch : ExportState → ℕ → ℕ
before_fetch idle n = n
before_fetch _ n = 0

-- The export is fetched at most once, and a fetch that failed is not repeated.
pub record IsFetchedOnce (s : PortfolioDialog) : Type 0 where
  pub once : s.fetches ≤ 1
  pub idle_before : before_fetch s.state s.fetches ≡ 0

export_step-IsFetchedOnce :
    (e : ExportEvent) (s : PortfolioDialog) → IsFetchedOnce s → IsFetchedOnce (export_step e s)
unfolding export_step handle_open_change export_answered
export_step-IsFetchedOnce (open_changes b) s v = ground arith
export_step-IsFetchedOnce (export_arrives no_answer) s v = ground arith
export_step-IsFetchedOnce (export_arrives (response st none)) s v = ground arith
export_step-IsFetchedOnce (export_arrives (response st (some b))) s v = ground arith

export_run-IsFetchedOnce :
    (es : List ExportEvent) (s : PortfolioDialog)
    → IsFetchedOnce s
    → IsFetchedOnce (export_run es s)
unfolding export_run
export_run-IsFetchedOnce [] s v = v
export_run-IsFetchedOnce (e ∷ es) s v =
    export_run-IsFetchedOnce es (export_step e s) (export_step-IsFetchedOnce e s v)

-- However often the dialog is opened and closed, and whatever is answered, the export is fetched at
-- most once.
pub fetches_at_most_once : (es : List ExportEvent) → (export_run es closed_dialog).fetches ≤ 1
fetches_at_most_once es =
    (export_run-IsFetchedOnce es closed_dialog (unfold closed_dialog in ground arith)).once
