-- ===== src/Simulation/Rebuild.antt =====
-- When a rebuild is started, and what is told of its end.
use meadow_ops.Base.{
  ℕ, suc, ◌-◌, ◌≡◌, refl, true, false, Option, none, some, List, [], ◌∷◌, eq_iff, All, arith,
}
use meadow_ops.Simulation.{
  running, succeeded, RepopulateStatus, RepopulatePanel, Toast, rebuilt, failure, confirm_phrase,
  is_running, set_status, report, started, start_threw, Event, press_start, start_result, poll_tick,
  poll_result, step, run, initial, poll_answered, answer_poll,
}

-- The successful ends that were told.
unfoldable pub successes : List Toast → ℕ
successes [] = 0
successes (rebuilt ∷ ts) = suc (successes ts)
successes (failure text ∷ ts) = successes ts

pub record IsWatched (s : RepopulatePanel) : Type 0 where
  pub watched : s.was_running ≡ is_running s
  pub worded : All (λ w. w ≡ confirm_phrase) s.posted
  pub refreshed : s.refreshes ≡ successes s.toasts

set_status-IsWatched :
    (r : RepopulateStatus) (s : RepopulatePanel) → IsWatched s → IsWatched (set_status r s)
unfolding set_status report successes
set_status-IsWatched r s v = ground arith

answer_poll-IsWatched :
    (n : ℕ) (answer : Option RepopulateStatus) (s : RepopulatePanel)
    → IsWatched s
    → IsWatched (answer_poll n answer s)
unfolding poll_answered
answer_poll-IsWatched ℕ.zero answer s v = v
answer_poll-IsWatched (suc n) none s v = ground arith
answer_poll-IsWatched (suc n) (some r) s v =
    set_status-IsWatched r (record s { polls = s.polls - 1 })
      (record { watched = v.watched; worded = v.worded; refreshed = v.refreshed })

step-IsWatched : (e : Event) (s : RepopulatePanel) → IsWatched s → IsWatched (step e s)
unfolding step
step-IsWatched press_start s v = ground (arith, eq_iff s.typed confirm_phrase)
step-IsWatched (start_result (started r)) s v = ground (
  arith,
  set_status-IsWatched r (record s { typed = ""; is_starting = false })
      (record { watched = v.watched; worded = v.worded; refreshed = v.refreshed }),
)
step-IsWatched (start_result start_threw) s v = unfold successes in ground arith
step-IsWatched (poll_result answer) s v = answer_poll-IsWatched s.polls answer s v
step-IsWatched e s v = unfold successes in ground arith

run-IsWatched : (es : List Event) (s : RepopulatePanel) → IsWatched s → IsWatched (run es s)
unfolding run
run-IsWatched [] s v = v
run-IsWatched (e ∷ es) s v = run-IsWatched es (step e s) (step-IsWatched e s v)

-- After any events: a rebuild is started with the word REPOPULATE alone, the panel remembers whether
-- a rebuild ran at the last render, and the page was refreshed once for each success that was told.
pub run-initial-IsWatched : (es : List Event) → IsWatched (run es initial)
run-initial-IsWatched es =
    run-IsWatched es initial
      (unfold initial successes in record { watched = refl; worded = tt; refreshed = refl })

-- In a panel with `IsWatched` and two polls on their way, while a rebuild runs: the first that
-- answers with success tells it and refreshes the page, and the second tells nothing more.
pub success_told_once :
    (s : RepopulatePanel) (r q : RepopulateStatus)
    → IsWatched s
    → is_running s ≡ true
    → r.state ≡ succeeded
    → q.state ≡ succeeded
    → s.polls ≡ 2
    → let s' = run (poll_result (some r) ∷ poll_result (some q) ∷ []) s in
      (s'.toasts ≡ rebuilt ∷ s.toasts) × (s'.refreshes ≡ suc s.refreshes) × (is_running s' ≡ false)
unfolding run step
success_told_once s r q v live ended again two = ground arith

-- With the word typed and one poll on its way from before: a rebuild is started, and that poll is
-- answered with the success of an earlier one; this is told as the end of the new rebuild, and no
-- further poll is sent.
pub stale_poll_told :
    (s : RepopulatePanel) (now before : RepopulateStatus)
    → s.polls ≡ 1
    → s.typed ≡ confirm_phrase
    → s.is_starting ≡ false
    → is_running s ≡ false
    → now.state ≡ running
    → before.state ≡ succeeded
    → let s' =
        run
          (press_start ∷ start_result (started now) ∷ poll_result (some before) ∷ poll_tick ∷ [])
          s in
      (s'.toasts ≡ rebuilt ∷ s.toasts) × (is_running s' ≡ false) × (s'.polls ≡ 0)
unfolding run step
stale_poll_told s now before one word free rest live ended =
    ground (arith, eq_iff s.typed confirm_phrase)
