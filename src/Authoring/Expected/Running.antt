-- ===== src/Authoring/Expected/Running.antt =====
-- The panel of the expected query over any events.
use meadow_ops.Base.{◌≡◌, String, true, false, List, [], ◌∷◌, if◌then◌else◌, ltb, arith}
use meadow_ops.Authoring.Expected.{
  ExpectedQueryPanel, ran, run_refused, run_threw, handle_run, run_answered, handle_copy,
  copy_timer_fires, Event, run_ends, press_copy, step, run, first_panel,
}

-- The mark of a copy is shown only while a timer will take it away.
pub record IsMarked (s : ExpectedQueryPanel) : Type 0 where
  pub marked : (if s.copied then ltb 0 s.copy_timers else true) ≡ true

step-IsMarked : (e : Event) (s : ExpectedQueryPanel) → IsMarked s → IsMarked (step e s)
unfolding step handle_run run_answered handle_copy copy_timer_fires
step-IsMarked (run_ends (ran r)) s v = ground arith
step-IsMarked (run_ends (run_refused body)) s v = ground arith
step-IsMarked (run_ends run_threw) s v = ground arith
step-IsMarked (press_copy true) s v = ground arith
step-IsMarked (press_copy false) s v = ground arith
step-IsMarked e s v = ground arith

run-IsMarked : (es : List Event) (s : ExpectedQueryPanel) → IsMarked s → IsMarked (run es s)
unfolding run
run-IsMarked [] s v = v
run-IsMarked (e ∷ es) s v = run-IsMarked es (step e s) (step-IsMarked e s v)

-- After any events at the panel, "Copied" is shown only while a timer that takes it away is set.
pub run-first_panel-IsMarked :
    (query : String) (es : List Event) → IsMarked (run es (first_panel query))
run-first_panel-IsMarked query es =
    run-IsMarked es (first_panel query) (unfold first_panel in ground arith)
