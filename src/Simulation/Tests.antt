-- ===== src/Simulation/Tests.antt =====
-- The rebuild panel on short runs.
use meadow_ops.Base.{none, some, List, [], ◌∷◌}
use meadow_ops.Simulation.{
  RebuildState, running, RepopulateStatus, RepopulatePanel, Event, type_word, press_start,
  start_result, started, poll_tick, poll_result, run, initial,
}
use meadow_ops.Simulation.Rebuild.{IsWatched, run-initial-IsWatched}

abbrev status_with : RebuildState → RepopulateStatus
status_with state = record { state = state; days_done = 0; days_total = 90; message = none }

abbrev one_rebuild : List Event
one_rebuild =
    type_word "REPOPULATE"
    ∷ press_start
    ∷ start_result (started (status_with running))
    ∷ poll_tick
    ∷ poll_result (some (status_with running))
    ∷ []

run-initial-IsWatched_example : IsWatched (run one_rebuild initial)
run-initial-IsWatched_example = run-initial-IsWatched one_rebuild

abbrev until_tick : List Event
until_tick =
    type_word "REPOPULATE"
    ∷ press_start
    ∷ start_result (started (status_with running))
    ∷ poll_tick
    ∷ []

abbrev two_polls : RepopulatePanel
two_polls = run until_tick initial

abbrev worded : RepopulatePanel
worded = run (type_word "REPOPULATE" ∷ []) initial
