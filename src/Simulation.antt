-- ===== src/Simulation.antt =====
-- The rebuild of the simulation from the Builder's application (src/app/(dashboard)/simulation/
-- repopulate-panel.tsx): the confirmation word, the start, the polling of the status and the effect
-- that reports how a rebuild ended. The effect runs after a render in which the state has changed.
pub mod Rebuild
mod Tests
use meadow_ops.Base.{
  ℕ, zero, suc, ◌-◌, String, Bool, true, false, not, ◌||◌, ◌&&◌, Option, none, some, List, [], ◌∷◌,
  ◌==◌, if◌then◌else◌,
}
use meadow_ops.Base.Json.{Json, get, as_text}
use mathlib.Core.Option

pub data RebuildState : Type 0 where
  idle running succeeded failed : RebuildState

pub record RepopulateStatus : Type 0 where
  pub state : RebuildState
  pub days_done : ℕ
  pub days_total : ℕ
  pub message : Option String

pub data Toast : Type 0 where
  rebuilt : Toast
  failure : String → Toast

abbrev pub confirm_phrase : String
confirm_phrase = "REPOPULATE"

unfoldable pub error_detail : Json → String
error_detail body = Option.get_or (as_text (get "detail" body)) "Could not start the rebuild"

-- The state and the ref of `RepopulatePanel`, its toasts and refreshes of the page, the words that
-- were posted (the latest first), and the polls on their way.
pub record RepopulatePanel : Type 0 where
  pub typed : String
  pub status : Option RepopulateStatus
  pub is_starting : Bool
  pub was_running : Bool
  pub toasts : List Toast
  pub refreshes : ℕ
  pub posted : List String
  pub polls : ℕ

abbrev pub is_running_state : Option RebuildState → Bool
is_running_state (some running) = true
is_running_state _ = false

abbrev pub state_of : Option RepopulateStatus → Option RebuildState
state_of none = none
state_of (some r) = some r.state

-- `isRunning`
abbrev pub is_running : RepopulatePanel → Bool
is_running s = is_running_state (state_of s.status)

abbrev pub same_state : Option RebuildState → Option RebuildState → Bool
same_state none none = true
same_state (some idle) (some idle) = true
same_state (some running) (some running) = true
same_state (some succeeded) (some succeeded) = true
same_state (some failed) (some failed) = true
same_state _ _ = false

-- What the effect tells, if a rebuild was running before.
abbrev pub told : Option RebuildState → RepopulatePanel → RepopulatePanel
told (some succeeded) s =
    if s.was_running
    then record s { toasts = rebuilt ∷ s.toasts; refreshes = suc s.refreshes }
    else s
told (some failed) s =
    if s.was_running then record s { toasts = failure "The rebuild failed" ∷ s.toasts } else s
told _ s = s

unfoldable pub report : RepopulatePanel → RepopulatePanel
report s = record (told (state_of s.status) s) { was_running = is_running s }

-- `setStatus`, and the effect if the state has changed.
unfoldable pub set_status : RepopulateStatus → RepopulatePanel → RepopulatePanel
unfolding report
set_status r s =
    let t = record s { status = some r } in
    if same_state (state_of s.status) (some r.state) then t else report t

-- `refreshStatus` before and after its wait; an answer that is not ok, or an exception, is `none`.
unfoldable pub refresh_status : RepopulatePanel → RepopulatePanel
refresh_status s = record s { polls = suc s.polls }

abbrev pub poll_shown : Option RepopulateStatus → RepopulatePanel → RepopulatePanel
poll_shown none s = s
poll_shown (some r) s = set_status r s

unfoldable pub poll_answered : Option RepopulateStatus → RepopulatePanel → RepopulatePanel
unfolding set_status
poll_answered answer s = poll_shown answer (record s { polls = s.polls - 1 })

-- The answer to the start: the status, a refusal with its body, or an exception.
pub data StartAnswer : Type 0 where
  started : RepopulateStatus → StartAnswer
  start_refused : Json → StartAnswer
  start_threw : StartAnswer

-- `handleStart` before and after its wait.
unfoldable pub handle_start : RepopulatePanel → RepopulatePanel
handle_start s = record s { is_starting = true; posted = s.typed ∷ s.posted }

unfoldable pub start_answered : StartAnswer → RepopulatePanel → RepopulatePanel
unfolding set_status
start_answered (started r) s = set_status r (record s { typed = ""; is_starting = false })
start_answered (start_refused body) s = record s {
  toasts = failure (error_detail body) ∷ s.toasts;
  is_starting = false;
}
start_answered start_threw s = record s {
  toasts = failure "Could not reach the server" ∷ s.toasts;
  is_starting = false;
}

pub data Event : Type 0 where
  type_word : String → Event
  press_start : Event
  start_result : StartAnswer → Event
  poll_tick : Event
  poll_result : Option RepopulateStatus → Event

abbrev pub start_disabled : RepopulatePanel → Bool
start_disabled s = not (s.typed == confirm_phrase) || s.is_starting

abbrev pub answer_poll : ℕ → Option RepopulateStatus → RepopulatePanel → RepopulatePanel
answer_poll zero answer s = s
answer_poll (suc n) answer s = poll_answered answer s

-- The input and the button are rendered while no rebuild runs, and the poll's timer is set while one
-- does.
unfoldable pub step : Event → RepopulatePanel → RepopulatePanel
unfolding refresh_status poll_answered handle_start start_answered
step (type_word text) s = if is_running s then s else record s { typed = text }
step press_start s = if is_running s || start_disabled s then s else handle_start s
step (start_result a) s = if s.is_starting then start_answered a s else s
step poll_tick s = if is_running s then refresh_status s else s
step (poll_result answer) s = answer_poll s.polls answer s

unfoldable pub run : List Event → RepopulatePanel → RepopulatePanel
run [] s = s
run (e ∷ es) s = run es (step e s)

-- The first render, with the poll that the effect on mounting sends.
unfoldable pub initial : RepopulatePanel
initial = record {
  typed = "";
  status = none;
  is_starting = false;
  was_running = false;
  toasts = [];
  refreshes = 0;
  posted = [];
  polls = 1;
}
