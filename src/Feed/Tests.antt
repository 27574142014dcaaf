-- ===== src/Feed/Tests.antt =====
-- Two notifications: one is marked, and the backend refuses.
use meadow_ops.Base.{ℕ, ◌≡◌, refl, String, false, List, [], ◌∷◌}
use meadow_ops.Chat.{persona_label}
use meadow_ops.Feed.{
  NotificationFeedItem, Kind, deadline_missed, new_reply, notification_title, Event, press, answer,
  not_stored, step, run, initial_marks, mark_read, mark_answered, can_mark_read,
}
use meadow_ops.Feed.Marking.{AgreesAt, run-initial_marks-AgreesAt}

abbrev item_with : String → Kind → NotificationFeedItem
item_with id kind = record {
  id = id;
  kind = kind;
  thread_id = "t1";
  persona = "cfo";
  scenario_title = "Late";
  unread_count = 2;
  occurred_at = "2026-01-01";
  is_read = false;
}

abbrev items : List NotificationFeedItem
items = item_with "n1" deadline_missed ∷ item_with "n2" new_reply ∷ []

abbrev printed : ℕ → String
printed n = "2"

title_test : notification_title printed (item_with "n2" new_reply) ≡ "2 new messages from CFO"
unfolding notification_title persona_label
title_test = refl

abbrev events : List Event
events = press (item_with "n1" deadline_missed) ∷ answer "n1" not_stored ∷ []

refused_test : (run events (initial_marks items)).read_ids ≡ []
unfolding run step initial_marks mark_read mark_answered can_mark_read
refused_test = refl

run-initial_marks-AgreesAt_example :
    AgreesAt (initial_marks items).read_ids (run events (initial_marks items)) "n1"
run-initial_marks-AgreesAt_example = run-initial_marks-AgreesAt items events "n1"
