-- ===== src/Feed.antt =====
-- Notifications: lib/notification-feed.ts, lib/role-label.ts, components/notifications-menu.tsx and
-- app/(app)/notifications/notifications-list.tsx of orbynadmin's src, and dashboard/components/
-- notifications-panel.tsx of the Builder's application (src/app/(dashboard)).
pub mod Marking
pub mod Menu
mod Tests
use meadow_ops.Base.{
  ℕ, zero, suc, String, Bool, true, false, not, ◌&&◌, ◌||◌, Option, none, some, List, [], ◌∷◌, map,
  ◌==◌, ◌<>◌, if◌then◌else◌, ltb, nat_eq, length, any, filter, find,
}
use meadow_ops.Base.Response.{Response, no_answer, response, is_ok}
use meadow_ops.Chat.{persona_label}

pub data Kind : Type 0 where
  deadline_approaching deadline_missed new_reply : Kind

pub record NotificationFeedItem : Type 0 where
  pub id : String
  pub kind : Kind
  pub thread_id : String
  pub persona : String
  pub scenario_title : String
  pub unread_count : ℕ
  pub occurred_at : String
  pub is_read : Bool

-- `printed` is how JavaScript prints a number.
module _ (printed : ℕ → String) where
  abbrev title : Kind → ℕ → String → String
  title new_reply n who =
      if ltb 1 n then printed n <> (" new messages from " <> who) else "New message from " <> who
  title deadline_approaching n who = "Response due soon: " <> who
  title deadline_missed n who = "Response overdue: " <> who

  unfoldable pub notification_title : NotificationFeedItem → String
  unfolding persona_label
  notification_title item = title item.kind item.unread_count (persona_label item.persona)

  -- The badge of the bell, if there is one.
  unfoldable pub badge : ℕ → Option String
  badge unread = if ltb 0 unread then some (if ltb 9 unread then "9+" else printed unread) else none

abbrev pub is_unread : NotificationFeedItem → Bool
is_unread item = not item.is_read

unfoldable pub unread_count : List NotificationFeedItem → ℕ
unread_count items = length (filter is_unread items)

-- `items.slice(0, n)`
abbrev pub take {ℓ} : {A : Type ℓ} → ℕ → List A → List A
take zero xs = []
take (suc n) [] = []
take (suc n) (x ∷ xs) = x ∷ take n xs

-- `NotificationsMenu`: `refresh` takes over an answer that is ok and a list.
unfoldable pub refresh_answered :
    Response
    → Option (List NotificationFeedItem)
    → List NotificationFeedItem
    → List NotificationFeedItem
refresh_answered no_answer body items = items
refresh_answered (response status fields) none items = items
refresh_answered (response status fields) (some fetched) items =
    if is_ok status then fetched else items

abbrev pub menu_item_limit : ℕ
menu_item_limit = 5

unfoldable pub shown_items : List NotificationFeedItem → List NotificationFeedItem
shown_items items = take menu_item_limit items

unfoldable pub role_label : Option String → String
role_label none = "User"
role_label (some role) =
    if role == "admin" then "Builder" else if role == "analyst" then "Analyst" else "User"

unfoldable pub role_detail : Option String → String
role_detail none = "Signed in"
role_detail (some role) =
    if role == "admin"
    then "Admin account"
    else if role == "analyst"
    then "Analyst account"
    else "Signed in"

abbrev pub member : String → List String → Bool
member id ids = any (λ i. i == id) ids

abbrev pub remove : String → List String → List String
remove id ids = filter (λ i. not (i == id)) ids

-- `NotificationsList` and `NotificationsPanel`: the set of read ids and the posts on their way; and
-- of those that were answered, the ids that the backend took as read, and those whose fetch threw.
pub record Marks : Type 0 where
  pub items : List NotificationFeedItem
  pub read_ids : List String
  pub waiting : List String
  pub stored : List String
  pub lost : List String

abbrev pub ids_of : List NotificationFeedItem → List String
ids_of [] = []
ids_of (item ∷ items) = item.id ∷ ids_of items

unfoldable pub initial_marks : List NotificationFeedItem → Marks
initial_marks items = record {
  items = items;
  read_ids = ids_of (filter (λ (item : NotificationFeedItem). item.is_read) items);
  waiting = [];
  stored = [];
  lost = [];
}

-- `new Set(prev).add(id)`
abbrev pub add_id : String → List String → List String
add_id id ids = if member id ids then ids else id ∷ ids

unfoldable pub mark_read : String → Marks → Marks
mark_read id s = record s { read_ids = add_id id s.read_ids; waiting = id ∷ s.waiting }

-- The Builder's `handleMarkRead` returns early for an id that is read.
unfoldable pub handle_mark_read : String → Marks → Marks
handle_mark_read id s =
    if member id s.read_ids
    then s
    else record s { read_ids = add_id id s.read_ids; waiting = id ∷ s.waiting }

-- What became of a POST: ok, not ok, or an exception, which neither component catches.
pub data Outcome : Type 0 where
  stored_read not_stored threw : Outcome

unfoldable pub mark_answered : String → Outcome → Marks → Marks
mark_answered id stored_read s = record s { waiting = remove id s.waiting; stored = id ∷ s.stored }
mark_answered id not_stored s = record s {
  read_ids = remove id s.read_ids;
  waiting = remove id s.waiting;
}
mark_answered id threw s = record s { waiting = remove id s.waiting; lost = id ∷ s.lost }

abbrev pub is_reply : Kind → Bool
is_reply new_reply = true
is_reply _ = false

-- `Mark read` is rendered for an item that is no reply and not read.
unfoldable pub can_mark_read : Marks → NotificationFeedItem → Bool
can_mark_read s item = not (is_reply item.kind) && not (member item.id s.read_ids)

pub data Event : Type 0 where
  press : NotificationFeedItem → Event
  answer : String → Outcome → Event

unfoldable pub step : Event → Marks → Marks
unfolding can_mark_read mark_read mark_answered
step (press item) s = if can_mark_read s item then mark_read item.id s else s
step (answer id o) s = if member id s.waiting then mark_answered id o s else s

-- The same with the Builder's handler.
unfoldable pub panel_step : Event → Marks → Marks
unfolding can_mark_read handle_mark_read mark_answered
panel_step (press item) s = if can_mark_read s item then handle_mark_read item.id s else s
panel_step (answer id o) s = if member id s.waiting then mark_answered id o s else s

unfoldable pub run : List Event → Marks → Marks
run [] s = s
run (e ∷ es) s = run es (step e s)
