-- ===== src/Feed/Marking.antt =====
-- Marking as read is optimistic: what is shown against what the backend has taken.
use meadow_ops.Base.{
  ◌≡◌, refl, ap, String, true, false, ◌&&◌, ◌||◌, List, [], ◌∷◌, ◌==◌, eq_iff, if◌then◌else◌,
  text_cases, arith, inl, inr,
}
use meadow_ops.Feed.{
  NotificationFeedItem, Marks, Event, press, answer, Outcome, stored_read, not_stored, threw, step,
  panel_step, run, initial_marks, mark_read, handle_mark_read, mark_answered, can_mark_read, member,
  remove, add_id,
}

member-remove :
    (id j : String) (ids : List String)
    → member j (remove id ids) ≡ (if id == j then false else member j ids)
member-remove id j [] = ground arith
member-remove id j (i ∷ ids) =
    ground (arith, member-remove id j ids, eq_iff id j, eq_iff i id, eq_iff i j)

member-add_id :
    (id j : String) (ids : List String) → member j (add_id id ids) ≡ (id == j || member j ids)
member-add_id id j ids = elim (text_cases id j) [
  | inl same ↦ let moved = ap (λ x. member x ids) same in ground (arith, eq_iff id j)
  | inr other ↦ ground arith
]

-- Of one id: it is shown as read exactly if it was read at first, its post is on its way, the backend
-- took it, or its post threw; and if its post is on its way, none of the others holds.
pub record AgreesAt (first : List String) (s : Marks) (id : String) : Type 0 where
  pub shown :
      member id s.read_ids
      ≡ (member id first || (member id s.waiting || (member id s.stored || member id s.lost)))
  pub separate :
      (member id s.waiting && (member id first || (member id s.stored || member id s.lost))) ≡ false

mark_read-AgreesAt :
    (first : List String) (s : Marks) (i id : String)
    → member i s.read_ids ≡ false
    → AgreesAt first s id
    → AgreesAt first (mark_read i s) id
unfolding mark_read
mark_read-AgreesAt first s i id fresh v = elim (text_cases i id) [
  | inl same ↦
      let moved = ap (λ x. member x s.read_ids) same in
      ground (arith, eq_iff i id, member-add_id i id s.read_ids)
  | inr other ↦ ground (arith, member-add_id i id s.read_ids)
]

mark_answered-AgreesAt :
    (first : List String) (s : Marks) (i id : String) (o : Outcome)
    → member i s.waiting ≡ true
    → AgreesAt first s id
    → AgreesAt first (mark_answered i o s) id
unfolding mark_answered
mark_answered-AgreesAt first s i id stored_read out v = elim (text_cases i id) [
  | inl same ↦
      let moved = ap (λ x. member x s.waiting) same in
      ground (arith, eq_iff i id, member-remove i id s.waiting)
  | inr other ↦ ground (arith, member-remove i id s.waiting)
]
mark_answered-AgreesAt first s i id not_stored out v = elim (text_cases i id) [
  | inl same ↦
      let moved = ap (λ x. member x s.waiting) same in
      ground (arith, eq_iff i id, member-remove i id s.waiting, member-remove i id s.read_ids)
  | inr other ↦ ground (arith, member-remove i id s.waiting, member-remove i id s.read_ids)
]
mark_answered-AgreesAt first s i id threw out v = elim (text_cases i id) [
  | inl same ↦
      let moved = ap (λ x. member x s.waiting) same in
      ground (arith, eq_iff i id, member-remove i id s.waiting)
  | inr other ↦ ground (arith, member-remove i id s.waiting)
]

step-AgreesAt :
    (first : List String) (id : String) (e : Event) (s : Marks)
    → AgreesAt first s id
    → AgreesAt first (step e s) id
unfolding step can_mark_read
step-AgreesAt first id (press item) s v = ground (arith, mark_read-AgreesAt first s item.id id)
step-AgreesAt first id (answer i o) s v = ground (arith, mark_answered-AgreesAt first s i id o)

run-AgreesAt :
    (first : List String) (id : String) (es : List Event) (s : Marks)
    → AgreesAt first s id
    → AgreesAt first (run es s) id
unfolding run
run-AgreesAt first id [] s v = v
run-AgreesAt first id (e ∷ es) s v =
    run-AgreesAt first id es (step e s) (step-AgreesAt first id e s v)

-- After any presses and answers, in any order: a notification is shown as read exactly if it was read
-- when the page was rendered, its post is on its way, the backend took its post, or its post threw;
-- and a post on its way is for one that was not read at first and whose posts neither were taken nor
-- threw.
pub run-initial_marks-AgreesAt :
    (items : List NotificationFeedItem) (es : List Event) (id : String)
    → AgreesAt (initial_marks items).read_ids (run es (initial_marks items)) id
run-initial_marks-AgreesAt items es id =
    run-AgreesAt (initial_marks items).read_ids id es (initial_marks items)
      (unfold initial_marks in ground arith)

-- The Builder's panel and orbynadmin's list mark alike: the early return of the one is never taken
-- where the button of the other is rendered.
pub panel_step_lem : (e : Event) (s : Marks) → panel_step e s ≡ step e s
unfolding panel_step step can_mark_read handle_mark_read mark_read
panel_step_lem (press item) s = ground arith
panel_step_lem (answer id o) s = refl
