-- ===== src/Chat/Composer/Invariant.antt =====
-- What holds of the composer between any two events.
use meadow_ops.Base.{
  ℕ, ◌≤◌, ◌≡◌, refl, String, Bool, true, false, Option, none, some, List, [], ◌∷◌, ◌==◌,
  if◌then◌else◌, eq_iff, eq_refl, length, Bool-cases, arith, inl, inr,
}
use meadow_ops.Draft.{WebStorage}
use meadow_ops.Chat.{ChatThread, is_completed}
use meadow_ops.Chat.Composer.{
  Sync, Sending, Composer, Outcome, abort, fire_sync, cleanup, enter, flush, change, callback,
  handle_send, sent, refused, threw, send_answered,
}
use meadow_ops.Chat.Composer.Steps.{
  Event, step, run, initial, composing, send_disabled, attach_disabled, answer_send,
}
use meadow_ops.Chat.Composer.Wire.{live, current, live-abort, current_of_live, live-fire_sync}

-- A sync that is due belongs to the thread that is shown.
abbrev pub owned : Option Sync → Option ChatThread → Bool
owned none t = true
owned (some p) none = false
owned (some p) (some t) = p.thread_id == t.id

abbrev pub one_if : Bool → ℕ
one_if true = 1
one_if false = 0

pub record IsConsistent {Store : Type 0} (s : Composer Store) : Type 0 where
  pub armed : s.sync_timer ≡ s.pending_sync
  pub owner : owned s.pending_sync s.thread ≡ true
  pub at_most_one : live s.wire ≤ 1
  pub signalled : current s.sync_abort s.wire ≡ true
  pub single_send : length s.sends ≡ one_if s.sending

module _ (w : WebStorage) where
  open w use {Store}

  fire_sync-IsConsistent :
      (p : Sync) (s : Composer Store)
      → current s.sync_abort s.wire ≡ true
      → length s.sends ≡ one_if s.sending
      → s.sync_timer ≡ none
      → IsConsistent (fire_sync w p s)
  fire_sync-IsConsistent p s h k off =
      let (one, named) = live-fire_sync w p s h in
      record {
        armed = unfold fire_sync in off;
        owner = unfold fire_sync in refl;
        at_most_one = omega arith;
        signalled = named;
        single_send = unfold fire_sync in k;
      }

  -- No sync is due.
  abbrev IsIdle : Composer Store → Type 0
  IsIdle s = (s.sync_timer ≡ none) × (s.pending_sync ≡ none)

  flush-IsConsistent :
      (p : Option Sync) (s : Composer Store)
      → current s.sync_abort s.wire ≡ true
      → length s.sends ≡ one_if s.sending
      → s.sync_timer ≡ none
      → live s.wire ≤ 1
      → s.pending_sync ≡ p
      → IsConsistent (flush w p s)
  flush-IsConsistent none s h k off one e = ground arith
  flush-IsConsistent (some p) s h k off one e = fire_sync-IsConsistent p s h k off

  cleanup-IsConsistent : (s : Composer Store) → IsConsistent s → IsConsistent (cleanup w s)
  unfolding cleanup
  cleanup-IsConsistent s v =
      flush-IsConsistent s.pending_sync (record s { sync_timer = none }) v.signalled v.single_send
        refl v.at_most_one refl

  pub cleanup-IsIdle : (s : Composer Store) → IsIdle (cleanup w s)
  unfolding cleanup fire_sync
  cleanup-IsIdle s = ground arith

  enter-IsConsistent :
      (t : Option ChatThread) (s : Composer Store)
      → IsConsistent s
      → IsIdle s
      → IsConsistent (enter w t s)
  unfolding enter
  enter-IsConsistent none s v idle = ground arith
  enter-IsConsistent (some t) s v idle = ground arith

  enter-cleanup-IsConsistent :
      (t : Option ChatThread) (s : Composer Store)
      → IsConsistent s
      → IsConsistent (enter w t (cleanup w s))
  enter-cleanup-IsConsistent t s v =
      enter-IsConsistent t (cleanup w s) (cleanup-IsConsistent s v) (cleanup-IsIdle s)

  change-IsConsistent :
      (u t : Option ChatThread) (s : Composer Store)
      → s.thread ≡ u
      → IsConsistent s
      → IsConsistent (change w u t s)
  change-IsConsistent none none s e v = v
  change-IsConsistent none (some t) s e v = enter-IsConsistent (some t) s v (ground arith)
  change-IsConsistent (some u) none s e v = enter-cleanup-IsConsistent none s v
  change-IsConsistent (some u) (some t) s e v = elim (Bool-cases (u.id == t.id)) [
    | inl same ↦ rw same (ground (arith, eq_iff u.id t.id))
    | inr other ↦ rw other (enter-cleanup-IsConsistent (some t) s v)
  ]

  callback-IsConsistent :
      (p : Option Sync) (s : Composer Store) → IsConsistent s → IsConsistent (callback w p s)
  callback-IsConsistent none s v = v
  callback-IsConsistent (some p) s v =
      fire_sync-IsConsistent p (record s { sync_timer = none }) v.signalled v.single_send refl

  handle_send-IsConsistent :
      (id : String) (s : Composer Store) → IsConsistent s → IsConsistent (handle_send w id s)
  unfolding handle_send
  handle_send-IsConsistent id s v =
      let none_left = live-abort s.sync_abort s.wire v.signalled in
      ground (arith, none_left, current_of_live s.sync_abort (abort s.sync_abort s.wire) none_left)

  composing-IsConsistent :
      (u : Option ChatThread) (act : ChatThread → Composer Store) (s : Composer Store)
      → IsConsistent s
      → ((t : ChatThread) → u ≡ some t → IsConsistent (act t))
      → IsConsistent (composing w u act s)
  composing-IsConsistent none act s v h = v
  composing-IsConsistent (some t) act s v h = elim (Bool-cases (is_completed t.status)) [
    | inl done ↦ rw done v
    | inr open_thread ↦ rw open_thread (h t refl)
  ]

  if-IsConsistent :
      (b : Bool) (s t : Composer Store)
      → IsConsistent s
      → IsConsistent t
      → IsConsistent (if b then s else t)
  if-IsConsistent true s t v u = v
  if-IsConsistent false s t v u = u

  answer_send-IsConsistent :
      (o : Outcome) (ps : List Sending) (s : Composer Store)
      → s.sends ≡ ps
      → IsConsistent s
      → IsConsistent (answer_send w o ps s)
  unfolding send_answered
  answer_send-IsConsistent o [] s e v = v
  answer_send-IsConsistent sent (p ∷ ps) s e v = ground arith
  answer_send-IsConsistent refused (p ∷ ps) s e v = ground arith
  answer_send-IsConsistent threw (p ∷ ps) s e v = ground arith

  -- Every event keeps the composer consistent.
  pub step-IsConsistent :
      (e : Event) (s : Composer Store) → IsConsistent s → IsConsistent (step w e s)
  unfolding step
  step-IsConsistent (Event.show t) s v = change-IsConsistent s.thread t s refl v
  step-IsConsistent (Event.type_text x) s v =
      composing-IsConsistent s.thread _ s v (λ t e. ground (arith, eq_refl t.id))
  step-IsConsistent Event.debounce_ends s v = callback-IsConsistent s.sync_timer s v
  step-IsConsistent Event.press_send s v =
      composing-IsConsistent s.thread _ s v
        (λ t e. if-IsConsistent (send_disabled w s) _ _ v (handle_send-IsConsistent t.id s v))
  step-IsConsistent (Event.send_result o) s v = answer_send-IsConsistent o s.sends s refl v
  step-IsConsistent Event.pick_file s v =
      composing-IsConsistent s.thread _ s v
        (λ t e. if-IsConsistent (attach_disabled w s) _ _ v (ground arith))
  step-IsConsistent Event.drop_attachment s v =
      composing-IsConsistent s.thread _ s v (λ t e. ground arith)
  step-IsConsistent _ s v = ground arith

  pub run-IsConsistent :
      (es : List Event) (s : Composer Store) → IsConsistent s → IsConsistent (run w es s)
  unfolding run
  run-IsConsistent [] s v = v
  run-IsConsistent (e ∷ es) s v = run-IsConsistent es (step w e s) (step-IsConsistent e s v)

  initial-IsConsistent : (store : Store) → IsConsistent (initial w store)
  unfolding initial live current
  initial-IsConsistent store = ground arith

  -- After any events, at most one sync is live, a due sync has its timer and belongs to the thread
  -- that is shown, and a send is on its way exactly while `sending` is set, and then one alone.
  pub run-initial-IsConsistent :
      (store : Store) (es : List Event) → IsConsistent (run w es (initial w store))
  run-initial-IsConsistent store es =
      run-IsConsistent es (initial w store) (initial-IsConsistent store)
