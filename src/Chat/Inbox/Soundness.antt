-- ===== src/Chat/Inbox/Soundness.antt =====
-- What holds of the inbox after any events: no message twice, and no thread that was removed.
use meadow_ops.Base.{
  ◌≡◌, refl, String, Bool, true, false, not, ◌&&◌, Option, none, some, List, [], ◌∷◌, ◌++◌, map,
  ◌==◌, eq_iff, eq_refl, eq_comm, any, any-append, All, filter, names, arith,
}
use meadow_ops.Draft.{WebStorage}
use meadow_ops.Chat.{ChatThread, ChatMessage}
use meadow_ops.Chat.Inbox.{
  Inbox, ChatSocketFrame, message, thread_deleted, member, fetched_or_empty, read_if, has_message,
  add_message, message_of, without, apply_threads, mark_read_debounced, mark_read_fires,
  select_thread, history_arrived, read_answered, send_answered, remove_thread, delete_answered,
  handle_frame,
}
use meadow_ops.Chat.Inbox.Steps.{
  Event, polled, selected, history, read_done, send_done, delete_done, frame, read_timer, step, run,
}

unfoldable pub distinct : List ChatMessage → Bool
distinct [] = true
distinct (m ∷ ms) = not (has_message m.id ms) && distinct ms

-- No thread of the list is among the removed ones.
unfoldable pub clean : List String → List ChatThread → Bool
clean ds [] = true
clean ds (t ∷ ts) = not (member t.id ds) && clean ds ts

distinct-append :
    (ms : List ChatMessage) (m : ChatMessage)
    → distinct ms ≡ true
    → has_message m.id ms ≡ false
    → distinct (ms ++ m ∷ []) ≡ true
unfolding distinct
distinct-append [] m h n = refl
distinct-append (x ∷ ms) m h n = ground (
  arith,
  any-append (λ (y : ChatMessage). y.id == x.id) ms (m ∷ []),
  distinct-append ms m,
  eq_comm x.id m.id,
)

-- A message that is already shown is not added again.
pub distinct-add_message :
    (m : ChatMessage) (ms : List ChatMessage)
    → distinct ms ≡ true
    → distinct (add_message m ms) ≡ true
unfolding add_message
distinct-add_message m ms h = ground (arith, distinct-append ms m h)

clean-fetched :
    (ds : List String) (sel : Option String) (ts : List ChatThread)
    → clean ds (
        map
          (λ (t : ChatThread). read_if (names sel t.id) t)
          (filter (λ (t : ChatThread). not (member t.id ds)) ts))
      ≡ true
unfolding clean
clean-fetched ds sel [] = refl
clean-fetched ds sel (t ∷ ts) = ground (arith, clean-fetched ds sel ts)

clean-read :
    (ds : List String) (id : String) (ts : List ChatThread)
    → clean ds (map (λ (t : ChatThread). read_if (t.id == id) t) ts) ≡ clean ds ts
unfolding clean
clean-read ds id [] = refl
clean-read ds id (t ∷ ts) = ground (arith, clean-read ds id ts)

clean-without :
    (ds : List String) (id : String) (ts : List ChatThread)
    → clean ds ts ≡ true
    → clean (id ∷ ds) (without id ts) ≡ true
unfolding clean
clean-without ds id [] h = refl
clean-without ds id (t ∷ ts) h = ground (arith, clean-without ds id ts, eq_comm id t.id)

pub record IsSound {Store : Type 0} (s : Inbox Store) : Type 0 where
  pub unique : distinct s.messages ≡ true
  pub removed : clean s.deleted_ids s.threads ≡ true

-- The backend's list of messages of a thread names no message twice.
abbrev pub IsGenuine : Event → Type 0
IsGenuine (history id answer) = distinct (fetched_or_empty answer) ≡ true
IsGenuine _ = Unit

module _ (w : WebStorage) where
  open w use {Store}

  remove_thread-IsSound :
      (id : String) (s : Inbox Store) → IsSound s → IsSound (remove_thread w id s)
  unfolding remove_thread distinct
  remove_thread-IsSound id s v = ground (arith, clean-without s.deleted_ids id s.threads)

  handle_frame-IsSound :
      (f : ChatSocketFrame) (s : Inbox Store) → IsSound s → IsSound (handle_frame w f s)
  unfolding handle_frame mark_read_debounced
  handle_frame-IsSound (thread_deleted id) s v = remove_thread-IsSound id s v
  handle_frame-IsSound (message f) s v =
      ground (arith, distinct-add_message (message_of f) s.messages)

  pub step-IsSound : (e : Event) (s : Inbox Store) → IsGenuine e → IsSound s → IsSound (step w e s)
  unfolding step
  step-IsSound (polled answer) s g v = record {
    unique = unfold apply_threads in v.unique;
    removed =
        unfold apply_threads in clean-fetched s.deleted_ids s.selected_id (fetched_or_empty answer);
  }
  step-IsSound (selected id) s g v = unfold select_thread in ground arith
  step-IsSound (history id answer) s g v = unfold history_arrived in ground arith
  step-IsSound (read_done id) s g v =
      unfold read_answered in ground (arith, clean-read s.deleted_ids id s.threads)
  step-IsSound (send_done none) s g v = unfold send_answered in v
  step-IsSound (send_done (some m)) s g v =
      unfold send_answered in ground (arith, distinct-add_message m s.messages)
  step-IsSound (delete_done id status ok) s g v =
      unfold delete_answered in ground (arith, remove_thread-IsSound id s v)
  step-IsSound (frame f) s g v = handle_frame-IsSound f s v
  step-IsSound read_timer s g v = unfold mark_read_fires in ground arith

  -- If no history that arrives names a message twice, `IsSound` is kept by any events: no message is
  -- shown twice and no removed thread is listed.
  pub run-IsSound :
      (es : List Event) (s : Inbox Store) → All IsGenuine es → IsSound s → IsSound (run w es s)
  unfolding run
  run-IsSound [] s g v = v
  run-IsSound (e ∷ es) s (g, gs) v = run-IsSound es (step w e s) gs (step-IsSound e s g v)

  step-deleted_ids :
      (e : Event) (s : Inbox Store) (id : String)
      → member id s.deleted_ids ≡ true
      → member id (step w e s).deleted_ids ≡ true
  unfolding step
  step-deleted_ids (polled answer) s id h = unfold apply_threads in h
  step-deleted_ids (selected i) s id h = unfold select_thread in h
  step-deleted_ids (history i answer) s id h = unfold history_arrived in h
  step-deleted_ids (read_done i) s id h = unfold read_answered in h
  step-deleted_ids (send_done none) s id h = unfold send_answered in h
  step-deleted_ids (send_done (some m)) s id h = unfold send_answered in h
  step-deleted_ids (delete_done i status ok) s id h =
      unfold delete_answered remove_thread in ground arith
  step-deleted_ids (frame (thread_deleted i)) s id h =
      unfold handle_frame remove_thread in ground arith
  step-deleted_ids (frame (message f)) s id h =
      unfold handle_frame mark_read_debounced in ground arith
  step-deleted_ids read_timer s id h = unfold mark_read_fires in ground arith

  run-deleted_ids :
      (es : List Event) (s : Inbox Store) (id : String)
      → member id s.deleted_ids ≡ true
      → member id (run w es s).deleted_ids ≡ true
  unfolding run
  run-deleted_ids [] s id h = h
  run-deleted_ids (e ∷ es) s id h = run-deleted_ids es (step w e s) id (step-deleted_ids e s id h)

not-listed :
    (ds : List String) (ts : List ChatThread) (id : String)
    → clean ds ts ≡ true
    → member id ds ≡ true
    → any (λ (t : ChatThread). t.id == id) ts ≡ false
unfolding clean
not-listed ds [] id h m = refl
not-listed ds (t ∷ ts) id h m = ground (arith, not-listed ds ts id, eq_iff t.id id)

module _ (w : WebStorage) where
  open w use {Store}

  -- From an inbox with `IsSound`, and with histories that name no message twice: once a thread is
  -- removed, no later events list it again, not a poll that was answered late, not a frame, not a
  -- second removal.
  pub removed_never_returns :
      (id : String) (s : Inbox Store) (es : List Event)
      → All IsGenuine es
      → IsSound s
      → any (λ (t : ChatThread). t.id == id) (run w es (remove_thread w id s)).threads ≡ false
  removed_never_returns id s es g v =
      let s' = remove_thread w id s in
      let sound = run-IsSound w es s' g (remove_thread-IsSound w id s v) in
      not-listed _ _ id sound.removed
        (run-deleted_ids w es s' id (unfold remove_thread in ground (arith, eq_refl id)))
