-- ===== src/Chat/Inbox/Races.antt =====
-- Orders in which answers and frames reach the inbox: those that agree, and those that do not.
use meadow_ops.Base.{
  ℕ, ◌+◌, ◌≡◌, refl, sym, text_cases, String, Bool, true, false, not, ◌&&◌, ◌||◌, Option, none,
  some, List, [], ◌∷◌, ◌++◌, map, ◌==◌, eq_iff, eq_refl, if◌then◌else◌, any, filter, names, nat_eq,
  arith, Bool-cases, inl, inr,
}
use meadow_ops.Draft.{WebStorage}
use meadow_ops.Chat.{ChatThread, ChatMessage}
use meadow_ops.Chat.Inbox.{
  Inbox, ChatMessageFrame, message, member, read_if, has_message, add_message, message_of, without,
  apply_threads, mark_read_debounced, mark_read_fires, select_thread, selected_thread,
  history_arrived, send_answered, remove_thread, delete_answered, handle_frame,
}
use meadow_ops.Chat.Inbox.Steps.{polled, selected, history, send_done, frame, read_timer, step, run}

abbrev pub message_ids : List ChatMessage → List String
message_ids ms = map (λ (m : ChatMessage). m.id) ms

has_message-append :
    (id : String) (ms : List ChatMessage) (m : ChatMessage)
    → has_message id (ms ++ m ∷ []) ≡ (has_message id ms || m.id == id)
has_message-append id [] m = ground arith
has_message-append id (x ∷ ms) m = ground (arith, has_message-append id ms m)

message_ids-append :
    (ms : List ChatMessage) (m m' : ChatMessage)
    → m.id ≡ m'.id
    → message_ids (ms ++ m ∷ []) ≡ message_ids (ms ++ m' ∷ [])
message_ids-append [] m m' e = ground arith
message_ids-append (x ∷ ms) m m' e = ground (arith, message_ids-append ms m m' e)

add_twice :
    (m m' : ChatMessage) (ms : List ChatMessage)
    → m.id ≡ m'.id
    → add_message m' (add_message m ms) ≡ add_message m ms
unfolding add_message
add_twice m m' ms e = elim (Bool-cases (has_message m.id ms)) [
  | inl old ↦ ground arith
  | inr new ↦
      ground (arith, has_message-append m'.id ms m, has_message-append m.id ms m, eq_refl m'.id)
]

message_ids-add_message :
    (m m' : ChatMessage) (ms : List ChatMessage)
    → m.id ≡ m'.id
    → message_ids (add_message m ms) ≡ message_ids (add_message m' ms)
unfolding add_message
message_ids-add_message m m' ms e = ground (arith, message_ids-append ms m m' e)

has-add_message :
    (m : ChatMessage) (ms : List ChatMessage) → has_message m.id (add_message m ms) ≡ true
unfolding add_message
has-add_message m ms = ground (arith, has_message-append m.id ms m, eq_refl m.id)

any-without :
    (id : String) (ts : List ChatThread)
    → any (λ (t : ChatThread). t.id == id) (without id ts) ≡ false
any-without id [] = refl
any-without id (t ∷ ts) = ground (arith, any-without id ts)

abbrev applied : Option String → List String → List ChatThread → List ChatThread
applied sel ds ts =
    map (λ (t : ChatThread). read_if (names sel t.id) t)
      (filter (λ (t : ChatThread). not (member t.id ds)) ts)

any-applied :
    (sel : Option String) (ds : List String) (id : String) (ts : List ChatThread)
    → any (λ (t : ChatThread). t.id == id) (applied sel ds ts)
      ≡ (any (λ (t : ChatThread). t.id == id) ts && not (member id ds))
any-applied sel ds id [] = refl
any-applied sel ds id (t ∷ ts) = elim (text_cases t.id id) [
  | inl same ↦ ground (arith, any-applied sel ds id ts, eq_iff t.id id)
  | inr other ↦ ground (arith, any-applied sel ds id ts)
]

-- The unread messages that the open thread counts.
abbrev pub unread_of : Option String → List ChatThread → ℕ
unread_of sel [] = 0
unread_of sel (t ∷ ts) = (if names sel t.id then t.unread_count else 0) + unread_of sel ts

unread-applied :
    (sel : Option String) (ds : List String) (ts : List ChatThread)
    → unread_of sel (applied sel ds ts) ≡ 0
unread-applied sel ds [] = refl
unread-applied sel ds (t ∷ ts) = ground (arith, unread-applied sel ds ts)

module _ (w : WebStorage) where
  open w use {Store}

  -- The sender's own message, for the open thread, comes twice, as a frame and as the answer to the
  -- POST. In either order the same ids are shown, in the same places, with that message among them.
  pub frame-send_commute :
      (s : Inbox Store) (f : ChatMessageFrame) (m : ChatMessage)
      → names s.selected_id f.thread_id ≡ true
      → f.message_id ≡ m.id
      → let frame_first = run w (frame (message f) ∷ send_done (some m) ∷ []) s in
        let answer_first = run w (send_done (some m) ∷ frame (message f) ∷ []) s in
        (message_ids frame_first.messages ≡ message_ids answer_first.messages)
        × (has_message m.id frame_first.messages ≡ true)
  unfolding run step handle_frame mark_read_debounced send_answered
  frame-send_commute s f m here same = ground (
    arith,
    add_twice (message_of f) m s.messages same,
    add_twice m (message_of f) s.messages (sym same),
    message_ids-add_message (message_of f) m s.messages same,
    has-add_message (message_of f) s.messages,
  )

  -- A burst of frames for the open thread posts one `/read` for it, when the timer fires.
  pub frames_read_once :
      (s : Inbox Store) (f g : ChatMessageFrame)
      → names s.selected_id f.thread_id ≡ true
      → g.thread_id ≡ f.thread_id
      → (run w (frame (message f) ∷ frame (message g) ∷ read_timer ∷ read_timer ∷ []) s).reads
        ≡ f.thread_id ∷ s.reads
  unfolding run step handle_frame mark_read_debounced mark_read_fires
  frames_read_once s f g here same = ground arith

  -- A frame for the open thread, and then one for the thread that is opened next, before the timer
  -- fires: the one timer posts one `/read`, for the second thread.
  pub read_of_first_lost :
      (s : Inbox Store) (f g : ChatMessageFrame)
      → names s.selected_id f.thread_id ≡ true
      → let s' =
          run w
            (frame (message f)
              ∷ selected g.thread_id
              ∷ frame (message g)
              ∷ read_timer
              ∷ read_timer
              ∷ [])
            s in
        s'.reads ≡ g.thread_id ∷ s.reads
  unfolding run step handle_frame mark_read_debounced mark_read_fires select_thread
  read_of_first_lost s f g here = ground (arith, eq_refl g.thread_id)

  -- Opening `a` and then `b`, with the answers in the other order, shows the messages of `a` under
  -- the open thread `b`.
  pub stale_history_shown :
      (s : Inbox Store) (a b : String) (of_a of_b : List ChatMessage)
      → let s' =
          run w (selected a ∷ selected b ∷ history b (some of_b) ∷ history a (some of_a) ∷ []) s in
        (s'.selected_id ≡ some b) × (s'.messages ≡ of_a)
  unfolding run step select_thread history_arrived
  stale_history_shown s a b of_a of_b = ground arith

  -- A frame for the thread that was just opened is lost from the view when the history that was
  -- requested before it arrives after it.
  pub frame_before_history_lost :
      (s : Inbox Store) (f : ChatMessageFrame) (older : List ChatMessage)
      → has_message f.message_id older ≡ false
      → let s' =
          run w
            (selected f.thread_id ∷ frame (message f) ∷ history f.thread_id (some older) ∷ [])
            s in
        (s'.selected_id ≡ some f.thread_id) × (has_message f.message_id s'.messages ≡ false)
  unfolding run step select_thread history_arrived handle_frame mark_read_debounced
  frame_before_history_lost s f older new = ground (arith, eq_refl f.thread_id)

  -- A poll that is answered with an error empties the list and closes the open thread, though no
  -- thread was removed.
  pub failed_poll_empties :
      (s : Inbox Store)
      → let s' = step w (polled none) s in
        (s'.threads ≡ []) × (selected_thread s' ≡ none) × (s'.deleted_ids ≡ s.deleted_ids)
  unfolding step apply_threads selected_thread
  failed_poll_empties s = ground arith

  -- A delete that is answered with success or with 404 reports success, and the thread is neither
  -- open nor listed afterwards.
  pub deleted_is_gone :
      (id : String) (status : ℕ) (ok : Bool) (s : Inbox Store)
      → (ok || nat_eq status 404) ≡ true
      → let (s', done) = delete_answered w id status ok s in
        (done ≡ true)
        × (names s'.selected_id id ≡ false)
        × (any (λ (t : ChatThread). t.id == id) s'.threads ≡ false)
  unfolding delete_answered remove_thread
  deleted_is_gone id status ok s h = ground (arith, any-without id s.threads)

  -- After a poll a thread is listed if the backend listed it and it was not removed here, and the
  -- open thread counts no unread message.
  pub polled_lem :
      (s : Inbox Store) (fetched : List ChatThread) (id : String)
      → let s' = step w (polled (some fetched)) s in
        (any (λ (t : ChatThread). t.id == id) s'.threads
          ≡ (any (λ (t : ChatThread). t.id == id) fetched && not (member id s.deleted_ids)))
        × (unread_of s.selected_id s'.threads ≡ 0)
  unfolding step apply_threads
  polled_lem s fetched id = (
    any-applied s.selected_id s.deleted_ids id fetched,
    unread-applied s.selected_id s.deleted_ids fetched,
  )
