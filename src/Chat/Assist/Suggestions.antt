-- ===== src/Chat/Assist/Suggestions.antt =====
-- Where a suggestion of the panel ends up, and what the panel shows.
use meadow_ops.Base.{
  ◌≡◌, String, true, false, ◌||◌, ◌&&◌, none, some, [], ◌∷◌, ◌==◌, eq_refl, truthy, trim, is_some,
  arith,
}
use meadow_ops.Draft.{WebStorage, storage_key, load_draft_buffer}
use meadow_ops.Draft.Laws.{load-save}
use meadow_ops.Chat.{ChatThread}
use meadow_ops.Chat.Composer.{
  handle_draft_change, handle_send, cleanup, enter, fire_sync, set_thread,
}
use meadow_ops.Chat.Assist.{
  Assist, asked_suggestion, Verdict, suggested, suggest_failed, suggest_threw, show, show_thread,
  messages_change, press_send, suggestion, use_pushback, step, run, set_messages, suggest_answered,
  accept_pushback,
}

module _ (w : WebStorage) where
  open w use {Store, enabled, set_item}

  -- A suggestion that was asked for a thread `u` and is answered after another thread `t` was opened,
  -- with no send on its way: the composer of `t` shows it, and pressing Send posts it to `t`.
  pub suggestion_sent_to_other :
      (s : Assist Store) (u t : ChatThread) (m : String)
      → s.composer.thread ≡ some u
      → s.asked ≡ some (asked_suggestion u.id)
      → u.id == t.id ≡ false
      → s.composer.sending ≡ false
      → s.composer.sends ≡ []
      → truthy (trim m) ≡ true
      → let s' = run w (show (some t) ∷ suggestion (suggested m) ∷ press_send ∷ []) s in
        (s'.composer.draft ≡ m)
        × (s'.composer.sends
            ≡ record { thread_id = t.id; body = trim m; attachment_id = none } ∷ [])
  unfolding run step show_thread suggest_answered set_thread enter cleanup fire_sync
      handle_draft_change handle_send
  suggestion_sent_to_other s u t m shown out other idle none_out text = ground arith

  -- A verdict with a pushback that was reached for a thread `u` stays when another thread `t` is opened
  -- and the flags of the messages do not change: accepting it puts the text into the composer of `t`.
  pub verdict_stays_on_switch :
      (s : Assist Store) (u t : ChatThread) (v : Verdict) (m : String)
      → s.composer.thread ≡ some u
      → s.verdict ≡ some v
      → v.suggested_pushback ≡ some m
      → truthy m ≡ true
      → u.id == t.id ≡ false
      → let s' =
          run w
            (show (some t)
              ∷ messages_change s.has_messages s.has_analyst_message
              ∷ use_pushback
              ∷ [])
            s in
        (s'.composer.thread ≡ some t) × (s'.composer.draft ≡ m)
  unfolding run step show_thread set_thread enter cleanup fire_sync accept_pushback
      handle_draft_change set_messages
  verdict_stays_on_switch s u t v m shown reached offered text other = ground arith

  -- A suggestion that is answered while its thread is still shown, in a browser whose storage takes
  -- texts: the composer shows the text, it is buffered for that thread and due to be synced; a
  -- refusal leaves the composer alone and is shown; an exception leaves it alone. In each case the
  -- buttons are enabled again.
  pub suggestion_lem :
      (s : Assist Store) (u : ChatThread) (m e : String) (stored : Store)
      → s.composer.thread ≡ some u
      → s.asked ≡ some (asked_suggestion u.id)
      → enabled s.composer.store ≡ true
      → set_item s.composer.store (storage_key u.id) m ≡ some stored
      → let taken = step w (suggestion (suggested m)) s in
        (taken.composer.draft ≡ m)
        × (load_draft_buffer w taken.composer.store u.id ≡ some m)
        × (taken.composer.pending_sync ≡ some (record { thread_id = u.id; body = m }))
        × (taken.pending ≡ false)
        × (step w (suggestion (suggest_failed e)) s
            ≡ record s { error = some e; pending = false; asked = none })
        × (step w (suggestion suggest_threw) s ≡ record s { pending = false; asked = none })
  unfolding step suggest_answered handle_draft_change
  suggestion_lem s u m e stored shown out on kept =
      ground (arith, load-save w s.composer.store stored u.id u.id m on kept, eq_refl u.id)

  -- Between any two events, of the panel on the screen: a request that it made is on its way exactly
  -- while its buttons are disabled, then it shows neither an error nor a verdict, and never both.
  pub record IsOrderly (s : Assist Store) : Type 0 where
    pub one_request : is_some s.asked ≡ s.pending
    pub quiet : (s.pending && (is_some s.error || is_some s.verdict)) ≡ false
    pub not_both : (is_some s.error && is_some s.verdict) ≡ false
