-- ===== src/Chat/Composer/Tests.antt =====
-- The composer run over a list storage: instances of its laws.
use meadow_ops.Base.{◌≡◌, refl, true, none, some, List, [], ◌∷◌, ◌++◌, trim}
use mathlib.Core.Option
use meadow_ops.Draft.{storage_key}
use meadow_ops.Draft.ListStorage.{Items, list_storage, set_pair}
use meadow_ops.Chat.Samples.{stock, freight, browser}
use meadow_ops.Chat.Composer.{Attachment, Sending, Composer, enter}
use meadow_ops.Chat.Composer.Steps.{
  Event, show, type_text, pick_file, press_send, step, run, initial,
}
use meadow_ops.Chat.Composer.Wire.{live, live_syncs}
use meadow_ops.Chat.Composer.Invariant.{IsConsistent, run-initial-IsConsistent}
use meadow_ops.Chat.Composer.Drafts.{show-flushes, show-restores, press_send_lem}

abbrev fresh : Composer Items
fresh = initial list_storage browser

abbrev events : List Event
events = show (some stock) ∷ type_text "three pallets" ∷ []

abbrev typed : Composer Items
typed = run list_storage events fresh

run-initial-IsConsistent_example :
    IsConsistent (run list_storage events (initial list_storage browser))
run-initial-IsConsistent_example = run-initial-IsConsistent list_storage browser events

show-flushes_example :
    live_syncs
      (run list_storage
        (type_text "four" ∷ show (some freight) ∷ [])
        (run list_storage events (initial list_storage browser))).wire
    ≡ record { thread_id = "stock"; body = "four" } ∷ []
unfolding run step initial enter
show-flushes_example =
    show-flushes list_storage browser events stock (some freight) "four" refl refl refl

abbrev opened_stock : Composer Items
opened_stock = run list_storage (show (some stock) ∷ []) fresh

show-restores_example :
    (run list_storage
      (type_text "12" ∷ show (some freight) ∷ show (some stock) ∷ [])
      opened_stock).draft
    ≡ "12"
unfolding run step initial enter set_pair storage_key
show-restores_example =
    show-restores list_storage opened_stock stock stock freight "12" _ refl refl refl refl refl refl

press_send_lem_example :
    let s' = step list_storage press_send typed in
    (s'.sends
      ≡ record {
        thread_id = "stock";
        body = trim typed.draft;
        attachment_id = Option.map (λ (a : Attachment). a.id) typed.pending_attachment;
      }
        ∷ [])
    × (s'.sending ≡ true)
    × (s'.sync_timer ≡ none)
    × (s'.pending_sync ≡ none)
    × (live s'.wire ≡ 0)
    × (s'.draft ≡ typed.draft)
unfolding run step initial enter
press_send_lem_example =
    press_send_lem list_storage typed stock (run-initial-IsConsistent list_storage browser events)
      refl refl refl (unfold trim in refl)

abbrev sending : Composer Items
sending = run list_storage (events ++ press_send ∷ []) fresh

abbrev posted : Sending
posted = record { thread_id = "stock"; body = "three pallets"; attachment_id = none }

abbrev moved : Composer Items
moved = run list_storage (show (some freight) ∷ []) sending

abbrev uploading_now : Composer Items
uploading_now = run list_storage (show (some stock) ∷ pick_file ∷ []) fresh

abbrev invoice : Attachment
invoice = record { id = "a1"; filename = "invoice.pdf" }
