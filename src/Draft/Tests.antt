-- ===== src/Draft/Tests.antt =====
-- The draft buffer run over a list, and instances of its laws.
use meadow_ops.Base.{◌≡◌, refl, true, some, List, [], ◌∷◌}
use meadow_ops.Draft.{storage_key, load_draft_buffer}
use meadow_ops.Draft.ListStorage.{Items, list_storage, lookup}
use meadow_ops.Draft.Refine.{Op, save, clear, perform_all, promise_all, perform-refines}

abbrev shared_browser : Items
shared_browser = record {
  on = true;
  room = 3;
  pairs = ("theme", "dark") ∷ ("meadowops:composer-draft:t1", "hello") ∷ [];
}

load_first : load_draft_buffer list_storage shared_browser "t1" ≡ some "hello"
unfolding load_draft_buffer storage_key lookup
load_first = refl

abbrev ops : List Op
ops = save "t1" "hi" ∷ save "t2" "ho" ∷ clear "t2" ∷ []

perform-refines_example :
    load_draft_buffer list_storage (perform_all list_storage ops shared_browser) "t1"
    ≡ promise_all list_storage ops shared_browser
        (load_draft_buffer list_storage shared_browser)
        "t1"
perform-refines_example = perform-refines list_storage ops shared_browser "t1"
