-- ===== src/Draft/Refine.antt =====
-- The draft buffer against what a caller may think it is: a map from threads to texts.
use meadow_ops.Base.{
  ◌≡◌, refl, ◌∙◌, String, Bool, true, false, ◌&&◌, Option, none, some, List, [], ◌∷◌, ◌==◌,
  if◌then◌else◌, is_some, Bool-cases, Option-cases, arith, inl, inr,
}
use meadow_ops.Draft.{
  WebStorage, storage_key, load_draft_buffer, save_draft_buffer, clear_draft_buffer,
  clear_all_draft_buffers,
}
use meadow_ops.Draft.Laws.{load-save, load-clear, load-clear_all}

-- The calls of the module that change the storage.
pub data Op : Type 0 where
  save : String → String → Op
  clear : String → Op
  clear_all : Op

abbrev pub Drafts : Type 0
Drafts = String → Option String

-- What each call promises; `taken` says that the browser stored the text.
abbrev pub promise : Op → Bool → Drafts → Drafts
promise (save thread_id body) true m = λ id. if thread_id == id then some body else m id
promise (save thread_id body) false m = m
promise (clear thread_id) taken m = λ id. if thread_id == id then none else m id
promise clear_all taken m = λ id. none

module _ (w : WebStorage) where
  open w use {Store, enabled, set_item}

  unfoldable pub perform : Op → Store → Store
  unfolding save_draft_buffer clear_draft_buffer clear_all_draft_buffers
  perform (save thread_id body) s = save_draft_buffer w s thread_id body
  perform (clear thread_id) s = clear_draft_buffer w s thread_id
  perform clear_all s = clear_all_draft_buffers w s

  abbrev pub is_taken : Op → Store → Bool
  is_taken (save thread_id body) s = enabled s && is_some (set_item s (storage_key thread_id) body)
  is_taken op s = true

  unfoldable pub perform_all : List Op → Store → Store
  perform_all [] s = s
  perform_all (op ∷ ops) s = perform_all ops (perform op s)

  unfoldable pub promise_all : List Op → Store → Drafts → Drafts
  promise_all [] s m = m
  promise_all (op ∷ ops) s m = promise_all ops (perform op s) (promise op (is_taken op s) m)

  not_taken :
      (s : Store) (a body b : String)
      → is_taken (save a body) s ≡ false
      → load_draft_buffer w (save_draft_buffer w s a body) b ≡ load_draft_buffer w s b
  unfolding load_draft_buffer save_draft_buffer
  not_taken s a body b h = elim (Option-cases (set_item s (storage_key a) body)) [
    | inl full ↦ ground arith
    | inr (t, stored) ↦ ground arith
  ]

  load-perform :
      (op : Op) (s : Store) (m : Drafts)
      → ((id : String) → load_draft_buffer w s id ≡ m id)
      → (id : String) → load_draft_buffer w (perform op s) id ≡ promise op (is_taken op s) m id
  unfolding perform
  load-perform (save a body) s m v id = elim (Bool-cases (is_taken (save a body) s)) [
    | inl taken ↦ elim (Option-cases (set_item s (storage_key a) body)) [
      | inl full ↦ ground arith
      | inr (t, stored) ↦ ground (arith, load-save w s t a id body, v id)
    ]
    | inr refused ↦ rw refused (not_taken s a body id refused ∙ v id)
  ]
  load-perform (clear a) s m v id = ground (arith, load-clear w s a id, v id)
  load-perform clear_all s m v id = load-clear_all w s id

  load-perform_all :
      (ops : List Op) (s : Store) (m : Drafts)
      → ((id : String) → load_draft_buffer w s id ≡ m id)
      → (id : String) → load_draft_buffer w (perform_all ops s) id ≡ promise_all ops s m id
  unfolding perform_all promise_all
  load-perform_all [] s m v id = v id
  load-perform_all (op ∷ ops) s m v id =
      load-perform_all ops (perform op s) _ (load-perform op s m v) id

  -- After any saves, clears and log-outs the buffer reads, for every thread, as the map on which each
  -- call did what it promises: a text that the browser stored is read until it is replaced or
  -- cleared, and a text that it did not store changes nothing.
  pub perform-refines :
      (ops : List Op) (s : Store) (id : String)
      → load_draft_buffer w (perform_all ops s) id ≡ promise_all ops s (load_draft_buffer w s) id
  perform-refines ops s id = load-perform_all ops s (load_draft_buffer w s) (λ j. refl) id
