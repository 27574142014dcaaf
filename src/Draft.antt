-- ===== src/Draft.antt =====
-- composer-draft.ts of both applications (frontend/subsystem_1/orbynadmin/src/app/(app)/chat and
-- frontend/subsystem_2/shadcn-dashboard/nextjs-version/src/app/(dashboard)/mail): the buffer of
-- unsent text in the browser's localStorage. The two files have the same code.
pub mod Laws
pub mod Refine
pub mod ListStorage
mod Tests
use meadow_ops.Base.{
  ℕ, zero, suc, ◌<◌, ◌≡◌, ◌≢◌, String, Bool, true, false, ◌&&◌, Option, none, some, List, [], ◌∷◌,
  ◌==◌, if◌then◌else◌, ◌<>◌, truthy,
}
use text.Mathlib.Text.{starts_with}

-- The browser's localStorage, which is not part of the repository. `enabled` is false where the
-- access throws (private browsing, a policy); `set_item` is `none` where the call throws (quota).
pub record WebStorage : Type 1 where
  pub Store : Type 0
  pub enabled : Store → Bool
  pub get_item : Store → String → Option String
  pub set_item : Store → String → String → Option Store
  pub remove_item : Store → String → Store
  pub size : Store → ℕ
  pub key : Store → ℕ → Option String
  pub get-set :
      (s : Store) (k v : String) (t : Store) (j : String)
      → set_item s k v ≡ some t
      → get_item t j ≡ (if k == j then some v else get_item s j)
  pub enabled-set :
      (s : Store) (k v : String) (t : Store) → set_item s k v ≡ some t → enabled t ≡ enabled s
  pub get-remove :
      (s : Store) (k j : String)
      → get_item (remove_item s k) j ≡ (if k == j then none else get_item s j)
  pub enabled-remove : (s : Store) (k : String) → enabled (remove_item s k) ≡ enabled s
  -- `key(0)`, …, `key(length - 1)` are the keys that are present.
  pub key_present :
      (s : Store) (k v : String)
      → get_item s k ≡ some v
      → (i : ℕ) × (i < size s) × (key s i ≡ some k)

abbrev pub storage_prefix : String
storage_prefix = "meadowops:composer-draft:"

unfoldable pub storage_key : String → String
storage_key thread_id = storage_prefix <> thread_id

-- `key && key.startsWith(STORAGE_PREFIX)`
unfoldable pub is_draft_key : Option String → Bool
is_draft_key none = false
is_draft_key (some k) = truthy k && starts_with k storage_prefix

abbrev pub push_if : Bool → Option String → List String → List String
push_if true (some k) keys = k ∷ keys
push_if _ _ keys = keys

module _ (w : WebStorage) where
  open w use {Store, enabled, get_item, set_item, remove_item, size, key}

  unfoldable pub load_draft_buffer : Store → String → Option String
  load_draft_buffer s thread_id = if enabled s then get_item s (storage_key thread_id) else none

  abbrev pub or_same : Store → Option Store → Store
  or_same s none = s
  or_same s (some t) = t

  unfoldable pub save_draft_buffer : Store → String → String → Store
  save_draft_buffer s thread_id body =
      if enabled s then or_same s (set_item s (storage_key thread_id) body) else s

  unfoldable pub clear_draft_buffer : Store → String → Store
  clear_draft_buffer s thread_id = if enabled s then remove_item s (storage_key thread_id) else s

  -- The loop that collects the keys first, with `n` rounds left from index `i` on.
  unfoldable pub draft_keys : Store → ℕ → ℕ → List String
  draft_keys s zero i = []
  draft_keys s (suc n) i = push_if (is_draft_key (key s i)) (key s i) (draft_keys s n (suc i))

  unfoldable pub remove_all : List String → Store → Store
  remove_all [] s = s
  remove_all (k ∷ ks) s = remove_all ks (remove_item s k)

  unfoldable pub clear_all_draft_buffers : Store → Store
  clear_all_draft_buffers s = if enabled s then remove_all (draft_keys s (size s) 0) s else s
