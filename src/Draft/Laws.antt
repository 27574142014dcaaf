-- ===== src/Draft/Laws.antt =====
-- The effect of each operation of the draft buffer on every key.
use meadow_ops.Base.{
  ℕ, zero, suc, ◌+◌, ◌<◌, ◌≤◌, ◌≡◌, refl, ◌∙◌, ap, String, true, false, none, some, List, [], ◌∷◌,
  ◌==◌, eq_iff, eq_refl, if◌then◌else◌, ◌<>◌, Bool-cases, Option-cases, any, inl, inr, arith,
}
use text.Mathlib.TextPositions.{starts_with-append}
use text.Mathlib.TextLemmas.{append_cancel_left, append-eq-nil_iff}
use native.Mathlib.Decide.{dec_lt}
use meadow_ops.Draft.{
  WebStorage, storage_prefix, storage_key, is_draft_key, load_draft_buffer, save_draft_buffer,
  clear_draft_buffer, draft_keys, remove_all, clear_all_draft_buffers,
}

-- Two threads never share a key.
pub storage_key_injective : (a b : String) → storage_key a ≡ storage_key b → a ≡ b
unfolding storage_key
storage_key_injective a b e = append_cancel_left storage_prefix a b e

pub storage_key_eq : (a b : String) → (storage_key a == storage_key b) ≡ (a == b)
storage_key_eq a b =
    ground (arith, eq_iff a b, eq_iff (storage_key a) (storage_key b), storage_key_injective a b)

pub is_draft_key-storage_key : (a : String) → is_draft_key (some (storage_key a)) ≡ true
unfolding is_draft_key storage_key
is_draft_key-storage_key a =
    let h = starts_with-append storage_prefix a in
    elim (Bool-cases (storage_prefix <> a == "")) [
      | inl e ↦
          let h0 : false ≡ true =
            (eq_iff storage_prefix "").1
              ((append-eq-nil_iff.0 ((eq_iff (storage_prefix <> a) "").0 e)).0) in
          cc
      | inr e ↦ rw (e, h)
    ]

module _ (w : WebStorage) where
  open w use {Store, enabled, get_item, set_item, remove_item, size, key}

  -- Saving a thread's text is seen by that thread alone.
  pub load-save :
      (s t : Store) (a b body : String)
      → enabled s ≡ true
      → set_item s (storage_key a) body ≡ some t
      → load_draft_buffer w (save_draft_buffer w s a body) b
        ≡ (if a == b then some body else load_draft_buffer w s b)
  unfolding load_draft_buffer save_draft_buffer
  load-save s t a b body on stored =
      rw (on, stored, w.enabled-set _ _ _ _ stored, on)
        (w.get-set s (storage_key a) body t (storage_key b) stored
          ∙ ap (λ c. if c then some body else get_item s (storage_key b)) (storage_key_eq a b))

  pub load-clear :
      (s : Store) (a b : String)
      → load_draft_buffer w (clear_draft_buffer w s a) b
        ≡ (if a == b then none else load_draft_buffer w s b)
  unfolding load_draft_buffer clear_draft_buffer
  load-clear s a b = ground (
    arith,
    w.get-remove s (storage_key a) (storage_key b),
    w.enabled-remove s (storage_key a),
    storage_key_eq a b,
  )

  get-remove_all :
      (ks : List String) (s : Store) (j : String)
      → get_item (remove_all w ks s) j ≡ (if any (λ k. k == j) ks then none else get_item s j)
  unfolding remove_all
  get-remove_all [] s j = refl
  get-remove_all (k ∷ ks) s j =
      ground (arith, get-remove_all ks (remove_item s k) j, w.get-remove s k j)

  enabled-remove_all : (ks : List String) (s : Store) → enabled (remove_all w ks s) ≡ enabled s
  unfolding remove_all
  enabled-remove_all [] s = refl
  enabled-remove_all (k ∷ ks) s = enabled-remove_all ks (remove_item s k) ∙ w.enabled-remove s k

  any-draft_keys :
      (s : Store) (n i j : ℕ) (k : String)
      → i ≤ j
      → j < i + n
      → key s j ≡ some k
      → is_draft_key (some k) ≡ true
      → any (λ k'. k' == k) (draft_keys w s n i) ≡ true
  unfolding draft_keys
  any-draft_keys s zero i j k h l e d = absurd (omega arith)
  any-draft_keys s (suc n) i j k h l e d = elim (dec_lt i j) [
    | yes p ↦ ground (arith, any-draft_keys s n (suc i) j k p (omega arith) e d)
    | no p ↦
        let same : i ≡ j = omega arith in
        let found : key s i ≡ some k = ap (key s) same ∙ e in rw (found, d, eq_refl k)
  ]

  draft_keys-is_draft_key :
      (s : Store) (n i : ℕ) (k : String)
      → any (λ k'. k' == k) (draft_keys w s n i) ≡ true
      → is_draft_key (some k) ≡ true
  unfolding draft_keys
  draft_keys-is_draft_key s zero i k h = cc
  draft_keys-is_draft_key s (suc n) i k h = elim (Option-cases (key s i)) [
    | inl gone ↦ draft_keys-is_draft_key s n (suc i) k (ground arith)
    | inr (k', found) ↦ ground (arith, draft_keys-is_draft_key s n (suc i) k, eq_iff k' k)
  ]

  -- Where the storage is accessible, logging out removes every draft key and touches no other key.
  pub get-clear_all :
      (s : Store) (k : String)
      → enabled s ≡ true
      → get_item (clear_all_draft_buffers w s) k
        ≡ (if is_draft_key (some k) then none else get_item s k)
  unfolding clear_all_draft_buffers
  get-clear_all s k on = rw on (elim (Option-cases (get_item s k)) [
    | inl gone ↦ ground (arith, get-remove_all (draft_keys w s (size s) 0) s k)
    | inr (v, found) ↦
        let (i, lt, at_i) = w.key_present s k v found in
        ground (
          arith,
          get-remove_all (draft_keys w s (size s) 0) s k,
          any-draft_keys s (size s) 0 i k (omega arith) (omega arith) at_i,
          draft_keys-is_draft_key s (size s) 0 k,
        )
  ])

  -- After a log-out no thread's text is restored, whether or not the storage was accessible.
  pub load-clear_all :
      (s : Store) (a : String) → load_draft_buffer w (clear_all_draft_buffers w s) a ≡ none
  unfolding load_draft_buffer clear_all_draft_buffers storage_key
  load-clear_all s a = elim (Bool-cases (enabled s)) [
    | inl on ↦ ground (arith, get-clear_all s (storage_key a) on, is_draft_key-storage_key a)
    | inr off ↦ rw (off, clear_all_draft_buffers) (rw off)
  ]
