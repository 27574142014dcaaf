-- ===== src/Draft/ListStorage.antt =====
-- A localStorage as an ordered list of pairs with a quota: it shows that the laws can hold.
use meadow_ops.Base.{
  ℕ, zero, suc, ◌<◌, ◌≡◌, refl, ap, String, Bool, true, false, Option, none, some, List, [], ◌∷◌,
  ◌==◌, eq_iff, if◌then◌else◌, Bool-cases, length, get_elem?, inl, inr, arith,
}
use mathlib.Core.Option
use meadow_ops.Draft.{WebStorage}

pub record Items : Type 0 where
  pub on : Bool
  pub room : ℕ
  pub pairs : List (String × String)

unfoldable pub lookup : String → List (String × String) → Option String
lookup k [] = none
lookup k ((j, v) ∷ m) = if j == k then some v else lookup k m

unfoldable pub insert : String → String → List (String × String) → List (String × String)
insert k v [] = (k, v) ∷ []
insert k v ((j, u) ∷ m) = if j == k then (k, v) ∷ m else (j, u) ∷ insert k v m

unfoldable pub remove : String → List (String × String) → List (String × String)
remove k [] = []
remove k ((j, u) ∷ m) = let rest = remove k m in if j == k then rest else (j, u) ∷ rest

unfoldable pub key_at : List (String × String) → ℕ → Option String
key_at m i = Option.map (λ p. p.0) (get_elem? m i)

unfoldable pub fits : ℕ → List (String × String) → Bool
fits zero m = false
fits (suc n) [] = true
fits (suc n) (x ∷ m) = fits n m

-- A write past the quota throws.
unfoldable pub set_pair : Items → String → String → Option Items
unfolding fits insert
set_pair s k v =
    if fits s.room s.pairs then some (record s { pairs = insert k v s.pairs }) else none

pub lookup-insert :
    (k j v : String) (m : List (String × String))
    → lookup j (insert k v m) ≡ (if k == j then some v else lookup j m)
unfolding lookup insert
lookup-insert k j v [] = refl
lookup-insert k j v ((i, u) ∷ m) =
    ground (arith, eq_iff k j, eq_iff i k, eq_iff i j, lookup-insert k j v m)

pub lookup-remove :
    (k j : String) (m : List (String × String))
    → lookup j (remove k m) ≡ (if k == j then none else lookup j m)
unfolding lookup remove
lookup-remove k j [] = ground arith
lookup-remove k j ((i, u) ∷ m) =
    ground (arith, eq_iff k j, eq_iff i k, eq_iff i j, lookup-remove k j m)

pub get-set_pair :
    (s : Items) (k v : String) (t : Items) (j : String)
    → set_pair s k v ≡ some t
    → lookup j t.pairs ≡ (if k == j then some v else lookup j s.pairs)
unfolding set_pair
get-set_pair s k v t j e = ground (arith, lookup-insert k j v s.pairs)

pub on-set_pair : (s : Items) (k v : String) (t : Items) → set_pair s k v ≡ some t → t.on ≡ s.on
unfolding set_pair
on-set_pair s k v t e = ground arith

pub key_at_present :
    (m : List (String × String)) (k v : String)
    → lookup k m ≡ some v
    → (i : ℕ) × (i < length m) × (key_at m i ≡ some k)
unfolding lookup key_at
key_at_present [] k v e = cc
key_at_present ((j, u) ∷ m) k v e = elim (Bool-cases (j == k)) [
  | inl same ↦ (0, omega arith, ap some ((eq_iff j k).0 same))
  | inr other ↦
      let (i, lt, at_i) = key_at_present m k v (rw other at e) in (suc i, omega arith, at_i)
]

abbrev pub list_storage : WebStorage
list_storage = record {
  Store = Items;
  enabled = λ s. s.on;
  get_item = λ s k. lookup k s.pairs;
  set_item = set_pair;
  remove_item = λ s k. record s { pairs = remove k s.pairs };
  size = λ s. length s.pairs;
  key = λ s i. key_at s.pairs i;
  get-set = get-set_pair;
  enabled-set = on-set_pair;
  get-remove = λ s k j. lookup-remove k j s.pairs;
  enabled-remove = λ s k. refl;
  key_present = λ s k v e. key_at_present s.pairs k v e;
}
