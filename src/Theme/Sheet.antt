-- ===== src/Theme/Sheet.antt =====
-- An inline style as an ordered list of pairs with distinct names: it shows that the laws can hold.
use meadow_ops.Base.{
  ℕ, zero, suc, ◌<◌, ◌≡◌, ◌≢◌, refl, ◌∙◌, String, true, false, Option, none, some, List, [], ◌∷◌,
  ◌==◌, eq_iff, eq_comm, eq_refl, if◌then◌else◌, Bool-cases, Option-cases, text_cases, truthy,
  length, inl, inr, arith,
}
use mathlib.Core.Option.{some-injective}
use meadow_ops.Draft.ListStorage.{
  lookup, insert, remove, key_at, lookup-insert, lookup-remove, key_at_present,
}
use meadow_ops.Theme.{InlineStyle}

abbrev pub IsUnique : List (String × String) → Type 0
IsUnique [] = Unit
IsUnique ((k, v) ∷ m) = (lookup k m ≡ none) × IsUnique m

IsUnique-insert : (k v : String) (m : List (String × String)) → IsUnique m → IsUnique (insert k v m)
unfolding insert lookup
IsUnique-insert k v [] h = (refl, tt)
IsUnique-insert k v ((j, u) ∷ m) (once, h) = elim (text_cases j k) [
  | inl same ↦ rw ((eq_iff j k).1 same) ((rw same at once), h)
  | inr other ↦
      rw other (lookup-insert k j v m ∙ rw (eq_comm k j, other) once, IsUnique-insert k v m h)
]

pub IsUnique-remove : (k : String) (m : List (String × String)) → IsUnique m → IsUnique (remove k m)
unfolding remove
IsUnique-remove k [] h = tt
IsUnique-remove k ((j, u) ∷ m) (once, h) = elim (Bool-cases (j == k)) [
  | inl same ↦ rw same (IsUnique-remove k m h)
  | inr other ↦ rw other (lookup-remove k j m ∙ rw (eq_comm k j, other) once, IsUnique-remove k m h)
]

key_at-lookup :
    (m : List (String × String)) (i : ℕ) (k : String)
    → key_at m i ≡ some k
    → (v : String) × (lookup k m ≡ some v)
unfolding key_at lookup
key_at-lookup [] i k e = cc
key_at-lookup ((j, u) ∷ m) zero k e = (u, rw ((eq_iff j k).1 (some-injective _ _ e)))
key_at-lookup ((j, u) ∷ m) (suc i) k e = elim (Bool-cases (j == k)) [
  | inl same ↦ (u, rw same)
  | inr other ↦ let (v, found) = key_at-lookup m i k e in (v, rw other found)
]

nothing_below : {i : ℕ} → ¬ (i < 0)
nothing_below {i} = omega arith

-- A name of the rest is not that of the head.
other_head :
    (m : List (String × String)) (i : ℕ) (k k0 : String)
    → lookup k0 m ≡ none
    → key_at m i ≡ some k
    → (k0 == k) ≡ false
other_head m i k k0 once at_i =
    let (v, found) = key_at-lookup m i k at_i in
    elim (text_cases k0 k) [
      | inl same ↦ let gone : lookup k m ≡ none = rw same at once in cc
      | inr other ↦ other
    ]

pub key_at-remove :
    (m : List (String × String)) (k : String) (i j : ℕ)
    → IsUnique m
    → key_at m i ≡ some k
    → j < i
    → key_at (remove k m) j ≡ key_at m j
unfolding key_at remove
key_at-remove m k zero j h at_i lt = elim (nothing_below lt) [ ]
key_at-remove [] k (suc i) j h at_i lt = cc
key_at-remove ((k0, u) ∷ m) k (suc i) zero (once, h) at_i lt = rw (other_head m i k k0 once at_i)
key_at-remove ((k0, u) ∷ m) k (suc i) (suc j) (once, h) at_i lt =
    rw (other_head m i k k0 once at_i) (key_at-remove m k i j h at_i (omega arith))

abbrev pub Sheet : Type 0
Sheet = (m : List (String × String)) × IsUnique m

-- A value of the text that is empty is not accepted: the property is removed.
unfoldable pub put : String → String → List (String × String) → List (String × String)
put k v m = if truthy v then insert k v m else remove k m

pub IsUnique-put : (k v : String) (m : List (String × String)) → IsUnique m → IsUnique (put k v m)
unfolding put
IsUnique-put k v m h = elim (Bool-cases (truthy v)) [
  | inl t ↦ rw t (IsUnique-insert k v m h)
  | inr f ↦ rw f (IsUnique-remove k m h)
]

unfoldable pub read : Option String → String
read none = ""
read (some v) = v

pub read-put :
    (k v : String) (m : List (String × String)) → truthy v ≡ true → read (lookup k (put k v m)) ≡ v
unfolding put read
read-put k v m t = rw (t, lookup-insert k k v m, eq_refl k)

pub read-put_other :
    (k v j : String) (m : List (String × String))
    → (k == j) ≡ false
    → read (lookup j (put k v m)) ≡ read (lookup j m)
unfolding put
read-put_other k v j m other = elim (Bool-cases (truthy v)) [
  | inl t ↦ rw (t, lookup-insert k j v m, other)
  | inr f ↦ rw (f, lookup-remove k j m, other)
]

pub read-remove :
    (k j : String) (m : List (String × String))
    → read (lookup j (remove k m)) ≡ (if k == j then "" else read (lookup j m))
unfolding read
read-remove k j m = elim (Bool-cases (k == j)) [
  | inl same ↦ rw (lookup-remove k j m, same)
  | inr other ↦ rw (lookup-remove k j m, other)
]

pub name_below :
    (m : List (String × String)) (i : ℕ) → i < length m → (k : String) × (key_at m i ≡ some k)
unfolding key_at
name_below [] i lt = elim (nothing_below lt) [ ]
name_below ((k, v) ∷ m) zero lt = (k, refl)
name_below ((k, v) ∷ m) (suc i) lt = name_below m i (omega arith)

pub name_present :
    (m : List (String × String)) (k : String)
    → read (lookup k m) ≢ ""
    → (i : ℕ) × (i < length m) × (key_at m i ≡ some k)
unfolding read
name_present m k present = elim (Option-cases (lookup k m)) [
  | inl e ↦ elim (present (rw e)) [ ]
  | inr (v, e) ↦ key_at_present m k v e
]

abbrev pub list_style : InlineStyle
list_style = record {
  Style = Sheet;
  accepts = truthy;
  get_property = λ s k. read (lookup k s.0);
  set_property = λ s k v. (put k v s.0, IsUnique-put k v s.0 s.1);
  remove_property = λ s k. (remove k s.0, IsUnique-remove k s.0 s.1);
  size = λ s. length s.0;
  item = λ s i. key_at s.0 i;
  get-set = λ s k v custom ok. read-put k v s.0 ok;
  get-set_other = λ s k v j custom other. read-put_other k v j s.0 other;
  get-remove = λ s k j custom. read-remove k j s.0;
  item_below = λ s i lt. name_below s.0 i lt;
  item_present = λ s k custom present. name_present s.0 k present;
  item-remove = λ s k i j at_i lt. key_at-remove s.0 k i j s.1 at_i lt;
}
