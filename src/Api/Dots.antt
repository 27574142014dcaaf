-- ===== src/Api/Dots.antt =====
-- The segments that a URL parser takes out of a path, and the calls with an id: encodeURIComponent
-- leaves dots as they are.
use meadow_ops.Base.{
  ◌<◌, ◌≡◌, refl, Bool, true, false, not, ◌&&◌, ◌||◌, Option, none, some, List, [], ◌∷◌, nat_eq,
  any, all, All, Bool-cases, arith, inl, inr,
}
use meadow_ops.Api.Uri.{Bytes, text, encode, decode, decode-encode, hex_value}

abbrev pub same_bytes : Bytes → Bytes → Bool
same_bytes [] [] = true
same_bytes (b ∷ s) (c ∷ t) = let rest = same_bytes s t in nat_eq b c && rest
same_bytes _ _ = false

same_bytes-eq : (s t : Bytes) → same_bytes s t ≡ true → s ≡ t
same_bytes-eq [] [] h = refl
same_bytes-eq [] (c ∷ t) h = cc
same_bytes-eq (b ∷ s) [] h = cc
same_bytes-eq (b ∷ s) (c ∷ t) h = ground (arith, same_bytes-eq s t)

-- The spellings of one dot and of two dots in the URL standard.
abbrev pub dot_texts : List Bytes
dot_texts =
    text "."
    ∷ text "%2e"
    ∷ text "%2E"
    ∷ text ".."
    ∷ text ".%2e"
    ∷ text ".%2E"
    ∷ text "%2e."
    ∷ text "%2E."
    ∷ text "%2e%2e"
    ∷ text "%2e%2E"
    ∷ text "%2E%2e"
    ∷ text "%2E%2E"
    ∷ []

unfoldable pub is_dot_segment : Bytes → Bool
is_dot_segment s = any (same_bytes s) dot_texts

abbrev pub no_dots : List Bytes → Bool
no_dots segs = all (λ s. not (is_dot_segment s)) segs

-- What is decoded from a spelling of dots is dots.
unfoldable is_dots : Option Bytes → Bool
is_dots none = true
is_dots (some s) = same_bytes s (text ".") || same_bytes s (text "..")

any-member :
    (P : Bytes → Type 0) (s : Bytes) (ts : List Bytes)
    → All P ts
    → any (same_bytes s) ts ≡ true
    → P s
any-member P s [] h e = cc
any-member P s (t ∷ ts) (p, h) e = elim (Bool-cases (same_bytes s t)) [
  | inl same ↦ rw (same_bytes-eq s t same) p
  | inr other ↦ any-member P s ts h (rw other at e)
]

dots_decoded : All (λ s. is_dots (decode s) ≡ true) dot_texts
unfolding is_dots decode hex_value
dots_decoded = (
  refl,
  (refl, (refl, (refl, (refl, (refl, (refl, (refl, (refl, (refl, (refl, (refl, tt))))))))))),
)

-- An id that is not one or two dots.
abbrev pub is_name : Bytes → Bool
is_name id = not (same_bytes id (text ".") || same_bytes id (text ".."))

pub is_dot_segment-encode :
    (id : Bytes) → All (λ b. b < 256) id → is_name id ≡ true → is_dot_segment (encode id) ≡ false
unfolding is_dot_segment
is_dot_segment-encode id small named = elim (Bool-cases (is_dot_segment (encode id))) [
  | inl dot ↦
      let d : is_dots (decode (encode id)) ≡ true =
        any-member (λ s. is_dots (decode s) ≡ true) (encode id) dot_texts dots_decoded dot in
      let clash : is_dots (some id) ≡ true = rw (decode-encode id small) at d in
      unfold is_dots in ground arith
  | inr other ↦ other
]
