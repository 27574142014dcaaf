-- ===== src/Api/Uri.antt =====
-- `encodeURIComponent` over UTF-8 bytes, its inverse, and the segments of a path.
use Prim.Native.Char.{code}
use meadow_ops.Base.{
  ℕ, ◌+◌, ◌*◌, ◌/◌, ◌%◌, ◌-◌, ◌<◌, ◌≡◌, refl, String, Bool, true, false, ◌&&◌, ◌||◌, Option, none,
  some, List, [], ◌∷◌, ◌++◌, nat_eq, leb, ltb, if◌then◌else◌, any, All, All-append, arith,
  Bool-cases, Option-cases, inl, inr,
}
use mathlib.Core.Option

abbrev pub Bytes : Type 0
Bytes = List ℕ

-- The bytes of an ASCII text.
abbrev pub text : String → Bytes
text String.[] = []
text (String.◌∷◌ c s) = code c ∷ text s

-- Letters, digits and `- _ . ! ~ * ' ( )` stay as they are.
unfoldable pub is_unreserved : ℕ → Bool
is_unreserved b =
    (leb 48 b && leb b 57)
    || (leb 65 b && leb b 90)
    || (leb 97 b && leb b 122)
    || any (nat_eq b) (text "-_.!~*'()")

unfoldable pub hex_digit : ℕ → ℕ
hex_digit d = if ltb d 10 then d + 48 else d + 55

unfoldable pub encode_byte : ℕ → Bytes
encode_byte b =
    if is_unreserved b then b ∷ [] else 37 ∷ hex_digit (b / 16) ∷ hex_digit (b % 16) ∷ []

unfoldable pub encode : Bytes → Bytes
encode [] = []
encode (b ∷ bs) = encode_byte b ++ encode bs

-- The parts between slashes.
abbrev pub push_head : ℕ → List Bytes → List Bytes
push_head c [] = (c ∷ []) ∷ []
push_head c (p ∷ ps) = (c ∷ p) ∷ ps

abbrev pub split_slash : Bytes → List Bytes
split_slash [] = [] ∷ []
split_slash (c ∷ s) =
    let rest = split_slash s in if nat_eq c 47 then [] ∷ rest else push_head c rest

-- What a reader of the encoded text undoes.
unfoldable pub hex_value : ℕ → Option ℕ
hex_value c =
    if leb 48 c && leb c 57
    then some (c - 48)
    else if leb 65 c && leb c 70
    then some (c - 55)
    else none

abbrev join_hex : Option ℕ → Option ℕ → Option Bytes → Option Bytes
join_hex (some a) (some b) (some rest) = some ((a * 16 + b) ∷ rest)
join_hex _ _ _ = none

unfoldable pub decode : Bytes → Option Bytes
decode [] = some []
decode (c ∷ []) = if nat_eq c 37 then none else some (c ∷ [])
decode (c ∷ d ∷ []) =
    let rest = decode (d ∷ []) in if nat_eq c 37 then none else Option.map (λ r. c ∷ r) rest
decode (c ∷ d ∷ e ∷ s) =
    let escaped = join_hex (hex_value d) (hex_value e) (decode s) in
    let rest = decode (d ∷ e ∷ s) in if nat_eq c 37 then escaped else Option.map (λ r. c ∷ r) rest

hex_value-hex_digit : (d : ℕ) → d < 16 → hex_value (hex_digit d) ≡ some d
unfolding hex_value hex_digit
hex_value-hex_digit d h = ground arith

unreserved-ne-percent : (b : ℕ) → is_unreserved b ≡ true → nat_eq b 37 ≡ false
unfolding is_unreserved
unreserved-ne-percent b h = ground arith

decode_plain :
    (b : ℕ) (s : Bytes) → nat_eq b 37 ≡ false → decode (b ∷ s) ≡ Option.map (λ r. b ∷ r) (decode s)
unfolding decode
decode_plain b [] h = rw h
decode_plain b (d ∷ []) h = rw h
decode_plain b (d ∷ e ∷ s) h = rw h

decode_escaped :
    (a b : ℕ) (s : Bytes)
    → a < 16
    → b < 16
    → decode (37 ∷ hex_digit a ∷ hex_digit b ∷ s) ≡ Option.map (λ r. (a * 16 + b) ∷ r) (decode s)
unfolding decode
decode_escaped a b s h k =
    rw (hex_value-hex_digit a h, hex_value-hex_digit b k)
      (elim (Option-cases (decode s)) [ inl e ↦ rw e | inr (r, e) ↦ rw e ])

-- Decoding an encoded text gives the text, so no two texts are encoded alike.
pub decode-encode : (s : Bytes) → All (λ b. b < 256) s → decode (encode s) ≡ some s
unfolding encode encode_byte
decode-encode [] h = unfold decode in refl
decode-encode (b ∷ s) (small, h) = elim (Bool-cases (is_unreserved b)) [
  | inl plain ↦
      rw plain (rw (decode_plain b (encode s) (unreserved-ne-percent b plain), decode-encode s h))
  | inr other ↦
      let back : (b / 16) * 16 + b % 16 ≡ b = omega arith in
      rw other (
        rw (
          decode_escaped (b / 16) (b % 16) (encode s) (omega arith) (omega arith),
          decode-encode s h,
          back,
        ))
]

-- Every byte of an encoded text is unreserved or a percent sign.
abbrev pub IsPlain : ℕ → Type 0
IsPlain c = (is_unreserved c || nat_eq c 37) ≡ true

hex_digit-unreserved : (d : ℕ) → d < 16 → is_unreserved (hex_digit d) ≡ true
unfolding is_unreserved hex_digit
hex_digit-unreserved d h = ground arith

encode_byte-IsPlain : (b : ℕ) → b < 256 → All IsPlain (encode_byte b)
unfolding encode_byte
encode_byte-IsPlain b h = elim (Bool-cases (is_unreserved b)) [
  | inl plain ↦ rw plain (rw plain (refl, tt))
  | inr other ↦ rw other (
    unfold is_unreserved in refl,
    (
      rw (hex_digit-unreserved (b / 16) (omega arith)) refl,
      (rw (hex_digit-unreserved (b % 16) (omega arith)) refl, tt),
    ),
  )
]

pub encode-IsPlain : (s : Bytes) → All (λ b. b < 256) s → All IsPlain (encode s)
unfolding encode
encode-IsPlain [] h = tt
encode-IsPlain (b ∷ s) (small, h) =
    All-append IsPlain (encode_byte b) (encode s) (encode_byte-IsPlain b small) (encode-IsPlain s h)

plain-ne-slash : (c : ℕ) → IsPlain c → nat_eq c 47 ≡ false
unfolding is_unreserved
plain-ne-slash c h = ground arith

split_slash-append : (p s : Bytes) → All IsPlain p → split_slash (p ++ 47 ∷ s) ≡ p ∷ split_slash s
split_slash-append [] s h = refl
split_slash-append (c ∷ p) s (plain, h) = rw (plain-ne-slash c plain, split_slash-append p s h)

split_slash_one : (p : Bytes) → All IsPlain p → split_slash p ≡ p ∷ []
split_slash_one [] h = refl
split_slash_one (c ∷ p) (plain, h) = rw (plain-ne-slash c plain, split_slash_one p h)

-- An encoded text is one segment of a path, whatever it holds.
pub split_slash-encode :
    (id s : Bytes)
    → All (λ b. b < 256) id
    → split_slash (encode id ++ 47 ∷ s) ≡ encode id ∷ split_slash s
split_slash-encode id s h = split_slash-append (encode id) s (encode-IsPlain id h)

pub split_slash-encode_last :
    (id : Bytes) → All (λ b. b < 256) id → split_slash (encode id) ≡ encode id ∷ []
split_slash-encode_last id h = split_slash_one (encode id) (encode-IsPlain id h)
