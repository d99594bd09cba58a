-- ===== src/Session/Hex.antt =====
-- runtime/launcher/kernel/ulk_session.c: `ulk_builder_append_hex`, `ulk_hex_digit` and
-- `ulk_decode_hex`.
use universal_launcher.Prelude.{
  ℕ, ◌+◌, ◌-◌, ◌*◌, ◌/◌, ◌%◌, ◌<◌, ◌≡◌, refl, ◌⊎◌, inl, inr, not, ◌||◌, Option, none, some, [], ◌∷◌,
  arith, ltb, leb, ◌==◌, if◌then◌else◌, Option-cases, ◌>>=◌, ◌>>◌, guard, length, Bytes, IsText,
  Lacks, between,
}

-- The entry of `digits[] = "0123456789abcdef"` at a number below 16.
unfoldable pub hex_character : ℕ → ℕ
hex_character n = if ltb n 10 then b'0' + n else b'a' + (n - 10)

-- `*cursor >> 4u` and `*cursor & 15u`, byte by byte, up to the end of the C string.
unfoldable pub encode_hex : Bytes → Bytes
unfolding hex_character
encode_hex [] = []
encode_hex (c ∷ s) = hex_character (c / 16) ∷ hex_character (c % 16) ∷ encode_hex s

-- -1 in the source is `none`.
hex_digit : ℕ → Option ℕ
hex_digit c =
    if between b'0' b'9' c
    then some (c - b'0')
    else if between b'a' b'f' c
    then some (c - b'a' + 10)
    else none

-- The loop of `ulk_decode_hex`, which takes two characters a round.
decode_pairs : Bytes → Option Bytes
unfolding hex_digit
decode_pairs [] = some []
decode_pairs (h ∷ []) = none
decode_pairs (h ∷ l ∷ rest) =
    let tail = decode_pairs rest in
    do
      high ← hex_digit h
      low ← hex_digit l
      guard (not (high * 16 + low == 0))
      bytes ← tail
      some ((high * 16 + low) ∷ bytes)

-- `capacity` is the size of the destination, its final zero included.
unfoldable pub decode_hex : Bytes → ℕ → Option Bytes
unfolding decode_pairs
decode_hex encoded capacity =
    if not (length encoded % 2 == 0) || leb capacity (length encoded / 2)
    then none
    else decode_pairs encoded

pub length-encode_hex : (s : Bytes) → length (encode_hex s) ≡ 2 * length s
unfolding encode_hex
length-encode_hex [] = omega arith
length-encode_hex (c ∷ s) = omega (arith, length-encode_hex s)

hex_digit-character : (n : ℕ) → n < 16 → hex_digit (hex_character n) ≡ some n
unfolding hex_digit hex_character
hex_digit-character n h = ground arith

decode_pairs-encode : (s : Bytes) → IsText s → decode_pairs (encode_hex s) ≡ some s
unfolding decode_pairs encode_hex
decode_pairs-encode [] h = refl
decode_pairs-encode (c ∷ s) h =
    ground
      (arith, hex_digit-character (c / 16), hex_digit-character (c % 16), decode_pairs-encode s h.1)

-- Every text without zero bytes that is shorter than the destination is decoded from its
-- hexadecimal form.
pub decode-encode :
    (s : Bytes) (capacity : ℕ)
    → IsText s
    → length s < capacity
    → decode_hex (encode_hex s) capacity ≡ some s
unfolding decode_hex
decode-encode s capacity h fits = ground (arith, length-encode_hex s, decode_pairs-encode s h)

hex_digit-lt : (c d : ℕ) → hex_digit c ≡ some d → d < 16
unfolding hex_digit
hex_digit-lt c d h = ground arith

decode_pairs-IsText : (e s : Bytes) → decode_pairs e ≡ some s → IsText s × (length e ≡ 2 * length s)
unfolding decode_pairs
decode_pairs-IsText [] s h = ground arith
decode_pairs-IsText (x ∷ []) s h = cc
decode_pairs-IsText (x ∷ y ∷ e) s h = elim (Option-cases (hex_digit x)) [
  | inl no_high ↦ cc no_high
  | inr (a, high) ↦ elim (Option-cases (hex_digit y)) [
    | inl no_low ↦ ground (arith, high, no_low)
    | inr (b, low) ↦ elim (Option-cases (decode_pairs e)) [
      | inl no_rest ↦ ground (arith, high, low, no_rest)
      | inr (t, rest) ↦ ground (
        arith,
        high,
        low,
        rest,
        hex_digit-lt x a high,
        hex_digit-lt y b low,
        decode_pairs-IsText e t rest,
      )
    ]
  ]
]

-- What decodes is a text without zero bytes that fits the destination.
pub decode_hex-IsText :
    (e s : Bytes) (capacity : ℕ) → decode_hex e capacity ≡ some s → IsText s × (length s < capacity)
unfolding decode_hex
decode_hex-IsText e s capacity h = ground (arith, decode_pairs-IsText e s)

-- Encoded text holds no byte outside the digits' range, so no field separator.
pub encode_hex-Lacks :
    (b : ℕ) (s : Bytes) → IsText s → (b < b'0') ⊎ (b'f' < b) → Lacks b (encode_hex s)
unfolding encode_hex hex_character
encode_hex-Lacks b [] h off = tt
encode_hex-Lacks b (c ∷ s) h off = (ground arith, (ground arith, encode_hex-Lacks b s h.1 off))

pub encode_hex-IsText : (s : Bytes) → IsText s → IsText (encode_hex s)
unfolding encode_hex hex_character
encode_hex-IsText [] h = tt
encode_hex-IsText (c ∷ s) h =
    ((ground arith, ground arith), ((ground arith, ground arith), encode_hex-IsText s h.1))
