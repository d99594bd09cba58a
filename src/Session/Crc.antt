-- ===== src/Session/Crc.antt =====
-- runtime/launcher/kernel/ulk_session.c: `ulk_crc32`, the "%08" PRIx32 of `ulk_serialize_record` and
-- the `strtoul` of `ulk_parse_record`.
use Prim.Native.Nat.{bit_and, bit_xor}
use universal_launcher.Prelude.{
  ℕ, zero, suc, ◌+◌, ◌-◌, ◌*◌, ◌/◌, ◌%◌, ◌^◌, ◌≤◌, ◌<◌, ◌≡◌, refl, ap, ◌∙◌, false, not, ◌&&◌, ◌||◌,
  Option, none, some, [], ◌∷◌, arith, ltb, ◌==◌, if◌then◌else◌, ◌>>=◌, ◌>>◌, guard, length, Bytes,
  codes, IsText, Lacks, between,
}
use universal_launcher.Session.Hex.{hex_character}
use universal_launcher.Session.Integer.{is_space, skip_space}

abbrev pub u32_max : ℕ
u32_max = 2 ^ 32 - 1

-- One round of the inner loop; the mask is all ones where the low bit is set.
crc_bit : ℕ → ℕ
crc_bit crc = let mask = (2 ^ 32 - crc % 2) % 2 ^ 32 in bit_xor (crc / 2) (bit_and 0xedb88320 mask)

crc_rounds : ℕ → ℕ → ℕ
crc_rounds zero crc = crc
crc_rounds (suc n) crc = crc_rounds n (crc_bit crc)

crc_bytes : ℕ → Bytes → ℕ
crc_bytes crc [] = crc
crc_bytes crc (c ∷ s) = crc_bytes (crc_rounds 8 (bit_xor crc c)) s

-- `~crc` is the distance to all ones.
unfoldable pub crc32 : Bytes → ℕ
unfolding crc_bytes crc_rounds crc_bit
crc32 s = u32_max - crc_bytes u32_max s

crc32_check : crc32 (codes "123456789") ≡ 0xcbf43926
unfolding crc32
crc32_check = refl

unfoldable pub print_hex8 : ℕ → Bytes
unfolding hex_character
print_hex8 v =
    hex_character (v / 16 ^ 7)
    ∷ hex_character (v / 16 ^ 6 % 16)
    ∷ hex_character (v / 16 ^ 5 % 16)
    ∷ hex_character (v / 16 ^ 4 % 16)
    ∷ hex_character (v / 16 ^ 3 % 16)
    ∷ hex_character (v / 16 ^ 2 % 16)
    ∷ hex_character (v / 16 % 16)
    ∷ hex_character (v % 16)
    ∷ []

-- A digit of base 16, in either case.
hex_value : ℕ → Option ℕ
hex_value c =
    if between b'0' b'9' c
    then some (c - b'0')
    else if between b'a' b'f' c
    then some (c - b'a' + 10)
    else if between b'A' b'F' c
    then some (c - b'A' + 10)
    else none

-- As in `strtoll`, an unread rest is a failure of the caller.
read_hex : ℕ → Bytes → Option ℕ
unfolding hex_value
read_hex n [] = some n
read_hex n (c ∷ s) = elim (hex_value c) [ none ↦ none | some d ↦ read_hex (n * 16 + d) s ]

hex_digits : Bytes → Option ℕ
unfolding read_hex
hex_digits [] = none
hex_digits (c ∷ s) = read_hex 0 (c ∷ s)

-- The optional prefix of base 16.
strip_0x : Bytes → Bytes
strip_0x (z ∷ x ∷ s) = if z == b'0' && (x == b'x' || x == b'X') then s else z ∷ x ∷ s
strip_0x s = s

unsigned_long : ℕ → Option ℕ
unsigned_long n = if ltb n (2 ^ 64) then some n else none

strtoul : Bytes → Option ℕ
unfolding hex_digits strip_0x unsigned_long
strtoul [] = none
strtoul (c ∷ s) =
    if c == b'-'
    then (do n ← hex_digits (strip_0x s) >>= unsigned_long; some ((2 ^ 64 - n) % 2 ^ 64))
    else if c == b'+'
    then hex_digits (strip_0x s) >>= unsigned_long
    else hex_digits (strip_0x (c ∷ s)) >>= unsigned_long

-- `strlen(...) != 8u`, the conversion, and `expected_checksum > UINT32_MAX`.
unfoldable pub parse_checksum : Bytes → Option ℕ
unfolding strtoul skip_space
parse_checksum text = do
  guard (length text == 8)
  n ← strtoul (skip_space text)
  guard (not (ltb u32_max n))
  some n

hex_value-character : (n : ℕ) → n < 16 → hex_value (hex_character n) ≡ some n
unfolding hex_value hex_character
hex_value-character n h = ground arith

pub length-print_hex8 : (v : ℕ) → length (print_hex8 v) ≡ 8
unfolding print_hex8
length-print_hex8 v = refl

character_le : (n : ℕ) → n < 16 → (b'0' ≤ hex_character n) × (hex_character n ≤ b'f')
unfolding hex_character
character_le n h = ground arith

-- A character of the digit string is no space, no sign and no `x`.
plain_character :
    (n : ℕ)
    → n < 16
    → (is_space (hex_character n) ≡ false)
      × ((hex_character n == b'-') ≡ false)
      × ((hex_character n == b'+') ≡ false)
      × ((hex_character n == b'x') ≡ false)
      × ((hex_character n == b'X') ≡ false)
unfolding hex_character
plain_character n h = ground arith

read_hex-step :
    (n m : ℕ) (s : Bytes) → n < 16 → read_hex m (hex_character n ∷ s) ≡ read_hex (m * 16 + n) s
unfolding read_hex
read_hex-step n m s h = ground (arith, hex_value-character n h)

-- strtoul of a text that begins with two digits reads digits only.
strtoul-plain :
    (a b : ℕ) (s : Bytes)
    → a < 16
    → b < 16
    → strtoul (skip_space (hex_character a ∷ hex_character b ∷ s))
      ≡ (read_hex 0 (hex_character a ∷ hex_character b ∷ s) >>= unsigned_long)
unfolding strtoul skip_space
strtoul-plain a b s p q = ground (arith, plain_character a p, plain_character b q)

from_digits :
    (a b c d e f g h : ℕ)
    → a < 16
    → b < 16
    → c < 16
    → d < 16
    → e < 16
    → f < 16
    → g < 16
    → h < 16
    → read_hex 0 (
        hex_character a
        ∷ hex_character b
        ∷ hex_character c
        ∷ hex_character d
        ∷ hex_character e
        ∷ hex_character f
        ∷ hex_character g
        ∷ hex_character h
        ∷ [])
      ≡ some (((((((a * 16 + b) * 16 + c) * 16 + d) * 16 + e) * 16 + f) * 16 + g) * 16 + h)
unfolding read_hex
from_digits a b c d e f g h pa pb pc pd pe pf pg ph = ground (
  arith,
  hex_value-character a pa,
  hex_value-character b pb,
  hex_value-character c pc,
  hex_value-character d pd,
  hex_value-character e pe,
  hex_value-character f pf,
  hex_value-character g pg,
  hex_value-character h ph,
)

digits_sum :
    (v : ℕ)
    → ((((((v / 16 ^ 7 * 16 + v / 16 ^ 6 % 16) * 16 + v / 16 ^ 5 % 16) * 16 + v / 16 ^ 4 % 16) * 16
                    + v / 16 ^ 3 % 16)
                  * 16
                + v / 16 ^ 2 % 16)
              * 16
            + v / 16 % 16)
          * 16
        + v % 16
      ≡ v
digits_sum v = omega arith

read-print_hex8 : (v : ℕ) → v ≤ u32_max → read_hex 0 (print_hex8 v) ≡ some v
unfolding print_hex8
read-print_hex8 v h =
    from_digits (v / 16 ^ 7) (v / 16 ^ 6 % 16) (v / 16 ^ 5 % 16) (v / 16 ^ 4 % 16) (v / 16 ^ 3 % 16)
      (v / 16 ^ 2 % 16) (v / 16 % 16) (v % 16) (omega arith) (omega arith) (omega arith)
      (omega arith) (omega arith) (omega arith) (omega arith) (omega arith)
    ∙ ap some (digits_sum v)

-- Every 32-bit checksum is parsed back from the eight hexadecimal digits that are printed for
-- it.
pub parse-print_hex8 : (v : ℕ) → v ≤ u32_max → parse_checksum (print_hex8 v) ≡ some v
unfolding parse_checksum print_hex8 unsigned_long
parse-print_hex8 v h =
    rw (strtoul-plain (v / 16 ^ 7) (v / 16 ^ 6 % 16) _ (omega arith) (omega arith))
      (rw (read-print_hex8 v h) (ground arith))

pub print_hex8-Lacks : (b v : ℕ) → v ≤ u32_max → b'f' < b → Lacks b (print_hex8 v)
unfolding print_hex8
print_hex8-Lacks b v h off = omega (arith, character_le)

pub crc32-le : (s : Bytes) → crc32 s ≤ u32_max
unfolding crc32
crc32-le s = omega arith

pub print_hex8-IsText : (v : ℕ) → v ≤ u32_max → IsText (print_hex8 v)
unfolding print_hex8
print_hex8-IsText v h = omega (arith, character_le)
