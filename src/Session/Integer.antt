-- ===== src/Session/Integer.antt =====
-- runtime/launcher/kernel/ulk_session.c: `ulk_parse_i64` and `ulk_parse_int`, with what they use of
-- `strtoll`, and the text of `snprintf("%" PRId64)` in `ulk_builder_append_integer`.
pub mod Shape
use mathlib.Core.List.{reverse}
use universal_launcher.Prelude.{
  ℕ, zero, suc, ◌+◌, ◌-◌, ◌*◌, ◌/◌, ◌%◌, ◌^◌, ◌≤◌, ◌<◌, ◌≡◌, refl, sym, ap, ◌∙◌, ◌≢◌, ◌↔◌, ◌⊎◌, inl,
  inr, Bool, true, false, not, ◌&&◌, ◌||◌, Option, none, some, List, [], ◌∷◌, ◌++◌, append_assoc,
  append-nil, arith, ltb, leb, ◌==◌, if◌then◌else◌, ltb→lt, lt→ltb, ltb-false, leb→le, ==_iff,
  tests, Bool-cases, Option-cases, and_true, ◌>>=◌, ◌>>◌, guard, length, all, is_nil, take, drop,
  length-append, All, All-append, Bytes, codes, bytes_eq, bytes_eq_iff, bytes_eq_refl, c_string,
  IsTextByte, IsText, c_string-IsText, Lacks, between, ℤ, pos, negsuc, ◌==ℤ◌, ==ℤ_iff, ltb_ℤ,
}

abbrev i64_max : ℕ
i64_max = 2 ^ 63 - 1

-- Decimal digits, most significant first; `fuel` bounds the number of divisions.
digits : ℕ → ℕ → Bytes
digits zero n = []
digits (suc fuel) n = elim (ltb n 10) [
  | true ↦ (b'0' + n) ∷ []
  | false ↦ digits fuel (n / 10) ++ (b'0' + n % 10) ∷ []
]

-- `%lld`: a minus sign and the absolute value.
pub print_integer : ℤ → Bytes
unfolding digits
print_integer (pos n) = digits (suc n) n
print_integer (negsuc n) = b'-' ∷ digits (suc (suc n)) (suc n)

-- isspace in the C locale.
abbrev pub is_space : ℕ → Bool
is_space c = between 9 13 c || c == b' '

unfoldable pub skip_space : Bytes → Bytes
skip_space [] = []
skip_space (c ∷ s) = if is_space c then skip_space s else c ∷ s

abbrev is_digit : ℕ → Bool
is_digit = between b'0' b'9'

-- The value of a text that consists of digits: a rest that strtoll leaves unread makes
-- `ulk_parse_i64` fail, so it is no number.
read_digits : ℕ → Bytes → Option ℕ
read_digits n [] = some n
read_digits n (c ∷ s) =
    let rest = read_digits (n * 10 + (c - b'0')) s in if is_digit c then rest else none

-- `end == text`: strtoll found no digit.
read_number : Bytes → Option ℕ
unfolding read_digits
read_number [] = none
read_number (c ∷ s) = read_digits 0 (c ∷ s)

abbrev negate : ℕ → ℤ
negate zero = pos 0
negate (suc n) = negsuc n

-- ERANGE outside of the range of int64_t.
positive_i64 : ℕ → Option ℤ
positive_i64 n = if ltb i64_max n then none else some (pos n)

negative_i64 : ℕ → Option ℤ
negative_i64 n = if ltb (i64_max + 1) n then none else some (negate n)

signed_number : Bytes → Option ℤ
unfolding read_number positive_i64 negative_i64
signed_number [] = none
signed_number (c ∷ s) =
    if c == b'-'
    then read_number s >>= negative_i64
    else if c == b'+'
    then read_number s >>= positive_i64
    else read_number (c ∷ s) >>= positive_i64

unfoldable pub parse_i64 : Bytes → Option ℤ
unfolding skip_space signed_number
parse_i64 text = signed_number (skip_space text)

abbrev in_i32 : ℤ → Bool
in_i32 v = not (ltb_ℤ v (negsuc (2 ^ 31 - 1))) && not (ltb_ℤ (pos (2 ^ 31 - 1)) v)

unfoldable pub parse_int : Bytes → Option ℤ
unfolding ltb_ℤ parse_i64
parse_int text = do value ← parse_i64 text; if in_i32 value then some value else none

abbrev pub InI64 : ℤ → Type 0
InI64 (pos n) = n < 2 ^ 63
InI64 (negsuc n) = n < 2 ^ 63

abbrev pub InI32 : ℤ → Type 0
InI32 (pos n) = n < 2 ^ 31
InI32 (negsuc n) = n < 2 ^ 31

print_min : print_integer (negsuc (2 ^ 63 - 1)) ≡ codes "-9223372036854775808"
unfolding print_integer
print_min = refl

parse_min : parse_i64 (codes " -9223372036854775808") ≡ some (negsuc (2 ^ 63 - 1))
unfolding parse_i64
parse_min = refl

parse_range : parse_i64 (codes "9223372036854775808") ≡ none
unfolding parse_i64
parse_range = refl

read_digits-append :
    (s t : Bytes) (a n : ℕ) → read_digits a s ≡ some n → read_digits a (s ++ t) ≡ read_digits n t
unfolding read_digits
read_digits-append [] t a n h = ground arith
read_digits-append (c ∷ s) t a n h = ground (arith, read_digits-append s t (a * 10 + (c - b'0')) n)

read_digits-digits : (fuel n : ℕ) → n < fuel → read_digits 0 (digits fuel n) ≡ some n
unfolding read_digits digits
read_digits-digits zero n h = elim h [ ]
read_digits-digits (suc fuel) n h = ground (
  arith,
  read_digits-append (digits fuel (n / 10)) ((b'0' + n % 10) ∷ []) 0 (n / 10),
  read_digits-digits fuel (n / 10),
)

-- The digits of a number begin with a digit.
StartsWithDigit : Bytes → Type 0
StartsWithDigit [] = ⊥
StartsWithDigit (c ∷ s) = is_digit c ≡ true

starts-append : (s t : Bytes) → StartsWithDigit s → StartsWithDigit (s ++ t)
unfolding StartsWithDigit
starts-append [] t h = absurd h
starts-append (c ∷ s) t h = h

digits-start : (fuel n : ℕ) → n < fuel → StartsWithDigit (digits fuel n)
unfolding StartsWithDigit digits
digits-start zero n h = elim h [ ]
digits-start (suc fuel) n h = elim (Bool-cases (ltb n 10)) [
  | inl small ↦ ground (arith, small)
  | inr big ↦ ground (
    arith,
    big,
    starts-append (digits fuel (n / 10)) ((b'0' + n % 10) ∷ []),
    digits-start fuel (n / 10),
  )
]

read_number_lem :
    (s : Bytes) (n : ℕ) → StartsWithDigit s → read_digits 0 s ≡ some n → read_number s ≡ some n
unfolding StartsWithDigit read_number
read_number_lem [] n d h = absurd d
read_number_lem (c ∷ s) n d h = h

signed_lem :
    (s : Bytes)
    → StartsWithDigit s
    → signed_number (skip_space s) ≡ (read_number s >>= positive_i64)
unfolding StartsWithDigit signed_number skip_space
signed_lem [] d = absurd d
signed_lem (c ∷ s) d = ground arith

negative_lem :
    (s : Bytes) → signed_number (skip_space (b'-' ∷ s)) ≡ (read_number s >>= negative_i64)
unfolding signed_number skip_space
negative_lem s = refl

-- Every int64_t value that is printed in decimal is parsed back by the journal.
pub parse-print : (v : ℤ) → InI64 v → parse_i64 (print_integer v) ≡ some v
unfolding parse_i64 print_integer positive_i64
parse-print (pos n) h = rw (signed_lem (digits (suc n) n) (digits-start (suc n) n (omega arith))) (
    rw
      (read_number_lem (digits (suc n) n) n (digits-start (suc n) n (omega arith))
        (read_digits-digits (suc n) n (omega arith)))
      (ground arith))
parse-print (negsuc n) h = rw (negative_lem (digits (suc (suc n)) (suc n))) (
    rw
      (read_number_lem (digits (suc (suc n)) (suc n)) (suc n)
        (digits-start (suc (suc n)) (suc n) (omega arith))
        (read_digits-digits (suc (suc n)) (suc n) (omega arith)))
      (ground arith))

-- The same for the fields of type int.
pub parse_int-print : (v : ℤ) → InI32 v → parse_int (print_integer v) ≡ some v
unfolding parse_int ltb_ℤ
parse_int-print (pos n) h = ground (arith, parse-print (pos n))
parse_int-print (negsuc n) h = ground (arith, parse-print (negsuc n))
