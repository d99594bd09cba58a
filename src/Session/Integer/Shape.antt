-- ===== src/Session/Integer/Shape.antt =====
-- The characters and the length of a printed integer.
use universal_launcher.Prelude.{
  ℕ, zero, suc, ◌+◌, ◌/◌, ◌%◌, ◌^◌, ◌≤◌, ◌<◌, ◌≡◌, refl, ◌≢◌, ◌⊎◌, inl, inr, [], ◌∷◌, arith, ltb,
  Bool-cases, length, length-append, All, All-append, All-mono, IsTextByte, IsText, Lacks, ℤ, pos,
  negsuc,
}
use native.Mathlib.Nat.{pow-suc}
use universal_launcher.Session.Integer.{digits, print_integer, InI64}

abbrev IsDigitOrMinus : ℕ → Type 0
IsDigitOrMinus c = (c ≡ b'-') ⊎ ((b'0' ≤ c) × (c ≤ b'9'))

digits-IsDigitOrMinus : (fuel n : ℕ) → All IsDigitOrMinus (digits fuel n)
unfolding digits
digits-IsDigitOrMinus zero n = tt
digits-IsDigitOrMinus (suc fuel) n = elim (Bool-cases (ltb n 10)) [
  | inl small ↦ ground (arith, small)
  | inr big ↦
      let first = digits-IsDigitOrMinus fuel (n / 10) in
      let last : All IsDigitOrMinus ((b'0' + n % 10) ∷ []) = (inr (omega arith, omega arith), tt) in
      ground (
        arith,
        big,
        All-append IsDigitOrMinus (digits fuel (n / 10)) ((b'0' + n % 10) ∷ []) first last,
      )
]

print-IsDigitOrMinus : (v : ℤ) → All IsDigitOrMinus (print_integer v)
unfolding print_integer
print-IsDigitOrMinus (pos n) = digits-IsDigitOrMinus (suc n) n
print-IsDigitOrMinus (negsuc n) = (inl refl, digits-IsDigitOrMinus (suc (suc n)) (suc n))

text_character : (c : ℕ) → IsDigitOrMinus c → IsTextByte c
text_character c h = omega arith

pub print-IsText : (v : ℤ) → IsText (print_integer v)
print-IsText v =
    All-mono IsDigitOrMinus IsTextByte text_character (print_integer v) (print-IsDigitOrMinus v)

pub print-Lacks : (b : ℕ) (v : ℤ) → b'9' < b → Lacks b (print_integer v)
print-Lacks b v h =
    All-mono IsDigitOrMinus (λ c. c ≢ b) (λ c d e. omega arith) (print_integer v)
      (print-IsDigitOrMinus v)

length-digits : (k fuel n : ℕ) → n < 10 ^ k → 0 < k → length (digits fuel n) ≤ k
unfolding digits
length-digits zero fuel n h p = absurd (omega arith)
length-digits (suc k) zero n h p = omega arith
length-digits (suc zero) (suc fuel) n h p = ground (arith, h)
length-digits (suc (suc k)) (suc fuel) n h p = elim (Bool-cases (ltb n 10)) [
  | inl small ↦ ground (arith, small)
  | inr big ↦
      let shorter : n / 10 < 10 ^ suc k = omega (arith, pow-suc 10 (suc k)) in
      ground (
        arith,
        big,
        length-append (digits fuel (n / 10)) ((b'0' + n % 10) ∷ []),
        length-digits (suc k) fuel (n / 10) shorter,
      )
]

-- An int64_t prints in 1 to 20 characters, which the buffer of 64 holds.
pub length-print :
    (v : ℤ) → InI64 v → (0 < length (print_integer v)) × (length (print_integer v) ≤ 20)
unfolding print_integer
length-print (pos n) h = (
  ground (arith, length-append (digits n (n / 10)) ((b'0' + n % 10) ∷ [])),
  omega (arith, length-digits 19 (suc n) n (omega arith) (omega arith)),
)
length-print (negsuc n) h =
    (omega arith, omega (arith, length-digits 19 (suc (suc n)) (suc n) (omega arith) (omega arith)))
