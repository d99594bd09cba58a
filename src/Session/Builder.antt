-- ===== src/Session/Builder.antt =====
-- runtime/launcher/kernel/ulk_session.c: the growing text buffer, `ulk_text_builder`, and its appends.
pub mod Writes
use universal_launcher.Prelude.{
  ℕ, zero, suc, ◌+◌, ◌-◌, ◌*◌, ◌/◌, ◌%◌, ◌^◌, ◌≤◌, ◌<◌, ◌≡◌, refl, sym, ap, ◌∙◌, ◌≢◌, ◌↔◌, ◌⊎◌, inl,
  inr, Bool, true, false, not, ◌&&◌, ◌||◌, Option, none, some, List, [], ◌∷◌, ◌++◌, append_assoc,
  append-nil, arith, ltb, leb, ◌==◌, if◌then◌else◌, ltb→lt, lt→ltb, ltb-false, leb→le, ==_iff,
  tests, Bool-cases, Option-cases, and_true, ◌>>=◌, ◌>>◌, guard, length, all, is_nil, take, drop,
  length-append, All, All-append, All-mono, Bytes, codes, bytes_eq, bytes_eq_iff, bytes_eq_refl,
  c_string, IsTextByte, IsText, c_string-IsText, Lacks, between, ℤ, pos, negsuc, ◌==ℤ◌, ==ℤ_iff,
  ltb_ℤ,
}
use universal_launcher.Session.Hex.{encode_hex}
use universal_launcher.Session.Integer.{print_integer}

abbrev pub size_max : ℕ
size_max = 2 ^ 64 - 1

-- `size` is the length of the text; the final zero stands behind it.
pub record TextBuilder : Type 0 where
  pub text : Bytes
  pub capacity : ℕ

abbrev pub empty_builder : TextBuilder
empty_builder = record { text = []; capacity = 0 }

-- The doubling loop of `ulk_builder_reserve`, on size_t; `none` when the rounds are used up.
unfoldable pub grow : ℕ → ℕ → ℕ → Option ℕ
grow zero capacity required = none
grow (suc fuel) capacity required =
    let rest = grow fuel (capacity * 2 % 2 ^ 64) required in
    if ltb capacity required
    then (if ltb (size_max / 2) capacity then some required else rest)
    else some capacity

-- An append gives the new builder, or `none` for 0.
abbrev pub Append : Type 0
Append = TextBuilder → Option TextBuilder

infixl 6 ◌▷◌
-- `a(...) && b(...)`, and `!a(...) || !b(...)` before a return of 0.
abbrev pub ◌▷◌ : Append → Append → Append
(a ▷ b) builder = a builder >>= b

abbrev pub skip : Append
skip builder = some builder

-- `realloc` says at which sizes the allocator delivers.
module _ (realloc : ℕ → Bool) where
  unfoldable pub reallocate : TextBuilder → ℕ → Option TextBuilder
  reallocate builder capacity =
      if realloc capacity then some (record builder { capacity = capacity }) else none

  unfoldable pub reserve : TextBuilder → ℕ → Option TextBuilder
  unfolding reallocate
  reserve builder extra =
      let size = length builder.text in
      let required = (size + extra + 1) % 2 ^ 64 in
      let capacity = if builder.capacity == 0 then 256 else builder.capacity in
      let grown = grow 64 capacity required >>= reallocate builder in
      if ltb ((size_max + 2 ^ 64 - size - 1) % 2 ^ 64) extra
      then none
      else if leb required builder.capacity
      then some builder
      else grown

  unfoldable pub append_bytes : Bytes → Append
  unfolding reserve
  append_bytes text builder = do
    reserved ← reserve builder (length text)
    some (record reserved { text = reserved.text ++ text })

  -- `ulk_builder_append`: the literal is its bytes before the final zero.
  unfoldable pub append : Bytes → Append
  unfolding append_bytes
  append text = append_bytes text

  unfoldable pub append_integer : ℤ → Append
  unfolding append_bytes
  append_integer value builder =
      let number = print_integer value in
      if ltb 0 (length number) && ltb (length number) 64 then append_bytes number builder else none

  -- One round of the loop for each byte of the C string.
  unfoldable pub append_hex : Bytes → Append
  unfolding append_bytes encode_hex
  append_hex [] builder = some builder
  append_hex (c ∷ s) builder = append_bytes (encode_hex (c ∷ [])) builder >>= append_hex s
