-- ===== src/Session/Builder/Writes.antt =====
-- What an append adds to the text, when it succeeds, and that the buffer holds the text and its zero.
use universal_launcher.Prelude.{
  ℕ, zero, suc, ◌+◌, ◌*◌, ◌%◌, ◌^◌, ◌≤◌, ◌<◌, ◌≡◌, refl, ap, ◌⊎◌, inl, inr, Bool, true, false, some,
  [], ◌∷◌, ◌++◌, append_assoc, append-nil, arith, leb, ltb, ◌∙◌, ◌/◌, sym, Option, ◌==◌,
  if◌then◌else◌, Bool-cases, Option-cases, length, length-append, Bytes, ℤ,
}
use native.Mathlib.Nat.{pow-suc}
use mathlib.Core.Path.{subst}
use universal_launcher.Session.Hex.{encode_hex}
use universal_launcher.Session.Integer.{print_integer, InI64}
use universal_launcher.Session.Integer.Shape.{length-print}
use universal_launcher.Session.Builder.{
  size_max, TextBuilder, grow, reallocate, Append, ◌▷◌, skip, reserve, append_bytes, append,
  append_integer, append_hex,
}

-- The text and its final zero lie within the allocation, whose size is a `size_t`.
abbrev pub Fits : TextBuilder → Type 0
Fits b = (b.capacity ≤ size_max) × ((length b.text ≡ 0) ⊎ (length b.text < b.capacity))

-- `a` appends exactly `t`, keeps the buffer's bounds, and succeeds where the allocator always does.
pub record Writes (realloc : ℕ → Bool) (a : Append) (t : Bytes) : Type 0 where
  pub exact : (b b' : TextBuilder) → a b ≡ some b' → b'.text ≡ b.text ++ t
  pub fits : (b b' : TextBuilder) → a b ≡ some b' → Fits b → Fits b'
  pub total :
      ((n : ℕ) → realloc n ≡ true)
      → (b : TextBuilder) → length b.text + length t < size_max
      → (b' : TextBuilder) × (a b ≡ some b')

-- What a run of the doubling loop on size_t reaches.
abbrev pub Covers : Option ℕ → ℕ → Type 0
Covers grown required = (c : ℕ) × (grown ≡ some c) × (required ≤ c) × (c ≤ size_max)

double_lem :
    (required capacity fuel : ℕ)
    → required ≤ capacity * 2 ^ suc fuel
    → required ≤ capacity * 2 * 2 ^ fuel
double_lem required capacity fuel h = grind (arith, pow-suc 2 fuel)

grow_step :
    (fuel capacity required : ℕ)
    → ltb capacity required ≡ true
    → ltb (size_max / 2) capacity ≡ false
    → grow (suc fuel) capacity required ≡ grow fuel (capacity * 2 % 2 ^ 64) required
unfolding grow
grow_step fuel capacity required short small = ground (arith, short, small)

grow-Covers :
    (fuel capacity required : ℕ)
    → 2 ^ 64 ≤ capacity * 2 ^ fuel
    → capacity ≤ size_max
    → required ≤ size_max
    → Covers (grow fuel capacity required) required
unfolding grow
grow-Covers zero capacity required h c r = absurd (omega (arith, h))
grow-Covers (suc fuel) capacity required h c r = elim (Bool-cases (ltb capacity required)) [
  | inr enough ↦ (capacity, ground (arith, enough), ground (arith, enough), c)
  | inl short ↦ elim (Bool-cases (ltb (size_max / 2) capacity)) [
    | inl large ↦ (required, ground (arith, short, large), omega arith, r)
    | inr small ↦
        let half : capacity ≤ size_max / 2 = ground (arith, small) in
        let same : capacity * 2 % 2 ^ 64 ≡ capacity * 2 = omega (arith, half) in
        let more : 2 ^ 64 ≤ capacity * 2 % 2 ^ 64 * 2 ^ fuel =
          subst (λ n. 2 ^ 64 ≤ n * 2 ^ fuel) (sym same) (double_lem _ capacity fuel h) in
        let (c', e, l, u) =
          grow-Covers fuel (capacity * 2 % 2 ^ 64) required more (omega (arith, half)) r in
        (c', grow_step fuel capacity required short small ∙ e, l, u)
  ]
]

-- From a capacity above 0 and within size_t, and for a required size within size_t, the doubling
-- loop on size_t ends within 64 rounds, with a capacity that covers the required size and is
-- within size_t.
pub grow_total :
    (capacity required : ℕ)
    → 0 < capacity
    → capacity ≤ size_max
    → required ≤ size_max
    → Covers (grow 64 capacity required) required
grow_total capacity required h c r = grow-Covers 64 capacity required (omega (arith, h)) c r

module _ (realloc : ℕ → Bool) where
  reserve_lem :
      (b b' : TextBuilder) (extra : ℕ)
      → reserve realloc b extra ≡ some b'
      → Fits b
      → (b'.text ≡ b.text) × (b'.capacity ≤ size_max) × (length b.text + extra < b'.capacity)
  unfolding reserve reallocate
  reserve_lem b b' extra h f =
      let c = (if b.capacity == 0 then 256 else b.capacity) in
      let required = (length b.text + extra + 1) % 2 ^ 64 in
      let (c', e, l, u) = grow_total c required (ground arith) (ground (arith, f)) (omega arith) in
      ground (arith, h, f, e, l, u)

  reserve_text :
      (b b' : TextBuilder) (extra : ℕ) → reserve realloc b extra ≡ some b' → b'.text ≡ b.text
  unfolding reserve reallocate
  reserve_text b b' extra h =
      let c = (if b.capacity == 0 then 256 else b.capacity) in
      elim (Option-cases (grow 64 c ((length b.text + extra + 1) % 2 ^ 64))) [
        | inl e ↦ ground (arith, h, e)
        | inr (c', e) ↦ ground (arith, h, e)
      ]

  grow-some :
      (capacity required : ℕ)
      → 0 < capacity
      → required ≤ size_max
      → (c : ℕ) × (grow 64 capacity required ≡ some c)
  unfolding grow
  grow-some capacity required h r = elim (Bool-cases (leb capacity size_max)) [
    | inl within ↦
        let (c, e, l, u) = grow_total capacity required h (ground (arith, within)) r in (c, e)
    | inr beyond ↦ (capacity, ground (arith, beyond))
  ]

  reserve_total :
      (b : TextBuilder) (extra : ℕ)
      → ((n : ℕ) → realloc n ≡ true)
      → length b.text + extra < size_max
      → (b' : TextBuilder) × (reserve realloc b extra ≡ some b')
  unfolding reserve reallocate
  reserve_total b extra r h =
      let required = (length b.text + extra + 1) % 2 ^ 64 in
      let (c, e) =
        grow-some (if b.capacity == 0 then 256 else b.capacity) required (ground arith)
          (omega arith) in
      elim (Bool-cases (leb required b.capacity)) [
        | inl enough ↦ (b, ground (arith, enough))
        | inr short ↦ (record b { capacity = c }, ground (arith, h, short, e, r c))
      ]

  pub Writes-append_bytes : (t : Bytes) → Writes realloc (append_bytes realloc t) t
  unfolding append_bytes
  Writes-append_bytes t = record {
    exact = λ b b' h. elim (Option-cases (reserve realloc b (length t))) [
      | inl e ↦ ground (arith, e)
      | inr (c, e) ↦ ground (arith, e, reserve_text b c (length t))
    ];
    fits = λ b b' h f. elim (Option-cases (reserve realloc b (length t))) [
      | inl e ↦ absurd (ground (arith, e))
      | inr (c, e) ↦ ground (arith, e, reserve_lem b c (length t) e f, length-append b.text t)
    ];
    total = λ r b h.
        let (c, e) = reserve_total b (length t) r h in
        (record c { text = c.text ++ t }, ground (arith, e));
  }

  pub Writes-append : (t : Bytes) → Writes realloc (append realloc t) t
  unfolding append
  Writes-append t = Writes-append_bytes t

  pub Writes-skip : Writes realloc skip []
  Writes-skip = record {
    exact = λ b b' h. ground (arith, append-nil b.text);
    fits = λ b b' h f. ground arith;
    total = λ r b h. (b, refl);
  }

  module _ (a c : Append) (t u : Bytes) (wa : Writes realloc a t) (wc : Writes realloc c u) where
    pub Writes-▷ : Writes realloc (a ▷ c) (t ++ u)
    Writes-▷ = record {
      exact = λ b b' h. elim (Option-cases (a b)) [
        | inl e ↦ ground (arith, e)
        | inr (m, e) ↦ ground (arith, e, wa.exact b m e, wc.exact m b', append_assoc b.text t u)
      ];
      fits = λ b b' h f. elim (Option-cases (a b)) [
        | inl e ↦ absurd (ground (arith, e))
        | inr (m, e) ↦ wc.fits m b' (ground (arith, e)) (wa.fits b m e f)
      ];
      total = λ r b h.
          let (m, e) = wa.total r b (omega (arith, length-append t u)) in
          let (n, e') = wc.total r m (
            omega (arith, length-append t u, ap length (wa.exact b m e), length-append b.text t)) in
          (n, ground (arith, e, e'));
    }

  pub Writes-append_integer :
      (v : ℤ) → InI64 v → Writes realloc (append_integer realloc v) (print_integer v)
  unfolding append_integer
  Writes-append_integer v h = record {
    exact = λ b b' e.
        (Writes-append_bytes (print_integer v)).exact b b' (ground (arith, length-print v h));
    fits = λ b b' e f.
        (Writes-append_bytes (print_integer v)).fits b b' (ground (arith, length-print v h)) f;
    total = λ r b l.
        let (n, e) = (Writes-append_bytes (print_integer v)).total r b l in
        (n, ground (arith, length-print v h));
  }

  pub Writes-append_hex : (s : Bytes) → Writes realloc (append_hex realloc s) (encode_hex s)
  unfolding append_hex
  Writes-append_hex [] = Writes-skip
  Writes-append_hex (c ∷ s) =
      Writes-▷ (append_bytes realloc (encode_hex (c ∷ []))) (append_hex realloc s)
        (encode_hex (c ∷ [])) (encode_hex s) (Writes-append_bytes (encode_hex (c ∷ [])))
        (Writes-append_hex s)

infixl 6 ◌▸◌
-- One append after another, with the texts joined.
pub ◌▸◌ :
    {realloc : ℕ → Bool} {a c : Append} {t u : Bytes}
    → Writes realloc a t
    → Writes realloc c u
    → Writes realloc (a ▷ c) (t ++ u)
◌▸◌ {realloc} {a} {c} {t} {u} wa wc = Writes-▷ realloc a c t u wa wc

pub Writes-cast :
    {realloc : ℕ → Bool} {a : Append} {t u : Bytes}
    → t ≡ u
    → Writes realloc a t
    → Writes realloc a u
Writes-cast {realloc} {a} e w = subst (λ x. Writes realloc a x) e w
