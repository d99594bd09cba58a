-- ===== src/Registry/Names/Rounds.antt =====
-- The rounds of the effects scan are enough.
use universal_launcher.Prelude.{
  ℕ, zero, suc, ◌≤◌, ◌<◌, ◌≡◌, refl, ap, inl, inr, Bool, true, false, some, [], ◌∷◌, arith, ◌==◌,
  Bool-cases, Option-cases, length, is_nil, Bytes,
}
use universal_launcher.Registry.Names.{
  skip_json_space, scan_token, expect, scan_effect, scan_effects,
}

skip_json_space_lem : (s : Bytes) → length (skip_json_space s) ≤ length s
unfolding skip_json_space
skip_json_space_lem [] = omega arith
skip_json_space_lem (c ∷ s) = ground (arith, skip_json_space_lem s)

scan_token_lem :
    (some_byte : Bool) (s t : Bytes) → scan_token some_byte s ≡ some t → length t < length s
unfolding scan_token
scan_token_lem some_byte [] t h = ground (arith, h)
scan_token_lem some_byte (c ∷ s) t h = elim (Bool-cases (c == 34)) [
  | inl e ↦ ground (arith, h, e)
  | inr e ↦ ground (arith, h, e, scan_token_lem true s t)
]

expect_lem : (c : ℕ) (s t : Bytes) → expect c s ≡ some t → length t < length s
expect_lem c [] t h = ground (arith, h)
expect_lem c (d ∷ s) t h = ground (arith, h)

scan_effect_lem : (s t : Bytes) → scan_effect s ≡ some t → length t < length s
unfolding scan_effect
scan_effect_lem s t h = elim (Option-cases (expect 34 (skip_json_space s))) [
  | inl n ↦ ground (arith, h, n)
  | inr (opened, n) ↦ elim (Option-cases (scan_token false opened)) [
    | inl m ↦ ground (arith, h, n, m)
    | inr (closed, m) ↦
        let same : skip_json_space closed ≡ t = ground (arith, h, n, m) in
        omega (
          arith,
          ap length same,
          skip_json_space_lem s,
          skip_json_space_lem closed,
          expect_lem 34 (skip_json_space s) opened n,
          scan_token_lem false opened closed m,
        )
  ]
]

-- Any two numbers of rounds above the length of the text give the same answer.
pub scan_effects_lem :
    (fuel fuel' : ℕ) (s : Bytes)
    → length s < fuel
    → length s < fuel'
    → scan_effects fuel s ≡ scan_effects fuel' s
unfolding scan_effects
scan_effects_lem zero fuel' s h k = ground (arith, h)
scan_effects_lem (suc fuel) zero s h k = ground (arith, k)
scan_effects_lem (suc fuel) (suc fuel') s h k = elim (Option-cases (scan_effect s)) [
  | inl n ↦ rw (n, scan_effects) refl
  | inr ([], n) ↦ rw (n, scan_effects) refl
  | inr (c ∷ rest, n) ↦
      let less = scan_effect_lem s (c ∷ rest) n in
      let same =
        scan_effects_lem fuel fuel' rest (omega (arith, less, h)) (omega (arith, less, k)) in
      rw (n, scan_effects) (behind (c == b']') (c == b',') (is_nil (skip_json_space rest)) _ _ same)
]
  where
    behind :
        (closed more last : Bool) (x y : Bool)
        → x ≡ y
        → elim closed [ true ↦ last | false ↦ elim more [ true ↦ x | false ↦ false ] ]
          ≡ elim closed [ true ↦ last | false ↦ elim more [ true ↦ y | false ↦ false ] ]
    behind true more last x y e = refl
    behind false true last x y e = e
    behind false false last x y e = refl
