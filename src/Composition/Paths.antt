-- ===== src/Composition/Paths.antt =====
-- The paths of entrypoints that are accepted, by their segments.
use universal_launcher.Prelude.{
  ◌≡◌, refl, ◌∙◌, ◌≢◌, ◌↔◌, inl, inr, Bool, true, false, not, ◌&&◌, List, [], ◌∷◌, arith, ◌==◌,
  if◌then◌else◌, ==_iff, Bool-cases, all, All, Bytes, codes, bytes_eq, bytes_eq_iff, Lacks,
}
use universal_launcher.View.{StringView, contents}
use universal_launcher.Composition.{
  composition_view_valid, closes_dots, scan_path, starts_with_slash, relative_path_valid,
}

-- A path is split at its slashes: the first segment, and the later ones.
unfoldable pub first_segment : Bytes → Bytes
first_segment [] = []
first_segment (c ∷ s) = if c == b'/' then [] else c ∷ first_segment s

unfoldable pub later_segments : Bytes → List Bytes
unfolding first_segment
later_segments [] = []
later_segments (c ∷ s) = if c == b'/' then first_segment s ∷ later_segments s else later_segments s

abbrev pub segments : Bytes → List Bytes
segments s = first_segment s ∷ later_segments s

abbrev is_dots : Bytes → Bool
is_dots s = bytes_eq s (codes "..")

closes_dots_lem : (s : Bytes) → closes_dots s ≡ bytes_eq (first_segment s) (codes ".")
unfolding closes_dots first_segment bytes_eq
closes_dots_lem [] = refl
closes_dots_lem (d ∷ []) = ground arith
closes_dots_lem (d ∷ e ∷ s) = ground arith

no_backslash : Bytes → Bool
no_backslash s = all (λ c. not (c == 92)) s

no_dots : List Bytes → Bool
no_dots ss = all (λ t. not (is_dots t)) ss

scan_path_lem :
    (opens : Bool) (s : Bytes)
    → scan_path opens s
      ≡ (no_backslash s && no_dots (if opens then segments s else later_segments s))
unfolding scan_path first_segment later_segments no_backslash no_dots bytes_eq
scan_path_lem true [] = refl
scan_path_lem false [] = refl
scan_path_lem true (c ∷ s) = elim (Bool-cases (c == b'/')) [
  | inl e ↦
      rw (e, scan_path, first_segment, later_segments)
        (rw (scan_path_lem true s) (ground (arith, e)))
  | inr e ↦
      rw (e, scan_path, first_segment, later_segments)
        (rw (closes_dots_lem s) (rw (scan_path_lem false s) (ground (arith, e))))
]
scan_path_lem false (c ∷ s) = elim (Bool-cases (c == b'/')) [
  | inl e ↦
      rw (e, scan_path, first_segment, later_segments)
        (rw (scan_path_lem true s) (ground (arith, e)))
  | inr e ↦
      rw (e, scan_path, first_segment, later_segments)
        (rw (scan_path_lem false s) (ground (arith, e)))
]

no_dots_iff : (ss : List Bytes) → (no_dots ss ≡ true) ↔ All (λ t. t ≢ codes "..") ss
unfolding no_dots
no_dots_iff [] = (λ h. tt, λ h. refl)
no_dots_iff (t ∷ ss) = (
  (λ h. (
    (λ e. ground (arith, h, (bytes_eq_iff t (codes "..")).1 e)),
    (no_dots_iff ss).0 (ground (arith, h)),
  )),
  (λ h. elim (Bool-cases (is_dots t)) [
    | inl e ↦ absurd (h.0 ((bytes_eq_iff t (codes "..")).0 e))
    | inr e ↦ ground (arith, e, (no_dots_iff ss).1 h.1)
  ]),
)

no_backslash_iff : (s : Bytes) → (no_backslash s ≡ true) ↔ Lacks 92 s
unfolding no_backslash
no_backslash_iff [] = (λ h. tt, λ h. refl)
no_backslash_iff (c ∷ s) = (
  (λ h. ((λ e. ground (arith, h, e)), (no_backslash_iff s).0 (ground (arith, h)))),
  (λ h. elim (Bool-cases (c == 92)) [
    | inl e ↦ absurd (h.0 ((==_iff c 92).0 e))
    | inr e ↦ ground (arith, e, (no_backslash_iff s).1 h.1)
  ]),
)

-- What an accepted path is.
pub record IsInside (v : StringView) : Type 0 where
  pub readable : composition_view_valid v false ≡ true
  pub relative : starts_with_slash (contents v) ≡ false
  pub plain : Lacks 92 (contents v)
  pub stays : All (λ t. t ≢ codes "..") (segments (contents v))

-- The path of an entrypoint is accepted exactly when it is a text without zero bytes that is not
-- empty, does not begin with a slash or backslash, has no backslash, and none of the segments
-- between its slashes is two dots; its length is not bounded.
pub relative_path_valid_iff : (v : StringView) → (relative_path_valid v ≡ true) ↔ IsInside v
unfolding relative_path_valid
relative_path_valid_iff v =
    let scan = scan_path_lem true (contents v) in
    (
      (λ h. record {
        readable = ground (arith, h);
        relative = ground (arith, h);
        plain = (no_backslash_iff (contents v)).0 (ground (arith, h, scan));
        stays = (no_dots_iff (segments (contents v))).0 (ground (arith, h, scan));
      }),
      (λ i.
          rw (i.readable, relative_path_valid)
            (rw (i.relative) (
              scan
              ∙ rw ((no_backslash_iff (contents v)).1 i.plain)
                  ((no_dots_iff (segments (contents v))).1 i.stays)))),
    )
