-- ===== src/Operation/Grammar.antt =====
-- The command names that `ulk_command_name_is_valid` accepts, against a grammar: segments joined by
-- dots.
use universal_launcher.Prelude.{
  ℕ, ◌≤◌, ◌<◌, ◌≡◌, refl, Bool, true, false, not, ◌&&◌, ◌||◌, List, [], ◌∷◌, arith, leb, ◌==◌,
  if◌then◌else◌, all, is_nil, Bytes,
}
use universal_launcher.View.{StringView, null, at, size, is_null, contents}
use universal_launcher.Operation.{is_lower, is_digit, scan_command_name, command_name_is_valid}

-- The bytes before the first dot, and the segments behind it.
pub segments : Bytes → Bytes × List Bytes
segments [] = ([], [])
segments (c ∷ s) =
    let (head, tail) = segments s in if c == b'.' then ([], head ∷ tail) else (c ∷ head, tail)

abbrev pub is_name_character : ℕ → Bool
is_name_character c = is_lower c || is_digit c || c == b'_'

abbrev pub is_segment : Bytes → Bool
is_segment [] = false
is_segment (c ∷ s) = is_lower c && all is_name_character s

-- At least two segments, each a lower-case letter followed by lower-case letters, digits and `_`.
abbrev pub is_dotted_name : Bytes → Bool
is_dotted_name s =
    is_segment (segments s).0 && all is_segment (segments s).1 && not (is_nil (segments s).1)

mutual
  unfolding scan_command_name segments

  scan_segment :
      (s : Bytes) (saw : Bool)
      → scan_command_name false false saw s ≡ (
          all is_name_character (segments s).0
          && all is_segment (segments s).1
          && (saw || not (is_nil (segments s).1)))
  scan_segment [] saw = ground arith
  scan_segment (c ∷ []) saw = ground (arith, scan_segment [] saw)
  scan_segment (c ∷ d ∷ s) saw = ground (arith, scan_segment (d ∷ s) saw, scan_after_dot (d ∷ s))

  scan_after_dot :
      (s : Bytes)
      → scan_command_name false true true s
        ≡ (is_nil s || is_segment (segments s).0 && all is_segment (segments s).1)
  scan_after_dot [] = ground arith
  scan_after_dot (c ∷ s) = ground (arith, scan_segment s true)

-- The scan with two flags accepts a command name exactly when it is not null, has at most 128
-- bytes, and is split by its dots into at least two segments that each are a lower-case letter
-- followed by lower-case letters, digits and underscores.
pub command_name_is_valid-segments :
    (v : StringView)
    → command_name_is_valid v ≡ (not (is_null v) && leb (size v) 128 && is_dotted_name (contents v))
unfolding command_name_is_valid segments scan_command_name
command_name_is_valid-segments (null n) = refl
command_name_is_valid-segments (at []) = ground arith
command_name_is_valid-segments (at (c ∷ s)) = ground (arith, scan_segment s false)

pub inspect_bounds :
    (v : StringView)
    → command_name_is_valid v ≡ true
    → (is_dotted_name (contents v) ≡ true) × (0 < size v) × (size v ≤ 128)
unfolding segments
inspect_bounds (null n) h = cc (command_name_is_valid-segments (null n))
inspect_bounds (at []) h = ground (arith, command_name_is_valid-segments (at []))
inspect_bounds (at (c ∷ s)) h = ground (arith, command_name_is_valid-segments (at (c ∷ s)))
