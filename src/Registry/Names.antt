-- ===== src/Registry/Names.antt =====
-- runtime/launcher/kernel/ulk_api.c: which texts, command names and effect lists a descriptor may carry.
pub mod Rounds
use universal_launcher.Prelude.{
  ℕ, zero, suc, ◌+◌, ◌-◌, ◌*◌, ◌/◌, ◌%◌, ◌^◌, ◌≤◌, ◌<◌, ◌≡◌, refl, sym, ap, ◌∙◌, ◌≢◌, ◌↔◌, ◌⊎◌, inl,
  inr, Bool, true, false, not, ◌&&◌, ◌||◌, Option, none, some, List, [], ◌∷◌, ◌++◌, append_assoc,
  append-nil, arith, ltb, leb, ◌==◌, if◌then◌else◌, ltb→lt, lt→ltb, ltb-false, leb→le, ==_iff,
  tests, Bool-cases, Option-cases, and_true, ◌>>=◌, ◌>>◌, guard, >>=-eq-some, length, all, is_nil,
  take, drop, length-append, All, All-append, All-mono, Any, All-Any, Bytes, codes, bytes_eq,
  bytes_eq_iff, bytes_eq_refl, c_string, IsTextByte, IsText, c_string-IsText, Lacks, between, ℤ,
  pos, negsuc, ◌==ℤ◌, ==ℤ_iff, ltb_ℤ,
}
use universal_launcher.View.{StringView, null, at, size, contents}

abbrev pub max_descriptor_text : ℕ
max_descriptor_text = 4096

unfoldable pub string_equals : StringView → Bytes → Bool
string_equals (null n) expected = false
string_equals (at bytes) expected = (length bytes == length expected) && bytes_eq bytes expected

unfoldable pub view_is_text : StringView → Bool
view_is_text (null n) = false
view_is_text (at bytes) =
    not ((length bytes == 0) || ltb max_descriptor_text (length bytes))
    && all (λ c. not (c == 0)) bytes

abbrev pub is_name_byte : ℕ → Bool
is_name_byte c = between b'a' b'z' c || between b'0' b'9' c || c == b'_'

-- The loop of `ulk_is_canonical_command_id`, with `has_dot` and `has_segment_character`.
unfoldable pub scan_command_id : Bool → Bool → Bytes → Bool
scan_command_id has_dot has_segment [] = has_dot && has_segment
scan_command_id has_dot has_segment (c ∷ rest) =
    let after_dot = scan_command_id true false rest in
    let after_byte = scan_command_id has_dot true rest in
    if c == b'.'
    then (if not has_segment then false else after_dot)
    else if is_name_byte c
    then after_byte
    else false

unfoldable pub is_canonical_command_id : StringView → Bool
unfolding scan_command_id
is_canonical_command_id value =
    if not (view_is_text value)
      || string_equals value (codes "instances.list")
      || string_equals value (codes "diagnostics.report")
    then false
    else scan_command_id false false (contents value)

abbrev pub is_json_space : ℕ → Bool
is_json_space c = c == b' ' || c == 9 || c == 13 || c == 10

-- What is left from the index on, when it stands behind white space.
unfoldable pub skip_json_space : Bytes → Bytes
skip_json_space [] = []
skip_json_space (c ∷ rest) =
    let skipped = skip_json_space rest in if is_json_space c then skipped else c ∷ rest

abbrev pub is_effect_byte : ℕ → Bool
is_effect_byte c = between b'a' b'z' c || between b'0' b'9' c || c == b'_' || c == b'.' || c == b'-'

-- The inner loop: what stands behind the closing quote, and whether the token has any byte.
unfoldable pub scan_token : Bool → Bytes → Option Bytes
scan_token some_byte [] = none
scan_token some_byte (c ∷ rest) =
    let further = scan_token true rest in
    if c == 34
    then (if some_byte then some rest else none)
    else if is_effect_byte c
    then further
    else none

-- The byte at the index, which moves on.
abbrev pub expect : ℕ → Bytes → Option Bytes
expect c [] = none
expect c (d ∷ rest) = if d == c then some rest else none

-- One round reads a token and gives what stands behind it, from the next byte that is no space on.
unfoldable pub scan_effect : Bytes → Option Bytes
unfolding skip_json_space scan_token
scan_effect text = do
  opened ← expect 34 (skip_json_space text)
  closed ← scan_token false opened
  some (skip_json_space closed)

-- The rounds, each behind `[` or `,`.
unfoldable pub scan_effects : ℕ → Bytes → Bool
unfolding scan_effect
scan_effects zero text = false
scan_effects (suc fuel) text = elim (scan_effect text) [
  | none ↦ false
  | some [] ↦ false
  | some (c ∷ rest) ↦ elim (c == b']') [
    | true ↦ is_nil (skip_json_space rest)
    | false ↦ elim (c == b',') [ true ↦ scan_effects fuel rest | false ↦ false ]
  ]
]

unfoldable pub effects_json_is_valid : StringView → Bool
unfolding scan_effects
effects_json_is_valid value =
    if not (view_is_text value)
    then false
    else elim (expect b'[' (skip_json_space (contents value))) [
      | none ↦ false
      | some rest ↦ scan_effects (size value) rest
    ]
