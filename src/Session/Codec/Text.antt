-- ===== src/Session/Codec/Text.antt =====
-- The text that `ulk_serialize_record` writes: fields that each end in a bar, then the checksum line.
use universal_launcher.Prelude.{
  ℕ, ◌<◌, ◌≡◌, refl, ap, ◌∙◌, Bool, true, Option, some, List, [], ◌∷◌, ◌++◌, append_assoc,
  append-nil, arith, ◌>>=◌, >>=-eq-some, length, all, length-append, Bytes, codes, ℤ,
}
use mathlib.Core.List.{map}
use universal_launcher.Operation.{outcome_code}
use universal_launcher.Session.Hex.{encode_hex}
use universal_launcher.Session.Integer.{print_integer, InI64}
use universal_launcher.Session.Crc.{crc32, print_hex8, length-print_hex8}
use universal_launcher.Session.Builder.{TextBuilder, Append, ◌▷◌, append, empty_builder, size_max}
use universal_launcher.Session.Builder.Writes.{
  Writes, Writes-append, Writes-skip, ◌▸◌, Writes-cast, Writes-append_integer, Writes-append_hex,
}
use universal_launcher.Session.Record.{OwnedRecord, state_code}
use universal_launcher.Session.Codec.{
  bar, newline, version_2, is_positive, append_hex_fields, append_integer_field, check_commit_order,
  append_checksum, serialize_record,
}

-- Each field followed by a bar.
unfoldable pub barred : List Bytes → Bytes
barred [] = []
barred (field ∷ fields) = field ++ bar ∷ barred fields

pub barred-append : (xs ys : List Bytes) → barred (xs ++ ys) ≡ barred xs ++ barred ys
unfolding barred
barred-append [] ys = refl
barred-append (x ∷ xs) ys = rw (barred-append xs ys, append_assoc)

-- The fields of the current version, in the order of the file.
abbrev pub record_fields : OwnedRecord → List Bytes
record_fields r =
    version_2
    ∷ encode_hex r.session_id
    ∷ encode_hex r.operation_id
    ∷ encode_hex r.attempt_id
    ∷ encode_hex r.runnable_reference
    ∷ encode_hex r.process_identity
    ∷ print_integer (state_code r.state)
    ∷ encode_hex r.started_at
    ∷ encode_hex r.ended_at
    ∷ print_integer r.exit_code_known
    ∷ print_integer r.exit_code
    ∷ print_integer (outcome_code r.outcome)
    ∷ print_integer r.effects_may_have_occurred
    ∷ print_integer r.recovery_required
    ∷ encode_hex r.recovery_transaction
    ∷ encode_hex r.recovery_inspect_command
    ∷ encode_hex r.recovery_reference
    ∷ encode_hex r.relaunch_reference
    ∷ print_integer r.commit_order
    ∷ []

unfoldable pub record_body : OwnedRecord → Bytes
record_body r = barred (record_fields r)

unfoldable pub record_text : OwnedRecord → Bytes
unfolding record_body
record_text r = record_body r ++ (print_hex8 (crc32 (record_body r)) ++ newline ∷ [])

-- Integers that the file stores as int64_t.
pub record InRange (r : OwnedRecord) : Type 0 where
  pub state : InI64 (state_code r.state)
  pub outcome : InI64 (outcome_code r.outcome)
  pub effects : InI64 r.effects_may_have_occurred
  pub required : InI64 r.recovery_required
  pub known : InI64 r.exit_code_known
  pub exit_code : InI64 r.exit_code
  pub order : InI64 r.commit_order

module _ (realloc : ℕ → Bool) where
  Writes-hex_fields :
      (fields : List Bytes)
      → Writes realloc (append_hex_fields realloc fields) (barred (map encode_hex fields))
  unfolding append_hex_fields barred
  Writes-hex_fields [] = Writes-skip realloc
  Writes-hex_fields (f ∷ fs) =
      Writes-cast (append_assoc (encode_hex f) (bar ∷ []) (barred (map encode_hex fs)))
        (Writes-append_hex realloc f ▸ Writes-append realloc (bar ∷ []) ▸ Writes-hex_fields fs)

  Writes-integer_field :
      (v : ℤ)
      → InI64 v
      → Writes realloc (append_integer_field realloc v) (barred (print_integer v ∷ []))
  unfolding append_integer_field barred
  Writes-integer_field v h = Writes-append_integer realloc v h ▸ Writes-append realloc (bar ∷ [])

  Writes-check :
      (r : OwnedRecord)
      → is_positive r.commit_order ≡ true
      → Writes realloc (check_commit_order r) []
  unfolding check_commit_order
  Writes-check r h = Writes-cast refl (record {
    exact = λ b b' e. ground (arith, append-nil b.text);
    fits = λ b b' e f. ground arith;
    total = λ all b l. (b, ground arith);
  })

  -- All that is written before the test of the commit order, and before the checksum.
  abbrev append_until_order : OwnedRecord → Append
  append_until_order r =
      append realloc (codes "ULK_SESSION_RECORD_V2|")
      ▷ append_hex_fields realloc (
          r.session_id ∷ r.operation_id ∷ r.attempt_id ∷ r.runnable_reference ∷ r.process_identity
          ∷ [])
      ▷ append_integer_field realloc (state_code r.state)
      ▷ append_hex_fields realloc (r.started_at ∷ r.ended_at ∷ [])
      ▷ append_integer_field realloc r.exit_code_known
      ▷ append_integer_field realloc r.exit_code
      ▷ append_integer_field realloc (outcome_code r.outcome)
      ▷ append_integer_field realloc r.effects_may_have_occurred
      ▷ append_integer_field realloc r.recovery_required
      ▷ append_hex_fields realloc (
          r.recovery_transaction ∷ r.recovery_inspect_command ∷ r.recovery_reference
          ∷ r.relaunch_reference ∷ [])

  abbrev append_body : OwnedRecord → Append
  append_body r =
      append_until_order r ▷ check_commit_order r ▷ append_integer_field realloc r.commit_order

  Writes-body :
      (r : OwnedRecord)
      → InRange r
      → is_positive r.commit_order ≡ true
      → Writes realloc (append_body r) (record_body r)
  unfolding record_body barred
  Writes-body r i p = Writes-cast (simp (append_assoc, append-nil)) (
      Writes-append realloc (codes "ULK_SESSION_RECORD_V2|")
      ▸ Writes-hex_fields (
          r.session_id ∷ r.operation_id ∷ r.attempt_id ∷ r.runnable_reference ∷ r.process_identity
          ∷ [])
      ▸ Writes-integer_field (state_code r.state) i.state
      ▸ Writes-hex_fields (r.started_at ∷ r.ended_at ∷ [])
      ▸ Writes-integer_field r.exit_code_known i.known
      ▸ Writes-integer_field r.exit_code i.exit_code
      ▸ Writes-integer_field (outcome_code r.outcome) i.outcome
      ▸ Writes-integer_field r.effects_may_have_occurred i.effects
      ▸ Writes-integer_field r.recovery_required i.required
      ▸ Writes-hex_fields (
          r.recovery_transaction ∷ r.recovery_inspect_command ∷ r.recovery_reference
          ∷ r.relaunch_reference ∷ [])
      ▸ Writes-check r p
      ▸ Writes-integer_field r.commit_order i.order)

  checksum_text :
      (b b' : TextBuilder)
      → append_checksum realloc b ≡ some b'
      → b'.text ≡ b.text ++ (print_hex8 (crc32 b.text) ++ newline ∷ [])
  unfolding append_checksum
  checksum_text b b' h =
      (Writes-append realloc (print_hex8 (crc32 b.text) ++ newline ∷ [])).exact b b' h

  check_positive :
      (r : OwnedRecord) (b b' : TextBuilder)
      → check_commit_order r b ≡ some b'
      → is_positive r.commit_order ≡ true
  unfolding check_commit_order
  check_positive r b b' h = ground arith

  body_positive :
      (r : OwnedRecord) (b b' : TextBuilder)
      → append_body r b ≡ some b'
      → is_positive r.commit_order ≡ true
  body_positive r b b' h =
      let (m, e, _) =
        >>=-eq-some ((append_until_order r ▷ check_commit_order r) b)
          (append_integer_field realloc r.commit_order) h in
      let (n, _, e') = >>=-eq-some (append_until_order r b) (check_commit_order r) e in
      check_positive r n m e'

  -- What is serialized into an empty buffer is the record's text, and its commit order is positive.
  pub serialize-text :
      (r : OwnedRecord) (b : TextBuilder)
      → InRange r
      → serialize_record realloc r empty_builder ≡ some b
      → (b.text ≡ record_text r) × (is_positive r.commit_order ≡ true)
  unfolding serialize_record record_text
  serialize-text r b i h =
      let (m, e, e') = >>=-eq-some (append_body r empty_builder) (append_checksum realloc) h in
      let p = body_positive r empty_builder m e in
      let t = (Writes-body r i p).exact empty_builder m e in
      (checksum_text m b e' ∙ ap (λ (x : Bytes). x ++ (print_hex8 (crc32 x) ++ newline ∷ [])) t, p)

  -- With an allocator that delivers, a record with a positive commit order is serialized.
  pub serialize-total :
      (r : OwnedRecord)
      → InRange r
      → is_positive r.commit_order ≡ true
      → ((n : ℕ) → realloc n ≡ true)
      → length (record_text r) < size_max
      → (b : TextBuilder) × (serialize_record realloc r empty_builder ≡ some b)
  unfolding serialize_record record_text
  serialize-total r i p all h =
      let suffix = print_hex8 (crc32 (record_body r)) ++ newline ∷ [] in
      let (m, e) =
        (Writes-body r i p).total all empty_builder
          (omega (arith, length-append (record_body r) suffix)) in
      let t = (Writes-body r i p).exact empty_builder m e in
      let last = print_hex8 (crc32 m.text) ++ newline ∷ [] in
      let (n, e') = (Writes-append realloc last).total all m (
        omega (
          arith,
          ap length t,
          length-append (record_body r) suffix,
          length-append (print_hex8 (crc32 (record_body r))) (newline ∷ []),
          length-append (print_hex8 (crc32 m.text)) (newline ∷ []),
          length-print_hex8 (crc32 m.text),
          length-print_hex8 (crc32 (record_body r)),
        )) in
      (n, ap (λ (o : Option TextBuilder). o >>= append_checksum realloc) e ∙ e')
