-- ===== src/Session/Codec/Stored.antt =====
-- Serializing a record that the format can represent: it succeeds, the file is small enough to be
-- read again, and it reads back as the record.
use universal_launcher.Prelude.{
  ℕ, ◌+◌, ◌≤◌, ◌≡◌, refl, ap, ◌∙◌, Bool, true, some, List, [], ◌∷◌, ◌++◌, arith, length, all,
  length-append, Bytes, ℤ,
}
use universal_launcher.Operation.{outcome_code}
use universal_launcher.Session.Hex.{length-encode_hex}
use universal_launcher.Session.Integer.{print_integer, InI64}
use universal_launcher.Session.Integer.Shape.{length-print}
use universal_launcher.Session.Crc.{crc32, print_hex8, length-print_hex8}
use universal_launcher.Session.Builder.{TextBuilder, empty_builder}
use universal_launcher.Session.Record.{OwnedRecord, state_code, max_file_bytes}
use universal_launcher.Session.Codec.{bar, newline, loaded, parse_record, serialize_record}
use universal_launcher.Session.Codec.Text.{
  barred, record_fields, record_body, record_text, serialize-text, serialize-total,
}
use universal_launcher.Session.Codec.RoundTrip.{IsStorable, IsStorable-InRange, parse-record_text}

-- The length of the fields with their bars.
fields_length : List Bytes → ℕ
fields_length [] = 0
fields_length (field ∷ fields) = length field + 1 + fields_length fields

length-barred : (fields : List Bytes) → length (barred fields) ≡ fields_length fields
unfolding barred fields_length
length-barred [] = refl
length-barred (field ∷ fields) =
    omega (arith, length-append field (bar ∷ barred fields), length-barred fields)

module _ (r : OwnedRecord) (s : IsStorable r) where
  printed : (v : ℤ) → InI64 v → length (print_integer v) ≤ 20
  printed v h = (length-print v h).1

  fields_length-le : fields_length (record_fields r) ≤ 13000
  unfolding fields_length
  fields_length-le =
      let i = IsStorable-InRange s in
      omega (
        arith,
        length-encode_hex,
        printed (state_code r.state) i.state,
        printed (outcome_code r.outcome) i.outcome,
        printed r.effects_may_have_occurred i.effects,
        printed r.recovery_required i.required,
        printed r.exit_code_known i.known,
        printed r.exit_code i.exit_code,
        printed r.commit_order i.order,
      )

  pub length-record_text : length (record_text r) ≤ max_file_bytes
  unfolding record_text record_body
  length-record_text =
      let body = barred (record_fields r) in
      let line = print_hex8 (crc32 body) ++ newline ∷ [] in
      omega (
        arith,
        length-append body line,
        length-append (print_hex8 (crc32 body)) (newline ∷ []),
        length-print_hex8 (crc32 body),
        length-barred (record_fields r),
        fields_length-le,
      )

  -- With an allocator that always delivers, serializing a storable record into an empty builder
  -- succeeds, the text reads back as that record, and it is at most max_file_bytes long.
  pub serialize-parse :
      (realloc : ℕ → Bool)
      → ((n : ℕ) → realloc n ≡ true)
      → (b : TextBuilder) × (serialize_record realloc r empty_builder ≡ some b)
        × (parse_record b.text ≡ loaded r)
        × (length b.text ≤ max_file_bytes)
  serialize-parse realloc all =
      let i = IsStorable-InRange s in
      let (b, e) = serialize-total realloc r i s.order.1 all (omega (arith, length-record_text)) in
      let t = (serialize-text realloc r b i e).0 in
      (b, e, ap parse_record t ∙ parse-record_text r s, rw t length-record_text)
