-- ===== src/Session/Codec/RoundTrip.antt =====
-- A record file that was written by `ulk_serialize_record` reads back as the record.
use universal_launcher.Prelude.{
  ℕ, ◌+◌, ◌-◌, ◌^◌, ◌≤◌, ◌<◌, ◌≡◌, refl, sym, ap, ◌∙◌, inr, true, false, none, some, List, [], ◌∷◌,
  ◌++◌, append_assoc, arith, ltb, ltb-false, length, drop, length-append, All, All-append, All-mono,
  Bytes, bytes_eq, IsTextByte, IsText, c_string-IsText, Lacks, ℤ, pos, negsuc,
}
use universal_launcher.Operation.{outcome_code, outcome_of_int}
use universal_launcher.Session.Hex.{encode_hex-IsText, encode_hex, decode-encode, encode_hex-Lacks}
use universal_launcher.Session.Integer.{print_integer, InI64, InI32, parse-print, parse_int-print}
use universal_launcher.Session.Integer.Shape.{print-Lacks, print-IsText}
use universal_launcher.Session.Crc.{
  crc32, crc32-le, print_hex8, parse-print_hex8, print_hex8-Lacks, print_hex8-IsText,
}
use universal_launcher.Session.Record.{
  OwnedRecord, state_code, state_of_int, max_runnable_bytes, max_process_bytes, max_time_bytes,
  max_reference_bytes,
}
use universal_launcher.Session.Codec.{
  bar, newline, version_2, is_positive, loaded, split_last, split_fields, without_newline,
  parse_fields, parse_checked, parse_record,
}
use universal_launcher.Session.Codec.Text.{barred, record_fields, record_body, record_text, InRange}

-- A text that fits an array of the given size with its final zero.
abbrev pub Holds : ℕ → Bytes → Type 0
Holds capacity s = IsText s × (length s < capacity)

-- What the file format can represent: texts that fit their arrays, `int` and `int64_t` values, and a
-- positive commit order.
pub record IsStorable (r : OwnedRecord) : Type 0 where
  pub session_id : Holds 129 r.session_id
  pub operation_id : Holds 129 r.operation_id
  pub attempt_id : Holds 129 r.attempt_id
  pub runnable_reference : Holds (max_runnable_bytes + 1) r.runnable_reference
  pub process_identity : Holds (max_process_bytes + 1) r.process_identity
  pub started_at : Holds (max_time_bytes + 1) r.started_at
  pub ended_at : Holds (max_time_bytes + 1) r.ended_at
  pub recovery_transaction : Holds 129 r.recovery_transaction
  pub recovery_inspect_command : Holds 129 r.recovery_inspect_command
  pub recovery_reference : Holds (max_reference_bytes + 1) r.recovery_reference
  pub relaunch_reference : Holds (max_reference_bytes + 1) r.relaunch_reference
  pub state : InI32 (state_code r.state) × (state_of_int (state_code r.state) ≡ r.state)
  pub outcome :
      InI32 (outcome_code r.outcome) × (outcome_of_int (outcome_code r.outcome) ≡ r.outcome)
  pub effects : InI32 r.effects_may_have_occurred
  pub required : InI32 r.recovery_required
  pub known : InI32 r.exit_code_known
  pub exit_code : InI64 r.exit_code
  pub order : InI64 r.commit_order × (is_positive r.commit_order ≡ true)

wider : (v : ℤ) → InI32 v → InI64 v
wider (pos n) h = omega arith
wider (negsuc n) h = omega arith

pub IsStorable-InRange : {r : OwnedRecord} → IsStorable r → InRange r
IsStorable-InRange {r} s = record {
  state = wider (state_code r.state) s.state.0;
  outcome = wider (outcome_code r.outcome) s.outcome.0;
  effects = wider r.effects_may_have_occurred s.effects;
  required = wider r.recovery_required s.required;
  known = wider r.exit_code_known s.known;
  exit_code = s.exit_code;
  order = s.order.0;
}

-- Cutting at the bars.
split_last-Lacks : (s : Bytes) → Lacks bar s → split_last s ≡ none
unfolding split_last
split_last-Lacks [] h = refl
split_last-Lacks (c ∷ s) h = ground (arith, split_last-Lacks s h.1)

split_last-append : (s t : Bytes) → Lacks bar t → split_last (s ++ bar ∷ t) ≡ some (s, t)
unfolding split_last
split_last-append [] t h = ground (arith, split_last-Lacks t h)
split_last-append (c ∷ s) t h = ground (arith, split_last-append s t h)

-- Fields joined by bars.
pub joined : Bytes → List Bytes → Bytes
joined field [] = field
joined field (next ∷ fields) = field ++ bar ∷ joined next fields

barred-joined :
    (field : Bytes) (fields : List Bytes)
    → barred (field ∷ fields) ≡ joined field fields ++ bar ∷ []
unfolding barred joined
barred-joined field [] = refl
barred-joined field (next ∷ fields) =
    rw (barred-joined next fields)
      (rw (append_assoc field (bar ∷ joined next fields) (bar ∷ [])) refl)

split_fields-field :
    (field rest : Bytes)
    → Lacks bar field
    → split_fields (field ++ bar ∷ rest) ≡ field ∷ split_fields rest
unfolding split_fields
split_fields-field [] rest h = ground arith
split_fields-field (c ∷ field) rest h = ground (arith, split_fields-field field rest h.1)

split_fields-last : (field : Bytes) → Lacks bar field → split_fields field ≡ field ∷ []
unfolding split_fields
split_fields-last [] h = refl
split_fields-last (c ∷ field) h = ground (arith, split_fields-last field h.1)

split_fields-joined :
    (field : Bytes) (fields : List Bytes)
    → Lacks bar field
    → All (Lacks bar) fields
    → split_fields (joined field fields) ≡ field ∷ fields
unfolding joined
split_fields-joined field [] h hs = split_fields-last field h
split_fields-joined field (next ∷ fields) h hs =
    split_fields-field field (joined next fields) h
    ∙ ap (λ (x : List Bytes). field ∷ x) (split_fields-joined next fields hs.0 hs.1)

without_newline-append : (s : Bytes) → without_newline (s ++ newline ∷ []) ≡ some s
unfolding without_newline
without_newline-append [] = refl
without_newline-append (c ∷ []) = refl
without_newline-append (c ∷ d ∷ s) = rw (without_newline-append (d ∷ s), without_newline)

decode_record : (r : OwnedRecord) → IsStorable r → parse_fields (record_fields r) ≡ loaded r
unfolding parse_fields bytes_eq
decode_record r s = simp (
  decode-encode r.session_id 129 s.session_id.0 s.session_id.1,
  decode-encode r.operation_id 129 s.operation_id.0 s.operation_id.1,
  decode-encode r.attempt_id 129 s.attempt_id.0 s.attempt_id.1,
  decode-encode r.runnable_reference (max_runnable_bytes + 1) s.runnable_reference.0
      s.runnable_reference.1,
  decode-encode r.process_identity (max_process_bytes + 1) s.process_identity.0
      s.process_identity.1,
  decode-encode r.started_at (max_time_bytes + 1) s.started_at.0 s.started_at.1,
  decode-encode r.ended_at (max_time_bytes + 1) s.ended_at.0 s.ended_at.1,
  decode-encode r.recovery_transaction 129 s.recovery_transaction.0 s.recovery_transaction.1,
  decode-encode r.recovery_inspect_command 129 s.recovery_inspect_command.0
      s.recovery_inspect_command.1,
  decode-encode r.recovery_reference (max_reference_bytes + 1) s.recovery_reference.0
      s.recovery_reference.1,
  decode-encode r.relaunch_reference (max_reference_bytes + 1) s.relaunch_reference.0
      s.relaunch_reference.1,
  parse_int-print (state_code r.state) s.state.0,
  parse_int-print (outcome_code r.outcome) s.outcome.0,
  parse_int-print r.effects_may_have_occurred s.effects,
  parse_int-print r.recovery_required s.required,
  parse_int-print r.exit_code_known s.known,
  parse-print r.exit_code s.exit_code,
  parse-print r.commit_order s.order.0,
  s.order.1,
  s.state.1,
  s.outcome.1,
)

-- A field is text without a bar.
abbrev IsField : Bytes → Type 0
IsField s = Lacks bar s × IsText s

hex-IsField : (s : Bytes) → IsText s → IsField (encode_hex s)
hex-IsField s h = (encode_hex-Lacks bar s h (inr (omega arith)), encode_hex-IsText s h)

integer-IsField : (v : ℤ) → IsField (print_integer v)
integer-IsField v = (print-Lacks bar v (omega arith), print-IsText v)

All-IsField : (r : OwnedRecord) → IsStorable r → All IsField (record_fields r)
All-IsField r s = (
  (omega arith, omega arith),
  (
    hex-IsField r.session_id s.session_id.0,
    (
      hex-IsField r.operation_id s.operation_id.0,
      (
        hex-IsField r.attempt_id s.attempt_id.0,
        (
          hex-IsField r.runnable_reference s.runnable_reference.0,
          (
            hex-IsField r.process_identity s.process_identity.0,
            (
              integer-IsField (state_code r.state),
              (
                hex-IsField r.started_at s.started_at.0,
                (
                  hex-IsField r.ended_at s.ended_at.0,
                  (
                    integer-IsField r.exit_code_known,
                    (
                      integer-IsField r.exit_code,
                      (
                        integer-IsField (outcome_code r.outcome),
                        (
                          integer-IsField r.effects_may_have_occurred,
                          (
                            integer-IsField r.recovery_required,
                            (
                              hex-IsField r.recovery_transaction s.recovery_transaction.0,
                              (
                                hex-IsField r.recovery_inspect_command s.recovery_inspect_command.0,
                                (
                                  hex-IsField r.recovery_reference s.recovery_reference.0,
                                  (
                                    hex-IsField r.relaunch_reference s.relaunch_reference.0,
                                    (integer-IsField r.commit_order, tt),
                                  ),
                                ),
                              ),
                            ),
                          ),
                        ),
                      ),
                    ),
                  ),
                ),
              ),
            ),
          ),
        ),
      ),
    ),
  ),
)

joined-IsText :
    (field : Bytes) (fields : List Bytes)
    → All IsField (field ∷ fields)
    → IsText (joined field fields)
unfolding joined
joined-IsText field [] h = h.0.1
joined-IsText field (next ∷ fields) h =
    All-append IsTextByte field (bar ∷ joined next fields) h.0.1
      ((omega arith, omega arith), joined-IsText next fields h.1)

parse_line :
    (body checksum : Bytes)
    → IsText body
    → IsText checksum
    → Lacks bar checksum
    → parse_record ((body ++ bar ∷ checksum) ++ newline ∷ []) ≡ parse_checked body checksum
unfolding parse_record
parse_line body checksum tb tc lacks =
    let whole = body ++ bar ∷ checksum in
    let text : IsText whole =
      All-append IsTextByte body (bar ∷ checksum) tb ((omega arith, omega arith), tc) in
    let long : ltb (length (whole ++ newline ∷ [])) 2 ≡ false =
      ltb-false _ 2
        (omega (arith, length-append whole (newline ∷ []), length-append body (bar ∷ checksum))) in
    rw long (
      rw (without_newline-append whole)
        (rw (c_string-IsText whole text) (rw (split_last-append body checksum lacks) refl)))

parse_checked_lem :
    (field : Bytes) (fields : List Bytes) (sum : ℕ)
    → All IsField (field ∷ fields)
    → sum ≡ crc32 (joined field fields ++ bar ∷ [])
    → parse_checked (joined field fields) (print_hex8 sum) ≡ parse_fields (field ∷ fields)
unfolding parse_checked
parse_checked_lem field fields sum h e =
    let le : sum ≤ 2 ^ 32 - 1 = rw e (crc32-le _) in
    let cut =
      split_fields-joined field fields h.0.0
        (All-mono IsField (Lacks bar) (λ f x. x.0) fields h.1) in
    ground (arith, parse-print_hex8 sum le, cut)

-- What is read back from fields that end in bars and a checksum line for them.
parse-barred :
    (field : Bytes) (fields : List Bytes)
    → All IsField (field ∷ fields)
    → parse_record
        (barred (field ∷ fields) ++ (print_hex8 (crc32 (barred (field ∷ fields))) ++ newline ∷ []))
      ≡ parse_fields (field ∷ fields)
parse-barred field fields h =
    let body = joined field fields in
    let sum = crc32 (barred (field ∷ fields)) in
    let le : sum ≤ 2 ^ 32 - 1 = crc32-le _ in
    let shape : barred (field ∷ fields) ++ (print_hex8 sum ++ newline ∷ [])
        ≡ (body ++ bar ∷ print_hex8 sum) ++ newline ∷ [] =
      ap (λ (x : Bytes). x ++ (print_hex8 sum ++ newline ∷ [])) (barred-joined field fields)
      ∙ append_assoc body (bar ∷ []) (print_hex8 sum ++ newline ∷ [])
      ∙ sym (append_assoc body (bar ∷ print_hex8 sum) (newline ∷ [])) in
    ap parse_record shape
    ∙ parse_line body (print_hex8 sum) (joined-IsText field fields h) (print_hex8-IsText sum le)
        (print_hex8-Lacks bar sum le (omega arith))
    ∙ parse_checked_lem field fields sum h (ap crc32 (barred-joined field fields))

-- A record that the format can represent reads back from the text that is written for it.
pub parse-record_text : (r : OwnedRecord) → IsStorable r → parse_record (record_text r) ≡ loaded r
unfolding record_text record_body
parse-record_text r s =
    parse-barred version_2 (drop 1 (record_fields r)) (All-IsField r s) ∙ decode_record r s
