-- ===== src/Session/Codec.antt =====
-- runtime/launcher/kernel/ulk_session.c: `ulk_serialize_record` and `ulk_parse_record`, the format of
-- the record files.
pub mod Text
pub mod RoundTrip
pub mod Stored
use universal_launcher.Prelude.{
  ℕ, zero, suc, ◌+◌, ◌-◌, ◌*◌, ◌/◌, ◌%◌, ◌^◌, ◌≤◌, ◌<◌, ◌≡◌, refl, sym, ap, ◌∙◌, ◌≢◌, ◌↔◌, ◌⊎◌, inl,
  inr, Bool, true, false, not, ◌&&◌, ◌||◌, Option, none, some, List, [], ◌∷◌, ◌++◌, append_assoc,
  append-nil, arith, ltb, leb, ◌==◌, if◌then◌else◌, ltb→lt, lt→ltb, ltb-false, leb→le, ==_iff,
  tests, Bool-cases, Option-cases, and_true, ◌>>=◌, ◌>>◌, guard, length, all, is_nil, take, drop,
  length-append, All, All-append, All-mono, Bytes, codes, bytes_eq, bytes_eq_iff, bytes_eq_refl,
  c_string, IsTextByte, IsText, c_string-IsText, Lacks, between, ℤ, pos, negsuc, ◌==ℤ◌, ==ℤ_iff,
  ltb_ℤ,
}
use universal_launcher.Operation.{outcome_code, outcome_of_int}
use universal_launcher.Session.Hex.{decode_hex}
use universal_launcher.Session.Integer.{parse_i64, parse_int}
use universal_launcher.Session.Crc.{crc32, print_hex8, parse_checksum}
use universal_launcher.Session.Builder.{
  TextBuilder, Append, ◌▷◌, skip, append, append_hex, append_integer,
}
use universal_launcher.Session.Record.{
  OwnedRecord, state_code, state_of_int, max_runnable_bytes, max_process_bytes, max_time_bytes,
  max_reference_bytes,
}

-- ulk_disk_record_status
pub data DiskRecord : Type 0 where
  loaded : OwnedRecord → DiskRecord
  corrupt incompatible : DiskRecord

abbrev pub bar : ℕ
bar = b'|'

abbrev pub newline : ℕ
newline = 10

abbrev pub is_positive : ℤ → Bool
is_positive (pos n) = ltb 0 n
is_positive (negsuc n) = false

pub check_commit_order : OwnedRecord → Append
check_commit_order r builder = if is_positive r.commit_order then some builder else none

module _ (realloc : ℕ → Bool) where
  -- The loops over the arrays of string fields.
  pub append_hex_fields : List Bytes → Append
  append_hex_fields [] = skip
  append_hex_fields (field ∷ fields) =
      append_hex realloc field ▷ append realloc (bar ∷ []) ▷ append_hex_fields fields

  pub append_integer_field : ℤ → Append
  append_integer_field value = append_integer realloc value ▷ append realloc (bar ∷ [])

  -- The checksum covers all that is written before it.
  pub append_checksum : Append
  append_checksum output = append realloc (print_hex8 (crc32 output.text) ++ newline ∷ []) output

  unfoldable pub serialize_record : OwnedRecord → Append
  unfolding append_hex_fields append_integer_field check_commit_order append_checksum
  serialize_record r =
      append realloc (codes "ULK_SESSION_RECORD_V2|")
      ▷ append_hex_fields (
          r.session_id ∷ r.operation_id ∷ r.attempt_id ∷ r.runnable_reference ∷ r.process_identity
          ∷ [])
      ▷ append_integer_field (state_code r.state)
      ▷ append_hex_fields (r.started_at ∷ r.ended_at ∷ [])
      ▷ append_integer_field r.exit_code_known
      ▷ append_integer_field r.exit_code
      ▷ append_integer_field (outcome_code r.outcome)
      ▷ append_integer_field r.effects_may_have_occurred
      ▷ append_integer_field r.recovery_required
      ▷ append_hex_fields (
          r.recovery_transaction ∷ r.recovery_inspect_command ∷ r.recovery_reference
          ∷ r.relaunch_reference ∷ [])
      ▷ check_commit_order r
      ▷ append_integer_field r.commit_order
      ▷ append_checksum

-- strrchr: what stands before the last bar, and behind it.
pub split_last : Bytes → Option (Bytes × Bytes)
split_last [] = none
split_last (c ∷ s) = elim (split_last s) [
  | some (before, behind) ↦ some (c ∷ before, behind)
  | none ↦ if c == bar then some ([], s) else none
]

abbrev pub extend_first : ℕ → List Bytes → List Bytes
extend_first c [] = (c ∷ []) ∷ []
extend_first c (field ∷ fields) = (c ∷ field) ∷ fields

-- The loop that cuts the text at each bar.
pub split_fields : Bytes → List Bytes
split_fields [] = [] ∷ []
split_fields (c ∷ s) =
    let fields = split_fields s in if c == bar then [] ∷ fields else extend_first c fields

abbrev version_1 : Bytes
version_1 = codes "ULK_SESSION_RECORD_V1"

abbrev version_2 : Bytes
version_2 = codes "ULK_SESSION_RECORD_V2"

abbrev record_prefix : Bytes
record_prefix = codes "ULK_SESSION_RECORD_"

-- Field 18, which only version 2 has.
pub parse_commit_order : List Bytes → Option ℤ
parse_commit_order [] = some (pos 0)
parse_commit_order (text ∷ _) = do order ← parse_i64 text; guard (is_positive order); some order

-- Fields 1 to 17, and 18 in version 2.
pub decode_fields : List Bytes → Option OwnedRecord
unfolding parse_commit_order
decode_fields
      (f1 ∷ f2 ∷ f3 ∷ f4 ∷ f5 ∷ f6 ∷ f7 ∷ f8 ∷ f9 ∷ f10 ∷ f11 ∷ f12 ∷ f13 ∷ f14 ∷ f15 ∷ f16 ∷ f17
        ∷ rest) =
    do
      session_id ← decode_hex f1 129
      operation_id ← decode_hex f2 129
      attempt_id ← decode_hex f3 129
      runnable_reference ← decode_hex f4 (max_runnable_bytes + 1)
      process_identity ← decode_hex f5 (max_process_bytes + 1)
      state ← parse_int f6
      started_at ← decode_hex f7 (max_time_bytes + 1)
      ended_at ← decode_hex f8 (max_time_bytes + 1)
      exit_code_known ← parse_int f9
      exit_code ← parse_i64 f10
      outcome ← parse_int f11
      effects_may_have_occurred ← parse_int f12
      recovery_required ← parse_int f13
      recovery_transaction ← decode_hex f14 129
      recovery_inspect_command ← decode_hex f15 129
      recovery_reference ← decode_hex f16 (max_reference_bytes + 1)
      relaunch_reference ← decode_hex f17 (max_reference_bytes + 1)
      commit_order ← parse_commit_order rest
      some (record {
        session_id = session_id;
        operation_id = operation_id;
        attempt_id = attempt_id;
        runnable_reference = runnable_reference;
        process_identity = process_identity;
        started_at = started_at;
        ended_at = ended_at;
        recovery_transaction = recovery_transaction;
        recovery_inspect_command = recovery_inspect_command;
        recovery_reference = recovery_reference;
        relaunch_reference = relaunch_reference;
        state = state_of_int state;
        outcome = outcome_of_int outcome;
        effects_may_have_occurred = effects_may_have_occurred;
        recovery_required = recovery_required;
        exit_code_known = exit_code_known;
        exit_code = exit_code;
        commit_order = commit_order;
      })
decode_fields _ = none

pub as_disk_record : Option OwnedRecord → DiskRecord
as_disk_record none = corrupt
as_disk_record (some r) = loaded r

-- The version and the number of fields, then the fields.
pub parse_fields : List Bytes → DiskRecord
unfolding decode_fields as_disk_record
parse_fields [] = corrupt
parse_fields (version ∷ fields) =
    if ltb 20 (length (version ∷ fields))
    then corrupt
    else if bytes_eq version version_1
    then (if length (version ∷ fields) == 18
        then as_disk_record (decode_fields fields)
        else corrupt)
    else if bytes_eq version version_2
    then (if length (version ∷ fields) == 19
        then as_disk_record (decode_fields fields)
        else corrupt)
    else if bytes_eq (take 19 version) record_prefix
    then incompatible
    else corrupt

pub parse_checked : Bytes → Bytes → DiskRecord
unfolding parse_fields split_fields
parse_checked before checksum = elim (parse_checksum checksum) [
  | none ↦ corrupt
  | some expected ↦
      if crc32 (before ++ bar ∷ []) == expected then parse_fields (split_fields before) else corrupt
]

-- The file without its final newline, or `none` for another ending.
pub without_newline : Bytes → Option Bytes
without_newline [] = none
without_newline (c ∷ []) = if c == newline then some [] else none
without_newline (c ∷ d ∷ s) = elim (without_newline (d ∷ s)) [ none ↦ none | some t ↦ some (c ∷ t) ]

unfoldable pub parse_record : Bytes → DiskRecord
unfolding split_last without_newline parse_checked c_string
parse_record file = if ltb (length file) 2 then corrupt else elim (without_newline file) [
  | none ↦ corrupt
  | some text ↦ elim (split_last (c_string text)) [
    | none ↦ corrupt
    | some (before, checksum) ↦ parse_checked before checksum
  ]
]
