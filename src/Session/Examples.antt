-- ===== src/Session/Examples.antt =====
-- The theorems on the session journal, applied to sample records, files and systems.
use universal_launcher.Prelude.{
  ◌^◌, ◌+◌, false, ◌⊎◌, Bool-cases, ℕ, zero, suc, ◌≤◌, ◌≡◌, refl, sym, ap, ◌⊎◌, inl, inr, true,
  none, some, List, [], ◌∷◌, ◌++◌, arith, length, All, Any, Bytes, codes, bytes_eq, bytes_eq_iff,
  pos, negsuc, ◌==ℤ◌, ltb_ℤ,
}
use universal_launcher.Prelude.{Any}
use universal_launcher.Prelude.{Any}
use universal_launcher.Operation.{outcome_code, identity_validate, identifier_is_valid}
use universal_launcher.Session.Hex.{hex_character, encode_hex, decode_hex, decode-encode}
use universal_launcher.Session.Integer.{print_integer, parse_i64, parse-print}
use universal_launcher.Session.Crc.{print_hex8, parse_checksum, parse-print_hex8}
use universal_launcher.Session.Builder.{TextBuilder, empty_builder, grow}
use universal_launcher.Session.Record.{
  OwnedRecord, state_code, record_validate, record_fields_valid, view_valid, copy_view,
  identifier_valid, running_valid, max_file_bytes,
}
use universal_launcher.Session.Owned.{record_from_public, record_equal, record_transition_valid}
use universal_launcher.Session.Owned.Copy.{copied}
use universal_launcher.Session.Owned.Storable.{record_from_public-IsStorable}
use universal_launcher.Session.Codec.{loaded, parse_record, serialize_record}
use universal_launcher.Session.Codec.Text.{record_text}
use universal_launcher.Session.Codec.RoundTrip.{IsStorable, parse-record_text}
use universal_launcher.Session.Codec.Stored.{serialize-parse, length-record_text}
use universal_launcher.Session.Files.{
  Directory, scanned, scan_failed, corrupt_journal, scan_records, sort, insert, file_name,
  has_session_suffix,
}
use universal_launcher.Session.Files.Scanning.{
  Loads, no_file, record_file, scan_records-Loads, scan_records-overflow,
}
use universal_launcher.Session.Journal.{
  failed, done, admit, admitted, assign_order, journal_write, write_locked,
}
use universal_launcher.Session.Journal.Refusal.{IsAfterCommit, temporary_of, write_refused-keeps}
use universal_launcher.Session.Journal.Admitted.{
  Ends, IsAdmissible, admit-IsAdmissible, assign_order-newest,
}
use universal_launcher.Session.Journal.Immutable.{write_final-keeps, write_repeat-done}
use universal_launcher.Session.Builder.Writes.{Covers, grow_total}
use mathlib.Core.List.{Perm}
use universal_launcher.Session.Lookup.{find_record}
use universal_launcher.Session.Lookup.Newest.{
  IsNewestFirst, IsNewest, HasOtherKey, sort-IsNewestFirst, find_record-IsNewest,
  find_record-HasOtherKey,
}
use universal_launcher.Session.Journal.Recorded.{write_locked-Loads, write_locked-overflow}
use universal_launcher.Session.Atomic.{temporary_name, write_ok, write_file_atomic}
use universal_launcher.Session.Atomic.Discarding.{without}
use universal_launcher.Session.Atomic.Replacing.{HasNoFile}
use universal_launcher.Session.Journal.{
  Journal, write_input, commit, session_commit_verification_failed, session_atomic_write_failed,
}
use universal_launcher.Session.Files.{record_compare_descending}
use universal_launcher.Session.Record.{state_of_int}
use universal_launcher.Operation.{outcome_of_int}
use universal_launcher.Session.Samples.{
  all_ok, torn, all_ok_lem, sample_journal, begun, begun_copy, ended_copy, begun_lem, begun-IsTyped,
  ended_lem,
}

abbrev sample_file : Bytes × Bytes
sample_file = (file_name ended_copy, record_text ended_copy)

sample_parsed : parse_record (record_text ended_copy) ≡ loaded ended_copy
sample_parsed = parse-record_text ended_copy ended_lem

suffix_lem : has_session_suffix (file_name ended_copy) ≡ true
unfolding has_session_suffix encode_hex hex_character bytes_eq
suffix_lem = refl

copies : ℕ → Directory
copies zero = []
copies (suc n) = sample_file ∷ copies n

copies_records : ℕ → List OwnedRecord
copies_records zero = []
copies_records (suc n) = ended_copy ∷ copies_records n

copies-Loads : (n : ℕ) → Loads (copies n) (copies_records n)
unfolding copies copies_records
copies-Loads zero = no_file
copies-Loads (suc n) =
    record_file suffix_lem (length-record_text ended_copy ended_lem) sample_parsed (copies-Loads n)

length-copies : (n : ℕ) → length (copies_records n) ≡ n
unfolding copies_records
length-copies zero = refl
length-copies (suc n) = ground (arith, length-copies n)

serialize-parse_example :
    (b : TextBuilder) × (serialize_record (λ n. true) ended_copy empty_builder ≡ some b)
    × (parse_record b.text ≡ loaded ended_copy)
    × (length b.text ≤ max_file_bytes)
serialize-parse_example = serialize-parse ended_copy ended_lem (λ n. true) (λ n. refl)

repeat_equal : record_equal ended_copy ended_copy ≡ true
unfolding record_equal ◌==ℤ◌ state_code outcome_code bytes_eq
repeat_equal = refl

admit_sample : admit ended_copy 0 (pos 0) (begun_copy ∷ []) ≡ admitted 1 (pos 1)
unfolding admit bytes_eq record_equal ◌==ℤ◌ state_code record_transition_valid
admit_sample = refl

assign_sample : assign_order 1 (pos 1) ≡ done (pos 1)
unfolding assign_order ◌==ℤ◌
assign_sample = refl

torn_file : (target text : Bytes) → (write_file_atomic torn target text []).ok ≡ false
unfolding write_file_atomic
torn_file target text = elim (Bool-cases (write_ok torn (temporary_name target) text)) [
  | inl e ↦ ground (arith, e)
  | inr e ↦ ground (arith, e)
]

torn-commit :
    (commit torn all_ok sample_journal (record (copied begun) { commit_order = pos 1 }) []).result
    ≡ failed session_atomic_write_failed
unfolding commit
torn-commit =
    let r = record (copied begun) { commit_order = pos 1 } in
    let (_, storable) =
      record_from_public-IsStorable begun begun-IsTyped 1 (omega arith) (omega arith) begun_lem in
    let (b, e, _, _) = serialize-parse r storable (λ n. true) (λ n. refl) in
    rw (e, commit) (rw (torn_file (file_name r) b.text) refl)

torn_write :
    (journal_write torn all_ok (some sample_journal) (some begun) []).result
    ≡ failed session_atomic_write_failed
unfolding journal_write view_valid record_validate record_fields_valid identifier_valid
    identity_validate identifier_is_valid ◌==ℤ◌ running_valid copy_view record_from_public
    scan_records sort admit assign_order copied
torn_write = torn-commit

write_refused-keeps_example :
    IsAfterCommit session_atomic_write_failed
    ⊎ ((journal_write torn all_ok (some sample_journal) (some begun) []).files ≡ [])
    ⊎ ((session_atomic_write_failed ≡ session_atomic_write_failed)
        × (valid : Journal) × (requested : OwnedRecord) × (write_input
              (some sample_journal)
              (some begun)
            ≡ some (valid, requested))
        × (without
              (temporary_of requested)
              (journal_write torn all_ok (some sample_journal) (some begun) []).files
            ≡ without (temporary_of requested) []))
write_refused-keeps_example =
    write_refused-keeps torn all_ok (some sample_journal) (some begun) []
      session_atomic_write_failed torn_write

scan_one : scan_records all_ok (copies 1) ≡ scanned (ended_copy ∷ [])
unfolding sort insert copies copies_records
scan_one =
    scan_records-Loads all_ok all_ok_lem (copies 1) (copies_records 1) (copies-Loads 1)
      (ground arith)

scan_records-Loads_example : scan_records all_ok (copies 3) ≡ scanned (sort (copies_records 3))
scan_records-Loads_example =
    scan_records-Loads all_ok all_ok_lem (copies 3) (copies_records 3) (copies-Loads 3)
      (omega (arith, length-copies 3))

scan_records-overflow_example : scan_records all_ok (copies 1025) ≡ scan_failed corrupt_journal
scan_records-overflow_example =
    scan_records-overflow all_ok all_ok_lem (copies 1025) (copies_records 1025) (copies-Loads 1025)
      (omega (arith, length-copies 1025))

write_final-keeps_example :
    (write_locked all_ok all_ok sample_journal begun_copy (copies 1)).files ≡ copies 1
unfolding state_code
write_final-keeps_example =
    write_final-keeps all_ok all_ok sample_journal begun_copy (copies 1) (ended_copy ∷ []) scan_one
      (inl (refl, refl))

write_repeat-done_example :
    write_locked all_ok all_ok sample_journal ended_copy (copies 1)
    ≡ record { files = copies 1; result = done tt }
write_repeat-done_example =
    write_repeat-done all_ok all_ok sample_journal ended_copy (copies 1) (ended_copy ∷ []) scan_one
      (inr (refl, repeat_equal), tt) (inl (refl, repeat_equal))

record_from_public-IsStorable_example :
    (record_from_public begun ≡ some (copied begun))
    × IsStorable (record (copied begun) { commit_order = pos 1 })
record_from_public-IsStorable_example =
    record_from_public-IsStorable begun begun-IsTyped 1 (omega arith) (omega arith) begun_lem

admit-IsAdmissible_example : All (IsAdmissible ended_copy) (begun_copy ∷ [])
admit-IsAdmissible_example = admit-IsAdmissible ended_copy (begun_copy ∷ []) 1 (pos 1) admit_sample

assign_order-newest_example :
    All (λ e. ltb_ℤ e.commit_order (pos 1) ≡ true) (begun_copy ∷ [])
    ⊎ Any (λ e. Ends ended_copy e × (pos 1 ≡ e.commit_order)) (begun_copy ∷ [])
assign_order-newest_example =
    assign_order-newest ended_copy (begun_copy ∷ []) 1 (pos 1) (pos 1) admit_sample assign_sample

decode-encode_example : decode_hex (encode_hex (codes "op")) 129 ≡ some (codes "op")
decode-encode_example = decode-encode (codes "op") 129 (ground arith) (omega arith)

parse-print_example : parse_i64 (print_integer (negsuc 41)) ≡ some (negsuc 41)
parse-print_example = parse-print (negsuc 41) (omega arith)

parse-print_hex8_example : parse_checksum (print_hex8 48879) ≡ some 48879
parse-print_hex8_example = parse-print_hex8 48879 (omega arith)

grow_total_example : Covers (grow 64 256 (2 ^ 63 + 5)) (2 ^ 63 + 5)
grow_total_example = grow_total 256 (2 ^ 63 + 5) (omega arith) (omega arith) (omega arith)

abbrev second_copy : OwnedRecord
second_copy = record begun_copy {
  session_id = codes "s2";
  operation_id = codes "op2";
  commit_order = pos 0;
}

second_lem : IsStorable (record second_copy { commit_order = pos 2 })
unfolding state_code state_of_int outcome_code outcome_of_int ◌==ℤ◌
second_lem = record {
  session_id = ground arith;
  operation_id = ground arith;
  attempt_id = ground arith;
  runnable_reference = ground arith;
  process_identity = ground arith;
  started_at = ground arith;
  ended_at = ground arith;
  recovery_transaction = ground arith;
  recovery_inspect_command = ground arith;
  recovery_reference = ground arith;
  relaunch_reference = ground arith;
  state = (omega arith, refl);
  outcome = (omega arith, refl);
  effects = omega arith;
  required = omega arith;
  known = omega arith;
  exit_code = omega arith;
  order = (omega arith, refl);
}

sort-copies : (n : ℕ) → sort (copies_records n) ≡ copies_records n
unfolding sort insert copies_records record_compare_descending ◌==ℤ◌
sort-copies zero = refl
sort-copies (suc zero) = refl
sort-copies (suc (suc n)) = ap (insert ended_copy) (sort-copies (suc n))

admit-copies : (n : ℕ) → admit second_copy 1 (pos 0) (copies_records n) ≡ admitted 1 (pos 0)
unfolding admit copies_records bytes_eq ltb_ℤ
admit-copies zero = refl
admit-copies (suc n) = admit-copies n

admit_second :
    (n : ℕ) → admit second_copy 0 (pos 0) (sort (copies_records (suc n))) ≡ admitted 1 (pos 0)
unfolding admit copies_records bytes_eq ltb_ℤ
admit_second n = rw (sort-copies (suc n)) (admit-copies n)

no_second : (n : ℕ) → HasNoFile (file_name second_copy) (copies n)
unfolding copies bytes_eq
no_second zero = tt
no_second (suc n) = (
  (λ e. cc (sym ((bytes_eq_iff (file_name ended_copy) (file_name second_copy)).1 e))),
  no_second n,
)

write_locked-Loads_example :
    ((write_locked all_ok all_ok sample_journal second_copy (copies 1)).result ≡ done tt)
    × Loads
        (write_locked all_ok all_ok sample_journal second_copy (copies 1)).files
        (copies_records 1 ++ record second_copy { commit_order = pos 2 } ∷ [])
write_locked-Loads_example =
    write_locked-Loads all_ok all_ok all_ok_lem all_ok_lem sample_journal second_copy (copies 1)
      (copies_records 1) 1 (copies-Loads 1) (omega (arith, length-copies 1))
      (omega (arith, length-copies 1)) (no_second 1) (omega arith) second_lem (omega arith)
      (admit_second 0)

write_locked-overflow_example :
    ((write_locked all_ok all_ok sample_journal second_copy (copies 1024)).result
      ≡ failed session_commit_verification_failed)
    × (scan_records all_ok
          (write_locked all_ok all_ok sample_journal second_copy (copies 1024)).files
        ≡ scan_failed corrupt_journal)
write_locked-overflow_example =
    write_locked-overflow all_ok all_ok all_ok_lem all_ok_lem sample_journal second_copy
      (copies 1024) (copies_records 1024) 1 (copies-Loads 1024) (length-copies 1024)
      (no_second 1024) (omega arith) second_lem (omega arith) (admit_second 1023)

sort-IsNewestFirst_example :
    IsNewestFirst (sort (copies_records 2)) × Perm (sort (copies_records 2)) (copies_records 2)
sort-IsNewestFirst_example = sort-IsNewestFirst (copies_records 2)

find_sample : find_record true (codes "game") (sort (begun_copy ∷ [])) ≡ some begun_copy
unfolding find_record sort insert bytes_eq
find_sample = refl

find_missing : find_record true (codes "tool") (sort (begun_copy ∷ [])) ≡ none
unfolding find_record sort insert bytes_eq
find_missing = refl

find_record-IsNewest_example :
    (codes "game" ≡ codes "game")
    × All (IsNewest true (codes "game") begun_copy) (begun_copy ∷ [])
    × Any (λ e. e ≡ begun_copy) (begun_copy ∷ [])
find_record-IsNewest_example =
    find_record-IsNewest true (codes "game") (begun_copy ∷ []) begun_copy find_sample

find_record-HasOtherKey_example : All (HasOtherKey true (codes "tool")) (begun_copy ∷ [])
find_record-HasOtherKey_example =
    find_record-HasOtherKey true (codes "tool") (begun_copy ∷ []) find_missing
