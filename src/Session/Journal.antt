-- ===== src/Session/Journal.antt =====
-- The session journal's operations in runtime/launcher/kernel/ulk_session.c: write, inspect, last run
-- and list, over the record files of Session.Files.
pub mod Refusal
pub mod Immutable
pub mod Admitted
pub mod Recorded
use universal_launcher.Prelude.{
  ℕ, zero, suc, ◌+◌, ◌-◌, ◌*◌, ◌/◌, ◌%◌, ◌^◌, ◌≤◌, ◌<◌, ◌≡◌, refl, sym, ap, ◌∙◌, ◌≢◌, ◌↔◌, ◌⊎◌, inl,
  inr, Bool, true, false, not, ◌&&◌, ◌||◌, Option, none, some, List, [], ◌∷◌, ◌++◌, append_assoc,
  append-nil, arith, ltb, leb, ◌==◌, if◌then◌else◌, ltb→lt, lt→ltb, ltb-false, leb→le, ==_iff,
  tests, Bool-cases, Option-cases, and_true, ◌>>=◌, ◌>>◌, guard, >>=-eq-some, length, all, is_nil,
  take, drop, length-append, All, All-append, All-mono, Bytes, codes, bytes_eq, bytes_eq_iff,
  bytes_eq_refl, c_string, IsTextByte, IsText, c_string-IsText, Lacks, between, ℤ, pos, negsuc,
  ◌==ℤ◌, ==ℤ_iff, ltb_ℤ,
}
use Prim.Native.Nat.{compare, Ordering}
use universal_launcher.View.{StringView, size, contents, Status, ok, error, invalid_argument, is_ok}
use universal_launcher.Session.Record.{
  SessionRecord, OwnedRecord, State, running, terminal, view_valid, identifier_valid, copy_view,
  record_validate, max_root_bytes, max_runnable_bytes, max_records, default_records,
}
use universal_launcher.Session.Owned.{
  record_from_public, record_equal, record_transition_valid, validate_owned_record,
}
use universal_launcher.Session.Builder.{TextBuilder, empty_builder, append}
use universal_launcher.Session.Codec.{serialize_record}
use universal_launcher.Session.Files.{
  Directory, System, LookupStatus, found, not_found, corrupt_journal, incompatible_journal, Scan,
  scanned, scan_failed, scan_records, file_name,
}
use universal_launcher.Session.Atomic.{remove_file, write_file_atomic}
use universal_launcher.Session.Json.{JsonBuffer, JsonCopy, record_to_json, copy_json}

-- ulk_session_journal_v1
pub record Journal : Type 0 where
  pub struct_size : ℕ
  pub root : StringView
  pub maximum_records : ℕ

abbrev pub sizeof_journal : ℕ
sizeof_journal = 32

unfoldable pub journal_validate : Option Journal → Status
journal_validate none = invalid_argument
journal_validate (some journal) =
    if not (ltb journal.struct_size sizeof_journal)
      && view_valid journal.root max_root_bytes false
      && leb journal.maximum_records max_records
    then ok
    else invalid_argument

-- The detail codes that `ulk_fail` stores; each belongs to one message and one status.
pub data Detail : Type 0 where
  session_write_invalid session_lookup_invalid session_list_invalid : Detail
  session_root_no_follow session_root_unavailable session_path_allocation_failed : Detail
  session_directory_no_follow session_lock_allocation_failed session_lock_unavailable : Detail
  session_record_incompatible session_record_corrupt : Detail
  session_operation_identity_conflict session_terminal_immutable session_idempotency_conflict :
      Detail
  session_commit_order_exhausted session_serialization_failed session_atomic_write_failed : Detail
  session_commit_verification_failed session_retention_failed : Detail
  session_output_buffer_too_small session_list_render_failed : Detail

-- The int that the call returns with the detail.
unfoldable pub detail_status : Detail → Status
detail_status session_write_invalid = invalid_argument
detail_status session_lookup_invalid = invalid_argument
detail_status session_list_invalid = invalid_argument
detail_status _ = error

-- Success clears the error, a failure stores its detail.
pub data Result {ℓ} (A : Type ℓ) : Type ℓ where
  done : A → Result A
  failed : Detail → Result A

abbrev pub refuse : Bool → Detail → Result (Unit {0}) → Result (Unit {0})
refuse test detail rest = if test then failed detail else rest

unfoldable pub prepare_root : System → Result (Unit {0})
prepare_root system = refuse system.root_is_link session_root_no_follow (
    refuse (not system.root_made) session_root_unavailable (
      refuse (not system.sessions_path) session_path_allocation_failed (
        refuse (system.sessions_is_link || not system.sessions_made) session_directory_no_follow
          (done tt))))

unfoldable pub acquire_lock : System → Result (Unit {0})
acquire_lock system =
    refuse (not system.lock_path) session_lock_allocation_failed
      (refuse (not system.lock_taken) session_lock_unavailable (done tt))

-- The detail for a scan that failed.
unfoldable pub scan_detail : LookupStatus → Detail
scan_detail incompatible_journal = session_record_incompatible
scan_detail _ = session_record_corrupt

-- What the loop over the existing records decides.
pub data Admission : Type 0 where
  admitted : ℕ → ℤ → Admission
  unchanged : Admission
  refused : Detail → Admission

abbrev pub larger : ℕ → ℤ → ℕ
larger maximum (pos n) = if ltb maximum n then n else maximum
larger maximum (negsuc n) = maximum

abbrev pub conflict_detail : State → Detail
conflict_detail terminal = session_terminal_immutable
conflict_detail _ = session_idempotency_conflict

-- `maximum` is the largest commit order so far, `order` the one that the request takes over from the
-- running record that it ends, 0 if there is none.
unfoldable pub admit : OwnedRecord → ℕ → ℤ → List OwnedRecord → Admission
admit requested maximum order [] = admitted maximum order
admit requested maximum order (existing ∷ rest) =
    let next = admit requested (larger maximum existing.commit_order) order rest in
    let ended = admit requested (larger maximum existing.commit_order) existing.commit_order rest in
    let same_session = bytes_eq existing.session_id requested.session_id in
    if bytes_eq existing.operation_id requested.operation_id
      && bytes_eq existing.attempt_id requested.attempt_id
      && not same_session
    then refused session_operation_identity_conflict
    else if same_session
    then (if record_equal existing requested
        then unchanged
        else if not (record_transition_valid existing requested)
        then refused (conflict_detail existing.state)
        else ended)
    else next

abbrev pub i64_max : ℕ
i64_max = 2 ^ 63 - 1

-- The order of the record that is written.
unfoldable pub assign_order : ℕ → ℤ → Result ℤ
assign_order maximum order =
    if order ==ℤ pos 0
    then (if maximum == i64_max
        then failed session_commit_order_exhausted
        else done (pos (maximum + 1)))
    else done order

-- The directory that a call leaves, and what it returns.
pub record Written : Type 0 where
  pub files : Directory
  pub result : Result (Unit {0})

-- The loop from `maximum` on: what was removed before a failure stays removed.
unfoldable pub retain : System → List OwnedRecord → Directory → Written
unfolding remove_file
retain system [] files = record { files = files; result = done tt }
retain system (r ∷ rs) files =
    elim (system.path_joined (file_name r) && system.file_removed (file_name r)) [
      | false ↦ record { files = files; result = failed session_retention_failed }
      | true ↦ elim (remove_file (file_name r) files) [
        | none ↦ record { files = files; result = failed session_retention_failed }
        | some files' ↦ retain system rs files'
      ]
    ]

abbrev pub maximum_of : Journal → ℕ
maximum_of journal =
    if journal.maximum_records == 0 then default_records else journal.maximum_records

-- The scan after the commit, and the retention.
unfoldable pub verify_and_retain : System → Journal → Directory → Written
unfolding retain
verify_and_retain later journal files = elim (scan_records later files) [
  | scan_failed status ↦ record {
    files = files;
    result = failed session_commit_verification_failed;
  }
  | scanned records ↦ retain later (drop (maximum_of journal) records) files
]

-- From the commit order on: serialize, commit the file, verify, retain.
unfoldable pub commit : System → System → Journal → OwnedRecord → Directory → Written
unfolding verify_and_retain write_file_atomic
commit system later journal requested files =
    elim (serialize_record system.text_grown requested empty_builder) [
      | none ↦ record { files = files; result = failed session_serialization_failed }
      | some serialized ↦
          let replaced = write_file_atomic system (file_name requested) serialized.text files in
          if not (system.path_joined (file_name requested))
          then record { files = files; result = failed session_atomic_write_failed }
          else if not replaced.ok
          then record { files = replaced.files; result = failed session_atomic_write_failed }
          else verify_and_retain later journal replaced.files
    ]

unfoldable pub write_admitted :
    System → System → Journal → OwnedRecord → Directory → Admission → Written
unfolding assign_order commit
write_admitted system later journal requested files (refused detail) = record {
  files = files;
  result = failed detail;
}
write_admitted system later journal requested files unchanged = record {
  files = files;
  result = done tt;
}
write_admitted system later journal requested files (admitted maximum order) =
    elim (assign_order maximum order) [
      | failed detail ↦ record { files = files; result = failed detail }
      | done assigned ↦
          commit system later journal (record requested { commit_order = assigned }) files
    ]

unfoldable pub write_locked : System → System → Journal → OwnedRecord → Directory → Written
unfolding admit write_admitted scan_detail
write_locked system later journal requested files = elim (scan_records system files) [
  | scan_failed status ↦ record { files = files; result = failed (scan_detail status) }
  | scanned records ↦
      write_admitted system later journal requested files (admit requested 0 (pos 0) records)
]

-- The tests of the arguments: the journal and the owned copy of the record.
unfoldable pub write_input : Option Journal → Option SessionRecord → Option (Journal × OwnedRecord)
unfolding journal_validate
write_input none r = none
write_input (some journal) none = none
write_input (some journal) (some r) =
    if is_ok (journal_validate (some journal)) && is_ok (record_validate (some r))
    then (do
      root ← copy_view (max_root_bytes + 1) journal.root
      requested ← record_from_public r
      some (journal, requested))
    else none

abbrev pub under_lock : System → Directory → Written → Written
under_lock system files rest = elim (prepare_root system) [
  | failed detail ↦ record { files = files; result = failed detail }
  | done _ ↦ elim (acquire_lock system) [
    | failed detail ↦ record { files = files; result = failed detail }
    | done _ ↦ rest
  ]
]

-- `ulk_session_journal_write_v1`; `later` answers the calls that follow the commit.
unfoldable pub journal_write :
    System → System → Option Journal → Option SessionRecord → Directory → Written
unfolding write_input prepare_root acquire_lock write_locked
journal_write system later journal r files = elim (write_input journal r) [
  | none ↦ record { files = files; result = failed session_write_invalid }
  | some (valid, requested) ↦
      under_lock system files (write_locked system later valid requested files)
]
