-- ===== src/Session/Files/Scanning.antt =====
-- What a scan of the record files yields: up to 1024 records it is the sorted list of all of them,
-- beyond that it fails.
use universal_launcher.Prelude.{
  ℕ, ◌+◌, ◌*◌, ◌≤◌, ◌<◌, ◌≡◌, refl, sym, ap, ◌∙◌, ◌⊎◌, inl, inr, true, false, none, some, List, [],
  ◌∷◌, ◌++◌, append_assoc, append-nil, arith, ltb, ◌==◌, if◌then◌else◌, ltb→lt, Bool-cases, length,
  length-append, Bytes,
}
use universal_launcher.Session.Record.{OwnedRecord, max_records, max_file_bytes}
use universal_launcher.Session.Codec.{loaded, parse_record}
use universal_launcher.Session.Files.{
  Directory, System, scanned, scan_failed, corrupt_journal, RecordSet, empty_set,
  has_session_suffix, load_record_path, append_record, scan_entries, scan_records, sort,
}

-- Every call succeeds.
pub record IsHealthy (s : System) : Type 0 where
  pub root_is_link : s.root_is_link ≡ false
  pub root_made : s.root_made ≡ true
  pub sessions_path : s.sessions_path ≡ true
  pub sessions_is_link : s.sessions_is_link ≡ false
  pub sessions_made : s.sessions_made ≡ true
  pub lock_path : s.lock_path ≡ true
  pub lock_taken : s.lock_taken ≡ true
  pub directory_opened : s.directory_opened ≡ true
  pub entry_listed : (name : Bytes) → s.entry_listed name ≡ true
  pub path_joined : (name : Bytes) → s.path_joined name ≡ true
  pub file_read : (name : Bytes) → s.file_read name ≡ true
  pub set_grown : (n : ℕ) → s.set_grown n ≡ true
  pub text_grown : (n : ℕ) → s.text_grown n ≡ true
  pub temporary_named : (name : Bytes) → s.temporary_named name ≡ true
  pub file_opened : (name : Bytes) → s.file_opened name ≡ true
  pub bytes_written : (name : Bytes) (n : ℕ) → s.bytes_written name n ≡ n
  pub file_flushed : (name : Bytes) → s.file_flushed name ≡ true
  pub file_synced : (name : Bytes) → s.file_synced name ≡ true
  pub file_closed : (name : Bytes) → s.file_closed name ≡ true
  pub file_renamed : (name : Bytes) → s.file_renamed name ≡ true
  pub file_removed : (name : Bytes) → s.file_removed name ≡ true

-- The directory's record files hold these records, in this order.
pub data Loads : Directory → List OwnedRecord → Type 0 where
  no_file : Loads [] []
  other_file :
      {name contents : Bytes} {files : Directory} {records : List OwnedRecord}
      → has_session_suffix name ≡ false
      → Loads files records
      → Loads ((name, contents) ∷ files) records
  record_file :
      {name contents : Bytes} {files : Directory} {r : OwnedRecord} {records : List OwnedRecord}
      → has_session_suffix name ≡ true
      → length contents ≤ max_file_bytes
      → parse_record contents ≡ loaded r
      → Loads files records
      → Loads ((name, contents) ∷ files) (r ∷ records)

-- The capacities that doubling from 16 reaches.
abbrev IsCapacity : ℕ → Type 0
IsCapacity c =
    (c ≡ 0) ⊎ (c ≡ 16) ⊎ (c ≡ 32) ⊎ (c ≡ 64) ⊎ (c ≡ 128) ⊎ (c ≡ 256) ⊎ (c ≡ 512) ⊎ (c ≡ 1024)

abbrev HasRoom : RecordSet → Type 0
HasRoom set = IsCapacity set.capacity × (length set.values ≤ set.capacity)

module _ (system : System) (healthy : IsHealthy system) where
  append_record_lem :
      (set : RecordSet) (r : OwnedRecord)
      → HasRoom set
      → length set.values < max_records
      → (set' : RecordSet) × (append_record system set r ≡ some set')
        × (set'.values ≡ set.values ++ r ∷ [])
        × HasRoom set'
  unfolding append_record
  append_record_lem set r room h =
      let c = (if set.capacity == 0 then 16 else set.capacity * 2) in
      let grown = healthy.set_grown c in
      let more = length-append set.values (r ∷ []) in
      elim (Bool-cases (length set.values == set.capacity)) [
        | inl full ↦ (
          record set { values = set.values ++ r ∷ []; capacity = c },
          ground (arith, full, grown),
          refl,
          (ground (arith, full), ground (arith, full, more)),
        )
        | inr free ↦ (
          record set { values = set.values ++ r ∷ [] },
          ground (arith, free),
          refl,
          (room.0, ground (arith, free, more)),
        )
      ]

  append_record_full :
      (set : RecordSet) (r : OwnedRecord)
      → HasRoom set
      → length set.values ≡ max_records
      → append_record system set r ≡ none
  unfolding append_record
  append_record_full set r room h = ground arith

  load_lem :
      (name contents : Bytes) (r : OwnedRecord)
      → length contents ≤ max_file_bytes
      → parse_record contents ≡ loaded r
      → load_record_path system (name, contents) ≡ loaded r
  unfolding load_record_path
  load_lem name contents r h e = ground (arith, healthy.file_read name)

  step_lem :
      (name contents : Bytes) (files : Directory) (set set' : RecordSet) (r : OwnedRecord)
      → has_session_suffix name ≡ true
      → length contents ≤ max_file_bytes
      → parse_record contents ≡ loaded r
      → append_record system set r ≡ some set'
      → scan_entries system set ((name, contents) ∷ files) ≡ scan_entries system set' files
  unfolding scan_entries
  step_lem name contents files set set' r s l p e =
      rw (healthy.entry_listed name, scan_entries)
        (rw (s) (rw (healthy.path_joined name) (rw (load_lem name contents r l p) (rw e))))

  full_step :
      (name contents : Bytes) (files : Directory) (set : RecordSet) (r : OwnedRecord)
      → has_session_suffix name ≡ true
      → length contents ≤ max_file_bytes
      → parse_record contents ≡ loaded r
      → append_record system set r ≡ none
      → scan_entries system set ((name, contents) ∷ files) ≡ scan_failed corrupt_journal
  unfolding scan_entries
  full_step name contents files set r s l p e =
      rw (healthy.entry_listed name, scan_entries)
        (rw (s) (rw (healthy.path_joined name) (rw (load_lem name contents r l p) (rw e))))

  skip_step :
      (name contents : Bytes) (files : Directory) (set : RecordSet)
      → has_session_suffix name ≡ false
      → scan_entries system set ((name, contents) ∷ files) ≡ scan_entries system set files
  unfolding scan_entries
  skip_step name contents files set s = rw (healthy.entry_listed name, scan_entries) (rw (s) refl)

  scan_entries-Loads :
      (files : Directory) (records : List OwnedRecord) (set : RecordSet)
      → Loads files records
      → HasRoom set
      → length set.values + length records ≤ max_records
      → (set' : RecordSet) × (scan_entries system set files ≡ scanned set')
        × (set'.values ≡ set.values ++ records)
  unfolding scan_entries
  scan_entries-Loads _ _ set no_file room h = (set, refl, sym (append-nil set.values))
  scan_entries-Loads _ _ set (other_file {name} {contents} {files} {records} s rest) room h =
      let (set', e, v) = scan_entries-Loads files records set rest room h in
      (set', skip_step name contents files set s ∙ e, v)
  scan_entries-Loads _ _ set (record_file {name} {contents} {files} {r} {records} s l p rest) room
        h =
      let (next, e, v, room') = append_record_lem set r room (omega arith) in
      let (set', e', v') =
        scan_entries-Loads files records next rest room'
          (omega (arith, ap length v, length-append set.values (r ∷ []))) in
      (
        set',
        step_lem name contents files set next r s l p e ∙ e',
        v'
            ∙ ap (λ (x : List OwnedRecord). x ++ records) v
            ∙ append_assoc set.values (r ∷ []) records,
      )

  scan_entries-overflow :
      (files : Directory) (records : List OwnedRecord) (set : RecordSet)
      → Loads files records
      → HasRoom set
      → length set.values ≤ max_records
      → max_records < length set.values + length records
      → scan_entries system set files ≡ scan_failed corrupt_journal
  unfolding scan_entries
  scan_entries-overflow _ _ set no_file room le h = absurd (omega arith)
  scan_entries-overflow _ _ set (other_file {name} {contents} {files} {records} s rest) room le h =
      skip_step name contents files set s ∙ scan_entries-overflow files records set rest room le h
  scan_entries-overflow _ _ set (record_file {name} {contents} {files} {r} {records} s l p rest)
        room le h =
      elim (Bool-cases (ltb (length set.values) max_records)) [
        | inl more ↦
            let (next, e, v, room') = append_record_lem set r room (ltb→lt _ _ more) in
            let n = ap length v ∙ length-append set.values (r ∷ []) in
            step_lem name contents files set next r s l p e
            ∙ scan_entries-overflow files records next rest room' (ground (arith, n, more))
                (omega (arith, n))
        | inr full ↦
            full_step name contents files set r s l p
              (append_record_full set r room (ground (arith, full)))
      ]

  -- When every system call succeeds and the record files of the directory hold the given
  -- records, at most max_records of them, the scan returns these records, sorted.
  pub scan_records-Loads :
      (files : Directory) (records : List OwnedRecord)
      → Loads files records
      → length records ≤ max_records
      → scan_records system files ≡ scanned (sort records)
  unfolding scan_records
  scan_records-Loads files records loads h =
      let (set, e, v) =
        scan_entries-Loads files records empty_set loads (inl refl, omega arith) (omega arith) in
      ground (arith, healthy.directory_opened, e, v)

  -- When every system call succeeds and the directory holds more than max_records readable
  -- record files, the scan fails and reports a corrupt journal.
  pub scan_records-overflow :
      (files : Directory) (records : List OwnedRecord)
      → Loads files records
      → max_records < length records
      → scan_records system files ≡ scan_failed corrupt_journal
  unfolding scan_records
  scan_records-overflow files records loads h = ground (
    arith,
    healthy.directory_opened,
    scan_entries-overflow files records empty_set loads (inl refl, omega arith) (omega arith)
        (omega arith),
  )
