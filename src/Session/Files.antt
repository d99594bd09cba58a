-- ===== src/Session/Files.antt =====
-- runtime/launcher/kernel/ulk_session.c: the record files of a journal, reading them into a sorted
-- set (`ulk_scan_records`), and the operating system that answers the calls.
pub mod Scanning
use universal_launcher.Prelude.{
  ℕ, zero, suc, ◌+◌, ◌-◌, ◌*◌, ◌/◌, ◌%◌, ◌^◌, ◌≤◌, ◌<◌, ◌≡◌, refl, sym, ap, ◌∙◌, ◌≢◌, ◌↔◌, ◌⊎◌, inl,
  inr, Bool, true, false, not, ◌&&◌, ◌||◌, Option, none, some, List, [], ◌∷◌, ◌++◌, append_assoc,
  append-nil, arith, ltb, leb, ◌==◌, if◌then◌else◌, ltb→lt, lt→ltb, ltb-false, leb→le, ==_iff,
  tests, Bool-cases, Option-cases, and_true, ◌>>=◌, ◌>>◌, guard, >>=-eq-some, length, all, is_nil,
  take, drop, length-append, All, All-append, All-mono, Bytes, codes, bytes_eq, bytes_eq_iff,
  bytes_eq_refl, c_string, IsTextByte, IsText, c_string-IsText, Lacks, between, ℤ, pos, negsuc,
  ◌==ℤ◌, ==ℤ_iff, ltb_ℤ,
}
use Prim.Native.Nat.{compare, Ordering}
use universal_launcher.Session.Record.{OwnedRecord, max_records, max_file_bytes}
use universal_launcher.Session.Codec.{DiskRecord, loaded, corrupt, incompatible, parse_record}

-- The sessions directory: names and contents, in the order in which the system lists them.
abbrev pub Directory : Type 0
Directory = List (Bytes × Bytes)

-- How the system answers the calls of one operation: whether the root and the sessions directory can
-- be prepared, whether the lock is taken, which entries `readdir` delivers, which files can be opened
-- as regular files, which buffers can be allocated, how the calls of an atomic write end, with the
-- bytes that a write takes and that a failed one leaves, and whether a file can be removed.
pub record System : Type 0 where
  pub root_is_link : Bool
  pub root_made : Bool
  pub sessions_path : Bool
  pub sessions_is_link : Bool
  pub sessions_made : Bool
  pub lock_path : Bool
  pub lock_taken : Bool
  pub directory_opened : Bool
  pub entry_listed : Bytes → Bool
  pub path_joined : Bytes → Bool
  pub file_read : Bytes → Bool
  pub set_grown : ℕ → Bool
  pub text_grown : ℕ → Bool
  pub temporary_named : Bytes → Bool
  pub file_opened : Bytes → Bool
  pub bytes_written : Bytes → ℕ → ℕ
  pub file_flushed : Bytes → Bool
  pub file_synced : Bytes → Bool
  pub file_closed : Bytes → Bool
  pub bytes_kept : Bytes → ℕ
  pub file_renamed : Bytes → Bool
  pub file_removed : Bytes → Bool

-- ulk_session_lookup_status_v1
pub data LookupStatus : Type 0 where
  found not_found : LookupStatus
  corrupt_journal incompatible_journal : LookupStatus

abbrev pub suffix : Bytes
suffix = codes ".session"

unfoldable pub has_session_suffix : Bytes → Bool
has_session_suffix name = ltb 8 (length name) && bytes_eq (drop (length name - 8) name) suffix

-- "%s.session"
abbrev pub file_name : OwnedRecord → Bytes
file_name r = r.session_id ++ suffix

-- `ulk_read_file`: a regular file of at most `max_file_bytes`.
unfoldable pub read_file : System → Bytes × Bytes → Option Bytes
read_file system (name, contents) =
    if not (system.file_read name)
    then none
    else if ltb max_file_bytes (length contents)
    then none
    else some contents

abbrev parsed : Option Bytes → DiskRecord
parsed none = corrupt
parsed (some text) = parse_record text

unfoldable pub load_record_path : System → Bytes × Bytes → DiskRecord
unfolding read_file
load_record_path system file = parsed (read_file system file)

-- ulk_session_record_set; `capacity` counts the allocated entries.
pub record RecordSet : Type 0 where
  pub values : List OwnedRecord
  pub capacity : ℕ

abbrev pub empty_set : RecordSet
empty_set = record { values = []; capacity = 0 }

unfoldable pub append_record : System → RecordSet → OwnedRecord → Option RecordSet
append_record system set r =
    let capacity = if set.capacity == 0 then 16 else set.capacity * 2 in
    let values = set.values ++ r ∷ [] in
    if length set.values == set.capacity
    then (if ltb max_records capacity
        then none
        else if system.set_grown capacity
        then some (record set { values = values; capacity = capacity })
        else none)
    else some (record set { values = values })

-- The set, or the status that the scan leaves in `failure_status`; the callers set it to corrupt
-- before the scan.
pub data Scan {ℓ} (A : Type ℓ) : Type ℓ where
  scanned : A → Scan A
  scan_failed : LookupStatus → Scan A

abbrev pub then_append : Option RecordSet → (RecordSet → Scan RecordSet) → Scan RecordSet
then_append none rest = scan_failed corrupt_journal
then_append (some set) rest = rest set

-- One directory entry with the suffix.
abbrev pub after_load :
    System → RecordSet → DiskRecord → (RecordSet → Scan RecordSet) → Scan RecordSet
after_load system set (loaded r) rest = then_append (append_record system set r) rest
after_load system set corrupt rest = scan_failed corrupt_journal
after_load system set incompatible rest = scan_failed incompatible_journal

-- The loop over `readdir`, which ends at the end of the directory and at an error alike.
unfoldable pub scan_entries : System → RecordSet → Directory → Scan RecordSet
unfolding load_record_path append_record has_session_suffix
scan_entries system set [] = scanned set
scan_entries system set ((name, contents) ∷ rest) = elim (system.entry_listed name) [
  | false ↦ scanned set
  | true ↦ elim (has_session_suffix name) [
    | false ↦ scan_entries system set rest
    | true ↦ elim (system.path_joined name) [
      | false ↦ scan_failed corrupt_journal
      | true ↦
          after_load system set (load_record_path system (name, contents))
            (λ s. scan_entries system s rest)
    ]
  ]
]

-- strcmp on unsigned bytes.
pub strcmp : Bytes → Bytes → Ordering
strcmp [] [] = Ordering.eq
strcmp [] (y ∷ ys) = Ordering.lt
strcmp (x ∷ xs) [] = Ordering.gt
strcmp (x ∷ xs) (y ∷ ys) = elim (compare x y) [
  | Ordering.eq ↦ strcmp xs ys
  | Ordering.lt ↦ Ordering.lt
  | Ordering.gt ↦ Ordering.gt
]

-- `ulk_record_compare_descending`: the sign of its result.
unfoldable pub record_compare_descending : OwnedRecord → OwnedRecord → Ordering
unfolding strcmp ltb_ℤ
record_compare_descending left right =
    if not (left.commit_order ==ℤ right.commit_order)
    then (if ltb_ℤ left.commit_order right.commit_order then Ordering.gt else Ordering.lt)
    else elim (strcmp right.started_at left.started_at) [
      | Ordering.lt ↦ Ordering.lt
      | Ordering.gt ↦ Ordering.gt
      | Ordering.eq ↦ strcmp right.session_id left.session_id
    ]

abbrev pub not_after : OwnedRecord → OwnedRecord → Bool
not_after left right = elim (record_compare_descending left right) [
  | Ordering.gt ↦ false
  | _ ↦ true
]

unfoldable pub insert : OwnedRecord → List OwnedRecord → List OwnedRecord
unfolding record_compare_descending
insert r [] = r ∷ []
insert r (x ∷ xs) = if not_after r x then r ∷ x ∷ xs else x ∷ insert r xs

-- qsort: the records in the order of the comparison.
unfoldable pub sort : List OwnedRecord → List OwnedRecord
unfolding insert
sort [] = []
sort (x ∷ xs) = insert x (sort xs)

abbrev sorted_set : Scan RecordSet → Scan (List OwnedRecord)
sorted_set (scan_failed status) = scan_failed status
sorted_set (scanned set) = scanned (sort set.values)

unfoldable pub scan_records : System → Directory → Scan (List OwnedRecord)
unfolding scan_entries sort
scan_records system directory =
    if not system.directory_opened
    then scan_failed corrupt_journal
    else sorted_set (scan_entries system empty_set directory)

pub Scan-cases {ℓ} :
    {A : Type ℓ} (s : Scan A)
    → ((status : LookupStatus) × (s ≡ scan_failed status)) ⊎ ((a : A) × (s ≡ scanned a))
Scan-cases (scanned a) = inr (a, refl)
Scan-cases (scan_failed status) = inl (status, refl)
