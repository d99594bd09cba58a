-- ===== src/Session/Journal/Recorded.antt =====
-- What a write of a new session does when every system call succeeds: it is recorded, unless the
-- journal already holds as many records as a scan can.
use universal_launcher.Prelude.{
  ℕ, zero, suc, ◌+◌, ◌-◌, ◌≤◌, ◌<◌, ◌≡◌, refl, ◌∙◌, inl, inr, true, some, List, [], ◌∷◌, ◌++◌,
  arith, Bool-cases, length, drop, length-append, Bytes, bytes_eq_refl, pos, ◌==ℤ◌,
}
use universal_launcher.Session.Builder.{TextBuilder, empty_builder}
use universal_launcher.Session.Record.{OwnedRecord, max_records, max_file_bytes}
use universal_launcher.Session.Codec.{loaded, parse_record, serialize_record}
use universal_launcher.Session.Codec.RoundTrip.{IsStorable}
use universal_launcher.Session.Codec.Stored.{serialize-parse}
use universal_launcher.Session.Files.{
  Directory, System, scanned, scan_failed, corrupt_journal, scan_records, sort, insert, not_after,
  suffix, file_name, has_session_suffix,
}
use universal_launcher.Session.Files.Scanning.{
  IsHealthy, Loads, no_file, other_file, record_file, scan_records-Loads, scan_records-overflow,
}
use universal_launcher.Session.Atomic.{write_file_atomic}
use universal_launcher.Session.Atomic.Replacing.{
  HasNoFile, drop-length, temporary_lem, write_file_atomic_lem,
}
use universal_launcher.Session.Journal.{
  Journal, maximum_of, done, failed, session_commit_verification_failed, admitted, admit,
  assign_order, i64_max, retain, verify_and_retain, commit, write_admitted, write_locked,
}

Loads-append :
    (files : Directory) (rs : List OwnedRecord) (name text : Bytes) (r : OwnedRecord)
    → Loads files rs
    → has_session_suffix name ≡ true
    → length text ≤ max_file_bytes
    → parse_record text ≡ loaded r
    → Loads (files ++ (name, text) ∷ []) (rs ++ r ∷ [])
Loads-append _ _ name text r no_file s l p = record_file s l p no_file
Loads-append _ _ name text r (other_file {files = files} {records = rs} o rest) s l p =
    other_file o (Loads-append files rs name text r rest s l p)
Loads-append _ _ name text r (record_file {files = files} {records = rs} o k e rest) s l p =
    record_file o k e (Loads-append files rs name text r rest s l p)

length-insert : (r : OwnedRecord) (rs : List OwnedRecord) → length (insert r rs) ≡ length rs + 1
unfolding insert
length-insert r [] = refl
length-insert r (x ∷ xs) = elim (Bool-cases (not_after r x)) [
  | inl e ↦ rw (e) (omega arith)
  | inr e ↦ rw (e) (omega (arith, length-insert r xs))
]

length-sort : (rs : List OwnedRecord) → length (sort rs) ≡ length rs
unfolding sort
length-sort [] = refl
length-sort (r ∷ rs) = omega (arith, length-insert r (sort rs), length-sort rs)

drop_all : (n : ℕ) (rs : List OwnedRecord) → length rs ≤ n → drop n rs ≡ []
drop_all zero [] h = refl
drop_all (suc n) [] h = refl
drop_all zero (x ∷ xs) h = absurd (omega arith)
drop_all (suc n) (x ∷ xs) h = drop_all n xs (omega arith)

suffix_lem : (r : OwnedRecord) → 0 < length r.session_id → has_session_suffix (file_name r) ≡ true
unfolding has_session_suffix
suffix_lem r h =
    let l = length-append r.session_id suffix in
    let n : length (file_name r) - 8 ≡ length r.session_id = omega (arith, l) in
    rw (n) (rw (drop-length r.session_id suffix) (ground (arith, l, bytes_eq_refl suffix)))

module _ (system later : System) (healthy : IsHealthy system) (healthy_later : IsHealthy later)
    (journal : Journal) (q : OwnedRecord) (files : Directory) (rs : List OwnedRecord) (m : ℕ) where
  -- The record with the order that it gets.
  abbrev pub recorded : OwnedRecord
  recorded = record q { commit_order = pos (m + 1) }

  assign_new : m < i64_max → assign_order m (pos 0) ≡ done (pos (m + 1))
  unfolding assign_order ◌==ℤ◌
  assign_new h = ground arith

  commit_lem :
      (b : TextBuilder) (files' : Directory)
      → serialize_record system.text_grown recorded empty_builder ≡ some b
      → write_file_atomic system (file_name recorded) b.text files
        ≡ record { files = files'; ok = true }
      → commit system later journal recorded files ≡ verify_and_retain later journal files'
  unfolding commit
  commit_lem b files' e w =
      rw (e, commit) (rw (healthy.path_joined (file_name recorded)) (rw (w) refl))

  locked_lem :
      scan_records system files ≡ scanned (sort rs)
      → admit q 0 (pos 0) (sort rs) ≡ admitted m (pos 0)
      → m < i64_max
      → write_locked system later journal q files ≡ commit system later journal recorded files
  unfolding write_locked write_admitted
  locked_lem s a h = rw (s, write_locked) (rw (a) (rw (assign_new h, write_admitted) refl))

  verify_lem :
      (files' : Directory) (rs' : List OwnedRecord)
      → scan_records later files' ≡ scanned (sort rs')
      → length rs' ≤ maximum_of journal
      → verify_and_retain later journal files' ≡ record { files = files'; result = done tt }
  unfolding verify_and_retain retain
  verify_lem files' rs' s h =
      rw (s, verify_and_retain)
        (rw (drop_all (maximum_of journal) (sort rs') (omega (arith, length-sort rs'))) refl)

  overflow_lem :
      (files' : Directory)
      → scan_records later files' ≡ scan_failed corrupt_journal
      → verify_and_retain later journal files'
        ≡ record { files = files'; result = failed session_commit_verification_failed }
  unfolding verify_and_retain
  overflow_lem files' s = rw (s, verify_and_retain) refl

  -- The commit of the new record, after which the directory holds it as well.
  new_file :
      Loads files rs
      → HasNoFile (file_name q) files
      → 0 < length q.session_id
      → IsStorable recorded
      → (files' : Directory) × (commit system later journal recorded files
          ≡ verify_and_retain later journal files')
        × Loads files' (rs ++ recorded ∷ [])
  new_file loads absent named storable =
      let (b, e, back, fits) =
        serialize-parse recorded storable system.text_grown healthy.text_grown in
      let (rest, w, kept) =
        write_file_atomic_lem system (file_name q) b.text files rs healthy absent (temporary_lem q)
          loads in
      (
        rest ++ (file_name q, b.text) ∷ [],
        commit_lem b (rest ++ (file_name q, b.text) ∷ []) e w,
        Loads-append rest rs (file_name q) b.text recorded kept (suffix_lem q named) fits back,
      )

  -- When every system call succeeds before and after the commit, the directory holds fewer
  -- records than max_records and than the journal keeps, no file has the name of the request,
  -- which has a session identifier, the loop over the sorted records admits it as a new session
  -- with a largest order m below INT64_MAX, and the request with order m + 1 is storable, then
  -- the write reports success and the directory afterwards holds the old records and the request
  -- with order m + 1.
  pub write_locked-Loads :
      Loads files rs
      → length rs < max_records
      → length rs < maximum_of journal
      → HasNoFile (file_name q) files
      → 0 < length q.session_id
      → IsStorable recorded
      → m < i64_max
      → admit q 0 (pos 0) (sort rs) ≡ admitted m (pos 0)
      → ((write_locked system later journal q files).result ≡ done tt)
        × Loads (write_locked system later journal q files).files (rs ++ recorded ∷ [])
  write_locked-Loads loads room kept absent named storable order a =
      let (_, committed, grown) = new_file loads absent named storable in
      let n = length-append rs (recorded ∷ []) in
      let scanned_again = scan_records-Loads later healthy_later _ _ grown (omega (arith, n)) in
      let whole =
        locked_lem (scan_records-Loads system healthy files rs loads (omega arith)) a order
        ∙ committed
        ∙ verify_lem _ (rs ++ recorded ∷ []) scanned_again (omega (arith, n)) in
      rw (whole) (refl, grown)

  -- When every system call succeeds, the directory holds exactly max_records records, no file
  -- has the name of the request, which has a session identifier, the loop over the sorted
  -- records admits it as a new session with a largest order m below INT64_MAX, and the request
  -- with order m + 1 is storable, then the write fails with session_commit_verification_failed
  -- and a scan of the directory that it leaves reports a corrupt journal.
  pub write_locked-overflow :
      Loads files rs
      → length rs ≡ max_records
      → HasNoFile (file_name q) files
      → 0 < length q.session_id
      → IsStorable recorded
      → m < i64_max
      → admit q 0 (pos 0) (sort rs) ≡ admitted m (pos 0)
      → ((write_locked system later journal q files).result
          ≡ failed session_commit_verification_failed)
        × (scan_records later (write_locked system later journal q files).files
            ≡ scan_failed corrupt_journal)
  write_locked-overflow loads full absent named storable order a =
      let (_, committed, grown) = new_file loads absent named storable in
      let n = length-append rs (recorded ∷ []) in
      let fails = scan_records-overflow later healthy_later _ _ grown (omega (arith, n)) in
      let whole =
        locked_lem (scan_records-Loads system healthy files rs loads (omega arith)) a order
        ∙ committed
        ∙ overflow_lem _ fails in
      rw (whole) (refl, fails)
