-- ===== src/Session/Journal/Refusal.antt =====
-- What the loop over the existing records lets through, and what a refused write leaves.
use universal_launcher.Prelude.{
  ◌≡◌, refl, ◌⊎◌, inl, inr, Bool-cases, Bytes, some, Option, List, [], ◌∷◌, arith, Option-cases,
  drop, ℤ, pos,
}
use universal_launcher.Session.Record.{SessionRecord, OwnedRecord}
use universal_launcher.Session.Builder.{empty_builder}
use universal_launcher.Session.Codec.{serialize_record}
use universal_launcher.Session.Files.{Directory, System, scan_records, file_name, Scan-cases}
use universal_launcher.Session.Journal.{
  Journal, Detail, session_commit_verification_failed, session_retention_failed,
  session_atomic_write_failed, Result, done, failed, Written, Admission, admitted, unchanged,
  refused, admit, assign_order, retain, verify_and_retain, under_lock, commit, write_admitted,
  write_locked, write_input, journal_write, maximum_of,
}
use universal_launcher.Session.Atomic.{remove_file, write_file_atomic, temporary_name}
use universal_launcher.Session.Atomic.Discarding.{without, write_file_atomic-without}

-- The failures after the commit, which leave the committed file.
abbrev pub IsAfterCommit : Detail → Type 0
IsAfterCommit d = (d ≡ session_commit_verification_failed) ⊎ (d ≡ session_retention_failed)

-- The name of the temporary file of a record.
abbrev pub temporary_of : OwnedRecord → Bytes
temporary_of r = temporary_name (file_name r)

-- A failure comes after the commit, or leaves the files as they were; only a failed atomic write may
-- also leave or drop the temporary file of the record.
abbrev pub KeepsFiles : OwnedRecord → Directory → Written → Type 0
KeepsFiles r files w =
    (d : Detail)
    → w.result ≡ failed d
    → IsAfterCommit d
      ⊎ (w.files ≡ files)
      ⊎ ((d ≡ session_atomic_write_failed)
          × (without (temporary_of r) w.files ≡ without (temporary_of r) files))

retain_fails :
    (system : System) (rs : List OwnedRecord) (files : Directory) (d : Detail)
    → (retain system rs files).result ≡ failed d
    → d ≡ session_retention_failed
unfolding retain
retain_fails system [] files d h = cc
retain_fails system (r ∷ rs) files d h = elim (Option-cases (remove_file (file_name r) files)) [
  | inl e ↦ ground (arith, e)
  | inr (files', e) ↦ ground (arith, e, retain_fails system rs files' d)
]

verify_fails :
    (later : System) (journal : Journal) (files : Directory) (d : Detail)
    → (verify_and_retain later journal files).result ≡ failed d
    → IsAfterCommit d
unfolding verify_and_retain
verify_fails later journal files d h = elim (Scan-cases (scan_records later files)) [
  | inl (status, e) ↦ ground (arith, e)
  | inr (records, e) ↦
      ground (arith, e, retain_fails later (drop (maximum_of journal) records) files d)
]

module _ (system later : System) (journal : Journal) (requested : OwnedRecord)
    (files : Directory) where
  commit_keeps : KeepsFiles requested files (commit system later journal requested files)
  unfolding commit
  commit_keeps d h =
      elim (Option-cases (serialize_record system.text_grown requested empty_builder)) [
        | inl e ↦ ground (arith, e)
        | inr (b, e) ↦
            let replaced = write_file_atomic system (file_name requested) b.text files in
            elim (Bool-cases replaced.ok) [
              | inl o ↦ ground (arith, e, o, verify_fails later journal replaced.files d)
              | inr o ↦ ground (
                arith,
                e,
                o,
                write_file_atomic-without system (file_name requested) b.text files o,
              )
            ]
      ]

module _ (system later : System) (journal : Journal) (requested : OwnedRecord)
    (files : Directory) where
  Result-cases : (r : Result ℤ) → ((d : Detail) × (r ≡ failed d)) ⊎ ((a : ℤ) × (r ≡ done a))
  Result-cases (done a) = inr (a, refl)
  Result-cases (failed d) = inl (d, refl)

  admitted_keeps :
      (a : Admission)
      → KeepsFiles requested files (write_admitted system later journal requested files a)
  unfolding write_admitted
  admitted_keeps (refused detail) d h = inr (inl refl)
  admitted_keeps unchanged d h = inr (inl refl)
  admitted_keeps (admitted maximum order) d h = elim (Result-cases (assign_order maximum order)) [
    | inl (x, e) ↦ ground (arith, e)
    | inr (o, e) ↦ ground (
      arith,
      e,
      commit_keeps system later journal (record requested { commit_order = o }) files d,
    )
  ]

  locked_keeps : KeepsFiles requested files (write_locked system later journal requested files)
  unfolding write_locked
  locked_keeps d h = elim (Scan-cases (scan_records system files)) [
    | inl (status, e) ↦ ground (arith, e)
    | inr (records, e) ↦ ground (arith, e, admitted_keeps (admit requested 0 (pos 0) records) d)
  ]

under_keeps :
    (system later : System) (journal : Journal) (requested : OwnedRecord) (files : Directory)
    → KeepsFiles requested files
        (under_lock system files (write_locked system later journal requested files))
unfolding write_locked
under_keeps system later journal requested files d h =
    ground (arith, locked_keeps system later journal requested files d)

-- Whatever the system answers, a journal write that returns an error, other than a failed re-
-- read after the commit or a failed retention, leaves every file of the sessions directory as it
-- was; only when the atomic write itself fails may one more file differ, the temporary one of
-- the record, named as the file of the record with .tmp at the end.
pub write_refused-keeps :
    (system later : System) (journal : Option Journal) (r : Option SessionRecord)
    (files : Directory) (d : Detail)
    → (journal_write system later journal r files).result ≡ failed d
    → IsAfterCommit d
      ⊎ ((journal_write system later journal r files).files ≡ files)
      ⊎ ((d ≡ session_atomic_write_failed)
          × (valid : Journal) × (requested : OwnedRecord) × (write_input journal r
              ≡ some (valid, requested))
          × (without (temporary_of requested) (journal_write system later journal r files).files
              ≡ without (temporary_of requested) files))
unfolding journal_write
write_refused-keeps system later journal r files d h = elim (Option-cases (write_input journal r)) [
  | inl e ↦ ground (arith, e)
  | inr ((valid, requested), e) ↦
      elim (under_keeps system later valid requested files d (ground (arith, e))) [
        | inl after ↦ inl after
        | inr (inl same) ↦ inr (inl (ground (arith, e, same)))
        | inr (inr (f, kept)) ↦ inr (inr (f, valid, requested, e, ground (arith, e, kept)))
      ]
]
