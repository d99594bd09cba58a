-- ===== src/Session/Journal/Immutable.antt =====
-- Writes that leave the journal as it is: a session that has ended, and a record that is there.
use universal_launcher.Prelude.{
  ℕ, ◌≡◌, refl, sym, ◌∙◌, ◌⊎◌, inl, inr, true, List, [], ◌∷◌, arith, All, Any, All-Any,
  bytes_eq_iff, ℤ, pos,
}
use universal_launcher.Session.Record.{OwnedRecord, state_code}
use universal_launcher.Session.Owned.{record_equal}
use universal_launcher.Session.Files.{Directory, System, scanned, scan_records}
use universal_launcher.Session.Journal.{
  Journal, done, Admission, admitted, unchanged, refused, admit, larger, write_admitted,
  write_locked,
}
use universal_launcher.Session.Journal.Admitted.{IsUnrelated, IsAdmissible, admit-IsAdmissible}

-- The record of the request's session, in its final state.
abbrev pub IsFinalOf : OwnedRecord → OwnedRecord → Type 0
IsFinalOf q e = (e.session_id ≡ q.session_id) × (state_code e.state ≡ pos 2)

final_conflict : (q e : OwnedRecord) → IsAdmissible q e → IsFinalOf q e → ⊥
final_conflict q e (inl u) f = absurd (u.0 f.0)
final_conflict q e (inr w) f = ground (arith, sym w.0 ∙ f.1)

module _ (system later : System) (journal : Journal) (q : OwnedRecord) (files : Directory) where
  final_keeps :
      (rs : List OwnedRecord) (a : Admission)
      → admit q 0 (pos 0) rs ≡ a
      → Any (IsFinalOf q) rs
      → (write_admitted system later journal q files a).files ≡ files
  unfolding write_admitted
  final_keeps rs (admitted m o) h f =
      let (e, fits, final) =
        All-Any (IsAdmissible q) (IsFinalOf q) rs (admit-IsAdmissible q rs m o h) f in
      absurd (final_conflict q e fits final)
  final_keeps rs unchanged h f = refl
  final_keeps rs (refused d) h f = refl

  -- When the scan finds a terminal record of the session that is written, the write changes no
  -- file, whatever else the scan finds and whatever the system answers.
  pub write_final-keeps :
      (rs : List OwnedRecord)
      → scan_records system files ≡ scanned rs
      → Any (IsFinalOf q) rs
      → (write_locked system later journal q files).files ≡ files
  unfolding write_locked
  write_final-keeps rs e f = ground (arith, e, final_keeps rs (admit q 0 (pos 0) rs) refl f)

  -- The same record again, beside unrelated ones.
  abbrev pub IsRepeat : OwnedRecord → Type 0
  IsRepeat e = (e.session_id ≡ q.session_id) × (record_equal e q ≡ true)

  admit-repeat :
      (rs : List OwnedRecord) (m : ℕ) (o : ℤ)
      → All (λ e. IsUnrelated q e ⊎ IsRepeat e) rs
      → Any IsRepeat rs
      → admit q m o rs ≡ unchanged
  unfolding admit
  admit-repeat [] m o h a = absurd a
  admit-repeat (e ∷ rs) m o (inr r, h) a = ground (arith, bytes_eq_iff e.session_id q.session_id)
  admit-repeat (e ∷ rs) m o (inl u, h) (inl r) = absurd (u.0 r.0)
  admit-repeat (e ∷ rs) m o (inl u, h) (inr a) = ground (
    arith,
    bytes_eq_iff e.session_id q.session_id,
    bytes_eq_iff e.operation_id q.operation_id,
    bytes_eq_iff e.attempt_id q.attempt_id,
    admit-repeat rs (larger m e.commit_order) o h a,
  )

  -- When the scan finds a record equal to the request under the same session, and only such
  -- records or unrelated ones, the write reports success and changes no file.
  pub write_repeat-done :
      (rs : List OwnedRecord)
      → scan_records system files ≡ scanned rs
      → All (λ e. IsUnrelated q e ⊎ IsRepeat e) rs
      → Any IsRepeat rs
      → write_locked system later journal q files ≡ record { files = files; result = done tt }
  unfolding write_locked write_admitted
  write_repeat-done rs e h a = ground (arith, e, admit-repeat rs 0 (pos 0) h a)
