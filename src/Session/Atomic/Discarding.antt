-- ===== src/Session/Atomic/Discarding.antt =====
-- What a failed atomic write leaves: nothing but perhaps its temporary file.
use universal_launcher.Prelude.{
  ◌≡◌, ap, ◌∙◌, inl, inr, false, some, [], ◌∷◌, arith, Bool-cases, Option-cases, Bytes, bytes_eq,
  bytes_eq_refl, if◌then◌else◌,
}
use universal_launcher.Session.Files.{Directory, System}
use universal_launcher.Session.Atomic.{
  put_file, remove_file, replace_file, temporary_name, written_text, discard_file,
  write_file_atomic,
}

-- The directory without the files of the name.
unfoldable pub without : Bytes → Directory → Directory
without name [] = []
without name ((other, held) ∷ files) =
    if bytes_eq other name then without name files else (other, held) ∷ without name files

without-put :
    (name text : Bytes) (files : Directory)
    → without name (put_file name text files) ≡ without name files
unfolding without put_file
without-put name text [] = ground (arith, bytes_eq_refl name)
without-put name text ((other, held) ∷ files) = elim (Bool-cases (bytes_eq other name)) [
  | inl same ↦ ground (arith, same, bytes_eq_refl name)
  | inr off ↦
      rw (off, put_file)
        (rw (off) (ap (λ (x : Directory). (other, held) ∷ x) (without-put name text files)))
]

without-remove :
    (name : Bytes) (files rest : Directory)
    → remove_file name files ≡ some rest
    → without name rest ≡ without name files
unfolding without remove_file
without-remove name [] rest h = cc
without-remove name ((other, held) ∷ files) rest h = elim (Bool-cases (bytes_eq other name)) [
  | inl same ↦ ground (arith, same, h)
  | inr off ↦ elim (Option-cases (remove_file name files)) [
    | inl e ↦ ground (arith, off, e, h)
    | inr (fs, e) ↦ ground (arith, off, e, h, without-remove name files fs e)
  ]
]

without-discard :
    (system : System) (name : Bytes) (files : Directory)
    → without name (discard_file system name files) ≡ without name files
unfolding discard_file
without-discard system name files = elim (Option-cases (remove_file name files)) [
  | inl e ↦ ground (arith, e)
  | inr (rest, e) ↦ ground (arith, e, without-remove name files rest e)
]

-- A failed atomic write changes no file but the temporary one.
pub write_file_atomic-without :
    (system : System) (target text : Bytes) (files : Directory)
    → (write_file_atomic system target text files).ok ≡ false
    → without (temporary_name target) (write_file_atomic system target text files).files
      ≡ without (temporary_name target) files
unfolding write_file_atomic
write_file_atomic-without system target text files h =
    let temporary = temporary_name target in
    let filled = put_file temporary (written_text system temporary text) files in
    let kept : without temporary (discard_file system temporary filled) ≡ without temporary files =
      without-discard system temporary filled
      ∙ without-put temporary (written_text system temporary text) files in
    elim (Option-cases (replace_file temporary target filled)) [
      | inl e ↦ ground (arith, e, kept)
      | inr (rest, e) ↦ ground (arith, e, kept)
    ]
