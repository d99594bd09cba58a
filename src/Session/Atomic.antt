-- ===== src/Session/Atomic.antt =====
-- runtime/launcher/kernel/ulk_session.c: `ulk_write_file_atomic` and `ulk_remove_file`, the calls that
-- change the sessions directory.
pub mod Discarding
pub mod Replacing
use universal_launcher.Prelude.{
  ℕ, zero, suc, ◌+◌, ◌-◌, ◌*◌, ◌/◌, ◌%◌, ◌^◌, ◌≤◌, ◌<◌, ◌≡◌, refl, sym, ap, ◌∙◌, ◌≢◌, ◌↔◌, ◌⊎◌, inl,
  inr, Bool, true, false, not, ◌&&◌, ◌||◌, Option, none, some, List, [], ◌∷◌, ◌++◌, append_assoc,
  append-nil, arith, ltb, leb, ◌==◌, if◌then◌else◌, ltb→lt, lt→ltb, ltb-false, leb→le, ==_iff,
  tests, Bool-cases, Option-cases, and_true, ◌>>=◌, ◌>>◌, guard, >>=-eq-some, length, all, is_nil,
  take, drop, length-append, All, All-append, All-mono, Any, All-Any, Bytes, codes, bytes_eq,
  bytes_eq_iff, bytes_eq_refl, c_string, IsTextByte, IsText, c_string-IsText, Lacks, between, ℤ,
  pos, negsuc, ◌==ℤ◌, ==ℤ_iff, ltb_ℤ,
}
use universal_launcher.Session.Files.{Directory, System}

-- fopen with "wb", and the bytes that then stand in the file: it is created, or its old contents are
-- dropped.
unfoldable pub put_file : Bytes → Bytes → Directory → Directory
put_file name text [] = (name, text) ∷ []
put_file name text ((other, held) ∷ files) =
    if bytes_eq other name then (name, text) ∷ files else (other, held) ∷ put_file name text files

-- unlink, which fails where there is no such file.
unfoldable pub remove_file : Bytes → Directory → Option Directory
remove_file name [] = none
remove_file name ((other, held) ∷ files) =
    let rest = remove_file name files in
    if bytes_eq other name
    then some files
    else elim rest [ none ↦ none | some files' ↦ some ((other, held) ∷ files') ]

-- The contents of the file of the name.
unfoldable pub find_file : Bytes → Directory → Option Bytes
find_file name [] = none
find_file name ((other, held) ∷ files) =
    let rest = find_file name files in if bytes_eq other name then some held else rest

-- rename: the contents go to the target, whose old file is replaced.
unfoldable pub replace_file : Bytes → Bytes → Directory → Option Directory
unfolding find_file remove_file put_file
replace_file source target files = do
  text ← find_file source files
  rest ← remove_file source files
  some (put_file target text rest)

-- "%s.tmp"
abbrev pub temporary_name : Bytes → Bytes
temporary_name target = target ++ codes ".tmp"

-- The directory that an atomic write leaves, and the int that it returns.
pub record Replaced : Type 0 where
  pub files : Directory
  pub ok : Bool

-- fwrite, fflush, fsync and fclose, in this order; each is only asked when the former succeeded, except
-- that fclose is always called.
unfoldable pub write_ok : System → Bytes → Bytes → Bool
write_ok system temporary text =
    (is_nil text || (system.bytes_written temporary (length text) == length text))
    && system.file_flushed temporary
    && system.file_synced temporary
    && system.file_closed temporary

-- After a failed step, the system decides how many bytes have reached the file.
abbrev pub written_text : System → Bytes → Bytes → Bytes
written_text system temporary text =
    if write_ok system temporary text then text else take (system.bytes_kept temporary) text

-- `(void)ulk_remove_file(temporary)`
unfoldable pub discard_file : System → Bytes → Directory → Directory
unfolding remove_file
discard_file system temporary files = elim (system.file_removed temporary) [
  | false ↦ files
  | true ↦ elim (remove_file temporary files) [ none ↦ files | some files' ↦ files' ]
]

unfoldable pub write_file_atomic : System → Bytes → Bytes → Directory → Replaced
unfolding put_file write_ok replace_file discard_file
write_file_atomic system target text files =
    let temporary = temporary_name target in
    let filled = put_file temporary (written_text system temporary text) files in
    let gone : Replaced = record { files = discard_file system temporary filled; ok = false } in
    if not (system.temporary_named target)
    then record { files = files; ok = false }
    else if not (system.file_opened temporary)
    then record { files = files; ok = false }
    else elim (write_ok system temporary text && system.file_renamed temporary) [
      | false ↦ gone
      | true ↦ elim (replace_file temporary target filled) [
        | none ↦ gone
        | some files' ↦ record { files = files'; ok = true }
      ]
    ]
