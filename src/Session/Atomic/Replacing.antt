-- ===== src/Session/Atomic/Replacing.antt =====
-- What an atomic write does when every call succeeds: the new contents stand under the target's name.
use universal_launcher.Prelude.{
  ◌-◌, ◌≡◌, refl, sym, ap, ◌∙◌, ◌≢◌, ◌⊎◌, inl, inr, true, false, some, List, [], ◌∷◌, ◌++◌,
  append_assoc, arith, Bool-cases, Option-cases, length, drop, length-append, All, Bytes, codes,
  bytes_eq, bytes_eq_iff, bytes_eq_refl,
}
use mathlib.Core.Path.{subst}
use universal_launcher.Session.Record.{OwnedRecord}
use universal_launcher.Session.Files.{Directory, System, has_session_suffix, suffix, file_name}
use universal_launcher.Session.Files.Scanning.{IsHealthy, Loads, no_file, other_file, record_file}
use universal_launcher.Session.Atomic.{
  put_file, remove_file, find_file, replace_file, temporary_name, written_text, write_ok,
  write_file_atomic,
}

-- No file has the name.
abbrev pub HasNoFile : Bytes → Directory → Type 0
HasNoFile name files = All (λ f. f.0 ≢ name) files

find-put :
    (name text : Bytes) (files : Directory) → find_file name (put_file name text files) ≡ some text
unfolding find_file put_file
find-put name text [] = ground (arith, bytes_eq_refl name)
find-put name text ((other, held) ∷ files) = elim (Bool-cases (bytes_eq other name)) [
  | inl same ↦ ground (arith, same, bytes_eq_refl name)
  | inr off ↦ ground (arith, off, find-put name text files)
]

remove-put :
    (name text : Bytes) (files : Directory)
    → (rest : Directory) × (remove_file name (put_file name text files) ≡ some rest)
unfolding remove_file put_file
remove-put name text [] = ([], ground (arith, bytes_eq_refl name))
remove-put name text ((other, held) ∷ files) = elim (Bool-cases (bytes_eq other name)) [
  | inl same ↦ (files, ground (arith, same, bytes_eq_refl name))
  | inr off ↦
      let (rest, e) = remove-put name text files in
      ((other, held) ∷ rest, rw (off, put_file) (rw (off) (rw (e) refl)))
]

other_name :
    (other name : Bytes)
    → other ≡ name
    → has_session_suffix other ≡ true
    → has_session_suffix name ≢ false
other_name other name e o s = ground (arith, sym o ∙ ap has_session_suffix e ∙ s)

-- The first file is the one that is removed, or it stays before what is left of the others.
step :
    (name other held : Bytes) (files rest : Directory)
    → remove_file name ((other, held) ∷ files) ≡ some rest
    → ((other ≡ name) × (files ≡ rest))
      ⊎ ((rest' : Directory) × ((other, held) ∷ rest' ≡ rest)
          × (remove_file name files ≡ some rest'))
unfolding remove_file
step name other held files rest h = elim (Bool-cases (bytes_eq other name)) [
  | inl same ↦ inl ((bytes_eq_iff other name).0 same, ground (arith, same, h))
  | inr off ↦ elim (Option-cases (remove_file name files)) [
    | inl e ↦ absurd (ground (arith, off, e, h))
    | inr (fs, e) ↦ inr (fs, ground (arith, off, e, h), e)
  ]
]

Loads-put :
    (name text : Bytes) (files : Directory) (rs : List OwnedRecord)
    → has_session_suffix name ≡ false
    → Loads files rs
    → Loads (put_file name text files) rs
unfolding put_file
Loads-put name text _ _ s no_file = other_file s no_file
Loads-put name text _ _ s (other_file {name = other} {files = files} {records = rs} o rest) =
    elim (Bool-cases (bytes_eq other name)) [
      | inl same ↦ rw (same) (other_file s rest)
      | inr off ↦ rw (off) (other_file o (Loads-put name text files rs s rest))
    ]
Loads-put name text _ _ s (record_file {name = other} {files = files} {records = rs} o l p rest) =
    elim (Bool-cases (bytes_eq other name)) [
      | inl same ↦ absurd (other_name other name ((bytes_eq_iff other name).0 same) o s)
      | inr off ↦ rw (off) (record_file o l p (Loads-put name text files rs s rest))
    ]

Loads-remove :
    (name : Bytes) (files rest : Directory) (rs : List OwnedRecord)
    → has_session_suffix name ≡ false
    → remove_file name files ≡ some rest
    → Loads files rs
    → Loads rest rs
unfolding remove_file
Loads-remove name _ rest _ s h no_file = absurd (ground (arith, h))
Loads-remove name _ rest _ s h
      (other_file {name = other} {contents = held} {files = files} {records = rs} o loads) =
    elim (step name other held files rest h) [
      | inl (same, e) ↦ subst (λ x. Loads x rs) e loads
      | inr (rest', e, r) ↦
          subst (λ x. Loads x rs) e (other_file o (Loads-remove name files rest' rs s r loads))
    ]
Loads-remove name _ rest _ s h
      (record_file {name = other} {contents = held} {files = files} {r = r} {records = rs} o l p
        loads) =
    elim (step name other held files rest h) [
      | inl (same, e) ↦ absurd (other_name other name same o s)
      | inr (rest', e, f) ↦
          subst (λ x. Loads x (r ∷ rs)) e
            (record_file o l p (Loads-remove name files rest' rs s f loads))
    ]

HasNoFile-put :
    (other name text : Bytes) (files : Directory)
    → name ≢ other
    → HasNoFile other files
    → HasNoFile other (put_file name text files)
unfolding put_file
HasNoFile-put other name text [] off h = (off, tt)
HasNoFile-put other name text ((head, held) ∷ files) off h =
    elim (Bool-cases (bytes_eq head name)) [
      | inl same ↦ rw (same) (off, h.1)
      | inr differs ↦ rw (differs) (h.0, HasNoFile-put other name text files off h.1)
    ]

HasNoFile-remove :
    (other name : Bytes) (files rest : Directory)
    → remove_file name files ≡ some rest
    → HasNoFile other files
    → HasNoFile other rest
unfolding remove_file
HasNoFile-remove other name [] rest e h = absurd (ground (arith, e))
HasNoFile-remove other name ((head, held) ∷ files) rest e h =
    elim (step name head held files rest e) [
      | inl (same, e') ↦ subst (λ x. HasNoFile other x) e' h.1
      | inr (rest', e', r) ↦
          subst (λ x. HasNoFile other x) e' (h.0, HasNoFile-remove other name files rest' r h.1)
    ]

put_file-append :
    (name text : Bytes) (files : Directory)
    → HasNoFile name files
    → put_file name text files ≡ files ++ (name, text) ∷ []
unfolding put_file
put_file-append name text [] h = refl
put_file-append name text ((other, held) ∷ files) h = elim (Bool-cases (bytes_eq other name)) [
  | inl same ↦ absurd (h.0 ((bytes_eq_iff other name).0 same))
  | inr off ↦
      rw (off) (ap (λ (x : Directory). (other, held) ∷ x) (put_file-append name text files h.1))
]

write_lem :
    (system : System) (name text : Bytes) → IsHealthy system → write_ok system name text ≡ true
unfolding write_ok
write_lem system name text healthy = ground (
  arith,
  healthy.bytes_written name (length text),
  healthy.file_flushed name,
  healthy.file_synced name,
  healthy.file_closed name,
)

-- With every call answered, an atomic write adds the file of a new name, and the directory holds the
-- records that it held, since the temporary file is none of them.
pub write_file_atomic_lem :
    (system : System) (target text : Bytes) (files : Directory) (rs : List OwnedRecord)
    → IsHealthy system
    → HasNoFile target files
    → has_session_suffix (temporary_name target) ≡ false
    → Loads files rs
    → (rest : Directory) × (write_file_atomic system target text files
        ≡ record { files = rest ++ (target, text) ∷ []; ok = true })
      × Loads rest rs
unfolding write_file_atomic replace_file
write_file_atomic_lem system target text files rs healthy absent s loads =
    let temporary = temporary_name target in
    let w = write_lem system temporary text healthy in
    let (rest, e) = remove-put temporary text files in
    let differs : temporary ≢ target =
      λ same. omega (arith, ap length same, length-append target (codes ".tmp")) in
    let none_left =
      HasNoFile-remove target temporary _ rest e
        (HasNoFile-put target temporary text files differs absent) in
    let wt : written_text system temporary text ≡ text = ground (arith, w) in
    let moved : replace_file temporary target (put_file temporary text files)
        ≡ some (rest ++ (target, text) ∷ []) =
      rw (find-put temporary text files, replace_file)
        (rw (e) (rw (put_file-append target text rest none_left) refl)) in
    let replaced =
      ap (λ t. replace_file temporary target (put_file temporary t files)) wt ∙ moved in
    (
      rest,
      rw (healthy.temporary_named target, write_file_atomic)
          (rw (healthy.file_opened temporary)
            (rw (w) (rw (healthy.file_renamed temporary) (rw (replaced) refl)))),
      Loads-remove temporary _ rest rs s e (Loads-put temporary text files rs s loads),
    )

pub drop-length : (s t : Bytes) → drop (length s) (s ++ t) ≡ t
drop-length [] t = refl
drop-length (x ∷ s) t = drop-length s t

-- A temporary file is not a record file.
pub temporary_lem : (r : OwnedRecord) → has_session_suffix (temporary_name (file_name r)) ≡ false
unfolding has_session_suffix bytes_eq
temporary_lem r =
    let front = r.session_id ++ codes ".ses" in
    let e : temporary_name (file_name r) ≡ front ++ codes "sion.tmp" =
      append_assoc r.session_id suffix (codes ".tmp")
      ∙ sym (append_assoc r.session_id (codes ".ses") (codes "sion.tmp")) in
    let n : length (front ++ codes "sion.tmp") - 8 ≡ length front =
      omega (arith, length-append front (codes "sion.tmp")) in
    let differs : bytes_eq (codes "sion.tmp") suffix ≡ false = refl in
    rw (e) (rw (n) (rw (drop-length front (codes "sion.tmp")) (rw (differs) (ground arith))))
