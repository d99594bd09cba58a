-- ===== src/Registry/Graph/Rows.antt =====
-- The rows of the graph: one for each name, with the metadata of the registered command, or else of the
-- built-in one.
use universal_launcher.Prelude.{
  ◌≡◌, refl, sym, ap, ◌∙◌, inl, inr, true, false, Option, none, some, List, [], ◌∷◌, ◌++◌, arith,
  ◌==◌, if◌then◌else◌, Bool-cases, Option-cases, length, All, Bytes, bytes_eq, bytes_eq_iff,
  c_string,
}
use mathlib.Core.Path.{subst}
use universal_launcher.View.{at}
use universal_launcher.Registry.Names.{string_equals}
use universal_launcher.Registry.Model.{Entry}
use universal_launcher.Registry.Store.{find_registered}
use universal_launcher.Registry.Lookup.{name_of, IsNamed, names_entry_lem}
use universal_launcher.Registry.Metadata.{
  Metadata, find_row, find_builtin, metadata_from_registered, command_is_builtin, row_of,
  builtin_rows, registered_rows,
}

-- A name without a zero byte.
abbrev pub IsPlain : Entry → Type 0
IsPlain e = c_string (name_of e) ≡ name_of e

abbrev pub row_name : Metadata → Bytes
row_name row = row.fields.command_name

-- No two rows have the same name.
abbrev pub IsDistinctRows : List Metadata → Type 0
IsDistinctRows [] = Unit
IsDistinctRows (row ∷ rows) = (find_row rows (at (row_name row)) ≡ none) × IsDistinctRows rows

-- What the graph says of a name.
unfoldable pub advertised : List Entry → Bytes → Option Metadata
unfolding find_registered find_builtin metadata_from_registered
advertised entries k = elim (find_registered entries (at k)) [
  | none ↦ find_builtin (at k)
  | some e ↦ some (metadata_from_registered e)
]

string_equals_lem : (k name : Bytes) → string_equals (at k) name ≡ bytes_eq k name
unfolding string_equals
string_equals_lem k name = elim (Bool-cases (bytes_eq k name)) [
  | inl same ↦ ground (arith, same, ap length ((bytes_eq_iff k name).0 same))
  | inr off ↦ elim (Bool-cases (length k == length name)) [
    | inl l ↦ ground (arith, off, l)
    | inr l ↦ ground (arith, off, l)
  ]
]

find_row_step :
    (row : Metadata) (rows : List Metadata) (k : Bytes)
    → find_row (row ∷ rows) (at k)
      ≡ (if bytes_eq k (row_name row) then some row else find_row rows (at k))
unfolding find_row
find_row_step row rows k = rw (string_equals_lem k (row_name row)) refl

pub find_row-append :
    (xs ys : List Metadata) (k : Bytes)
    → find_row xs (at k) ≡ none
    → find_row (xs ++ ys) (at k) ≡ find_row ys (at k)
unfolding find_row
find_row-append [] ys k h = refl
find_row-append (x ∷ xs) ys k h = ground (arith, h, find_row-append xs ys k)

pub find_row-found :
    (xs ys : List Metadata) (k : Bytes) (row : Metadata)
    → find_row xs (at k) ≡ some row
    → find_row (xs ++ ys) (at k) ≡ some row
unfolding find_row
find_row-found [] ys k row h = absurd (ground (arith, h))
find_row-found (x ∷ xs) ys k row h = ground (arith, h, find_row-found xs ys k row)

pub row_found :
    (rows : List Metadata) (k : Bytes) (row : Metadata)
    → find_row rows (at k) ≡ some row
    → row_name row ≡ k
unfolding find_row
row_found [] k row h = absurd (ground (arith, h))
row_found (x ∷ rows) k row h = elim (Bool-cases (bytes_eq k (row_name x))) [
  | inl same ↦
      let e : x ≡ row = ground (arith, find_row_step x rows k, same, h) in
      sym (ap row_name e) ∙ sym ((bytes_eq_iff k (row_name x)).0 same)
  | inr off ↦ row_found rows k row (ground (arith, find_row_step x rows k, off, h))
]

-- A registered command that a name finds has this name.
entry_found :
    (entries : List Entry) (k : Bytes) (e : Entry)
    → All IsNamed entries
    → All IsPlain entries
    → find_registered entries (at k) ≡ some e
    → row_name (metadata_from_registered e) ≡ k
unfolding find_registered metadata_from_registered
entry_found [] k e n p h = absurd (ground (arith, h))
entry_found (x ∷ entries) k e n p h = elim (Bool-cases (bytes_eq k (name_of x))) [
  | inl same ↦
      let found : x ≡ e = ground (arith, names_entry_lem x k n.0, same, h) in
      subst (λ (y : Entry). c_string (name_of y) ≡ k) found
        (p.0 ∙ sym ((bytes_eq_iff k (name_of x)).0 same))
  | inr off ↦ entry_found entries k e n.1 p.1 (ground (arith, names_entry_lem x k n.0, off, h))
]

module _ (entries : List Entry) (named : All IsNamed entries) (plain : All IsPlain entries) where
  pub row_of-some :
      (row : Metadata) (x : Entry)
      → find_registered entries (at (row_name row)) ≡ some x
      → row_of entries row ≡ metadata_from_registered x
  unfolding row_of
  row_of-some row x e = rw (e, row_of) refl

  pub row_of-none :
      (row : Metadata)
      → find_registered entries (at (row_name row)) ≡ none
      → row_of entries row ≡ row
  unfolding row_of
  row_of-none row e = rw (e, row_of) refl

  pub row_of-name : (row : Metadata) → row_name (row_of entries row) ≡ row_name row
  row_of-name row = elim (Option-cases (find_registered entries (at (row_name row)))) [
    | inl e ↦ ap row_name (row_of-none row e)
    | inr (x, e) ↦
        ap row_name (row_of-some row x e) ∙ entry_found entries (row_name row) x named plain e
  ]

  pub builtin_absent :
      (rows : List Metadata) (k : Bytes)
      → find_row rows (at k) ≡ none
      → find_row (builtin_rows entries rows) (at k) ≡ none
  unfolding builtin_rows find_row
  builtin_absent [] k h = refl
  builtin_absent (row ∷ rows) k h = ground (
    arith,
    h,
    find_row_step row rows k,
    find_row_step (row_of entries row) (builtin_rows entries rows) k,
    row_of-name row,
    builtin_absent rows k,
  )

  pub builtin_present :
      (rows : List Metadata) (k : Bytes) (row : Metadata)
      → find_row rows (at k) ≡ some row
      → find_row (builtin_rows entries rows) (at k) ≡ some (row_of entries row)
  unfolding builtin_rows find_row
  builtin_present [] k row h = absurd (ground (arith, h))
  builtin_present (x ∷ rows) k row h =
      let head = find_row_step x rows k in
      let head' =
        find_row_step (row_of entries x) (builtin_rows entries rows) k
        ∙ ap
            (λ (n : Bytes).
              if bytes_eq k n
              then some (row_of entries x)
              else find_row (builtin_rows entries rows) (at k))
            (row_of-name x) in
      elim (Bool-cases (bytes_eq k (row_name x))) [
        | inl same ↦
            let e : x ≡ row = ground (arith, head, same, h) in
            head' ∙ rw (same) (ap (λ (r : Metadata). some (row_of entries r)) e)
        | inr off ↦ head' ∙ rw (off) (builtin_present rows k row (ground (arith, head, off, h)))
      ]

  pub IsDistinctRows-builtin_rows :
      (rows : List Metadata) → IsDistinctRows rows → IsDistinctRows (builtin_rows entries rows)
  unfolding builtin_rows
  IsDistinctRows-builtin_rows [] d = tt
  IsDistinctRows-builtin_rows (row ∷ rows) d = (
    builtin_absent rows (row_name (row_of entries row))
        (subst (λ (n : Bytes). find_row rows (at n) ≡ none) (sym (row_of-name row)) d.0),
    IsDistinctRows-builtin_rows rows d.1,
  )

head_lem :
    (x : Entry) (entries : List Entry) (k : Bytes)
    → k ≡ c_string (name_of x)
    → find_row (metadata_from_registered x ∷ registered_rows entries) (at k)
      ≡ some (metadata_from_registered x)
unfolding metadata_from_registered
head_lem x entries k e =
    find_row_step (metadata_from_registered x) (registered_rows entries) k
    ∙ rw ((bytes_eq_iff k (c_string (name_of x))).1 e) refl

later_lem :
    (x : Entry) (entries : List Entry) (k : Bytes)
    → bytes_eq k (c_string (name_of x)) ≡ false
    → find_row (metadata_from_registered x ∷ registered_rows entries) (at k)
      ≡ find_row (registered_rows entries) (at k)
unfolding metadata_from_registered
later_lem x entries k e =
    find_row_step (metadata_from_registered x) (registered_rows entries) k ∙ rw (e) refl

-- A registered command with the name of a built-in one has no row among the registered ones.
pub builtin_name :
    (entries : List Entry) (k : Bytes)
    → All IsPlain entries
    → command_is_builtin k ≡ true
    → find_row (registered_rows entries) (at k) ≡ none
unfolding registered_rows find_row metadata_from_registered
builtin_name [] k p h = refl
builtin_name (x ∷ entries) k p h =
    let rest = builtin_name entries k p.1 h in
    elim (Bool-cases (command_is_builtin (c_string (name_of x)))) [
      | inl skipped ↦ rw (skipped, registered_rows) rest
      | inr kept ↦ elim (Bool-cases (bytes_eq k (c_string (name_of x)))) [
        | inl same ↦
            absurd (ground (arith, kept, h, ap command_is_builtin ((bytes_eq_iff _ _).0 same)))
        | inr off ↦ rw (kept, registered_rows) (later_lem x entries k off ∙ rest)
      ]
    ]

-- Any other name finds the registered command.
pub other_name :
    (entries : List Entry) (k : Bytes)
    → All IsNamed entries
    → All IsPlain entries
    → command_is_builtin k ≡ false
    → find_registered entries (at k) ≡ none
    → find_row (registered_rows entries) (at k) ≡ none
unfolding registered_rows find_row find_registered metadata_from_registered
other_name [] k n p h f = refl
other_name (x ∷ entries) k n p h f =
    let f' : find_registered entries (at k) ≡ none = ground (arith, f) in
    let off : bytes_eq k (name_of x) ≡ false = ground (arith, f, names_entry_lem x k n.0) in
    let off' : bytes_eq k (c_string (name_of x)) ≡ false = ap (bytes_eq k) p.0 ∙ off in
    let rest = other_name entries k n.1 p.1 h f' in
    elim (Bool-cases (command_is_builtin (c_string (name_of x)))) [
      | inl skipped ↦ rw (skipped, registered_rows) rest
      | inr kept ↦ rw (kept, registered_rows) (later_lem x entries k off' ∙ rest)
    ]

pub registered_name :
    (entries : List Entry) (k : Bytes) (e : Entry)
    → All IsNamed entries
    → All IsPlain entries
    → command_is_builtin k ≡ false
    → find_registered entries (at k) ≡ some e
    → find_row (registered_rows entries) (at k) ≡ some (metadata_from_registered e)
unfolding registered_rows find_row find_registered
registered_name [] k e n p h f = absurd (ground (arith, f))
registered_name (x ∷ entries) k e n p h f = elim (Bool-cases (bytes_eq k (name_of x))) [
  | inl same ↦
      let found : x ≡ e = ground (arith, f, names_entry_lem x k n.0, same) in
      let plain_name : k ≡ c_string (name_of x) = (bytes_eq_iff k (name_of x)).0 same ∙ sym p.0 in
      let kept : command_is_builtin (c_string (name_of x)) ≡ false =
        ap command_is_builtin (sym plain_name) ∙ h in
      rw (kept, registered_rows)
        (head_lem x entries k plain_name
          ∙ ap (λ (y : Entry). some (metadata_from_registered y)) found)
  | inr off ↦
      let rest =
        registered_name entries k e n.1 p.1 h (ground (arith, f, names_entry_lem x k n.0, off)) in
      let off' : bytes_eq k (c_string (name_of x)) ≡ false = ap (bytes_eq k) p.0 ∙ off in
      elim (Bool-cases (command_is_builtin (c_string (name_of x)))) [
        | inl skipped ↦ rw (skipped, registered_rows) rest
        | inr kept ↦ rw (kept, registered_rows) (later_lem x entries k off' ∙ rest)
      ]
]
