-- ===== src/Registry/Lookup.antt =====
-- The registry as a finite map from command names to handlers.
use universal_launcher.Prelude.{
  ◌≡◌, refl, sym, ◌∙◌, inl, inr, true, false, none, some, List, [], ◌∷◌, ◌++◌, arith, if◌then◌else◌,
  Bool-cases, Option-cases, length, All, Bytes, bytes_eq, bytes_eq_iff, bytes_eq_refl,
}
use mathlib.Core.Path.{subst}
use universal_launcher.View.{at}
use universal_launcher.Registry.Model.{text_of, Entry}
use universal_launcher.Registry.Lifetime.{take_entry}
use universal_launcher.Registry.Store.{names_entry, find_registered}

abbrev pub name_of : Entry → Bytes
name_of e = text_of e.fields.command_name

-- The name stands in a block of its length.
abbrev pub IsNamed : Entry → Type 0
IsNamed e = e.command_name_size ≡ length (name_of e)

-- No two entries have the same name.
abbrev pub IsDistinct : List Entry → Type 0
IsDistinct [] = Unit
IsDistinct (e ∷ es) = (find_registered es (at (name_of e)) ≡ none) × IsDistinct es

names_entry_name : (k : Bytes) (e : Entry) → names_entry (at k) e ≡ true → name_of e ≡ k
unfolding names_entry
names_entry_name k e h = ground (arith, bytes_eq_iff (name_of e) k)

names_entry_self : (e : Entry) → IsNamed e → names_entry (at (name_of e)) e ≡ true
unfolding names_entry
names_entry_self e h = ground (arith, bytes_eq_refl (name_of e))

-- The entry that a list of entries with one more at the end answers.
pub find-append :
    (es : List Entry) (e : Entry) (k : Bytes)
    → find_registered es (at (name_of e)) ≡ none
    → find_registered (es ++ e ∷ []) (at k)
      ≡ (if names_entry (at k) e then some e else find_registered es (at k))
unfolding find_registered
find-append [] e k h = refl
find-append (x ∷ es) e k h = elim (Bool-cases (names_entry (at k) x)) [
  | inl m ↦ elim (Bool-cases (names_entry (at k) e)) [
    | inl n ↦
        let clash =
          subst (λ (z : Bytes). names_entry (at z) x ≡ true) (sym (names_entry_name k e n)) m in
        ground (arith, h, clash)
    | inr n ↦ ground (arith, m, n)
  ]
  | inr m ↦ ground (arith, m, find-append es e k)
]

first_find :
    (x : Entry) (es : List Entry) (v k : Bytes)
    → names_entry (at v) x ≡ true
    → find_registered es (at (name_of x)) ≡ none
    → find_registered es (at k) ≡ (if bytes_eq k v then none else find_registered (x ∷ es) (at k))
unfolding find_registered
first_find x es v k m d = elim (Bool-cases (bytes_eq k v)) [
  | inl same ↦
      let e = names_entry_name v x m ∙ sym ((bytes_eq_iff k v).0 same) in
      rw (same) (subst (λ (z : Bytes). find_registered es (at z) ≡ none) e d)
  | inr other ↦ elim (Bool-cases (names_entry (at k) x)) [
    | inl n ↦
        let e = sym (names_entry_name k x n) ∙ names_entry_name v x m in
        ground (arith, other, (bytes_eq_iff k v).1 e)
    | inr n ↦ ground (arith, other, n)
  ]
]

removed_first :
    (x : Entry) (es rest : List Entry) (v k : Bytes)
    → es ≡ rest
    → names_entry (at v) x ≡ true
    → find_registered es (at (name_of x)) ≡ none
    → find_registered rest (at k) ≡ (if bytes_eq k v then none else find_registered (x ∷ es) (at k))
removed_first x es rest v k h m d =
    subst
      (λ (l : List Entry).
        find_registered l (at k) ≡ (if bytes_eq k v then none else find_registered (x ∷ es) (at k)))
      h (first_find x es v k m d)

later_find :
    (x : Entry) (es others : List Entry) (v k : Bytes)
    → names_entry (at v) x ≡ false
    → find_registered others (at k) ≡ (if bytes_eq k v then none else find_registered es (at k))
    → find_registered (x ∷ others) (at k)
      ≡ (if bytes_eq k v then none else find_registered (x ∷ es) (at k))
unfolding find_registered
later_find x es others v k m ih = elim (Bool-cases (bytes_eq k v)) [
  | inl same ↦
      let off =
        subst (λ (z : Bytes). names_entry (at z) x ≡ false) (sym ((bytes_eq_iff k v).0 same)) m in
      ground (arith, same, off, ih)
  | inr other ↦ ground (arith, other, ih)
]

removed_later :
    (x : Entry) (es others rest : List Entry) (v k : Bytes)
    → names_entry (at v) x ≡ false
    → (x ∷ others) ≡ rest
    → find_registered others (at k) ≡ (if bytes_eq k v then none else find_registered es (at k))
    → find_registered rest (at k) ≡ (if bytes_eq k v then none else find_registered (x ∷ es) (at k))
removed_later x es others rest v k m h ih =
    subst
      (λ (l : List Entry).
        find_registered l (at k) ≡ (if bytes_eq k v then none else find_registered (x ∷ es) (at k)))
      h (later_find x es others v k m ih)

-- What removal leaves: the entry with the name is gone, the others answer as before.
pub take-find :
    (es rest : List Entry) (e : Entry) (v k : Bytes)
    → take_entry (at v) es ≡ some (e, rest)
    → IsDistinct es
    → All IsNamed es
    → find_registered rest (at k) ≡ (if bytes_eq k v then none else find_registered es (at k))
unfolding take_entry find_registered
take-find [] rest e v k h d n = ground arith
take-find (x ∷ es) rest e v k h d n = elim (Bool-cases (names_entry (at v) x)) [
  | inl m ↦ removed_first x es rest v k (ground (arith, h, m)) m d.0
  | inr m ↦ elim (Option-cases (take_entry (at v) es)) [
    | inl none_left ↦ ground (arith, h, m, none_left)
    | inr ((found, others), t) ↦
        removed_later x es others rest v k m (ground (arith, h, m, t))
          (take-find es others found v k t d.1 n.1)
  ]
]

-- A name that finds nothing is not the name of an entry of the list.
unnamed_first :
    (x : Entry) (es : List Entry) (e : Entry)
    → IsNamed x
    → find_registered (x ∷ es) (at (name_of e)) ≡ none
    → names_entry (at (name_of x)) e ≡ false
unfolding find_registered
unnamed_first x es e n h = elim (Bool-cases (names_entry (at (name_of x)) e)) [
  | inl m ↦
      let same =
        subst (λ (z : Bytes). names_entry (at z) x ≡ true) (sym (names_entry_name (name_of x) e m))
          (names_entry_self x n) in
      ground (arith, h, same)
  | inr m ↦ m
]

pub IsDistinct-append :
    (es : List Entry) (e : Entry)
    → IsDistinct es
    → All IsNamed es
    → find_registered es (at (name_of e)) ≡ none
    → IsDistinct (es ++ e ∷ [])
unfolding find_registered
IsDistinct-append [] e d n h = (refl, tt)
IsDistinct-append (x ∷ es) e d n h =
    let later : find_registered es (at (name_of e)) ≡ none = ground (arith, h) in
    (
      ground (arith, find-append es e (name_of x) later, unnamed_first x es e n.0 h, d.0),
      IsDistinct-append es e d.1 n.1 later,
    )

pub IsDistinct-take :
    (es rest : List Entry) (e : Entry) (v : Bytes)
    → take_entry (at v) es ≡ some (e, rest)
    → IsDistinct es
    → All IsNamed es
    → IsDistinct rest × All IsNamed rest
unfolding take_entry find_registered
IsDistinct-take [] rest e v h d n = ground arith
IsDistinct-take (x ∷ es) rest e v h d n = elim (Bool-cases (names_entry (at v) x)) [
  | inl m ↦
      let same : es ≡ rest = ground (arith, h, m) in
      subst (λ (l : List Entry). IsDistinct l × All IsNamed l) same (d.1, n.1)
  | inr m ↦ elim (Option-cases (take_entry (at v) es)) [
    | inl none_left ↦ ground (arith, h, m, none_left)
    | inr ((found, others), t) ↦
        let same : (x ∷ others) ≡ rest = ground (arith, h, m, t) in
        let (d', n') = IsDistinct-take es others found v t d.1 n.1 in
        let gone : find_registered others (at (name_of x)) ≡ none =
          ground (arith, take-find es others found v (name_of x) t d.1 n.1, d.0) in
        subst (λ (l : List Entry). IsDistinct l × All IsNamed l) same ((gone, d'), (n.0, n'))
  ]
]

-- An entry has one name only.
pub names_entry_lem :
    (e : Entry) (k : Bytes) → IsNamed e → names_entry (at k) e ≡ bytes_eq k (name_of e)
names_entry_lem e k n = elim (Bool-cases (bytes_eq k (name_of e))) [
  | inl same ↦ rw (same) (
      subst (λ (z : Bytes). names_entry (at z) e ≡ true) (sym ((bytes_eq_iff k (name_of e)).0 same))
        (names_entry_self e n))
  | inr other ↦ elim (Bool-cases (names_entry (at k) e)) [
    | inl m ↦ ground (arith, other, (bytes_eq_iff k (name_of e)).1 (sym (names_entry_name k e m)))
    | inr m ↦ rw (other) m
  ]
]
