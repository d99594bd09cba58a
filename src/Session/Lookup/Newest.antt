-- ===== src/Session/Lookup/Newest.antt =====
-- What a scan and a lookup answer: the records from the newest commit on, and the newest record with
-- the key.
use universal_launcher.Prelude.{
  ◌≡◌, refl, sym, ap, ◌∙◌, ◌≢◌, ◌⊎◌, inl, inr, Bool, true, false, none, some, List, [], ◌∷◌, arith,
  Bool-cases, All, All-mono, Any, Bytes, bytes_eq, bytes_eq_iff, ◌==ℤ◌, ltb_ℤ,
}
use mathlib.Core.List.{Perm, Permᴰ}
use mathlib.Core.List.Permᴰ
use mathlib.Core.Path.{subst}
use universal_launcher.Prelude.{Any}
use universal_launcher.Session.Record.{OwnedRecord}
use universal_launcher.Session.Files.{record_compare_descending, not_after, insert, sort}
use universal_launcher.Session.Lookup.{candidate, find_record}

-- The second record was not committed later than the first.
abbrev pub IsNotLater : OwnedRecord → OwnedRecord → Type 0
IsNotLater r e = ltb_ℤ r.commit_order e.commit_order ≡ false

abbrev pub IsNewestFirst : List OwnedRecord → Type 0
IsNewestFirst [] = Unit
IsNewestFirst (r ∷ rs) = All (IsNotLater r) rs × IsNewestFirst rs

IsNotLater-trans : (a b c : OwnedRecord) → IsNotLater a b → IsNotLater b c → IsNotLater a c
unfolding ltb_ℤ
IsNotLater-trans a b c h k = ground arith

order_lem :
    (r x : OwnedRecord)
    → ((not_after r x ≡ true) × IsNotLater r x) ⊎ ((not_after r x ≡ false) × IsNotLater x r)
unfolding record_compare_descending ltb_ℤ ◌==ℤ◌
order_lem r x = ground arith

All-insert :
    (P : OwnedRecord → Type 0) (r : OwnedRecord) (rs : List OwnedRecord)
    → P r
    → All P rs
    → All P (insert r rs)
unfolding insert
All-insert P r [] p h = (p, tt)
All-insert P r (x ∷ xs) p h = elim (Bool-cases (not_after r x)) [
  | inl e ↦ rw (e) (p, h)
  | inr e ↦ rw (e) (h.0, All-insert P r xs p h.1)
]

insert-IsNewestFirst :
    (r : OwnedRecord) (rs : List OwnedRecord) → IsNewestFirst rs → IsNewestFirst (insert r rs)
unfolding insert
insert-IsNewestFirst r [] h = (tt, tt)
insert-IsNewestFirst r (x ∷ xs) h = elim (order_lem r x) [
  | inl (e, le) ↦
      rw (e) (
        (le, All-mono (IsNotLater x) (IsNotLater r) (λ c k. IsNotLater-trans r x c le k) xs h.0),
        h,
      )
  | inr (e, le) ↦ rw (e) (All-insert (IsNotLater x) r xs le h.0, insert-IsNewestFirst r xs h.1)
]

insert-Permᴰ : (r : OwnedRecord) (rs : List OwnedRecord) → Permᴰ (insert r rs) (r ∷ rs)
unfolding insert
insert-Permᴰ r [] = Permᴰ.refl (r ∷ [])
insert-Permᴰ r (x ∷ xs) = elim (Bool-cases (not_after r x)) [
  | inl e ↦ rw (e) (Permᴰ.refl (r ∷ x ∷ xs))
  | inr e ↦ rw (e) (Permᴰ.trans (Permᴰ.cons refl (insert-Permᴰ r xs)) (Permᴰ.swap refl refl))
]

sort-Permᴰ : (rs : List OwnedRecord) → Permᴰ (sort rs) rs
unfolding sort
sort-Permᴰ [] = Permᴰ.nil
sort-Permᴰ (r ∷ rs) = Permᴰ.trans (insert-Permᴰ r (sort rs)) (Permᴰ.cons refl (sort-Permᴰ rs))

sorted_lem : (rs : List OwnedRecord) → IsNewestFirst (sort rs)
unfolding sort
sorted_lem [] = tt
sorted_lem (r ∷ rs) = insert-IsNewestFirst r (sort rs) (sorted_lem rs)

-- Sorting puts records with larger commit orders first and yields a permutation of them.
pub sort-IsNewestFirst : (rs : List OwnedRecord) → IsNewestFirst (sort rs) × Perm (sort rs) rs
sort-IsNewestFirst rs = (sorted_lem rs, ∣ sort-Permᴰ rs ∣₁)

All-Permᴰ :
    (P : OwnedRecord → Type 0) {xs ys : List OwnedRecord} → Permᴰ xs ys → All P xs → All P ys
All-Permᴰ P Permᴰ.nil h = tt
All-Permᴰ P (Permᴰ.cons e d) h = (subst P e h.0, All-Permᴰ P d h.1)
All-Permᴰ P (Permᴰ.swap e e') h = (subst P e' h.1.0, (subst P e h.0, h.1.1))
All-Permᴰ P (Permᴰ.trans d d') h = All-Permᴰ P d' (All-Permᴰ P d h)

module _ (by_runnable : Bool) (key : Bytes) where
  abbrev pub HasOtherKey : OwnedRecord → Type 0
  HasOtherKey e = candidate by_runnable e ≢ key

  abbrev pub IsNewest : OwnedRecord → OwnedRecord → Type 0
  IsNewest r e = HasOtherKey e ⊎ IsNotLater r e

  IsNotLater-refl : (r : OwnedRecord) → IsNotLater r r
  unfolding ltb_ℤ
  IsNotLater-refl r = ground arith

  found-IsNewest :
      (rs : List OwnedRecord) (r : OwnedRecord)
      → IsNewestFirst rs
      → find_record by_runnable key rs ≡ some r
      → (candidate by_runnable r ≡ key) × All (IsNewest r) rs × Any (λ e. e ≡ r) rs
  unfolding find_record
  found-IsNewest [] r s h = ground arith
  found-IsNewest (x ∷ xs) r s h = elim (Bool-cases (bytes_eq (candidate by_runnable x) key)) [
    | inl yes_key ↦
        let e : x ≡ r = ground (arith, h, yes_key) in
        let later = All-mono (IsNotLater x) (IsNewest x) (λ c k. inr k) xs s.0 in
        (
          ap (candidate by_runnable) (sym e)
              ∙ (bytes_eq_iff (candidate by_runnable x) key).0 yes_key,
          subst (λ (y : OwnedRecord). All (IsNewest y) (x ∷ xs)) e (inr (IsNotLater-refl x), later),
          inl e,
        )
    | inr no_key ↦
        let (k, newest, mem) = found-IsNewest xs r s.1 (ground (arith, h, no_key)) in
        (
          k,
          (inl (λ same. ground (arith, bytes_eq_iff (candidate by_runnable x) key)), newest),
          inr mem,
        )
  ]

  found_none : (rs : List OwnedRecord) → find_record by_runnable key rs ≡ none → All HasOtherKey rs
  unfolding find_record
  found_none [] h = tt
  found_none (x ∷ xs) h = (
    λ same. ground (arith, bytes_eq_iff (candidate by_runnable x) key),
    found_none xs (ground arith),
  )

  Any-Permᴰ :
      (r : OwnedRecord) {xs ys : List OwnedRecord}
      → Permᴰ xs ys
      → Any (λ e. e ≡ r) xs
      → Any (λ e. e ≡ r) ys
  Any-Permᴰ r Permᴰ.nil h = h
  Any-Permᴰ r (Permᴰ.cons e d) (inl h) = inl (sym e ∙ h)
  Any-Permᴰ r (Permᴰ.cons e d) (inr h) = inr (Any-Permᴰ r d h)
  Any-Permᴰ r (Permᴰ.swap e e') (inl h) = inr (inl (sym e ∙ h))
  Any-Permᴰ r (Permᴰ.swap e e') (inr (inl h)) = inl (sym e' ∙ h)
  Any-Permᴰ r (Permᴰ.swap e e') (inr (inr h)) = inr (inr h)
  Any-Permᴰ r (Permᴰ.trans d d') h = Any-Permᴰ r d' (Any-Permᴰ r d h)

  -- The record that a lookup finds among the sorted records has the key, is one of the records,
  -- and no record with the key has a larger commit order.
  pub find_record-IsNewest :
      (rs : List OwnedRecord) (r : OwnedRecord)
      → find_record by_runnable key (sort rs) ≡ some r
      → (candidate by_runnable r ≡ key) × All (IsNewest r) rs × Any (λ e. e ≡ r) rs
  find_record-IsNewest rs r h =
      let (k, newest, mem) = found-IsNewest (sort rs) r (sorted_lem rs) h in
      (k, All-Permᴰ (IsNewest r) (sort-Permᴰ rs) newest, Any-Permᴰ r (sort-Permᴰ rs) mem)

  -- When a lookup finds nothing among the sorted records, no record has the key.
  pub find_record-HasOtherKey :
      (rs : List OwnedRecord) → find_record by_runnable key (sort rs) ≡ none → All HasOtherKey rs
  find_record-HasOtherKey rs h = All-Permᴰ HasOtherKey (sort-Permᴰ rs) (found_none (sort rs) h)
