-- ===== src/Response/Release.antt =====
-- When an owned copy succeeds, and that its block is given back once.
use universal_launcher.Prelude.{
  ℕ, zero, suc, ◌+◌, ◌≤◌, ◌≡◌, refl, ◌⊎◌, inl, inr, Bool, true, false, ◌||◌, Option, none, some,
  List, [], ◌∷◌, ◌++◌, arith, ltb, Bool-cases, Option-cases,
}
use mathlib.Core.Path.{subst}
use universal_launcher.View.{size, is_ok, ok, invalid_argument}
use universal_launcher.Memory.{Heap, alloc, held, Allocator}
use universal_launcher.Memory.Ownership.{Owns, alloc-Owns, free-Owns}
use universal_launcher.Command.{CommandResponse, response_validate}
use universal_launcher.Response.{
  Storage, OwnedResponse, allocator_select, size_add, total_size, ulk_size_max, reset,
  destination_is_available, filled, Copied, copy_into, copy_checked, copy_with_limit, free_storage,
  release, sizeof_owned_response,
}

-- The block that a destination owns.
abbrev pub stored : Option Storage → List ℕ
stored none = []
stored (some storage) = storage.block ∷ []

selected_lem :
    (requested : Option Allocator) (a : Allocator)
    → allocator_select requested ≡ some a
    → a.has_free ≡ true
unfolding allocator_select
selected_lem none a h = ground arith
selected_lem (some r) a h = ground arith

-- A destination that owns a block can free it.
abbrev CanFree : OwnedResponse → Type 0
CanFree d = (d.storage ≡ none) ⊎ (d.allocator.has_free ≡ true)

-- What a call leaves owned.
abbrev Keeps : List ℕ → Copied → Type 0
Keeps rest c =
    Owns (stored c.destination.storage) rest c.heap
    × CanFree c.destination
    × (ltb c.destination.struct_size sizeof_owned_response ≡ false)

module _ (grants : ℕ → ℕ → Bool) (source : CommandResponse) (rest : List ℕ) where
  into_balance :
      (a : Allocator) (total : ℕ) (heap : Heap)
      → a.has_free ≡ true
      → Owns [] rest heap
      → Keeps rest (copy_into grants source a total heap)
  unfolding copy_into filled
  into_balance a zero heap f o = (o, inl refl, refl)
  into_balance a (suc n) heap f o = elim (Option-cases (alloc grants (suc n) heap).0) [
    | inl e ↦
        rw (e, copy_into)
          (
            subst (λ (p : Option ℕ). Owns (held p ++ []) rest (alloc grants (suc n) heap).1) e
                (alloc-Owns grants (suc n) [] rest heap o),
            inl refl,
            refl,
          )
    | inr (block, e) ↦
        rw (e, copy_into)
          (
            subst (λ (p : Option ℕ). Owns (held p ++ []) rest (alloc grants (suc n) heap).1) e
                (alloc-Owns grants (suc n) [] rest heap o),
            inr f,
            refl,
          )
  ]

  refused_balance :
      (heap : Heap)
      → Owns [] rest heap
      → Keeps rest (record { status = invalid_argument; destination = reset; heap = heap })
  refused_balance heap o = (o, inl refl, refl)

  checked_balance :
      (requested : Option Allocator) (maximum : ℕ) (heap : Heap)
      → Owns [] rest heap
      → Keeps rest (copy_checked grants source requested maximum heap)
  unfolding copy_checked
  checked_balance requested maximum heap o = elim (Option-cases (allocator_select requested)) [
    | inl e ↦ rw (e, copy_checked) (refused_balance heap o)
    | inr (a, e) ↦ elim (Option-cases (total_size source)) [
      | inl e' ↦ rw (e, copy_checked) (rw (e') (refused_balance heap o))
      | inr (total, e') ↦ elim (Bool-cases (ltb maximum total || ltb ulk_size_max total)) [
        | inl t ↦ rw (e, copy_checked) (rw (e') (rw (t) (refused_balance heap o)))
        | inr t ↦
            rw (e, copy_checked)
              (rw (e') (rw (t) (into_balance a total heap (selected_lem requested a e) o)))
      ]
    ]
  ]

available_lem :
    (d : OwnedResponse)
    → destination_is_available d ≡ true
    → (d.storage ≡ none) × (ltb d.struct_size sizeof_owned_response ≡ false)
unfolding destination_is_available
available_lem d h = ground (arith, Option-cases d.storage)

-- A destination that is not available is left as it was, with what it owns; so availability is asked.
limit_balance :
    (grants : ℕ → ℕ → Bool) (source : Option CommandResponse) (requested : Option Allocator)
    (maximum : ℕ) (destination : OwnedResponse) (heap : Heap) (rest : List ℕ)
    → destination_is_available destination ≡ true
    → Owns [] rest heap
    → Keeps rest (copy_with_limit grants source requested maximum destination heap)
unfolding copy_with_limit
limit_balance grants none requested maximum destination heap rest a o =
    rw (a, copy_with_limit) (o, inl refl, refl)
limit_balance grants (some source) requested maximum destination heap rest a o =
    elim (Bool-cases (is_ok (response_validate (some source)))) [
      | inl e ↦
          rw (a, copy_with_limit)
            (rw (e) (checked_balance grants source rest requested maximum heap o))
      | inr e ↦ rw (a, copy_with_limit) (rw (e) (o, inl refl, refl))
    ]

release_balance :
    (d : OwnedResponse) (heap : Heap) (rest : List ℕ)
    → Owns (stored d.storage) rest heap
    → (d.storage ≡ none) ⊎ (d.allocator.has_free ≡ true)
    → ltb d.struct_size sizeof_owned_response ≡ false
    → Owns [] rest (release d heap).1
unfolding release free_storage
release_balance d heap rest o f s = rw (s, release) (freed d.storage d.allocator.has_free o f)
  where
    freed :
        (p : Option Storage) (b : Bool)
        → Owns (stored p) rest heap
        → (p ≡ none) ⊎ (b ≡ true)
        → Owns [] rest (free_storage p b heap)
    freed none b o f = o
    freed (some p) false o f = ground arith
    freed (some p) true o f = free-Owns p.block [] rest heap o

-- Whatever the source, the allocator and the limit, a copy into an available destination
-- followed by its release leaves the live blocks as they were before the copy, and frees no
-- block that was not live.
pub release-copy_with_limit :
    (grants : ℕ → ℕ → Bool) (source : Option CommandResponse) (requested : Option Allocator)
    (maximum : ℕ) (destination : OwnedResponse) (heap : Heap) (rest : List ℕ)
    → destination_is_available destination ≡ true
    → Owns [] rest heap
    → Owns [] rest
        (release
          (copy_with_limit grants source requested maximum destination heap).destination
          (copy_with_limit grants source requested maximum destination heap).heap).1
release-copy_with_limit grants source requested maximum destination heap rest a o =
    let (owns, frees, whole) =
      limit_balance grants source requested maximum destination heap rest a o in
    release_balance _ _ rest owns frees whole

-- A response that was released is left as it is by a second release.
pub release_twice :
    (d : OwnedResponse) (heap : Heap)
    → release (release d heap).0 (release d heap).1 ≡ release d heap
unfolding release free_storage
release_twice d heap = elim (Bool-cases (ltb d.struct_size sizeof_owned_response)) [
  | inl e ↦ rw (e, release) (rw (e) refl)
  | inr e ↦ rw (e, release) refl
]

select_total :
    (source : CommandResponse)
    → size source.json_payload + size source.error.message + size source.error.detail ≤ ulk_size_max
    → total_size source
      ≡ some (size source.json_payload + size source.error.message + size source.error.detail)
unfolding total_size size_add
select_total source h = ground arith

into_total :
    (grants : ℕ → ℕ → Bool) (source : CommandResponse) (a : Allocator) (total : ℕ) (heap : Heap)
    → grants heap.next total ≡ true
    → (copy_into grants source a total heap).status ≡ ok
unfolding copy_into alloc
into_total grants source a zero heap g = refl
into_total grants source a (suc n) heap g = rw (g, copy_into) refl

-- A copy of a valid response into an available destination succeeds when an allocator is
-- selected, its texts are together within the limit, which is within size_t, and the allocator
-- delivers.
pub copy_with_limit_total :
    (grants : ℕ → ℕ → Bool) (source : CommandResponse) (requested : Option Allocator)
    (a : Allocator) (maximum : ℕ) (destination : OwnedResponse) (heap : Heap)
    → destination_is_available destination ≡ true
    → response_validate (some source) ≡ ok
    → allocator_select requested ≡ some a
    → size source.json_payload + size source.error.message + size source.error.detail ≤ maximum
    → maximum ≤ ulk_size_max
    → grants heap.next
        (size source.json_payload + size source.error.message + size source.error.detail)
      ≡ true
    → (copy_with_limit grants (some source) requested maximum destination heap).status ≡ ok
unfolding copy_with_limit copy_checked
copy_with_limit_total grants source requested a maximum destination heap free_slot valid chosen fits
      machine g =
    ground (
      arith,
      free_slot,
      valid,
      chosen,
      select_total source,
      into_total grants source a
          (size source.json_payload + size source.error.message + size source.error.detail) heap g,
    )
