-- ===== src/Registry/Capacity.antt =====
-- The room that `ulk_ensure_registry_capacity` makes.
use universal_launcher.Prelude.{
  ℕ, zero, suc, ◌*◌, ◌/◌, ◌≤◌, ◌≡◌, refl, inl, inr, Bool, true, false, ◌||◌, arith, ltb, leb, ◌==◌,
  if◌then◌else◌, Bool-cases, Option-cases,
}
use universal_launcher.View.{is_ok}
use universal_launcher.Memory.{Heap, alloc}
use universal_launcher.Registry.Model.{Context, Called, sizeof_entry, capacity_limit, size_max}
use universal_launcher.Registry.Store.{grow_capacity, replace_table, ensure_capacity}

-- The capacity after as many rounds.
doubled : ℕ → ℕ → ℕ
doubled zero capacity = capacity
doubled (suc rounds) capacity = doubled rounds (capacity * 2)

-- The loop ends with room for what is required, within the limit.
grow_capacity_lem :
    (fuel capacity required : ℕ)
    → required ≤ doubled fuel capacity
    → required ≤ capacity_limit
    → capacity ≤ capacity_limit
    → (required ≤ grow_capacity fuel capacity required)
      × (grow_capacity fuel capacity required ≤ capacity_limit)
unfolding grow_capacity doubled
grow_capacity_lem zero capacity required h r c = (h, c)
grow_capacity_lem (suc fuel) capacity required h r c = elim (Bool-cases (ltb capacity required)) [
  | inr full ↦ (ground (arith, full), ground (arith, full, c))
  | inl short ↦ elim (Bool-cases (ltb (capacity_limit / 2) capacity)) [
    | inl near ↦ (ground (arith, short, near, r), ground (arith, short, near))
    | inr far ↦
        let rest = grow_capacity_lem fuel (capacity * 2) required h r (ground (arith, far)) in
        (ground (arith, short, far, rest.0), ground (arith, short, far, rest.1))
  ]
]

start_doubled : (capacity : ℕ) → 1 ≤ capacity → capacity_limit ≤ doubled 16 capacity
unfolding doubled
start_doubled capacity h = omega (arith, h)

start_lem :
    (capacity required : ℕ)
    → capacity ≤ capacity_limit
    → required ≤ capacity_limit
    → (required ≤ grow_capacity 16 (if capacity == 0 then 8 else capacity) required)
      × (grow_capacity 16 (if capacity == 0 then 8 else capacity) required ≤ capacity_limit)
start_lem capacity required c r = elim (Bool-cases (capacity == 0)) [
  | inl z ↦ rw (z) (
      grow_capacity_lem 16 8 required (omega (arith, r, start_doubled 8 (omega arith))) r
        (omega arith))
  | inr z ↦ rw (z) (
      grow_capacity_lem 16 capacity required
        (omega (arith, r, start_doubled capacity (ground (arith, z)))) r c)
]

no_refusal :
    (grown required : ℕ)
    → required ≤ grown
    → required ≤ capacity_limit
    → grown ≤ capacity_limit
    → (ltb capacity_limit required
        || ltb grown required
        || ltb capacity_limit grown
        || ltb (size_max / sizeof_entry) grown)
      ≡ false
no_refusal grown required more r g = ground (arith, more, r, g)

-- What the room is for: the entries stay, and a status that is ok has room for what is required.
pub record HasRoom (context : Context) (required : ℕ) (ensured : Called) : Type 0 where
  pub same_entries : ensured.context.entries ≡ context.entries
  pub within_limit : ensured.context.capacity ≤ capacity_limit
  pub not_less : context.capacity ≤ ensured.context.capacity
  pub has_room : is_ok ensured.status ≡ true → required ≤ ensured.context.capacity

module _ (grants : ℕ → ℕ → Bool) where
  replace_table-HasRoom :
      (context : Context) (capacity required : ℕ) (heap : Heap)
      → context.capacity ≤ capacity
      → required ≤ capacity
      → capacity ≤ capacity_limit
      → HasRoom context required (replace_table grants context capacity heap)
  unfolding replace_table
  replace_table-HasRoom context capacity required heap more r c =
      elim (Option-cases (alloc grants (capacity * sizeof_entry) heap).0) [
        | inl n ↦
            rw (n, replace_table)
              (record {
                same_entries = refl;
                within_limit = ground (arith, more, c);
                not_less = ground arith;
                has_room = λ k. ground (arith, k);
              })
        | inr (block, n) ↦
            rw (n, replace_table)
              (record { same_entries = refl; within_limit = c; not_less = more; has_room = λ k. r })
      ]

  pub ensure_capacity-HasRoom :
      (context : Context) (required : ℕ) (heap : Heap)
      → context.capacity ≤ capacity_limit
      → HasRoom context required (ensure_capacity grants context required heap)
  unfolding ensure_capacity
  ensure_capacity-HasRoom context required heap c =
      elim (Bool-cases (leb required context.capacity)) [
        | inl e ↦
            rw (e, ensure_capacity)
              (record {
                same_entries = refl;
                within_limit = c;
                not_less = ground arith;
                has_room = λ k. ground (arith, e);
              })
        | inr e ↦
            elim (Bool-cases (
              ltb capacity_limit required
              || ltb capacity required
              || ltb capacity_limit capacity
              || ltb (size_max / sizeof_entry) capacity)) [
                | inl n ↦
                    rw (e, ensure_capacity)
                      (rw (n) (record {
                        same_entries = refl;
                        within_limit = c;
                        not_less = ground arith;
                        has_room = λ k. ground (arith, k);
                      }))
                | inr n ↦
                    rw (e, ensure_capacity)
                      (rw (n) (
                        replace_table-HasRoom context capacity required heap (ground (arith, e, n))
                          (ground (arith, n)) (ground (arith, n))))
              ]
      ]
    where
      capacity : ℕ
      capacity = grow_capacity 16 (if context.capacity == 0 then 8 else context.capacity) required

  replace_table-ok :
      (context : Context) (capacity : ℕ) (heap : Heap)
      → ((n bytes : ℕ) → grants n bytes ≡ true)
      → is_ok (replace_table grants context capacity heap).status ≡ true
  unfolding replace_table alloc
  replace_table-ok context capacity heap g =
      rw (g heap.next (capacity * sizeof_entry), replace_table, alloc) refl

  pub ensure_capacity-ok :
      (context : Context) (required : ℕ) (heap : Heap)
      → ((n bytes : ℕ) → grants n bytes ≡ true)
      → context.capacity ≤ capacity_limit
      → required ≤ capacity_limit
      → is_ok (ensure_capacity grants context required heap).status ≡ true
  unfolding ensure_capacity
  ensure_capacity-ok context required heap g c r =
      let grown = start_lem context.capacity required c r in
      elim (Bool-cases (leb required context.capacity)) [
        | inl e ↦ rw (e, ensure_capacity) refl
        | inr e ↦
            rw (e, ensure_capacity)
              (rw (no_refusal _ required grown.0 r grown.1) (replace_table-ok context _ heap g))
      ]
