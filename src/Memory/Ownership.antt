-- ===== src/Memory/Ownership.antt =====
-- Who owns the live blocks: a step on the heap neither leaks a block nor frees one twice.
use universal_launcher.Prelude.{
  ℕ, ◌+◌, ◌<◌, ◌≡◌, inl, inr, Bool, true, false, Option, none, some, List, [], ◌∷◌, ◌++◌,
  append_assoc, arith, ◌==◌, if◌then◌else◌, Bool-cases,
}
use universal_launcher.Memory.{
  Heap, member, erase, alloc, free, free_optional, free_all, held, all_held,
}

unfoldable pub count : ℕ → List ℕ → ℕ
count b [] = 0
count b (x ∷ xs) = (if x == b then 1 else 0) + count b xs

pub count-append : (b : ℕ) (xs ys : List ℕ) → count b (xs ++ ys) ≡ count b xs + count b ys
unfolding count
count-append b [] ys = omega arith
count-append b (x ∷ xs) ys = omega (arith, count-append b xs ys)

-- The live blocks are the owned ones and those of the rest of the program, each as often, and nothing
-- was freed that was not live.
pub record Owns (owned rest : List ℕ) (heap : Heap) : Type 0 where
  pub sound : heap.faulty ≡ false
  pub balanced : (b : ℕ) → count b heap.live ≡ count b owned + count b rest

pub Owns-cast :
    (owned owned' rest : List ℕ) (heap : Heap)
    → ((b : ℕ) → count b owned ≡ count b owned')
    → Owns owned rest heap
    → Owns owned' rest heap
Owns-cast owned owned' rest heap e o = record {
  sound = o.sound;
  balanced = λ b. omega (arith, e b, o.balanced b);
}

pub alloc-Owns :
    (grants : ℕ → ℕ → Bool) (size : ℕ) (owned rest : List ℕ) (heap : Heap)
    → Owns owned rest heap
    → Owns (held (alloc grants size heap).0 ++ owned) rest (alloc grants size heap).1
unfolding alloc count
alloc-Owns grants size owned rest heap o = elim (Bool-cases (grants heap.next size)) [
  | inl e ↦ rw (e, alloc) (record { sound = o.sound; balanced = λ b. omega (arith, o.balanced b) })
  | inr e ↦ rw (e, alloc) (record { sound = o.sound; balanced = λ b. omega (arith, o.balanced b) })
]

erase_lem :
    (b : ℕ) (xs : List ℕ)
    → 0 < count b xs
    → (member b xs ≡ true)
      × ((c : ℕ) → count c xs ≡ (if b == c then 1 else 0) + count c (erase b xs))
unfolding count member erase
erase_lem b [] h = absurd (omega arith)
erase_lem b (x ∷ xs) h = elim (Bool-cases (x == b)) [
  | inl e ↦ (ground (arith, e), λ c. ground (arith, e))
  | inr e ↦
      let (m, k) = erase_lem b xs (ground (arith, e)) in
      (ground (arith, e, m), λ c. ground (arith, e, k c))
]

pub free-Owns :
    (block : ℕ) (owned rest : List ℕ) (heap : Heap)
    → Owns (block ∷ owned) rest heap
    → Owns owned rest (free block heap)
unfolding free count
free-Owns block owned rest heap o =
    let (m, k) = erase_lem block heap.live (ground (arith, o.balanced block)) in
    record { sound = ground (arith, o.sound, m); balanced = λ b. ground (arith, o.balanced b, k b) }

pub free_optional-Owns :
    (p : Option ℕ) (owned rest : List ℕ) (heap : Heap)
    → Owns (held p ++ owned) rest heap
    → Owns owned rest (free_optional p heap)
unfolding free_optional
free_optional-Owns none owned rest heap o = o
free_optional-Owns (some block) owned rest heap o = free-Owns block owned rest heap o

pub free_all-Owns :
    (ps : List (Option ℕ)) (owned rest : List ℕ) (heap : Heap)
    → Owns (all_held ps ++ owned) rest heap
    → Owns owned rest (free_all ps heap)
unfolding free_all all_held
free_all-Owns [] owned rest heap o = o
free_all-Owns (p ∷ ps) owned rest heap o = free_all-Owns ps owned rest (free_optional p heap) (
    free_optional-Owns p (all_held ps ++ owned) rest heap
      (rw (← append_assoc (held p) (all_held ps) owned) o))
