-- ===== src/Memory.antt =====
-- include/ulk/ulk_allocator.h: the heap behind an allocator, as the blocks that it has given and not
-- taken back.
pub mod Ownership
use universal_launcher.Prelude.{
  ℕ, zero, suc, ◌+◌, ◌-◌, ◌*◌, ◌/◌, ◌%◌, ◌^◌, ◌≤◌, ◌<◌, ◌≡◌, refl, sym, ap, ◌∙◌, ◌≢◌, ◌↔◌, ◌⊎◌, inl,
  inr, Bool, true, false, not, ◌&&◌, ◌||◌, Option, none, some, List, [], ◌∷◌, ◌++◌, append_assoc,
  append-nil, arith, ltb, leb, ◌==◌, if◌then◌else◌, ltb→lt, lt→ltb, ltb-false, leb→le, ==_iff,
  tests, Bool-cases, Option-cases, and_true, ◌>>=◌, ◌>>◌, guard, >>=-eq-some, length, all, is_nil,
  take, drop, length-append, All, All-append, All-mono, Any, All-Any, Bytes, codes, bytes_eq,
  bytes_eq_iff, bytes_eq_refl, c_string, IsTextByte, IsText, c_string-IsText, Lacks, between, ℤ,
  pos, negsuc, ◌==ℤ◌, ==ℤ_iff, ltb_ℤ,
}

-- Blocks are numbered by the calls that gave them; `faulty` records the free of a block that was not
-- live.
pub record Heap : Type 0 where
  pub next : ℕ
  pub live : List ℕ
  pub faulty : Bool

-- A step on the heap with a result.
abbrev pub Mem : Type 0 → Type 0
Mem A = Heap → A × Heap

abbrev pub mem_bind : {A B : Type 0} → Mem A → (A → Mem B) → Mem B
mem_bind m k heap = k (m heap).0 (m heap).1

pub member : ℕ → List ℕ → Bool
member b [] = false
member b (x ∷ xs) = (x == b) || member b xs

pub erase : ℕ → List ℕ → List ℕ
erase b [] = []
erase b (x ∷ xs) = if x == b then xs else x ∷ erase b xs

-- `grants n size`: does the allocator deliver on its call number `n`?
unfoldable pub alloc : (ℕ → ℕ → Bool) → ℕ → Mem (Option ℕ)
alloc grants size heap =
    if grants heap.next size
    then (some heap.next, record heap { next = heap.next + 1; live = heap.next ∷ heap.live })
    else (none, record heap { next = heap.next + 1 })

unfoldable pub free : ℕ → Heap → Heap
unfolding member erase
free block heap = record heap {
  live = erase block heap.live;
  faulty = heap.faulty || not (member block heap.live);
}

-- `if (p != 0) free(p)`
unfoldable pub free_optional : Option ℕ → Heap → Heap
unfolding free
free_optional none heap = heap
free_optional (some block) heap = free block heap

unfoldable pub free_all : List (Option ℕ) → Heap → Heap
unfolding free_optional
free_all [] heap = heap
free_all (p ∷ ps) heap = free_all ps (free_optional p heap)

-- The blocks that a pointer and a list of pointers hold.
abbrev pub held : Option ℕ → List ℕ
held none = []
held (some block) = block ∷ []

unfoldable pub all_held : List (Option ℕ) → List ℕ
all_held [] = []
all_held (p ∷ ps) = held p ++ all_held ps

-- ulk_allocator_v1: whether the two callbacks are given; `user` stands for the allocator's identity.
pub record Allocator : Type 0 where
  pub struct_size : ℕ
  pub user : ℕ
  pub has_alloc : Bool
  pub has_free : Bool

abbrev pub sizeof_allocator : ℕ
sizeof_allocator = 32

-- malloc and free.
abbrev pub default_allocator : Allocator
default_allocator = record {
  struct_size = sizeof_allocator;
  user = 0;
  has_alloc = true;
  has_free = true;
}
