-- ===== src/Registry/Runs/Lifecycle.antt =====
-- A registry from its creation to its destruction.
use universal_launcher.Prelude.{
  ℕ, ◌≡◌, refl, sym, ap, ◌∙◌, inl, inr, Bool, Option, none, some, List, [], ◌∷◌, arith, Bool-cases,
  Option-cases, length,
}
use universal_launcher.Memory.{Heap, alloc, Allocator}
use universal_launcher.Registry.Model.{Entry, Context, sizeof_context}
use universal_launcher.Registry.Lifetime.{
  context_create, context_destroy, allocator_refused, effective,
}
use universal_launcher.Registry.Store.{find_registered}
use mathlib.Core.Path.{subst}
use universal_launcher.Registry.Calls.{IsRegistry}
use universal_launcher.Registry.Runs.{
  Call, register_legacy, register, remove, step, run, handlers, replay,
}
use universal_launcher.Memory.Ownership.{Owns}
use universal_launcher.Registry.Store.Blocks.{Balanced, context_blocks}
use universal_launcher.Registry.Store.Balance.{
  register_v1-Owns, register_v2-Owns, unregister-Owns, context_create-Owns, context_destroy-Owns,
}
use universal_launcher.Registry.Runs.Refinement.{run-replay}

module _ (grants : ℕ → ℕ → Bool) where
  step-Owns :
      (context : Context) (call : Call) (rest : List ℕ) (heap : Heap)
      → Owns (context_blocks context) rest heap
      → Balanced rest (step grants context heap call)
  unfolding step
  step-Owns context (register_legacy d) rest heap o = register_v1-Owns grants context d rest heap o
  step-Owns context (register d) rest heap o = register_v2-Owns grants context d rest heap o
  step-Owns context (remove name) rest heap o = unregister-Owns context name rest heap o

  run-Owns :
      (context : Context) (calls : List Call) (rest : List ℕ) (heap : Heap)
      → Owns (context_blocks context) rest heap
      → Owns
          (context_blocks (run grants context heap calls).context)
          rest
          (run grants context heap calls).heap
  unfolding run
  run-Owns context [] rest heap o = o
  run-Owns context (call ∷ calls) rest heap o =
      let called = step grants context heap call in
      run-Owns called.context calls rest called.heap (step-Owns context call rest heap o)

  -- Whatever the allocator answers, when a context is created, any sequence of registrations and
  -- removals is run on it and it is destroyed, then the blocks that are live are those of the
  -- rest of the program, as before the creation, and no block was freed that was not live.
  pub context_destroy-run :
      (requested : Option Allocator) (context : Context) (calls : List Call) (rest : List ℕ)
      (heap : Heap)
      → Owns [] rest heap
      → (context_create grants requested heap).context ≡ some context
      → Owns [] rest (
          context_destroy
            (run grants context (context_create grants requested heap).heap calls).context
            (run grants context (context_create grants requested heap).heap calls).heap)
  context_destroy-run requested context calls rest heap o h =
      context_destroy-Owns _ rest _
        (run-Owns context calls rest _ (context_create-Owns grants requested context rest heap o h))

  created :
      (requested : Option Allocator) (context : Context) (heap : Heap)
      → (context_create grants requested heap).context ≡ some context
      → (context.entries ≡ []) × (context.capacity ≡ 0)
  unfolding context_create
  created requested context heap h = elim (Bool-cases (allocator_refused requested)) [
    | inl e ↦ ground (arith, h, e)
    | inr e ↦ elim (Option-cases (alloc grants sizeof_context heap).0) [
      | inl n ↦ ground (arith, h, e, n)
      | inr (block, n) ↦
          let fresh : Context = record {
            block = block;
            allocator = effective requested;
            entries = [];
            capacity = 0;
            table = none;
            graph = none;
          } in
          let same : fresh ≡ context = ground (arith, h, e, n) in
          subst (λ (c : Context). (c.entries ≡ []) × (c.capacity ≡ 0)) same (refl, refl)
    ]
  ]

  -- Whatever the allocator answers, any sequence of registrations and removals on a new context
  -- implements a finite map from names to a handler and its data: the calls that return ok are
  -- exactly the steps of the map, a name is only given a handler when it has none and only loses
  -- one that it has, the other calls change nothing, and a lookup in the context answers as the
  -- map.
  pub replay-context_create :
      (requested : Option Allocator) (context : Context) (calls : List Call) (heap : Heap)
      → (context_create grants requested heap).context ≡ some context
      → replay calls
          (run grants context (context_create grants requested heap).heap calls).statuses
          (λ name. none)
        ≡ some (
            handlers
              (run grants context
                (context_create grants requested heap).heap
                calls).context.entries)
  unfolding handlers find_registered
  replay-context_create requested context calls heap h =
      let (empty, bare) = created requested context heap h in
      let fresh : IsRegistry context = record {
        distinct = rw (empty) tt;
        named = rw (empty) tt;
        has_room = omega (arith, ap length empty);
        within_limit = omega (arith, bare);
      } in
      ap
        (λ (l : List Entry).
          replay calls
            (run grants context (context_create grants requested heap).heap calls).statuses
            (handlers l))
        (sym empty)
      ∙ run-replay grants context (context_create grants requested heap).heap calls fresh
