-- ===== src/Registry/Execute/Effects.antt =====
-- What executing a command does to the registry and to the heap.
use universal_launcher.Prelude.{
  ℕ, ◌≡◌, refl, inl, inr, Bool, ◌||◌, Option, none, some, List, [], ◌∷◌, ◌++◌, ltb, Bool-cases,
  Option-cases,
}
use mathlib.Core.Path.{subst}
use universal_launcher.Memory.{Heap, alloc, held}
use universal_launcher.Registry.Model.{Context}
use universal_launcher.Registry.Store.{find_registered, invalidate_graph}
use universal_launcher.Command.{
  CommandRequest, sizeof_request_v1, CommandResponse, sizeof_response_v1,
}
use universal_launcher.Registry.Metadata.{Metadata, graph_rows}
use universal_launcher.Registry.Graph.{
  write_graph, capacity_add_rows, graph_error, write_block, build_with_capacity, build_rows,
  build_command_graph,
}
use universal_launcher.Memory.Ownership.{Owns, alloc-Owns}
use universal_launcher.Registry.Store.Blocks.{context_blocks, bare_blocks, invalidate_graph-Owns}
use universal_launcher.Registry.Metadata.{find_builtin}
use universal_launcher.Registry.Execute.{
  is_graph, kind_of, is_bare, Outcome, answer, execute_builtin, execute_valid, command_execute,
}

-- The entries stay, and the live blocks are the context's and the rest of the program's.
abbrev pub Settles : Context → List ℕ → Context → Heap → Type 0
Settles context rest context' heap' =
    (context'.entries ≡ context.entries) × Owns (context_blocks context') rest heap'

write_block-Settles :
    (context : Context) (rows : List Metadata) (block capacity : ℕ) (rest : List ℕ) (heap : Heap)
    → Owns (block ∷ bare_blocks context) rest heap
    → Settles context rest
        (write_block context rows block capacity heap).context
        (write_block context rows block capacity heap).heap
unfolding write_block graph_error invalidate_graph
write_block-Settles context rows block capacity rest heap o =
    elim (Option-cases (write_graph capacity rows)) [
      | inl n ↦
          let written : Context = record context {
            graph = some (record { block = block; text = [] });
          } in
          rw (n, write_block) (refl, invalidate_graph-Owns written rest heap o)
      | inr (text, n) ↦ rw (n, write_block) (refl, o)
    ]

module _ (grants : ℕ → ℕ → Bool) where
  build_with_capacity-Settles :
      (context : Context) (rows : List Metadata) (capacity : ℕ) (rest : List ℕ) (heap : Heap)
      → context.graph ≡ none
      → Owns (bare_blocks context) rest heap
      → Settles context rest
          (build_with_capacity grants context rows capacity heap).context
          (build_with_capacity grants context rows capacity heap).heap
  unfolding build_with_capacity graph_error
  build_with_capacity-Settles context rows capacity rest heap bare o =
      let o' = alloc-Owns grants capacity (bare_blocks context) rest heap o in
      elim (Option-cases (alloc grants capacity heap).0) [
        | inl e ↦
            rw (e, build_with_capacity)
              (
                refl,
                rw (bare) (
                    subst
                      (λ (p : Option ℕ).
                        Owns (held p ++ bare_blocks context) rest (alloc grants capacity heap).1)
                      e o'),
              )
        | inr (block, e) ↦
            rw (e, build_with_capacity)
              (write_block-Settles context rows block capacity rest _ (
                subst
                  (λ (p : Option ℕ).
                    Owns (held p ++ bare_blocks context) rest (alloc grants capacity heap).1)
                  e o'))
      ]

  build_rows-Settles :
      (context : Context) (rows : List Metadata) (rest : List ℕ) (heap : Heap)
      → context.graph ≡ none
      → Owns (bare_blocks context) rest heap
      → Settles context rest
          (build_rows grants context rows heap).context
          (build_rows grants context rows heap).heap
  unfolding build_rows graph_error
  build_rows-Settles context rows rest heap bare o =
      elim (Option-cases (capacity_add_rows rows 512)) [
        | inl n ↦ rw (n, build_rows) (refl, rw (bare) o)
        | inr (capacity, n) ↦
            rw (n, build_rows) (build_with_capacity-Settles context rows capacity rest heap bare o)
      ]

  build_command_graph-Settles :
      (context : Context) (rest : List ℕ) (heap : Heap)
      → Owns (context_blocks context) rest heap
      → Settles context rest
          (build_command_graph grants context heap).context
          (build_command_graph grants context heap).heap
  unfolding build_command_graph invalidate_graph
  build_command_graph-Settles context rest heap o =
      build_rows-Settles (invalidate_graph context heap).0 (graph_rows context.entries) rest
        (invalidate_graph context heap).1 refl (invalidate_graph-Owns context rest heap o)

module _ (grants : ℕ → ℕ → Bool)
    (invoke : ℕ → ℕ → CommandRequest → CommandResponse → Context → Heap → Outcome) where
  execute_builtin-Settles :
      (context : Context) (request : CommandRequest) (rest : List ℕ) (heap : Heap)
      → Owns (context_blocks context) rest heap
      → Settles context rest
          (execute_builtin grants invoke context request heap).context
          (execute_builtin grants invoke context request heap).heap
  unfolding execute_builtin answer
  execute_builtin-Settles context request rest heap o =
      elim (Bool-cases (is_graph (kind_of (find_builtin request.command_name)))) [
        | inl e ↦ rw (e, execute_builtin) (build_command_graph-Settles grants context rest heap o)
        | inr e ↦ rw (e, execute_builtin) (refl, o)
      ]

  execute_valid-Settles :
      (context : Context) (request : CommandRequest) (response : CommandResponse) (rest : List ℕ)
      (heap : Heap)
      → ((handler user : ℕ) (c : Context) (h : Heap)
          → Owns (context_blocks c) rest h
          → Settles c rest
              (invoke handler user request response c h).context
              (invoke handler user request response c h).heap)
      → Owns (context_blocks context) rest heap
      → Settles context rest
          (execute_valid grants invoke context request response heap).context
          (execute_valid grants invoke context request response heap).heap
  unfolding execute_valid
  execute_valid-Settles context request response rest heap handled o =
      elim (Option-cases (find_registered context.entries request.command_name)) [
        | inl n ↦ rw (n, execute_valid) (execute_builtin-Settles context request rest heap o)
        | inr (e, n) ↦ rw (n, execute_valid) (handled e.handler e.user context heap o)
      ]

  -- When the handlers leave the entries and the ownership of blocks as they are, so does the
  -- execution of any request, whatever the allocator answers: the entries stay, and the live
  -- blocks are those of the context, with its new graph, and of the rest of the program.
  pub command_execute-Settles :
      (context : Context) (request : CommandRequest) (response : CommandResponse) (rest : List ℕ)
      (heap : Heap)
      → ((handler user : ℕ) (c : Context) (h : Heap)
          → Owns (context_blocks c) rest h
          → Settles c rest
              (invoke handler user request response c h).context
              (invoke handler user request response c h).heap)
      → Owns (context_blocks context) rest heap
      → Settles context rest
          (command_execute grants invoke context (some request) response heap).context
          (command_execute grants invoke context (some request) response heap).heap
  unfolding command_execute answer
  command_execute-Settles context request response rest heap handled o =
      elim (Bool-cases (ltb response.struct_size sizeof_response_v1)) [
        | inl e ↦ rw (e, command_execute) (refl, o)
        | inr e ↦
            elim (Bool-cases
              (ltb request.struct_size sizeof_request_v1 || is_bare request.command_name)) [
                | inl k ↦ rw (e, command_execute) (rw (k) (refl, o))
                | inr k ↦
                    rw (e, command_execute)
                      (rw (k) (execute_valid-Settles context request response rest heap handled o))
              ]
      ]
