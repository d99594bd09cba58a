-- ===== src/Registry/Store/Blocks.antt =====
-- The blocks that a registry owns, and the steps on entries that give and take them.
use universal_launcher.Prelude.{
  ℕ, ◌+◌, ◌≡◌, inl, inr, Option, List, [], ◌∷◌, ◌++◌, arith, Bool-cases,
}
use universal_launcher.Memory.{Heap, held, all_held}
use universal_launcher.Memory.Ownership.{
  count, count-append, Owns, Owns-cast, free_optional-Owns, free_all-Owns,
}
use universal_launcher.Registry.Model.{Fields, Text, block_of, Entry, Context, Called}
use universal_launcher.Registry.Store.{
  invalidate_graph, clear_registered, some_missing, finish_entry,
}

abbrev pub field_blocks : Fields (Option Text) → List ℕ
field_blocks f = all_held (
    block_of f.command_name
    ∷ block_of f.effects_json
    ∷ block_of f.request_schema
    ∷ block_of f.response_schema
    ∷ block_of f.result_schema
    ∷ block_of f.refusal_schema
    ∷ block_of f.dry_run_behavior
    ∷ block_of f.availability
    ∷ block_of f.owner
    ∷ block_of f.binding
    ∷ [])

unfoldable pub entry_blocks : List Entry → List ℕ
entry_blocks [] = []
entry_blocks (e ∷ es) = field_blocks e.fields ++ entry_blocks es

-- Every block that the context keeps alive.
abbrev pub context_blocks : Context → List ℕ
context_blocks context =
    held (block_of context.graph)
    ++ (entry_blocks context.entries ++ (held context.table ++ context.block ∷ []))

-- The blocks in the order of the fields, and in the order in which they were copied.
pub field_order :
    (f : Fields (Option Text)) (owned : List ℕ) (b : ℕ)
    → count b (
        held (block_of f.binding)
        ++ (held (block_of f.owner)
            ++ (held (block_of f.availability)
                ++ (held (block_of f.dry_run_behavior)
                    ++ (held (block_of f.refusal_schema)
                        ++ (held (block_of f.result_schema)
                            ++ (held (block_of f.response_schema)
                                ++ (held (block_of f.request_schema)
                                    ++ (held (block_of f.effects_json)
                                        ++ (held (block_of f.command_name) ++ owned))))))))))
      ≡ count b (field_blocks f ++ owned)
unfolding count all_held
field_order f owned b = omega (arith, count-append)

pub entry_blocks-append :
    (es : List Entry) (e : Entry) (b : ℕ)
    → count b (entry_blocks (es ++ e ∷ []))
      ≡ count b (entry_blocks es) + count b (field_blocks e.fields)
unfolding entry_blocks count
entry_blocks-append [] e b = omega (arith, count-append)
entry_blocks-append (x ∷ es) e b = omega (arith, count-append, entry_blocks-append es e b)

pub clear_registered-Owns :
    (f : Fields (Option Text)) (owned rest : List ℕ) (heap : Heap)
    → Owns (field_blocks f ++ owned) rest heap
    → Owns owned rest (clear_registered f heap)
unfolding clear_registered
clear_registered-Owns f owned rest heap o = free_all-Owns _ owned rest heap o

-- A context without its graph.
abbrev pub bare_blocks : Context → List ℕ
bare_blocks context = entry_blocks context.entries ++ (held context.table ++ context.block ∷ [])

pub invalidate_graph-Owns :
    (context : Context) (rest : List ℕ) (heap : Heap)
    → Owns (context_blocks context) rest heap
    → Owns (context_blocks (invalidate_graph context heap).0) rest (invalidate_graph context heap).1
unfolding invalidate_graph
invalidate_graph-Owns context rest heap o =
    free_optional-Owns (block_of context.graph) (bare_blocks context) rest heap o

pub finish_entry-Owns :
    (context : Context) (pending : Fields (Option Text)) (n user handler : ℕ) (rest : List ℕ)
    (heap : Heap)
    → Owns (field_blocks pending ++ context_blocks context) rest heap
    → Owns
        (context_blocks (finish_entry context pending n user handler heap).context)
        rest
        (finish_entry context pending n user handler heap).heap
unfolding finish_entry
finish_entry-Owns context pending n user handler rest heap o =
    elim (Bool-cases (some_missing pending)) [
      | inl e ↦
          rw (e, finish_entry) (clear_registered-Owns pending (context_blocks context) rest heap o)
      | inr e ↦
          rw (e, finish_entry)
            (invalidate_graph-Owns added rest heap
              (Owns-cast _ (context_blocks added) rest heap moved o))
    ]
  where
    entry : Entry
    entry = record { fields = pending; command_name_size = n; handler = handler; user = user }

    added : Context
    added = record context { entries = context.entries ++ entry ∷ [] }

    moved :
        (b : ℕ)
        → count b (field_blocks pending ++ context_blocks context) ≡ count b (context_blocks added)
    moved b = omega (arith, count-append, entry_blocks-append context.entries entry b)

-- A new table block takes the place of the old one.
pub table_order :
    (block b : ℕ) (graph entries table own : List ℕ)
    → count b (block ∷ (graph ++ (entries ++ (table ++ own))))
      ≡ count b (table ++ (graph ++ (entries ++ (block ∷ own))))
unfolding count
table_order block b graph entries table own = omega (
  arith,
  count-append b graph (entries ++ (table ++ own)),
  count-append b entries (table ++ own),
  count-append b table own,
  count-append b table (graph ++ (entries ++ (block ∷ own))),
  count-append b graph (entries ++ (block ∷ own)),
  count-append b entries (block ∷ own),
)

-- The live blocks after a call are the context's and the rest of the program's.
abbrev pub Balanced : List ℕ → Called → Type 0
Balanced rest c = Owns (context_blocks c.context) rest c.heap
