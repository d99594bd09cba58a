-- ===== src/Registry/Lifetime.antt =====
-- runtime/launcher/kernel/ulk_api.c: the removal of commands, and the creation and destruction of a
-- context.
use universal_launcher.Prelude.{
  ℕ, Bool, false, not, ◌&&◌, ◌||◌, Option, none, some, List, [], ◌∷◌, ltb, if◌then◌else◌,
}
use universal_launcher.Registry.Model.{Called, Context, Entry, sizeof_context}
use universal_launcher.View.{StringView, Status, ok, error, invalid_argument}
use universal_launcher.Memory.{Heap, alloc, free, free_optional, Allocator, default_allocator}
use universal_launcher.Memory.{sizeof_allocator}
use universal_launcher.Registry.Names.{is_canonical_command_id}
use universal_launcher.Registry.Store.{names_entry, clear_registered, invalidate_graph}

-- The loop of `ulk_command_unregister_v1`: the entry with the name, and the others moved up.
unfoldable pub take_entry : StringView → List Entry → Option (Entry × List Entry)
unfolding names_entry
take_entry name [] = none
take_entry name (entry ∷ entries) =
    if names_entry name entry then some (entry, entries) else elim (take_entry name entries) [
      | none ↦ none
      | some (found, rest) ↦ some (found, entry ∷ rest)
    ]

unfoldable pub unregister : Context → StringView → Heap → Called
unfolding take_entry clear_registered invalidate_graph
unregister context name heap =
    if not (is_canonical_command_id name)
    then record { status = invalid_argument; context = context; heap = heap }
    else elim (take_entry name context.entries) [
      | none ↦ record { status = invalid_argument; context = context; heap = heap }
      | some (entry, rest) ↦ record {
        status = ok;
        context =
            (invalidate_graph (record context { entries = rest })
              (clear_registered entry.fields heap)).0;
        heap =
            (invalidate_graph (record context { entries = rest })
              (clear_registered entry.fields heap)).1;
      }
    ]

-- What creation returns: the status, and the context unless it stays null.
pub record Created : Type 0 where
  pub status : Status
  pub context : Option Context
  pub heap : Heap

abbrev pub effective : Option Allocator → Allocator
effective none = default_allocator
effective (some a) = if a.has_alloc then a else default_allocator

abbrev pub allocator_refused : Option Allocator → Bool
allocator_refused none = false
allocator_refused (some a) =
    ltb a.struct_size sizeof_allocator
    || (a.has_alloc && not a.has_free)
    || (not a.has_alloc && a.has_free)

unfoldable pub context_create : (ℕ → ℕ → Bool) → Option Allocator → Heap → Created
context_create grants requested heap =
    if allocator_refused requested
    then record { status = invalid_argument; context = none; heap = heap }
    else elim ((alloc grants sizeof_context heap).0) [
      | none ↦ record {
        status = error;
        context = none;
        heap = (alloc grants sizeof_context heap).1;
      }
      | some block ↦ record {
        status = ok;
        context = some (record {
          block = block;
          allocator = effective requested;
          entries = [];
          capacity = 0;
          table = none;
          graph = none;
        });
        heap = (alloc grants sizeof_context heap).1;
      }
    ]

unfoldable pub clear_entries : List Entry → Heap → Heap
unfolding clear_registered
clear_entries [] heap = heap
clear_entries (entry ∷ entries) heap = clear_entries entries (clear_registered entry.fields heap)

-- The graph, the entries, the table and the context itself.
unfoldable pub context_destroy : Context → Heap → Heap
unfolding clear_entries invalidate_graph
context_destroy context heap =
    free context.block (
      free_optional context.table (clear_entries context.entries (invalidate_graph context heap).1))
