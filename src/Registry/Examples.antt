-- ===== src/Registry/Examples.antt =====
-- The theorems on the registry, applied to a registry with a command of its own and one that takes the
-- place of a built-in.
use universal_launcher.Prelude.{
  ℕ, ◌+◌, ◌≤◌, List, Bytes, ◌≡◌, refl, true, none, some, [], ◌∷◌, arith, bytes_eq, c_string, pos,
}
use universal_launcher.View.{at, ok, invalid_argument, is_ok}
use universal_launcher.Memory.{Heap, alloc}
use universal_launcher.Registry.Names.{view_is_text, is_canonical_command_id, effects_json_is_valid}
use universal_launcher.Registry.Model.{size_max, text_of, Context}
use universal_launcher.Registry.Lifetime.{context_create, context_destroy}
use universal_launcher.Registry.Store.{find_registered, may_register, register_internal}
use universal_launcher.Command.{CommandRequest, response_validate, CommandResponse}
use universal_launcher.Registry.Metadata.{Metadata, find_row, builtin_commands, graph_rows}
use universal_launcher.Registry.Graph.{
  write_graph, capacity_add_rows, set_response, build_command_graph,
}
use universal_launcher.Memory.Ownership.{Owns}
use universal_launcher.Registry.Store.Blocks.{context_blocks}
use universal_launcher.Registry.Store.Balance.{context_create-Owns}
use universal_launcher.Registry.Names.{string_equals}
use universal_launcher.Registry.Samples.{
  always, empty_heap, full_context, empty_heap-Owns, new_context, play_fields, session_calls,
  inspect_request, blank_response,
}
use universal_launcher.Registry.Calls.{IsRegistry}
use universal_launcher.Registry.Success.{register_internal-ok}
use universal_launcher.Registry.Runs.{run, replay, handlers}
use universal_launcher.Registry.Runs.Refinement.{run-IsRegistry}
use universal_launcher.Registry.Runs.Lifecycle.{context_destroy-run, replay-context_create}
use universal_launcher.Registry.Graph.Exact.{graph_text}
use universal_launcher.Registry.Graph.Room.{
  rows_room, row_room, total, write_graph-capacity_add_rows,
}
use universal_launcher.Registry.Graph.Rows.{IsDistinctRows, advertised}
use universal_launcher.Registry.Graph.Advertised.{build_command_graph-advertised}
use universal_launcher.Registry.Execute.{Outcome, command_execute}
use universal_launcher.Registry.Execute.Effects.{Settles, command_execute-Settles}
use universal_launcher.Registry.Execute.Responses.{response_validate-command_execute}

new_context_lem : (context_create always none empty_heap).context ≡ some new_context
unfolding context_create alloc
new_context_lem = refl

new_context-IsRegistry : IsRegistry new_context
new_context-IsRegistry = record {
  distinct = tt;
  named = tt;
  has_room = omega arith;
  within_limit = omega arith;
}

new_context-Owns : Owns (context_blocks new_context) [] (context_create always none empty_heap).heap
new_context-Owns =
    context_create-Owns always none new_context [] empty_heap empty_heap-Owns new_context_lem

run-IsRegistry_example : IsRegistry (run always new_context empty_heap session_calls).context
run-IsRegistry_example =
    run-IsRegistry always new_context empty_heap session_calls new_context-IsRegistry

replay-context_create_example :
    replay session_calls
      (run always new_context (context_create always none empty_heap).heap session_calls).statuses
      (λ name. none)
    ≡ some (
        handlers
          (run always new_context
            (context_create always none empty_heap).heap
            session_calls).context.entries)
replay-context_create_example =
    replay-context_create always none new_context session_calls empty_heap new_context_lem

-- The second registration of the name and its second removal fail.
session_statuses :
    (run always new_context (context_create always none empty_heap).heap session_calls).statuses
    ≡ ok ∷ ok ∷ invalid_argument ∷ ok ∷ invalid_argument ∷ []
unfolding run context_create alloc is_canonical_command_id view_is_text string_equals
    effects_json_is_valid bytes_eq
session_statuses = refl

context_destroy-run_example : Owns [] [] (
    context_destroy
      (run always new_context (context_create always none empty_heap).heap session_calls).context
      (run always new_context (context_create always none empty_heap).heap session_calls).heap)
context_destroy-run_example =
    context_destroy-run always none new_context session_calls [] empty_heap empty_heap-Owns
      new_context_lem

register_internal-ok_example :
    is_ok (register_internal always new_context play_fields 7 (some 3) empty_heap).status ≡ true
unfolding may_register is_canonical_command_id view_is_text string_equals effects_json_is_valid
register_internal-ok_example =
    register_internal-ok always (λ n bytes. refl) new_context play_fields 7 3 empty_heap
      new_context-IsRegistry

write_graph-capacity_add_rows_example :
    write_graph 16428 builtin_commands ≡ some (graph_text builtin_commands)
unfolding capacity_add_rows builtin_commands
write_graph-capacity_add_rows_example = write_graph-capacity_add_rows builtin_commands 16428 refl

full_context-IsRegistry : IsRegistry full_context
unfolding find_registered bytes_eq
full_context-IsRegistry = record {
  distinct = (refl, (refl, tt));
  named = (refl, (refl, tt));
  has_room = omega arith;
  within_limit = omega arith;
}

full_context-room : 512 + rows_room (graph_rows full_context.entries) ≤ size_max
unfolding graph_rows builtin_commands find_registered string_equals bytes_eq rows_room row_room
    total c_string
full_context-room = omega arith

build_command_graph-advertised_example :
    (rows : List Metadata) × ((build_command_graph always full_context empty_heap).response
      ≡ set_response ok (some (c_string (graph_text rows))) none)
    × (text_of (build_command_graph always full_context empty_heap).context.graph ≡ graph_text rows)
    × IsDistinctRows rows
    × ((k : Bytes) → find_row rows (at k) ≡ advertised full_context.entries k)
unfolding c_string
build_command_graph-advertised_example =
    build_command_graph-advertised always full_context empty_heap full_context-IsRegistry
      (refl, (refl, tt)) full_context-room (λ n bytes. refl)

-- A handler that leaves the registry as it is.
abbrev echo : ℕ → ℕ → CommandRequest → CommandResponse → Context → Heap → Outcome
echo handler user request response context heap = record {
  code = pos 0;
  response = response;
  context = context;
  heap = heap;
}

command_execute-Settles_example :
    Settles new_context []
      (command_execute always echo new_context
        (some inspect_request)
        blank_response
        (context_create always none empty_heap).heap).context
      (command_execute always echo new_context
        (some inspect_request)
        blank_response
        (context_create always none empty_heap).heap).heap
command_execute-Settles_example =
    command_execute-Settles always echo new_context inspect_request blank_response []
      (context_create always none empty_heap).heap (λ handler user c h o. (refl, o))
      new_context-Owns

response_validate-command_execute_example :
    response_validate (
      some
        (command_execute always echo new_context
          (some inspect_request)
          blank_response
          empty_heap).response)
    ≡ ok
unfolding find_registered
response_validate-command_execute_example =
    response_validate-command_execute always echo new_context inspect_request blank_response
      empty_heap refl refl
