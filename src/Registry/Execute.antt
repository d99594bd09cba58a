-- ===== src/Registry/Execute.antt =====
-- runtime/launcher/kernel/ulk_api.c: the execution of commands.
pub mod Effects
pub mod Responses
use universal_launcher.Prelude.{
  ℕ, zero, suc, ◌+◌, ◌-◌, ◌*◌, ◌/◌, ◌%◌, ◌^◌, ◌≤◌, ◌<◌, ◌≡◌, refl, sym, ap, ◌∙◌, ◌≢◌, ◌↔◌, ◌⊎◌, inl,
  inr, Bool, true, false, not, ◌&&◌, ◌||◌, Option, none, some, List, [], ◌∷◌, ◌++◌, append_assoc,
  append-nil, arith, ltb, leb, ◌==◌, if◌then◌else◌, ltb→lt, lt→ltb, ltb-false, leb→le, ==_iff,
  tests, Bool-cases, Option-cases, and_true, ◌>>=◌, ◌>>◌, guard, >>=-eq-some, length, all, is_nil,
  take, drop, length-append, All, All-append, All-mono, Any, All-Any, Bytes, codes, bytes_eq,
  bytes_eq_iff, bytes_eq_refl, c_string, IsTextByte, IsText, c_string-IsText, Lacks, between, ℤ,
  pos, negsuc, ◌==ℤ◌, ==ℤ_iff, ltb_ℤ,
}
use universal_launcher.View.{
  StringView, null, at, size, contents, Status, ok, error, invalid_argument, is_ok, status_code,
  unsupported_version,
}
use universal_launcher.Memory.{
  Heap, Mem, mem_bind, alloc, free, free_optional, free_all, held, all_held, Allocator,
}
use universal_launcher.Registry.Names.{view_is_text, is_canonical_command_id, effects_json_is_valid}
use universal_launcher.Registry.Model.{
  Fields, Text, text_of, block_of, Entry, Context, DescriptorV1, DescriptorV2, Called, is_missing,
  field_list, sizeof_entry, sizeof_context, capacity_limit, size_max, sizeof_descriptor_v1,
  sizeof_descriptor_v2,
}
use universal_launcher.Registry.Lifetime.{
  take_entry, unregister, Created, context_create, clear_entries, context_destroy,
  allocator_refused, effective,
}
use universal_launcher.Registry.Store.{
  find_registered, invalidate_graph, clear_registered, grow_capacity, copy_view, copy_fields,
  replace_table, ensure_capacity, some_missing, finish_entry, add_entry, may_register, add_if_ok,
  register_internal, register_v1, register_v2, names_entry,
}
use universal_launcher.Command.{
  CommandRequest, sizeof_request_v1, CommandResponse, sizeof_response_v1,
}
use universal_launcher.Session.Json.{escaped}
use universal_launcher.Session.Hex.{hex_character}
use universal_launcher.Registry.Metadata.{Metadata, builtin_commands, graph_rows}
use universal_launcher.Registry.Graph.{
  Write, all_of, minus_64, append_raw, append_char, append_string_byte, append_string_bytes,
  append_string, append_field, append_metadata, append_rows, write_graph, capacity_add,
  capacity_add_lengths, capacity_add_metadata, capacity_add_rows, set_response, Executed,
  graph_error, write_block, build_with_capacity, build_rows, build_command_graph,
}
use universal_launcher.Registry.Payloads.{
  product_payload, install_refs_payload, install_ref_inspect_payload, instances_payload,
  instance_create_preview_payload, instance_create_execute_refusal_payload, profiles_payload,
  account_refs_payload, artifact_sets_payload, launch_plan_dry_run_payload,
  launch_plan_execute_payload, diagnostics_payload, instance_create_refusal_message,
  unsupported_payload, unsupported_message, invalid_payload, invalid_message,
}
use universal_launcher.Registry.Metadata.{
  BuiltinKind, none_builtin, command_graph_inspect, product_inspect, install_refs_list,
  install_refs_inspect, instance_create, instance_list, profiles_list, account_refs_list,
  artifact_sets_list, launch_plan_build, diagnostics_run, find_builtin,
}

pub record StaticResponse : Type 0 where
  pub status : Status
  pub payload : Bytes
  pub error_message : Option Bytes

abbrev static_ok : Bytes → StaticResponse
static_ok payload = record { status = ok; payload = payload; error_message = none }

abbrev unsupported : StaticResponse
unsupported = record {
  status = unsupported_version;
  payload = unsupported_payload;
  error_message = some unsupported_message;
}

unfoldable pub dispatch_builtin : BuiltinKind → CommandRequest → StaticResponse
dispatch_builtin product_inspect request = static_ok product_payload
dispatch_builtin install_refs_list request = static_ok install_refs_payload
dispatch_builtin install_refs_inspect request = static_ok install_ref_inspect_payload
dispatch_builtin instance_create request =
    if not (request.dry_run ==ℤ pos 0) then static_ok instance_create_preview_payload else record {
      status = error;
      payload = instance_create_execute_refusal_payload;
      error_message = some instance_create_refusal_message;
    }
dispatch_builtin instance_list request = static_ok instances_payload
dispatch_builtin profiles_list request = static_ok profiles_payload
dispatch_builtin account_refs_list request = static_ok account_refs_payload
dispatch_builtin artifact_sets_list request = static_ok artifact_sets_payload
dispatch_builtin launch_plan_build request = static_ok (
    if not (request.dry_run ==ℤ pos 0)
    then launch_plan_dry_run_payload
    else launch_plan_execute_payload)
dispatch_builtin diagnostics_run request = static_ok diagnostics_payload
dispatch_builtin command_graph_inspect request = unsupported
dispatch_builtin none_builtin request = unsupported

-- What the caller of a command gets back: the int, and the response, the context and the heap as they
-- are left.
pub record Outcome : Type 0 where
  pub code : ℤ
  pub response : CommandResponse
  pub context : Context
  pub heap : Heap

abbrev outcome : Executed → Outcome
outcome e = record {
  code = status_code e.status;
  response = e.response;
  context = e.context;
  heap = e.heap;
}

unfoldable pub answer : Status → Bytes → Option Bytes → Context → Heap → Outcome
unfolding set_response
answer status payload message context heap = record {
  code = status_code status;
  response = set_response status (some payload) message;
  context = context;
  heap = heap;
}

abbrev pub is_graph : BuiltinKind → Bool
is_graph command_graph_inspect = true
is_graph _ = false

abbrev kind_of : Option Metadata → BuiltinKind
kind_of none = none_builtin
kind_of (some row) = row.kind

abbrev is_bare : StringView → Bool
is_bare (null n) = true
is_bare (at bytes) = is_nil bytes

-- `invoke handler user request response context heap` is the call of a registered handler.
module _ (grants : ℕ → ℕ → Bool)
    (invoke : ℕ → ℕ → CommandRequest → CommandResponse → Context → Heap → Outcome) where
  unfoldable pub execute_builtin : Context → CommandRequest → Heap → Outcome
  unfolding find_builtin build_command_graph dispatch_builtin answer
  execute_builtin context request heap =
      let kind = kind_of (find_builtin request.command_name) in
      let dispatched = dispatch_builtin kind request in
      if is_graph kind
      then outcome (build_command_graph grants context heap)
      else answer dispatched.status dispatched.payload dispatched.error_message context heap

  -- With a request that is valid.
  unfoldable pub execute_valid : Context → CommandRequest → CommandResponse → Heap → Outcome
  unfolding find_registered execute_builtin
  execute_valid context request response heap =
      elim (find_registered context.entries request.command_name) [
        | some e ↦ invoke e.handler e.user request response context heap
        | none ↦ execute_builtin context request heap
      ]

  unfoldable pub command_execute :
      Context → Option CommandRequest → CommandResponse → Heap → Outcome
  unfolding execute_valid answer
  command_execute context none response heap =
      if ltb response.struct_size sizeof_response_v1
      then record {
        code = status_code invalid_argument;
        response = response;
        context = context;
        heap = heap;
      }
      else answer invalid_argument invalid_payload (some invalid_message) context heap
  command_execute context (some request) response heap =
      let executed = execute_valid context request response heap in
      if ltb response.struct_size sizeof_response_v1
      then record {
        code = status_code invalid_argument;
        response = response;
        context = context;
        heap = heap;
      }
      else if ltb request.struct_size sizeof_request_v1 || is_bare request.command_name
      then answer invalid_argument invalid_payload (some invalid_message) context heap
      else executed

-- `(major << 16) | minor`, where the minor version is below 2 ^ 16.
abbrev pub abi_version : ℕ
abi_version = 1 * 2 ^ 16 + 9
