-- ===== src/Registry/Graph.antt =====
-- runtime/launcher/kernel/ulk_api.c: the JSON buffer and the projection of the command graph.
pub mod Room
pub mod Rows
pub mod Advertised
pub mod Exact
use universal_launcher.Prelude.{
  ℕ, zero, suc, ◌+◌, ◌-◌, ◌*◌, ◌/◌, ◌%◌, ◌^◌, ◌≤◌, ◌<◌, ◌≡◌, refl, sym, ap, ◌∙◌, ◌≢◌, ◌↔◌, ◌⊎◌, inl,
  inr, Bool, true, false, not, ◌&&◌, ◌||◌, Option, none, some, List, [], ◌∷◌, ◌++◌, append_assoc,
  append-nil, arith, ltb, leb, ◌==◌, if◌then◌else◌, ltb→lt, lt→ltb, ltb-false, leb→le, ==_iff,
  tests, Bool-cases, Option-cases, and_true, ◌>>=◌, ◌>>◌, guard, >>=-eq-some, length, all, is_nil,
  take, drop, length-append, All, All-append, All-mono, Any, All-Any, Bytes, codes, bytes_eq,
  bytes_eq_iff, bytes_eq_refl, c_string, IsTextByte, IsText, c_string-IsText, Lacks, between, ℤ,
  pos, negsuc, ◌==ℤ◌, ==ℤ_iff, ltb_ℤ,
}
use universal_launcher.View.{
  StringView, null, at, size, contents, Status, ok, error, invalid_argument, is_ok, status_code,
  sizeof_error,
}
use universal_launcher.Memory.{
  Heap, Mem, mem_bind, alloc, free, free_optional, free_all, held, all_held, Allocator,
}
use universal_launcher.Registry.Names.{view_is_text, is_canonical_command_id, effects_json_is_valid}
use universal_launcher.Registry.Model.{
  Fields, Text, text_of, block_of, Entry, Context, DescriptorV1, DescriptorV2, Called, is_missing,
  field_list, sizeof_entry, sizeof_context, capacity_limit, size_max, sizeof_descriptor_v1,
  sizeof_descriptor_v2,
}
use universal_launcher.Registry.Lifetime.{
  take_entry, unregister, Created, context_create, clear_entries, context_destroy,
  allocator_refused, effective,
}
use universal_launcher.Registry.Store.{
  find_registered, invalidate_graph, clear_registered, grow_capacity, copy_view, copy_fields,
  replace_table, ensure_capacity, some_missing, finish_entry, add_entry, may_register, add_if_ok,
  register_internal, register_v1, register_v2, names_entry,
}
use universal_launcher.Command.{CommandResponse, sizeof_response_v1}
use universal_launcher.Session.Hex.{hex_character}
use universal_launcher.Registry.Metadata.{Metadata, builtin_commands, graph_rows}

-- A write to the buffer, which holds the bytes up to its length.
abbrev pub Write : Type 0
Write = Bytes → Option Bytes

-- Writes in a row, up to the first that fails.
unfoldable pub all_of : List Write → Write
all_of [] buffer = some buffer
all_of (write ∷ writes) buffer = write buffer >>= all_of writes

-- `a - b` on 64 bits.
abbrev pub minus_64 : ℕ → ℕ → ℕ
minus_64 a b = (a + (2 ^ 64 - b % 2 ^ 64)) % 2 ^ 64

module _ (capacity : ℕ) where
  unfoldable pub append_raw : Bytes → Write
  append_raw text buffer =
      if ltb (minus_64 (minus_64 capacity (length buffer)) 1) (length text)
      then none
      else some (buffer ++ text)

  unfoldable pub append_char : ℕ → Write
  append_char c buffer = if leb capacity (length buffer + 1) then none else some (buffer ++ c ∷ [])

  unfoldable pub append_string_byte : ℕ → Write
  unfolding append_raw append_char hex_character all_of
  append_string_byte value =
      if value == 34 || value == 92
      then all_of (append_char 92 ∷ append_char value ∷ [])
      else if value == 8 || value == 12 || value == 10 || value == 13 || value == 9
      then all_of (
          append_char 92
          ∷ append_char (
              if value == 8
              then b'b'
              else if value == 12
              then b'f'
              else if value == 10
              then b'n'
              else if value == 13
              then b'r'
              else b't')
          ∷ [])
      else if ltb value 0x20
      then all_of (
          append_raw (codes "\\u00")
          ∷ append_char (hex_character (value / 16 % 16))
          ∷ append_char (hex_character (value % 16))
          ∷ [])
      else append_char value

  unfoldable pub append_string_bytes : Bytes → Write
  unfolding append_string_byte
  append_string_bytes [] buffer = some buffer
  append_string_bytes (value ∷ text) buffer =
      append_string_byte value buffer >>= append_string_bytes text

  unfoldable pub append_string : Bytes → Write
  unfolding append_string_bytes append_char all_of
  append_string text = all_of (append_char 34 ∷ append_string_bytes text ∷ append_char 34 ∷ [])

  unfoldable pub append_field : Bytes → Bytes → Write
  unfolding append_string append_char all_of
  append_field name value =
      all_of (append_string name ∷ append_char b':' ∷ append_string value ∷ [])

  unfoldable pub metadata_writes : Metadata → Bool → List Write
  unfolding append_field append_raw append_char
  metadata_writes metadata prepend_comma =
      let f = metadata.fields in
      ((if prepend_comma then append_char b',' else (λ buffer. some buffer))
        ∷ append_char b'{'
        ∷ append_field (codes "command") f.command_name
        ∷ append_char b','
        ∷ append_field (codes "request_schema") f.request_schema
        ∷ append_char b','
        ∷ append_field (codes "response_schema") f.response_schema
        ∷ append_char b','
        ∷ append_field (codes "result_schema") f.result_schema
        ∷ append_char b','
        ∷ append_field (codes "refusal_schema") f.refusal_schema
        ∷ append_char b','
        ∷ append_field (codes "dry_run_behavior") f.dry_run_behavior
        ∷ append_char b','
        ∷ append_field (codes "availability") f.availability
        ∷ append_char b','
        ∷ append_field (codes "owner") f.owner
        ∷ append_char b','
        ∷ append_field (codes "binding") f.binding
        ∷ append_char b','
        ∷ append_field (codes "handler_status") metadata.handler_status
        ∷ append_raw (codes ",\"executable\":true,\"effects\":")
        ∷ append_raw f.effects_json
        ∷ append_char b'}'
        ∷ [])

  unfoldable pub append_metadata : Metadata → Bool → Write
  unfolding metadata_writes all_of
  append_metadata metadata prepend_comma = all_of (metadata_writes metadata prepend_comma)

  -- The two loops, with `has_entry`.
  unfoldable pub append_rows : Bool → List Metadata → Write
  unfolding append_metadata
  append_rows has_entry [] buffer = some buffer
  append_rows has_entry (row ∷ rows) buffer =
      append_metadata row has_entry buffer >>= append_rows true rows

  unfoldable pub write_graph : List Metadata → Option Bytes
  unfolding append_raw append_rows all_of
  write_graph rows =
      all_of
        (append_raw (
            codes
              "{\"schema\":\"ulk.command_response.v1\",\"status\":\"ok\",\"payload\":{\"schema\":\"ulk.command_graph.v1\",\"commands\":[")
          ∷ append_rows false rows
          ∷ append_raw (codes "]},\"error\":null}")
          ∷ [])
        []

unfoldable pub capacity_add : ℕ → ℕ → Option ℕ
capacity_add amount capacity =
    if ltb (minus_64 size_max capacity) amount then none else some (capacity + amount)

unfoldable pub capacity_add_lengths : List Bytes → ℕ → Option ℕ
unfolding capacity_add
capacity_add_lengths [] capacity = some capacity
capacity_add_lengths (text ∷ texts) capacity =
    if ltb (size_max / 6) (length text)
    then none
    else capacity_add (length text * 6) capacity >>= capacity_add_lengths texts

unfoldable pub capacity_add_metadata : Metadata → ℕ → Option ℕ
unfolding capacity_add capacity_add_lengths
capacity_add_metadata metadata capacity =
    capacity_add 512 capacity
    >>= capacity_add_lengths (field_list metadata.fields ++ metadata.handler_status ∷ [])

unfoldable pub capacity_add_rows : List Metadata → ℕ → Option ℕ
unfolding capacity_add_metadata
capacity_add_rows [] capacity = some capacity
capacity_add_rows (row ∷ rows) capacity =
    capacity_add_metadata row capacity >>= capacity_add_rows rows

-- `ulk_set_response`
unfoldable pub set_response : Status → Option Bytes → Option Bytes → CommandResponse
unfolding status_code
set_response status payload message = record {
  struct_size = sizeof_response_v1;
  status = status_code status;
  json_payload = elim payload [ none ↦ null 0 | some text ↦ at text ];
  error = record {
    struct_size = sizeof_error;
    code = status_code status;
    message = elim message [ none ↦ null 0 | some text ↦ at text ];
    detail = null 0;
  };
}

-- What a command returns: the status, the response, and the context and the heap that it leaves.
pub record Executed : Type 0 where
  pub status : Status
  pub response : CommandResponse
  pub context : Context
  pub heap : Heap

abbrev pub graph_error_payload : Bytes
graph_error_payload =
    codes
      "{\"schema\":\"ulk.command_response.v1\",\"status\":\"error\",\"payload\":null,\"error\":{\"code\":\"graph_projection_failed\",\"message\":\"Command graph projection failed\"}}"

abbrev pub graph_error_message : Bytes
graph_error_message = codes "Command graph projection failed"

unfoldable pub graph_error : Context → Heap → Executed
unfolding set_response
graph_error context heap = record {
  status = error;
  response = set_response error (some graph_error_payload) (some graph_error_message);
  context = context;
  heap = heap;
}

-- The rows are written to a block of the capacity, or the block is given back.
unfoldable pub write_block : Context → List Metadata → ℕ → ℕ → Heap → Executed
unfolding graph_error set_response write_graph invalidate_graph
write_block context rows block capacity heap = elim (write_graph capacity rows) [
  | none ↦
      let left =
        invalidate_graph (record context { graph = some (record { block = block; text = [] }) })
          heap in
      graph_error left.0 left.1
  | some text ↦ record {
    status = ok;
    response = set_response ok (some (c_string text)) none;
    context = record context { graph = some (record { block = block; text = text }) };
    heap = heap;
  }
]

module _ (grants : ℕ → ℕ → Bool) where
  unfoldable pub build_with_capacity : Context → List Metadata → ℕ → Heap → Executed
  unfolding write_block graph_error
  build_with_capacity context rows capacity heap = elim ((alloc grants capacity heap).0) [
    | none ↦ graph_error context (alloc grants capacity heap).1
    | some block ↦ write_block context rows block capacity (alloc grants capacity heap).1
  ]

  unfoldable pub build_rows : Context → List Metadata → Heap → Executed
  unfolding capacity_add_rows graph_error build_with_capacity
  build_rows context rows heap = elim (capacity_add_rows rows 512) [
    | none ↦ graph_error context heap
    | some capacity ↦ build_with_capacity context rows capacity heap
  ]

  unfoldable pub build_command_graph : Context → Heap → Executed
  unfolding invalidate_graph build_rows graph_rows
  build_command_graph context heap =
      let left = invalidate_graph context heap in
      build_rows left.0 (graph_rows context.entries) left.1
