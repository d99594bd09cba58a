-- ===== src/Registry/Store.antt =====
-- runtime/launcher/kernel/ulk_api.c: the registration of commands.
pub mod Blocks
pub mod Balance
use universal_launcher.Prelude.{
  ℕ, zero, suc, ◌+◌, ◌-◌, ◌*◌, ◌/◌, ◌%◌, ◌^◌, ◌≤◌, ◌<◌, ◌≡◌, refl, sym, ap, ◌∙◌, ◌≢◌, ◌↔◌, ◌⊎◌, inl,
  inr, Bool, true, false, not, ◌&&◌, ◌||◌, Option, none, some, List, [], ◌∷◌, ◌++◌, append_assoc,
  append-nil, arith, ltb, leb, ◌==◌, if◌then◌else◌, ltb→lt, lt→ltb, ltb-false, leb→le, ==_iff,
  tests, Bool-cases, Option-cases, and_true, ◌>>=◌, ◌>>◌, guard, >>=-eq-some, length, all, is_nil,
  take, drop, length-append, All, All-append, All-mono, Any, All-Any, Bytes, codes, bytes_eq,
  bytes_eq_iff, bytes_eq_refl, c_string, IsTextByte, IsText, c_string-IsText, Lacks, between, ℤ,
  pos, negsuc, ◌==ℤ◌, ==ℤ_iff, ltb_ℤ,
}
use universal_launcher.Registry.Model.{
  Called, Context, DescriptorV1, DescriptorV2, Entry, Fields, Text, block_of, capacity_limit,
  field_list, is_missing, size_max, sizeof_context, sizeof_descriptor_v1, sizeof_descriptor_v2,
  sizeof_entry, text_of,
}
use universal_launcher.View.{
  StringView, null, at, size, contents, Status, ok, error, invalid_argument, is_ok,
}
use universal_launcher.Memory.{
  Heap, Mem, mem_bind, alloc, free, free_optional, free_all, Allocator, default_allocator,
}
use universal_launcher.Memory.{sizeof_allocator}
use universal_launcher.Registry.Names.{
  string_equals, view_is_text, is_canonical_command_id, effects_json_is_valid,
}

-- `ulk_find_registered`: memcmp on as many bytes as the name has.
unfoldable pub names_entry : StringView → Entry → Bool
names_entry (null n) entry = false
names_entry (at bytes) entry =
    (entry.command_name_size == length bytes) && bytes_eq (text_of entry.fields.command_name) bytes

unfoldable pub find_registered : List Entry → StringView → Option Entry
unfolding names_entry
find_registered [] name = none
find_registered (entry ∷ entries) name =
    if names_entry name entry then some entry else find_registered entries name

unfoldable pub invalidate_graph : Context → Heap → Context × Heap
invalidate_graph context heap =
    (record context { graph = none }, free_optional (block_of context.graph) heap)

-- The entry's texts are freed; the entry itself is set to zero by the caller's copy.
unfoldable pub clear_registered : Fields (Option Text) → Heap → Heap
clear_registered fields heap =
    free_all
      (block_of fields.command_name
        ∷ block_of fields.effects_json
        ∷ block_of fields.request_schema
        ∷ block_of fields.response_schema
        ∷ block_of fields.result_schema
        ∷ block_of fields.refusal_schema
        ∷ block_of fields.dry_run_behavior
        ∷ block_of fields.availability
        ∷ block_of fields.owner
        ∷ block_of fields.binding
        ∷ [])
      heap

-- The doubling loop of `ulk_ensure_registry_capacity`.
unfoldable pub grow_capacity : ℕ → ℕ → ℕ → ℕ
grow_capacity zero capacity required = capacity
grow_capacity (suc fuel) capacity required =
    let rest = grow_capacity fuel (capacity * 2) required in
    if ltb capacity required
    then (if ltb (capacity_limit / 2) capacity then capacity_limit else rest)
    else capacity

unfoldable pub some_missing : Fields (Option Text) → Bool
some_missing pending =
    is_missing pending.command_name
    || is_missing pending.effects_json
    || is_missing pending.request_schema
    || is_missing pending.response_schema
    || is_missing pending.result_schema
    || is_missing pending.refusal_schema
    || is_missing pending.dry_run_behavior
    || is_missing pending.availability
    || is_missing pending.owner
    || is_missing pending.binding

-- The entry with the copied texts is added, or what was copied is freed.
unfoldable pub finish_entry : Context → Fields (Option Text) → ℕ → ℕ → ℕ → Heap → Called
unfolding clear_registered invalidate_graph some_missing
finish_entry context pending name_size user handler heap =
    let entry : Entry = record {
      fields = pending;
      command_name_size = name_size;
      handler = handler;
      user = user;
    } in
    let added = record context { entries = context.entries ++ entry ∷ [] } in
    if some_missing pending
    then record { status = error; context = context; heap = clear_registered pending heap }
    else record {
      status = ok;
      context = (invalidate_graph added heap).0;
      heap = (invalidate_graph added heap).1;
    }

module _ (grants : ℕ → ℕ → Bool) where
  unfoldable pub copy_view : StringView → Mem (Option Text)
  copy_view value heap =
      if not (view_is_text value)
      then (none, heap)
      else elim ((alloc grants (size value + 1) heap).0) [
        | none ↦ (none, (alloc grants (size value + 1) heap).1)
        | some block ↦ (
          some (record { block = block; text = contents value }),
          (alloc grants (size value + 1) heap).1,
        )
      ]

  unfoldable pub copy_fields : Fields StringView → Mem (Fields (Option Text))
  unfolding copy_view
  copy_fields f = mem_bind (copy_view f.command_name) λ f1.
      mem_bind (copy_view f.effects_json) λ f2. mem_bind (copy_view f.request_schema) λ f3.
        mem_bind (copy_view f.response_schema) λ f4. mem_bind (copy_view f.result_schema) λ f5.
          mem_bind (copy_view f.refusal_schema) λ f6. mem_bind (copy_view f.dry_run_behavior) λ f7.
            mem_bind (copy_view f.availability) λ f8. mem_bind (copy_view f.owner) λ f9.
              mem_bind (copy_view f.binding) λ f10. λ heap. (
                record {
                  command_name = f1;
                  effects_json = f2;
                  request_schema = f3;
                  response_schema = f4;
                  result_schema = f5;
                  refusal_schema = f6;
                  dry_run_behavior = f7;
                  availability = f8;
                  owner = f9;
                  binding = f10;
                },
                heap,
              )

  -- The new table of `ulk_ensure_registry_capacity`, with the entries copied.
  unfoldable pub replace_table : Context → ℕ → Heap → Called
  replace_table context capacity heap = elim ((alloc grants (capacity * sizeof_entry) heap).0) [
    | none ↦ record {
      status = error;
      context = context;
      heap = (alloc grants (capacity * sizeof_entry) heap).1;
    }
    | some block ↦ record {
      status = ok;
      context = record context { table = some block; capacity = capacity };
      heap = free_optional context.table (alloc grants (capacity * sizeof_entry) heap).1;
    }
  ]

  unfoldable pub ensure_capacity : Context → ℕ → Heap → Called
  unfolding grow_capacity replace_table
  ensure_capacity context required heap =
      let capacity =
        grow_capacity 16 (if context.capacity == 0 then 8 else context.capacity) required in
      let replaced = replace_table context capacity heap in
      if leb required context.capacity
      then record { status = ok; context = context; heap = heap }
      else if ltb capacity_limit required
          || ltb capacity required
          || ltb capacity_limit capacity
          || ltb (size_max / sizeof_entry) capacity
      then record { status = invalid_argument; context = context; heap = heap }
      else replaced

  unfoldable pub add_entry : Context → Fields StringView → ℕ → ℕ → Heap → Called
  unfolding copy_fields finish_entry
  add_entry context views user handler heap =
      finish_entry context (copy_fields views heap).0 (size views.command_name) user handler
        (copy_fields views heap).1

  -- The tests of `ulk_register_internal`, for a context and a handler that are not null.
  unfoldable pub may_register : Context → Fields StringView → Bool
  unfolding find_registered
  may_register context views =
      is_canonical_command_id views.command_name
      && not (string_equals views.command_name (codes "command_graph.inspect"))
      && effects_json_is_valid views.effects_json
      && view_is_text views.request_schema
      && view_is_text views.response_schema
      && view_is_text views.result_schema
      && view_is_text views.refusal_schema
      && view_is_text views.dry_run_behavior
      && view_is_text views.availability
      && view_is_text views.owner
      && view_is_text views.binding
      && is_missing (find_registered context.entries views.command_name)

  -- With room for one more entry.
  unfoldable pub add_if_ok : Called → Fields StringView → ℕ → ℕ → Called
  unfolding add_entry
  add_if_ok ensured views user handler =
      let added = add_entry ensured.context views user handler ensured.heap in
      if is_ok ensured.status then added else ensured

  unfoldable pub register_internal : Context → Fields StringView → ℕ → Option ℕ → Heap → Called
  unfolding may_register ensure_capacity add_if_ok
  register_internal context views user none heap = record {
    status = invalid_argument;
    context = context;
    heap = heap;
  }
  register_internal context views user (some handler) heap =
      let ensured = ensure_capacity context (length context.entries + 1) heap in
      if not (may_register context views)
      then record { status = invalid_argument; context = context; heap = heap }
      else add_if_ok ensured views user handler

  unfoldable pub register_v1 : Context → Option DescriptorV1 → Heap → Called
  unfolding register_internal
  register_v1 context none heap = record {
    status = invalid_argument;
    context = context;
    heap = heap;
  }
  register_v1 context (some descriptor) heap =
      let effects =
        if size descriptor.effects_json == 0
        then at (codes "[\"none\"]")
        else elim descriptor.effects_json [ null n ↦ at (codes "[\"none\"]") | at s ↦ at s ] in
      let fields : Fields StringView = record {
        command_name = descriptor.command_name;
        effects_json = effects;
        request_schema = at (codes "ulk.command_request.v1");
        response_schema = at (codes "ulk.command_response.v1");
        result_schema = at (codes "ulk.result.v1");
        refusal_schema = at (codes "ulk.refusal.v1");
        dry_run_behavior = at (codes "binding_defined");
        availability = at (codes "available");
        owner = at (codes "registered.binding");
        binding = at (codes "legacy.v1");
      } in
      if ltb descriptor.struct_size sizeof_descriptor_v1
      then record { status = invalid_argument; context = context; heap = heap }
      else register_internal context fields descriptor.user descriptor.handler heap

  unfoldable pub register_v2 : Context → Option DescriptorV2 → Heap → Called
  unfolding register_internal
  register_v2 context none heap = record {
    status = invalid_argument;
    context = context;
    heap = heap;
  }
  register_v2 context (some descriptor) heap =
      if ltb descriptor.struct_size sizeof_descriptor_v2
      then record { status = invalid_argument; context = context; heap = heap }
      else register_internal context descriptor.fields descriptor.user descriptor.handler heap
