-- ===== src/Registry/Runs.antt =====
-- Sequences of calls on a registry, and the finite map that they promise to be.
pub mod Steps
pub mod Refinement
pub mod Lifecycle
use universal_launcher.Prelude.{
  ℕ, zero, suc, ◌+◌, ◌-◌, ◌*◌, ◌/◌, ◌%◌, ◌^◌, ◌≤◌, ◌<◌, ◌≡◌, refl, sym, ap, ◌∙◌, ◌≢◌, ◌↔◌, ◌⊎◌, inl,
  inr, Bool, true, false, not, ◌&&◌, ◌||◌, Option, none, some, List, [], ◌∷◌, ◌++◌, append_assoc,
  append-nil, arith, ltb, leb, ◌==◌, if◌then◌else◌, ltb→lt, lt→ltb, ltb-false, leb→le, ==_iff,
  tests, Bool-cases, Option-cases, and_true, ◌>>=◌, ◌>>◌, guard, >>=-eq-some, length, all, is_nil,
  take, drop, length-append, All, All-append, All-mono, Any, All-Any, Bytes, codes, bytes_eq,
  bytes_eq_iff, bytes_eq_refl, c_string, IsTextByte, IsText, c_string-IsText, Lacks, between, ℤ,
  pos, negsuc, ◌==ℤ◌, ==ℤ_iff, ltb_ℤ,
}
use universal_launcher.View.{
  StringView, null, at, size, contents, Status, ok, error, invalid_argument, is_ok,
}
use universal_launcher.Memory.{
  Heap, Mem, mem_bind, alloc, free, free_optional, free_all, held, all_held, Allocator,
}
use universal_launcher.Registry.Names.{view_is_text, is_canonical_command_id, effects_json_is_valid}
use universal_launcher.Registry.Model.{
  Fields, Text, text_of, block_of, Entry, Context, DescriptorV1, DescriptorV2, Called, is_missing,
  sizeof_entry, sizeof_context, capacity_limit, size_max, sizeof_descriptor_v1,
  sizeof_descriptor_v2,
}
use universal_launcher.Registry.Lifetime.{
  take_entry, unregister, Created, context_create, clear_entries, context_destroy,
  allocator_refused, effective,
}
use universal_launcher.Registry.Store.{
  find_registered, invalidate_graph, clear_registered, grow_capacity, copy_view, copy_fields,
  replace_table, ensure_capacity, some_missing, finish_entry, add_entry, may_register, add_if_ok,
  register_internal, register_v1, register_v2, names_entry,
}
use mathlib.Core.Path.{subst, fun_ext}
use universal_launcher.Registry.Lookup.{
  name_of, IsNamed, IsDistinct, find-append, IsDistinct-append, names_entry_lem, take-find,
  IsDistinct-take,
}
use universal_launcher.Registry.Calls.{IsRegistry, Adds, Keeps, register_internal-cases}

pub data Call : Type 0 where
  register_legacy : Option DescriptorV1 → Call
  register : Option DescriptorV2 → Call
  remove : StringView → Call

-- What a sequence of calls returns and leaves.
pub record Run : Type 0 where
  pub statuses : List Status
  pub context : Context
  pub heap : Heap

module _ (grants : ℕ → ℕ → Bool) where
  unfoldable pub step : Context → Heap → Call → Called
  unfolding register_v1 register_v2 unregister
  step context heap (register_legacy d) = register_v1 grants context d heap
  step context heap (register d) = register_v2 grants context d heap
  step context heap (remove name) = unregister context name heap

  unfoldable pub run : Context → Heap → List Call → Run
  unfolding step
  run context heap [] = record { statuses = []; context = context; heap = heap }
  run context heap (call ∷ calls) =
      let called = step context heap call in
      let rest = run called.context called.heap calls in
      record { statuses = called.status ∷ rest.statuses; context = rest.context; heap = rest.heap }

-- The promise: a finite map from names to a handler and its data.
abbrev pub Handlers : Type 0
Handlers = Bytes → Option (ℕ × ℕ)

abbrev pub called_of : Option Entry → Option (ℕ × ℕ)
called_of none = none
called_of (some e) = some (e.handler, e.user)

unfoldable pub handlers : List Entry → Handlers
handlers entries name = called_of (find_registered entries (at name))

-- Only a name that has no handler can be given one.
unfoldable pub assign : Bytes → Option ℕ → ℕ → Handlers → Option Handlers
assign name none user m = none
assign name (some handler) user m =
    if is_missing (m name)
    then some (λ k. if bytes_eq k name then some (handler, user) else m k)
    else none

-- Only a name that has one can lose it.
unfoldable pub withdraw : Bytes → Handlers → Option Handlers
withdraw name m =
    if is_missing (m name) then none else some (λ k. if bytes_eq k name then none else m k)

unfoldable pub accept : Call → Handlers → Option Handlers
unfolding assign withdraw
accept (register_legacy none) m = none
accept (register_legacy (some d)) m = assign (contents d.command_name) d.handler d.user m
accept (register none) m = none
accept (register (some d)) m = assign (contents d.fields.command_name) d.handler d.user m
accept (remove name) m = withdraw (contents name) m

-- The map that the calls with status ok leave, when each of them could be accepted.
unfoldable pub replay : List Call → List Status → Handlers → Option Handlers
unfolding accept
replay [] statuses m = some m
replay (call ∷ calls) [] m = none
replay (call ∷ calls) (status ∷ statuses) m = elim (is_ok status) [
  | false ↦ replay calls statuses m
  | true ↦ elim (accept call m) [ none ↦ none | some m' ↦ replay calls statuses m' ]
]
