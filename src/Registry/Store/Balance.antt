-- ===== src/Registry/Store/Balance.antt =====
-- The registry owns its blocks: no operation leaks one or frees one twice.
use universal_launcher.Prelude.{
  ℕ, ◌+◌, ◌*◌, ◌/◌, ◌≡◌, inl, inr, Bool, ◌||◌, Option, none, some, List, [], ◌∷◌, ◌++◌,
  append_assoc, arith, ltb, leb, ◌==◌, if◌then◌else◌, Bool-cases, Option-cases, length,
}
use mathlib.Core.Path.{subst}
use universal_launcher.View.{StringView, size, is_ok}
use universal_launcher.Memory.{Heap, alloc, held, all_held, Allocator}
use universal_launcher.Memory.Ownership.{
  count, count-append, Owns, Owns-cast, alloc-Owns, free-Owns, free_optional-Owns,
}
use universal_launcher.Registry.Names.{view_is_text, is_canonical_command_id}
use universal_launcher.Registry.Model.{
  Fields, block_of, Entry, Context, DescriptorV1, DescriptorV2, sizeof_entry, sizeof_context,
  capacity_limit, size_max, sizeof_descriptor_v1, sizeof_descriptor_v2,
}
use universal_launcher.Registry.Lifetime.{
  take_entry, unregister, context_create, clear_entries, context_destroy, allocator_refused,
  effective,
}
use universal_launcher.Registry.Store.{
  invalidate_graph, clear_registered, grow_capacity, copy_view, copy_fields, replace_table,
  ensure_capacity, add_entry, may_register, add_if_ok, register_internal, register_v1, register_v2,
  names_entry,
}
use universal_launcher.Registry.Store.Blocks.{
  Balanced, field_blocks, entry_blocks, context_blocks, field_order, clear_registered-Owns,
  invalidate_graph-Owns, finish_entry-Owns, table_order,
}

module _ (grants : ℕ → ℕ → Bool) where
  copy_view-Owns :
      (v : StringView) (owned rest : List ℕ) (heap : Heap)
      → Owns owned rest heap
      → Owns (held (block_of (copy_view grants v heap).0) ++ owned) rest (copy_view grants v heap).1
  unfolding copy_view
  copy_view-Owns v owned rest heap o = elim (Bool-cases (view_is_text v)) [
    | inl t ↦
        let o' = alloc-Owns grants (size v + 1) owned rest heap o in
        elim (Option-cases (alloc grants (size v + 1) heap).0) [
          | inl e ↦
              rw (t, copy_view)
                (rw (e) (
                  subst
                    (λ (p : Option ℕ).
                      Owns (held p ++ owned) rest (alloc grants (size v + 1) heap).1)
                    e o'))
          | inr (block, e) ↦
              rw (t, copy_view)
                (rw (e) (
                  subst
                    (λ (p : Option ℕ).
                      Owns (held p ++ owned) rest (alloc grants (size v + 1) heap).1)
                    e o'))
        ]
    | inr t ↦ rw (t, copy_view) o
  ]

  copy_fields-Owns :
      (f : Fields StringView) (owned rest : List ℕ) (heap : Heap)
      → Owns owned rest heap
      → Owns
          (field_blocks (copy_fields grants f heap).0 ++ owned)
          rest
          (copy_fields grants f heap).1
  unfolding copy_fields all_held
  copy_fields-Owns f owned rest heap o =
      let o1 = copy_view-Owns f.command_name _ rest _ o in
      let o2 = copy_view-Owns f.effects_json _ rest _ o1 in
      let o3 = copy_view-Owns f.request_schema _ rest _ o2 in
      let o4 = copy_view-Owns f.response_schema _ rest _ o3 in
      let o5 = copy_view-Owns f.result_schema _ rest _ o4 in
      let o6 = copy_view-Owns f.refusal_schema _ rest _ o5 in
      let o7 = copy_view-Owns f.dry_run_behavior _ rest _ o6 in
      let o8 = copy_view-Owns f.availability _ rest _ o7 in
      let o9 = copy_view-Owns f.owner _ rest _ o8 in
      let o10 = copy_view-Owns f.binding _ rest _ o9 in
      Owns-cast _ _ rest _ (field_order (copy_fields grants f heap).0 owned) o10

  add_entry-Owns :
      (context : Context) (f : Fields StringView) (user handler : ℕ) (rest : List ℕ) (heap : Heap)
      → Owns (context_blocks context) rest heap
      → Owns
          (context_blocks (add_entry grants context f user handler heap).context)
          rest
          (add_entry grants context f user handler heap).heap
  unfolding add_entry
  add_entry-Owns context f user handler rest heap o =
      finish_entry-Owns context (copy_fields grants f heap).0 _ user handler rest
        (copy_fields grants f heap).1 (copy_fields-Owns f (context_blocks context) rest heap o)

  replace_table-Owns :
      (context : Context) (capacity : ℕ) (rest : List ℕ) (heap : Heap)
      → Owns (context_blocks context) rest heap
      → Owns
          (context_blocks (replace_table grants context capacity heap).context)
          rest
          (replace_table grants context capacity heap).heap
  unfolding replace_table count
  replace_table-Owns context capacity rest heap o =
      let o' = alloc-Owns grants (capacity * sizeof_entry) (context_blocks context) rest heap o in
      elim (Option-cases (alloc grants (capacity * sizeof_entry) heap).0) [
        | inl e ↦
            rw (e, replace_table)
              (subst
                (λ (p : Option ℕ).
                  Owns (held p ++ context_blocks context) rest
                    (alloc grants (capacity * sizeof_entry) heap).1)
                e o')
        | inr (block, e) ↦
            let given =
              subst
                (λ (p : Option ℕ).
                  Owns (held p ++ context_blocks context) rest
                    (alloc grants (capacity * sizeof_entry) heap).1)
                e o' in
            let grown : Context = record context { table = some block; capacity = capacity } in
            rw (e, replace_table)
              (free_optional-Owns context.table (context_blocks grown) rest _ (
                Owns-cast _ (held context.table ++ context_blocks grown) rest _
                  (λ b.
                    table_order block b (held (block_of context.graph))
                      (entry_blocks context.entries) (held context.table) (context.block ∷ []))
                  given))
      ]

  ensure_capacity-Owns :
      (context : Context) (required : ℕ) (rest : List ℕ) (heap : Heap)
      → Owns (context_blocks context) rest heap
      → Owns
          (context_blocks (ensure_capacity grants context required heap).context)
          rest
          (ensure_capacity grants context required heap).heap
  unfolding ensure_capacity
  ensure_capacity-Owns context required rest heap o =
      let capacity =
        grow_capacity 16 (if context.capacity == 0 then 8 else context.capacity) required in
      let replaced = replace_table-Owns context capacity rest heap o in
      elim (Bool-cases (leb required context.capacity)) [
        | inl e ↦ rw (e, ensure_capacity) o
        | inr e ↦
            elim (Bool-cases (
              ltb capacity_limit required
              || ltb capacity required
              || ltb capacity_limit capacity
              || ltb (size_max / sizeof_entry) capacity)) [
                | inl e' ↦ rw (e, ensure_capacity) (rw (e') o)
                | inr e' ↦ rw (e, ensure_capacity) (rw (e') replaced)
              ]
      ]

  register_internal-Owns :
      (context : Context) (f : Fields StringView) (user : ℕ) (handler : Option ℕ) (rest : List ℕ)
      (heap : Heap)
      → Owns (context_blocks context) rest heap
      → Balanced rest (register_internal grants context f user handler heap)
  unfolding register_internal add_if_ok
  register_internal-Owns context f user none rest heap o = o
  register_internal-Owns context f user (some handler) rest heap o =
      let ensured = ensure_capacity grants context (length context.entries + 1) heap in
      let o' = ensure_capacity-Owns context (length context.entries + 1) rest heap o in
      elim (Bool-cases (may_register grants context f)) [
        | inr e ↦ rw (e, register_internal) o
        | inl e ↦ elim (Bool-cases (is_ok ensured.status)) [
          | inl k ↦
              rw (e, register_internal)
                (rw (k) (add_entry-Owns ensured.context f user handler rest ensured.heap o'))
          | inr k ↦ rw (e, register_internal) (rw (k) o')
        ]
      ]

  pub register_v1-Owns :
      (context : Context) (descriptor : Option DescriptorV1) (rest : List ℕ) (heap : Heap)
      → Owns (context_blocks context) rest heap
      → Balanced rest (register_v1 grants context descriptor heap)
  unfolding register_v1
  register_v1-Owns context none rest heap o = o
  register_v1-Owns context (some d) rest heap o =
      elim (Bool-cases (ltb d.struct_size sizeof_descriptor_v1)) [
        | inl e ↦ rw (e, register_v1) o
        | inr e ↦
            rw (e, register_v1) (register_internal-Owns context _ d.user d.handler rest heap o)
      ]

  pub register_v2-Owns :
      (context : Context) (descriptor : Option DescriptorV2) (rest : List ℕ) (heap : Heap)
      → Owns (context_blocks context) rest heap
      → Balanced rest (register_v2 grants context descriptor heap)
  unfolding register_v2
  register_v2-Owns context none rest heap o = o
  register_v2-Owns context (some d) rest heap o =
      elim (Bool-cases (ltb d.struct_size sizeof_descriptor_v2)) [
        | inl e ↦ rw (e, register_v2) o
        | inr e ↦
            rw (e, register_v2)
              (register_internal-Owns context d.fields d.user d.handler rest heap o)
      ]

  pub context_create-Owns :
      (requested : Option Allocator) (context : Context) (rest : List ℕ) (heap : Heap)
      → Owns [] rest heap
      → (context_create grants requested heap).context ≡ some context
      → Owns (context_blocks context) rest (context_create grants requested heap).heap
  unfolding context_create entry_blocks
  context_create-Owns requested context rest heap o h =
      let o' = alloc-Owns grants sizeof_context [] rest heap o in
      elim (Bool-cases (allocator_refused requested)) [
        | inl e ↦ ground (arith, h, e)
        | inr e ↦ elim (Option-cases (alloc grants sizeof_context heap).0) [
          | inl n ↦ ground (arith, h, e, n)
          | inr (block, n) ↦
              let fresh : Context = record {
                block = block;
                allocator = effective requested;
                entries = [];
                capacity = 0;
                table = none;
                graph = none;
              } in
              let same : fresh ≡ context = ground (arith, h, e, n) in
              let owned =
                subst
                  (λ (p : Option ℕ). Owns (held p ++ []) rest (alloc grants sizeof_context heap).1)
                  n o' in
              rw (e, context_create)
                (rw (n) (
                  subst
                    (λ (c : Context).
                      Owns (context_blocks c) rest (alloc grants sizeof_context heap).1)
                    same owned))
        ]
      ]

take_entry_blocks :
    (name : StringView) (es rest : List Entry) (e : Entry) (b : ℕ)
    → take_entry name es ≡ some (e, rest)
    → count b (entry_blocks es) ≡ count b (field_blocks e.fields) + count b (entry_blocks rest)
unfolding take_entry entry_blocks count
take_entry_blocks name [] rest e b h = ground arith
take_entry_blocks name (x ∷ es) rest e b h = elim (Bool-cases (names_entry name x)) [
  | inl m ↦ ground (arith, h, m, count-append b (field_blocks x.fields) (entry_blocks es))
  | inr m ↦ elim (Option-cases (take_entry name es)) [
    | inl n ↦ ground (arith, h, m, n)
    | inr ((found, others), n) ↦ ground (
      arith,
      h,
      m,
      n,
      count-append b (field_blocks x.fields) (entry_blocks es),
      count-append b (field_blocks x.fields) (entry_blocks others),
      take_entry_blocks name es others found b n,
    )
  ]
]

pub unregister-Owns :
    (context : Context) (name : StringView) (rest : List ℕ) (heap : Heap)
    → Owns (context_blocks context) rest heap
    → Balanced rest (unregister context name heap)
unfolding unregister
unregister-Owns context name rest heap o = elim (Bool-cases (is_canonical_command_id name)) [
  | inr c ↦ rw (c, unregister) o
  | inl c ↦ elim (Option-cases (take_entry name context.entries)) [
    | inl n ↦ rw (c, unregister) (rw (n) o)
    | inr ((e, others), n) ↦
        let removed : Context = record context { entries = others } in
        rw (c, unregister)
          (rw (n) (
            invalidate_graph-Owns removed rest _ (
              clear_registered-Owns e.fields (context_blocks removed) rest heap (
                Owns-cast _ (field_blocks e.fields ++ context_blocks removed) rest heap
                  (λ b.
                    omega
                      (arith, count-append, take_entry_blocks name context.entries others e b n))
                  o))))
  ]
]

clear_entries-Owns :
    (es : List Entry) (owned rest : List ℕ) (heap : Heap)
    → Owns (entry_blocks es ++ owned) rest heap
    → Owns owned rest (clear_entries es heap)
unfolding clear_entries entry_blocks
clear_entries-Owns [] owned rest heap o = o
clear_entries-Owns (e ∷ es) owned rest heap o =
    clear_entries-Owns es owned rest (clear_registered e.fields heap) (
      clear_registered-Owns e.fields (entry_blocks es ++ owned) rest heap
        (rw (← append_assoc (field_blocks e.fields) (entry_blocks es) owned) o))

pub context_destroy-Owns :
    (context : Context) (rest : List ℕ) (heap : Heap)
    → Owns (context_blocks context) rest heap
    → Owns [] rest (context_destroy context heap)
unfolding context_destroy invalidate_graph
context_destroy-Owns context rest heap o = free-Owns context.block [] rest _ (
    free_optional-Owns context.table (context.block ∷ []) rest _ (
      clear_entries-Owns context.entries (held context.table ++ context.block ∷ []) rest _
        (invalidate_graph-Owns context rest heap o)))
