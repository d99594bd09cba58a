-- ===== src/Registry/Success.antt =====
-- When a registration succeeds.
use universal_launcher.Prelude.{
  ℕ, ◌+◌, ◌≡◌, refl, inl, inr, Bool, true, false, ◌&&◌, Option, some, arith, ltb, leb, Bool-cases,
  length, All,
}
use universal_launcher.View.{StringView, size, is_ok}
use universal_launcher.Memory.{Heap, alloc}
use universal_launcher.Registry.Names.{view_is_text, is_canonical_command_id, effects_json_is_valid}
use universal_launcher.Registry.Model.{
  Fields, Text, Context, is_missing, field_list, capacity_limit,
}
use universal_launcher.Registry.Store.{
  copy_view, copy_fields, ensure_capacity, some_missing, finish_entry, add_entry, may_register,
  add_if_ok, register_internal,
}
use universal_launcher.Registry.Capacity.{ensure_capacity-ok}
use universal_launcher.Registry.Calls.{IsRegistry}

none_missing :
    (f : Fields (Option Text))
    → All (λ (t : Option Text). is_missing t ≡ false) (field_list f)
    → some_missing f ≡ false
unfolding some_missing
none_missing f (h1, (h2, (h3, (h4, (h5, (h6, (h7, (h8, (h9, (h10, _)))))))))) =
    rw (h1, h2, h3, h4, h5, h6, h7, h8, h9, h10) refl

module _ (grants : ℕ → ℕ → Bool) (granted : (n bytes : ℕ) → grants n bytes ≡ true) where
  copied :
      (v : StringView) (heap : Heap)
      → view_is_text v ≡ true
      → is_missing (copy_view grants v heap).0 ≡ false
  unfolding copy_view alloc
  copied v heap t = rw (t, copy_view) (rw (granted heap.next (size v + 1), alloc) refl)

  copy_fields_lem :
      (f : Fields StringView) (heap : Heap)
      → All (λ (v : StringView). view_is_text v ≡ true) (field_list f)
      → some_missing (copy_fields grants f heap).0 ≡ false
  unfolding copy_fields
  copy_fields_lem f heap (t1, (t2, (t3, (t4, (t5, (t6, (t7, (t8, (t9, (t10, _)))))))))) =
      none_missing (copy_fields grants f heap).0 (
        copied f.command_name _ t1,
        (
          copied f.effects_json _ t2,
          (
            copied f.request_schema _ t3,
            (
              copied f.response_schema _ t4,
              (
                copied f.result_schema _ t5,
                (
                  copied f.refusal_schema _ t6,
                  (
                    copied f.dry_run_behavior _ t7,
                    (
                      copied f.availability _ t8,
                      (copied f.owner _ t9, (copied f.binding _ t10, tt)),
                    ),
                  ),
                ),
              ),
            ),
          ),
        ),
      )

  may_register-text :
      (context : Context) (f : Fields StringView)
      → may_register grants context f ≡ true
      → All (λ (v : StringView). view_is_text v ≡ true) (field_list f)
  unfolding may_register is_canonical_command_id effects_json_is_valid
  may_register-text context f h = (
    ground (arith, h),
    (
      ground (arith, h),
      (
        ground (arith, h),
        (
          ground (arith, h),
          (
            ground (arith, h),
            (
              ground (arith, h),
              (
                ground (arith, h),
                (ground (arith, h), (ground (arith, h), (ground (arith, h), tt))),
              ),
            ),
          ),
        ),
      ),
    ),
  )

  no_room :
      (context : Context) (heap : Heap)
      → IsRegistry context
      → ltb capacity_limit (length context.entries + 1) ≡ true
      → is_ok (ensure_capacity grants context (length context.entries + 1) heap).status ≡ false
  unfolding ensure_capacity
  no_room context heap r full =
      elim (Bool-cases (leb (length context.entries + 1) context.capacity)) [
        | inl e ↦ absurd (ground (arith, e, full, r.has_room, r.within_limit))
        | inr e ↦ rw (e, ensure_capacity) (rw (full) refl)
      ]

  -- With an allocator that always delivers, a registration with a handler on a context that
  -- keeps the invariant succeeds exactly when its texts pass the tests, its name is free and
  -- fewer entries are registered than the storage limit allows.
  pub register_internal-ok :
      (context : Context) (f : Fields StringView) (user handler : ℕ) (heap : Heap)
      → IsRegistry context
      → is_ok (register_internal grants context f user (some handler) heap).status
        ≡ (may_register grants context f && ltb (length context.entries) capacity_limit)
  unfolding register_internal add_if_ok add_entry finish_entry
  register_internal-ok context f user handler heap r =
      elim (Bool-cases (may_register grants context f)) [
        | inr e ↦ rw (e, register_internal) refl
        | inl e ↦ elim (Bool-cases (ltb (length context.entries) capacity_limit)) [
          | inl room ↦
              let k =
                ensure_capacity-ok grants context (length context.entries + 1) heap granted
                  r.within_limit (ground (arith, room)) in
              let ensured = ensure_capacity grants context (length context.entries + 1) heap in
              let c = copy_fields_lem f ensured.heap (may_register-text context f e) in
              rw (e, register_internal)
                (rw (room) (rw (k, add_if_ok) (rw (c, add_entry, finish_entry) refl)))
          | inr full ↦
              rw (e, register_internal)
                (rw (full) (
                  rw (no_room context heap r (ground (arith, full)), add_if_ok)
                    (no_room context heap r (ground (arith, full)))))
        ]
      ]
