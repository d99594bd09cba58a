-- ===== src/Registry/Runs/Steps.antt =====
-- Each call follows the promised map, or fails and changes no entry.
use universal_launcher.Prelude.{
  ℕ, ◌+◌, ◌≡◌, refl, sym, ap, ◌∙◌, ◌⊎◌, inl, inr, Bool, true, false, Option, none, some, List, [],
  ◌∷◌, ◌++◌, arith, ltb, if◌then◌else◌, Bool-cases, Option-cases, length, All, All-append, Bytes,
  bytes_eq,
}
use universal_launcher.View.{StringView, null, at, contents, ok, invalid_argument, is_ok}
use universal_launcher.Memory.{Heap}
use universal_launcher.Registry.Names.{view_is_text, is_canonical_command_id}
use universal_launcher.Registry.Model.{
  Fields, Entry, Context, DescriptorV1, DescriptorV2, Called, is_missing, sizeof_descriptor_v1,
  sizeof_descriptor_v2,
}
use universal_launcher.Registry.Lifetime.{take_entry, unregister}
use universal_launcher.Registry.Store.{
  find_registered, invalidate_graph, clear_registered, register_internal, register_v1, register_v2,
  names_entry,
}
use mathlib.Core.Path.{fun_ext}
use universal_launcher.Registry.Lookup.{
  name_of, IsNamed, IsDistinct, find-append, IsDistinct-append, names_entry_lem, take-find,
  IsDistinct-take,
}
use universal_launcher.Registry.Calls.{IsRegistry, Adds, Keeps, register_internal-cases}
use universal_launcher.Registry.Runs.{
  Call, register_legacy, register, remove, step, Handlers, called_of, handlers, assign, withdraw,
  accept,
}

-- A call does what the map promises and says so, or fails and changes no entry.
abbrev pub Follows : Call → Context → Called → Type 0
Follows call context called =
    ((is_ok called.status ≡ true)
      × (accept call (handlers context.entries) ≡ some (handlers called.context.entries)))
    ⊎ ((is_ok called.status ≡ false) × (called.context.entries ≡ context.entries))

called_if :
    (b : Bool) (e : Entry) (found : Option Entry)
    → called_of (if b then some e else found)
      ≡ (if b then some (e.handler, e.user) else called_of found)
called_if true e found = refl
called_if false e found = refl

called_unless :
    (b : Bool) (found : Option Entry)
    → called_of (if b then none else found) ≡ (if b then none else called_of found)
called_unless true found = refl
called_unless false found = refl

assign_lem :
    (es : List Entry) (e : Entry) (k : Bytes)
    → find_registered es (at (name_of e)) ≡ none
    → IsNamed e
    → handlers (es ++ e ∷ []) k
      ≡ (if bytes_eq k (name_of e) then some (e.handler, e.user) else handlers es k)
unfolding handlers
assign_lem es e k new named =
    rw (find-append es e k new, handlers)
      (rw (names_entry_lem e k named)
        (called_if (bytes_eq k (name_of e)) e (find_registered es (at k))))

withdraw_lem :
    (es rest : List Entry) (e : Entry) (name k : Bytes)
    → take_entry (at name) es ≡ some (e, rest)
    → IsDistinct es
    → All IsNamed es
    → handlers rest k ≡ (if bytes_eq k name then none else handlers es k)
unfolding handlers
withdraw_lem es rest e name k t d n =
    rw (take-find es rest e name k t d n, handlers)
      (called_unless (bytes_eq k name) (find_registered es (at k)))

Adds-Follows :
    (context : Context) (name : StringView) (handler user : ℕ) (called : Called)
    → Adds context name handler user called
    → assign (contents name) (some handler) user (handlers context.entries)
      ≡ some (handlers called.context.entries)
unfolding assign handlers
Adds-Follows context name handler user called a =
    rw (ap (λ (o : Option Entry). called_of o) a.is_new, handlers)
      (ap (λ (m : Handlers). some m) (fun_ext agrees))
  where
    old : find_registered context.entries (at (name_of a.entry)) ≡ none
    old = rw (a.is_name) a.is_new

    agrees :
        (k : Bytes)
        → (if bytes_eq k (contents name) then some (handler, user) else handlers context.entries k)
          ≡ handlers called.context.entries k
    agrees k = rw (a.is_added) (
        rw (assign_lem context.entries a.entry k old a.is_named)
          (rw (a.is_name) (rw (a.is_handler) (rw (a.is_user) refl))))

Adds-IsRegistry :
    (context : Context) (name : StringView) (handler user : ℕ) (called : Called)
    → IsRegistry context
    → Adds context name handler user called
    → IsRegistry called.context
Adds-IsRegistry context name handler user called r a = record {
  distinct = rw (a.is_added) (IsDistinct-append context.entries a.entry r.distinct r.named old);
  named =
      rw (a.is_added) (All-append IsNamed context.entries (a.entry ∷ []) r.named (a.is_named, tt));
  has_room = a.has_room;
  within_limit = a.within_limit;
}
  where
    old : find_registered context.entries (at (name_of a.entry)) ≡ none
    old = rw (a.is_name) a.is_new

Keeps-IsRegistry :
    (context : Context) (called : Called)
    → IsRegistry context
    → Keeps context called
    → IsRegistry called.context
Keeps-IsRegistry context called r p = record {
  distinct = rw (p.same_entries) r.distinct;
  named = rw (p.same_entries) r.named;
  has_room = omega (arith, ap length p.same_entries, p.not_less, r.has_room);
  within_limit = p.within_limit;
}

-- The invariant after a call, and the promise.
abbrev pub Steps : Call → Context → Called → Type 0
Steps call context called = Follows call context called × IsRegistry called.context

registered :
    (call : Call) (context : Context) (name : StringView) (handler user : ℕ) (called : Called)
    → accept call (handlers context.entries)
      ≡ assign (contents name) (some handler) user (handlers context.entries)
    → IsRegistry context
    → Adds context name handler user called ⊎ Keeps context called
    → Steps call context called
registered call context name handler user called e r (inl a) = (
  inl (a.succeeds, e ∙ Adds-Follows context name handler user called a),
  Adds-IsRegistry context name handler user called r a,
)
registered call context name handler user called e r (inr p) =
    (inr (p.fails, p.same_entries), Keeps-IsRegistry context called r p)

refused :
    (call : Call) (context : Context) (heap : Heap)
    → IsRegistry context
    → Steps call context (record { status = invalid_argument; context = context; heap = heap })
refused call context heap r = (inr (refl, refl), r)

module _ (grants : ℕ → ℕ → Bool) where
  internal-Steps :
      (call : Call) (context : Context) (f : Fields StringView) (user : ℕ) (handler : Option ℕ)
      (heap : Heap)
      → accept call (handlers context.entries)
        ≡ assign (contents f.command_name) handler user (handlers context.entries)
      → IsRegistry context
      → Steps call context (register_internal grants context f user handler heap)
  unfolding register_internal
  internal-Steps call context f user none heap e r = refused call context heap r
  internal-Steps call context f user (some handler) heap e r =
      registered call context f.command_name handler user _ e r
        (register_internal-cases grants context f user handler heap r.within_limit)

  legacy-Steps :
      (context : Context) (d : Option DescriptorV1) (heap : Heap)
      → IsRegistry context
      → Steps (register_legacy d) context (register_v1 grants context d heap)
  unfolding register_v1 accept
  legacy-Steps context none heap r = refused (register_legacy none) context heap r
  legacy-Steps context (some d) heap r =
      elim (Bool-cases (ltb d.struct_size sizeof_descriptor_v1)) [
        | inl e ↦ rw (e, register_v1) (refused (register_legacy (some d)) context heap r)
        | inr e ↦
            rw (e, register_v1)
              (internal-Steps (register_legacy (some d)) context _ d.user d.handler heap refl r)
      ]

  register-Steps :
      (context : Context) (d : Option DescriptorV2) (heap : Heap)
      → IsRegistry context
      → Steps (register d) context (register_v2 grants context d heap)
  unfolding register_v2 accept
  register-Steps context none heap r = refused (register none) context heap r
  register-Steps context (some d) heap r =
      elim (Bool-cases (ltb d.struct_size sizeof_descriptor_v2)) [
        | inl e ↦ rw (e, register_v2) (refused (register (some d)) context heap r)
        | inr e ↦
            rw (e, register_v2)
              (internal-Steps (register (some d)) context d.fields d.user d.handler heap refl r)
      ]

take_found :
    (es rest : List Entry) (e : Entry) (name : StringView)
    → take_entry name es ≡ some (e, rest)
    → (is_missing (find_registered es name) ≡ false) × (length es ≡ length rest + 1)
unfolding take_entry find_registered
take_found [] rest e name h = ground (arith, h)
take_found (x ∷ es) rest e name h = elim (Bool-cases (names_entry name x)) [
  | inl m ↦ (ground (arith, h, m), ground (arith, h, m))
  | inr m ↦ elim (Option-cases (take_entry name es)) [
    | inl n ↦ ground (arith, h, m, n)
    | inr ((found, others), n) ↦
        let ih = take_found es others found name n in
        (ground (arith, h, m, n, ih.0), ground (arith, h, m, n, ih.1))
  ]
]

missing_called : (o : Option Entry) → is_missing (called_of o) ≡ is_missing o
missing_called none = refl
missing_called (some e) = refl

removed-Steps :
    (context : Context) (name : Bytes) (rest : List Entry) (e : Entry) (called : Called)
    → take_entry (at name) context.entries ≡ some (e, rest)
    → IsRegistry context
    → is_ok called.status ≡ true
    → called.context.entries ≡ rest
    → called.context.capacity ≡ context.capacity
    → Steps (remove (at name)) context called
unfolding accept withdraw handlers
removed-Steps context name rest e called t r k same capacity =
    let (found, fewer) = take_found context.entries rest e (at name) t in
    let (distinct, named) = IsDistinct-take context.entries rest e name t r.distinct r.named in
    (
      inl (
        k,
        rw
            (
              missing_called (find_registered context.entries (at name)) ∙ found,
              accept,
              withdraw,
              handlers,
            )
            (ap (λ (m : Handlers). some m) (fun_ext agrees)),
      ),
      record {
        distinct = rw (same) distinct;
        named = rw (same) named;
        has_room = omega (arith, ap length same, fewer, capacity, r.has_room);
        within_limit = omega (arith, capacity, r.within_limit);
      },
    )
  where
    agrees :
        (k : Bytes)
        → (if bytes_eq k name then none else handlers context.entries k)
          ≡ handlers called.context.entries k
    agrees k = rw (same) (sym (withdraw_lem context.entries rest e name k t r.distinct r.named))

unregister-Steps :
    (context : Context) (name : StringView) (heap : Heap)
    → IsRegistry context
    → Steps (remove name) context (unregister context name heap)
unfolding unregister invalidate_graph is_canonical_command_id view_is_text
unregister-Steps context (null n) heap r = refused (remove (null n)) context heap r
unregister-Steps context (at name) heap r = elim (Bool-cases (is_canonical_command_id (at name))) [
  | inr c ↦ rw (c, unregister) (refused (remove (at name)) context heap r)
  | inl c ↦ elim (Option-cases (take_entry (at name) context.entries)) [
    | inl n ↦ rw (c, unregister) (rw (n) (refused (remove (at name)) context heap r))
    | inr ((e, others), n) ↦
        let left =
          invalidate_graph (record context { entries = others }) (clear_registered e.fields heap) in
        let called : Called = record { status = ok; context = left.0; heap = left.1 } in
        rw (c, unregister) (rw (n) (removed-Steps context name others e called n r refl refl refl))
  ]
]

module _ (grants : ℕ → ℕ → Bool) where
  pub step-Steps :
      (context : Context) (heap : Heap) (call : Call)
      → IsRegistry context
      → Steps call context (step grants context heap call)
  unfolding step
  step-Steps context heap (register_legacy d) r = legacy-Steps grants context d heap r
  step-Steps context heap (register d) r = register-Steps grants context d heap r
  step-Steps context heap (remove name) r = unregister-Steps context name heap r
