-- ===== src/Registry/Calls.antt =====
-- What each call does to the entries.
use universal_launcher.Prelude.{
  ℕ, ◌+◌, ◌≤◌, ◌≡◌, refl, sym, ap, ◌∙◌, ◌⊎◌, inl, inr, Bool, true, false, Option, none, some, List,
  [], ◌∷◌, ◌++◌, arith, Bool-cases, Option-cases, length, length-append, All,
}
use mathlib.Core.Path.{subst}
use universal_launcher.View.{StringView, null, at, size, contents, invalid_argument, is_ok}
use universal_launcher.Memory.{Heap, alloc}
use universal_launcher.Registry.Names.{view_is_text, is_canonical_command_id}
use universal_launcher.Registry.Model.{
  Fields, Text, text_of, Entry, Context, Called, is_missing, capacity_limit,
}
use universal_launcher.Registry.Store.{
  find_registered, invalidate_graph, copy_view, copy_fields, some_missing, finish_entry, add_entry,
  may_register, add_if_ok, register_internal,
}
use universal_launcher.Registry.Capacity.{HasRoom, ensure_capacity-HasRoom}
use universal_launcher.Registry.Lookup.{name_of, IsNamed, IsDistinct}

-- What every call on the registry keeps.
pub record IsRegistry (context : Context) : Type 0 where
  pub distinct : IsDistinct context.entries
  pub named : All IsNamed context.entries
  pub has_room : length context.entries ≤ context.capacity
  pub within_limit : context.capacity ≤ capacity_limit

-- A registration adds one entry at the end, or fails and leaves the entries as they are.
pub record Adds (context : Context) (name : StringView) (handler user : ℕ) (called : Called)
    : Type 0 where
  pub succeeds : is_ok called.status ≡ true
  pub entry : Entry
  pub is_added : called.context.entries ≡ context.entries ++ entry ∷ []
  pub is_handler : entry.handler ≡ handler
  pub is_user : entry.user ≡ user
  pub is_name : name_of entry ≡ contents name
  pub is_named : IsNamed entry
  pub is_new : find_registered context.entries (at (contents name)) ≡ none
  pub has_room : length called.context.entries ≤ called.context.capacity
  pub within_limit : called.context.capacity ≤ capacity_limit

pub record Keeps (context : Context) (called : Called) : Type 0 where
  pub fails : is_ok called.status ≡ false
  pub same_entries : called.context.entries ≡ context.entries
  pub within_limit : called.context.capacity ≤ capacity_limit
  pub not_less : context.capacity ≤ called.context.capacity

not_missing : (t : Option Text) → t ≡ none → is_missing t ≡ false → ⊥
not_missing t n h = ground (arith, n, h)

module _ (grants : ℕ → ℕ → Bool) where
  copied_text :
      (v : StringView) (heap : Heap) (t : Text)
      → (copy_view grants v heap).0 ≡ some t
      → t.text ≡ contents v
  unfolding copy_view
  copied_text v heap t h = elim (Bool-cases (view_is_text v)) [
    | inr e ↦ ground (arith, h, e)
    | inl e ↦ elim (Option-cases (alloc grants (size v + 1) heap).0) [
      | inl n ↦ ground (arith, h, e, n)
      | inr (block, n) ↦
          let made : Text = record { block = block; text = contents v } in
          let same : some made ≡ some t = ground (arith, h, e, n) in
          sym (ap (λ (o : Option Text). text_of o) same)
    ]
  ]

  named :
      (pending : Fields (Option Text))
      → some_missing pending ≡ false
      → is_missing pending.command_name ≡ false
  unfolding some_missing
  named pending h = ground (arith, h)

  copied_name :
      (f : Fields StringView) (heap : Heap)
      → some_missing (copy_fields grants f heap).0 ≡ false
      → text_of (copy_fields grants f heap).0.command_name ≡ contents f.command_name
  unfolding copy_fields
  copied_name f heap h = elim (Option-cases (copy_view grants f.command_name heap).0) [
    | inl n ↦
        let present : is_missing (copy_view grants f.command_name heap).0 ≡ false =
          named (copy_fields grants f heap).0 h in
        absurd (not_missing _ n present)
    | inr (t, n) ↦ rw (n) (copied_text f.command_name heap t n)
  ]

  text_size :
      (v : StringView)
      → view_is_text v ≡ true
      → (size v ≡ length (contents v)) × (v ≡ at (contents v))
  unfolding view_is_text
  text_size (null n) h = ground (arith, h)
  text_size (at bytes) h = (refl, refl)

  finish_entry-Adds :
      (context : Context) (f : Fields StringView) (handler user : ℕ) (heap : Heap)
      → view_is_text f.command_name ≡ true
      → find_registered context.entries f.command_name ≡ none
      → length context.entries + 1 ≤ context.capacity
      → context.capacity ≤ capacity_limit
      → some_missing (copy_fields grants f heap).0 ≡ false
      → Adds context f.command_name handler user (add_entry grants context f user handler heap)
  unfolding add_entry finish_entry invalidate_graph
  finish_entry-Adds context f handler user heap t new room limit h =
      let name = copied_name f heap h in
      let entry : Entry = record {
        fields = (copy_fields grants f heap).0;
        command_name_size = size f.command_name;
        handler = handler;
        user = user;
      } in
      rw (h, finish_entry)
        (record {
          succeeds = refl;
          entry = entry;
          is_added = refl;
          is_handler = refl;
          is_user = refl;
          is_name = name;
          is_named = (text_size f.command_name t).0 ∙ sym (ap length name);
          is_new =
              subst (λ (v : StringView). find_registered context.entries v ≡ none)
                (text_size f.command_name t).1 new;
          has_room = omega (arith, room, length-append context.entries (entry ∷ []));
          within_limit = limit;
        })

  -- The context that a registration starts from and the one with room differ in the table only.
  pub add_entry-cases :
      (context : Context) (f : Fields StringView) (handler user : ℕ) (heap : Heap)
      → view_is_text f.command_name ≡ true
      → find_registered context.entries f.command_name ≡ none
      → length context.entries + 1 ≤ context.capacity
      → context.capacity ≤ capacity_limit
      → Adds context f.command_name handler user (add_entry grants context f user handler heap)
        ⊎ Keeps context (add_entry grants context f user handler heap)
  unfolding add_entry finish_entry
  add_entry-cases context f handler user heap t new room limit =
      elim (Bool-cases (some_missing (copy_fields grants f heap).0)) [
        | inl m ↦ inr (
            rw (m, add_entry, finish_entry)
              (record {
                fails = refl;
                same_entries = refl;
                within_limit = limit;
                not_less = ground arith;
              }))
        | inr m ↦ inl (finish_entry-Adds context f handler user heap t new room limit m)
      ]

  Adds-cast :
      (context ensured : Context) (name : StringView) (handler user : ℕ) (called : Called)
      → ensured.entries ≡ context.entries
      → Adds ensured name handler user called
      → Adds context name handler user called
  Adds-cast context ensured name handler user called e a = record {
    succeeds = a.succeeds;
    entry = a.entry;
    is_added = a.is_added ∙ ap (λ (l : List Entry). l ++ a.entry ∷ []) e;
    is_handler = a.is_handler;
    is_user = a.is_user;
    is_name = a.is_name;
    is_named = a.is_named;
    is_new = rw (← e) a.is_new;
    has_room = a.has_room;
    within_limit = a.within_limit;
  }

  add_if_ok-cases :
      (context : Context) (f : Fields StringView) (handler user : ℕ) (ensured : Called)
      → view_is_text f.command_name ≡ true
      → find_registered context.entries f.command_name ≡ none
      → HasRoom context (length context.entries + 1) ensured
      → Adds context f.command_name handler user (add_if_ok grants ensured f user handler)
        ⊎ Keeps context (add_if_ok grants ensured f user handler)
  unfolding add_if_ok
  add_if_ok-cases context f handler user ensured t new r =
      elim (Bool-cases (is_ok ensured.status)) [
        | inr k ↦ inr (
            rw (k, add_if_ok)
              (record {
                fails = k;
                same_entries = r.same_entries;
                within_limit = r.within_limit;
                not_less = r.not_less;
              }))
        | inl k ↦
            elim (add_entry-cases ensured.context f handler user ensured.heap t
              (rw (r.same_entries) new) (rw (r.same_entries) (r.has_room k)) r.within_limit) [
                | inl a ↦ inl (
                    rw (k, add_if_ok)
                      (Adds-cast context ensured.context _ handler user _ r.same_entries a))
                | inr p ↦ inr (
                    rw (k, add_if_ok)
                      (record {
                        fails = p.fails;
                        same_entries = p.same_entries ∙ r.same_entries;
                        within_limit = p.within_limit;
                        not_less = omega (arith, r.not_less, p.not_less);
                      }))
              ]
      ]

  may_register_lem :
      (context : Context) (f : Fields StringView)
      → may_register grants context f ≡ true
      → (view_is_text f.command_name ≡ true)
        × (find_registered context.entries f.command_name ≡ none)
  unfolding may_register is_canonical_command_id
  may_register_lem context f h =
      elim (Option-cases (find_registered context.entries f.command_name)) [
        | inl n ↦ (ground (arith, h), n)
        | inr (e, n) ↦ ground (arith, h, n)
      ]

  stays :
      (context : Context) (heap : Heap)
      → context.capacity ≤ capacity_limit
      → Keeps context (record { status = invalid_argument; context = context; heap = heap })
  stays context heap c = record {
    fails = refl;
    same_entries = refl;
    within_limit = c;
    not_less = ground arith;
  }

  pub register_internal-cases :
      (context : Context) (f : Fields StringView) (user handler : ℕ) (heap : Heap)
      → context.capacity ≤ capacity_limit
      → Adds context f.command_name handler user
          (register_internal grants context f user (some handler) heap)
        ⊎ Keeps context (register_internal grants context f user (some handler) heap)
  unfolding register_internal
  register_internal-cases context f user handler heap c =
      elim (Bool-cases (may_register grants context f)) [
        | inr e ↦ inr (rw (e, register_internal) (stays context heap c))
        | inl e ↦
            let (t, new) = may_register_lem context f e in
            rw (e, register_internal)
              (add_if_ok-cases context f handler user _ t new
                (ensure_capacity-HasRoom grants context (length context.entries + 1) heap c))
      ]
