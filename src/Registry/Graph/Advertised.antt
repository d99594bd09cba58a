-- ===== src/Registry/Graph/Advertised.antt =====
-- The command graph has one row for each command.
use universal_launcher.Prelude.{
  ℕ, ◌+◌, ◌≤◌, ◌≡◌, refl, sym, ap, ◌∙◌, inl, inr, Bool, true, false, not, Option, none, some, List,
  [], ◌∷◌, ◌++◌, arith, Bool-cases, Option-cases, All, Bytes, bytes_eq, c_string,
}
use mathlib.Core.Path.{subst}
use universal_launcher.View.{at, ok}
use universal_launcher.Memory.{Heap}
use universal_launcher.Registry.Names.{string_equals}
use universal_launcher.Registry.Model.{text_of, Entry, Context, is_missing, size_max}
use universal_launcher.Registry.Store.{find_registered}
use universal_launcher.Registry.Calls.{IsRegistry}
use universal_launcher.Registry.Lookup.{name_of, IsNamed, IsDistinct}
use universal_launcher.Registry.Metadata.{
  Metadata, builtin_commands, find_row, find_builtin, metadata_from_registered, command_is_builtin,
  row_of, builtin_rows, registered_rows, graph_rows,
}
use universal_launcher.Registry.Graph.{set_response, build_command_graph}
use universal_launcher.Registry.Graph.Exact.{graph_text}
use universal_launcher.Registry.Graph.Room.{rows_room, build_command_graph_lem}
use universal_launcher.Registry.Graph.Rows.{
  IsPlain, row_name, IsDistinctRows, advertised, find_row-append, find_row-found, row_found,
  row_of-name, row_of-some, row_of-none, builtin_absent, builtin_present,
  IsDistinctRows-builtin_rows, builtin_name, other_name, registered_name,
}

missing_lem : (m : Option Metadata) → not (is_missing m) ≡ false → m ≡ none
missing_lem none h = refl
missing_lem (some m) h = absurd (ground (arith, h))

module _ (entries : List Entry) (named : All IsNamed entries) (plain : All IsPlain entries) where
  advertised-none :
      (k : Bytes)
      → find_registered entries (at k) ≡ none
      → advertised entries k ≡ find_builtin (at k)
  unfolding advertised
  advertised-none k e = rw (e, advertised) refl

  advertised-some :
      (k : Bytes) (x : Entry)
      → find_registered entries (at k) ≡ some x
      → advertised entries k ≡ some (metadata_from_registered x)
  unfolding advertised
  advertised-some k x e = rw (e, advertised) refl

  -- The rows of the second loop, for a name that is no built-in one.
  own_lem :
      (k : Bytes)
      → find_builtin (at k) ≡ none
      → find_row (registered_rows entries) (at k) ≡ advertised entries k
  unfolding command_is_builtin
  own_lem k h =
      let own : command_is_builtin k ≡ false = ap (λ m. not (is_missing m)) h in
      elim (Option-cases (find_registered entries (at k))) [
        | inl e ↦ other_name entries k named plain own e ∙ sym (advertised-none k e ∙ h)
        | inr (x, e) ↦ registered_name entries k x named plain own e ∙ sym (advertised-some k x e)
      ]

  row_of-advertised :
      (row : Metadata) (k : Bytes)
      → find_builtin (at k) ≡ some row
      → row_name row ≡ k
      → some (row_of entries row) ≡ advertised entries k
  row_of-advertised row k h e = elim (Option-cases (find_registered entries (at k))) [
    | inl f ↦
        let f' = subst (λ (n : Bytes). find_registered entries (at n) ≡ none) (sym e) f in
        ap (λ (r : Metadata). some r) (row_of-none entries named plain row f')
        ∙ sym (advertised-none k f ∙ h)
    | inr (x, f) ↦
        let f' = subst (λ (n : Bytes). find_registered entries (at n) ≡ some x) (sym e) f in
        ap (λ (r : Metadata). some r) (row_of-some entries named plain row x f')
        ∙ sym (advertised-some k x f)
  ]

  find_row-graph_rows : (k : Bytes) → find_row (graph_rows entries) (at k) ≡ advertised entries k
  unfolding graph_rows find_builtin
  find_row-graph_rows k = elim (Option-cases (find_row builtin_commands (at k))) [
    | inl h ↦
        find_row-append (builtin_rows entries builtin_commands) (registered_rows entries) k
          (builtin_absent entries named plain builtin_commands k h)
        ∙ own_lem k h
    | inr (row, h) ↦
        find_row-found (builtin_rows entries builtin_commands) (registered_rows entries) k
          (row_of entries row) (builtin_present entries named plain builtin_commands k row h)
        ∙ row_of-advertised row k h (row_found builtin_commands k row h)
  ]

  All-builtin_rows :
      (rows : List Metadata)
      → All (λ row. command_is_builtin (row_name row) ≡ true) rows
      → All (λ row. command_is_builtin (row_name row) ≡ true) (builtin_rows entries rows)
  unfolding builtin_rows
  All-builtin_rows [] h = tt
  All-builtin_rows (row ∷ rows) h =
      (ap command_is_builtin (row_of-name entries named plain row) ∙ h.0, All-builtin_rows rows h.1)

IsDistinctRows-registered_rows :
    (entries : List Entry)
    → IsDistinct entries
    → All IsNamed entries
    → All IsPlain entries
    → IsDistinctRows (registered_rows entries)
unfolding registered_rows metadata_from_registered
IsDistinctRows-registered_rows [] d n p = tt
IsDistinctRows-registered_rows (x ∷ entries) d n p =
    let rest = IsDistinctRows-registered_rows entries d.1 n.1 p.1 in
    elim (Bool-cases (command_is_builtin (c_string (name_of x)))) [
      | inl skipped ↦ rw (skipped, registered_rows) rest
      | inr kept ↦
          rw (kept, registered_rows)
            (
              other_name entries (c_string (name_of x)) n.1 p.1 kept
                  (subst (λ (k : Bytes). find_registered entries (at k) ≡ none) (sym p.0) d.0),
              rest,
            )
    ]

append_distinct :
    (xs : List Metadata) (entries : List Entry)
    → All IsPlain entries
    → IsDistinctRows xs
    → All (λ row. command_is_builtin (row_name row) ≡ true) xs
    → IsDistinctRows (registered_rows entries)
    → IsDistinctRows (xs ++ registered_rows entries)
append_distinct [] entries p d b r = r
append_distinct (x ∷ xs) entries p d b r = (
  find_row-append xs (registered_rows entries) (row_name x) d.0
      ∙ builtin_name entries (row_name x) p b.0,
  append_distinct xs entries p d.1 b.1 r,
)

builtin_names : All (λ row. command_is_builtin (row_name row) ≡ true) builtin_commands
unfolding builtin_commands command_is_builtin string_equals bytes_eq
builtin_names =
    (refl, (refl, (refl, (refl, (refl, (refl, (refl, (refl, (refl, (refl, (refl, tt)))))))))))

builtin_distinct : IsDistinctRows builtin_commands
unfolding builtin_commands find_row string_equals bytes_eq
builtin_distinct =
    (refl, (refl, (refl, (refl, (refl, (refl, (refl, (refl, (refl, (refl, (refl, tt)))))))))))

IsDistinctRows-graph_rows :
    (entries : List Entry)
    → IsDistinct entries
    → All IsNamed entries
    → All IsPlain entries
    → IsDistinctRows (graph_rows entries)
unfolding graph_rows
IsDistinctRows-graph_rows entries d n p =
    append_distinct (builtin_rows entries builtin_commands) entries p
      (IsDistinctRows-builtin_rows entries n p builtin_commands builtin_distinct)
      (All-builtin_rows entries n p builtin_commands builtin_names)
      (IsDistinctRows-registered_rows entries d n p)

-- On a context that keeps the invariant of the registry and whose names have no zero byte, with
-- an allocator that always delivers, and when the computed capacity is within size_t,
-- command_graph.inspect answers ok with the text of a list of rows, which the context keeps; no
-- two rows have the same name, and the row of a name is the metadata of the command that is
-- registered under it, or else the built-in row, and there is none when the name is neither
-- registered nor built in.
pub build_command_graph-advertised :
    (grants : ℕ → ℕ → Bool) (context : Context) (heap : Heap)
    → IsRegistry context
    → All IsPlain context.entries
    → 512 + rows_room (graph_rows context.entries) ≤ size_max
    → ((n bytes : ℕ) → grants n bytes ≡ true)
    → (rows : List Metadata) × ((build_command_graph grants context heap).response
        ≡ set_response ok (some (c_string (graph_text rows))) none)
      × (text_of (build_command_graph grants context heap).context.graph ≡ graph_text rows)
      × IsDistinctRows rows
      × ((k : Bytes) → find_row rows (at k) ≡ advertised context.entries k)
build_command_graph-advertised grants context heap r p h g =
    let (answers, keeps) = build_command_graph_lem grants context heap h g in
    (
      graph_rows context.entries,
      answers,
      keeps,
      IsDistinctRows-graph_rows context.entries r.distinct r.named p,
      find_row-graph_rows context.entries r.named p,
    )
