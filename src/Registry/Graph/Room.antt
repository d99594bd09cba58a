-- ===== src/Registry/Graph/Room.antt =====
-- The capacity that is computed for the graph is enough for its text.
use universal_launcher.Prelude.{
  ℕ, ◌+◌, ◌*◌, ◌≤◌, ◌<◌, ◌≡◌, refl, ap, ◌∙◌, inl, inr, Bool, true, false, none, some, List, [], ◌∷◌,
  ◌++◌, arith, Option-cases, length, length-append, Bytes, codes, c_string,
}
use universal_launcher.View.{ok}
use universal_launcher.Memory.{Heap, alloc}
use universal_launcher.Registry.Model.{text_of, Context, field_list, size_max}
use universal_launcher.Registry.Store.{invalidate_graph}
use universal_launcher.Session.Json.{escaped}
use universal_launcher.Registry.Metadata.{Metadata, graph_rows}
use universal_launcher.Registry.Graph.{
  write_graph, capacity_add, capacity_add_lengths, capacity_add_metadata, capacity_add_rows,
  set_response, write_block, build_with_capacity, build_rows, build_command_graph,
}
use universal_launcher.Registry.Graph.Exact.{
  escapes, quoted, field_text, row_text, rows_text, graph_text, write_graph_lem,
}

escaped_size : (c : ℕ) → length (escaped c) ≤ 6
unfolding escaped
escaped_size c = ground arith

escapes_size : (s : Bytes) → length (escapes s) ≤ 6 * length s
unfolding escapes
escapes_size [] = omega arith
escapes_size (c ∷ s) =
    omega (arith, escaped_size c, escapes_size s, length-append (escaped c) (escapes s))

field_size :
    (name value : Bytes)
    → length (field_text name value) ≤ length (escapes name) + 5 + 6 * length value
field_size name value = omega (
  arith,
  escapes_size value,
  length-append (escapes name) (34 ∷ []),
  length-append (escapes value) (34 ∷ []),
  length-append (quoted name) (b':' ∷ quoted value),
)

-- A field of a row, its comma, and what follows.
pair_size :
    (name value rest : Bytes) (n : ℕ)
    → length (escapes name) ≡ n
    → length (field_text name value ++ rest) ≤ n + 5 + 6 * length value + length rest
pair_size name value rest n e =
    omega (arith, e, field_size name value, length-append (field_text name value) rest)

unfoldable pub total : List Bytes → ℕ
total [] = 0
total (t ∷ ts) = length t * 6 + total ts

unfoldable pub row_room : Metadata → ℕ
row_room row = 512 + total (field_list row.fields ++ row.handler_status ∷ [])

unfoldable pub rows_room : List Metadata → ℕ
rows_room [] = 0
rows_room (row ∷ rows) = row_room row + rows_room rows

row_size : (row : Metadata) → length (row_text row) + 1 ≤ row_room row
unfolding row_text row_room total escapes escaped
row_size row = omega (
  arith,
  pair_size (codes "command") row.fields.command_name _ 7 refl,
  pair_size (codes "request_schema") row.fields.request_schema _ 14 refl,
  pair_size (codes "response_schema") row.fields.response_schema _ 15 refl,
  pair_size (codes "result_schema") row.fields.result_schema _ 13 refl,
  pair_size (codes "refusal_schema") row.fields.refusal_schema _ 14 refl,
  pair_size (codes "dry_run_behavior") row.fields.dry_run_behavior _ 16 refl,
  pair_size (codes "availability") row.fields.availability _ 12 refl,
  pair_size (codes "owner") row.fields.owner _ 5 refl,
  pair_size (codes "binding") row.fields.binding _ 7 refl,
  pair_size (codes "handler_status") row.handler_status _ 14 refl,
  length-append row.fields.effects_json (b'}' ∷ []),
)

rows_size :
    (has_entry : Bool) (rows : List Metadata) → length (rows_text has_entry rows) ≤ rows_room rows
unfolding rows_text rows_room
rows_size has_entry [] = omega arith
rows_size true (row ∷ rows) =
    omega
      (arith, row_size row, rows_size true rows, length-append (row_text row) (rows_text true rows))
rows_size false (row ∷ rows) =
    omega
      (arith, row_size row, rows_size true rows, length-append (row_text row) (rows_text true rows))

graph_size : (rows : List Metadata) → length (graph_text rows) < 512 + rows_room rows
unfolding graph_text
graph_size rows =
    omega (
      arith,
      rows_size false rows,
      length-append (rows_text false rows) (codes "]},\"error\":null}"),
    )

capacity_add_lem :
    (amount capacity c : ℕ)
    → capacity ≤ size_max
    → capacity_add amount capacity ≡ some c
    → (c ≡ capacity + amount) × (c ≤ size_max)
unfolding capacity_add
capacity_add_lem amount capacity c b h = (ground (arith, b, h), ground (arith, b, h))

capacity_add_lengths_lem :
    (ts : List Bytes) (capacity c : ℕ)
    → capacity ≤ size_max
    → capacity_add_lengths ts capacity ≡ some c
    → (c ≡ capacity + total ts) × (c ≤ size_max)
unfolding capacity_add_lengths total
capacity_add_lengths_lem [] capacity c b h = (ground (arith, h), ground (arith, h, b))
capacity_add_lengths_lem (t ∷ ts) capacity c b h =
    elim (Option-cases (capacity_add (length t * 6) capacity)) [
      | inl n ↦ (ground (arith, h, n), ground (arith, h, n))
      | inr (c', n) ↦
          let (e, b') = capacity_add_lem (length t * 6) capacity c' b n in
          let (e', b'') = capacity_add_lengths_lem ts c' c b' (ground (arith, h, n)) in
          (omega (arith, e, e'), b'')
    ]

capacity_add_rows_lem :
    (rows : List Metadata) (capacity c : ℕ)
    → capacity ≤ size_max
    → capacity_add_rows rows capacity ≡ some c
    → (c ≡ capacity + rows_room rows) × (c ≤ size_max)
unfolding capacity_add_rows capacity_add_metadata rows_room row_room
capacity_add_rows_lem [] capacity c b h = (ground (arith, h), ground (arith, h, b))
capacity_add_rows_lem (row ∷ rows) capacity c b h =
    elim (Option-cases (capacity_add 512 capacity)) [
      | inl n ↦ (ground (arith, h, n), ground (arith, h, n))
      | inr (c1, n1) ↦
          let (e1, b1) = capacity_add_lem 512 capacity c1 b n1 in
          elim (Option-cases
            (capacity_add_lengths (field_list row.fields ++ row.handler_status ∷ []) c1)) [
              | inl n ↦ (ground (arith, h, n1, n), ground (arith, h, n1, n))
              | inr (c2, n2) ↦
                  let (e2, b2) =
                    capacity_add_lengths_lem (field_list row.fields ++ row.handler_status ∷ []) c1
                      c2 b1 n2 in
                  let (e3, b3) = capacity_add_rows_lem rows c2 c b2 (ground (arith, h, n1, n2)) in
                  (omega (arith, e1, e2, e3), b3)
            ]
    ]

-- When the capacity for the rows of a command graph is computed without overflow, a buffer of
-- that capacity takes the whole graph: no write is refused, and the buffer holds exactly the
-- text that the rows stand for, with the strings escaped as JSON.
pub write_graph-capacity_add_rows :
    (rows : List Metadata) (capacity : ℕ)
    → capacity_add_rows rows 512 ≡ some capacity
    → write_graph capacity rows ≡ some (graph_text rows)
write_graph-capacity_add_rows rows capacity h =
    let (e, b) = capacity_add_rows_lem rows 512 capacity (omega arith) h in
    write_graph_lem capacity (omega (arith, b)) rows (omega (arith, e, graph_size rows))

capacity_add_lengths_fits :
    (ts : List Bytes) (capacity : ℕ)
    → capacity + total ts ≤ size_max
    → capacity_add_lengths ts capacity ≡ some (capacity + total ts)
unfolding capacity_add_lengths capacity_add total
capacity_add_lengths_fits [] capacity h = ground arith
capacity_add_lengths_fits (t ∷ ts) capacity h =
    ground (arith, h, capacity_add_lengths_fits ts (capacity + length t * 6) (omega (arith, h)))

capacity_add_fits :
    (amount capacity : ℕ)
    → capacity + amount ≤ size_max
    → capacity_add amount capacity ≡ some (capacity + amount)
unfolding capacity_add
capacity_add_fits amount capacity h = ground (arith, h)

capacity_add_metadata_fits :
    (row : Metadata) (capacity : ℕ)
    → capacity + row_room row ≤ size_max
    → capacity_add_metadata row capacity ≡ some (capacity + row_room row)
unfolding capacity_add_metadata row_room
capacity_add_metadata_fits row capacity h =
    let texts = field_list row.fields ++ row.handler_status ∷ [] in
    rw (capacity_add_fits 512 capacity (omega (arith, h)), capacity_add_metadata)
      (capacity_add_lengths_fits texts (capacity + 512) (omega (arith, h))
        ∙ ap (λ (n : ℕ). some n) (omega arith))

capacity_add_rows_fits :
    (rows : List Metadata) (capacity : ℕ)
    → capacity + rows_room rows ≤ size_max
    → capacity_add_rows rows capacity ≡ some (capacity + rows_room rows)
unfolding capacity_add_rows rows_room
capacity_add_rows_fits [] capacity h = ground arith
capacity_add_rows_fits (row ∷ rows) capacity h =
    rw (capacity_add_metadata_fits row capacity (omega (arith, h)), capacity_add_rows)
      (capacity_add_rows_fits rows (capacity + row_room row) (omega (arith, h))
        ∙ ap (λ (n : ℕ). some n) (omega arith))

module _ (grants : ℕ → ℕ → Bool) where
  build_rows_lem :
      (context : Context) (rows : List Metadata) (heap : Heap)
      → 512 + rows_room rows ≤ size_max
      → grants heap.next (512 + rows_room rows) ≡ true
      → ((build_rows grants context rows heap).response
          ≡ set_response ok (some (c_string (graph_text rows))) none)
        × (text_of (build_rows grants context rows heap).context.graph ≡ graph_text rows)
  unfolding build_rows build_with_capacity write_block alloc
  build_rows_lem context rows heap h g =
      let fits = capacity_add_rows_fits rows 512 h in
      rw (fits, build_rows)
        (rw (g, build_with_capacity, alloc)
          (rw (write_graph-capacity_add_rows rows (512 + rows_room rows) fits, write_block)
            (refl, refl)))

-- With an allocator that always delivers, and when the computed capacity is within size_t,
-- command_graph.inspect answers ok with the text of the graph, whose rows are the built-in
-- commands, each replaced by a registered one of its name, and then the other registered
-- commands; the context keeps that text.
pub build_command_graph_lem :
    (grants : ℕ → ℕ → Bool) (context : Context) (heap : Heap)
    → 512 + rows_room (graph_rows context.entries) ≤ size_max
    → ((n bytes : ℕ) → grants n bytes ≡ true)
    → ((build_command_graph grants context heap).response
        ≡ set_response ok (some (c_string (graph_text (graph_rows context.entries)))) none)
      × (text_of (build_command_graph grants context heap).context.graph
          ≡ graph_text (graph_rows context.entries))
unfolding build_command_graph
build_command_graph_lem grants context heap h g =
    build_rows_lem grants (invalidate_graph context heap).0 (graph_rows context.entries)
      (invalidate_graph context heap).1 h (g _ _)
