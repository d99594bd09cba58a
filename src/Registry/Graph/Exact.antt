-- ===== src/Registry/Graph/Exact.antt =====
-- The text that the graph is, and that the writes give it when the buffer has room.
use universal_launcher.Prelude.{
  ℕ, ◌+◌, ◌/◌, ◌%◌, ◌^◌, ◌<◌, ◌≡◌, refl, sym, ap, ◌∙◌, inl, inr, Bool, true, false, ◌||◌, some,
  List, [], ◌∷◌, ◌++◌, append_assoc, append-nil, arith, ltb, ◌==◌, if◌then◌else◌, ==_iff,
  Bool-cases, ◌>>=◌, length, length-append, Bytes, codes,
}
use mathlib.Core.Path.{subst}
use universal_launcher.Session.Json.{escaped}
use universal_launcher.Session.Hex.{hex_character}
use universal_launcher.Registry.Metadata.{Metadata}
use universal_launcher.Registry.Graph.{
  Write, all_of, append_raw, append_char, append_string_byte, append_string_bytes, append_string,
  append_field, metadata_writes, append_metadata, append_rows, write_graph,
}

-- The text of a graph, written down apart from the buffer.
unfoldable pub escapes : Bytes → Bytes
unfolding escaped
escapes [] = []
escapes (c ∷ s) = escaped c ++ escapes s

abbrev pub quoted : Bytes → Bytes
quoted text = 34 ∷ (escapes text ++ 34 ∷ [])

abbrev pub field_text : Bytes → Bytes → Bytes
field_text name value = quoted name ++ (b':' ∷ quoted value)

unfoldable pub row_text : Metadata → Bytes
unfolding escapes
row_text row =
    let f = row.fields in
    b'{'
    ∷ (field_text (codes "command") f.command_name
        ++ (b','
            ∷ (field_text (codes "request_schema") f.request_schema
                ++ (b','
                    ∷ (field_text (codes "response_schema") f.response_schema
                        ++ (b','
                            ∷ (field_text (codes "result_schema") f.result_schema
                                ++ (b','
                                    ∷ (field_text (codes "refusal_schema") f.refusal_schema
                                        ++ (b','
                                            ∷ (field_text (codes "dry_run_behavior")
                                                  f.dry_run_behavior
                                                ++ (b','
                                                    ∷ (field_text (codes "availability")
                                                          f.availability
                                                        ++ (b','
                                                            ∷ (field_text (codes "owner") f.owner
                                                            ++ (b','
                                                            ∷ (field_text (codes "binding")
                                                            f.binding
                                                            ++ (b','
                                                            ∷ (field_text (codes "handler_status")
                                                            row.handler_status
                                                            ++ (codes
                                                            ",\"executable\":true,\"effects\":"
                                                            ++ (f.effects_json
                                                            ++ b'}' ∷ [])))))))))))))))))))))

-- The rows behind the first one, each behind a comma.
unfoldable pub rows_text : Bool → List Metadata → Bytes
unfolding row_text
rows_text has_entry [] = []
rows_text has_entry (row ∷ rows) =
    (if has_entry then b',' ∷ [] else []) ++ (row_text row ++ rows_text true rows)

unfoldable pub graph_text : List Metadata → Bytes
unfolding rows_text
graph_text rows =
    codes
      "{\"schema\":\"ulk.command_response.v1\",\"status\":\"ok\",\"payload\":{\"schema\":\"ulk.command_graph.v1\",\"commands\":["
    ++ (rows_text false rows ++ codes "]},\"error\":null}")

-- The write adds the text when there is room for it and a zero byte.
abbrev pub Appends : ℕ → Write → Bytes → Type 0
Appends capacity write text =
    (buffer : Bytes) → length buffer + length text < capacity → write buffer ≡ some (buffer ++ text)

-- The texts one behind the other.
joined : List Bytes → Bytes
joined [] = []
joined (t ∷ []) = t
joined (t ∷ t' ∷ ts) = t ++ joined (t' ∷ ts)

abbrev AllAppend : ℕ → List Write → List Bytes → Type 0
AllAppend capacity [] [] = Unit
AllAppend capacity (w ∷ ws) (t ∷ ts) = Appends capacity w t × AllAppend capacity ws ts
AllAppend capacity [] (t ∷ ts) = ⊥
AllAppend capacity (w ∷ ws) [] = ⊥

module _ (capacity : ℕ) (below : capacity < 2 ^ 64) where
  append_raw-Appends : (text : Bytes) → Appends capacity (append_raw capacity text) text
  unfolding append_raw
  append_raw-Appends text buffer h = ground (arith, h, below)

  append_char-Appends : (c : ℕ) → Appends capacity (append_char capacity c) (c ∷ [])
  unfolding append_char
  append_char-Appends c buffer h = ground (arith, h)

  nothing-Appends : Appends capacity (λ buffer. some buffer) []
  nothing-Appends buffer h = ap (λ (b : Bytes). some b) (sym (append-nil buffer))

  bind-Appends :
      (write further : Write) (text texts : Bytes)
      → Appends capacity write text
      → Appends capacity further texts
      → Appends capacity (λ buffer. write buffer >>= further) (text ++ texts)
  bind-Appends write further text texts a b buffer h =
      rw (a buffer (omega (arith, h, length-append text texts))) (
        b (buffer ++ text) (omega (arith, h, length-append text texts, length-append buffer text))
        ∙ ap (λ (t : Bytes). some t) (append_assoc buffer text texts))

  then-Appends :
      (write : Write) (writes : List Write) (text texts : Bytes)
      → Appends capacity write text
      → Appends capacity (all_of writes) texts
      → Appends capacity (all_of (write ∷ writes)) (text ++ texts)
  unfolding all_of
  then-Appends write writes text texts a b = bind-Appends write (all_of writes) text texts a b

  last-Appends :
      (write : Write) (text : Bytes)
      → Appends capacity write text
      → Appends capacity (all_of (write ∷ [])) text
  unfolding all_of
  last-Appends write text a buffer h = rw (a buffer h) refl

  all_of-Appends :
      (ws : List Write) (ts : List Bytes)
      → AllAppend capacity ws ts
      → Appends capacity (all_of ws) (joined ts)
  unfolding joined all_of
  all_of-Appends [] [] a = nothing-Appends
  all_of-Appends (w ∷ []) (t ∷ []) a = last-Appends w t a.0
  all_of-Appends (w ∷ w' ∷ ws) (t ∷ t' ∷ ts) a =
      then-Appends w (w' ∷ ws) t (joined (t' ∷ ts)) a.0 (all_of-Appends (w' ∷ ws) (t' ∷ ts) a.1)
  all_of-Appends [] (t ∷ ts) a = absurd a
  all_of-Appends (w ∷ ws) [] a = absurd a
  all_of-Appends (w ∷ []) (t ∷ t' ∷ ts) a = absurd a.1
  all_of-Appends (w ∷ w' ∷ ws) (t ∷ []) a = absurd a.1

  two-Appends :
      (a b : ℕ)
      → Appends capacity
          (all_of (append_char capacity a ∷ append_char capacity b ∷ []))
          (a ∷ b ∷ [])
  unfolding joined
  two-Appends a b =
      all_of-Appends (append_char capacity a ∷ append_char capacity b ∷ [])
        ((a ∷ []) ∷ (b ∷ []) ∷ []) (append_char-Appends a, (append_char-Appends b, tt))

  control-Appends :
      (a b : ℕ)
      → Appends capacity
          (all_of (
            append_raw capacity (codes "\\u00")
            ∷ append_char capacity a
            ∷ append_char capacity b
            ∷ []))
          (codes "\\u00" ++ a ∷ b ∷ [])
  unfolding joined
  control-Appends a b =
      all_of-Appends
        (append_raw capacity (codes "\\u00") ∷ append_char capacity a ∷ append_char capacity b ∷ [])
        (codes "\\u00" ∷ (a ∷ []) ∷ (b ∷ []) ∷ [])
        (append_raw-Appends (codes "\\u00"), (append_char-Appends a, (append_char-Appends b, tt)))

  -- A byte that no letter escapes.
  plain-Appends :
      (c : ℕ)
      → (c == 34 || c == 92 || c == 8 || c == 12 || c == 10 || c == 13 || c == 9) ≡ false
      → Appends capacity (append_string_byte capacity c) (escaped c)
  unfolding append_string_byte escaped
  plain-Appends c h = elim (Bool-cases (ltb c 0x20)) [
    | inl low ↦
        let small : c / 16 % 16 ≡ c / 16 = ground (arith, low) in
        cast
          (all_of (
            append_raw capacity (codes "\\u00")
            ∷ append_char capacity (hex_character (c / 16 % 16))
            ∷ append_char capacity (hex_character (c % 16))
            ∷ []))
          (codes "\\u00" ++ hex_character (c / 16 % 16) ∷ hex_character (c % 16) ∷ [])
          (control-Appends (hex_character (c / 16 % 16)) (hex_character (c % 16)))
          (ground (arith, h, low)) (rw (small) (ground (arith, h, low)))
    | inr high ↦
        cast _ (c ∷ []) (append_char-Appends c) (ground (arith, h, high)) (ground (arith, h, high))
  ]
    where
      cast :
          (write : Write) (text : Bytes)
          → Appends capacity write text
          → write ≡ append_string_byte capacity c
          → text ≡ escaped c
          → Appends capacity (append_string_byte capacity c) (escaped c)
      cast write text a e e' =
          subst (λ (t : Bytes). Appends capacity (append_string_byte capacity c) t) e'
            (subst (λ (w : Write). Appends capacity w text) e a)

  letter :
      (c d : ℕ)
      → (c == d) ≡ true
      → Appends capacity (append_string_byte capacity d) (escaped d)
      → Appends capacity (append_string_byte capacity c) (escaped c)
  letter c d h a =
      subst (λ (z : ℕ). Appends capacity (append_string_byte capacity z) (escaped z))
        (sym ((==_iff c d).0 h)) a

  append_string_byte-Appends :
      (c : ℕ) → Appends capacity (append_string_byte capacity c) (escaped c)
  unfolding append_string_byte escaped
  append_string_byte-Appends c = elim (Bool-cases (c == 34)) [
    | inl e ↦ letter c 34 e (two-Appends 92 34)
    | inr n1 ↦ elim (Bool-cases (c == 92)) [
      | inl e ↦ letter c 92 e (two-Appends 92 92)
      | inr n2 ↦ elim (Bool-cases (c == 8)) [
        | inl e ↦ letter c 8 e (two-Appends 92 b'b')
        | inr n3 ↦ elim (Bool-cases (c == 12)) [
          | inl e ↦ letter c 12 e (two-Appends 92 b'f')
          | inr n4 ↦ elim (Bool-cases (c == 10)) [
            | inl e ↦ letter c 10 e (two-Appends 92 b'n')
            | inr n5 ↦ elim (Bool-cases (c == 13)) [
              | inl e ↦ letter c 13 e (two-Appends 92 b'r')
              | inr n6 ↦ elim (Bool-cases (c == 9)) [
                | inl e ↦ letter c 9 e (two-Appends 92 b't')
                | inr n7 ↦ plain-Appends c (rw (n1, n2, n3, n4, n5, n6, n7) refl)
              ]
            ]
          ]
        ]
      ]
    ]
  ]

  append_string_bytes-Appends :
      (text : Bytes) → Appends capacity (append_string_bytes capacity text) (escapes text)
  unfolding append_string_bytes escapes
  append_string_bytes-Appends [] = nothing-Appends
  append_string_bytes-Appends (c ∷ text) =
      bind-Appends (append_string_byte capacity c) (append_string_bytes capacity text) (escaped c)
        (escapes text) (append_string_byte-Appends c) (append_string_bytes-Appends text)

  append_string-Appends :
      (text : Bytes) → Appends capacity (append_string capacity text) (quoted text)
  unfolding append_string joined
  append_string-Appends text =
      all_of-Appends
        (append_char capacity 34 ∷ append_string_bytes capacity text ∷ append_char capacity 34 ∷ [])
        ((34 ∷ []) ∷ escapes text ∷ (34 ∷ []) ∷ [])
        (append_char-Appends 34, (append_string_bytes-Appends text, (append_char-Appends 34, tt)))

  append_field-Appends :
      (name value : Bytes)
      → Appends capacity (append_field capacity name value) (field_text name value)
  unfolding append_field joined
  append_field-Appends name value =
      all_of-Appends
        (append_string capacity name
          ∷ append_char capacity b':'
          ∷ append_string capacity value
          ∷ [])
        (quoted name ∷ (b':' ∷ []) ∷ quoted value ∷ [])
        (append_string-Appends name, (append_char-Appends b':', (append_string-Appends value, tt)))

  comma : Appends capacity (append_char capacity b',') (b',' ∷ [])
  comma = append_char-Appends b','

  first :
      (b : Bool)
      → Appends capacity
          (if b then append_char capacity b',' else (λ buffer. some buffer))
          (if b then b',' ∷ [] else [])
  first true = comma
  first false = nothing-Appends

  append_metadata-Appends :
      (row : Metadata) (prepend_comma : Bool)
      → Appends capacity
          (append_metadata capacity row prepend_comma)
          ((if prepend_comma then b',' ∷ [] else []) ++ row_text row)
  unfolding append_metadata metadata_writes row_text joined
  append_metadata-Appends row prepend_comma =
      all_of-Appends (metadata_writes capacity row prepend_comma)
        ((if prepend_comma then b',' ∷ [] else [])
          ∷ (b'{' ∷ [])
          ∷ field_text (codes "command") row.fields.command_name
          ∷ (b',' ∷ [])
          ∷ field_text (codes "request_schema") row.fields.request_schema
          ∷ (b',' ∷ [])
          ∷ field_text (codes "response_schema") row.fields.response_schema
          ∷ (b',' ∷ [])
          ∷ field_text (codes "result_schema") row.fields.result_schema
          ∷ (b',' ∷ [])
          ∷ field_text (codes "refusal_schema") row.fields.refusal_schema
          ∷ (b',' ∷ [])
          ∷ field_text (codes "dry_run_behavior") row.fields.dry_run_behavior
          ∷ (b',' ∷ [])
          ∷ field_text (codes "availability") row.fields.availability
          ∷ (b',' ∷ [])
          ∷ field_text (codes "owner") row.fields.owner
          ∷ (b',' ∷ [])
          ∷ field_text (codes "binding") row.fields.binding
          ∷ (b',' ∷ [])
          ∷ field_text (codes "handler_status") row.handler_status
          ∷ codes ",\"executable\":true,\"effects\":"
          ∷ row.fields.effects_json
          ∷ (b'}' ∷ [])
          ∷ [])
        (
          first prepend_comma,
          (
            append_char-Appends b'{',
            ((
              append_field-Appends (codes "command") row.fields.command_name,
              (
                comma,
                (
                  append_field-Appends (codes "request_schema") row.fields.request_schema,
                  (
                    comma,
                    (
                      append_field-Appends (codes "response_schema") row.fields.response_schema,
                      (
                        comma,
                        (
                          append_field-Appends (codes "result_schema") row.fields.result_schema,
                          (
                            comma,
                            (
                              append_field-Appends (codes "refusal_schema")
                                  row.fields.refusal_schema,
                              (
                                comma,
                                (
                                  append_field-Appends (codes "dry_run_behavior")
                                      row.fields.dry_run_behavior,
                                  (
                                    comma,
                                    (
                                      append_field-Appends (codes "availability")
                                          row.fields.availability,
                                      (
                                        comma,
                                        (
                                          append_field-Appends (codes "owner") row.fields.owner,
                                          (
                                            comma,
                                            (
                                              append_field-Appends (codes "binding")
                                                  row.fields.binding,
                                              (
                                                comma,
                                                (
                                                  append_field-Appends (codes "handler_status")
                                                      row.handler_status,
                                                  (
                                                    append_raw-Appends
                                                        (codes ",\"executable\":true,\"effects\":"),
                                                    (
                                                      append_raw-Appends row.fields.effects_json,
                                                      (append_char-Appends b'}', tt),
                                                    ),
                                                  ),
                                                ),
                                              ),
                                            ),
                                          ),
                                        ),
                                      ),
                                    ),
                                  ),
                                ),
                              ),
                            ),
                          ),
                        ),
                      ),
                    ),
                  ),
                ),
              ),
            )),
          ),
        )

  append_rows-Appends :
      (rows : List Metadata) (has_entry : Bool)
      → Appends capacity (append_rows capacity has_entry rows) (rows_text has_entry rows)
  unfolding append_rows rows_text
  append_rows-Appends [] has_entry = nothing-Appends
  append_rows-Appends (row ∷ rows) has_entry =
      subst (λ (t : Bytes). Appends capacity (append_rows capacity has_entry (row ∷ rows)) t)
        (append_assoc (if has_entry then b',' ∷ [] else []) (row_text row) (rows_text true rows))
        (bind-Appends (append_metadata capacity row has_entry) (append_rows capacity true rows)
          ((if has_entry then b',' ∷ [] else []) ++ row_text row) (rows_text true rows)
          (append_metadata-Appends row has_entry) (append_rows-Appends rows true))

  pub write_graph_lem :
      (rows : List Metadata)
      → length (graph_text rows) < capacity
      → write_graph capacity rows ≡ some (graph_text rows)
  unfolding write_graph graph_text joined
  write_graph_lem rows h =
      let h' : 0 + length (graph_text rows) < capacity = omega (arith, h) in
      all_of-Appends
        (append_raw capacity (
            codes
              "{\"schema\":\"ulk.command_response.v1\",\"status\":\"ok\",\"payload\":{\"schema\":\"ulk.command_graph.v1\",\"commands\":[")
          ∷ append_rows capacity false rows
          ∷ append_raw capacity (codes "]},\"error\":null}")
          ∷ [])
        ((codes
            "{\"schema\":\"ulk.command_response.v1\",\"status\":\"ok\",\"payload\":{\"schema\":\"ulk.command_graph.v1\",\"commands\":[")
          ∷ rows_text false rows
          ∷ (codes "]},\"error\":null}")
          ∷ [])
        (append_raw-Appends _, (append_rows-Appends rows false, (append_raw-Appends _, tt))) [] h'
