-- ===== src/Session/Lookup.antt =====
-- runtime/launcher/kernel/ulk_session.c: `ulk_lookup_common` with its two entry points, and
-- `ulk_session_journal_list_v1`.
pub mod Newest
use universal_launcher.Prelude.{
  ℕ, ◌+◌, Bool, true, false, not, ◌&&◌, ◌||◌, Option, none, some, List, [], ◌∷◌, ltb, leb, ◌==◌,
  if◌then◌else◌, ◌>>=◌, take, Bytes, codes, bytes_eq,
}
use universal_launcher.View.{StringView, size, is_ok}
use universal_launcher.Session.Record.{
  OwnedRecord, view_valid, identifier_valid, copy_view, max_root_bytes, max_runnable_bytes,
  max_records,
}
use universal_launcher.Session.Owned.{validate_owned_record}
use universal_launcher.Session.Builder.{Append, ◌▷◌, skip, empty_builder, append}
use universal_launcher.Session.Files.{
  Directory, System, LookupStatus, found, not_found, corrupt_journal, scanned, scan_failed,
  scan_records,
}
use universal_launcher.Session.Json.{JsonBuffer, JsonCopy, record_to_json, copy_json}
use universal_launcher.Session.Journal.{
  Journal, journal_validate, session_list_invalid, session_record_corrupt,
  session_list_render_failed, session_output_buffer_too_small, Result, done, failed, prepare_root,
  acquire_lock, scan_detail,
}

-- What a lookup leaves in `*lookup_status`, `*required_capacity` and the buffer.
pub record Looked : Type 0 where
  pub status : LookupStatus
  pub required : ℕ
  pub json : JsonBuffer
  pub result : Result (Unit {0})

-- The field that is compared with the key.
abbrev pub candidate : Bool → OwnedRecord → Bytes
candidate true r = r.runnable_reference
candidate false r = r.session_id

-- The first record with the key, in the order of the scan.
unfoldable pub find_record : Bool → Bytes → List OwnedRecord → Option OwnedRecord
find_record by_runnable key [] = none
find_record by_runnable key (r ∷ rs) =
    if bytes_eq (candidate by_runnable r) key then some r else find_record by_runnable key rs

abbrev copy_result : JsonCopy → Result (Unit {0})
copy_result c = if c.copied then done tt else failed session_output_buffer_too_small

-- A record that was found is validated again and rendered.
unfoldable pub render_found : System → OwnedRecord → JsonBuffer → ℕ → Looked
render_found system r json capacity =
    elim (if validate_owned_record r
      then record_to_json system.text_grown r empty_builder
      else none) [
        | none ↦ record {
          status = corrupt_journal;
          required = 0;
          json = json;
          result = failed session_record_corrupt;
        }
        | some output ↦
            let c = copy_json output.text json capacity in
            record { status = found; required = c.required; json = c.json; result = copy_result c }
      ]

unfoldable pub lookup_locked : System → Bool → Bytes → JsonBuffer → ℕ → Directory → Looked
unfolding find_record render_found
lookup_locked system by_runnable key json capacity files = elim (scan_records system files) [
  | scan_failed status ↦ record {
    status = status;
    required = 0;
    json = json;
    result = failed (scan_detail status);
  }
  | scanned records ↦ elim (find_record by_runnable key records) [
    | none ↦ record { status = not_found; required = 0; json = json; result = done tt }
    | some r ↦ render_found system r json capacity
  ]
]

abbrev key_valid : Bool → StringView → Bool
key_valid true key = view_valid key max_runnable_bytes false
key_valid false key = identifier_valid key

-- The key's text, if the journal and the key are valid.
unfoldable pub lookup_input : Option Journal → Bool → StringView → Option Bytes
unfolding journal_validate
lookup_input none by_runnable key = none
lookup_input (some journal) by_runnable key =
    if is_ok (journal_validate (some journal)) && key_valid by_runnable key
    then (do
      root ← copy_view (max_root_bytes + 1) journal.root
      copy_view (max_runnable_bytes + 1) key)
    else none

-- `ulk_lookup_common` where the caller passes both output pointers; `none` is the refusal of the
-- arguments, which writes neither.
unfoldable pub lookup_common :
    System → Option Journal → Bool → StringView → JsonBuffer → ℕ → Directory → Option Looked
unfolding lookup_input lookup_locked prepare_root acquire_lock
lookup_common system journal by_runnable key json capacity files =
    elim (lookup_input journal by_runnable key) [
      | none ↦ none
      | some text ↦ elim (prepare_root system) [
        | failed detail ↦
            some (record { status = not_found; required = 0; json = json; result = failed detail })
        | done _ ↦ elim (acquire_lock system) [
          | failed detail ↦
              some
                (record { status = not_found; required = 0; json = json; result = failed detail })
          | done _ ↦ some (lookup_locked system by_runnable text json capacity files)
        ]
      ]
    ]

unfoldable pub journal_inspect :
    System → Option Journal → StringView → JsonBuffer → ℕ → Directory → Option Looked
unfolding lookup_common
journal_inspect system journal session_id json capacity files =
    lookup_common system journal false session_id json capacity files

unfoldable pub journal_last_run :
    System → Option Journal → StringView → JsonBuffer → ℕ → Directory → Option Looked
unfolding lookup_common
journal_last_run system journal runnable json capacity files =
    lookup_common system journal true runnable json capacity files

module _ (realloc : ℕ → Bool) where
  -- One entry of the list; a record that does not validate makes the whole list fail.
  append_entry : Bool → OwnedRecord → Append
  append_entry first r =
      (if first then skip else append realloc (codes ","))
      ▷ (λ builder. if validate_owned_record r then record_to_json realloc r builder else none)

  append_entries : Bool → List OwnedRecord → Append
  append_entries first [] = skip
  append_entries first (r ∷ rs) = append_entry first r ▷ append_entries false rs

  unfoldable pub list_to_json : List OwnedRecord → Append
  unfolding append_entries append_entry
  list_to_json records =
      append realloc (codes "{\"schema\":\"ulk.session_list.v1\",\"sessions\":[")
      ▷ append_entries true records
      ▷ append realloc (codes "]}")

-- What the list leaves in `*required_capacity` (`none`: not written) and the buffer.
pub record Listed : Type 0 where
  pub required : Option ℕ
  pub json : JsonBuffer
  pub result : Result (Unit {0})

abbrev pub bounded : ℕ → List OwnedRecord → List OwnedRecord
bounded limit records = if limit == 0 then records else take limit records

unfoldable pub list_locked : System → ℕ → JsonBuffer → ℕ → Directory → Listed
unfolding list_to_json
list_locked system limit json capacity files = elim (scan_records system files) [
  | scan_failed status ↦ record {
    required = none;
    json = json;
    result = failed (scan_detail status);
  }
  | scanned records ↦ elim (list_to_json system.text_grown (bounded limit records) empty_builder) [
    | none ↦ record { required = none; json = json; result = failed session_list_render_failed }
    | some output ↦
        let c = copy_json output.text json capacity in
        record { required = some c.required; json = c.json; result = copy_result c }
  ]
]

-- `ulk_session_journal_list_v1` where the caller passes `required_capacity`.
unfoldable pub journal_list : System → Option Journal → ℕ → JsonBuffer → ℕ → Directory → Listed
unfolding list_locked prepare_root acquire_lock journal_validate
journal_list system none limit json capacity files = record {
  required = none;
  json = json;
  result = failed session_list_invalid;
}
journal_list system (some journal) limit json capacity files =
    if not (is_ok (journal_validate (some journal)))
      || ltb max_records limit
      || leb (max_root_bytes + 1) (size journal.root)
    then record { required = none; json = json; result = failed session_list_invalid }
    else elim (prepare_root system) [
      | failed detail ↦ record { required = none; json = json; result = failed detail }
      | done _ ↦ elim (acquire_lock system) [
        | failed detail ↦ record { required = none; json = json; result = failed detail }
        | done _ ↦ list_locked system limit json capacity files
      ]
    ]
