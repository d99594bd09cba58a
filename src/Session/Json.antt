-- ===== src/Session/Json.antt =====
-- runtime/launcher/kernel/ulk_session.c: JSON output, `ulk_builder_append_json_string`,
-- `ulk_record_to_json` and `ulk_copy_json`.
use universal_launcher.Prelude.{
  ℕ, ◌+◌, ◌/◌, ◌%◌, ◌^◌, Bool, true, false, not, ◌||◌, some, [], ◌∷◌, ◌++◌, ltb, ◌==◌,
  if◌then◌else◌, ◌>>=◌, length, drop, Bytes, codes, ℤ, pos, ◌==ℤ◌,
}
use universal_launcher.Operation.{outcome_name}
use universal_launcher.Session.Hex.{hex_character}
use universal_launcher.Session.Builder.{Append, ◌▷◌, append_bytes, append, append_integer}
use universal_launcher.Session.Record.{OwnedRecord, State, running}

abbrev quote : ℕ
quote = 34

abbrev backslash : ℕ
backslash = 92

-- What one round of the loop appends: `\b \f \n \r \t` have letters, other bytes below 0x20 are
-- written as `\u%04x`.
unfoldable pub escaped : ℕ → Bytes
unfolding hex_character
escaped c =
    if c == quote || c == backslash
    then backslash ∷ c ∷ []
    else if c == 8
    then backslash ∷ b'b' ∷ []
    else if c == 12
    then backslash ∷ b'f' ∷ []
    else if c == 10
    then backslash ∷ b'n' ∷ []
    else if c == 13
    then backslash ∷ b'r' ∷ []
    else if c == 9
    then backslash ∷ b't' ∷ []
    else if ltb c 0x20
    then backslash ∷ b'u' ∷ b'0' ∷ b'0' ∷ hex_character (c / 16) ∷ hex_character (c % 16) ∷ []
    else c ∷ []

module _ (realloc : ℕ → Bool) where
  append_escaped : Bytes → Append
  unfolding escaped
  append_escaped [] builder = some builder
  append_escaped (c ∷ s) builder = append_bytes realloc (escaped c) builder >>= append_escaped s

  unfoldable pub append_json_string : Bytes → Append
  unfolding append_escaped
  append_json_string text =
      append realloc (quote ∷ []) ▷ append_escaped text ▷ append realloc (quote ∷ [])

  -- `null` for a text that is empty.
  append_json_optional : Bytes → Append
  append_json_optional [] = append realloc (codes "null")
  append_json_optional (c ∷ s) = append_json_string (c ∷ s)

  abbrev append_flag : ℤ → Append
  append_flag value = append realloc (if not (value ==ℤ pos 0) then codes "true" else codes "false")

  append_terminal_result : OwnedRecord → State → Append
  append_terminal_result r running = append realloc (codes "null")
  append_terminal_result r state =
      append realloc (codes "{\"schema\":\"ulk.operation_outcome.v1\",\"operation_id\":")
      ▷ append_json_string r.operation_id
      ▷ append realloc (codes ",\"attempt_id\":")
      ▷ append_json_string r.attempt_id
      ▷ append realloc (codes ",\"outcome\":")
      ▷ append_json_string (outcome_name r.outcome)
      ▷ append realloc (codes ",\"effects_may_have_occurred\":")
      ▷ append_flag r.effects_may_have_occurred
      ▷ append realloc (codes ",\"recovery\":{\"required\":")
      ▷ append_flag r.recovery_required
      ▷ append realloc (codes ",\"transaction_id\":")
      ▷ append_json_string r.recovery_transaction
      ▷ append realloc (codes ",\"inspect_command\":")
      ▷ append_json_string r.recovery_inspect_command
      ▷ append realloc (codes "}}")

  abbrev state_name : State → Bytes
  state_name running = codes "running"
  state_name _ = codes "terminal"

  append_exit_code : OwnedRecord → Append
  append_exit_code r =
      if r.exit_code_known ==ℤ pos 0
      then append realloc (codes "null")
      else append_integer realloc r.exit_code

  unfoldable pub record_to_json : OwnedRecord → Append
  unfolding append_json_string append_json_optional append_terminal_result append_exit_code
  record_to_json r =
      append realloc (codes "{\"schema\":\"ulk.session_record.v1\",\"session_id\":")
      ▷ append_json_string r.session_id
      ▷ append realloc (codes ",\"operation_id\":")
      ▷ append_json_string r.operation_id
      ▷ append realloc (codes ",\"attempt_id\":")
      ▷ append_json_string r.attempt_id
      ▷ append realloc (codes ",\"runnable_reference\":")
      ▷ append_json_string r.runnable_reference
      ▷ append realloc (codes ",\"process_identity\":")
      ▷ append_json_optional r.process_identity
      ▷ append realloc (codes ",\"state\":\"")
      ▷ append realloc (state_name r.state)
      ▷ append realloc (codes "\",\"started_at\":")
      ▷ append_json_string r.started_at
      ▷ append realloc (codes ",\"ended_at\":")
      ▷ append_json_optional r.ended_at
      ▷ append realloc (codes ",\"exit_code\":")
      ▷ append_exit_code r
      ▷ append realloc (codes ",\"terminal_result\":")
      ▷ append_terminal_result r r.state
      ▷ append realloc (codes ",\"recovery_reference\":")
      ▷ append_json_optional r.recovery_reference
      ▷ append realloc (codes ",\"relaunch_reference\":")
      ▷ append_json_optional r.relaunch_reference
      ▷ append realloc (codes "}")

-- The caller's buffer: null or an array of the claimed capacity, and what it holds afterwards.
pub data JsonBuffer : Type 0 where
  no_buffer : JsonBuffer
  buffer : Bytes → JsonBuffer

-- What a call writes to `*required_capacity` and to the buffer, and whether it reports success.
pub record JsonCopy : Type 0 where
  pub required : ℕ
  pub json : JsonBuffer
  pub copied : Bool

-- `json` is null, `json_capacity`, and the text: a null buffer of capacity 0 only asks for the size,
-- a buffer that is too small keeps what it held.
unfoldable pub copy_json : Bytes → JsonBuffer → ℕ → JsonCopy
copy_json text no_buffer capacity = record {
  required = (length text + 1) % 2 ^ 64;
  json = no_buffer;
  copied = capacity == 0;
}
copy_json text (buffer held) capacity =
    let required = (length text + 1) % 2 ^ 64 in
    if ltb capacity required
    then record { required = required; json = buffer held; copied = false }
    else record {
      required = required;
      json = buffer (text ++ 0 ∷ drop required held);
      copied = true;
    }
