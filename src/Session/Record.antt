-- ===== src/Session/Record.antt =====
-- The records of include/ulk/ulk_session.h and `ulk_session_owned_record` of
-- runtime/launcher/kernel/ulk_session.c: validation, copying, comparison and transition.
use universal_launcher.Prelude.{
  ℕ, Bool, true, false, not, ◌&&◌, ◌||◌, Option, none, some, [], ◌∷◌, ltb, leb, ◌==◌, if◌then◌else◌,
  all, Bytes, bytes_eq, c_string, ℤ, pos, ◌==ℤ◌,
}
use universal_launcher.View.{
  StringView, at, size, is_null, contents, Status, ok, invalid_argument, is_ok,
}
use universal_launcher.Operation.{
  Outcome, Identity, OperationResult, identity_validate, operation_result_validate, is_alpha,
  is_digit, is_identifier_character, is_flag,
}

abbrev pub max_records : ℕ
max_records = 1024

abbrev pub default_records : ℕ
default_records = 64

abbrev pub max_file_bytes : ℕ
max_file_bytes = 65536

abbrev pub max_root_bytes : ℕ
max_root_bytes = 32768

abbrev pub max_runnable_bytes : ℕ
max_runnable_bytes = 4096

abbrev pub max_process_bytes : ℕ
max_process_bytes = 1024

abbrev pub max_time_bytes : ℕ
max_time_bytes = 64

abbrev pub max_reference_bytes : ℕ
max_reference_bytes = 128

-- ulk_session_state_v1, and any other value that the field can hold.
pub data State : Type 0 where
  running terminal : State
  other_state : ℤ → State

unfoldable pub state_code : State → ℤ
state_code running = pos 1
state_code terminal = pos 2
state_code (other_state n) = n

unfoldable pub state_of_int : ℤ → State
state_of_int n = if n ==ℤ pos 1 then running else if n ==ℤ pos 2 then terminal else other_state n

-- ulk_session_record_v1; a null pointer is `none`.
pub record SessionRecord : Type 0 where
  pub struct_size : ℕ
  pub session_id : StringView
  pub identity : Identity
  pub runnable_reference : StringView
  pub process_identity : StringView
  pub state : State
  pub started_at : StringView
  pub ended_at : StringView
  pub exit_code_known : ℤ
  pub exit_code : ℤ
  pub terminal_result : Option OperationResult
  pub recovery_reference : StringView
  pub relaunch_reference : StringView

abbrev pub sizeof_session_record : ℕ
sizeof_session_record = 192

-- ulk_session_owned_record: the character arrays by the C strings that they hold.
pub record OwnedRecord : Type 0 where
  pub session_id : Bytes
  pub operation_id : Bytes
  pub attempt_id : Bytes
  pub runnable_reference : Bytes
  pub process_identity : Bytes
  pub started_at : Bytes
  pub ended_at : Bytes
  pub recovery_transaction : Bytes
  pub recovery_inspect_command : Bytes
  pub recovery_reference : Bytes
  pub relaunch_reference : Bytes
  pub state : State
  pub outcome : Outcome
  pub effects_may_have_occurred : ℤ
  pub recovery_required : ℤ
  pub exit_code_known : ℤ
  pub exit_code : ℤ
  pub commit_order : ℤ

-- ulk_static_view
abbrev pub static_view : Bytes → StringView
static_view text = at text

unfoldable pub view_valid : StringView → ℕ → Bool → Bool
view_valid value maximum allow_empty =
    if size value == 0 then allow_empty else not (is_null value) && leb (size value) maximum

identifier_text : Bytes → Bool
identifier_text [] = false
identifier_text (first ∷ rest) =
    if not (is_alpha first || is_digit first) then false else all is_identifier_character rest

unfoldable pub identifier_valid : StringView → Bool
unfolding view_valid identifier_text
identifier_valid value =
    if not (view_valid value 128 false) then false else identifier_text (contents value)

unfoldable pub views_equal : StringView → StringView → Bool
views_equal left right =
    size left == size right && (size left == 0 || bytes_eq (contents left) (contents right))

-- The bytes of the view and a zero; what the array holds as a C string ends at the first zero.
unfoldable pub copy_view : ℕ → StringView → Option Bytes
copy_view capacity source =
    if leb capacity (size source) then none else some (c_string (contents source))

-- The tests of `ulk_session_record_validate_v1` that do not depend on the state.
unfoldable pub record_fields_valid : SessionRecord → Bool
record_fields_valid record_ =
    not (ltb record_.struct_size sizeof_session_record)
    && identifier_valid record_.session_id
    && is_ok (identity_validate (some record_.identity))
    && view_valid record_.runnable_reference max_runnable_bytes false
    && view_valid record_.process_identity max_process_bytes true
    && view_valid record_.started_at max_time_bytes false
    && view_valid record_.ended_at max_time_bytes true
    && view_valid record_.recovery_reference max_reference_bytes true
    && view_valid record_.relaunch_reference max_reference_bytes true
    && is_flag record_.exit_code_known

unfoldable pub is_none {ℓ} : {A : Type ℓ} → Option A → Bool
is_none none = true
is_none (some a) = false

unfoldable pub running_valid : SessionRecord → Bool
unfolding is_none
running_valid r = not (
    not (is_none r.terminal_result)
    || not (size r.ended_at == 0)
    || not (r.exit_code_known ==ℤ pos 0)
    || not (size r.recovery_reference == 0)
    || not (size r.relaunch_reference == 0))

unfoldable pub terminal_valid : SessionRecord → Option OperationResult → Bool
terminal_valid r none = false
terminal_valid r (some result) =
    not (size r.ended_at == 0)
    && is_ok (operation_result_validate (some result))
    && views_equal r.identity.operation_id result.identity.operation_id
    && views_equal r.identity.attempt_id result.identity.attempt_id
    && not (not (result.recovery.required ==ℤ pos 0) && size r.recovery_reference == 0)

abbrev state_valid : SessionRecord → State → Bool
state_valid r running = running_valid r
state_valid r terminal = terminal_valid r r.terminal_result
state_valid r (other_state n) = false

unfoldable pub record_validate : Option SessionRecord → Status
record_validate none = invalid_argument
record_validate (some r) =
    if not (record_fields_valid r)
    then invalid_argument
    else if state_valid r r.state
    then ok
    else invalid_argument
