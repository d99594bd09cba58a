-- ===== src/Session/Owned.antt =====
-- runtime/launcher/kernel/ulk_session.c: copying a public record, comparing two owned records, the
-- running-to-terminal transition, and `ulk_validate_owned_record`.
pub mod Copy
pub mod Storable
use universal_launcher.Prelude.{
  ℕ, zero, suc, ◌+◌, ◌-◌, ◌*◌, ◌/◌, ◌%◌, ◌^◌, ◌≤◌, ◌<◌, ◌≡◌, refl, sym, ap, ◌∙◌, ◌≢◌, ◌↔◌, ◌⊎◌, inl,
  inr, Bool, true, false, not, ◌&&◌, ◌||◌, Option, none, some, List, [], ◌∷◌, ◌++◌, append_assoc,
  append-nil, arith, ltb, leb, ◌==◌, if◌then◌else◌, ltb→lt, lt→ltb, ltb-false, leb→le, ==_iff,
  tests, Bool-cases, Option-cases, and_true, ◌>>=◌, ◌>>◌, guard, length, all, is_nil, take, drop,
  length-append, All, All-append, All-mono, Bytes, codes, bytes_eq, bytes_eq_iff, bytes_eq_refl,
  c_string, IsTextByte, IsText, c_string-IsText, Lacks, between, ℤ, pos, negsuc, ◌==ℤ◌, ==ℤ_iff,
  ltb_ℤ,
}
use universal_launcher.View.{
  StringView, null, at, size, is_null, contents, Status, ok, invalid_argument, is_ok,
}
use universal_launcher.Operation.{
  Outcome, other_outcome, outcome_code, Identity, Recovery, OperationResult, sizeof_identity,
  sizeof_recovery, sizeof_operation_result,
}
use universal_launcher.Session.Record.{
  SessionRecord, OwnedRecord, State, running, terminal, other_state, state_code, copy_view,
  static_view, record_validate, sizeof_session_record, max_runnable_bytes, max_process_bytes,
  max_time_bytes, max_reference_bytes,
}

abbrev pub blank_outcome : Outcome
blank_outcome = other_outcome (pos 0)

-- What `ulk_record_from_public` takes from the terminal result, zeroes where there is none.
pub record TerminalPart : Type 0 where
  pub outcome : Outcome
  pub effects_may_have_occurred : ℤ
  pub recovery_required : ℤ
  pub transaction : Bytes
  pub inspect_command : Bytes

pub terminal_part : Option OperationResult → Option TerminalPart
terminal_part none = some (record {
  outcome = blank_outcome;
  effects_may_have_occurred = pos 0;
  recovery_required = pos 0;
  transaction = [];
  inspect_command = [];
})
terminal_part (some result) = do
  transaction ← copy_view 129 result.recovery.transaction_id
  inspect_command ← copy_view 129 result.recovery.inspect_command
  some (record {
    outcome = result.outcome;
    effects_may_have_occurred = result.effects_may_have_occurred;
    recovery_required = result.recovery.required;
    transaction = transaction;
    inspect_command = inspect_command;
  })

unfoldable pub record_from_public : SessionRecord → Option OwnedRecord
unfolding terminal_part
record_from_public source = do
  session_id ← copy_view 129 source.session_id
  operation_id ← copy_view 129 source.identity.operation_id
  attempt_id ← copy_view 129 source.identity.attempt_id
  runnable_reference ← copy_view (max_runnable_bytes + 1) source.runnable_reference
  process_identity ← copy_view (max_process_bytes + 1) source.process_identity
  started_at ← copy_view (max_time_bytes + 1) source.started_at
  ended_at ← copy_view (max_time_bytes + 1) source.ended_at
  recovery_reference ← copy_view (max_reference_bytes + 1) source.recovery_reference
  relaunch_reference ← copy_view (max_reference_bytes + 1) source.relaunch_reference
  part ← terminal_part source.terminal_result
  some (record {
    session_id = session_id;
    operation_id = operation_id;
    attempt_id = attempt_id;
    runnable_reference = runnable_reference;
    process_identity = process_identity;
    started_at = started_at;
    ended_at = ended_at;
    recovery_transaction = part.transaction;
    recovery_inspect_command = part.inspect_command;
    recovery_reference = recovery_reference;
    relaunch_reference = relaunch_reference;
    state = source.state;
    outcome = part.outcome;
    effects_may_have_occurred = part.effects_may_have_occurred;
    recovery_required = part.recovery_required;
    exit_code_known = source.exit_code_known;
    exit_code = source.exit_code;
    commit_order = pos 0;
  })

-- Equal in everything but the commit order.
unfoldable pub record_equal : OwnedRecord → OwnedRecord → Bool
record_equal left right =
    (state_code left.state ==ℤ state_code right.state)
    && (outcome_code left.outcome ==ℤ outcome_code right.outcome)
    && (left.effects_may_have_occurred ==ℤ right.effects_may_have_occurred)
    && (left.recovery_required ==ℤ right.recovery_required)
    && (left.exit_code_known ==ℤ right.exit_code_known)
    && (left.exit_code ==ℤ right.exit_code)
    && bytes_eq left.session_id right.session_id
    && bytes_eq left.operation_id right.operation_id
    && bytes_eq left.attempt_id right.attempt_id
    && bytes_eq left.runnable_reference right.runnable_reference
    && bytes_eq left.process_identity right.process_identity
    && bytes_eq left.started_at right.started_at
    && bytes_eq left.ended_at right.ended_at
    && bytes_eq left.recovery_transaction right.recovery_transaction
    && bytes_eq left.recovery_inspect_command right.recovery_inspect_command
    && bytes_eq left.recovery_reference right.recovery_reference
    && bytes_eq left.relaunch_reference right.relaunch_reference

unfoldable pub record_transition_valid : OwnedRecord → OwnedRecord → Bool
record_transition_valid before after =
    (state_code before.state ==ℤ pos 1)
    && (state_code after.state ==ℤ pos 2)
    && bytes_eq before.session_id after.session_id
    && bytes_eq before.operation_id after.operation_id
    && bytes_eq before.attempt_id after.attempt_id
    && bytes_eq before.runnable_reference after.runnable_reference
    && bytes_eq before.process_identity after.process_identity
    && bytes_eq before.started_at after.started_at

-- The identity views of `ulk_validate_owned_record`.
abbrev owned_identity : OwnedRecord → Identity
owned_identity r = record {
  struct_size = sizeof_identity;
  operation_id = static_view r.operation_id;
  attempt_id = static_view r.attempt_id;
}

abbrev owned_result : OwnedRecord → OperationResult
owned_result r = record {
  struct_size = sizeof_operation_result;
  identity = owned_identity r;
  outcome = r.outcome;
  effects_may_have_occurred = r.effects_may_have_occurred;
  recovery = record {
    struct_size = sizeof_recovery;
    required = r.recovery_required;
    transaction_id = static_view r.recovery_transaction;
    inspect_command = static_view r.recovery_inspect_command;
  };
}

abbrev terminal_view : OwnedRecord → State → Option OperationResult
terminal_view r terminal = some (owned_result r)
terminal_view r _ = none

-- The public view of an owned record.
pub public_view : OwnedRecord → SessionRecord
public_view r = record {
  struct_size = sizeof_session_record;
  session_id = static_view r.session_id;
  identity = owned_identity r;
  runnable_reference = static_view r.runnable_reference;
  process_identity = static_view r.process_identity;
  state = r.state;
  started_at = static_view r.started_at;
  ended_at = static_view r.ended_at;
  exit_code_known = r.exit_code_known;
  exit_code = r.exit_code;
  terminal_result = terminal_view r r.state;
  recovery_reference = static_view r.recovery_reference;
  relaunch_reference = static_view r.relaunch_reference;
}

unfoldable pub validate_owned_record : OwnedRecord → Bool
unfolding public_view
validate_owned_record r = is_ok (record_validate (some (public_view r)))
