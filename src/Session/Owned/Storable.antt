-- ===== src/Session/Owned/Storable.antt =====
-- A record that passes validation is copied without a failure, and the copy can be stored.
use universal_launcher.Prelude.{
  ℕ, ◌^◌, ◌≤◌, ◌<◌, ◌≡◌, refl, true, false, Option, none, some, arith, lt→ltb, ℤ, pos, negsuc,
  ◌==ℤ◌, ==ℤ_iff,
}
use universal_launcher.View.{StringView, size, ok}
use universal_launcher.Operation.{
  Outcome, OperationResult, other_outcome, outcome_code, outcome_of_int, identity_validate,
  operation_result_validate, is_flag, recovery_required, outcome_unknown, cancelled_before_dispatch,
  refused_before_effects, completed, cancellation_requested_but_completed,
}
use universal_launcher.Operation.Grammar.{inspect_bounds}
use universal_launcher.Operation.Outcomes.{OutcomeLaw, operation_result_validate_iff}
use universal_launcher.Session.Integer.{InI32}
use universal_launcher.Session.Record.{
  SessionRecord, State, running, terminal, other_state, state_code, state_of_int, record_validate,
  record_fields_valid, terminal_valid, running_valid, max_runnable_bytes, max_process_bytes,
  max_time_bytes, max_reference_bytes,
}
use universal_launcher.Session.Owned.{terminal_part, record_from_public}
use universal_launcher.Session.Codec.RoundTrip.{Holds, IsStorable}
use universal_launcher.Session.Owned.Copy.{
  IsBytes, AreResultBytes, IsTyped, text_of-Holds, copy_view_lem, view_valid-le,
  identifier_valid-le, identifier_is_valid-le, copied_part, copied,
}

-- The sizes that validation lets through.
pub record AreSizesBounded (r : SessionRecord) : Type 0 where
  pub session_id : size r.session_id ≤ 128
  pub operation_id : size r.identity.operation_id ≤ 128
  pub attempt_id : size r.identity.attempt_id ≤ 128
  pub runnable_reference : size r.runnable_reference ≤ max_runnable_bytes
  pub process_identity : size r.process_identity ≤ max_process_bytes
  pub started_at : size r.started_at ≤ max_time_bytes
  pub ended_at : size r.ended_at ≤ max_time_bytes
  pub recovery_reference : size r.recovery_reference ≤ max_reference_bytes
  pub relaunch_reference : size r.relaunch_reference ≤ max_reference_bytes
  pub known : is_flag r.exit_code_known ≡ true

fields_bounded : (r : SessionRecord) → record_fields_valid r ≡ true → AreSizesBounded r
unfolding record_fields_valid identity_validate
fields_bounded r h = ground (
  arith,
  identifier_valid-le r.session_id,
  identifier_is_valid-le r.identity.operation_id false,
  identifier_is_valid-le r.identity.attempt_id false,
  view_valid-le r.runnable_reference max_runnable_bytes false,
  view_valid-le r.process_identity max_process_bytes true,
  view_valid-le r.started_at max_time_bytes false,
  view_valid-le r.ended_at max_time_bytes true,
  view_valid-le r.recovery_reference max_reference_bytes true,
  view_valid-le r.relaunch_reference max_reference_bytes true,
)

-- What validation of a terminal result gives for its copy.
pub record IsPartBounded (o : Option OperationResult) : Type 0 where
  pub copied_whole : terminal_part o ≡ some (copied_part o)
  pub transaction : Holds 129 (copied_part o).transaction
  pub inspect_command : Holds 129 (copied_part o).inspect_command
  pub outcome :
      InI32 (outcome_code (copied_part o).outcome)
      × (outcome_of_int (outcome_code (copied_part o).outcome) ≡ (copied_part o).outcome)
  pub effects : InI32 (copied_part o).effects_may_have_occurred
  pub required : InI32 (copied_part o).recovery_required

no_part : IsPartBounded none
unfolding terminal_part copied_part outcome_code outcome_of_int ◌==ℤ◌
no_part = record {
  copied_whole = refl;
  transaction = (tt, omega arith);
  inspect_command = (tt, omega arith);
  outcome = (omega arith, refl);
  effects = omega arith;
  required = omega arith;
}

flag_range : (b : ℤ) → is_flag b ≡ true → InI32 b
flag_range (pos n) h = ground (arith, ==ℤ_iff (pos n) (pos 0), ==ℤ_iff (pos n) (pos 1))
flag_range (negsuc n) h = ground (arith, ==ℤ_iff (negsuc n) (pos 0), ==ℤ_iff (negsuc n) (pos 1))

record ResultFacts (result : OperationResult) : Type 0 where
  transaction : size result.recovery.transaction_id ≤ 128
  inspect_command : size result.recovery.inspect_command ≤ 128
  outcome :
      InI32 (outcome_code result.outcome)
      × (outcome_of_int (outcome_code result.outcome) ≡ result.outcome)
  effects : InI32 result.effects_may_have_occurred
  required : InI32 result.recovery.required

module _ (result : OperationResult) where
  outcome_fact :
      (o : Outcome)
      → OutcomeLaw o result
      → InI32 (outcome_code o) × (outcome_of_int (outcome_code o) ≡ o)
  unfolding outcome_code outcome_of_int ◌==ℤ◌
  outcome_fact cancelled_before_dispatch law = (omega arith, refl)
  outcome_fact refused_before_effects law = (omega arith, refl)
  outcome_fact completed law = (omega arith, refl)
  outcome_fact cancellation_requested_but_completed law = (omega arith, refl)
  outcome_fact recovery_required law = (omega arith, refl)
  outcome_fact outcome_unknown law = (omega arith, refl)
  outcome_fact (other_outcome n) law = absurd law

  law_facts :
      (o : Outcome)
      → OutcomeLaw o result
      → (InI32 result.effects_may_have_occurred)
        × (InI32 result.recovery.required)
        × (size result.recovery.inspect_command ≤ 128)
  law_facts cancelled_before_dispatch law =
      (rw law.0 (omega arith), rw law.1.0 (omega arith), omega arith)
  law_facts refused_before_effects law =
      (rw law.0 (omega arith), rw law.1.0 (omega arith), omega arith)
  law_facts completed law = (flag_range _ law.0, rw law.1.0 (omega arith), omega arith)
  law_facts cancellation_requested_but_completed law =
      (flag_range _ law.0, rw law.1.0 (omega arith), omega arith)
  law_facts recovery_required law = (
    rw law.0 (omega arith),
    rw law.1 (omega arith),
    (inspect_bounds result.recovery.inspect_command law.2).2,
  )
  law_facts outcome_unknown law = (
    rw law.0 (omega arith),
    rw law.1 (omega arith),
    (inspect_bounds result.recovery.inspect_command law.2).2,
  )
  law_facts (other_outcome n) law = absurd law

  some_part :
      AreResultBytes (some result)
      → operation_result_validate (some result) ≡ ok
      → IsPartBounded (some result)
  unfolding terminal_part copied_part
  some_part typed h =
      let (f, law) = (operation_result_validate_iff result).0 h in
      let (effects, required, inspect) = law_facts result.outcome law in
      let tx = identifier_is_valid-le result.recovery.transaction_id true f.3 in
      record {
        copied_whole = ground (
          arith,
          copy_view_lem 129 result.recovery.transaction_id (omega arith),
          copy_view_lem 129 result.recovery.inspect_command (omega arith),
        );
        transaction = text_of-Holds 129 result.recovery.transaction_id typed.0 (omega arith);
        inspect_command = text_of-Holds 129 result.recovery.inspect_command typed.1 (omega arith);
        outcome = outcome_fact result.outcome law;
        effects = effects;
        required = required;
      }

module _ (r : SessionRecord) (typed : IsTyped r) where
  state_part :
      (s : State) (o : Option OperationResult)
      → AreResultBytes o
      → r.state ≡ s
      → r.terminal_result ≡ o
      → record_validate (some r) ≡ ok
      → IsPartBounded o
        × (InI32 (state_code s))
        × (state_of_int (state_code s) ≡ s)
        × (record_fields_valid r ≡ true)
  unfolding record_validate running_valid terminal_valid state_code state_of_int ◌==ℤ◌
  state_part running none t e e' h = (no_part, omega arith, refl, ground arith)
  state_part running (some x) t e e' h = absurd (ground arith)
  state_part terminal none t e e' h = absurd (ground arith)
  state_part terminal (some x) t e e' h =
      (some_part x t (ground arith), omega arith, refl, ground arith)
  state_part (other_state n) o t e e' h = absurd (ground arith)

  -- A record of bytes with an int64_t exit code that passes validation is copied whole, each
  -- text up to its first zero byte, and with any commit order from 1 to 2^63 - 1 the copy is
  -- storable.
  pub record_from_public-IsStorable :
      (order : ℕ)
      → 0 < order
      → order < 2 ^ 63
      → record_validate (some r) ≡ ok
      → (record_from_public r ≡ some (copied r))
        × IsStorable (record (copied r) { commit_order = pos order })
  unfolding record_from_public copied
  record_from_public-IsStorable order p q h =
      let (part, state, back, fields) =
        state_part r.state r.terminal_result typed.result refl refl h in
      let b = fields_bounded r fields in
      let copy = λ (capacity : ℕ) (v : StringView) (fits : size v < capacity).
        copy_view_lem capacity v fits in
      let holds = λ (capacity : ℕ) (v : StringView) (t : IsBytes v) (fits : size v < capacity).
        text_of-Holds capacity v t fits in
      (
        simp (
          copy 129 r.session_id (omega arith),
          copy 129 r.identity.operation_id (omega arith),
          copy 129 r.identity.attempt_id (omega arith),
          copy 4097 r.runnable_reference (omega arith),
          copy 1025 r.process_identity (omega arith),
          copy 65 r.started_at (omega arith),
          copy 65 r.ended_at (omega arith),
          copy 129 r.recovery_reference (omega arith),
          copy 129 r.relaunch_reference (omega arith),
          part.copied_whole,
        ),
        record {
          session_id = holds 129 r.session_id typed.session_id (omega arith);
          operation_id = holds 129 r.identity.operation_id typed.operation_id (omega arith);
          attempt_id = holds 129 r.identity.attempt_id typed.attempt_id (omega arith);
          runnable_reference =
              holds 4097 r.runnable_reference typed.runnable_reference (omega arith);
          process_identity = holds 1025 r.process_identity typed.process_identity (omega arith);
          started_at = holds 65 r.started_at typed.started_at (omega arith);
          ended_at = holds 65 r.ended_at typed.ended_at (omega arith);
          recovery_transaction = part.transaction;
          recovery_inspect_command = part.inspect_command;
          recovery_reference =
              holds 129 r.recovery_reference typed.recovery_reference (omega arith);
          relaunch_reference =
              holds 129 r.relaunch_reference typed.relaunch_reference (omega arith);
          state = (state, back);
          outcome = part.outcome;
          effects = part.effects;
          required = part.required;
          known = flag_range r.exit_code_known b.known;
          exit_code = typed.exit_code;
          order = (q, lt→ltb 0 order p);
        },
      )
