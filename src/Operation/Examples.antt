-- ===== src/Operation/Examples.antt =====
-- The theorems on operation outcomes, applied to a sample result.
use universal_launcher.Prelude.{
  ◌≤◌, ◌<◌, ◌≡◌, refl, ◌↔◌, inr, true, ◌&&◌, some, leb, codes, pos, ◌==ℤ◌,
}
use universal_launcher.View.{at, size, ok}
use universal_launcher.Operation.{
  result_fields_valid, identity_validate, identifier_is_valid, outcome_is_valid,
  result_outcome_consistent, outcome_unknown, OperationResult, sizeof_identity, sizeof_recovery,
  sizeof_operation_result, operation_result_validate, command_name_is_valid,
}
use universal_launcher.Operation.Grammar.{is_dotted_name, command_name_is_valid-segments}
use universal_launcher.Operation.Outcomes.{
  AreFieldsValid, OutcomeLaw, operation_result_validate_iff, uncertain-inspectable,
}

abbrev unknown_result : OperationResult
unknown_result = record {
  struct_size = sizeof_operation_result;
  identity = record {
    struct_size = sizeof_identity;
    operation_id = at (codes "op");
    attempt_id = at (codes "a1");
  };
  outcome = outcome_unknown;
  effects_may_have_occurred = pos 1;
  recovery = record {
    struct_size = sizeof_recovery;
    required = pos 1;
    transaction_id = at (codes "tx");
    inspect_command = at (codes "tx.inspect");
  };
}

unknown_accepted : operation_result_validate (some unknown_result) ≡ ok
unfolding operation_result_validate result_fields_valid identity_validate identifier_is_valid
    outcome_is_valid ◌==ℤ◌ result_outcome_consistent command_name_is_valid
unknown_accepted = refl

operation_result_validate_iff_example :
    (operation_result_validate (some unknown_result) ≡ ok)
    ↔ (AreFieldsValid unknown_result × OutcomeLaw outcome_unknown unknown_result)
operation_result_validate_iff_example = operation_result_validate_iff unknown_result

uncertain-inspectable_example :
    (unknown_result.effects_may_have_occurred ≡ pos 1)
    × (is_dotted_name (codes "tx.inspect") ≡ true)
    × (0 < size unknown_result.recovery.inspect_command)
    × (size unknown_result.recovery.inspect_command ≤ 128)
uncertain-inspectable_example = uncertain-inspectable unknown_result unknown_accepted (inr refl)

command_name_is_valid-segments_example :
    command_name_is_valid (at (codes "tx.inspect"))
    ≡ (true && leb 10 128 && is_dotted_name (codes "tx.inspect"))
command_name_is_valid-segments_example = command_name_is_valid-segments (at (codes "tx.inspect"))
