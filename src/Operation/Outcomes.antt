-- ===== src/Operation/Outcomes.antt =====
-- What `ulk_operation_result_validate_v1` promises of the outcome, the effects and the recovery.
use universal_launcher.Prelude.{
  ◌≤◌, ◌<◌, ◌≡◌, refl, ◌↔◌, ◌⊎◌, inl, inr, true, some, arith, pos, ==ℤ_iff,
}
use universal_launcher.View.{size, contents, view_is_valid, ok}
use universal_launcher.Operation.{
  Outcome, cancelled_before_dispatch, refused_before_effects, completed,
  cancellation_requested_but_completed, recovery_required, outcome_unknown, other_outcome,
  OperationResult, sizeof_operation_result, sizeof_recovery, identity_validate, identifier_is_valid,
  outcome_is_valid, is_flag, command_name_is_valid, result_fields_valid, result_outcome_consistent,
  operation_result_validate,
}
use universal_launcher.Operation.Grammar.{is_dotted_name, inspect_bounds}

-- The tests of single fields that do not depend on the outcome.
abbrev pub AreFieldsValid : OperationResult → Type 0
AreFieldsValid r =
    (sizeof_operation_result ≤ r.struct_size)
    × (identity_validate (some r.identity) ≡ ok)
    × (sizeof_recovery ≤ r.recovery.struct_size)
    × (identifier_is_valid r.recovery.transaction_id true ≡ true)
    × (view_is_valid r.recovery.inspect_command ≡ true)

-- Nothing is left to recover, and no recovery is named.
abbrev pub NoRecovery : OperationResult → Type 0
NoRecovery r =
    (r.recovery.required ≡ pos 0)
    × (size r.recovery.transaction_id ≡ 0)
    × (size r.recovery.inspect_command ≡ 0)

-- Effects are admitted and a command that inspects them is named.
abbrev pub MustInspect : OperationResult → Type 0
MustInspect r =
    (r.effects_may_have_occurred ≡ pos 1)
    × (r.recovery.required ≡ pos 1)
    × (command_name_is_valid r.recovery.inspect_command ≡ true)

-- What each outcome says of effects and recovery.
abbrev pub OutcomeLaw : Outcome → OperationResult → Type 0
OutcomeLaw cancelled_before_dispatch r = (r.effects_may_have_occurred ≡ pos 0) × NoRecovery r
OutcomeLaw refused_before_effects r = (r.effects_may_have_occurred ≡ pos 0) × NoRecovery r
OutcomeLaw completed r = (is_flag r.effects_may_have_occurred ≡ true) × NoRecovery r
OutcomeLaw cancellation_requested_but_completed r =
    (is_flag r.effects_may_have_occurred ≡ true) × NoRecovery r
OutcomeLaw recovery_required r = MustInspect r
OutcomeLaw outcome_unknown r = MustInspect r
OutcomeLaw (other_outcome n) r = ⊥

module _ (r : OperationResult) where
  law_of_validate :
      (o : Outcome)
      → r.outcome ≡ o
      → operation_result_validate (some r) ≡ ok
      → AreFieldsValid r × OutcomeLaw o r
  unfolding operation_result_validate result_fields_valid result_outcome_consistent outcome_is_valid
  law_of_validate o e h = ground (
    arith,
    ==ℤ_iff r.effects_may_have_occurred (pos 0),
    ==ℤ_iff r.effects_may_have_occurred (pos 1),
    ==ℤ_iff r.recovery.required (pos 0),
    ==ℤ_iff r.recovery.required (pos 1),
  )

  validate_of_law :
      (o : Outcome)
      → r.outcome ≡ o
      → AreFieldsValid r
      → OutcomeLaw o r
      → operation_result_validate (some r) ≡ ok
  unfolding operation_result_validate result_fields_valid result_outcome_consistent outcome_is_valid
  validate_of_law o e f h = ground (
    arith,
    ==ℤ_iff r.effects_may_have_occurred (pos 0),
    ==ℤ_iff r.effects_may_have_occurred (pos 1),
    ==ℤ_iff r.recovery.required (pos 0),
    ==ℤ_iff r.recovery.required (pos 1),
  )

-- An operation result is accepted exactly when its fields are valid one by one and the law of
-- its outcome on effects, recovery and inspect command holds.
pub operation_result_validate_iff :
    (r : OperationResult)
    → (operation_result_validate (some r) ≡ ok) ↔ (AreFieldsValid r × OutcomeLaw r.outcome r)
operation_result_validate_iff r =
    (λ h. law_of_validate r r.outcome refl h, λ h. validate_of_law r r.outcome refl h.0 h.1)

must_inspect :
    (r : OperationResult)
    → MustInspect r
    → (r.effects_may_have_occurred ≡ pos 1)
      × (is_dotted_name (contents r.recovery.inspect_command) ≡ true)
      × (0 < size r.recovery.inspect_command)
      × (size r.recovery.inspect_command ≤ 128)
must_inspect r h =
    let (d, lo, hi) = inspect_bounds r.recovery.inspect_command h.2 in (h.0, d, lo, hi)

-- An accepted result whose outcome is recovery_required or outcome_unknown admits that effects
-- may have occurred and names an inspect command in the dotted grammar, of 1 to 128 bytes.
pub uncertain-inspectable :
    (r : OperationResult)
    → operation_result_validate (some r) ≡ ok
    → (r.outcome ≡ recovery_required) ⊎ (r.outcome ≡ outcome_unknown)
    → (r.effects_may_have_occurred ≡ pos 1)
      × (is_dotted_name (contents r.recovery.inspect_command) ≡ true)
      × (0 < size r.recovery.inspect_command)
      × (size r.recovery.inspect_command ≤ 128)
uncertain-inspectable r h (inl e) = must_inspect r (law_of_validate r recovery_required e h).1
uncertain-inspectable r h (inr e) = must_inspect r (law_of_validate r outcome_unknown e h).1
