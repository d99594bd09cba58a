-- ===== src/Operation.antt =====
-- include/ulk/ulk_operation.h and runtime/client/ulk_operation.c: durable operation identities and
-- terminal outcomes.
mod Examples
pub mod Grammar
pub mod Outcomes
use universal_launcher.Prelude.{
  ℕ, Bool, true, false, not, ◌&&◌, ◌||◌, Option, none, some, [], ◌∷◌, ltb, ◌==◌, if◌then◌else◌,
  length, all, is_nil, Bytes, codes, between, ℤ, pos, ◌==ℤ◌,
}
use universal_launcher.View.{
  StringView, null, at, size, view_is_valid, Status, ok, invalid_argument, is_ok,
}

-- The C enumerators, and any other value that a caller can store in the field.
pub data Outcome : Type 0 where
  cancelled_before_dispatch refused_before_effects completed : Outcome
  cancellation_requested_but_completed recovery_required outcome_unknown : Outcome
  other_outcome : ℤ → Outcome

pub record Identity : Type 0 where
  pub struct_size : ℕ
  pub operation_id : StringView
  pub attempt_id : StringView

pub record Recovery : Type 0 where
  pub struct_size : ℕ
  pub required : ℤ
  pub transaction_id : StringView
  pub inspect_command : StringView

pub record OperationResult : Type 0 where
  pub struct_size : ℕ
  pub identity : Identity
  pub outcome : Outcome
  pub effects_may_have_occurred : ℤ
  pub recovery : Recovery

abbrev pub sizeof_identity : ℕ
sizeof_identity = 40

abbrev pub sizeof_recovery : ℕ
sizeof_recovery = 48

abbrev pub sizeof_operation_result : ℕ
sizeof_operation_result = 104

abbrev pub is_lower : ℕ → Bool
is_lower = between b'a' b'z'

abbrev pub is_digit : ℕ → Bool
is_digit = between b'0' b'9'

abbrev pub is_alpha : ℕ → Bool
is_alpha c = between b'a' b'z' c || between b'A' b'Z' c

-- One round of the loop of `ulk_identifier_is_valid`.
abbrev pub is_identifier_character : ℕ → Bool
is_identifier_character c =
    is_alpha c || is_digit c || c == b'.' || c == b'_' || c == b':' || c == b'-'

identifier_text : Bytes → Bool → Bool
identifier_text [] allow_empty = allow_empty
identifier_text (first ∷ rest) allow_empty =
    if ltb 128 (length (first ∷ rest))
    then false
    else if not (is_alpha first || is_digit first)
    then false
    else all is_identifier_character (first ∷ rest)

unfoldable pub identifier_is_valid : StringView → Bool → Bool
unfolding identifier_text view_is_valid
identifier_is_valid (null n) allow_empty =
    if not (view_is_valid (null n)) then false else allow_empty
identifier_is_valid (at bytes) allow_empty = identifier_text bytes allow_empty

-- The loop of `ulk_command_name_is_valid`: is this the first byte, was the last one a dot, and was
-- there any dot.
unfoldable pub scan_command_name : Bool → Bool → Bool → Bytes → Bool
scan_command_name first previous_was_dot saw_dot [] = saw_dot
scan_command_name first previous_was_dot saw_dot (c ∷ rest) =
    let after_dot = scan_command_name false true true rest in
    let after_other = scan_command_name false false saw_dot rest in
    if c == b'.'
    then (if first || is_nil rest || previous_was_dot then false else after_dot)
    else if previous_was_dot && not (is_lower c)
    then false
    else if not (is_lower c) && not (is_digit c) && not (c == b'_')
    then false
    else after_other

command_name_text : Bytes → Bool
unfolding scan_command_name
command_name_text [] = false
command_name_text (first ∷ rest) =
    if ltb 128 (length (first ∷ rest))
    then false
    else if ltb first b'a' || ltb b'z' first
    then false
    else scan_command_name true false false (first ∷ rest)

unfoldable pub command_name_is_valid : StringView → Bool
unfolding command_name_text
command_name_is_valid (null n) = false
command_name_is_valid (at bytes) = command_name_text bytes

unfoldable pub outcome_is_valid : Outcome → Bool
outcome_is_valid (other_outcome n) = false
outcome_is_valid _ = true

abbrev pub is_flag : ℤ → Bool
is_flag b = not (not (b ==ℤ pos 0) && not (b ==ℤ pos 1))

-- A null pointer is `none`.
unfoldable pub identity_validate : Option Identity → Status
identity_validate none = invalid_argument
identity_validate (some identity) =
    if ltb identity.struct_size sizeof_identity
      || not (identifier_is_valid identity.operation_id false)
      || not (identifier_is_valid identity.attempt_id false)
    then invalid_argument
    else ok

abbrev pub pre_effect_outcome : Outcome → Bool
pre_effect_outcome cancelled_before_dispatch = true
pre_effect_outcome refused_before_effects = true
pre_effect_outcome _ = false

abbrev pub uncertain_outcome : Outcome → Bool
uncertain_outcome recovery_required = true
uncertain_outcome outcome_unknown = true
uncertain_outcome _ = false

-- The first group of tests of `ulk_operation_result_validate_v1`: each field by itself.
unfoldable pub result_fields_valid : OperationResult → Bool
result_fields_valid result =
    not (ltb result.struct_size sizeof_operation_result)
    && is_ok (identity_validate (some result.identity))
    && outcome_is_valid result.outcome
    && is_flag result.effects_may_have_occurred
    && not (ltb result.recovery.struct_size sizeof_recovery)
    && is_flag result.recovery.required
    && identifier_is_valid result.recovery.transaction_id true
    && view_is_valid result.recovery.inspect_command

-- The three groups that relate the outcome to effects and recovery.
unfoldable pub result_outcome_consistent : OperationResult → Bool
result_outcome_consistent result =
    not (
      pre_effect_outcome result.outcome
      && (not (result.effects_may_have_occurred ==ℤ pos 0)
          || not (result.recovery.required ==ℤ pos 0)))
    && not (
        uncertain_outcome result.outcome
        && (not (result.effects_may_have_occurred ==ℤ pos 1)
            || not (result.recovery.required ==ℤ pos 1)
            || not (command_name_is_valid result.recovery.inspect_command)))
    && not (
        not (uncertain_outcome result.outcome)
        && (not (result.recovery.required ==ℤ pos 0)
            || not (size result.recovery.transaction_id == 0)
            || not (size result.recovery.inspect_command == 0)))

unfoldable pub operation_result_validate : Option OperationResult → Status
operation_result_validate none = invalid_argument
operation_result_validate (some result) =
    if not (result_fields_valid result)
    then invalid_argument
    else if result_outcome_consistent result
    then ok
    else invalid_argument

unfoldable pub outcome_name : Outcome → Bytes
outcome_name cancelled_before_dispatch = codes "cancelled_before_dispatch"
outcome_name refused_before_effects = codes "refused_before_effects"
outcome_name completed = codes "completed"
outcome_name cancellation_requested_but_completed = codes "cancellation_requested_but_completed"
outcome_name recovery_required = codes "recovery_required"
outcome_name outcome_unknown = codes "outcome_unknown"
outcome_name (other_outcome n) = codes "unknown"

-- The int that the enumeration is in C, and the value that an int is cast to.
unfoldable pub outcome_code : Outcome → ℤ
outcome_code cancelled_before_dispatch = pos 1
outcome_code refused_before_effects = pos 2
outcome_code completed = pos 3
outcome_code cancellation_requested_but_completed = pos 4
outcome_code recovery_required = pos 5
outcome_code outcome_unknown = pos 6
outcome_code (other_outcome n) = n

unfoldable pub outcome_of_int : ℤ → Outcome
outcome_of_int n =
    if n ==ℤ pos 1
    then cancelled_before_dispatch
    else if n ==ℤ pos 2
    then refused_before_effects
    else if n ==ℤ pos 3
    then completed
    else if n ==ℤ pos 4
    then cancellation_requested_but_completed
    else if n ==ℤ pos 5
    then recovery_required
    else if n ==ℤ pos 6
    then outcome_unknown
    else other_outcome n
