-- ===== src/Setup/Checks.antt =====
-- include/ulk/ulk_setup_handoff.h, and the validators at the top of
-- runtime/launcher/kernel/ulk_setup_handoff.c.
use universal_launcher.Prelude.{
  ℕ, ◌≡◌, ap, ◌↔◌, Bool, true, false, not, ◌&&◌, ◌||◌, Option, none, some, [], ◌∷◌, arith, ltb, leb,
  ◌==◌, if◌then◌else◌, length, all, bytes_eq, bytes_eq_iff, ℤ, pos, ◌==ℤ◌,
}
use universal_launcher.View.{StringView, null, at, size, is_null, contents}

-- The C enumerators, and any other value that a caller can store in the field.
pub data SetupOperation : Type 0 where
  install verify repair move uninstall recovery : SetupOperation
  other_operation : ℤ → SetupOperation

pub data ResultStatus : Type 0 where
  completed refused failed recovery_required : ResultStatus
  other_status : ℤ → ResultStatus

pub data Ownership : Type 0 where
  managed imported foreign_owned : Ownership
  other_ownership : ℤ → Ownership

pub data Lifecycle : Type 0 where
  active verification_failed in_recovery retired uninstalled : Lifecycle
  other_lifecycle : ℤ → Lifecycle

pub record PlanReference : Type 0 where
  pub struct_size : ℕ
  pub operation : SetupOperation
  pub plan_id : StringView
  pub plan_digest : StringView
  pub input_identity_digest : StringView
  pub product_id : StringView
  pub install_id : StringView
  pub setup_provider : StringView
  pub provider_revision : StringView
  pub reviewed : ℤ

pub record InstalledState : Type 0 where
  pub struct_size : ℕ
  pub setup_state_ref : StringView
  pub install_id : StringView
  pub product_id : StringView
  pub exact_product_version : StringView
  pub entrypoint : StringView
  pub capabilities_json : StringView
  pub lifecycle_status : Lifecycle
  pub last_verification_identity : StringView
  pub state_revision : StringView

-- A null pointer to the installed state is `none`.
pub record SetupResult : Type 0 where
  pub struct_size : ℕ
  pub operation : SetupOperation
  pub status : ResultStatus
  pub result_id : StringView
  pub plan_id : StringView
  pub plan_digest : StringView
  pub product_id : StringView
  pub setup_provider : StringView
  pub provider_revision : StringView
  pub audit_identity : StringView
  pub installed_state : Option InstalledState

pub record InstallReference : Type 0 where
  pub struct_size : ℕ
  pub install_id : StringView
  pub product_id : StringView
  pub ownership : Ownership
  pub setup_state_ref : StringView
  pub exact_product_version : StringView
  pub entrypoint : StringView
  pub capabilities_json : StringView
  pub lifecycle_status : Lifecycle
  pub last_verification_identity : StringView
  pub state_revision : StringView

-- The sizes of the structures on a platform with 64-bit pointers.
abbrev pub sizeof_plan : ℕ
sizeof_plan = 136

abbrev pub sizeof_state : ℕ
sizeof_state = 144

abbrev pub sizeof_result : ℕ
sizeof_result = 136

abbrev pub sizeof_reference : ℕ
sizeof_reference = 152

abbrev pub text_limit : ℕ
text_limit = 4096

unfoldable pub text_valid : StringView → Bool → Bool
text_valid (null n) allow_empty = allow_empty && (n == 0)
text_valid (at bytes) allow_empty =
    if (not allow_empty && (length bytes == 0)) || ltb text_limit (length bytes)
    then false
    else all (λ c. not (c == 0)) bytes

unfoldable pub text_equal : StringView → StringView → Bool
text_equal left right =
    (size left == size right)
    && ((size left == 0)
        || (not (is_null left) && not (is_null right) && bytes_eq (contents left) (contents right)))

abbrev pub operation_valid : SetupOperation → Bool
operation_valid (other_operation n) = false
operation_valid _ = true

abbrev pub is_install : SetupOperation → Bool
is_install install = true
is_install _ = false

-- The range test that `ulk_setup_result_identity_matches` makes on the status.
abbrev pub status_valid : ResultStatus → Bool
status_valid (other_status n) = false
status_valid _ = true

abbrev pub is_completed : ResultStatus → Bool
is_completed completed = true
is_completed _ = false

abbrev pub ownership_valid : Ownership → Bool
ownership_valid (other_ownership n) = false
ownership_valid _ = true

abbrev pub is_managed : Ownership → Bool
is_managed managed = true
is_managed _ = false

abbrev pub lifecycle_valid : Lifecycle → Bool
lifecycle_valid (other_lifecycle n) = false
lifecycle_valid _ = true

abbrev pub is_active : Lifecycle → Bool
is_active active = true
is_active _ = false

-- The enumerator as the C int of the comparison `operation == operation`.
abbrev pub operation_code : SetupOperation → ℤ
operation_code install = pos 1
operation_code verify = pos 2
operation_code repair = pos 3
operation_code move = pos 4
operation_code uninstall = pos 5
operation_code recovery = pos 6
operation_code (other_operation n) = n

unfoldable pub plan_valid : Option PlanReference → Bool
plan_valid none = false
plan_valid (some plan) =
    if ltb plan.struct_size sizeof_plan
      || not (operation_valid plan.operation)
      || (plan.reviewed ==ℤ pos 0)
      || not (text_valid plan.plan_id false)
      || not (text_valid plan.plan_digest false)
      || not (text_valid plan.input_identity_digest false)
      || not (text_valid plan.product_id false)
      || not (text_valid plan.setup_provider false)
      || not (text_valid plan.provider_revision false)
    then false
    else if is_install plan.operation
    then text_valid plan.install_id true && (size plan.install_id == 0)
    else text_valid plan.install_id false

unfoldable pub reference_valid : Option InstallReference → Bool
reference_valid none = false
reference_valid (some reference) =
    if ltb reference.struct_size sizeof_reference
      || not (ownership_valid reference.ownership)
      || not (lifecycle_valid reference.lifecycle_status)
      || not (text_valid reference.install_id false)
      || not (text_valid reference.product_id false)
      || not (text_valid reference.exact_product_version false)
      || not (text_valid reference.entrypoint false)
      || not (text_valid reference.capabilities_json false)
      || not (text_valid reference.last_verification_identity false)
      || not (text_valid reference.state_revision false)
    then false
    else text_valid reference.setup_state_ref (not (is_managed reference.ownership))

unfoldable pub state_valid : Option InstalledState → Bool
state_valid none = false
state_valid (some state) =
    leb sizeof_state state.struct_size
    && lifecycle_valid state.lifecycle_status
    && text_valid state.setup_state_ref false
    && text_valid state.install_id false
    && text_valid state.product_id false
    && text_valid state.exact_product_version false
    && text_valid state.entrypoint false
    && text_valid state.capabilities_json false
    && text_valid state.last_verification_identity false
    && text_valid state.state_revision false

-- Two accepted texts are equal exactly when they cover the same bytes.
pub text_equal_iff :
    (a b : Bool) (v w : StringView)
    → text_valid v a ≡ true
    → text_valid w b ≡ true
    → (text_equal v w ≡ true) ↔ (contents v ≡ contents w)
unfolding text_valid text_equal
text_equal_iff a b (null n) (null m) h k = ground arith
text_equal_iff a b (null n) (at []) h k = ground arith
text_equal_iff a b (null n) (at (x ∷ t)) h k = ground arith
text_equal_iff a b (at []) (null m) h k = ground arith
text_equal_iff a b (at (x ∷ s)) (null m) h k = ground arith
text_equal_iff a b (at []) (at []) h k = ground arith
text_equal_iff a b (at []) (at (y ∷ t)) h k = ground arith
text_equal_iff a b (at (x ∷ s)) (at []) h k = ground arith
text_equal_iff a b (at (x ∷ s)) (at (y ∷ t)) h k = (
  λ e. ground (arith, bytes_eq_iff (x ∷ s) (y ∷ t)),
  λ e. ground (arith, ap length e, bytes_eq_iff (x ∷ s) (y ∷ t)),
)
