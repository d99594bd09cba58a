-- ===== src/Setup/Exchange.antt =====
-- include/ulk/ulk_setup_handoff.h: the request, the refresh of a reference and the binding of a
-- launch plan.
use universal_launcher.Prelude.{ℕ, ℤ}
use universal_launcher.View.{StringView}
use universal_launcher.Setup.Checks.{SetupOperation, InstallReference}

pub data Transition : Type 0 where
  created refreshed archived unchanged : Transition
  other_transition : ℤ → Transition

pub data InstanceStatus : Type 0 where
  ready install_changed install_unavailable instance_recovery : InstanceStatus
  other_instance : ℤ → InstanceStatus

pub data PlanStatus : Type 0 where
  fresh stale : PlanStatus
  other_plan : ℤ → PlanStatus

pub record ApplyRequest : Type 0 where
  pub struct_size : ℕ
  pub operation : SetupOperation
  pub plan_id : StringView
  pub plan_digest : StringView
  pub input_identity_digest : StringView
  pub product_id : StringView
  pub install_id : StringView
  pub setup_provider : StringView
  pub provider_revision : StringView

pub record Refresh : Type 0 where
  pub struct_size : ℕ
  pub has_install_reference : ℤ
  pub transition : Transition
  pub install_reference : InstallReference
  pub dependent_instance_status : InstanceStatus
  pub launch_plan_status : PlanStatus

pub record Binding : Type 0 where
  pub struct_size : ℕ
  pub install_id : StringView
  pub state_revision : StringView
  pub verification_identity : StringView

pub record AuthorityStatus : Type 0 where
  pub struct_size : ℕ
  pub mutation_owner : StringView
  pub launcher_role : StringView
  pub allowed_operation_mask : ℕ
  pub launcher_can_mutate_setup : ℤ

abbrev pub sizeof_request : ℕ
sizeof_request = 128

abbrev pub sizeof_refresh : ℕ
sizeof_refresh = 176

abbrev pub sizeof_binding : ℕ
sizeof_binding = 56

abbrev pub sizeof_authority : ℕ
sizeof_authority = 48
