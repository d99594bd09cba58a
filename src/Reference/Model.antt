-- ===== src/Reference/Model.antt =====
-- include/ulk/ulk_reference_model.h, with the structures of ulk_product.h, ulk_instance.h,
-- ulk_profile.h, ulk_artifact_set.h and ulk_launch_plan.h.
use universal_launcher.Prelude.{ℕ, Option, ℤ}
use universal_launcher.View.{StringView}
use universal_launcher.Setup.Checks.{InstallReference}
use universal_launcher.Setup.Exchange.{PlanStatus}

pub record ProductRef : Type 0 where
  pub struct_size : ℕ
  pub product_id : StringView
  pub binding_id : StringView

pub record InstanceRef : Type 0 where
  pub struct_size : ℕ
  pub instance_id : StringView
  pub product_id : StringView
  pub install_id : StringView
  pub profile_id : StringView
  pub artifact_set_id : StringView
  pub binding_revision : StringView

pub record ProfileRef : Type 0 where
  pub struct_size : ℕ
  pub profile_id : StringView
  pub product_id : StringView
  pub revision : StringView

pub record ArtifactSetRef : Type 0 where
  pub struct_size : ℕ
  pub product_id : StringView
  pub artifact_set_id : StringView
  pub lock_json : StringView

pub record LaunchPlanRef : Type 0 where
  pub struct_size : ℕ
  pub plan_id : StringView
  pub product_id : StringView
  pub instance_id : StringView
  pub install_id : StringView
  pub profile_id : StringView
  pub artifact_set_id : StringView
  pub install_state_revision : StringView
  pub instance_binding_revision : StringView
  pub composition_digest : StringView

-- The enumerators, and any other value that the caller has stored.
pub data Issue : Type 0 where
  no_issue invalid_graph invalid_product invalid_install_reference invalid_instance : Issue
  invalid_profile invalid_artifact_set invalid_launch_plan product_mismatch : Issue
  install_mismatch instance_mismatch profile_mismatch artifact_set_mismatch : Issue
  other_issue : ℤ → Issue

-- The six pointers; a null pointer is `none`.
pub record Graph : Type 0 where
  pub struct_size : ℕ
  pub product : Option ProductRef
  pub install_reference : Option InstallReference
  pub instance_ref : Option InstanceRef
  pub profile : Option ProfileRef
  pub artifact_set : Option ArtifactSetRef
  pub launch_plan : Option LaunchPlanRef

pub record Validation : Type 0 where
  pub struct_size : ℕ
  pub valid : ℤ
  pub issue : Issue
  pub launch_plan_status : PlanStatus
  pub status_code : StringView

-- The sizes of the structures on a platform with 64-bit pointers.
abbrev pub sizeof_product : ℕ
sizeof_product = 40

abbrev pub sizeof_instance : ℕ
sizeof_instance = 104

abbrev pub sizeof_profile : ℕ
sizeof_profile = 56

abbrev pub sizeof_artifact_set : ℕ
sizeof_artifact_set = 56

abbrev pub sizeof_launch_plan : ℕ
sizeof_launch_plan = 152

abbrev pub sizeof_graph : ℕ
sizeof_graph = 56

abbrev pub sizeof_validation : ℕ
sizeof_validation = 40
