-- ===== src/Setup/Handoff.antt =====
-- runtime/launcher/kernel/ulk_setup_handoff.c: the request that the launcher forwards, the
-- projection of a setup result on the install reference, and the status of a launch plan's binding.
use universal_launcher.Prelude.{
  Bool, true, false, not, ◌&&◌, ◌||◌, Option, none, some, ltb, leb, if◌then◌else◌, codes, pos,
  ◌==ℤ◌,
}
use universal_launcher.View.{StringView, null, at, Status, ok, error, invalid_argument}
use universal_launcher.Setup.Checks.{
  SetupOperation, ResultStatus, Lifecycle, PlanReference, InstalledState, SetupResult,
  InstallReference, sizeof_result, sizeof_reference, text_valid, text_equal, operation_valid,
  is_install, status_valid, is_completed, is_managed, is_active, operation_code, plan_valid,
  reference_valid, state_valid, uninstall, completed, recovery_required, managed, other_ownership,
  in_recovery, uninstalled, other_lifecycle,
}
use universal_launcher.Setup.Exchange.{
  InstanceStatus, PlanStatus, ApplyRequest, Refresh, Binding, AuthorityStatus, sizeof_request,
  sizeof_refresh, sizeof_binding, sizeof_authority, created, refreshed, archived, unchanged, ready,
  install_changed, install_unavailable, instance_recovery, other_instance, fresh, stale,
}

unfoldable pub copy_state : InstalledState → InstallReference
copy_state state = record {
  struct_size = sizeof_reference;
  install_id = state.install_id;
  product_id = state.product_id;
  ownership = managed;
  setup_state_ref = state.setup_state_ref;
  exact_product_version = state.exact_product_version;
  entrypoint = state.entrypoint;
  capabilities_json = state.capabilities_json;
  lifecycle_status = state.lifecycle_status;
  last_verification_identity = state.last_verification_identity;
  state_revision = state.state_revision;
}

unfoldable pub result_identity_matches : PlanReference → Option SetupResult → Bool
result_identity_matches plan none = false
result_identity_matches plan (some result) =
    leb sizeof_result result.struct_size
    && (operation_code result.operation ==ℤ operation_code plan.operation)
    && status_valid result.status
    && text_valid result.result_id false
    && text_valid result.audit_identity (not (is_completed result.status))
    && text_equal result.plan_id plan.plan_id
    && text_equal result.plan_digest plan.plan_digest
    && text_equal result.product_id plan.product_id
    && text_equal result.setup_provider plan.setup_provider
    && text_equal result.provider_revision plan.provider_revision

unfoldable pub request_valid : ApplyRequest → Bool
request_valid request =
    not (ltb request.struct_size sizeof_request)
    && operation_valid request.operation
    && text_valid request.plan_id false
    && text_valid request.plan_digest false
    && text_valid request.input_identity_digest false
    && text_valid request.product_id false
    && text_valid request.setup_provider false
    && text_valid request.provider_revision false
    && text_valid request.install_id (is_install request.operation)

unfoldable pub request_matches : ApplyRequest → PlanReference → Bool
request_matches request plan =
    (operation_code request.operation ==ℤ operation_code plan.operation)
    && text_equal request.plan_id plan.plan_id
    && text_equal request.plan_digest plan.plan_digest
    && text_equal request.input_identity_digest plan.input_identity_digest
    && text_equal request.product_id plan.product_id
    && text_equal request.install_id plan.install_id
    && text_equal request.setup_provider plan.setup_provider
    && text_equal request.provider_revision plan.provider_revision

unfoldable pub apply_request_validate : Option ApplyRequest → Option PlanReference → Status
apply_request_validate none plan = invalid_argument
apply_request_validate (some request) none = invalid_argument
apply_request_validate (some request) (some plan) =
    if not (plan_valid (some plan)) || not (request_valid request)
    then invalid_argument
    else if request_matches request plan
    then ok
    else error

abbrev zero_view : StringView
zero_view = null 0

-- What memset leaves of a reference.
abbrev pub zero_reference : InstallReference
zero_reference = record {
  struct_size = 0;
  install_id = zero_view;
  product_id = zero_view;
  ownership = other_ownership (pos 0);
  setup_state_ref = zero_view;
  exact_product_version = zero_view;
  entrypoint = zero_view;
  capabilities_json = zero_view;
  lifecycle_status = other_lifecycle (pos 0);
  last_verification_identity = zero_view;
  state_revision = zero_view;
}

-- The refresh before the result is looked at, with `ulk_setup_copy_current`.
unfoldable pub unchanged_refresh : Option InstallReference → Refresh
unchanged_refresh none = record {
  struct_size = sizeof_refresh;
  has_install_reference = pos 0;
  transition = unchanged;
  install_reference = zero_reference;
  dependent_instance_status = install_unavailable;
  launch_plan_status = fresh;
}
unchanged_refresh (some current) = record {
  struct_size = sizeof_refresh;
  has_install_reference = pos 1;
  transition = unchanged;
  install_reference = record current { struct_size = sizeof_reference };
  dependent_instance_status = ready;
  launch_plan_status = fresh;
}

abbrev pub with_lifecycle : Lifecycle → InstallReference → InstallReference
with_lifecycle l reference = record reference { lifecycle_status = l }

unfoldable pub recovery_refresh : Option InstallReference → Refresh
recovery_refresh none = record (unchanged_refresh none) {
  dependent_instance_status = instance_recovery;
  launch_plan_status = stale;
}
recovery_refresh (some current) = record (unchanged_refresh (some current)) {
  transition = refreshed;
  install_reference =
      with_lifecycle in_recovery (unchanged_refresh (some current)).install_reference;
  dependent_instance_status = instance_recovery;
  launch_plan_status = stale;
}

unfoldable pub uninstall_refresh : Option InstallReference → Refresh
uninstall_refresh current = record (unchanged_refresh current) {
  transition = archived;
  install_reference = with_lifecycle uninstalled (unchanged_refresh current).install_reference;
  dependent_instance_status = install_unavailable;
  launch_plan_status = stale;
}

-- `launch_plan_status` of a completed operation.
abbrev pub revision_status : Option InstallReference → InstalledState → PlanStatus
revision_status none state = stale
revision_status (some current) state =
    if text_equal state.state_revision current.state_revision
      && text_equal state.last_verification_identity current.last_verification_identity
    then fresh
    else stale

unfoldable pub state_refresh : SetupOperation → Option InstallReference → InstalledState → Refresh
state_refresh operation current state = record {
  struct_size = sizeof_refresh;
  has_install_reference = pos 1;
  transition = if is_install operation then created else refreshed;
  install_reference = copy_state state;
  dependent_instance_status = if is_install operation then ready else install_changed;
  launch_plan_status = revision_status current state;
}

-- The guard on an operation other than install: the state is about the referenced install.
abbrev pub same_install : Option InstallReference → InstalledState → Bool
same_install none state = false
same_install (some current) state =
    text_equal state.install_id current.install_id
    && text_equal state.exact_product_version current.exact_product_version

-- What the call returns, and the refresh that it leaves.
abbrev pub Projected : Type 0
Projected = Status × Refresh

-- A completed operation other than uninstall.
unfoldable pub project_state :
    PlanReference → Option InstallReference → Option InstalledState → Projected
project_state plan current none = (error, unchanged_refresh current)
project_state plan current (some state) =
    if not (state_valid (some state))
      || not (is_active state.lifecycle_status)
      || not (text_equal state.product_id plan.product_id)
    then (error, unchanged_refresh current)
    else if not (is_install plan.operation) && not (same_install current state)
    then (error, unchanged_refresh current)
    else (ok, state_refresh plan.operation current state)

unfoldable pub project_completed :
    PlanReference → Option InstallReference → SetupOperation → Option InstalledState → Projected
unfolding project_state
project_completed plan current uninstall none = (ok, uninstall_refresh current)
project_completed plan current uninstall (some state) = (error, unchanged_refresh current)
project_completed plan current _ state = project_state plan current state

unfoldable pub project_result :
    PlanReference → Option InstallReference → ResultStatus → Option InstalledState → Projected
unfolding project_completed
project_result plan current recovery_required state = (ok, recovery_refresh current)
project_result plan current completed state = project_completed plan current plan.operation state
project_result plan current _ state = (ok, unchanged_refresh current)

-- Is the plan about the install that the launcher refers to?
unfoldable pub target_matches : PlanReference → Option InstallReference → Bool
target_matches plan none = is_install plan.operation
target_matches plan (some current) =
    not (is_install plan.operation)
    && is_managed current.ownership
    && text_equal current.install_id plan.install_id
    && text_equal current.product_id plan.product_id

abbrev pub current_valid : Option InstallReference → Bool
current_valid none = true
current_valid (some current) = reference_valid (some current)

unfoldable pub result_project :
    Option PlanReference
    → Option InstallReference
    → Option SetupResult
    → Option Refresh
    → Status × Option Refresh
unfolding project_result target_matches
result_project (some plan) current (some result) (some refresh) =
    let projected = project_result plan current result.status result.installed_state in
    if ltb refresh.struct_size sizeof_refresh
      || not (plan_valid (some plan))
      || not (result_identity_matches plan (some result))
      || not (current_valid current)
    then (invalid_argument, some refresh)
    else if not (target_matches plan current)
    then (error, some refresh)
    else (projected.0, some projected.1)
result_project plan current result refresh = (invalid_argument, refresh)

-- The status is written only when the call succeeds.
unfoldable pub install_status : Option Binding → Option InstallReference → Option PlanStatus
install_status (some binding) (some current) =
    if ltb binding.struct_size sizeof_binding
      || not (reference_valid (some current))
      || not (text_valid binding.install_id false)
      || not (text_valid binding.state_revision false)
      || not (text_valid binding.verification_identity false)
    then none
    else if is_active current.lifecycle_status
        && text_equal binding.install_id current.install_id
        && text_equal binding.state_revision current.state_revision
        && text_equal binding.verification_identity current.last_verification_identity
    then some fresh
    else some stale
install_status binding current = none

-- The code, or what an unknown status leaves behind `status_code`.
unfoldable pub instance_status_code : InstanceStatus → Status × StringView
instance_status_code ready = (ok, at (codes "ready"))
instance_status_code install_changed = (ok, at (codes "managed_install_changed"))
instance_status_code install_unavailable = (ok, at (codes "managed_install_unavailable"))
instance_status_code instance_recovery = (ok, at (codes "managed_install_recovery_required"))
instance_status_code (other_instance n) = (invalid_argument, zero_view)

unfoldable pub authority_status : Option AuthorityStatus → Status × Option AuthorityStatus
authority_status none = (invalid_argument, none)
authority_status (some status) =
    if ltb status.struct_size sizeof_authority then (invalid_argument, some status) else (
      ok,
      some (record {
        struct_size = sizeof_authority;
        mutation_owner = at (codes "universal-setup");
        launcher_role = at (codes "request_validate_reference");
        allowed_operation_mask = 63;
        launcher_can_mutate_setup = pos 0;
      }),
    )
