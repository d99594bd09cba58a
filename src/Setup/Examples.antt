-- ===== src/Setup/Examples.antt =====
-- The theorems on the setup hand-off, applied to a sample install that setup repairs.
use universal_launcher.Prelude.{
  ◌≡◌, refl, ◌↔◌, ◌⊎◌, true, none, some, arith, codes, bytes_eq, pos, ◌==ℤ◌,
}
use universal_launcher.View.{at, ok, error}
use universal_launcher.Setup.Checks.{
  PlanReference, InstalledState, SetupResult, InstallReference, sizeof_plan, sizeof_state,
  sizeof_result, text_valid, text_equal, plan_valid, reference_valid, state_valid, repair,
  completed, active,
}
use universal_launcher.Setup.Exchange.{
  ApplyRequest, Refresh, Binding, sizeof_request, sizeof_binding, fresh,
}
use universal_launcher.Setup.Handoff.{
  copy_state, result_identity_matches, request_valid, apply_request_validate, unchanged_refresh,
  state_refresh, result_project, install_status,
}
use universal_launcher.Setup.Mirror.{Mirrors, apply_request_validate_iff}
use universal_launcher.Setup.Projection.{
  result_project-install_status, result_project-reference_valid, result_project-error,
}

abbrev repair_plan : PlanReference
repair_plan = record {
  struct_size = sizeof_plan;
  operation = repair;
  plan_id = at (codes "p1");
  plan_digest = at (codes "d1");
  input_identity_digest = at (codes "i1");
  product_id = at (codes "game");
  install_id = at (codes "main");
  setup_provider = at (codes "setup");
  provider_revision = at (codes "r1");
  reviewed = pos 1;
}

abbrev repair_request : ApplyRequest
repair_request = record {
  struct_size = sizeof_request;
  operation = repair;
  plan_id = at (codes "p1");
  plan_digest = at (codes "d1");
  input_identity_digest = at (codes "i1");
  product_id = at (codes "game");
  install_id = at (codes "main");
  setup_provider = at (codes "setup");
  provider_revision = at (codes "r1");
}

abbrev repaired : InstalledState
repaired = record {
  struct_size = sizeof_state;
  setup_state_ref = at (codes "state");
  install_id = at (codes "main");
  product_id = at (codes "game");
  exact_product_version = at (codes "1.0");
  entrypoint = at (codes "run");
  capabilities_json = at (codes "[]");
  lifecycle_status = active;
  last_verification_identity = at (codes "v2");
  state_revision = at (codes "2");
}

abbrev installed : InstallReference
installed = record (copy_state repaired) {
  last_verification_identity = at (codes "v1");
  state_revision = at (codes "1");
}

abbrev repair_result : SetupResult
repair_result = record {
  struct_size = sizeof_result;
  operation = repair;
  status = completed;
  result_id = at (codes "x1");
  plan_id = at (codes "p1");
  plan_digest = at (codes "d1");
  product_id = at (codes "game");
  setup_provider = at (codes "setup");
  provider_revision = at (codes "r1");
  audit_identity = at (codes "audit");
  installed_state = some repaired;
}

abbrev plan_binding : Binding
plan_binding = record {
  struct_size = sizeof_binding;
  install_id = at (codes "main");
  state_revision = at (codes "1");
  verification_identity = at (codes "v1");
}

abbrev blank_refresh : Refresh
blank_refresh = unchanged_refresh none

abbrev repaired_refresh : Refresh
repaired_refresh = state_refresh repair (some installed) repaired

binding_fresh : install_status (some plan_binding) (some installed) ≡ some fresh
unfolding install_status reference_valid copy_state text_valid text_equal bytes_eq
binding_fresh = refl

repair_projected :
    result_project (some repair_plan) (some installed) (some repair_result) (some blank_refresh)
    ≡ (ok, some repaired_refresh)
unfolding result_project unchanged_refresh plan_valid ◌==ℤ◌ text_valid result_identity_matches
    text_equal bytes_eq reference_valid copy_state state_valid state_refresh
repair_projected = refl

repair_refused :
    result_project (some repair_plan) none (some repair_result) (some blank_refresh)
    ≡ (error, some blank_refresh)
unfolding result_project unchanged_refresh plan_valid ◌==ℤ◌ text_valid result_identity_matches
    text_equal bytes_eq reference_valid copy_state state_valid state_refresh
repair_refused = refl

result_project-install_status_example :
    install_status (some plan_binding) (some repaired_refresh.install_reference)
    ≡ some repaired_refresh.launch_plan_status
result_project-install_status_example =
    result_project-install_status repair_plan installed repair_result blank_refresh repaired_refresh
      plan_binding binding_fresh repair_projected

result_project-reference_valid_example :
    reference_valid (some repaired_refresh.install_reference) ≡ true
unfolding state_refresh
result_project-reference_valid_example =
    result_project-reference_valid repair_plan (some installed) repair_result blank_refresh
      repaired_refresh repair_projected refl

result_project-error_example :
    (some blank_refresh ≡ some blank_refresh) ⊎ (some blank_refresh ≡ some (unchanged_refresh none))
result_project-error_example =
    result_project-error (some repair_plan) none (some repair_result) (some blank_refresh)
      (some blank_refresh) error repair_refused (λ e. ground arith)

apply_request_validate_iff_example :
    (apply_request_validate (some repair_request) (some repair_plan) ≡ ok) ↔ (
      (plan_valid (some repair_plan) ≡ true)
      × (request_valid repair_request ≡ true)
      × Mirrors repair_request repair_plan)
apply_request_validate_iff_example = apply_request_validate_iff repair_request repair_plan
