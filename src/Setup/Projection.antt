-- ===== src/Setup/Projection.antt =====
-- What the projection of a setup result guarantees: the install reference and the plan status that it
-- reports are valid and consistent.
use universal_launcher.Prelude.{
  ℕ, ◌≤◌, ◌≡◌, refl, ◌≢◌, ◌⊎◌, inl, inr, true, false, ◌||◌, Option, none, some, arith, ltb, pos,
}
use universal_launcher.View.{StringView, Status, ok}
use universal_launcher.Setup.Checks.{
  SetupOperation, ResultStatus, Lifecycle, PlanReference, InstalledState, SetupResult,
  InstallReference, sizeof_reference, text_valid, text_equal, is_install, lifecycle_valid,
  is_active, reference_valid, state_valid, text_equal_iff, install, verify, repair, move, uninstall,
  recovery, other_operation, completed, refused, failed, recovery_required, other_status,
  in_recovery, uninstalled,
}
use universal_launcher.Setup.Exchange.{Refresh, Binding, sizeof_binding, fresh, stale}
use universal_launcher.Setup.Handoff.{
  copy_state, unchanged_refresh, recovery_refresh, uninstall_refresh, revision_status,
  state_refresh, same_install, project_state, project_completed, project_result, target_matches,
  current_valid, result_project, install_status,
}

-- Where the projection does not return ok, the refresh is the one that the caller passed, or one
-- that carries the current reference and reports no change.
pub result_project-error :
    (plan : Option PlanReference) (current : Option InstallReference) (result : Option SetupResult)
    (refresh after : Option Refresh) (status : Status)
    → result_project plan current result refresh ≡ (status, after)
    → status ≢ ok
    → (after ≡ refresh) ⊎ (after ≡ some (unchanged_refresh current))
unfolding result_project project_result project_completed project_state
result_project-error none current result refresh after status h n = ground arith
result_project-error (some plan) current none refresh after status h n = ground arith
result_project-error (some plan) current (some result) none after status h n = ground arith
result_project-error (some plan) current (some result) (some refresh) after status h n =
    ground arith

-- The reference that a successful projection of a valid plan and reference reports is valid.
state_reference :
    (state : InstalledState)
    → state_valid (some state) ≡ true
    → reference_valid (some (copy_state state)) ≡ true
unfolding state_valid reference_valid copy_state
state_reference state h = ground arith

lifecycle_reference :
    (l : Lifecycle) (n : ℕ) (current : InstallReference)
    → reference_valid (some current) ≡ true
    → lifecycle_valid l ≡ true
    → sizeof_reference ≤ n
    → reference_valid (some (record current { struct_size = n; lifecycle_status = l })) ≡ true
unfolding reference_valid
lifecycle_reference l n current h k m = ground arith

-- A completed operation that reports an installed state.
abbrev IsReported : PlanReference → Option InstallReference → InstalledState → Refresh → Type 0
IsReported plan current state after =
    (state_valid (some state) ≡ true)
    × (is_active state.lifecycle_status ≡ true)
    × ((is_install plan.operation || same_install current state) ≡ true)
    × (after ≡ state_refresh plan.operation current state)

-- What a projection that succeeds can leave.
abbrev Leaves : PlanReference → Option InstallReference → Refresh → Type 0
Leaves plan current after =
    (after ≡ unchanged_refresh current)
    ⊎ ((after ≡ recovery_refresh current)
        ⊎ ((after ≡ uninstall_refresh current)
            ⊎ ((state : InstalledState) × IsReported plan current state after)))

state-Leaves :
    (plan : PlanReference) (current : Option InstallReference) (state : Option InstalledState)
    (after : Refresh)
    → project_state plan current state ≡ (ok, after)
    → Leaves plan current after
unfolding project_state
state-Leaves plan current none after e = ground arith
state-Leaves plan current (some state) after e = inr (inr (inr (state, ground arith)))

completed-Leaves :
    (plan : PlanReference) (current : Option InstallReference) (operation : SetupOperation)
    (state : Option InstalledState) (after : Refresh)
    → project_completed plan current operation state ≡ (ok, after)
    → Leaves plan current after
unfolding project_completed
completed-Leaves plan current uninstall none after e = inr (inr (inl (ground arith)))
completed-Leaves plan current uninstall (some state) after e = ground arith
completed-Leaves plan current install state after e = state-Leaves plan current state after e
completed-Leaves plan current verify state after e = state-Leaves plan current state after e
completed-Leaves plan current repair state after e = state-Leaves plan current state after e
completed-Leaves plan current move state after e = state-Leaves plan current state after e
completed-Leaves plan current recovery state after e = state-Leaves plan current state after e
completed-Leaves plan current (other_operation n) state after e =
    state-Leaves plan current state after e

result-Leaves :
    (plan : PlanReference) (current : Option InstallReference) (status : ResultStatus)
    (state : Option InstalledState) (after : Refresh)
    → project_result plan current status state ≡ (ok, after)
    → Leaves plan current after
unfolding project_result
result-Leaves plan current completed state after e =
    completed-Leaves plan current plan.operation state after e
result-Leaves plan current refused state after e = inl (ground arith)
result-Leaves plan current failed state after e = inl (ground arith)
result-Leaves plan current recovery_required state after e = inr (inl (ground arith))
result-Leaves plan current (other_status n) state after e = inl (ground arith)

-- What makes a binding fresh against a reference.
abbrev IsBound : Binding → InstallReference → Type 0
IsBound binding current =
    (ltb binding.struct_size sizeof_binding ≡ false)
    × (reference_valid (some current) ≡ true)
    × (text_valid binding.install_id false ≡ true)
    × (text_valid binding.state_revision false ≡ true)
    × (text_valid binding.verification_identity false ≡ true)
    × (text_equal binding.install_id current.install_id ≡ true)
    × (text_equal binding.state_revision current.state_revision ≡ true)
    × (text_equal binding.verification_identity current.last_verification_identity ≡ true)
    × (is_active current.lifecycle_status ≡ true)

bound :
    (binding : Binding) (current : InstallReference)
    → install_status (some binding) (some current) ≡ some fresh
    → IsBound binding current
unfolding install_status
bound binding current h = ground arith

reference_texts :
    (r : InstallReference)
    → reference_valid (some r) ≡ true
    → (text_valid r.install_id false ≡ true)
      × (text_valid r.state_revision false ≡ true)
      × (text_valid r.last_verification_identity false ≡ true)
unfolding reference_valid
reference_texts r h = ground arith

-- Replacing an accepted text in a comparison by one that is equal to it.
text_equal_trans :
    (a b c : StringView)
    → text_valid a false ≡ true
    → text_valid b false ≡ true
    → text_valid c false ≡ true
    → text_equal a b ≡ true
    → text_equal c b ≡ text_equal a c
text_equal_trans a b c ha hb hc e =
    let ab = (text_equal_iff false false a b ha hb).0 e in
    ground (arith, ab, text_equal_iff false false c b hc hb, text_equal_iff false false a c ha hc)

state_texts :
    (r : InstalledState)
    → state_valid (some r) ≡ true
    → (text_valid r.install_id false ≡ true)
      × (text_valid r.state_revision false ≡ true)
      × (text_valid r.last_verification_identity false ≡ true)
unfolding state_valid
state_texts r h = ground arith

module _ (plan : PlanReference) (current : InstallReference) (binding : Binding)
    (b : IsBound binding current) where
  lifecycle_status_lem :
      (l : Lifecycle)
      → lifecycle_valid l ≡ true
      → is_active l ≡ false
      → install_status
          (some binding)
          (some (record current { struct_size = sizeof_reference; lifecycle_status = l }))
        ≡ some stale
  unfolding install_status
  lifecycle_status_lem l v n =
      ground (arith, b, lifecycle_reference l sizeof_reference current b.1 v)

  unchanged_valid :
      reference_valid (some (record current { struct_size = sizeof_reference })) ≡ true
  unfolding reference_valid
  unchanged_valid = ground (arith, b.1)

  unchanged_status :
      install_status (some binding) (some (record current { struct_size = sizeof_reference }))
      ≡ some fresh
  unfolding install_status
  unchanged_status = ground (arith, b, unchanged_valid)

  state_status :
      (state : InstalledState)
      → state_valid (some state) ≡ true
      → is_active state.lifecycle_status ≡ true
      → same_install (some current) state ≡ true
      → install_status (some binding) (some (copy_state state))
        ≡ some (revision_status (some current) state)
  unfolding install_status copy_state
  state_status state v a s =
      let (vi, vr, vv) = state_texts state v in
      let (ci, cr, cv) = reference_texts current b.1 in
      let (size_fits, c, bi, br, bv, ei, er, ev, on) = b in
      ground (
        arith,
        state_reference state v,
        a,
        s,
        text_equal_trans binding.install_id current.install_id state.install_id bi ci vi ei,
        text_equal_trans binding.state_revision current.state_revision state.state_revision br cr vr
            er,
        text_equal_trans binding.verification_identity current.last_verification_identity
            state.last_verification_identity bv cv vv ev,
      )

  Leaves-status :
      (after : Refresh)
      → is_install plan.operation ≡ false
      → Leaves plan (some current) after
      → install_status (some binding) (some after.install_reference) ≡ some after.launch_plan_status
  unfolding unchanged_refresh recovery_refresh uninstall_refresh state_refresh
  Leaves-status after n (inl e) = rw (e) unchanged_status
  Leaves-status after n (inr (inl e)) = rw (e) (lifecycle_status_lem in_recovery refl refl)
  Leaves-status after n (inr (inr (inl e))) = rw (e) (lifecycle_status_lem uninstalled refl refl)
  Leaves-status after n (inr (inr (inr (state, (v, a, s, e))))) =
      rw (e) (state_status state v a (ground (arith, n, s)))

current_lifecycle :
    (r : InstallReference)
    → reference_valid (some r) ≡ true
    → lifecycle_valid r.lifecycle_status ≡ true
unfolding reference_valid
current_lifecycle r h = ground arith

Leaves-valid :
    (plan : PlanReference) (current : Option InstallReference) (after : Refresh)
    → current_valid current ≡ true
    → after.has_install_reference ≡ pos 1
    → Leaves plan current after
    → reference_valid (some after.install_reference) ≡ true
unfolding unchanged_refresh recovery_refresh uninstall_refresh state_refresh
Leaves-valid plan none after v one (inl e) = ground arith
Leaves-valid plan none after v one (inr (inl e)) = ground arith
Leaves-valid plan none after v one (inr (inr (inl e))) = ground arith
Leaves-valid plan (some c) after v one (inl e) = rw (e) (
    lifecycle_reference c.lifecycle_status sizeof_reference c v
      (ground (arith, current_lifecycle c v)) (omega arith))
Leaves-valid plan (some c) after v one (inr (inl e)) =
    rw (e) (lifecycle_reference in_recovery sizeof_reference c v refl (omega arith))
Leaves-valid plan (some c) after v one (inr (inr (inl e))) =
    rw (e) (lifecycle_reference uninstalled sizeof_reference c v refl (omega arith))
Leaves-valid plan current after v one (inr (inr (inr (state, (sv, a, s, e))))) =
    rw (e) (state_reference state sv)

-- A projection that succeeds passed the guards.
projected :
    (plan : PlanReference) (current : Option InstallReference) (result : SetupResult)
    (refresh after : Refresh)
    → result_project (some plan) current (some result) (some refresh) ≡ (ok, some after)
    → (current_valid current ≡ true)
      × (target_matches plan current ≡ true)
      × (project_result plan current result.status result.installed_state ≡ (ok, after))
unfolding result_project
projected plan current result refresh after e =
    let p = project_result plan current result.status result.installed_state in ground arith

-- When a binding is fresh against the current reference and a setup result is projected
-- successfully on that reference, the plan status that the refresh reports is the status of the
-- binding against the reference that the refresh reports.
pub result_project-install_status :
    (plan : PlanReference) (current : InstallReference) (result : SetupResult)
    (refresh after : Refresh) (binding : Binding)
    → install_status (some binding) (some current) ≡ some fresh
    → result_project (some plan) (some current) (some result) (some refresh) ≡ (ok, some after)
    → install_status (some binding) (some after.install_reference) ≡ some after.launch_plan_status
unfolding target_matches
result_project-install_status plan current result refresh after binding h e =
    let (v, t, k) = projected plan (some current) result refresh after e in
    Leaves-status plan current binding (bound binding current h) after (ground (arith, t))
      (result-Leaves plan (some current) result.status result.installed_state after k)

-- A successful projection of a setup result that reports an install reference reports a valid
-- one.
pub result_project-reference_valid :
    (plan : PlanReference) (current : Option InstallReference) (result : SetupResult)
    (refresh after : Refresh)
    → result_project (some plan) current (some result) (some refresh) ≡ (ok, some after)
    → after.has_install_reference ≡ pos 1
    → reference_valid (some after.install_reference) ≡ true
result_project-reference_valid plan current result refresh after e one =
    let (v, t, k) = projected plan current result refresh after e in
    Leaves-valid plan current after v one
      (result-Leaves plan current result.status result.installed_state after k)
