-- ===== src/Reference/Validate.antt =====
-- runtime/launcher/kernel/ulk_reference_model.c
use universal_launcher.Prelude.{
  ℕ, Bool, true, false, not, ◌&&◌, ◌||◌, Option, none, some, ltb, leb, ◌==◌, if◌then◌else◌, ◌>>=◌,
  length, all, codes, bytes_eq, between, pos,
}
use universal_launcher.View.{StringView, null, at, size, contents, Status, ok, invalid_argument}
use universal_launcher.Setup.Checks.{
  InstallReference, sizeof_reference, ownership_valid, lifecycle_valid, is_managed,
}
use universal_launcher.Setup.Exchange.{fresh, stale}
use universal_launcher.Reference.Model.{
  ProductRef, InstanceRef, ProfileRef, ArtifactSetRef, LaunchPlanRef, Issue, Graph, Validation,
  sizeof_product, sizeof_instance, sizeof_profile, sizeof_artifact_set, sizeof_launch_plan,
  sizeof_graph, sizeof_validation, no_issue, invalid_graph, invalid_product,
  invalid_install_reference, invalid_instance, invalid_profile, invalid_artifact_set,
  invalid_launch_plan, product_mismatch, install_mismatch, instance_mismatch, profile_mismatch,
  artifact_set_mismatch, other_issue,
}

unfoldable pub view_valid : StringView → Bool → Bool
view_valid (null n) allow_empty = if n == 0 then allow_empty else false
view_valid (at bytes) allow_empty =
    if length bytes == 0 then allow_empty else all (λ c. not (c == 0)) bytes

abbrev pub is_identifier_byte : ℕ → Bool
is_identifier_byte c =
    between b'a' b'z' c
    || between b'A' b'Z' c
    || between b'0' b'9' c
    || c == b'.'
    || c == b'_'
    || c == b'-'

unfoldable pub identifier_valid : StringView → Bool → Bool
identifier_valid (null n) allow_empty = if n == 0 then allow_empty else false
identifier_valid (at bytes) allow_empty =
    if length bytes == 0
    then allow_empty
    else if ltb 128 (length bytes)
    then false
    else all is_identifier_byte bytes

unfoldable pub view_equal : StringView → StringView → Bool
view_equal left right =
    (size left == size right) && ((size left == 0) || bytes_eq (contents left) (contents right))

unfoldable pub issue_code : Issue → StringView
issue_code no_issue = at (codes "valid")
issue_code invalid_graph = at (codes "invalid_graph")
issue_code invalid_product = at (codes "invalid_product")
issue_code invalid_install_reference = at (codes "invalid_install_reference")
issue_code invalid_instance = at (codes "invalid_instance")
issue_code invalid_profile = at (codes "invalid_profile")
issue_code invalid_artifact_set = at (codes "invalid_artifact_set")
issue_code invalid_launch_plan = at (codes "invalid_launch_plan")
issue_code product_mismatch = at (codes "product_mismatch")
issue_code install_mismatch = at (codes "install_mismatch")
issue_code instance_mismatch = at (codes "instance_mismatch")
issue_code profile_mismatch = at (codes "profile_mismatch")
issue_code artifact_set_mismatch = at (codes "artifact_set_mismatch")
issue_code (other_issue n) = at (codes "invalid_graph")

-- A status and the validation that it comes with.
abbrev pub Reported : Type 0
Reported = Status × Option Validation

-- `ulk_reference_fail`
unfoldable pub fail : Option Validation → Issue → Reported
unfolding issue_code
fail none issue = (invalid_argument, none)
fail (some validation) issue =
    let written : Validation = record {
      struct_size = validation.struct_size;
      valid = pos 0;
      issue = issue;
      launch_plan_status = stale;
      status_code = issue_code issue;
    } in
    (
      invalid_argument,
      some (if leb sizeof_validation validation.struct_size then written else validation),
    )

-- The validators of the references; `true` is ULK_STATUS_OK.
unfoldable pub product_ref_valid : ProductRef → Bool
unfolding identifier_valid
product_ref_valid product =
    leb sizeof_product product.struct_size
    && identifier_valid product.product_id false
    && identifier_valid product.binding_id false

unfoldable pub install_reference_valid : InstallReference → Bool
unfolding identifier_valid view_valid
install_reference_valid reference =
    leb sizeof_reference reference.struct_size
    && ownership_valid reference.ownership
    && lifecycle_valid reference.lifecycle_status
    && identifier_valid reference.install_id false
    && identifier_valid reference.product_id false
    && view_valid reference.setup_state_ref true
    && view_valid reference.exact_product_version false
    && view_valid reference.entrypoint false
    && view_valid reference.capabilities_json false
    && view_valid reference.last_verification_identity false
    && view_valid reference.state_revision false
    && not (is_managed reference.ownership && (size reference.setup_state_ref == 0))

unfoldable pub instance_ref_valid : InstanceRef → Bool
unfolding identifier_valid view_valid
instance_ref_valid i =
    leb sizeof_instance i.struct_size
    && identifier_valid i.instance_id false
    && identifier_valid i.product_id false
    && identifier_valid i.install_id false
    && identifier_valid i.profile_id true
    && identifier_valid i.artifact_set_id true
    && view_valid i.binding_revision false

unfoldable pub profile_ref_valid : ProfileRef → Bool
unfolding identifier_valid view_valid
profile_ref_valid profile =
    leb sizeof_profile profile.struct_size
    && identifier_valid profile.profile_id false
    && identifier_valid profile.product_id false
    && view_valid profile.revision false

unfoldable pub artifact_set_ref_valid : ArtifactSetRef → Bool
unfolding identifier_valid view_valid
artifact_set_ref_valid artifact_set =
    leb sizeof_artifact_set artifact_set.struct_size
    && identifier_valid artifact_set.product_id false
    && identifier_valid artifact_set.artifact_set_id false
    && view_valid artifact_set.lock_json false

unfoldable pub launch_plan_ref_valid : LaunchPlanRef → Bool
unfolding identifier_valid view_valid
launch_plan_ref_valid plan =
    leb sizeof_launch_plan plan.struct_size
    && identifier_valid plan.plan_id false
    && identifier_valid plan.product_id false
    && identifier_valid plan.instance_id false
    && identifier_valid plan.install_id false
    && identifier_valid plan.profile_id true
    && identifier_valid plan.artifact_set_id true
    && view_valid plan.install_state_revision false
    && view_valid plan.instance_binding_revision false
    && view_valid plan.composition_digest false

-- What the pointers of a graph that is complete point to.
pub record Parts : Type 0 where
  pub product : ProductRef
  pub reference : InstallReference
  pub instance_ref : InstanceRef
  pub profile : Option ProfileRef
  pub artifact_set : Option ArtifactSetRef
  pub plan : LaunchPlanRef

abbrev pub optional_valid {ℓ} : {A : Type ℓ} → (A → Bool) → Option A → Bool
optional_valid test none = true
optional_valid test (some a) = test a

abbrev pub same_product : StringView → Parts → Bool
same_product id p =
    view_equal id p.reference.product_id
    && view_equal id p.instance_ref.product_id
    && view_equal id p.plan.product_id
    && optional_valid (λ (r : ProfileRef). view_equal id r.product_id) p.profile
    && optional_valid (λ (s : ArtifactSetRef). view_equal id s.product_id) p.artifact_set

-- The identifiers in the instance and in the plan: empty without the reference, else the same as its.
abbrev pub names_it : Option StringView → StringView → StringView → Bool
names_it none first second = (size first == 0) && (size second == 0)
names_it (some id) first second = view_equal id first && view_equal id second

abbrev pub profile_id_of : Option ProfileRef → Option StringView
profile_id_of none = none
profile_id_of (some r) = some r.profile_id

abbrev pub set_id_of : Option ArtifactSetRef → Option StringView
set_id_of none = none
set_id_of (some s) = some s.artifact_set_id

-- The checks in order, up to the first that fails.
unfoldable pub first_issue : Parts → Option Issue
unfolding product_ref_valid install_reference_valid instance_ref_valid profile_ref_valid
    artifact_set_ref_valid launch_plan_ref_valid view_equal
first_issue p =
    if not (product_ref_valid p.product)
    then some invalid_product
    else if not (install_reference_valid p.reference)
    then some invalid_install_reference
    else if not (instance_ref_valid p.instance_ref)
    then some invalid_instance
    else if not (optional_valid profile_ref_valid p.profile)
    then some invalid_profile
    else if not (optional_valid artifact_set_ref_valid p.artifact_set)
    then some invalid_artifact_set
    else if not (launch_plan_ref_valid p.plan)
    then some invalid_launch_plan
    else if not (same_product p.product.product_id p)
    then some product_mismatch
    else if not (view_equal p.reference.install_id p.instance_ref.install_id)
        || not (view_equal p.reference.install_id p.plan.install_id)
    then some install_mismatch
    else if not (view_equal p.instance_ref.instance_id p.plan.instance_id)
    then some instance_mismatch
    else if not (names_it (profile_id_of p.profile) p.instance_ref.profile_id p.plan.profile_id)
    then some profile_mismatch
    else if not
        (names_it (set_id_of p.artifact_set) p.instance_ref.artifact_set_id p.plan.artifact_set_id)
    then some artifact_set_mismatch
    else none

unfoldable pub is_stale : Parts → Bool
unfolding view_equal
is_stale p =
    not (view_equal p.reference.state_revision p.plan.install_state_revision)
    || not (view_equal p.instance_ref.binding_revision p.plan.instance_binding_revision)

unfoldable pub parts_of : Graph → Option Parts
parts_of graph = do
  product ← graph.product
  reference ← graph.install_reference
  instance_ref ← graph.instance_ref
  plan ← graph.launch_plan
  some (record {
    product = product;
    reference = reference;
    instance_ref = instance_ref;
    profile = graph.profile;
    artifact_set = graph.artifact_set;
    plan = plan;
  })

unfoldable pub validate_parts : Parts → Validation → Reported
unfolding first_issue fail is_stale issue_code
validate_parts p validation = elim (first_issue p) [
  | some issue ↦ fail (some validation) issue
  | none ↦
      let written : Validation = record {
        struct_size = validation.struct_size;
        valid = pos 1;
        issue = no_issue;
        launch_plan_status = if is_stale p then stale else fresh;
        status_code = if is_stale p then at (codes "stale") else issue_code no_issue;
      } in
      (ok, some written)
]

unfoldable pub graph_validate : Option Graph → Option Validation → Reported
unfolding parts_of validate_parts fail
graph_validate graph none = (invalid_argument, none)
graph_validate graph (some validation) =
    if ltb validation.struct_size sizeof_validation
    then (invalid_argument, some validation)
    else elim graph [
      | none ↦ fail (some validation) invalid_graph
      | some g ↦
          if ltb g.struct_size sizeof_graph
          then fail (some validation) invalid_graph
          else elim (parts_of g) [
            | none ↦ fail (some validation) invalid_graph
            | some p ↦ validate_parts p validation
          ]
    ]
