-- ===== src/Reference/Validity.antt =====
-- A graph is accepted exactly when its references are valid and agree, and is fresh exactly when the
-- revisions do.
use mathlib.Core.Path.{subst}
use universal_launcher.Prelude.{
  ◌≡◌, refl, ◌↔◌, inl, inr, Bool, true, false, ◌&&◌, Option, none, some, [], ◌∷◌, arith, ltb,
  Bool-cases, Option-cases, All,
}
use universal_launcher.View.{StringView, contents, is_ok}
use universal_launcher.Setup.Checks.{InstallReference}
use universal_launcher.Setup.Exchange.{PlanStatus, fresh}
use universal_launcher.Reference.Model.{
  ProductRef, InstanceRef, ProfileRef, ArtifactSetRef, LaunchPlanRef, Graph, Validation,
  sizeof_graph, sizeof_validation,
}
use universal_launcher.Reference.Validate.{
  view_equal, Reported, fail, product_ref_valid, install_reference_valid, instance_ref_valid,
  profile_ref_valid, artifact_set_ref_valid, launch_plan_ref_valid, optional_valid, profile_id_of,
  set_id_of, first_issue, is_stale, parts_of, validate_parts, graph_validate, Parts,
}
use universal_launcher.Reference.Agreement.{
  agreement, IsReadable, view_valid-IsReadable, identifier_valid-IsReadable, view_equal_iff,
  SameText, profile_product, set_product, IsReadableOption, names_it_iff, all_valid,
  first_issue_iff, Agrees,
}

optional_product_iff :
    (v : StringView) (o : Option ProfileRef)
    → IsReadable v
    → IsReadableOption (profile_product o)
    → (optional_valid (λ (r : ProfileRef). view_equal v r.product_id) o ≡ true)
      ↔ SameText v (profile_product o)
unfolding IsReadableOption
optional_product_iff v none h k = (λ e. tt, λ e. refl)
optional_product_iff v (some r) h k = view_equal_iff v r.product_id h k

optional_set_iff :
    (v : StringView) (o : Option ArtifactSetRef)
    → IsReadable v
    → IsReadableOption (set_product o)
    → (optional_valid (λ (r : ArtifactSetRef). view_equal v r.product_id) o ≡ true)
      ↔ SameText v (set_product o)
unfolding IsReadableOption
optional_set_iff v none h k = (λ e. tt, λ e. refl)
optional_set_iff v (some r) h k = view_equal_iff v r.product_id h k

profile_views :
    (o : Option ProfileRef)
    → optional_valid profile_ref_valid o ≡ true
    → IsReadableOption (profile_product o) × IsReadableOption (profile_id_of o)
unfolding IsReadableOption profile_ref_valid
profile_views none h = (tt, tt)
profile_views (some r) h = (
  identifier_valid-IsReadable r.product_id false (ground (arith, h)),
  identifier_valid-IsReadable r.profile_id false (ground (arith, h)),
)

set_views :
    (o : Option ArtifactSetRef)
    → optional_valid artifact_set_ref_valid o ≡ true
    → IsReadableOption (set_product o) × IsReadableOption (set_id_of o)
unfolding IsReadableOption artifact_set_ref_valid
set_views none h = (tt, tt)
set_views (some r) h = (
  identifier_valid-IsReadable r.product_id false (ground (arith, h)),
  identifier_valid-IsReadable r.artifact_set_id false (ground (arith, h)),
)

instance_views :
    (i : InstanceRef)
    → instance_ref_valid i ≡ true
    → All IsReadable (
        i.instance_id ∷ i.product_id ∷ i.install_id ∷ i.profile_id ∷ i.artifact_set_id
        ∷ i.binding_revision ∷ [])
unfolding instance_ref_valid
instance_views i h = (
  identifier_valid-IsReadable i.instance_id false (ground (arith, h)),
  (
    identifier_valid-IsReadable i.product_id false (ground (arith, h)),
    (
      identifier_valid-IsReadable i.install_id false (ground (arith, h)),
      (
        identifier_valid-IsReadable i.profile_id true (ground (arith, h)),
        (
          identifier_valid-IsReadable i.artifact_set_id true (ground (arith, h)),
          (view_valid-IsReadable i.binding_revision false (ground (arith, h)), tt),
        ),
      ),
    ),
  ),
)

plan_views :
    (p : LaunchPlanRef)
    → launch_plan_ref_valid p ≡ true
    → All IsReadable (
        p.product_id ∷ p.instance_id ∷ p.install_id ∷ p.profile_id ∷ p.artifact_set_id
        ∷ p.install_state_revision ∷ p.instance_binding_revision ∷ [])
unfolding launch_plan_ref_valid
plan_views p h = (
  identifier_valid-IsReadable p.product_id false (ground (arith, h)),
  (
    identifier_valid-IsReadable p.instance_id false (ground (arith, h)),
    (
      identifier_valid-IsReadable p.install_id false (ground (arith, h)),
      (
        identifier_valid-IsReadable p.profile_id true (ground (arith, h)),
        (
          identifier_valid-IsReadable p.artifact_set_id true (ground (arith, h)),
          (
            view_valid-IsReadable p.install_state_revision false (ground (arith, h)),
            (view_valid-IsReadable p.instance_binding_revision false (ground (arith, h)), tt),
          ),
        ),
      ),
    ),
  ),
)

reference_views :
    (r : InstallReference)
    → install_reference_valid r ≡ true
    → All IsReadable (r.install_id ∷ r.product_id ∷ r.state_revision ∷ [])
unfolding install_reference_valid
reference_views r h = (
  identifier_valid-IsReadable r.install_id false (ground (arith, h)),
  (
    identifier_valid-IsReadable r.product_id false (ground (arith, h)),
    (view_valid-IsReadable r.state_revision false (ground (arith, h)), tt),
  ),
)

product_view : (r : ProductRef) → product_ref_valid r ≡ true → IsReadable r.product_id
unfolding product_ref_valid
product_view r h = identifier_valid-IsReadable r.product_id false (ground (arith, h))

split_agreement :
    (a1 a2 a3 a4 a5 b c d e f : Bool)
    → (((a1 && a2 && a3 && a4 && a5) && b && c && d && e && f) ≡ true)
    → (a1 ≡ true)
      × (a2 ≡ true)
      × (a3 ≡ true)
      × (a4 ≡ true)
      × (a5 ≡ true)
      × (b ≡ true)
      × (c ≡ true)
      × (d ≡ true)
      × (e ≡ true)
      × (f ≡ true)
split_agreement a1 a2 a3 a4 a5 b c d e f h = ground (arith, h)

join_agreement :
    (a1 a2 a3 a4 a5 b c d e f : Bool)
    → (a1 ≡ true)
    → (a2 ≡ true)
    → (a3 ≡ true)
    → (a4 ≡ true)
    → (a5 ≡ true)
    → (b ≡ true)
    → (c ≡ true)
    → (d ≡ true)
    → (e ≡ true)
    → (f ≡ true)
    → ((a1 && a2 && a3 && a4 && a5) && b && c && d && e && f) ≡ true
join_agreement a1 a2 a3 a4 a5 b c d e f h1 h2 h3 h4 h5 h6 h7 h8 h9 h10 = ground arith

module _ (p : Parts) (valid : all_valid p ≡ true) where
  v_product : IsReadable p.product.product_id
  v_product = product_view p.product (ground (arith, valid))

  v_reference :
      All IsReadable
        (p.reference.install_id ∷ p.reference.product_id ∷ p.reference.state_revision ∷ [])
  v_reference = reference_views p.reference (ground (arith, valid))

  v_instance : All IsReadable (
      p.instance_ref.instance_id ∷ p.instance_ref.product_id ∷ p.instance_ref.install_id
      ∷ p.instance_ref.profile_id ∷ p.instance_ref.artifact_set_id ∷ p.instance_ref.binding_revision
      ∷ [])
  v_instance = instance_views p.instance_ref (ground (arith, valid))

  v_plan : All IsReadable (
      p.plan.product_id ∷ p.plan.instance_id ∷ p.plan.install_id ∷ p.plan.profile_id
      ∷ p.plan.artifact_set_id ∷ p.plan.install_state_revision ∷ p.plan.instance_binding_revision
      ∷ [])
  v_plan = plan_views p.plan (ground (arith, valid))

  v_profile :
      IsReadableOption (profile_product p.profile) × IsReadableOption (profile_id_of p.profile)
  v_profile = profile_views p.profile (ground (arith, valid))

  v_set :
      IsReadableOption (set_product p.artifact_set) × IsReadableOption (set_id_of p.artifact_set)
  v_set = set_views p.artifact_set (ground (arith, valid))

  agreement_iff : (agreement p ≡ true) ↔ Agrees p
  agreement_iff =
      let (r_install, (r_product, _)) = v_reference in
      let (i_id, (i_product, (i_install, (i_profile, (i_set, _))))) = v_instance in
      let (l_product, (l_instance, (l_install, (l_profile, (l_set, _))))) = v_plan in
      let e1 = view_equal_iff p.product.product_id p.reference.product_id v_product r_product in
      let e2 = view_equal_iff p.product.product_id p.instance_ref.product_id v_product i_product in
      let e3 = view_equal_iff p.product.product_id p.plan.product_id v_product l_product in
      let e4 = optional_product_iff p.product.product_id p.profile v_product v_profile.0 in
      let e5 = optional_set_iff p.product.product_id p.artifact_set v_product v_set.0 in
      let e6 =
        view_equal_iff p.reference.install_id p.instance_ref.install_id r_install i_install in
      let e7 = view_equal_iff p.reference.install_id p.plan.install_id r_install l_install in
      let e8 = view_equal_iff p.instance_ref.instance_id p.plan.instance_id i_id l_instance in
      let e9 =
        names_it_iff (profile_id_of p.profile) p.instance_ref.profile_id p.plan.profile_id
          v_profile.1 i_profile l_profile in
      let e10 =
        names_it_iff (set_id_of p.artifact_set) p.instance_ref.artifact_set_id
          p.plan.artifact_set_id v_set.1 i_set l_set in
      (
        (λ h.
            let (h1, h2, h3, h4, h5, h6, h7, h8, h9, h10) = split_agreement _ _ _ _ _ _ _ _ _ _ h in
            record {
              product_reference = e1.0 h1;
              product_instance = e2.0 h2;
              product_plan = e3.0 h3;
              product_profile = e4.0 h4;
              product_set = e5.0 h5;
              install_instance = e6.0 h6;
              install_plan = e7.0 h7;
              instance_plan = e8.0 h8;
              profile_named = e9.0 h9;
              set_named = e10.0 h10;
            }),
        (λ a.
            join_agreement _ _ _ _ _ _ _ _ _ _ (e1.1 a.product_reference) (e2.1 a.product_instance)
              (e3.1 a.product_plan) (e4.1 a.product_profile) (e5.1 a.product_set)
              (e6.1 a.install_instance) (e7.1 a.install_plan) (e8.1 a.instance_plan)
              (e9.1 a.profile_named) (e10.1 a.set_named)),
      )

  -- Fresh exactly when the plan was made for the revisions that stand.
  fresh_iff : (is_stale p ≡ false) ↔ (
      (contents p.reference.state_revision ≡ contents p.plan.install_state_revision)
      × (contents p.instance_ref.binding_revision ≡ contents p.plan.instance_binding_revision))
  unfolding is_stale
  fresh_iff =
      let (_, (_, (r_revision, _))) = v_reference in
      let (_, (_, (_, (_, (_, (i_revision, _)))))) = v_instance in
      let (_, (_, (_, (_, (_, (l_state, (l_binding, _))))))) = v_plan in
      let e1 =
        view_equal_iff p.reference.state_revision p.plan.install_state_revision r_revision
          l_state in
      let e2 =
        view_equal_iff p.instance_ref.binding_revision p.plan.instance_binding_revision i_revision
          l_binding in
      (
        (λ h. (e1.0 (ground (arith, h)), e2.0 (ground (arith, h)))),
        (λ h. ground (arith, e1.1 h.0, e2.1 h.1)),
      )

reported :
    (g : Graph) (p : Parts) (v : Validation)
    → parts_of g ≡ some p
    → ltb g.struct_size sizeof_graph ≡ false
    → ltb v.struct_size sizeof_validation ≡ false
    → graph_validate (some g) (some v) ≡ validate_parts p v
unfolding graph_validate
reported g p v h k l = rw (l, graph_validate) (rw (k) (rw (h) refl))

passes_iff :
    (p : Parts) (v : Validation) → (is_ok (validate_parts p v).0 ≡ true) ↔ (first_issue p ≡ none)
unfolding validate_parts fail
passes_iff p v = elim (Option-cases (first_issue p)) [
  | inl n ↦ rw (n, validate_parts) ((λ h. refl), (λ h. refl))
  | inr (issue, n) ↦ rw (n, validate_parts) ((λ h. ground (arith, h)), (λ h. ground (arith, h)))
]

valid_and : (p : Parts) → ((all_valid p && agreement p) ≡ true) ↔ ((all_valid p ≡ true) × Agrees p)
valid_and p = (
  (λ h. let v = left (all_valid p) (agreement p) h in (v.0, (agreement_iff p v.0).0 v.1)),
  (λ h. both (all_valid p) (agreement p) h.0 ((agreement_iff p h.0).1 h.1)),
)
  where
    left : (a b : Bool) → (a && b) ≡ true → (a ≡ true) × (b ≡ true)
    left a b h = ground (arith, h)

    both : (a b : Bool) → a ≡ true → b ≡ true → (a && b) ≡ true
    both a b h k = ground (arith, h, k)

-- A graph with its four required references, with structures of full size, is accepted exactly
-- when each reference is valid and the references agree: one product, one install, one instance,
-- and a profile and an artifact set that are named where they are given and empty where they are
-- not, compared by their bytes.
pub graph_validate_iff :
    (g : Graph) (p : Parts) (v : Validation)
    → parts_of g ≡ some p
    → ltb g.struct_size sizeof_graph ≡ false
    → ltb v.struct_size sizeof_validation ≡ false
    → (is_ok (graph_validate (some g) (some v)).0 ≡ true) ↔ ((all_valid p ≡ true) × Agrees p)
graph_validate_iff g p v h k l = rw (reported g p v h k l) (
  (λ e. (valid_and p).0 ((first_issue_iff p).0 ((passes_iff p v).0 e))),
  (λ e. (passes_iff p v).1 ((first_issue_iff p).1 ((valid_and p).1 e))),
)

pub plan_status : Reported → Option PlanStatus
plan_status (status, none) = none
plan_status (status, some w) = some w.launch_plan_status

stale_or_fresh :
    (p : Parts) (v : Validation)
    → first_issue p ≡ none
    → (plan_status (validate_parts p v) ≡ some fresh) ↔ (is_stale p ≡ false)
unfolding validate_parts plan_status
stale_or_fresh p v n =
    rw (n, validate_parts)
      (elim (Bool-cases (is_stale p)) [
        | inl e ↦ rw (e) ((λ h. ground (arith, h)), (λ h. ground (arith, h)))
        | inr e ↦ rw (e) ((λ h. refl), (λ h. refl))
      ])

-- An accepted graph is reported fresh exactly when the install revision and the binding revision
-- of its launch plan are the current ones, byte by byte.
pub graph_validate-fresh :
    (g : Graph) (p : Parts) (v : Validation)
    → parts_of g ≡ some p
    → ltb g.struct_size sizeof_graph ≡ false
    → ltb v.struct_size sizeof_validation ≡ false
    → is_ok (graph_validate (some g) (some v)).0 ≡ true
    → (plan_status (graph_validate (some g) (some v)) ≡ some fresh) ↔ (
        (contents p.reference.state_revision ≡ contents p.plan.install_state_revision)
        × (contents p.instance_ref.binding_revision ≡ contents p.plan.instance_binding_revision))
graph_validate-fresh g p v h k l e =
    let n =
      (passes_iff p v).0 (subst (λ (r : Reported). is_ok r.0 ≡ true) (reported g p v h k l) e) in
    let valid = ((valid_and p).0 ((first_issue_iff p).0 n)).0 in
    let status = stale_or_fresh p v n in
    let revisions = fresh_iff p valid in
    rw (reported g p v h k l) ((λ f. revisions.0 (status.0 f)), (λ r. status.1 (revisions.1 r)))
