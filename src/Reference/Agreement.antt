-- ===== src/Reference/Agreement.antt =====
-- A graph is valid exactly when its references are valid and agree with each other.
use universal_launcher.Prelude.{
  ◌≡◌, refl, sym, ap, ◌↔◌, Bool, true, not, ◌&&◌, ◌||◌, Option, none, some, [], ◌∷◌, arith, ◌==◌,
  if◌then◌else◌, length, Bytes, bytes_eq, bytes_eq_iff,
}
use universal_launcher.View.{StringView, null, at, size, contents}
use universal_launcher.Reference.Model.{
  ProfileRef, ArtifactSetRef, invalid_product, invalid_install_reference, invalid_instance,
  invalid_profile, invalid_artifact_set, invalid_launch_plan, product_mismatch, install_mismatch,
  instance_mismatch, profile_mismatch, artifact_set_mismatch,
}
use universal_launcher.Reference.Validate.{
  view_valid, identifier_valid, view_equal, product_ref_valid, install_reference_valid,
  instance_ref_valid, profile_ref_valid, artifact_set_ref_valid, launch_plan_ref_valid,
  optional_valid, same_product, names_it, profile_id_of, set_id_of, first_issue, Parts,
}

-- A view with a size is not null, in what the validators accept.
unfoldable pub IsReadable : StringView → Type 0
IsReadable v = size v ≡ length (contents v)

pub view_valid-IsReadable :
    (v : StringView) (allow_empty : Bool) → view_valid v allow_empty ≡ true → IsReadable v
unfolding view_valid IsReadable
view_valid-IsReadable (null n) b h = ground (arith, h)
view_valid-IsReadable (at s) b h = refl

pub identifier_valid-IsReadable :
    (v : StringView) (allow_empty : Bool) → identifier_valid v allow_empty ≡ true → IsReadable v
unfolding identifier_valid IsReadable
identifier_valid-IsReadable (null n) b h = ground (arith, h)
identifier_valid-IsReadable (at s) b h = refl

pub same_bytes :
    (xs ys : Bytes)
    → (((length xs == length ys) && ((length xs == 0) || bytes_eq xs ys)) ≡ true) ↔ (xs ≡ ys)
same_bytes [] [] = (λ h. refl, λ h. refl)
same_bytes [] (y ∷ ys) = (λ h. ground (arith, h), λ h. ground (arith, ap length h))
same_bytes (x ∷ xs) [] = (λ h. ground (arith, h), λ h. ground (arith, ap length h))
same_bytes (x ∷ xs) (y ∷ ys) = (
  λ h. ground (arith, h, bytes_eq_iff (x ∷ xs) (y ∷ ys)),
  λ h. ground (arith, ap length h, h, bytes_eq_iff (x ∷ xs) (y ∷ ys)),
)

pub view_equal_iff :
    (v w : StringView)
    → IsReadable v
    → IsReadable w
    → (view_equal v w ≡ true) ↔ (contents v ≡ contents w)
unfolding view_equal IsReadable
view_equal_iff v w h k =
    let same = same_bytes (contents v) (contents w) in rw (h, view_equal) (rw (k) same)

pub empty_iff : (v : StringView) → IsReadable v → ((size v == 0) ≡ true) ↔ (contents v ≡ [])
unfolding IsReadable
empty_iff v h = rw (h) (no_bytes (contents v))
  where
    no_bytes : (s : Bytes) → ((length s == 0) ≡ true) ↔ (s ≡ [])
    no_bytes [] = (λ e. refl, λ e. refl)
    no_bytes (x ∷ s) = (λ e. ground (arith, e), λ e. ground (arith, ap length e))

-- The text of an identity that may be absent.
abbrev pub text_or_empty : Option StringView → Bytes
text_or_empty none = []
text_or_empty (some v) = contents v

abbrev pub SameText : StringView → Option StringView → Type 0
SameText v none = Unit
SameText v (some w) = contents v ≡ contents w

abbrev pub profile_product : Option ProfileRef → Option StringView
profile_product none = none
profile_product (some r) = some r.product_id

abbrev pub set_product : Option ArtifactSetRef → Option StringView
set_product none = none
set_product (some r) = some r.product_id

unfoldable pub IsReadableOption : Option StringView → Type 0
IsReadableOption none = Unit
IsReadableOption (some v) = IsReadable v

pub names_it_iff :
    (o : Option StringView) (v w : StringView)
    → IsReadableOption o
    → IsReadable v
    → IsReadable w
    → (names_it o v w ≡ true) ↔ ((contents v ≡ text_or_empty o) × (contents w ≡ text_or_empty o))
unfolding IsReadableOption
names_it_iff none v w r h k = (
  λ e. ((empty_iff v h).0 (ground (arith, e)), (empty_iff w k).0 (ground (arith, e))),
  λ e. ground (arith, (empty_iff v h).1 e.0, (empty_iff w k).1 e.1),
)
names_it_iff (some u) v w r h k = (
  λ e. (
    sym ((view_equal_iff u v r h).0 (ground (arith, e))),
    sym ((view_equal_iff u w r k).0 (ground (arith, e))),
  ),
  λ e. ground (arith, (view_equal_iff u v r h).1 (sym e.0), (view_equal_iff u w r k).1 (sym e.1)),
)

-- One text per identity, whatever reference names it.
pub record Agrees (p : Parts) : Type 0 where
  pub product_reference : contents p.product.product_id ≡ contents p.reference.product_id
  pub product_instance : contents p.product.product_id ≡ contents p.instance_ref.product_id
  pub product_plan : contents p.product.product_id ≡ contents p.plan.product_id
  pub product_profile : SameText p.product.product_id (profile_product p.profile)
  pub product_set : SameText p.product.product_id (set_product p.artifact_set)
  pub install_instance : contents p.reference.install_id ≡ contents p.instance_ref.install_id
  pub install_plan : contents p.reference.install_id ≡ contents p.plan.install_id
  pub instance_plan : contents p.instance_ref.instance_id ≡ contents p.plan.instance_id
  pub profile_named :
      (contents p.instance_ref.profile_id ≡ text_or_empty (profile_id_of p.profile))
      × (contents p.plan.profile_id ≡ text_or_empty (profile_id_of p.profile))
  pub set_named :
      (contents p.instance_ref.artifact_set_id ≡ text_or_empty (set_id_of p.artifact_set))
      × (contents p.plan.artifact_set_id ≡ text_or_empty (set_id_of p.artifact_set))

abbrev pub all_valid : Parts → Bool
all_valid p =
    product_ref_valid p.product
    && install_reference_valid p.reference
    && instance_ref_valid p.instance_ref
    && optional_valid profile_ref_valid p.profile
    && optional_valid artifact_set_ref_valid p.artifact_set
    && launch_plan_ref_valid p.plan

-- The seven tests behind the validators, as one.
abbrev pub agreement : Parts → Bool
agreement p =
    same_product p.product.product_id p
    && view_equal p.reference.install_id p.instance_ref.install_id
    && view_equal p.reference.install_id p.plan.install_id
    && view_equal p.instance_ref.instance_id p.plan.instance_id
    && names_it (profile_id_of p.profile) p.instance_ref.profile_id p.plan.profile_id
    && names_it (set_id_of p.artifact_set) p.instance_ref.artifact_set_id p.plan.artifact_set_id

pub in_order :
    (b1 b2 b3 b4 b5 b6 b7 b8 b9 b10 b11 b12 : Bool)
    → ((if not b1
          then some invalid_product
          else if not b2
          then some invalid_install_reference
          else if not b3
          then some invalid_instance
          else if not b4
          then some invalid_profile
          else if not b5
          then some invalid_artifact_set
          else if not b6
          then some invalid_launch_plan
          else if not b7
          then some product_mismatch
          else if not b8 || not b9
          then some install_mismatch
          else if not b10
          then some instance_mismatch
          else if not b11
          then some profile_mismatch
          else if not b12
          then some artifact_set_mismatch
          else none)
        ≡ none)
      ↔ (((b1 && b2 && b3 && b4 && b5 && b6) && (b7 && b8 && b9 && b10 && b11 && b12)) ≡ true)
in_order b1 b2 b3 b4 b5 b6 b7 b8 b9 b10 b11 b12 = (λ h. ground (arith, h), λ h. ground (arith, h))

pub first_issue_iff : (p : Parts) → (first_issue p ≡ none) ↔ ((all_valid p && agreement p) ≡ true)
unfolding first_issue
first_issue_iff p =
    in_order (product_ref_valid p.product) (install_reference_valid p.reference)
      (instance_ref_valid p.instance_ref) (optional_valid profile_ref_valid p.profile)
      (optional_valid artifact_set_ref_valid p.artifact_set) (launch_plan_ref_valid p.plan)
      (same_product p.product.product_id p)
      (view_equal p.reference.install_id p.instance_ref.install_id)
      (view_equal p.reference.install_id p.plan.install_id)
      (view_equal p.instance_ref.instance_id p.plan.instance_id)
      (names_it (profile_id_of p.profile) p.instance_ref.profile_id p.plan.profile_id)
      (names_it (set_id_of p.artifact_set) p.instance_ref.artifact_set_id p.plan.artifact_set_id)
