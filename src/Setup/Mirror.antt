-- ===== src/Setup/Mirror.antt =====
-- The forwarded apply request mirrors the reviewed plan.
use universal_launcher.Prelude.{◌≡◌, refl, ◌↔◌, Bool, true, false, ◌&&◌, some, arith, ==ℤ_iff}
use universal_launcher.View.{contents, ok}
use universal_launcher.Setup.Checks.{
  PlanReference, text_valid, is_install, operation_code, plan_valid, text_equal_iff,
}
use universal_launcher.Setup.Exchange.{ApplyRequest}
use universal_launcher.Setup.Handoff.{request_valid, request_matches, apply_request_validate}

-- The fields that the setup program relies on are the reviewed plan's, byte by byte.
abbrev pub Mirrors : ApplyRequest → PlanReference → Type 0
Mirrors request plan =
    (operation_code request.operation ≡ operation_code plan.operation)
    × (contents request.plan_id ≡ contents plan.plan_id)
    × (contents request.plan_digest ≡ contents plan.plan_digest)
    × (contents request.input_identity_digest ≡ contents plan.input_identity_digest)
    × (contents request.product_id ≡ contents plan.product_id)
    × (contents request.install_id ≡ contents plan.install_id)
    × (contents request.setup_provider ≡ contents plan.setup_provider)
    × (contents request.provider_revision ≡ contents plan.provider_revision)

plan_texts :
    (p : PlanReference)
    → plan_valid (some p) ≡ true
    → (text_valid p.plan_id false ≡ true)
      × (text_valid p.plan_digest false ≡ true)
      × (text_valid p.input_identity_digest false ≡ true)
      × (text_valid p.product_id false ≡ true)
      × (text_valid p.install_id (is_install p.operation) ≡ true)
      × (text_valid p.setup_provider false ≡ true)
      × (text_valid p.provider_revision false ≡ true)
unfolding plan_valid
plan_texts p h = ground arith

request_texts :
    (q : ApplyRequest)
    → request_valid q ≡ true
    → (text_valid q.plan_id false ≡ true)
      × (text_valid q.plan_digest false ≡ true)
      × (text_valid q.input_identity_digest false ≡ true)
      × (text_valid q.product_id false ≡ true)
      × (text_valid q.install_id (is_install q.operation) ≡ true)
      × (text_valid q.setup_provider false ≡ true)
      × (text_valid q.provider_revision false ≡ true)
unfolding request_valid
request_texts q h = ground arith

both : {P Q : Type 0} {a b : Bool} → (a ≡ true) ↔ P → (b ≡ true) ↔ Q → ((a && b) ≡ true) ↔ (P × Q)
both {a = true} f g = (λ h. (f.0 refl, g.0 h), λ h. g.1 h.1)
both {a = false} f g = (λ h. ground arith, λ h. f.1 h.0)

matches_iff :
    (q : ApplyRequest) (p : PlanReference)
    → plan_valid (some p) ≡ true
    → request_valid q ≡ true
    → (request_matches q p ≡ true) ↔ Mirrors q p
unfolding request_matches
matches_iff q p h k =
    let (a1, a2, a3, a4, a5, a6, a7) = request_texts q k in
    let (b1, b2, b3, b4, b5, b6, b7) = plan_texts p h in
    let law =
      both
        (both
          (both
            (both
              (both
                (both
                  (both (==ℤ_iff (operation_code q.operation) (operation_code p.operation))
                    (text_equal_iff false false q.plan_id p.plan_id a1 b1))
                  (text_equal_iff false false q.plan_digest p.plan_digest a2 b2))
                (text_equal_iff false false q.input_identity_digest p.input_identity_digest a3 b3))
              (text_equal_iff false false q.product_id p.product_id a4 b4))
            (text_equal_iff (is_install q.operation) (is_install p.operation) q.install_id
              p.install_id a5 b5))
          (text_equal_iff false false q.setup_provider p.setup_provider a6 b6))
        (text_equal_iff false false q.provider_revision p.provider_revision a7 b7) in
    (
      λ h.
          let (((((((o, c1), c2), c3), c4), c5), c6), c7) = law.0 h in
          (o, c1, c2, c3, c4, c5, c6, c7),
      λ h.
          let (o, c1, c2, c3, c4, c5, c6, c7) = h in
          law.1 (((((((o, c1), c2), c3), c4), c5), c6), c7),
    )

-- An apply request is accepted against a plan exactly when the plan is valid, the request is
-- valid by itself, and its operation and its seven texts are byte by byte those of the plan.
pub apply_request_validate_iff :
    (request : ApplyRequest) (plan : PlanReference)
    → (apply_request_validate (some request) (some plan) ≡ ok)
      ↔ ((plan_valid (some plan) ≡ true) × (request_valid request ≡ true) × Mirrors request plan)
unfolding apply_request_validate
apply_request_validate_iff request plan =
    (λ h. ground (arith, matches_iff request plan), λ h. ground (arith, matches_iff request plan))
