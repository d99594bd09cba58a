-- ===== src/Registry/Runs/Refinement.antt =====
-- A sequence of calls on a registry implements the promised map.
use universal_launcher.Prelude.{ℕ, ◌≡◌, refl, sym, ap, ◌∙◌, inl, inr, Bool, some, List, [], ◌∷◌}
use universal_launcher.Memory.{Heap}
use universal_launcher.Registry.Model.{Entry, Context}
use universal_launcher.Registry.Calls.{IsRegistry}
use universal_launcher.Registry.Runs.{Call, step, run, handlers, replay}
use universal_launcher.Registry.Runs.Steps.{step-Steps}

module _ (grants : ℕ → ℕ → Bool) where
  step-IsRegistry :
      (context : Context) (heap : Heap) (call : Call)
      → IsRegistry context
      → IsRegistry (step grants context heap call).context
  step-IsRegistry context heap call r = (step-Steps grants context heap call r).1

  -- Any sequence of registrations and removals keeps these: no two entries have the same name,
  -- each entry has the length of its name, there are no more entries than the table has room
  -- for, and the table is within the storage limit.
  pub run-IsRegistry :
      (context : Context) (heap : Heap) (calls : List Call)
      → IsRegistry context
      → IsRegistry (run grants context heap calls).context
  unfolding run
  run-IsRegistry context heap [] r = r
  run-IsRegistry context heap (call ∷ calls) r =
      let called = step grants context heap call in
      run-IsRegistry called.context called.heap calls (step-IsRegistry context heap call r)

  -- claim
  pub run-replay :
      (context : Context) (heap : Heap) (calls : List Call)
      → IsRegistry context
      → replay calls (run grants context heap calls).statuses (handlers context.entries)
        ≡ some (handlers (run grants context heap calls).context.entries)
  unfolding run replay
  run-replay context heap [] r = refl
  run-replay context heap (call ∷ calls) r =
      let called = step grants context heap call in
      let (follows, r') = step-Steps grants context heap call r in
      let ih = run-replay called.context called.heap calls r' in
      elim follows [
        | inl (k, e) ↦ rw (k, replay) (rw (e) ih)
        | inr (k, e) ↦
            let rest = run grants called.context called.heap calls in
            rw (k, replay)
              (ap (λ (l : List Entry). replay calls rest.statuses (handlers l)) (sym e) ∙ ih)
      ]
