-- ===== src/Session/Journal/Admitted.antt =====
-- Which records a write may add or replace: the loop of `ulk_session_journal_write_v1`.
use universal_launcher.Prelude.{
  ℕ, ◌+◌, ◌≤◌, ◌≡◌, refl, ◌∙◌, ◌≢◌, ◌⊎◌, inl, inr, true, false, List, [], ◌∷◌, arith, Bool-cases,
  All, All-mono, Any, bytes_eq, bytes_eq_iff, ℤ, pos, ◌==ℤ◌, ==ℤ_iff, ltb_ℤ,
}
use universal_launcher.Session.Record.{OwnedRecord, state_code}
use universal_launcher.Session.Owned.{record_transition_valid}
use universal_launcher.Session.Journal.{done, admitted, admit, assign_order, larger}

-- The request belongs to another session, and to another operation or attempt.
abbrev pub IsUnrelated : OwnedRecord → OwnedRecord → Type 0
IsUnrelated q e =
    (e.session_id ≢ q.session_id)
    × ((e.operation_id ≢ q.operation_id) ⊎ (e.attempt_id ≢ q.attempt_id))

-- The request ends the running session that the record began.
abbrev pub Ends : OwnedRecord → OwnedRecord → Type 0
Ends q e =
    (state_code e.state ≡ pos 1)
    × (state_code q.state ≡ pos 2)
    × (e.session_id ≡ q.session_id)
    × (e.operation_id ≡ q.operation_id)
    × (e.attempt_id ≡ q.attempt_id)
    × (e.runnable_reference ≡ q.runnable_reference)
    × (e.process_identity ≡ q.process_identity)
    × (e.started_at ≡ q.started_at)

abbrev pub IsAdmissible : OwnedRecord → OwnedRecord → Type 0
IsAdmissible q e = IsUnrelated q e ⊎ Ends q e

-- A commit order is at most `m`.
abbrev pub IsUpTo : ℕ → OwnedRecord → Type 0
IsUpTo m e = ltb_ℤ (pos m) e.commit_order ≡ false

transition_lem : (q e : OwnedRecord) → record_transition_valid e q ≡ true → Ends q e
unfolding record_transition_valid
transition_lem q e h = ground (
  arith,
  ==ℤ_iff (state_code e.state) (pos 1),
  ==ℤ_iff (state_code q.state) (pos 2),
  bytes_eq_iff e.session_id q.session_id,
  bytes_eq_iff e.operation_id q.operation_id,
  bytes_eq_iff e.attempt_id q.attempt_id,
  bytes_eq_iff e.runnable_reference q.runnable_reference,
  bytes_eq_iff e.process_identity q.process_identity,
  bytes_eq_iff e.started_at q.started_at,
)

larger-IsUpTo :
    (m : ℕ) (e : OwnedRecord) → IsUpTo (larger m e.commit_order) e × (m ≤ larger m e.commit_order)
unfolding ltb_ℤ
larger-IsUpTo m e = ground arith

above : (m : ℕ) (e : OwnedRecord) → IsUpTo m e → ltb_ℤ e.commit_order (pos (m + 1)) ≡ true
unfolding ltb_ℤ
above m e h = ground arith

IsUpTo-mono : (m n : ℕ) (e : OwnedRecord) → m ≤ n → IsUpTo m e → IsUpTo n e
unfolding ltb_ℤ
IsUpTo-mono m n e h u = ground arith

-- The first tests on one record.
module _ (q e : OwnedRecord) (rest : List OwnedRecord) (m : ℕ) (o : ℤ) where
  pub admit-cons :
      {m' : ℕ} {o' : ℤ}
      → admit q m o (e ∷ rest) ≡ admitted m' o'
      → (x : ℤ) × ((IsUnrelated q e × (x ≡ o)) ⊎ (Ends q e × (x ≡ e.commit_order)))
        × (admit q (larger m e.commit_order) x rest ≡ admitted m' o')
  unfolding admit
  admit-cons h = elim (Bool-cases (bytes_eq e.session_id q.session_id)) [
    | inl same ↦ (
      e.commit_order,
      inr (transition_lem q e (ground (arith, same)), refl),
      ground (arith, same),
    )
    | inr other ↦ (
      o,
      inl (
        (
          ground (arith, other, bytes_eq_iff e.session_id q.session_id),
          ground (
            arith,
            other,
            bytes_eq_iff e.operation_id q.operation_id,
            bytes_eq_iff e.attempt_id q.attempt_id,
          ),
        ),
        refl,
      ),
      ground (arith, other),
    )
  ]

admissible :
    (q e : OwnedRecord) {x o : ℤ}
    → (IsUnrelated q e × (x ≡ o)) ⊎ (Ends q e × (x ≡ e.commit_order))
    → IsAdmissible q e
admissible q e (inl u) = inl u.0
admissible q e (inr w) = inr w.0

admit-IsUpTo :
    (q : OwnedRecord) (m : ℕ) (o : ℤ) (rs : List OwnedRecord) (m' : ℕ) (o' : ℤ)
    → admit q m o rs ≡ admitted m' o'
    → (m ≤ m') × All (IsUpTo m') rs × All (IsAdmissible q) rs
unfolding admit
admit-IsUpTo q m o [] m' o' h = (ground arith, tt, tt)
admit-IsUpTo q m o (e ∷ rs) m' o' h =
    let (x, fits, next) = admit-cons q e rs m o h in
    let (le, up, all_fit) = admit-IsUpTo q (larger m e.commit_order) x rs m' o' next in
    let (mine, grows) = larger-IsUpTo m e in
    (omega arith, (IsUpTo-mono _ m' e le mine, up), (admissible q e fits, all_fit))

-- When the loop over the existing records lets a write go on, each of them is unrelated to the
-- request, or is the running record of the same session, operation, attempt, runnable, process
-- identity and start time that the terminal request ends.
pub admit-IsAdmissible :
    (q : OwnedRecord) (rs : List OwnedRecord) (m : ℕ) (o : ℤ)
    → admit q 0 (pos 0) rs ≡ admitted m o
    → All (IsAdmissible q) rs
admit-IsAdmissible q rs m o h = (admit-IsUpTo q 0 (pos 0) rs m o h).2

admit-order :
    (q : OwnedRecord) (m : ℕ) (o : ℤ) (rs : List OwnedRecord) (m' : ℕ) (o' : ℤ)
    → admit q m o rs ≡ admitted m' o'
    → (o' ≡ o) ⊎ Any (λ e. Ends q e × (o' ≡ e.commit_order)) rs
unfolding admit
admit-order q m o [] m' o' h = inl (ground arith)
admit-order q m o (e ∷ rs) m' o' h =
    let (x, fits, next) = admit-cons q e rs m o h in
    taken fits (admit-order q (larger m e.commit_order) x rs m' o' next)
  where
    taken :
        {x : ℤ}
        → (IsUnrelated q e × (x ≡ o)) ⊎ (Ends q e × (x ≡ e.commit_order))
        → (o' ≡ x) ⊎ Any (λ y. Ends q y × (o' ≡ y.commit_order)) rs
        → (o' ≡ o) ⊎ Any (λ y. Ends q y × (o' ≡ y.commit_order)) (e ∷ rs)
    taken fits (inr later) = inr (inr later)
    taken (inl u) (inl same) = inl (same ∙ u.1)
    taken (inr w) (inl same) = inr (inl (w.0, same ∙ w.1))

-- When the loop lets a write go on and a commit order is assigned, that order is above the
-- orders of all existing records, or is the order of a running record that the request ends.
pub assign_order-newest :
    (q : OwnedRecord) (rs : List OwnedRecord) (m : ℕ) (o x : ℤ)
    → admit q 0 (pos 0) rs ≡ admitted m o
    → assign_order m o ≡ done x
    → All (λ e. ltb_ℤ e.commit_order x ≡ true) rs ⊎ Any (λ e. Ends q e × (x ≡ e.commit_order)) rs
unfolding assign_order
assign_order-newest q rs m o x h a = elim (Bool-cases (o ==ℤ pos 0)) [
  | inl new ↦
      let e : x ≡ pos (m + 1) = ground (arith, new) in
      inl (
        rw e (
          All-mono (IsUpTo m) (λ r. ltb_ℤ r.commit_order (pos (m + 1)) ≡ true) (above m) rs
            (admit-IsUpTo q 0 (pos 0) rs m o h).1))
  | inr old ↦ kept (admit-order q 0 (pos 0) rs m o h) (ground (arith, old)) old
]
  where
    kept :
        (o ≡ pos 0) ⊎ Any (λ y. Ends q y × (o ≡ y.commit_order)) rs
        → x ≡ o
        → (o ==ℤ pos 0) ≡ false
        → All (λ e. ltb_ℤ e.commit_order x ≡ true) rs
          ⊎ Any (λ e. Ends q e × (x ≡ e.commit_order)) rs
    kept (inl zero_order) e old = absurd (ground (arith, ==ℤ_iff o (pos 0)))
    kept (inr some_order) e old = inr (rw e some_order)
