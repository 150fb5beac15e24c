-- ===== src/Engine/Lifecycle/Draining.antt =====
-- The wait for the drain: what its outcome says, and that it ends.
use path_hydra.Common.{
  ℕ, ◌≡◌, refl, subst, ◌↔◌, ◌⊎◌, inl, inr, ◌==◌, Bool, true, false, Option, none, some, List, [],
  ◌∷◌, Has, Result, ok, holds_of_ok, Option-cases, Bool-cases, arith,
}
use path_hydra.Engine.Lifecycle.{
  OperationKind, ActiveOperationCounts, LifecycleError, slot, total, Wake, elapsed, woken,
  DrainOutcome, drained_outcome, drained_or, wait_for_drain,
}
use path_hydra.Engine.Lifecycle.Slots.{total-eq-zero_iff}

-- An outcome says that the engine is drained exactly where no operation of any kind remains.
abbrev pub IsHonest : DrainOutcome → Type 0
IsHonest o = (o.drained ≡ true) ↔ ((kind : OperationKind) → slot kind o.remaining ≡ 0)

counted-IsHonest :
    (active : ActiveOperationCounts) (count : ℕ)
    → total active ≡ some count
    → IsHonest (record { drained = count == 0; remaining = active })
counted-IsHonest active count e =
    let idle = total-eq-zero_iff active in
    elim (Bool-cases (count == 0)) [
      | inl empty ↦
          let z : count ≡ 0 = ground (arith, empty) in
          rw empty ((λ _. idle.0 (rw z at e)), λ _. refl)
      | inr left ↦ rw left (
        (λ h. absurd (cc h)),
        λ h. let p : count ≡ 0 = cc (idle.1 h, e) in absurd (ground (arith, p, left)),
      )
    ]

-- Whether one of the waits runs out of time.
unfoldable pub runs_out : List Wake → Bool
runs_out [] = false
runs_out (elapsed ∷ wakes) = true
runs_out (woken _ true ∷ wakes) = true
runs_out (woken _ false ∷ wakes) = runs_out wakes

-- The counts that a wait finds, one after another.
unfoldable pub seen : List Wake → ActiveOperationCounts → List ActiveOperationCounts
seen [] active = active ∷ []
seen (elapsed ∷ wakes) active = active ∷ []
seen (woken after true ∷ wakes) active = active ∷ after ∷ []
seen (woken after false ∷ wakes) active = active ∷ seen wakes after

-- The counts that a wait finds when its time is up.
unfoldable pub at_end : List Wake → ActiveOperationCounts → ActiveOperationCounts
at_end [] active = active
at_end (elapsed ∷ wakes) active = active
at_end (woken after true ∷ wakes) active = after
at_end (woken after false ∷ wakes) active = at_end wakes after

-- An outcome tells what a wait has found: its counts are among those found, it says that the engine is
-- drained exactly where these are all zero, and else the time is up and they are those of the end.
pub record Answers (wakes : List Wake) (active : ActiveOperationCounts) (o : DrainOutcome)
    : Type 0 where
  pub found : Has o.remaining (seen wakes active)
  pub honest : IsHonest o
  pub waited : (o.drained ≡ true) ⊎ ((runs_out wakes ≡ true) × (o.remaining ≡ at_end wakes active))

-- What holds of the outcome of a drained engine, and of every outcome that follows the test, holds.
drained_or-holds :
    (P : DrainOutcome → Type 0) (active : ActiveOperationCounts)
    (next : Option (Result LifecycleError DrainOutcome)) (o : DrainOutcome)
    → (IsHonest (record { drained = true; remaining = active })
        → P (record { drained = true; remaining = active }))
    → ((count : ℕ)
        → IsHonest (record { drained = false; remaining = active })
        → next ≡ some (ok o)
        → P o)
    → drained_or active (total active) next ≡ some (ok o)
    → P o
unfolding drained_or
drained_or-holds P active next o now later h = elim (Option-cases (total active)) [
  | inl overflow ↦ absurd (cc (rw overflow at h))
  | inr (count, e) ↦ elim (Bool-cases (count == 0)) [
    | inl empty ↦
        let p : ◌≡◌ {A = DrainOutcome} (record { drained = true; remaining = active }) o =
          cc (rw (e, empty) at h) in
        subst P p (now (rw empty at (counted-IsHonest active count e)))
    | inr left ↦ later count (rw left at (counted-IsHonest active count e)) (rw (e, left) at h)
  ]
]

drained_outcome-holds :
    (P : DrainOutcome → Type 0) (active : ActiveOperationCounts) (o : DrainOutcome)
    → ((drained : Bool)
        → IsHonest (record { drained = drained; remaining = active })
        → P (record { drained = drained; remaining = active }))
    → drained_outcome active ≡ ok o
    → P o
unfolding drained_outcome
drained_outcome-holds P active o each h = elim (Option-cases (total active)) [
  | inl overflow ↦ absurd (cc (rw overflow at h))
  | inr (count, e) ↦ holds_of_ok P (each (count == 0) (counted-IsHonest active count e)) (rw e at h)
]

-- Where a wait for the drain is over with an outcome, its counts are counts that the wait has found, it
-- says that the engine is drained exactly where no operation of any kind remains in them, and where it
-- does not say so, the time ran out and the counts are those found at that point.
pub wait_for_drain-IsHonest :
    (wakes : List Wake) (active : ActiveOperationCounts) (o : DrainOutcome)
    → wait_for_drain wakes active ≡ some (ok o)
    → Answers wakes active o
unfolding wait_for_drain seen at_end runs_out
wait_for_drain-IsHonest [] active o h =
    drained_or-holds (Answers [] active) active none o
      (λ honest. record { found = inl refl; honest = honest; waited = inl refl })
      (λ count honest p. absurd (cc p)) h
wait_for_drain-IsHonest (elapsed ∷ wakes) active o h =
    drained_or-holds (Answers (elapsed ∷ wakes) active) active
      (some (ok (record { drained = false; remaining = active }))) o
      (λ honest. record { found = inl refl; honest = honest; waited = inl refl })
      (λ count honest p.
        let q : ◌≡◌ {A = DrainOutcome} (record { drained = false; remaining = active }) o = cc p in
        subst (Answers (elapsed ∷ wakes) active) q
          (record { found = inl refl; honest = honest; waited = inr (refl, refl) }))
      h
wait_for_drain-IsHonest (woken after true ∷ wakes) active o h =
    drained_or-holds (Answers (woken after true ∷ wakes) active) active
      (some (drained_outcome after)) o
      (λ honest. record { found = inl refl; honest = honest; waited = inl refl })
      (λ count honest p.
        drained_outcome-holds (Answers (woken after true ∷ wakes) active) after o
          (λ drained there. record {
            found = inr (inl refl);
            honest = there;
            waited = inr (refl, refl);
          })
          (cc p))
      h
wait_for_drain-IsHonest (woken after false ∷ wakes) active o h =
    drained_or-holds (Answers (woken after false ∷ wakes) active) active
      (wait_for_drain wakes after) o
      (λ honest. record { found = inl refl; honest = honest; waited = inl refl })
      (λ count honest p.
        let rest = wait_for_drain-IsHonest wakes after o p in
        record { found = inr rest.found; honest = rest.honest; waited = rest.waited })
      h

drained_or-ends :
    (active : ActiveOperationCounts) (next : Option (Result LifecycleError DrainOutcome))
    → (r : Result LifecycleError DrainOutcome) × (next ≡ some r)
    → (r : Result LifecycleError DrainOutcome) × (drained_or active (total active) next ≡ some r)
unfolding drained_or
drained_or-ends active next (r, p) = elim (Option-cases (total active)) [
  | inl overflow ↦ rw overflow (_, refl)
  | inr (count, e) ↦ elim (Bool-cases (count == 0)) [
    | inl empty ↦ rw (e, empty) (_, refl)
    | inr left ↦ rw (e, left) (r, p)
  ]
]

-- A wait for the drain of which one wake runs out of time is over, with an outcome or an error.
pub wait_for_drain-ends :
    (wakes : List Wake) (active : ActiveOperationCounts)
    → runs_out wakes ≡ true
    → (r : Result LifecycleError DrainOutcome) × (wait_for_drain wakes active ≡ some r)
unfolding wait_for_drain runs_out
wait_for_drain-ends [] active h = absurd (cc h)
wait_for_drain-ends (elapsed ∷ wakes) active h = drained_or-ends active _ (_, refl)
wait_for_drain-ends (woken after true ∷ wakes) active h = drained_or-ends active _ (_, refl)
wait_for_drain-ends (woken after false ∷ wakes) active h =
    drained_or-ends active (wait_for_drain wakes after) (wait_for_drain-ends wakes after h)
