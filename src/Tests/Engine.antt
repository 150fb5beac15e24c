-- ===== src/Tests/Engine.antt =====
-- Instances for crates/pathhydra-engine: one slot, and 128 bytes.
use path_hydra.Common.{◌≡◌, ◌↔◌, ◌≤◌, ◌+◌, ◌-◌, [], ◌∷◌, true, false, ok, arith}
use path_hydra.Common.{ℕ, ◌≢◌, ◌⊎◌, none, some, lookup, Has}
use path_hydra.Core.{saturating_suc}
use path_hydra.Engine.Cancellation.{RequestId, Registry, signalled, not_active, cancel, cancel_all}
use path_hydra.Engine.Cancellation.Signals.{cancel_lem, cancel_all_lem}
use path_hydra.Engine.Admission.{
  Limits, State, AdmissionPermit, initial, rejected, acquire_slot, permit_reserve, reserved_permit,
  reserve, reserve_total,
}
use path_hydra.Core.{checked_add}
use path_hydra.Engine.Admission.Balance.{
  Reachable, created, asked, reserved, IsBalanced, Reachable-IsBalanced,
}
use path_hydra.Engine.Admission.Fit.{permit_reserve_lem}

abbrev limits : Limits
limits = record { maximum_active = 1; maximum_bytes = 128 }

abbrev permit : AdmissionPermit
permit = record { bytes = 64; admitted = true }

abbrev busy : State
busy = record {
  active = 1;
  peak_active = 1;
  reserved = 64;
  peak_reserved = 64;
  admissions = 1;
  rejections = 0;
}

busy-Reachable : Reachable limits busy (permit ∷ [])
unfolding initial acquire_slot permit_reserve reserved_permit reserve reserve_total checked_add
    saturating_suc
busy-Reachable =
    reserved _ [] [] (record { bytes = 0; admitted = false }) 64 (asked initial [] created)

Reachable-IsBalanced_example : IsBalanced limits busy (permit ∷ [])
Reachable-IsBalanced_example = Reachable-IsBalanced limits busy (permit ∷ []) busy-Reachable

permit_reserve_lem_example :
    let (r, (p', s')) = permit_reserve limits permit 200 busy in
    ((r ≡ ok tt) ↔ (64 - 64 + 200 ≤ 128))
    × ((r ≡ ok tt) → p' ≡ record { bytes = 200; admitted = true })
    × (¬ (r ≡ ok tt) → (p' ≡ permit) × (s' ≡ rejected busy))
permit_reserve_lem_example =
    permit_reserve_lem limits 200 busy (omega arith) permit (λ h. absurd (cc h)) (omega arith)

abbrev requests : Registry
requests = (4, 0) ∷ (9, 1) ∷ []

cancel_lem_example :
    ((lookup requests 9 ≡ none) × (cancel requests 9 (λ _. false) ≡ (not_active, λ _. false)))
    ⊎ ((flag : ℕ) × (lookup requests 9 ≡ some flag)
        × ((cancel requests 9 (λ _. false)).1 flag ≡ true)
        × ((other : ℕ) → other ≢ flag → (cancel requests 9 (λ _. false)).1 other ≡ false)
        × (((cancel requests 9 (λ _. false)).0 ≡ signalled) ↔ (false ≡ false)))
cancel_lem_example = cancel_lem requests 9 (λ _. false)

cancel_all_lem_example :
    ((id : RequestId) (flag : ℕ)
      → lookup requests id ≡ some flag
      → (cancel_all requests (λ _. false)).1 flag ≡ true)
    × ((flag : ℕ)
        → (cancel_all requests (λ _. false)).1 flag ≡ true
        → (false ≡ true) ⊎ ((id : RequestId) × Has (id, flag) requests))
    × ((cancel_all requests (λ _. false)).0.newly_signalled
        ≤ (cancel_all requests (λ _. false)).0.active)
cancel_all_lem_example = cancel_all_lem requests (λ _. false)
