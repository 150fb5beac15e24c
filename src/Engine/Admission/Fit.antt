-- ===== src/Engine/Admission/Fit.antt =====
-- When a reservation is granted.
use path_hydra.Common.{
  ℕ, ◌+◌, ◌-◌, ◌≤◌, ◌<◌, ◌≡◌, ◌↔◌, refl, Bool, true, false, if◌then◌else◌, Result, ok, err, ◌∙◌,
  arith,
}
use path_hydra.Core.{checked_sub}
use path_hydra.Core.{u64_bound, checked_add}
use path_hydra.Engine.Admission.{
  Limits, State, AdmissionRejection, AdmissionPermit, reserve, reserve_total, replace_reservation,
  replace_remaining, replace_total, permit_reserve, reserved_permit, rejected,
}
use path_hydra.Engine.Admission.Balance.{IsPermit}

module _ (limits : Limits) (bytes : ℕ) (s : State) (limit : limits.maximum_bytes < u64_bound) where
  reserve_iff : ((reserve limits bytes s).0 ≡ ok tt) ↔ (s.reserved + bytes ≤ limits.maximum_bytes)
  unfolding reserve reserve_total checked_add
  reserve_iff = ground arith

  replace_reservation_iff :
      (held : ℕ)
      → held ≤ s.reserved
      → ((replace_reservation limits held bytes s).0 ≡ ok tt)
        ↔ (s.reserved - held + bytes ≤ limits.maximum_bytes)
  unfolding replace_reservation replace_remaining replace_total checked_add checked_sub
  replace_reservation_iff held within = ground arith

  reserve-refused : ¬ ((reserve limits bytes s).0 ≡ ok tt) → (reserve limits bytes s).1 ≡ rejected s
  unfolding reserve reserve_total checked_add
  reserve-refused h = ground arith

  replace_reservation-refused :
      (held : ℕ)
      → ¬ ((replace_reservation limits held bytes s).0 ≡ ok tt)
      → (replace_reservation limits held bytes s).1 ≡ rejected s
  unfolding replace_reservation replace_remaining replace_total checked_add checked_sub
  replace_reservation-refused held h = ground arith

  -- The permit after an outcome.
  reserved_permit_lem :
      (p : AdmissionPermit) (outcome : Result AdmissionRejection (Unit {0}) × State)
      → let (r, (p', s')) = reserved_permit limits p bytes outcome in
        ((r ≡ ok tt) ↔ (outcome.0 ≡ ok tt))
        × ((r ≡ ok tt) → p' ≡ record { bytes = bytes; admitted = true })
        × (¬ (r ≡ ok tt) → (p' ≡ p) × (s' ≡ outcome.1))
  unfolding reserved_permit
  reserved_permit_lem p (ok x, s') = ((λ h. refl, λ h. refl), (λ h. refl), (λ h. absurd (h refl)))
  reserved_permit_lem p (err e, s') = ((λ h. h, λ h. h), (λ h. cc h), (λ h. (refl, refl)))

  -- With a limit below 2 ^ 64, and a permit whose bytes are among the reserved ones, and none before
  -- it is admitted: its reservation is granted exactly where the bytes, with those that the other permits
  -- hold, are within the limit; the permit then holds them. Where it is refused, the permit keeps its
  -- bytes, and the state changes in no more than the count of the rejections.
  pub permit_reserve_lem :
      (p : AdmissionPermit)
      → IsPermit p
      → p.bytes ≤ s.reserved
      → let (r, (p', s')) = permit_reserve limits p bytes s in
        ((r ≡ ok tt) ↔ (s.reserved - p.bytes + bytes ≤ limits.maximum_bytes))
        × ((r ≡ ok tt) → p' ≡ record { bytes = bytes; admitted = true })
        × (¬ (r ≡ ok tt) → (p' ≡ p) × (s' ≡ rejected s))
  unfolding permit_reserve
  permit_reserve_lem p permit within = chosen p.admitted refl
    where
      chosen :
          (admitted : Bool)
          → p.admitted ≡ admitted
          → let outcome =
              if admitted
              then replace_reservation limits p.bytes bytes s
              else reserve limits bytes s in
            let (r, (p', s')) = reserved_permit limits p bytes outcome in
            ((r ≡ ok tt) ↔ (s.reserved - p.bytes + bytes ≤ limits.maximum_bytes))
            × ((r ≡ ok tt) → p' ≡ record { bytes = bytes; admitted = true })
            × (¬ (r ≡ ok tt) → (p' ≡ p) × (s' ≡ rejected s))
      chosen true holding =
          let (same, granted, refused) =
            reserved_permit_lem p (replace_reservation limits p.bytes bytes s) in
          let fits = replace_reservation_iff p.bytes within in
          (
            (λ h. fits.0 (same.0 h), λ h. same.1 (fits.1 h)),
            granted,
            λ h. (
              (refused h).0,
              (refused h).1 ∙ replace_reservation-refused p.bytes (λ x. h (same.1 x)),
            ),
          )
      chosen false fresh =
          let (same, granted, refused) = reserved_permit_lem p (reserve limits bytes s) in
          let nothing = permit fresh in
          (
            (
              λ h. omega (arith, reserve_iff.0 (same.0 h), nothing),
              λ h. same.1 (reserve_iff.1 (omega (arith, h, nothing))),
            ),
            granted,
            λ h. ((refused h).0, (refused h).1 ∙ reserve-refused (λ x. h (same.1 x))),
          )
