-- ===== src/Engine/Admission.antt =====
-- crates/pathhydra-engine/src/admission.rs: the slots and the bytes of the routes that are admitted.
-- Each operation holds the controller's mutex from its start to its end, so it is one step on the
-- state; a poisoned lock, which is left by a panic, is not modelled.
pub mod Balance
pub mod Fit
use path_hydra.Common.{
  ℕ, ◌+◌, ◌-◌, max, Bool, true, false, ltb, leb, if◌then◌else◌, Option, none, some, Result, ok, err,
}
use path_hydra.Core.{checked_sub, saturating_suc}
use path_hydra.Core.{u64_bound, checked_add}

pub data AdmissionRejection : Type 0 where
  too_many_destinations : ℕ → ℕ → AdmissionRejection
  request_bytes : ℕ → ℕ → AdmissionRejection
  concurrent_routes : ℕ → AdmissionRejection
  total_bytes : ℕ → ℕ → AdmissionRejection
  arithmetic_overflow : AdmissionRejection

pub record State : Type 0 where
  pub active : ℕ
  pub peak_active : ℕ
  pub reserved : ℕ
  pub peak_reserved : ℕ
  pub admissions : ℕ
  pub rejections : ℕ

-- The limits of an `AdmissionController`; its state is passed along.
pub record Limits : Type 0 where
  pub maximum_active : ℕ
  pub maximum_bytes : ℕ

pub record AdmissionPermit : Type 0 where
  pub bytes : ℕ
  pub admitted : Bool

unfoldable pub initial : State
initial = record {
  active = 0;
  peak_active = 0;
  reserved = 0;
  peak_reserved = 0;
  admissions = 0;
  rejections = 0;
}

unfoldable pub rejected : State → State
unfolding saturating_suc
rejected s = record s { rejections = saturating_suc s.rejections }

abbrev Outcome : Type 0 → Type 0
Outcome A = Result AdmissionRejection A × State

module _ (limits : Limits) where
  unfoldable pub acquire_slot : State → Outcome AdmissionPermit
  acquire_slot s =
      if leb limits.maximum_active s.active
      then (err (concurrent_routes limits.maximum_active), rejected s)
      else (
        ok (record { bytes = 0; admitted = false }),
        record s { active = s.active + 1; peak_active = max s.peak_active (s.active + 1) },
      )

  unfoldable pub reject_destinations : ℕ → ℕ → State → AdmissionRejection × State
  reject_destinations requested maximum s = (too_many_destinations requested maximum, rejected s)

  -- The end of `reserve`, once the total is computed.
  unfoldable pub reserve_total : Option ℕ → State → Outcome (Unit {0})
  reserve_total none s = (err arithmetic_overflow, rejected s)
  reserve_total (some total) s =
      if ltb limits.maximum_bytes total
      then (err (total_bytes total limits.maximum_bytes), rejected s)
      else (
        ok tt,
        record s {
          reserved = total;
          peak_reserved = max s.peak_reserved total;
          admissions = saturating_suc s.admissions;
        },
      )

  unfoldable pub reserve : ℕ → State → Outcome (Unit {0})
  reserve bytes s =
      if ltb limits.maximum_bytes bytes
      then (err (request_bytes bytes limits.maximum_bytes), rejected s)
      else reserve_total (checked_add s.reserved bytes) s

  unfoldable pub replace_total : Option ℕ → State → Outcome (Unit {0})
  replace_total none s = (err arithmetic_overflow, rejected s)
  replace_total (some total) s =
      if ltb limits.maximum_bytes total
      then (err (total_bytes total limits.maximum_bytes), rejected s)
      else (ok tt, record s { reserved = total; peak_reserved = max s.peak_reserved total })

  unfoldable pub replace_remaining : Option ℕ → ℕ → State → Outcome (Unit {0})
  replace_remaining none replacement s = (err arithmetic_overflow, rejected s)
  replace_remaining (some without_current) replacement s =
      replace_total (checked_add without_current replacement) s

  unfoldable pub replace_reservation : ℕ → ℕ → State → Outcome (Unit {0})
  replace_reservation current replacement s =
      if ltb limits.maximum_bytes replacement
      then (err (request_bytes replacement limits.maximum_bytes), rejected s)
      else replace_remaining (checked_sub s.reserved current) replacement s

  -- `AdmissionPermit::reserve` and the permit after it: an error leaves the permit as it was.
  unfoldable pub reserved_permit :
      AdmissionPermit
      → ℕ
      → Outcome (Unit {0})
      → Result AdmissionRejection (Unit {0}) × (AdmissionPermit × State)
  reserved_permit permit bytes (err e, s) = (err e, (permit, s))
  reserved_permit permit bytes (ok _, s) = (ok tt, (record { bytes = bytes; admitted = true }, s))

  unfoldable pub permit_reserve :
      AdmissionPermit → ℕ → State → Result AdmissionRejection (Unit {0}) × (AdmissionPermit × State)
  permit_reserve permit bytes s =
      reserved_permit permit bytes
        (if permit.admitted then replace_reservation permit.bytes bytes s else reserve bytes s)

-- `AdmissionPermit::drop`; subtraction on the natural numbers is `saturating_sub`.
unfoldable pub drop_permit : AdmissionPermit → State → State
drop_permit permit s = record s {
  active = s.active - 1;
  reserved = if permit.admitted then s.reserved - permit.bytes else s.reserved;
}
