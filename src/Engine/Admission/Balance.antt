-- ===== src/Engine/Admission/Balance.antt =====
-- The counters of the controller are those of the permits that are held.
use path_hydra.Common.{
  ℕ, ◌+◌, ◌-◌, ◌≤◌, ◌<◌, ◌≡◌, refl, ◌⊎◌, inl, inr, max, ltb, leb, Bool, true, false, if◌then◌else◌,
  Option, none, some, List, [], ◌∷◌, ◌++◌, length, length-append, Has, Result, ok, err, Bool-cases,
  arith,
}
use path_hydra.Core.{checked_sub}
use path_hydra.Core.{checked_add}
use path_hydra.Engine.Admission.{
  Limits, State, AdmissionRejection, concurrent_routes, arithmetic_overflow, total_bytes,
  request_bytes, AdmissionPermit, initial, rejected, acquire_slot, reject_destinations, reserve,
  reserve_total, replace_reservation, replace_remaining, replace_total, permit_reserve,
  reserved_permit, drop_permit,
}

-- The bytes of the permits.
unfoldable pub held : List AdmissionPermit → ℕ
held [] = 0
held (p ∷ ps) = p.bytes + held ps

held-append : (ps qs : List AdmissionPermit) → held (ps ++ qs) ≡ held ps + held qs
unfolding held
held-append [] qs = omega arith
held-append (p ∷ ps) qs = omega (arith, held-append ps qs)

-- A permit holds bytes once it is admitted.
abbrev pub IsPermit : AdmissionPermit → Type 0
IsPermit p = p.admitted ≡ false → p.bytes ≡ 0

pub record IsBalanced (limits : Limits) (s : State) (permits : List AdmissionPermit) : Type 0 where
  pub active_eq : s.active ≡ length permits
  pub reserved_eq : s.reserved ≡ held permits
  pub active_le : s.active ≤ s.peak_active
  pub peak_active_le : s.peak_active ≤ limits.maximum_active
  pub reserved_le : s.reserved ≤ s.peak_reserved
  pub peak_reserved_le : s.peak_reserved ≤ limits.maximum_bytes
  pub each : (p : AdmissionPermit) → Has p permits → IsPermit p

-- What a reservation changes, of a permit whose bytes are among the reserved ones.
record Moves (limits : Limits) (p p' : AdmissionPermit) (s s' : State) : Type 0 where
  pub same_active : s'.active ≡ s.active
  pub same_peak : s'.peak_active ≡ s.peak_active
  pub moved : s'.reserved + p.bytes ≡ s.reserved + p'.bytes
  pub is_permit : IsPermit p'
  pub in_peak : s'.reserved ≤ s'.peak_reserved
  pub in_limit : s'.peak_reserved ≤ limits.maximum_bytes

rejected-Moves :
    (limits : Limits) (p : AdmissionPermit) (s : State)
    → IsPermit p
    → s.reserved ≤ s.peak_reserved
    → s.peak_reserved ≤ limits.maximum_bytes
    → Moves limits p p s (rejected s)
unfolding rejected
rejected-Moves limits p s permit peak limit = record {
  same_active = refl;
  same_peak = refl;
  moved = refl;
  is_permit = permit;
  in_peak = peak;
  in_limit = limit;
}

module _ (limits : Limits) (p : AdmissionPermit) (bytes : ℕ) (s : State) (permit : IsPermit p)
    (peak : s.reserved ≤ s.peak_reserved) (limit : s.peak_reserved ≤ limits.maximum_bytes)
    (within : p.bytes ≤ s.reserved) where
  abbrev After : Result AdmissionRejection (Unit {0}) × State → Type 0
  After outcome =
      let (_, (p', s')) = reserved_permit limits p bytes outcome in Moves limits p p' s s'

  failed : (e : AdmissionRejection) → After (err e, rejected s)
  unfolding reserved_permit
  failed e = rejected-Moves limits p s permit peak limit

  reserve_total-Moves :
      (total : Option ℕ)
      → p.admitted ≡ false
      → (total ≡ none) ⊎ (total ≡ some (s.reserved + bytes))
      → After (reserve_total limits total s)
  unfolding reserve_total reserved_permit
  reserve_total-Moves total fresh (inl none_) = rw none_ (failed arithmetic_overflow)
  reserve_total-Moves total fresh (inr some_) =
      rw some_ (elim (Bool-cases (ltb limits.maximum_bytes (s.reserved + bytes))) [
        | inl over ↦ rw over (failed (total_bytes (s.reserved + bytes) limits.maximum_bytes))
        | inr fits ↦ rw fits (record {
          same_active = refl;
          same_peak = refl;
          moved = omega (arith, permit fresh);
          is_permit = λ h. cc h;
          in_peak = omega arith;
          in_limit = ground arith;
        })
      ])

  replace_total-Moves :
      (total : Option ℕ)
      → (total ≡ none) ⊎ (total ≡ some (s.reserved - p.bytes + bytes))
      → After (replace_total limits total s)
  unfolding replace_total reserved_permit
  replace_total-Moves total (inl none_) = rw none_ (failed arithmetic_overflow)
  replace_total-Moves total (inr some_) =
      rw some_ (elim (Bool-cases (ltb limits.maximum_bytes (s.reserved - p.bytes + bytes))) [
        | inl over ↦
            rw over (failed (total_bytes (s.reserved - p.bytes + bytes) limits.maximum_bytes))
        | inr fits ↦ rw fits (record {
          same_active = refl;
          same_peak = refl;
          moved = omega arith;
          is_permit = λ h. cc h;
          in_peak = omega arith;
          in_limit = ground arith;
        })
      ])

  added : (a b : ℕ) → (checked_add a b ≡ none) ⊎ (checked_add a b ≡ some (a + b))
  unfolding checked_add
  added a b = ground arith

  chosen-Moves :
      (admitted : Bool)
      → p.admitted ≡ admitted
      → After
          (if admitted then replace_reservation limits p.bytes bytes s else reserve limits bytes s)
  unfolding reserve replace_reservation replace_remaining checked_sub
  chosen-Moves false fresh = elim (Bool-cases (ltb limits.maximum_bytes bytes)) [
    | inl over ↦ rw over (failed (request_bytes bytes limits.maximum_bytes))
    | inr fits ↦
        rw fits (reserve_total-Moves (checked_add s.reserved bytes) fresh (added s.reserved bytes))
  ]
  chosen-Moves true holding = elim (Bool-cases (ltb limits.maximum_bytes bytes)) [
    | inl over ↦ rw over (failed (request_bytes bytes limits.maximum_bytes))
    | inr fits ↦ rw fits (elim (Bool-cases (leb p.bytes s.reserved)) [
      | inr short ↦ absurd (ground arith)
      | inl enough ↦ rw enough (
          replace_total-Moves (checked_add (s.reserved - p.bytes) bytes)
            (added (s.reserved - p.bytes) bytes))
    ])
  ]

  permit_reserve-Moves :
      let (_, (p', s')) = permit_reserve limits p bytes s in Moves limits p p' s s'
  unfolding permit_reserve
  permit_reserve-Moves = chosen-Moves p.admitted refl

-- The permits that are held after `acquire_slot`.
abbrev pub granted :
    Result AdmissionRejection AdmissionPermit → List AdmissionPermit → List AdmissionPermit
granted (ok p) permits = p ∷ permits
granted (err _) permits = permits

-- The controller with the permits that its clients hold, one operation after another.
pub data Reachable (limits : Limits) : State → List AdmissionPermit → Type 0 where
  created : Reachable limits initial []
  asked :
      (s : State) (permits : List AdmissionPermit)
      → Reachable limits s permits
      → Reachable limits (acquire_slot limits s).1 (granted (acquire_slot limits s).0 permits)
  destinations_rejected :
      (s : State) (permits : List AdmissionPermit) (requested maximum : ℕ)
      → Reachable limits s permits
      → Reachable limits (reject_destinations limits requested maximum s).1 permits
  reserved :
      (s : State) (before after : List AdmissionPermit) (p : AdmissionPermit) (bytes : ℕ)
      → Reachable limits s (before ++ p ∷ after)
      → Reachable limits
          (permit_reserve limits p bytes s).1.1
          (before ++ (permit_reserve limits p bytes s).1.0 ∷ after)
  dropped :
      (s : State) (before after : List AdmissionPermit) (p : AdmissionPermit)
      → Reachable limits s (before ++ p ∷ after)
      → Reachable limits (drop_permit p s) (before ++ after)

Has-middle :
    (before after : List AdmissionPermit) (p : AdmissionPermit) → Has p (before ++ p ∷ after)
Has-middle [] after p = inl refl
Has-middle (q ∷ before) after p = inr (Has-middle before after p)

Has-replaced :
    (before after : List AdmissionPermit) (p p' q : AdmissionPermit)
    → Has q (before ++ p' ∷ after)
    → (q ≡ p') ⊎ Has q (before ++ p ∷ after)
Has-replaced [] after p p' q (inl e) = inl e
Has-replaced [] after p p' q (inr h) = inr (inr h)
Has-replaced (x ∷ before) after p p' q (inl e) = inr (inl e)
Has-replaced (x ∷ before) after p p' q (inr h) = elim (Has-replaced before after p p' q h) [
  | inl e ↦ inl e
  | inr m ↦ inr (inr m)
]

Has-dropped :
    (before after : List AdmissionPermit) (p q : AdmissionPermit)
    → Has q (before ++ after)
    → Has q (before ++ p ∷ after)
Has-dropped [] after p q h = inr h
Has-dropped (x ∷ before) after p q (inl e) = inl e
Has-dropped (x ∷ before) after p q (inr h) = inr (Has-dropped before after p q h)

rejected-IsBalanced :
    (limits : Limits) (s : State) (permits : List AdmissionPermit)
    → IsBalanced limits s permits
    → IsBalanced limits (rejected s) permits
unfolding rejected
rejected-IsBalanced limits s permits b = record {
  active_eq = b.active_eq;
  reserved_eq = b.reserved_eq;
  active_le = b.active_le;
  peak_active_le = b.peak_active_le;
  reserved_le = b.reserved_le;
  peak_reserved_le = b.peak_reserved_le;
  each = b.each;
}

-- The two branches of `acquire_slot`, in any state.
acquire_slot-cases :
    (limits : Limits) (s : State)
    → ((acquire_slot limits s ≡ (
      ok (record { bytes = 0; admitted = false }),
      record s { active = s.active + 1; peak_active = max s.peak_active (s.active + 1) },
    ))
        × (s.active < limits.maximum_active))
      ⊎ (acquire_slot limits s ≡ (err (concurrent_routes limits.maximum_active), rejected s))
unfolding acquire_slot
acquire_slot-cases limits s = elim (Bool-cases (leb limits.maximum_active s.active)) [
  | inl full ↦ inr (rw full refl)
  | inr room ↦ inl (rw room refl, ground arith)
]

acquired-IsBalanced :
    (limits : Limits) (s : State) (permits : List AdmissionPermit)
    → s.active < limits.maximum_active
    → IsBalanced limits s permits
    → IsBalanced limits
        (record s { active = s.active + 1; peak_active = max s.peak_active (s.active + 1) })
        (record { bytes = 0; admitted = false } ∷ permits)
unfolding held
acquired-IsBalanced limits s permits room b = record {
  active_eq = omega (arith, b.active_eq);
  reserved_eq = omega (arith, b.reserved_eq);
  active_le = omega arith;
  peak_active_le = ground (arith, b.peak_active_le);
  reserved_le = b.reserved_le;
  peak_reserved_le = b.peak_reserved_le;
  each = λ p h. elim h [ inl e ↦ rw e (λ _. refl) | inr m ↦ b.each p m ];
}

-- At every moment the controller's active count is the number of permits held, and its reserved
-- bytes are theirs in sum; both are within their peaks, and the peaks within the limits.
pub Reachable-IsBalanced :
    (limits : Limits) (s : State) (permits : List AdmissionPermit)
    → Reachable limits s permits
    → IsBalanced limits s permits
unfolding initial held drop_permit reject_destinations
Reachable-IsBalanced limits _ _ created = record {
  active_eq = refl;
  reserved_eq = refl;
  active_le = omega arith;
  peak_active_le = omega arith;
  reserved_le = omega arith;
  peak_reserved_le = omega arith;
  each = λ p h. absurd h;
}
Reachable-IsBalanced limits _ _ (asked s permits r) =
    let b = Reachable-IsBalanced limits s permits r in
    elim (acquire_slot-cases limits s) [
      | inl (e, room) ↦ rw e (acquired-IsBalanced limits s permits room b)
      | inr e ↦ rw e (rejected-IsBalanced limits s permits b)
    ]
Reachable-IsBalanced limits _ _ (destinations_rejected s permits requested maximum r) =
    rejected-IsBalanced limits s permits (Reachable-IsBalanced limits s permits r)
Reachable-IsBalanced limits _ _ (reserved s before after p bytes r) =
    let b = Reachable-IsBalanced limits s (before ++ p ∷ after) r in
    let p' = (permit_reserve limits p bytes s).1.0 in
    let h = held-append before (p ∷ after) in
    let h' = held-append before (p' ∷ after) in
    let l = length-append before (p ∷ after) in
    let l' = length-append before (p' ∷ after) in
    let m =
      permit_reserve-Moves limits p bytes s (b.each p (Has-middle before after p)) b.reserved_le
        b.peak_reserved_le (omega (arith, b.reserved_eq, h)) in
    record {
      active_eq = omega (arith, b.active_eq, m.same_active, l, l');
      reserved_eq = omega (arith, b.reserved_eq, m.moved, h, h');
      active_le = omega (arith, b.active_le, m.same_active, m.same_peak);
      peak_active_le = omega (arith, b.peak_active_le, m.same_peak);
      reserved_le = m.in_peak;
      peak_reserved_le = m.in_limit;
      each = λ q h. elim (Has-replaced before after p p' q h) [
        | inl e ↦ rw e m.is_permit
        | inr old ↦ b.each q old
      ];
    }
Reachable-IsBalanced limits _ _ (dropped s before after p r) =
    let b = Reachable-IsBalanced limits s (before ++ p ∷ after) r in
    let h = held-append before (p ∷ after) in
    let h' = held-append before after in
    let l = length-append before (p ∷ after) in
    let l' = length-append before after in
    let fresh = b.each p (Has-middle before after p) in
    record {
      active_eq = omega (arith, b.active_eq, l, l');
      reserved_eq = ground (arith, b.reserved_eq, h, h', fresh);
      active_le = omega (arith, b.active_le);
      peak_active_le = b.peak_active_le;
      reserved_le = ground (arith, b.reserved_le);
      peak_reserved_le = b.peak_reserved_le;
      each = λ q h. b.each q (Has-dropped before after p q h);
    }
