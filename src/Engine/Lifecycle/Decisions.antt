-- ===== src/Engine/Lifecycle/Decisions.antt =====
-- The lifecycle as its clients see it: a phase, and the permits that are held. The counters decide as
-- the permits would.
use path_hydra.Common.{
  ℕ, ◌+◌, ◌≡◌, ◌∙◌, refl, sym, inl, inr, Bool, true, false, leb, ltb, ◌&&◌, some, List, [], ◌∷◌,
  Result, ok, err, Bool-cases, Result-cases, arith,
}
use path_hydra.Core.{checked_add, u64_bound}
use path_hydra.Engine.Lifecycle.{
  EngineLifecycleState, OperationKind, State, LifecycleError, slot, total, permit_of, admit,
  rejected, begin_in, begin, begin_maintenance_in, begin_maintenance, mark_shut_down,
}
use path_hydra.Engine.Lifecycle.Slots.{held, total-eq-zero_iff, none_held, mark_shut_down-eq-ok}
use path_hydra.Engine.Lifecycle.Phases.{Reachable, Reachable-IsTracked}

unfoldable pub is_ok : {A : Type 0} → Result LifecycleError A → Bool
is_ok (ok _) = true
is_ok (err _) = false

unfoldable pub is_running : EngineLifecycleState → Bool
is_running EngineLifecycleState.running = true
is_running EngineLifecycleState.closing = false
is_running EngineLifecycleState.shut_down = false

unfoldable pub is_empty : List OperationKind → Bool
is_empty [] = true
is_empty (_ ∷ _) = false

-- One more permit of a kind is granted to an engine that runs, if the count stays a `usize`.
unfoldable pub grants : EngineLifecycleState → List OperationKind → OperationKind → Bool
unfolding is_running
grants phase kinds kind = is_running phase && ltb (held kind kinds + 1) u64_bound

unfoldable pub grants_maintenance : ℕ → EngineLifecycleState → List OperationKind → Bool
unfolding grants
grants_maintenance maximum_workers phase kinds =
    grants phase kinds OperationKind.maintenance
    && ltb (held OperationKind.maintenance kinds) maximum_workers

permit_of-decides :
    (kind : OperationKind) (n : ℕ) (s : State)
    → is_ok (permit_of kind (checked_add n 1) s).0 ≡ ltb (n + 1) u64_bound
unfolding permit_of is_ok checked_add
permit_of-decides kind n s = elim (Bool-cases (ltb (n + 1) u64_bound)) [
  | inl fits ↦ rw fits refl
  | inr over ↦ rw over refl
]

begin_in-decides :
    (phase : EngineLifecycleState) (kinds : List OperationKind) (kind : OperationKind) (s : State)
    → slot kind s.active ≡ held kind kinds
    → is_ok (begin_in phase kind s).0 ≡ grants phase kinds kind
unfolding begin_in admit rejected grants is_running is_ok
begin_in-decides EngineLifecycleState.running kinds kind s e =
    rw⁻¹ e (permit_of-decides kind (slot kind s.active) s)
begin_in-decides EngineLifecycleState.closing kinds kind s e = refl
begin_in-decides EngineLifecycleState.shut_down kinds kind s e = refl

begin_maintenance_in-decides :
    (maximum_workers : ℕ) (phase : EngineLifecycleState) (kinds : List OperationKind) (s : State)
    → slot OperationKind.maintenance s.active ≡ held OperationKind.maintenance kinds
    → is_ok (begin_maintenance_in maximum_workers phase s).0
      ≡ grants_maintenance maximum_workers phase kinds
unfolding begin_maintenance_in admit rejected grants_maintenance grants is_running is_ok slot
begin_maintenance_in-decides maximum_workers EngineLifecycleState.running kinds s e =
    let granted = permit_of-decides OperationKind.maintenance s.active.maintenances s in
    elim (Bool-cases (leb maximum_workers s.active.maintenances)) [
      | inl busy ↦ rw busy (ground (arith, busy, e))
      | inr free ↦ rw (free, granted) (ground (arith, free, e))
    ]
begin_maintenance_in-decides maximum_workers EngineLifecycleState.closing kinds s e = refl
begin_maintenance_in-decides maximum_workers EngineLifecycleState.shut_down kinds s e = refl

mark_shut_down-decides :
    (kinds : List OperationKind) (s : State)
    → ((kind : OperationKind) → slot kind s.active ≡ held kind kinds)
    → is_ok (mark_shut_down s) ≡ is_empty kinds
unfolding is_ok is_empty held mark_shut_down
mark_shut_down-decides [] s e =
    let idle : total s.active ≡ some 0 = (total-eq-zero_iff s.active).1 e in rw idle refl
mark_shut_down-decides (k ∷ kinds) s e = elim (Result-cases (mark_shut_down s)) [
  | inl (s', p) ↦
      let (idle, _) = mark_shut_down-eq-ok s s' p in
      let gone = none_held (k ∷ kinds) (λ x. sym (e x) ∙ idle x) in absurd (cc gone)
  | inr (error, p) ↦ rw p refl
]

-- In every state that clients reach, the counters decide as the phase and the permits do: work of a
-- kind is granted exactly while the engine runs and the count of its permits can grow, maintenance
-- only while a worker is free besides, and the shutdown succeeds exactly where no permit is held.
pub Reachable-decides :
    (maximum_workers : ℕ) (kinds : List OperationKind) (s : State)
    → Reachable maximum_workers kinds s
    → ((kind : OperationKind) → is_ok (begin kind s).0 ≡ grants s.lifecycle kinds kind)
      × (is_ok (begin_maintenance maximum_workers s).0
          ≡ grants_maintenance maximum_workers s.lifecycle kinds)
      × (is_ok (mark_shut_down s) ≡ is_empty kinds)
unfolding begin begin_maintenance
Reachable-decides maximum_workers kinds s r =
    let t = Reachable-IsTracked maximum_workers kinds s r in
    (
      (λ kind. begin_in-decides s.lifecycle kinds kind s (t.slots kind)),
      begin_maintenance_in-decides maximum_workers s.lifecycle kinds s
          (t.slots OperationKind.maintenance),
      mark_shut_down-decides kinds s t.slots,
    )
