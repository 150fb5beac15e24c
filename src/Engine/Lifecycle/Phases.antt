-- ===== src/Engine/Lifecycle/Phases.antt =====
-- The states that the engine's lifecycle reaches, with the permits that are held.
use path_hydra.Common.{
  ℕ, ◌+◌, ◌≤◌, ◌<◌, ◌≡◌, ◌≢◌, ◌∙◌, subst, refl, sym, inl, inr, leb, Option, none, some, List, [],
  ◌∷◌, ◌++◌, Result, ok, err, Bool-cases, arith,
}
use path_hydra.Core.{checked_add-eq-some, checked_add}
use path_hydra.Engine.Lifecycle.{
  EngineLifecycleState, OperationKind, State, LifecycleError, no_operations, initial, slot,
  set_slot, decrement, permit_of, admit, rejected, begin_in, begin, begin_maintenance_in,
  begin_maintenance, close_in, close_admission, mark_shut_down, drop_permit,
}
use path_hydra.Engine.Lifecycle.Slots.{
  same_kind, held, slot-up, slot-decrement, held-append, same_kind_self, same_kind_other,
  slot-no_operations, none_held, mark_shut_down-eq-ok,
}

-- The permits that a `begin` leaves, with its state.
unfoldable pub with_permit :
    Result LifecycleError OperationKind × State → List OperationKind → List OperationKind × State
with_permit (ok kind, s) kinds = (kind ∷ kinds, s)
with_permit (err _, s) kinds = (kinds, s)

-- What clients do from a state on: they begin work and drop their permits, and the engine closes and
-- shuts down.
pub data Steps (maximum_workers : ℕ) (from_kinds : List OperationKind) (from : State)
    : List OperationKind → State → Type 0 where
  stay : Steps maximum_workers from_kinds from from_kinds from
  begun :
      (kinds : List OperationKind) (s : State) (kind : OperationKind)
      → kind ≢ OperationKind.maintenance
      → Steps maximum_workers from_kinds from kinds s
      → Steps maximum_workers from_kinds from
          (with_permit (begin kind s) kinds).0
          (with_permit (begin kind s) kinds).1
  begun_maintenance :
      (kinds : List OperationKind) (s : State)
      → Steps maximum_workers from_kinds from kinds s
      → Steps maximum_workers from_kinds from
          (with_permit (begin_maintenance maximum_workers s) kinds).0
          (with_permit (begin_maintenance maximum_workers s) kinds).1
  dropped :
      (kinds others : List OperationKind) (s : State) (kind : OperationKind)
      → Steps maximum_workers from_kinds from (kinds ++ kind ∷ others) s
      → Steps maximum_workers from_kinds from (kinds ++ others) (drop_permit kind s)
  closed :
      (kinds : List OperationKind) (s : State)
      → Steps maximum_workers from_kinds from kinds s
      → Steps maximum_workers from_kinds from kinds (close_admission s).1
  shut :
      (kinds : List OperationKind) (s s' : State)
      → Steps maximum_workers from_kinds from kinds s
      → mark_shut_down s ≡ ok s'
      → Steps maximum_workers from_kinds from kinds s'

-- What clients reach in a new engine.
abbrev pub Reachable : ℕ → List OperationKind → State → Type 0
Reachable maximum_workers kinds s = Steps maximum_workers [] initial kinds s

-- The counts are those of the permits, maintenance has its workers, and nothing is active once the
-- engine is shut down.
pub record IsTracked (maximum_workers : ℕ) (kinds : List OperationKind) (s : State) : Type 0 where
  pub slots : (kind : OperationKind) → slot kind s.active ≡ held kind kinds
  pub workers : s.active.maintenances ≤ maximum_workers
  pub idle : s.lifecycle ≡ EngineLifecycleState.shut_down → kinds ≡ []

module _ (maximum_workers : ℕ) where
  permit_of-IsTracked :
      (kinds : List OperationKind) (s : State) (kind : OperationKind) (next : Option ℕ)
      → s.lifecycle ≡ EngineLifecycleState.running
      → same_kind OperationKind.maintenance kind + s.active.maintenances ≤ maximum_workers
      → checked_add (slot kind s.active) 1 ≡ next
      → IsTracked maximum_workers kinds s
      → IsTracked maximum_workers
          (with_permit (permit_of kind next s) kinds).0
          (with_permit (permit_of kind next s) kinds).1
  unfolding permit_of with_permit slot held
  permit_of-IsTracked kinds s kind none r w e t = t
  permit_of-IsTracked kinds s kind (some next) r w e t =
      let n : slot kind s.active + 1 ≡ next =
        sym (checked_add-eq-some (slot kind s.active) 1 next e) in
      record {
        slots = λ k.
            let up = slot-up k kind s.active in
            let before = t.slots k in
            subst (λ x. slot k (set_slot kind x s.active) ≡ same_kind k kind + held k kinds) n
              (omega (arith, up, before));
        workers =
            let up = slot-up OperationKind.maintenance kind s.active in
            subst (λ x. slot OperationKind.maintenance (set_slot kind x s.active) ≤ maximum_workers)
              n (omega (arith, up, w));
        idle = λ h. absurd (cc (h, r));
      }

  begin_in-IsTracked :
      (kinds : List OperationKind) (s : State) (kind : OperationKind)
      (lifecycle : EngineLifecycleState)
      → kind ≢ OperationKind.maintenance
      → s.lifecycle ≡ lifecycle
      → IsTracked maximum_workers kinds s
      → IsTracked maximum_workers
          (with_permit (begin_in lifecycle kind s) kinds).0
          (with_permit (begin_in lifecycle kind s) kinds).1
  unfolding begin_in admit rejected with_permit
  begin_in-IsTracked kinds s kind EngineLifecycleState.running m e t =
      permit_of-IsTracked kinds s kind (checked_add (slot kind s.active) 1) e
        (let other = same_kind_other kind m in omega (arith, other, t.workers)) refl t
  begin_in-IsTracked kinds s kind EngineLifecycleState.closing m e t = record {
    slots = t.slots;
    workers = t.workers;
    idle = t.idle;
  }
  begin_in-IsTracked kinds s kind EngineLifecycleState.shut_down m e t = record {
    slots = t.slots;
    workers = t.workers;
    idle = t.idle;
  }

  begin_maintenance_in-IsTracked :
      (kinds : List OperationKind) (s : State) (lifecycle : EngineLifecycleState)
      → s.lifecycle ≡ lifecycle
      → IsTracked maximum_workers kinds s
      → IsTracked maximum_workers
          (with_permit (begin_maintenance_in maximum_workers lifecycle s) kinds).0
          (with_permit (begin_maintenance_in maximum_workers lifecycle s) kinds).1
  unfolding begin_maintenance_in admit rejected with_permit same_kind
  begin_maintenance_in-IsTracked kinds s EngineLifecycleState.running e t =
      elim (Bool-cases (leb maximum_workers s.active.maintenances)) [
        | inl busy ↦ rw busy t
        | inr free ↦ rw free (
            permit_of-IsTracked kinds s OperationKind.maintenance
              (checked_add (slot OperationKind.maintenance s.active) 1) e (ground (arith, free))
              refl t)
      ]
  begin_maintenance_in-IsTracked kinds s EngineLifecycleState.closing e t = record {
    slots = t.slots;
    workers = t.workers;
    idle = t.idle;
  }
  begin_maintenance_in-IsTracked kinds s EngineLifecycleState.shut_down e t = record {
    slots = t.slots;
    workers = t.workers;
    idle = t.idle;
  }

  pub drop_permit-IsTracked :
      (kinds others : List OperationKind) (s : State) (kind : OperationKind)
      → IsTracked maximum_workers (kinds ++ kind ∷ others) s
      → IsTracked maximum_workers (kinds ++ others) (drop_permit kind s)
  unfolding drop_permit held slot
  drop_permit-IsTracked kinds others s kind t =
      let present : 0 < slot kind s.active =
        let whole = held-append kind kinds (kind ∷ others) in
        let self = same_kind_self kind in
        let before = t.slots kind in omega (arith, whole, self, before) in
      let each : (k : OperationKind)
          → same_kind k kind + slot k (decrement kind s.active) ≡ slot k s.active =
        λ k. slot-decrement k kind s.active present in
      record {
        slots = λ k.
            let whole = held-append k kinds (kind ∷ others) in
            let rest = held-append k kinds others in
            let before = t.slots k in let now = each k in omega (arith, whole, rest, before, now);
        workers = let now = each OperationKind.maintenance in omega (arith, now, t.workers);
        idle = λ h. absurd (cons_in_middle kinds others kind (t.idle h));
      }
    where
      cons_in_middle : (ks ls : List OperationKind) (k : OperationKind) → ks ++ k ∷ ls ≡ [] → ⊥
      cons_in_middle [] ls k h = cc h
      cons_in_middle (x ∷ ks) ls k h = cc h

  pub close_in-IsTracked :
      (kinds : List OperationKind) (s : State) (lifecycle : EngineLifecycleState)
      → s.lifecycle ≡ lifecycle
      → IsTracked maximum_workers kinds s
      → IsTracked maximum_workers kinds (close_in lifecycle s)
  unfolding close_in
  close_in-IsTracked kinds s EngineLifecycleState.running e t = record {
    slots = t.slots;
    workers = t.workers;
    idle = λ h. absurd (cc h);
  }
  close_in-IsTracked kinds s EngineLifecycleState.closing e t = t
  close_in-IsTracked kinds s EngineLifecycleState.shut_down e t = t

  mark_shut_down-IsTracked :
      (kinds : List OperationKind) (s s' : State)
      → mark_shut_down s ≡ ok s'
      → IsTracked maximum_workers kinds s
      → IsTracked maximum_workers kinds s'
  mark_shut_down-IsTracked kinds s s' e t =
      let (idle, done) = mark_shut_down-eq-ok s s' e in
      let gone : kinds ≡ [] = none_held kinds (λ k. sym (t.slots k) ∙ idle k) in
      subst (IsTracked maximum_workers kinds) (sym done)
        (record { slots = t.slots; workers = t.workers; idle = λ h. gone })

  pub Steps-IsTracked :
      (from_kinds : List OperationKind) (from : State) (kinds : List OperationKind) (s : State)
      → IsTracked maximum_workers from_kinds from
      → Steps maximum_workers from_kinds from kinds s
      → IsTracked maximum_workers kinds s
  unfolding begin begin_maintenance close_admission
  Steps-IsTracked from_kinds from _ _ t stay = t
  Steps-IsTracked from_kinds from _ _ t (begun kinds s kind m r) =
      begin_in-IsTracked kinds s kind s.lifecycle m refl
        (Steps-IsTracked from_kinds from kinds s t r)
  Steps-IsTracked from_kinds from _ _ t (begun_maintenance kinds s r) =
      begin_maintenance_in-IsTracked kinds s s.lifecycle refl
        (Steps-IsTracked from_kinds from kinds s t r)
  Steps-IsTracked from_kinds from _ _ t (dropped kinds others s kind r) =
      drop_permit-IsTracked kinds others s kind
        (Steps-IsTracked from_kinds from (kinds ++ kind ∷ others) s t r)
  Steps-IsTracked from_kinds from _ _ t (closed kinds s r) =
      close_in-IsTracked kinds s s.lifecycle refl (Steps-IsTracked from_kinds from kinds s t r)
  Steps-IsTracked from_kinds from _ _ t (shut kinds s s' r e) =
      mark_shut_down-IsTracked kinds s s' e (Steps-IsTracked from_kinds from kinds s t r)

  -- In every state that clients reach, each count is the number of the permits held of that kind, no
  -- more than the configured workers are at maintenance, and after shutdown no permit is held.
  pub Reachable-IsTracked :
      (kinds : List OperationKind) (s : State)
      → Reachable maximum_workers kinds s
      → IsTracked maximum_workers kinds s
  unfolding initial no_operations slot held
  Reachable-IsTracked kinds s r =
      Steps-IsTracked [] initial kinds s
        (record { slots = slot-no_operations; workers = omega arith; idle = λ h. refl }) r
