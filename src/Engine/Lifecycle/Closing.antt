-- ===== src/Engine/Lifecycle/Closing.antt =====
-- Closing, draining and shutting down.
use path_hydra.Common.{ℕ, ◌≤◌, ◌≡◌, ◌≢◌, refl, some, List, [], ◌∷◌, ◌++◌, ok, arith}
use path_hydra.Engine.Lifecycle.{
  EngineLifecycleState, OperationKind, State, total, close_in, close_admission, begin_in, begin,
  begin_maintenance_in, begin_maintenance, rejected, mark_shut_down, drop_permit,
}
use path_hydra.Engine.Lifecycle.Slots.{held, held-append, total-eq-zero_iff, mark_shut_down-eq-ok}
use path_hydra.Engine.Lifecycle.Phases.{
  with_permit, Steps, stay, begun, begun_maintenance, dropped, closed, shut, Reachable, IsTracked,
  Reachable-IsTracked, Steps-IsTracked, drop_permit-IsTracked, close_in-IsTracked,
}

-- The holders drop their permits one after another.
unfoldable pub drop_all : List OperationKind → State → State
unfolding drop_permit
drop_all [] s = s
drop_all (kind ∷ kinds) s = drop_all kinds (drop_permit kind s)

drop_all-IsTracked :
    (maximum_workers : ℕ) (kinds : List OperationKind) (s : State)
    → IsTracked maximum_workers kinds s
    → IsTracked maximum_workers [] (drop_all kinds s)
unfolding drop_all
drop_all-IsTracked maximum_workers [] s t = t
drop_all-IsTracked maximum_workers (kind ∷ kinds) s t =
    drop_all-IsTracked maximum_workers kinds (drop_permit kind s)
      (drop_permit-IsTracked maximum_workers [] kinds s kind t)

mark_shut_down-idle :
    (maximum_workers : ℕ) (s : State)
    → IsTracked maximum_workers [] s
    → mark_shut_down s ≡ ok (record s { lifecycle = EngineLifecycleState.shut_down })
unfolding mark_shut_down held
mark_shut_down-idle maximum_workers s t =
    let none_left : total s.active ≡ some 0 = (total-eq-zero_iff s.active).1 t.slots in
    rw none_left refl

-- Nothing is admitted in a state that does not run.
begin_in-closed :
    (lifecycle : EngineLifecycleState) (kind : OperationKind) (kinds : List OperationKind)
    (s : State)
    → lifecycle ≢ EngineLifecycleState.running
    → (with_permit (begin_in lifecycle kind s) kinds).0 ≡ kinds
unfolding begin_in rejected with_permit
begin_in-closed EngineLifecycleState.running kind kinds s h = absurd (h refl)
begin_in-closed EngineLifecycleState.closing kind kinds s h = refl
begin_in-closed EngineLifecycleState.shut_down kind kinds s h = refl

begin_maintenance_in-closed :
    (maximum_workers : ℕ) (lifecycle : EngineLifecycleState) (kinds : List OperationKind)
    (s : State)
    → lifecycle ≢ EngineLifecycleState.running
    → (with_permit (begin_maintenance_in maximum_workers lifecycle s) kinds).0 ≡ kinds
unfolding begin_maintenance_in rejected with_permit
begin_maintenance_in-closed maximum_workers EngineLifecycleState.running kinds s h = absurd (h refl)
begin_maintenance_in-closed maximum_workers EngineLifecycleState.closing kinds s h = refl
begin_maintenance_in-closed maximum_workers EngineLifecycleState.shut_down kinds s h = refl

close_in-closed :
    (lifecycle : EngineLifecycleState) (s : State)
    → s.lifecycle ≡ lifecycle
    → (close_in lifecycle s).lifecycle ≢ EngineLifecycleState.running
unfolding close_in
close_in-closed EngineLifecycleState.running s e h = cc h
close_in-closed EngineLifecycleState.closing s e h = cc (e, h)
close_in-closed EngineLifecycleState.shut_down s e h = cc (e, h)

-- Work that is not admitted leaves the engine closed.
begin_in-stays_closed :
    (lifecycle : EngineLifecycleState) (kind : OperationKind) (kinds : List OperationKind)
    (s : State)
    → lifecycle ≢ EngineLifecycleState.running
    → (with_permit (begin_in lifecycle kind s) kinds).1.lifecycle ≡ s.lifecycle
unfolding begin_in rejected with_permit
begin_in-stays_closed EngineLifecycleState.running kind kinds s h = absurd (h refl)
begin_in-stays_closed EngineLifecycleState.closing kind kinds s h = refl
begin_in-stays_closed EngineLifecycleState.shut_down kind kinds s h = refl

begin_maintenance_in-stays_closed :
    (maximum_workers : ℕ) (lifecycle : EngineLifecycleState) (kinds : List OperationKind)
    (s : State)
    → lifecycle ≢ EngineLifecycleState.running
    → (with_permit (begin_maintenance_in maximum_workers lifecycle s) kinds).1.lifecycle
      ≡ s.lifecycle
unfolding begin_maintenance_in rejected with_permit
begin_maintenance_in-stays_closed maximum_workers EngineLifecycleState.running kinds s h =
    absurd (h refl)
begin_maintenance_in-stays_closed maximum_workers EngineLifecycleState.closing kinds s h = refl
begin_maintenance_in-stays_closed maximum_workers EngineLifecycleState.shut_down kinds s h = refl

-- The engine does not run, and no more permits of any kind are held than before.
record Closed (from_kinds kinds : List OperationKind) (s : State) : Type 0 where
  shut_off : s.lifecycle ≢ EngineLifecycleState.running
  fewer : (kind : OperationKind) → held kind kinds ≤ held kind from_kinds

begun-Closed :
    (from_kinds kinds kinds' : List OperationKind) (s s' : State)
    → Closed from_kinds kinds s
    → kinds' ≡ kinds
    → s'.lifecycle ≡ s.lifecycle
    → Closed from_kinds kinds' s'
begun-Closed from_kinds kinds kinds' s s' c p q = record {
  shut_off = λ h. c.shut_off (cc (h, q));
  fewer = λ kind. rw p (c.fewer kind);
}

-- Whatever clients do, a closed engine stays closed.
Steps-Closed :
    (maximum_workers : ℕ) (from_kinds : List OperationKind) (from : State)
    (kinds : List OperationKind) (s : State)
    → from.lifecycle ≢ EngineLifecycleState.running
    → Steps maximum_workers from_kinds from kinds s
    → Closed from_kinds kinds s
unfolding begin begin_maintenance close_admission drop_permit held
Steps-Closed maximum_workers from_kinds from _ _ h stay = record {
  shut_off = h;
  fewer = λ kind. omega arith;
}
Steps-Closed maximum_workers from_kinds from _ _ h (begun kinds s kind m r) =
    let c = Steps-Closed maximum_workers from_kinds from kinds s h r in
    begun-Closed from_kinds kinds _ s _ c (begin_in-closed s.lifecycle kind kinds s c.shut_off)
      (begin_in-stays_closed s.lifecycle kind kinds s c.shut_off)
Steps-Closed maximum_workers from_kinds from _ _ h (begun_maintenance kinds s r) =
    let c = Steps-Closed maximum_workers from_kinds from kinds s h r in
    begun-Closed from_kinds kinds _ s _ c
      (begin_maintenance_in-closed maximum_workers s.lifecycle kinds s c.shut_off)
      (begin_maintenance_in-stays_closed maximum_workers s.lifecycle kinds s c.shut_off)
Steps-Closed maximum_workers from_kinds from _ _ h (dropped kinds others s kind r) =
    let c = Steps-Closed maximum_workers from_kinds from (kinds ++ kind ∷ others) s h r in
    record {
      shut_off = c.shut_off;
      fewer = λ k.
          let whole = held-append k kinds (kind ∷ others) in
          let rest = held-append k kinds others in
          let before = c.fewer k in omega (arith, whole, rest, before);
    }
Steps-Closed maximum_workers from_kinds from _ _ h (closed kinds s r) =
    let c = Steps-Closed maximum_workers from_kinds from kinds s h r in
    record { shut_off = close_in-closed s.lifecycle s refl; fewer = c.fewer }
Steps-Closed maximum_workers from_kinds from _ _ h (shut kinds s s' r e) =
    let c = Steps-Closed maximum_workers from_kinds from kinds s h r in
    let (_, done) = mark_shut_down-eq-ok s s' e in
    record { shut_off = λ p. cc (p, done); fewer = c.fewer }

-- Once the engine is closed in a state that clients reach, whatever they do from there on, no operation
-- of any kind is admitted any more, no more permits of a kind are held than at the closing, and the
-- engine shuts down as soon as those still held are dropped.
pub close_admission-drains :
    (maximum_workers : ℕ) (kinds kinds' : List OperationKind) (s s' : State)
    → Reachable maximum_workers kinds s
    → Steps maximum_workers kinds (close_admission s).1 kinds' s'
    → ((kind : OperationKind) → (with_permit (begin kind s') kinds').0 ≡ kinds')
      × ((with_permit (begin_maintenance maximum_workers s') kinds').0 ≡ kinds')
      × ((kind : OperationKind) → held kind kinds' ≤ held kind kinds)
      × (mark_shut_down (drop_all kinds' s')
          ≡ ok (record (drop_all kinds' s') { lifecycle = EngineLifecycleState.shut_down }))
unfolding close_admission begin begin_maintenance
close_admission-drains maximum_workers kinds kinds' s s' r later =
    let after : State = close_in s.lifecycle s in
    let tracked =
      close_in-IsTracked maximum_workers kinds s s.lifecycle refl
        (Reachable-IsTracked maximum_workers kinds s r) in
    let c =
      Steps-Closed maximum_workers kinds after kinds' s' (close_in-closed s.lifecycle s refl)
        later in
    (
      (λ kind. begin_in-closed s'.lifecycle kind kinds' s' c.shut_off),
      begin_maintenance_in-closed maximum_workers s'.lifecycle kinds' s' c.shut_off,
      c.fewer,
      mark_shut_down-idle maximum_workers (drop_all kinds' s') (
          drop_all-IsTracked maximum_workers kinds' s'
            (Steps-IsTracked maximum_workers kinds after kinds' s' tracked later)),
    )
