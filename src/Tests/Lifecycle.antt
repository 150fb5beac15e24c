-- ===== src/Tests/Lifecycle.antt =====
-- Runs of crates/pathhydra-engine/src/lifecycle.rs with one maintenance worker, and instances of the
-- theorems on them.
use path_hydra.Common.{◌≡◌, ◌≤◌, refl, false, some, List, [], ◌∷◌, Result, ok}
use path_hydra.Core.{checked_add}
use path_hydra.Engine.Lifecycle
use path_hydra.Engine.Lifecycle.{
  EngineLifecycleState, OperationKind, ActiveOperationCounts, State, LifecycleError, initial, slot,
  begin, begin_maintenance, close_admission, mark_shut_down, Wake, elapsed, woken, DrainOutcome,
  wait_for_drain,
}
use path_hydra.Engine.Lifecycle.Phases.{
  with_permit, Steps, stay, begun, begun_maintenance, dropped, Reachable, IsTracked,
  Reachable-IsTracked,
}
use path_hydra.Engine.Lifecycle.Decisions.{
  is_ok, grants, grants_maintenance, is_empty, Reachable-decides,
}
use path_hydra.Engine.Lifecycle.Slots.{held}
use path_hydra.Engine.Lifecycle.Closing.{drop_all, close_admission-drains}
use path_hydra.Engine.Lifecycle.Draining.{
  Answers, wait_for_drain-IsHonest, wait_for_drain-ends, runs_out,
}

abbrev one_each : ActiveOperationCounts
one_each = record { routes = 1; mutations = 0; checkpoints = 0; maintenances = 1 }

abbrev busy : State
busy = record initial { active = one_each }

abbrev held_permits : List OperationKind
held_permits = OperationKind.maintenance ∷ OperationKind.route ∷ []

busy-Reachable : Reachable 1 held_permits busy
unfolding initial Lifecycle.no_operations begin Lifecycle.begin_in begin_maintenance
    Lifecycle.begin_maintenance_in Lifecycle.admit Lifecycle.permit_of slot Lifecycle.set_slot
    checked_add with_permit
busy-Reachable = begun_maintenance _ _ (begun _ _ OperationKind.route (λ h. cc h) stay)

Reachable-IsTracked_example : IsTracked 1 held_permits busy
Reachable-IsTracked_example = Reachable-IsTracked 1 held_permits busy busy-Reachable

-- After the closing, the maintenance ends.
abbrev closing_busy : State
closing_busy = (close_admission busy).1

abbrev route_left : State
route_left = Lifecycle.drop_permit OperationKind.maintenance closing_busy

abbrev route_permit : List OperationKind
route_permit = OperationKind.route ∷ []

one_dropped : Steps 1 held_permits closing_busy route_permit route_left
one_dropped = dropped [] route_permit closing_busy OperationKind.maintenance stay

close_admission-drains_example :
    ((kind : OperationKind) → (with_permit (begin kind route_left) route_permit).0 ≡ route_permit)
    × ((with_permit (begin_maintenance 1 route_left) route_permit).0 ≡ route_permit)
    × ((kind : OperationKind) → held kind route_permit ≤ held kind held_permits)
    × (mark_shut_down (drop_all route_permit route_left)
        ≡ ok (record (drop_all route_permit route_left) {
          lifecycle = EngineLifecycleState.shut_down;
        }))
close_admission-drains_example =
    close_admission-drains 1 held_permits route_permit busy route_left busy-Reachable one_dropped

-- Woken once with a route left, then out of time.
abbrev wakes : List Wake
wakes = woken (record one_each { maintenances = 0 }) false ∷ elapsed ∷ []

abbrev not_drained : DrainOutcome
not_drained = record { drained = false; remaining = record one_each { maintenances = 0 } }

waited : wait_for_drain wakes one_each ≡ some (ok not_drained)
unfolding wait_for_drain Lifecycle.drained_or Lifecycle.total Lifecycle.add_to checked_add
waited = refl

wait_for_drain-IsHonest_example : Answers wakes one_each not_drained
wait_for_drain-IsHonest_example = wait_for_drain-IsHonest wakes one_each not_drained waited

wait_for_drain-ends_example :
    (r : Result LifecycleError DrainOutcome) × (wait_for_drain wakes one_each ≡ some r)
unfolding runs_out
wait_for_drain-ends_example = wait_for_drain-ends wakes one_each refl

Reachable-decides_example :
    ((kind : OperationKind) → is_ok (begin kind busy).0 ≡ grants busy.lifecycle held_permits kind)
    × (is_ok (begin_maintenance 1 busy).0 ≡ grants_maintenance 1 busy.lifecycle held_permits)
    × (is_ok (mark_shut_down busy) ≡ is_empty held_permits)
Reachable-decides_example = Reachable-decides 1 held_permits busy busy-Reachable
