-- ===== src/Engine/Lifecycle.antt =====
-- crates/pathhydra-engine/src/lifecycle.rs: whether the engine admits work, and the operations that are
-- active. Each operation holds the controller's mutex, so it is one step on the state; a poisoned lock
-- is not modelled, and durations are left out.
pub mod Slots
pub mod Phases
pub mod Closing
pub mod Draining
pub mod Decisions
use path_hydra.Common.{
  ℕ, ◌+◌, ◌-◌, Bool, true, false, leb, ◌==◌, if◌then◌else◌, Option, none, some, List, [], ◌∷◌,
  Result, ok, err, ok_or, guard, ◌>>=◌, ◌>>◌,
}
use path_hydra.Core.{checked_add, saturating_suc}

pub data EngineLifecycleState : Type 0 where
  running closing shut_down : EngineLifecycleState

pub data OperationKind : Type 0 where
  route mutation checkpoint maintenance : OperationKind

pub record ActiveOperationCounts : Type 0 where
  pub routes : ℕ
  pub mutations : ℕ
  pub checkpoints : ℕ
  pub maintenances : ℕ

pub data LifecycleError : Type 0 where
  is_closing is_shut_down counter_overflow : LifecycleError
  maintenance_busy : ℕ → LifecycleError

pub record State : Type 0 where
  pub lifecycle : EngineLifecycleState
  pub active : ActiveOperationCounts
  pub shutdown_active_before : Option ActiveOperationCounts
  pub rejected_after_close : ℕ

unfoldable pub no_operations : ActiveOperationCounts
no_operations = record { routes = 0; mutations = 0; checkpoints = 0; maintenances = 0 }

unfoldable pub initial : State
unfolding no_operations
initial = record {
  lifecycle = running;
  active = no_operations;
  shutdown_active_before = none;
  rejected_after_close = 0;
}

-- The match of `slot_mut`.
unfoldable pub slot : OperationKind → ActiveOperationCounts → ℕ
slot route a = a.routes
slot mutation a = a.mutations
slot checkpoint a = a.checkpoints
slot maintenance a = a.maintenances

unfoldable pub set_slot : OperationKind → ℕ → ActiveOperationCounts → ActiveOperationCounts
set_slot route n a = record a { routes = n }
set_slot mutation n a = record a { mutations = n }
set_slot checkpoint n a = record a { checkpoints = n }
set_slot maintenance n a = record a { maintenances = n }

-- `checked_add(n)?` on a sum so far.
unfoldable pub add_to : Option ℕ → ℕ → Option ℕ
unfolding checked_add
add_to none n = none
add_to (some sum) n = checked_add sum n

-- `none` is an overflow.
unfoldable pub total : ActiveOperationCounts → Option ℕ
unfolding add_to checked_add
total a = add_to (add_to (checked_add a.routes a.mutations) a.checkpoints) a.maintenances

unfoldable pub decrement : OperationKind → ActiveOperationCounts → ActiveOperationCounts
unfolding slot set_slot
decrement kind a = set_slot kind (slot kind a - 1) a

abbrev Outcome : Type 0
Outcome = Result LifecycleError OperationKind × State

-- A permit, which is its kind, with its slot counted; `none` is an overflow of `increment`.
unfoldable pub permit_of : OperationKind → Option ℕ → State → Outcome
unfolding set_slot
permit_of kind none s = (err counter_overflow, s)
permit_of kind (some next) s = (ok kind, record s { active = set_slot kind next s.active })

unfoldable pub admit : OperationKind → State → Outcome
unfolding slot permit_of
admit kind s = permit_of kind (checked_add (slot kind s.active) 1) s

unfoldable pub rejected : LifecycleError → State → Outcome
unfolding saturating_suc
rejected error s =
    (err error, record s { rejected_after_close = saturating_suc s.rejected_after_close })

-- `begin` of a route, a mutation or a checkpoint, in each lifecycle state.
unfoldable pub begin_in : EngineLifecycleState → OperationKind → State → Outcome
unfolding admit rejected
begin_in running kind s = admit kind s
begin_in closing kind s = rejected is_closing s
begin_in shut_down kind s = rejected is_shut_down s

unfoldable pub begin : OperationKind → State → Outcome
unfolding begin_in
begin kind s = begin_in s.lifecycle kind s

unfoldable pub begin_maintenance_in : ℕ → EngineLifecycleState → State → Outcome
unfolding admit rejected
begin_maintenance_in maximum_workers running s =
    if leb maximum_workers s.active.maintenances
    then (err (maintenance_busy maximum_workers), s)
    else admit maintenance s
begin_maintenance_in maximum_workers closing s = rejected is_closing s
begin_maintenance_in maximum_workers shut_down s = rejected is_shut_down s

unfoldable pub begin_maintenance : ℕ → State → Outcome
unfolding begin_maintenance_in
begin_maintenance maximum_workers s = begin_maintenance_in maximum_workers s.lifecycle s

unfoldable pub close_in : EngineLifecycleState → State → State
close_in running s = record s { lifecycle = closing; shutdown_active_before = some s.active }
close_in closing s = s
close_in shut_down s = s

unfoldable pub close_admission : State → EngineLifecycleState × State
unfolding close_in
close_admission s = let closed = close_in s.lifecycle s in (closed.lifecycle, closed)

unfoldable pub mark_shut_down : State → Result LifecycleError State
unfolding total
mark_shut_down s = do
  active ← ok_or (total s.active) counter_overflow
  guard (active == 0) is_closing
  ok (record s { lifecycle = shut_down })

-- The drop of a permit.
unfoldable pub drop_permit : OperationKind → State → State
unfolding decrement
drop_permit kind s = record s { active = decrement kind s.active }

pub record DrainOutcome : Type 0 where
  pub drained : Bool
  pub remaining : ActiveOperationCounts

-- What ends a wait on the condition: the time was up before it, or it was woken, with the counts that
-- it then finds and whether the time is up.
pub data Wake : Type 0 where
  elapsed : Wake
  woken : ActiveOperationCounts → Bool → Wake

unfoldable pub drained_outcome : ActiveOperationCounts → Result LifecycleError DrainOutcome
unfolding total
drained_outcome active = do
  count ← ok_or (total active) counter_overflow
  ok (record { drained = count == 0; remaining = active })

-- The test at the head of the loop, before what follows it.
unfoldable pub drained_or :
    ActiveOperationCounts
    → Option ℕ
    → Option (Result LifecycleError DrainOutcome)
    → Option (Result LifecycleError DrainOutcome)
drained_or active none next = some (err counter_overflow)
drained_or active (some count) next =
    if count == 0 then some (ok (record { drained = true; remaining = active })) else next

-- `wait_for_drain` along the waits that it goes through; `none` is a wait that is not over.
unfoldable pub wait_for_drain :
    List Wake → ActiveOperationCounts → Option (Result LifecycleError DrainOutcome)
unfolding total drained_or drained_outcome
wait_for_drain [] active = drained_or active (total active) none
wait_for_drain (elapsed ∷ wakes) active =
    drained_or active (total active) (some (ok (record { drained = false; remaining = active })))
wait_for_drain (woken after true ∷ wakes) active =
    drained_or active (total active) (some (drained_outcome after))
wait_for_drain (woken after false ∷ wakes) active =
    let rest = wait_for_drain wakes after in drained_or active (total active) rest
