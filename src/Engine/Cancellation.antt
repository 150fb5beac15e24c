-- ===== src/Engine/Cancellation.antt =====
-- crates/pathhydra-engine/src/cancellation.rs: the registry of the active requests. A flag is shared
-- between the registry and the request's search, so a request is registered with the address of its
-- flag, and the flags are a store. The map's order is not observed, so the `HashMap` is kept in the
-- order of its keys. Each operation holds the registry's mutex; a poisoned lock is not modelled.
pub mod Signals
use path_hydra.Common.{
  ℕ, ◌+◌, Bool, true, false, not, ◌==◌, if◌then◌else◌, Option, none, some, List, [], ◌∷◌, length,
  lookup, insert, retain, Result, ok, err,
}

abbrev pub RequestId : Type 0
RequestId = ℕ

pub data CancellationOutcome : Type 0 where
  signalled already_signalled not_active : CancellationOutcome

pub record CancelAllOutcome : Type 0 where
  pub active : ℕ
  pub newly_signalled : ℕ

pub data RegistryError : Type 0 where
  duplicate_active_request : RequestId → RegistryError

abbrev pub Registry : Type 0
Registry = List (RequestId × ℕ)

abbrev pub Flags : Type 0
Flags = ℕ → Bool

-- The store after `flag.swap(true)`, which returns the flag's old value.
abbrev pub raise : Flags → ℕ → Flags
raise flags flag other = if flag == other then true else flags other

register_absent : Registry → RequestId → ℕ → Option ℕ → Result RegistryError Registry
register_absent active id flag none = ok (insert active id flag)
register_absent active id flag (some _) = err (duplicate_active_request id)

unfoldable pub register_flag : Registry → RequestId → ℕ → Result RegistryError Registry
unfolding register_absent
register_flag active id flag = register_absent active id flag (lookup active id)

signal_flag : Option ℕ → Flags → CancellationOutcome × Flags
signal_flag none flags = (not_active, flags)
signal_flag (some flag) flags =
    (if flags flag then already_signalled else signalled, raise flags flag)

unfoldable pub cancel : Registry → RequestId → Flags → CancellationOutcome × Flags
unfolding signal_flag
cancel active id flags = signal_flag (lookup active id) flags

-- `values().filter(|flag| !flag.swap(true)).count()`
unfoldable pub signal_all : Registry → Flags → ℕ × Flags
signal_all [] flags = (0, flags)
signal_all ((_, flag) ∷ active) flags =
    let (newly, after) = signal_all active (raise flags flag) in
    ((if flags flag then 0 else 1) + newly, after)

unfoldable pub cancel_all : Registry → Flags → CancelAllOutcome × Flags
cancel_all active flags =
    let (newly, after) = signal_all active flags in
    (record { active = length active; newly_signalled = newly }, after)

-- The drop of a `RequestRegistration`.
unfoldable pub drop_registration : Registry → RequestId → Registry
drop_registration active id = retain (λ k _. not (k == id)) active
