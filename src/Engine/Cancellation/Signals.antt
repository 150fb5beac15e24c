-- ===== src/Engine/Cancellation/Signals.antt =====
-- Which flags a cancellation raises.
use path_hydra.Common.{
  ℕ, ◌≤◌, ◌≡◌, ◌≢◌, ◌↔◌, ◌⊎◌, inl, inr, refl, ◌==◌, true, false, none, some, [], ◌∷◌, length,
  lookup, Has, Has-of_lookup, arith, Option-cases, Bool-cases,
}
use path_hydra.Engine.Cancellation.{
  RequestId, Registry, Flags, raise, signalled, not_active, signal_flag, cancel, signal_all,
  cancel_all,
}

-- `cancel` of an identity that is not registered changes no flag and says so. Of a registered one, it
-- raises the request's flag and no other, and says that it signalled the request exactly where the
-- flag was down.
pub cancel_lem :
    (active : Registry) (id : RequestId) (flags : Flags)
    → ((lookup active id ≡ none) × (cancel active id flags ≡ (not_active, flags)))
      ⊎ ((flag : ℕ) × (lookup active id ≡ some flag)
          × ((cancel active id flags).1 flag ≡ true)
          × ((other : ℕ) → other ≢ flag → (cancel active id flags).1 other ≡ flags other)
          × (((cancel active id flags).0 ≡ signalled) ↔ (flags flag ≡ false)))
unfolding cancel signal_flag
cancel_lem active id flags = elim (Option-cases (lookup active id)) [
  | inl absent ↦ inl (absent, rw absent refl)
  | inr (flag, present) ↦ inr (
    flag,
    present,
    rw present (ground arith),
    (λ other apart. rw present (ground arith)),
    rw present (ground arith),
  )
]

signal_all-keeps :
    (active : Registry) (flags : Flags) (flag : ℕ)
    → flags flag ≡ true
    → (signal_all active flags).1 flag ≡ true
unfolding signal_all
signal_all-keeps [] flags flag h = h
signal_all-keeps ((_, a) ∷ active) flags flag h =
    signal_all-keeps active (raise flags a) flag (ground arith)

signal_all-raises :
    (active : Registry) (flags : Flags) (id : RequestId) (flag : ℕ)
    → Has (id, flag) active
    → (signal_all active flags).1 flag ≡ true
unfolding signal_all
signal_all-raises [] flags id flag h = absurd h
signal_all-raises ((k, a) ∷ active) flags id flag (inl same) =
    let p : flag ≡ a = cc in signal_all-keeps active (raise flags a) flag (ground arith)
signal_all-raises ((k, a) ∷ active) flags id flag (inr later) =
    signal_all-raises active (raise flags a) id flag later

signal_all-origin :
    (active : Registry) (flags : Flags) (flag : ℕ)
    → (signal_all active flags).1 flag ≡ true
    → (flags flag ≡ true) ⊎ ((id : RequestId) × Has (id, flag) active)
unfolding signal_all
signal_all-origin [] flags flag h = inl h
signal_all-origin ((k, a) ∷ active) flags flag h =
    elim (signal_all-origin active (raise flags a) flag h) [
      | inr (id, later) ↦ inr (id, inr later)
      | inl raised ↦ elim (Bool-cases (a == flag)) [
        | inl here ↦ let p : a ≡ flag = ground arith in inr (k, inl (cc p))
        | inr other ↦ inl (rw other at raised)
      ]
    ]

signal_all-le : (active : Registry) (flags : Flags) → (signal_all active flags).0 ≤ length active
unfolding signal_all
signal_all-le [] flags = omega arith
signal_all-le ((k, a) ∷ active) flags =
    let rest = signal_all-le active (raise flags a) in ground (arith, rest)

-- `cancel_all` raises the flag of every active request, raises no flag that is not one of theirs, and
-- counts no more newly signalled flags than active requests.
pub cancel_all_lem :
    (active : Registry) (flags : Flags)
    → ((id : RequestId) (flag : ℕ)
        → lookup active id ≡ some flag
        → (cancel_all active flags).1 flag ≡ true)
      × ((flag : ℕ)
          → (cancel_all active flags).1 flag ≡ true
          → (flags flag ≡ true) ⊎ ((id : RequestId) × Has (id, flag) active))
      × ((cancel_all active flags).0.newly_signalled ≤ (cancel_all active flags).0.active)
unfolding cancel_all
cancel_all_lem active flags = (
  (λ id flag h. signal_all-raises active flags id flag (Has-of_lookup active id flag h)),
  signal_all-origin active flags,
  signal_all-le active flags,
)
