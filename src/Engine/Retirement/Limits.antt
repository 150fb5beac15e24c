-- ===== src/Engine/Retirement/Limits.antt =====
-- What `reap` removes, and the limits that `retire` keeps.
use path_hydra.Common.{
  ℕ, ◌+◌, ◌-◌, ◌≤◌, ◌<◌, ◌≡◌, refl, sym, subst, ◌↔◌, ◌⊎◌, inl, inr, ltb, Bool, true, false, not,
  ◌||◌, if◌then◌else◌, Option, none, some, List, [], ◌∷◌, ◌++◌, length, length-append, any, Has,
  Bool-cases, arith,
}
use path_hydra.Core.{Bytes, u64_bound, checked_add, saturating_suc}
use path_hydra.Engine.Retirement.{
  PathBuf, RetiredBundle, RetirementState, RetirementManager, Deleted, World, path_eq,
  is_exact_child, saturating_add, retired_bytes, after_delete, reap_entries, reap, is_within,
  has_room, retire_loop, retire,
}

-- An entry stays for a lease, or for a deletion that fails.
abbrev pub Stays : World → RetiredBundle → Type 0
Stays world entry =
    (world.is_leased entry.lease ≡ true)
    ⊎ ((error : Bytes) × (world.remove_dir_all entry.path ≡ Deleted.failed error))

after_delete_iff :
    (d : Deleted) → ((after_delete d).0 ≡ true) ↔ ((error : Bytes) × (d ≡ Deleted.failed error))
unfolding after_delete
after_delete_iff Deleted.removed = ((λ h. absurd (cc h)), λ (error, h). absurd (cc h))
after_delete_iff Deleted.absent = ((λ h. absurd (cc h)), λ (error, h). absurd (cc h))
after_delete_iff (Deleted.failed error) = ((λ h. (error, refl)), λ h. refl)

-- Whether `reap` retains an entry.
abbrev stays : World → RetiredBundle → Bool
stays world entry =
    world.is_leased entry.lease || (after_delete (world.remove_dir_all entry.path)).0

stays_iff : (world : World) (entry : RetiredBundle) → (stays world entry ≡ true) ↔ Stays world entry
stays_iff world entry =
    let failing = after_delete_iff (world.remove_dir_all entry.path) in
    elim (Bool-cases (world.is_leased entry.lease)) [
      | inl leased ↦ ((λ h. inl leased), λ h. rw leased refl)
      | inr free ↦ rw free (
        (λ h. inr (failing.0 h)),
        λ h. elim h [ inl leased ↦ absurd (cc leased) | inr f ↦ failing.1 f ],
      )
    ]

reap_entries-Stays :
    (world : World) (entries : List RetiredBundle) (failure : Option Bytes) (e : RetiredBundle)
    → Has e (reap_entries world entries failure).0 ↔ (Has e entries × Stays world e)
unfolding reap_entries
reap_entries-Stays world [] failure e = ((λ h. absurd h), λ (h, _). absurd h)
reap_entries-Stays world (entry ∷ entries) failure e =
    let answer = after_delete (world.remove_dir_all entry.path) in
    let rest =
      reap_entries-Stays world entries (if world.is_leased entry.lease then failure else answer.1)
        e in
    let here = stays_iff world entry in
    elim (Bool-cases (stays world entry)) [
      | inl kept ↦ rw kept (
        (λ h. elim h [
          | inl same ↦ (inl same, subst (Stays world) (sym same) (here.0 kept))
          | inr later ↦ (inr (rest.0 later).0, (rest.0 later).1)
        ]),
        λ (h, stay). elim h [ inl same ↦ inl same | inr later ↦ inr (rest.1 (later, stay)) ],
      )
      | inr gone ↦ rw gone (
        (λ h. (inr (rest.0 h).0, (rest.0 h).1)),
        λ (h, stay). elim h [
          | inl same ↦ absurd (cc (here.1 (subst (Stays world) same stay), gone))
          | inr later ↦ rest.1 (later, stay)
        ],
      )
    ]

-- An entry stays in the manager over a call of `reap` exactly where a lease on it is left or the
-- deletion of its directory fails.
pub reap-Stays :
    (world : World) (s : RetirementState) (e : RetiredBundle)
    → Has e (reap world s).bundles ↔ (Has e s.bundles × Stays world e)
unfolding reap
reap-Stays world s e = reap_entries-Stays world s.bundles s.last_cleanup_failure e

-- The bytes of all the bundles, without a bound.
unfoldable pub sum_of : List RetiredBundle → ℕ
sum_of [] = 0
sum_of (entry ∷ entries) = entry.bytes + sum_of entries

pub retired_bytes-min :
    (sum : ℕ) (entries : List RetiredBundle)
    → sum < u64_bound
    → retired_bytes sum entries
      ≡ (if ltb (sum + sum_of entries) u64_bound then sum + sum_of entries else u64_bound - 1)
unfolding retired_bytes sum_of saturating_add
retired_bytes-min sum [] h = ground arith
retired_bytes-min sum (entry ∷ entries) h = elim (Bool-cases (ltb (sum + entry.bytes) u64_bound)) [
  | inl fits ↦
      let rest = retired_bytes-min (sum + entry.bytes) entries (ground (arith, fits)) in
      rw fits (ground (arith, rest))
  | inr over ↦
      let rest = retired_bytes-min (u64_bound - 1) entries (omega arith) in
      rw over (ground (arith, rest, over))
]

reap_entries-shrinks :
    (world : World) (entries : List RetiredBundle) (failure : Option Bytes)
    → (length (reap_entries world entries failure).0 ≤ length entries)
      × (sum_of (reap_entries world entries failure).0 ≤ sum_of entries)
unfolding reap_entries sum_of
reap_entries-shrinks world [] failure = (omega arith, omega arith)
reap_entries-shrinks world (entry ∷ entries) failure =
    let answer = after_delete (world.remove_dir_all entry.path) in
    let (count, bytes) =
      reap_entries-shrinks world entries
        (if world.is_leased entry.lease then failure else answer.1) in
    elim (Bool-cases (stays world entry)) [
      | inl kept ↦ rw kept (omega (arith, count), omega (arith, bytes))
      | inr gone ↦ rw gone (omega (arith, count), omega (arith, bytes))
    ]

-- The manager is within its limits.
pub record IsWithin (manager : RetirementManager) (s : RetirementState) : Type 0 where
  pub count : length s.bundles ≤ manager.maximum_count
  pub bytes : sum_of s.bundles ≤ manager.maximum_bytes

pub reap-IsWithin :
    (manager : RetirementManager) (world : World) (s : RetirementState)
    → IsWithin manager s
    → IsWithin manager (reap world s)
unfolding reap
reap-IsWithin manager world s w =
    let (count, bytes) = reap_entries-shrinks world s.bundles s.last_cleanup_failure in
    record { count = omega (arith, count, w.count); bytes = omega (arith, bytes, w.bytes) }

sum_of-append : (ks ls : List RetiredBundle) → sum_of (ks ++ ls) ≡ sum_of ks + sum_of ls
unfolding sum_of
sum_of-append [] ls = omega arith
sum_of-append (k ∷ ks) ls = omega (arith, sum_of-append ks ls)

-- The test finds room exactly where one more bundle stays within the limits.
pub has_room-IsWithin :
    (manager : RetirementManager) (bundles : List RetiredBundle) (bytes : ℕ)
    → manager.maximum_bytes < u64_bound
    → sum_of bundles < u64_bound
    → (has_room manager bundles bytes ≡ true) ↔ (
        (length bundles < manager.maximum_count) × (sum_of bundles + bytes ≤ manager.maximum_bytes))
unfolding has_room is_within checked_add
has_room-IsWithin manager bundles bytes limit h =
    let m = retired_bytes-min 0 bundles (omega arith) in
    let all_counted : retired_bytes 0 bundles ≡ sum_of bundles = ground (arith, m) in
    rw all_counted (ground arith)

retire_loop-IsWithin :
    (manager : RetirementManager) (worlds : List World) (bundle : RetiredBundle)
    (s end : RetirementState)
    → manager.maximum_bytes < u64_bound
    → IsWithin manager s
    → retire_loop manager worlds bundle true s ≡ some end
    → IsWithin manager end
unfolding retire_loop sum_of
retire_loop-IsWithin manager [] bundle s end m w h = absurd (cc h)
retire_loop-IsWithin manager (world ∷ worlds) bundle s end m w h =
    let reaped : RetirementState = reap world s in
    let within = reap-IsWithin manager world s w in
    let next : RetirementState = record reaped {
      backpressure_waits = saturating_suc reaped.backpressure_waits;
    } in
    elim (Bool-cases (any (λ entry. path_eq entry.path bundle.path) reaped.bundles)) [
      | inl known ↦ let p : reaped ≡ end = cc (rw known at h) in subst (IsWithin manager) p within
      | inr new ↦ elim (Bool-cases (has_room manager reaped.bundles bundle.bytes)) [
        | inl room ↦
            let (count, bytes) =
              (has_room-IsWithin manager reaped.bundles bundle.bytes m
                  (omega (arith, m, within.bytes))).0
                room in
            let longer = length-append reaped.bundles (bundle ∷ []) in
            let more = sum_of-append reaped.bundles (bundle ∷ []) in
            let p : record reaped { bundles = reaped.bundles ++ bundle ∷ [] } ≡ end =
              cc (rw (new, room) at h) in
            subst (IsWithin manager) p
              (record { count = omega (arith, longer, count); bytes = omega (arith, more, bytes) })
        | inr full ↦
            retire_loop-IsWithin manager worlds bundle next end m
              (record { count = within.count; bytes = within.bytes }) (rw (new, full) at h)
      ]
    ]

-- With its limits enforced, a bundle is retired only into a manager that is then within its limits:
-- where the limit on bytes is a `u64` and the manager was within its limits, it is so at the return.
pub retire-IsWithin :
    (manager : RetirementManager) (worlds : List World) (bundle : RetiredBundle)
    (s end : RetirementState)
    → manager.maximum_bytes < u64_bound
    → IsWithin manager s
    → retire manager worlds bundle true s ≡ some end
    → IsWithin manager end
unfolding retire
retire-IsWithin manager worlds bundle s end m w h =
    elim (Bool-cases (is_exact_child manager.root bundle.path)) [
      | inl child ↦ retire_loop-IsWithin manager worlds bundle s end m w (rw child at h)
      | inr other ↦ let p : s ≡ end = cc (rw other at h) in subst (IsWithin manager) p w
    ]

-- No lease is left, and every directory can be deleted.
abbrev pub IsFree : World → Type 0
IsFree world =
    ((lease : ℕ) → world.is_leased lease ≡ false)
    × ((path : PathBuf) → world.remove_dir_all path ≡ Deleted.removed)

reap_entries-IsFree :
    (world : World) (entries : List RetiredBundle) (failure : Option Bytes)
    → IsFree world
    → (reap_entries world entries failure).0 ≡ []
unfolding reap_entries after_delete
reap_entries-IsFree world [] failure f = refl
reap_entries-IsFree world (entry ∷ entries) failure (leases, deletes) =
    rw (leases entry.lease, deletes entry.path)
      (reap_entries-IsFree world entries none (leases, deletes))

-- A round of the loop that meets no lease and no failing deletion is the last.
retire_loop-IsFree :
    (manager : RetirementManager) (world : World) (worlds : List World) (bundle : RetiredBundle)
    (enforce_limits : Bool) (s : RetirementState)
    → IsFree world
    → has_room manager [] bundle.bytes ≡ true
    → (end : RetirementState) × (retire_loop manager (world ∷ worlds) bundle enforce_limits s
        ≡ some end)
unfolding retire_loop reap
retire_loop-IsFree manager world worlds bundle enforce_limits s f room =
    let gone = reap_entries-IsFree world s.bundles s.last_cleanup_failure f in
    rw (gone, room) (_, refl)

-- Rounds before the last end the loop, or lead to it.
retire_loop-returns :
    (manager : RetirementManager) (before : List World) (world : World) (worlds : List World)
    (bundle : RetiredBundle) (enforce_limits : Bool) (s : RetirementState)
    → IsFree world
    → has_room manager [] bundle.bytes ≡ true
    → (end : RetirementState) × (retire_loop manager
          (before ++ world ∷ worlds)
          bundle
          enforce_limits
          s
        ≡ some end)
unfolding retire_loop
retire_loop-returns manager [] world worlds bundle enforce_limits s f room =
    retire_loop-IsFree manager world worlds bundle enforce_limits s f room
retire_loop-returns manager (first ∷ before) world worlds bundle enforce_limits s f room =
    let reaped : RetirementState = reap first s in
    elim (Bool-cases (any (λ entry. path_eq entry.path bundle.path) reaped.bundles)) [
      | inl known ↦ rw known (_, refl)
      | inr new ↦
          elim (Bool-cases (has_room manager reaped.bundles bundle.bytes || not enforce_limits)) [
            | inl room_now ↦ rw (new, room_now) (_, refl)
            | inr full ↦
                rw (new, full)
                  (retire_loop-returns manager before world worlds bundle enforce_limits
                    (record reaped {
                      backpressure_waits = saturating_suc reaped.backpressure_waits;
                    })
                    f room)
          ]
    ]

-- After any rounds whatever that `retire` waits, it returns at the latest in the first round that
-- finds every lease gone and every directory deleted, if the limits, with the bytes below 2 ^ 64, have
-- room for the bundle alone. The state is that of the round before: no other call changes it between.
pub retire-returns :
    (manager : RetirementManager) (before : List World) (world : World) (worlds : List World)
    (bundle : RetiredBundle) (enforce_limits : Bool) (s : RetirementState)
    → IsFree world
    → 0 < manager.maximum_count
    → bundle.bytes ≤ manager.maximum_bytes
    → manager.maximum_bytes < u64_bound
    → (end : RetirementState) × (retire manager (before ++ world ∷ worlds) bundle enforce_limits s
        ≡ some end)
unfolding retire sum_of
retire-returns manager before world worlds bundle enforce_limits s f count bytes limit =
    let room =
      (has_room-IsWithin manager [] bundle.bytes limit (omega arith)).1
        (omega (arith, count), omega (arith, bytes)) in
    elim (Bool-cases (is_exact_child manager.root bundle.path)) [
      | inl child ↦
          rw child (retire_loop-returns manager before world worlds bundle enforce_limits s f room)
      | inr other ↦ rw other (_, refl)
    ]
