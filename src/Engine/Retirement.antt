-- ===== src/Engine/Retirement.antt =====
-- crates/pathhydra-engine/src/retirement.rs: the directories of old bundles, which go once no lease on
-- them is left. A path is its components. Leases and the file system are arguments: what they answer
-- during one call of `reap`. Durations are left out, and a poisoned lock is not modelled. A call of `retire` that
-- waits gives the lock away while it sleeps: that other calls may then change the state is not
-- represented.
pub mod Limits
pub mod Reports
use path_hydra.Common.{
  ℕ, suc, ◌+◌, ◌-◌, Bool, true, false, not, ltb, leb, ◌==◌, ◌&&◌, ◌||◌, if◌then◌else◌, Option, none,
  some, List, [], ◌∷◌, ◌++◌, length, any,
}
use path_hydra.Core.{Bytes, u64_bound, checked_add, saturating_suc}
use path_hydra.Store.Family.{bytes_eq}

abbrev pub PathBuf : Type 0
PathBuf = List Bytes

pub record RetiredBundle : Type 0 where
  pub path : PathBuf
  pub bytes : ℕ
  pub lease : ℕ

pub record RetirementState : Type 0 where
  pub bundles : List RetiredBundle
  pub last_cleanup_failure : Option Bytes
  pub backpressure_waits : ℕ

-- The limits of a `RetirementManager` and its root; its state is passed along.
pub record RetirementManager : Type 0 where
  pub root : PathBuf
  pub maximum_count : ℕ
  pub maximum_bytes : ℕ

-- What `fs::remove_dir_all` answers.
pub data Deleted : Type 0 where
  removed absent : Deleted
  failed : Bytes → Deleted

-- What a call of `reap` meets: the leases that are held, and the file system.
pub record World : Type 0 where
  pub is_leased : ℕ → Bool
  pub remove_dir_all : PathBuf → Deleted

unfoldable pub initial : RetirementState
initial = record { bundles = []; last_cleanup_failure = none; backpressure_waits = 0 }

unfoldable pub path_eq : PathBuf → PathBuf → Bool
path_eq [] [] = true
path_eq [] (_ ∷ _) = false
path_eq (_ ∷ _) [] = false
path_eq (x ∷ xs) (y ∷ ys) = bytes_eq x y && path_eq xs ys

-- The one component of `path` below `root` is a name, and not `..`.
unfoldable pub is_exact_child : PathBuf → PathBuf → Bool
is_exact_child [] (name ∷ []) = not (bytes_eq name (46 ∷ 46 ∷ []))
is_exact_child [] [] = false
is_exact_child [] (_ ∷ _ ∷ _) = false
is_exact_child (_ ∷ _) [] = false
is_exact_child (x ∷ root) (y ∷ path) = bytes_eq x y && is_exact_child root path

unfoldable pub saturating_add : ℕ → ℕ → ℕ
saturating_add a b = if ltb (a + b) u64_bound then a + b else u64_bound - 1

unfoldable pub retired_bytes : ℕ → List RetiredBundle → ℕ
unfolding saturating_add
retired_bytes sum [] = sum
retired_bytes sum (entry ∷ entries) = retired_bytes (saturating_add sum entry.bytes) entries

-- The outcome for an entry without a lease: whether it stays, and the failure that is then the last.
unfoldable pub after_delete : Deleted → Bool × Option Bytes
after_delete removed = (false, none)
after_delete absent = (false, none)
after_delete (failed error) = (true, some error)

-- The loop of `reap`: the entries that are retained, and the last failure.
unfoldable pub reap_entries :
    World → List RetiredBundle → Option Bytes → List RetiredBundle × Option Bytes
unfolding after_delete
reap_entries world [] failure = ([], failure)
reap_entries world (entry ∷ entries) failure =
    let answer = after_delete (world.remove_dir_all entry.path) in
    let leased = world.is_leased entry.lease in
    let rest = reap_entries world entries (if leased then failure else answer.1) in
    (if leased || answer.0 then entry ∷ rest.0 else rest.0, rest.1)

unfoldable pub reap : World → RetirementState → RetirementState
unfolding reap_entries
reap world s =
    let (retained, failure) = reap_entries world s.bundles s.last_cleanup_failure in
    record s { bundles = retained; last_cleanup_failure = failure }

unfoldable pub is_within : Option ℕ → ℕ → Bool
is_within none limit = false
is_within (some total) limit = leb total limit

module _ (manager : RetirementManager) where
  -- The test that `retire` and `capacity_available` make.
  unfoldable pub has_room : List RetiredBundle → ℕ → Bool
  unfolding retired_bytes is_within checked_add
  has_room bundles bytes =
      ltb (length bundles) manager.maximum_count
      && is_within (checked_add (retired_bytes 0 bundles) bytes) manager.maximum_bytes

  unfoldable pub capacity_available : World → ℕ → RetirementState → Bool × RetirementState
  unfolding reap has_room
  capacity_available world additional_bytes s =
      let reaped = reap world s in (has_room reaped.bundles additional_bytes, reaped)

  -- The loop of `retire`, along what each of its rounds meets; `none` still waits. A round starts in
  -- the state that the round before left: what other calls do while this one sleeps is left out.
  unfoldable pub retire_loop :
      List World → RetiredBundle → Bool → RetirementState → Option RetirementState
  unfolding reap has_room path_eq
  retire_loop [] bundle enforce_limits s = none
  retire_loop (world ∷ worlds) bundle enforce_limits s =
      let reaped = reap world s in
      let waited =
        retire_loop worlds bundle enforce_limits
          (record reaped { backpressure_waits = saturating_suc reaped.backpressure_waits }) in
      if any (λ entry. path_eq entry.path bundle.path) reaped.bundles
      then some reaped
      else if has_room reaped.bundles bundle.bytes || not enforce_limits
      then some (record reaped { bundles = reaped.bundles ++ bundle ∷ [] })
      else waited

  unfoldable pub retire :
      List World → RetiredBundle → Bool → RetirementState → Option RetirementState
  unfolding is_exact_child retire_loop
  retire worlds bundle enforce_limits s =
      if is_exact_child manager.root bundle.path
      then retire_loop worlds bundle enforce_limits s
      else some s

-- The wait that a caller reports, but for its duration.
unfoldable pub record_backpressure_wait : RetirementState → RetirementState
record_backpressure_wait s = record s { backpressure_waits = saturating_suc s.backpressure_waits }

pub record RetirementSnapshot : Type 0 where
  pub bundle_count : ℕ
  pub bundle_bytes : ℕ
  pub maximum_bundle_count : ℕ
  pub maximum_bundle_bytes : ℕ
  pub limit_exceeded : Bool
  pub last_cleanup_failure : Option Bytes
  pub cumulative_backpressure_waits : ℕ

unfoldable pub snapshot : RetirementManager → RetirementState → RetirementSnapshot
unfolding retired_bytes
snapshot manager s = record {
  bundle_count = length s.bundles;
  bundle_bytes = retired_bytes 0 s.bundles;
  maximum_bundle_count = manager.maximum_count;
  maximum_bundle_bytes = manager.maximum_bytes;
  limit_exceeded =
      ltb manager.maximum_count (length s.bundles)
      || ltb manager.maximum_bytes (retired_bytes 0 s.bundles);
  last_cleanup_failure = s.last_cleanup_failure;
  cumulative_backpressure_waits = s.backpressure_waits;
}
