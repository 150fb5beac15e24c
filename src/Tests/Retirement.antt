-- ===== src/Tests/Retirement.antt =====
-- Runs of crates/pathhydra-engine/src/retirement.rs with room for one bundle of 64 bytes, and instances
-- of the theorems on them.
use path_hydra.Common.{ℕ, ◌≡◌, refl, ◌↔◌, ◌==◌, true, false, some, [], ◌∷◌, Has, arith}
use path_hydra.Core.{checked_add, saturating_suc}
use path_hydra.Store.Family.{bytes_eq}
use path_hydra.Engine.Retirement
use path_hydra.Engine.Retirement.{
  RetiredBundle, RetirementState, RetirementManager, Deleted, World, initial, reap, retire,
}
use path_hydra.Engine.Retirement.{snapshot}
use path_hydra.Engine.Retirement.Reports.{snapshot-IsWithin}
use path_hydra.Engine.Retirement.Limits.{
  Stays, reap-Stays, IsWithin, retire-IsWithin, retire-returns, sum_of,
}

abbrev manager : RetirementManager
manager = record { root = (114 ∷ []) ∷ []; maximum_count = 1; maximum_bytes = 64 }

abbrev bundle : ℕ → RetiredBundle
bundle n = record { path = (114 ∷ []) ∷ (n ∷ []) ∷ []; bytes = 64; lease = n }

-- The lease of `bundle 1` is held, or none is.
abbrev leased_one : World
leased_one = record { is_leased = λ lease. lease == 1; remove_dir_all = λ path. Deleted.removed }

abbrev free : World
free = record { is_leased = λ lease. false; remove_dir_all = λ path. Deleted.removed }

abbrev with_one : RetirementState
with_one = record initial { bundles = bundle 1 ∷ [] }

abbrev with_two : RetirementState
with_two = record initial { bundles = bundle 2 ∷ []; backpressure_waits = 1 }

reap-Stays_example :
    Has (bundle 1) (reap leased_one with_one).bundles
    ↔ (Has (bundle 1) (bundle 1 ∷ []) × Stays leased_one (bundle 1))
reap-Stays_example = reap-Stays leased_one with_one (bundle 1)

with_one-IsWithin : IsWithin manager with_one
unfolding sum_of
with_one-IsWithin = record { count = omega arith; bytes = omega arith }

-- A round under pressure, and one after the lease is gone.
two_retired : retire manager (leased_one ∷ free ∷ []) (bundle 2) true with_one ≡ some with_two
unfolding retire initial Retirement.retire_loop Retirement.has_room Retirement.is_within
    Retirement.retired_bytes Retirement.saturating_add Retirement.path_eq Retirement.is_exact_child
    Retirement.reap_entries Retirement.after_delete reap bytes_eq checked_add saturating_suc
two_retired = refl

retire-IsWithin_example : IsWithin manager with_two
retire-IsWithin_example =
    retire-IsWithin manager (leased_one ∷ free ∷ []) (bundle 2) with_one with_two (omega arith)
      with_one-IsWithin two_retired

retire-returns_example :
    (end : RetirementState) × (retire manager (leased_one ∷ free ∷ []) (bundle 2) true with_one
      ≡ some end)
retire-returns_example =
    retire-returns manager (leased_one ∷ []) free [] (bundle 2) true with_one
      ((λ lease. refl), λ path. refl) (omega arith) (omega arith) (omega arith)

snapshot-IsWithin_example :
    ((snapshot manager with_two).limit_exceeded ≡ false) ↔ IsWithin manager with_two
snapshot-IsWithin_example = snapshot-IsWithin manager with_two (omega arith)
