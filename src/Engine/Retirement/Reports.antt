-- ===== src/Engine/Retirement/Reports.antt =====
-- What a snapshot of the retirement says.
use path_hydra.Common.{◌+◌, ◌<◌, ◌≡◌, ◌↔◌, false, arith}
use path_hydra.Core.{u64_bound}
use path_hydra.Engine.Retirement.{RetirementManager, RetirementState, snapshot}
use path_hydra.Engine.Retirement.Limits.{IsWithin, retired_bytes-min}

-- A snapshot says that a limit is exceeded exactly where the bundles are not within both limits, if
-- the limit on bytes is below 2 ^ 64 - 1, where the sum of the bytes saturates.
pub snapshot-IsWithin :
    (manager : RetirementManager) (s : RetirementState)
    → manager.maximum_bytes + 1 < u64_bound
    → ((snapshot manager s).limit_exceeded ≡ false) ↔ IsWithin manager s
unfolding snapshot
snapshot-IsWithin manager s limit =
    let m = retired_bytes-min 0 s.bundles (omega arith) in
    (
      (λ h. record { count = ground (arith, h); bytes = ground (arith, h, m, limit) }),
      λ w. let c = w.count in let b = w.bytes in ground (arith, c, b, m, limit),
    )
