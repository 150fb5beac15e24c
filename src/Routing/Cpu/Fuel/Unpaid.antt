-- ===== src/Routing/Cpu/Fuel/Unpaid.antt =====
-- How many outgoing edges the nodes have that are not yet final.
use path_hydra.Common.{
  ℕ, zero, suc, ◌+◌, ◌-◌, ◌≤◌, ◌<◌, ◌≡◌, ap, refl, inl, inr, ◌==◌, Bool, true, false, if◌then◌else◌,
  Bool-cases, arith,
}
use path_hydra.Routing.Cpu.{update}

-- The outgoing edges of the nodes below `n` that are not final.
unfoldable pub unpaid : (ℕ → ℕ) → (ℕ → Bool) → ℕ → ℕ
unpaid offset final zero = 0
unpaid offset final (suc n) =
    (if final n then 0 else offset (n + 1) - offset n) + unpaid offset final n

unpaid-outside :
    (offset : ℕ → ℕ) (final : ℕ → Bool) (u n : ℕ)
    → n ≤ u
    → unpaid offset (update final u true) n ≡ unpaid offset final n
unfolding unpaid
unpaid-outside offset final u zero h = refl
unpaid-outside offset final u (suc n) h =
    let rest = unpaid-outside offset final u n (omega arith) in ground (arith, rest)

-- A node that becomes final pays for its edges.
pub unpaid-update :
    (offset : ℕ → ℕ) (final : ℕ → Bool) (u n : ℕ)
    → u < n
    → final u ≡ false
    → unpaid offset (update final u true) n + (offset (u + 1) - offset u) ≡ unpaid offset final n
unfolding unpaid
unpaid-update offset final u zero h open_ = omega arith
unpaid-update offset final u (suc n) h open_ = elim (Bool-cases (u == n)) [
  | inl here ↦
      let p : u ≡ n = ground arith in
      let rest = unpaid-outside offset final u n (omega arith) in
      let a : offset (u + 1) ≡ offset (n + 1) = ap (λ x. offset (x + 1)) p in
      let b : offset u ≡ offset n = ap offset p in
      let c : final u ≡ final n = ap final p in ground (arith, rest)
  | inr other ↦
      let rest = unpaid-update offset final u n (ground arith) open_ in
      rw other (omega (arith, rest))
]

pub unpaid-start :
    (offset : ℕ → ℕ) (n : ℕ)
    → ((u : ℕ) → offset u ≤ offset (u + 1))
    → unpaid offset (λ _. false) n ≤ offset n
unfolding unpaid
unpaid-start offset zero mono = omega arith
unpaid-start offset (suc n) mono =
    let rest = unpaid-start offset n mono in
    let step = mono n in
    let p : offset (n + 1) ≡ offset (suc n) = ap offset (omega arith) in
    omega (arith, rest, step, p)
