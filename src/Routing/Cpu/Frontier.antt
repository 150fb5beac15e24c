-- ===== src/Routing/Cpu/Frontier.antt =====
-- The frontier of cpu.rs, a `BinaryHeap` of entries under the reversed order `FrontierEntry::cmp`:
-- `pop` gives an entry of least distance, and among those one of least node. The heap is the list
-- of its entries in the order in which it would pop them.
pub mod Order
use path_hydra.Common.{ℕ, Bool, ltb, ◌==◌, ◌||◌, ◌&&◌, if◌then◌else◌, List, [], ◌∷◌}

pub record FrontierEntry : Type 0 where
  pub distance : ℕ
  pub node : ℕ

-- `FrontierEntry::cmp`, reversed: `a` is popped before `b`.
unfoldable pub pops_before : FrontierEntry → FrontierEntry → Bool
pops_before a b = ltb a.distance b.distance || a.distance == b.distance && ltb a.node b.node

unfoldable pub push : FrontierEntry → List FrontierEntry → List FrontierEntry
unfolding pops_before
push e [] = e ∷ []
push e (x ∷ xs) = if pops_before x e then x ∷ push e xs else e ∷ x ∷ xs

unfoldable pub push_frontier : List FrontierEntry → ℕ → ℕ → List FrontierEntry
unfolding push
push_frontier frontier distance node = push (record { distance = distance; node = node }) frontier
