-- ===== src/Routing/Cpu/Walk.antt =====
-- The specification of the search of cpu.rs: the walks from an origin along the edges that a packed
-- profile enables, with the distance that binary64 addition accumulates along them.
use path_hydra.Common.{ℕ, ◌≤◌, ◌<◌, ◌≡◌, some, ok, arith}
use path_hydra.Core.Float32.{infinity_bits}
use path_hydra.Core.Weight.{BaseWeight}
use path_hydra.Routing.Float64.{Float64, infinity}
use path_hydra.Routing.Profile.{
  RelationMultiplier, enabled, PackedRelationProfile, relation_use_index,
}
use path_hydra.Routing.Topology.{RoutingTopology, OutgoingEdge, IsLawful}
use path_hydra.Routing.Cpu.{effective_weight, accumulate_distance}

-- Every multiplier of the profile is a canonical pattern, as `RelationMultiplier::new` makes them.
abbrev pub IsCanonical : PackedRelationProfile → Type 0
IsCanonical p =
    (i : ℕ) (m : RelationMultiplier)
    → relation_use_index p i ≡ some (enabled m)
    → m.bits < infinity_bits

module _ (f : Float64) (t : RoutingTopology) (profile : PackedRelationProfile) where
  -- The edge at `adjacency`, as some read gives it, is enabled, leads to `v` and weighs `w`.
  pub record IsEdgeAt (adjacency v w : ℕ) : Type 0 where
    pub clock : ℕ
    pub edge : OutgoingEdge
    pub multiplier : RelationMultiplier
    pub read : t.edge_at adjacency clock ≡ ok (some edge)
    pub used : relation_use_index profile edge.relation_index ≡ some (enabled multiplier)
    pub weighs : effective_weight f edge.base_weight multiplier ≡ ok w
    pub leads : edge.destination ≡ v

  -- One of the outgoing edges of `u` leads to `v` and weighs `w`.
  pub record Edge (u v w : ℕ) : Type 0 where
    pub start : ℕ
    pub end : ℕ
    pub adjacency : ℕ
    pub range : t.outgoing_range u ≡ ok (start, end)
    pub above : start ≤ adjacency
    pub below : adjacency < end
    pub is_edge : IsEdgeAt adjacency v w

  -- A walk from the origin to a node, with its distance.
  pub data Walk (origin : ℕ) : ℕ → ℕ → Type 0 where
    here : {v d : ℕ} → v ≡ origin → d ≡ 0 → Walk origin v d
    step : {u v w d e : ℕ} → Walk origin u d → Edge u v w → e ≡ f.add d w → Walk origin v e

-- A weight that `effective_weight` returns is finite and non-negative.
pub effective_weight-lt :
    (f : Float64) (b : BaseWeight) (m : RelationMultiplier) (w : ℕ)
    → b.bits < infinity_bits
    → m.bits < infinity_bits
    → effective_weight f b m ≡ ok w
    → w < infinity
unfolding effective_weight
effective_weight-lt f b m w hb hm h =
    ground
      (arith, f.widen-lt b.bits, f.widen-lt m.bits, f.multiply-le (f.widen b.bits) (f.widen m.bits))

-- An accumulated distance is the sum, and finite.
pub accumulate_distance-eq :
    (f : Float64) (d w c : ℕ)
    → d ≤ infinity
    → w < infinity
    → accumulate_distance f d w ≡ ok c
    → (c ≡ f.add d w) × (c < infinity)
unfolding accumulate_distance
accumulate_distance-eq f d w c hd hw h = ground (arith, f.add-le d w)

module _ (f : Float64) (t : RoutingTopology) (profile : PackedRelationProfile) (laws : IsLawful t)
    (canonical : IsCanonical profile) where
  pub weight-lt : (a v w : ℕ) (e : IsEdgeAt f t profile a v w) → w < infinity
  weight-lt a v w e =
      effective_weight-lt f e.edge.base_weight e.multiplier w
        (omega (arith, laws.weight_le a e.clock e.edge e.read))
        (canonical e.edge.relation_index e.multiplier e.used) e.weighs

  -- A walk's distance is no NaN.
  pub Walk-le-infinity : {origin v d : ℕ} → Walk f t profile origin v d → d ≤ infinity
  Walk-le-infinity (here p q) = omega arith
  Walk-le-infinity (step {w = w} {d = d} r e q) =
      rw q (f.add-le d w (Walk-le-infinity r) (weight-lt e.adjacency _ w e.is_edge))
