-- ===== src/Routing/Cpu/Invariant/Cover.antt =====
-- Every walk ends in a final node of no larger distance, or passes the frontier at no larger one.
use path_hydra.Common.{ℕ, ◌≤◌, ◌≡◌, ◌⊎◌, inl, inr, true, some, Has, arith, Bool-cases}
use path_hydra.Routing.Float64.{Float64}
use path_hydra.Routing.Profile.{PackedRelationProfile}
use path_hydra.Routing.Topology.{RoutingTopology, IsLawful}
use path_hydra.Routing.Cpu.Frontier.{FrontierEntry}
use path_hydra.Routing.Cpu.Walk.{Walk, here, step, IsCanonical, weight-lt, Walk-le-infinity}
use path_hydra.Routing.Cpu.Invariant.{View, entry, Inv, AllSettled}

module _ (f : Float64) (t : RoutingTopology) (profile : PackedRelationProfile) (laws : IsLawful t)
    (canonical : IsCanonical profile) (origin : ℕ) where
  abbrev pub Covered : View → ℕ → ℕ → Type 0
  Covered s v d' =
      ((d : ℕ) × (s.finalized v ≡ true) × (s.distances v ≡ some d) × (d ≤ d'))
      ⊎ ((e : FrontierEntry) × Has e s.frontier × (e.distance ≤ d'))

  -- A node with a known distance is covered at every larger one.
  known-Covered :
      (s : View) (v d d' : ℕ)
      → Inv f t profile origin s
      → s.distances v ≡ some d
      → d ≤ d'
      → Covered s v d'
  known-Covered s v d d' inv k h = elim (Bool-cases (s.finalized v)) [
    | inl done ↦ inl (d, done, k, h)
    | inr open_ ↦ inr (entry d v, inv.queued v d k open_, h)
  ]

  pub covered :
      (s : View) {v d' : ℕ}
      → Inv f t profile origin s
      → AllSettled f t profile origin s
      → Walk f t profile origin v d'
      → Covered s v d'
  covered s inv all (here {v} {d} p q) =
      let (d0, k, z) = inv.source in known-Covered s v d0 d inv (rw p k) (omega arith)
  covered s inv all (step {u} {v} {w} {d} {e} r edge q) = elim (covered s inv all r) [
    | inl (du, done, k, h) ↦
        let (dv, kv, hv) =
          all.at u du edge.start edge.end edge.adjacency done k edge.range edge.above edge.below v w
            edge.is_edge in
        known-Covered s v dv e inv kv (
          omega (
            arith,
            hv,
            q,
            f.add_mono du d w h (Walk-le-infinity f t profile laws canonical r)
                (weight-lt f t profile laws canonical edge.adjacency v w edge.is_edge),
          ))
    | inr (x, m, h) ↦ inr (
      x,
      m,
      omega (
        arith,
        h,
        q,
        f.le-add d w (Walk-le-infinity f t profile laws canonical r)
            (weight-lt f t profile laws canonical edge.adjacency v w edge.is_edge),
      ),
    )
  ]
