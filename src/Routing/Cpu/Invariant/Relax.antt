-- ===== src/Routing/Cpu/Invariant/Relax.antt =====
-- Relaxing one edge of the current node keeps the invariant, and relaxes that edge.
use path_hydra.Common.{
  ℕ, ◌≤◌, ◌<◌, ◌≡◌, refl, ◌⊎◌, inl, inr, true, false, Option, none, some, arith, ltb, ◌==◌,
  Bool-cases,
}
use path_hydra.Routing.Float64.{Float64, infinity}
use path_hydra.Routing.Profile.{PackedRelationProfile}
use path_hydra.Routing.Topology.{RoutingTopology}
use path_hydra.Routing.Cpu.{Search, Predecessor, update, improve}
use path_hydra.Routing.Cpu.Frontier.{push}
use path_hydra.Routing.Cpu.Frontier.Order.{push-IsSorted, Has-push}
use path_hydra.Routing.Cpu.Walk.{Walk}
use path_hydra.Routing.Cpu.Invariant.{View, view, entry, Inv, Relaxed}

-- What is read after a write was written, or was there.
pub update-cases {ℓ} :
    {A : Type ℓ} (g : ℕ → A) (v u : ℕ) (a b : A)
    → update g v a u ≡ b
    → ((v ≡ u) × (a ≡ b)) ⊎ (g u ≡ b)
update-cases g v u a b h = elim (Bool-cases (v == u)) [
  | inl same ↦ inl (ground arith, rw same at h)
  | inr apart ↦ inr (rw apart at h)
]

abbrev pub lowered : View → ℕ → ℕ → View
lowered x c v = record {
  distances = update x.distances v (some c);
  finalized = x.finalized;
  frontier = push (entry c v) x.frontier;
}

-- What `improve` does to the view.
pub improve-cases :
    (o : Option ℕ) (c v : ℕ) (p : Predecessor) (s : Search)
    → ((view (improve o c v p s) ≡ lowered (view s) c v) × ((d : ℕ) → o ≡ some d → c ≤ d))
      ⊎ ((view (improve o c v p s) ≡ view s) × ((d : ℕ) × (o ≡ some d) × (d ≤ c)))
unfolding improve
improve-cases none c v p s = inl (refl, λ d e. cc)
improve-cases (some d) c v p s = elim (Bool-cases (ltb c d)) [
  | inl less ↦ inl (rw less, λ d' e. ground arith)
  | inr more ↦ elim (Bool-cases (c == d)) [
    | inl same ↦ inr (rw (more, same), (d, refl, ground arith))
    | inr apart ↦ inr (rw (more, apart), (d, refl, ground arith))
  ]
]

module _ (f : Float64) (t : RoutingTopology) (profile : PackedRelationProfile) (origin : ℕ) where
  -- A smaller distance for a node that is not final, not below those of the final nodes.
  pub lowered-Inv :
      (x : View) (c v : ℕ)
      → Inv f t profile origin x
      → x.finalized v ≡ false
      → Walk f t profile origin v c
      → c < infinity
      → ((d : ℕ) → x.distances v ≡ some d → c ≤ d)
      → ((u d : ℕ) → x.finalized u ≡ true → x.distances u ≡ some d → d ≤ c)
      → Inv f t profile origin (lowered x c v)
  lowered-Inv x c v inv fresh walk fin less bound = record {
    sorted = push-IsSorted (entry c v) x.frontier inv.sorted;
    source =
        let (d, k, z) = inv.source in
        elim (Bool-cases (v == origin)) [
          | inl same ↦ (c, rw same refl, ground (arith, less d))
          | inr apart ↦ (d, rw apart k, z)
        ];
    sound = λ u d k. elim (update-cases x.distances v u (some c) (some d) k) [
      | inl (p, q) ↦ let e : c ≡ d = cc in rw (← p, ← e) walk
      | inr old ↦ inv.sound u d old
    ];
    finite = λ u d k. ground (arith, inv.finite u d);
    known = λ u k.
        let (d, old) = inv.known u k in
        elim (Bool-cases (v == u)) [ inl same ↦ (c, rw same) | inr apart ↦ (d, rw apart old) ];
    queued =
        λ u d k open_. ground (arith, Has-push (entry d u) (entry c v) x.frontier, inv.queued u d);
    ordered = λ u d e k kd m.
        ground (arith, Has-push e (entry c v) x.frontier, inv.ordered u d e, bound u d);
    optimal = λ u d d' k kd r. ground (arith, inv.optimal u d d');
  }

  -- A relaxed edge stays relaxed when a distance becomes smaller.
  pub lowered-Relaxed :
      (x : View) (c v d a : ℕ)
      → ((d : ℕ) → x.distances v ≡ some d → c ≤ d)
      → Relaxed f t profile origin x d a
      → Relaxed f t profile origin (lowered x c v) d a
  lowered-Relaxed x c v d a less r u w e =
      let (du, k, h) = r u w e in
      elim (Bool-cases (v == u)) [
        | inl same ↦ (c, rw same, ground (arith, less du))
        | inr apart ↦ (du, rw apart k, h)
      ]
