-- ===== src/Routing/Cpu/Invariant.antt =====
-- The invariant of the search loop of cpu.rs: distances are those of walks, the frontier covers what
-- is not final, final nodes have least distances, and their edges are relaxed.
pub mod Cover
pub mod Relax
pub mod Edges
pub mod Scan
pub mod Pop
pub mod Loop
use path_hydra.Common.{subst, ℕ, ◌≤◌, ◌<◌, ◌≡◌, ◌⊎◌, true, false, Bool, Option, some, List, Has, ok}
use path_hydra.Routing.Float64.{Float64, infinity}
use path_hydra.Routing.Profile.{PackedRelationProfile}
use path_hydra.Routing.Topology.{RoutingTopology}
use path_hydra.Routing.Cpu.{Search}
use path_hydra.Routing.Cpu.Frontier.{FrontierEntry}
use path_hydra.Routing.Cpu.Frontier.Order.{IsSorted}
use path_hydra.Routing.Cpu.Walk.{IsEdgeAt, Walk}

abbrev pub entry : ℕ → ℕ → FrontierEntry
entry d v = record { distance = d; node = v }

-- The part of the state that the invariant is about.
pub record View : Type 0 where
  pub distances : ℕ → Option ℕ
  pub finalized : ℕ → Bool
  pub frontier : List FrontierEntry

abbrev pub view : Search → View
view s = record { distances = s.distances; finalized = s.finalized; frontier = s.frontier }

-- The view of `s`, with another frontier.
abbrev pub with_frontier : Search → List FrontierEntry → View
with_frontier s frontier = record {
  distances = s.distances;
  finalized = s.finalized;
  frontier = frontier;
}

module _ (f : Float64) (t : RoutingTopology) (profile : PackedRelationProfile) (origin : ℕ) where
  pub record Inv (s : View) : Type 0 where
    pub sorted : IsSorted s.frontier
    pub source : (d : ℕ) × (s.distances origin ≡ some d) × (d ≤ 0)
    pub sound : (v d : ℕ) → s.distances v ≡ some d → Walk f t profile origin v d
    pub finite : (v d : ℕ) → s.distances v ≡ some d → d < infinity
    pub known : (v : ℕ) → s.finalized v ≡ true → (d : ℕ) × (s.distances v ≡ some d)
    pub queued :
        (v d : ℕ) → s.distances v ≡ some d → s.finalized v ≡ false → Has (entry d v) s.frontier
    pub ordered :
        (v d : ℕ) (e : FrontierEntry)
        → s.finalized v ≡ true
        → s.distances v ≡ some d
        → Has e s.frontier
        → d ≤ e.distance
    pub optimal :
        (v d d' : ℕ)
        → s.finalized v ≡ true
        → s.distances v ≡ some d
        → Walk f t profile origin v d'
        → d ≤ d'

  -- What holds of the distances wherever the search stops.
  pub record Facts (s : View) : Type 0 where
    pub source : (d : ℕ) × (s.distances origin ≡ some d) × (d ≤ 0)
    pub sound : (v d : ℕ) → s.distances v ≡ some d → Walk f t profile origin v d
    pub known : (v : ℕ) → s.finalized v ≡ true → (d : ℕ) × (s.distances v ≡ some d)
    pub optimal :
        (v d d' : ℕ)
        → s.finalized v ≡ true
        → s.distances v ≡ some d
        → Walk f t profile origin v d'
        → d ≤ d'

  -- They do not depend on the frontier.
  pub Facts-of_Inv :
      (x y : View) → x.distances ≡ y.distances → x.finalized ≡ y.finalized → Inv x → Facts y
  Facts-of_Inv x y p q inv =
      let z : View = record {
        distances = x.distances;
        finalized = x.finalized;
        frontier = y.frontier;
      } in
      let e : z ≡ y = λ i. record { distances = p i; finalized = q i; frontier = y.frontier } in
      subst Facts e (record {
        source = inv.source;
        sound = inv.sound;
        known = inv.known;
        optimal = inv.optimal;
      })

  -- The edge at `a`, followed from the distance `d`, promises no smaller distance than is known.
  abbrev pub Relaxed : View → ℕ → ℕ → Type 0
  Relaxed s d a =
      (v w : ℕ) → IsEdgeAt f t profile a v w → (e : ℕ) × (s.distances v ≡ some e) × (e ≤ f.add d w)

  -- The outgoing edges of the final nodes are relaxed, those of `c` from `b` on excepted.
  pub record Settled (c b : ℕ) (s : View) : Type 0 where
    pub at :
        (u d start end a : ℕ)
        → s.finalized u ≡ true
        → s.distances u ≡ some d
        → t.outgoing_range u ≡ ok (start, end)
        → start ≤ a
        → a < end
        → ¬ (u ≡ c) ⊎ (a < b)
        → Relaxed s d a

  -- The outgoing edges of all final nodes are relaxed.
  pub record AllSettled (s : View) : Type 0 where
    pub at :
        (u d start end a : ℕ)
        → s.finalized u ≡ true
        → s.distances u ≡ some d
        → t.outgoing_range u ≡ ok (start, end)
        → start ≤ a
        → a < end
        → Relaxed s d a
