-- ===== src/Routing/Cpu/Invariant/Pop.antt =====
-- Popping the frontier: a stale entry is dropped, and a current one makes its node final.
use path_hydra.Common.{
  ℕ, ◌≤◌, ◌≡◌, refl, ap, ◌⊎◌, inl, inr, true, false, some, List, ◌∷◌, ok, arith,
}
use path_hydra.Routing.Float64.{Float64}
use path_hydra.Routing.Profile.{PackedRelationProfile}
use path_hydra.Routing.Topology.{RoutingTopology, IsLawful}
use path_hydra.Routing.Cpu.{Search, update, is_stale}
use path_hydra.Routing.Cpu.Frontier.{FrontierEntry}
use path_hydra.Routing.Cpu.Frontier.Order.{le_of_Has}
use path_hydra.Routing.Cpu.Walk.{Walk, IsCanonical}
use path_hydra.Routing.Cpu.Invariant.{with_frontier, View, Inv, AllSettled}
use path_hydra.Routing.Cpu.Invariant.Cover.{covered}
use path_hydra.Routing.Cpu.Invariant.Edges.{Scanning}

-- A current entry: its node is not final, and its distance is the node's.
pub fresh_of_not_stale :
    (current : FrontierEntry) (s : Search)
    → is_stale current s ≡ false
    → (s.finalized current.node ≡ false) × (s.distances current.node ≡ some current.distance)
unfolding is_stale
fresh_of_not_stale current s h = ground arith

module _ (f : Float64) (t : RoutingTopology) (profile : PackedRelationProfile) (laws : IsLawful t)
    (canonical : IsCanonical profile) (origin : ℕ) (s : Search) (current : FrontierEntry)
    (rest : List FrontierEntry) where
  -- The state before the entry was popped, of which `s` is the state after.
  abbrev before : View
  before = with_frontier s (current ∷ rest)

  module _ (inv : Inv f t profile origin before) (all : AllSettled f t profile origin before) where
    pub dropped-Inv : is_stale current s ≡ true → Inv f t profile origin (with_frontier s rest)
    unfolding is_stale
    dropped-Inv stale = record {
      sorted = inv.sorted.1;
      source = inv.source;
      sound = inv.sound;
      finite = inv.finite;
      known = inv.known;
      queued = λ v d k open_. elim (inv.queued v d k open_) [
        | inl same ↦
            let p : v ≡ current.node = ap (λ (e : FrontierEntry). e.node) same in
            let q : d ≡ current.distance = ap (λ (e : FrontierEntry). e.distance) same in
            absurd (ground (arith, ap s.distances p, ap s.finalized p))
        | inr m ↦ m
      ];
      ordered = λ v d e fin k m. inv.ordered v d e fin k (inr m);
      optimal = inv.optimal;
    }

    module _ (fresh : s.finalized current.node ≡ false)
        (here : s.distances current.node ≡ some current.distance) where
      -- The node of the popped entry has its least distance.
      popped_optimal : (d' : ℕ) → Walk f t profile origin current.node d' → current.distance ≤ d'
      popped_optimal d' w = elim (covered f t profile laws canonical origin before inv all w) [
        | inl (d, fin, k, h) ↦ absurd (cc (fresh, fin))
        | inr (e, m, h) ↦ elim m [
          | inl same ↦ omega (arith, ap (λ (e : FrontierEntry). e.distance) same)
          | inr later ↦ omega (arith, le_of_Has current.distance rest e inv.sorted.0 later)
        ]
      ]

      abbrev pub finalized_view : View
      finalized_view = record {
        distances = s.distances;
        finalized = update s.finalized current.node true;
        frontier = rest;
      }

      finalized-cases :
          (u : ℕ)
          → update s.finalized current.node true u ≡ true
          → (u ≡ current.node) ⊎ (s.finalized u ≡ true)
      finalized-cases u h = ground arith

      pub finalized-Inv : Inv f t profile origin finalized_view
      finalized-Inv = record {
        sorted = inv.sorted.1;
        source = inv.source;
        sound = inv.sound;
        finite = inv.finite;
        known = λ u fin. elim (finalized-cases u fin) [
          | inl same ↦ (current.distance, rw same here)
          | inr old ↦ inv.known u old
        ];
        queued = λ v d k open_.
            let still : s.finalized v ≡ false = ground arith in
            elim (inv.queued v d k still) [
              | inl same ↦
                  let p : v ≡ current.node = ap (λ (e : FrontierEntry). e.node) same in
                  absurd (ground arith)
              | inr m ↦ m
            ];
        ordered = λ v d e fin k m. elim (finalized-cases v fin) [
          | inl same ↦
              let q : d ≡ current.distance = cc (here, k, ap s.distances same) in
              omega (arith, le_of_Has current.distance rest e inv.sorted.0 m)
          | inr old ↦ inv.ordered v d e old k (inr m)
        ];
        optimal = λ v d d' fin k w. elim (finalized-cases v fin) [
          | inl same ↦
              let q : d ≡ current.distance = cc (here, k, ap s.distances same) in
              rw q (popped_optimal d' (rw same at w))
          | inr old ↦ inv.optimal v d d' old k w
        ];
      }

      pub finalized-Scanning :
          (start end : ℕ) (range : t.outgoing_range current.node ≡ ok (start, end))
          → Scanning f t profile laws canonical origin start end current range start finalized_view
      finalized-Scanning start end range = record {
        inv = finalized-Inv;
        settled = record {
          at = λ u d s1 e1 a fin k ran above below out. elim out [
            | inl other ↦ elim (finalized-cases u fin) [
              | inl same ↦ absurd (other same)
              | inr old ↦ all.at u d s1 e1 a old k ran above below
            ]
            | inr low ↦ elim (finalized-cases u fin) [
              | inl same ↦
                  let p : s1 ≡ start = cc (range, ran, ap t.outgoing_range same) in
                  absurd (omega arith)
              | inr old ↦ all.at u d s1 e1 a old k ran above below
            ]
          ];
        };
        final = ground arith;
        here = here;
        bound = λ u d fin k. elim (finalized-cases u fin) [
          | inl same ↦
              let q : d ≡ current.distance = cc (here, k, ap s.distances same) in omega arith
          | inr old ↦ inv.ordered u d current old k (inl refl)
        ];
      }
