-- ===== src/Routing/Cpu/Invariant/Edges.antt =====
-- One round of the loop over the outgoing edges of the current node, once the edge is read.
use path_hydra.Common.{
  ℕ, ◌+◌, ◌≤◌, ◌<◌, ◌≡◌, refl, ap, ◌⊎◌, inl, inr, true, false, some, ok, arith, ltb, ◌==◌,
  Bool-cases, Option-cases, >>=-eq-ok,
}
use path_hydra.Routing.Float64.{Float64, infinity}
use path_hydra.Routing.Profile.{
  PackedRelationProfile, RelationUse, RelationMultiplier, disabled, enabled, relation_use_index,
}
use path_hydra.Routing.Topology.{RoutingTopology, OutgoingEdge, IsLawful}
use path_hydra.Routing.Cpu.{
  Search, Predecessor, update, improve, effective_weight, accumulate_distance, relax_enabled,
  relax_use, relax,
}
use path_hydra.Routing.Cpu.Frontier.{FrontierEntry}
use path_hydra.Routing.Cpu.Walk.{
  IsEdgeAt, Edge, Walk, step, IsCanonical, weight-lt, accumulate_distance-eq,
}
use path_hydra.Routing.Cpu.Invariant.{View, view, Inv, Relaxed, Settled}
use path_hydra.Routing.Cpu.Invariant.Relax.{improve-cases, lowered, lowered-Inv, lowered-Relaxed}

module _ (f : Float64) where
  abbrev pub predecessor_of : FrontierEntry → ℕ → OutgoingEdge → Predecessor
  predecessor_of current a e = record { source = current.node; edge = e.edge_id; adjacency = a }

  -- An enabled edge was skipped, since its end is final, or its end was improved.
  pub record Improved (current : FrontierEntry) (a : ℕ) (e : OutgoingEdge) (m : RelationMultiplier)
      (s s' : Search) : Type 0 where
    pub fresh : s.finalized e.destination ≡ false
    pub weight : ℕ
    pub weighs : effective_weight f e.base_weight m ≡ ok weight
    pub candidate : ℕ
    pub accumulates : accumulate_distance f current.distance weight ≡ ok candidate
    pub result :
        s'
        ≡ improve (s.distances e.destination) candidate e.destination (predecessor_of current a e) s

module _ (f : Float64) (node_count : ℕ) where
  pub relax_enabled-cases :
      (current : FrontierEntry) (a : ℕ) (e : OutgoingEdge) (m : RelationMultiplier) (s s' : Search)
      → relax_enabled f node_count current a e m s ≡ ok s'
      → (s.finalized e.destination ≡ true) × (s' ≡ s) ⊎ Improved f current a e m s s'
  unfolding relax_enabled
  relax_enabled-cases current a e m s s' h = elim (Bool-cases (ltb e.destination node_count)) [
    | inr out ↦ cc (rw out at h)
    | inl in_bounds ↦ elim (Bool-cases (s.finalized e.destination)) [
      | inl done ↦ inl (done, cc (rw (in_bounds, done) at h))
      | inr fresh ↦
          let h' = rw (in_bounds, fresh) at h in
          let (w, weighs, h1) = >>=-eq-ok _ _ h' in
          let (c, acc, h2) = >>=-eq-ok _ _ h1 in
          inr (record {
            fresh = fresh;
            weight = w;
            weighs = weighs;
            candidate = c;
            accumulates = acc;
            result = cc h2;
          })
    ]
  ]

module _ (f : Float64) (t : RoutingTopology) (profile : PackedRelationProfile) (laws : IsLawful t)
    (canonical : IsCanonical profile) (origin start end : ℕ) (current : FrontierEntry)
    (range : t.outgoing_range current.node ≡ ok (start, end)) where
  -- The invariant of the loop: the edges of the current node below `b` are relaxed.
  pub record Scanning (b : ℕ) (x : View) : Type 0 where
    pub inv : Inv f t profile origin x
    pub settled : Settled f t profile origin current.node b x
    pub final : x.finalized current.node ≡ true
    pub here : x.distances current.node ≡ some current.distance
    pub bound : (u d : ℕ) → x.finalized u ≡ true → x.distances u ≡ some d → d ≤ current.distance

  -- Once the edge at `b` is relaxed, the loop stands at the next one.
  advance :
      (b : ℕ) (x : View)
      → Scanning b x
      → Relaxed f t profile origin x current.distance b
      → Scanning (b + 1) x
  advance b x sc r = record {
    inv = sc.inv;
    settled = record {
      at = λ u d s e a fin k ran above below before. elim (Bool-cases (a == b)) [
        | inl same ↦ elim (Bool-cases (u == current.node)) [
          | inl it ↦
              let p : a ≡ b = ground arith in
              let q : u ≡ current.node = ground arith in
              let same_d : d ≡ current.distance = cc (sc.here) in rw (p, same_d) r
          | inr other ↦ sc.settled.at u d s e a fin k ran above below (inl (λ p. ground arith))
        ]
        | inr apart ↦ sc.settled.at u d s e a fin k ran above below (ground arith)
      ];
    };
    final = sc.final;
    here = sc.here;
    bound = sc.bound;
  }

  module _ (a clock : ℕ) (e : OutgoingEdge) (read : t.edge_at a clock ≡ ok (some e)) where
    same_edge : {v w : ℕ} (i : IsEdgeAt f t profile a v w) → i.edge ≡ e
    same_edge i = laws.stable a i.clock clock i.edge e i.read read

    -- An edge of a disabled relation is no edge of the graph.
    disabled-Relaxed :
        (x : View) (d : ℕ)
        → relation_use_index profile e.relation_index ≡ some disabled
        → Relaxed f t profile origin x d a
    disabled-Relaxed x d off v w i = absurd (cc (same_edge i, i.used, off))

    module _ (m : RelationMultiplier)
        (on : relation_use_index profile e.relation_index ≡ some (enabled m)) where
      same_weight :
          {v w : ℕ} (i : IsEdgeAt f t profile a v w) → effective_weight f e.base_weight m ≡ ok w
      same_weight i =
          let p = same_edge i in
          let q : m ≡ i.multiplier = cc (
            on,
            i.used,
            ap (λ (x : OutgoingEdge). relation_use_index profile x.relation_index) p,
          ) in
          rw (q, ← p) i.weighs

      -- The end of the edge is final, at no larger distance than the current node.
      skipped-Relaxed :
          (x : View)
          → Scanning a x
          → x.finalized e.destination ≡ true
          → Relaxed f t profile origin x current.distance a
      skipped-Relaxed x sc fin v w i =
          let (d, k) = sc.inv.known e.destination fin in
          let to_v : e.destination ≡ v =
            cc (i.leads, ap (λ (x : OutgoingEdge). x.destination) (same_edge i)) in
          let le = sc.bound e.destination d fin k in
          let fin_d = sc.inv.finite current.node current.distance sc.here in
          let lt = weight-lt f t profile laws canonical a v w i in
          (d, rw (← to_v) k, omega (arith, le, fin_d, lt, f.le-add current.distance w))

      module _ (s s' : Search) (above : start ≤ a) (below : a < end) (sc : Scanning a (view s))
          (im : Improved f current a e m s s') where
        the_edge : IsEdgeAt f t profile a e.destination im.weight
        the_edge = record {
          clock = clock;
          edge = e;
          multiplier = m;
          read = read;
          used = on;
          weighs = im.weighs;
          leads = refl;
        }

        candidate-eq : (im.candidate ≡ f.add current.distance im.weight) × (im.candidate < infinity)
        candidate-eq =
            let fin = sc.inv.finite current.node current.distance sc.here in
            let lt = weight-lt f t profile laws canonical a e.destination im.weight the_edge in
            accumulate_distance-eq f current.distance im.weight im.candidate (omega arith) lt
              im.accumulates

        candidate-Walk : Walk f t profile origin e.destination im.candidate
        candidate-Walk =
            let edge : Edge f t profile current.node e.destination im.weight = record {
              start = start;
              end = end;
              adjacency = a;
              range = range;
              above = above;
              below = below;
              is_edge = the_edge;
            } in
            step (sc.inv.sound current.node current.distance sc.here) edge candidate-eq.0

        current-le-candidate : current.distance ≤ im.candidate
        current-le-candidate =
            let fin = sc.inv.finite current.node current.distance sc.here in
            let lt = weight-lt f t profile laws canonical a e.destination im.weight the_edge in
            omega (arith, candidate-eq.0, f.le-add current.distance im.weight)

        -- A known distance up to the candidate relaxes the edge.
        improved-Relaxed :
            (x : View) (d : ℕ)
            → x.distances e.destination ≡ some d
            → d ≤ im.candidate
            → Relaxed f t profile origin x current.distance a
        improved-Relaxed x d k le v w i =
            let to_v : e.destination ≡ v =
              cc (i.leads, ap (λ (x : OutgoingEdge). x.destination) (same_edge i)) in
            let q : im.weight ≡ w = cc (im.weighs, same_weight i) in
            (d, rw (← to_v) k, rw (← q) (omega (arith, candidate-eq.0)))

        lowered-Scanning :
            ((d : ℕ) → s.distances e.destination ≡ some d → im.candidate ≤ d)
            → Scanning a (lowered (view s) im.candidate e.destination)
        lowered-Scanning less = record {
          inv =
              lowered-Inv f t profile origin (view s) im.candidate e.destination sc.inv im.fresh
                candidate-Walk candidate-eq.1 less
                (λ u d fin k. omega (arith, current-le-candidate, sc.bound u d fin k));
          settled = record {
            at = λ u d s1 e1 a1 fin k ran ab be out.
                lowered-Relaxed f t profile origin (view s) im.candidate e.destination d a1 less
                  (sc.settled.at u d s1 e1 a1 fin (unchanged u d fin k) ran ab be out);
          };
          final = sc.final;
          here = ground (arith, im.fresh, sc.final, sc.here);
          bound = λ u d fin k. sc.bound u d fin (unchanged u d fin k);
        }
          where
            unchanged :
                (u d : ℕ)
                → s.finalized u ≡ true
                → update s.distances e.destination (some im.candidate) u ≡ some d
                → s.distances u ≡ some d
            unchanged u d fin k = ground (arith, im.fresh)

        -- The end of the edge is improved.
        improved-Scanning : Scanning (a + 1) (view s')
        improved-Scanning =
            rw im.result
              (elim (improve-cases (s.distances e.destination) im.candidate e.destination
                (predecessor_of f current a e) s) [
                  | inl (p, less) ↦ rw p (
                      advance a _ (lowered-Scanning less) (
                        improved-Relaxed (lowered (view s) im.candidate e.destination) im.candidate
                          (ground arith) (omega arith)))
                  | inr (p, (d, k, le)) ↦ rw p (advance a _ sc (improved-Relaxed (view s) d k le))
                ])

    -- One round on the edge `e`, whatever its relation's use is.
    relax_use-Scanning :
        (u : RelationUse) (s s' : Search)
        → relation_use_index profile e.relation_index ≡ some u
        → start ≤ a
        → a < end
        → Scanning a (view s)
        → relax_use f t.node_count current a e u s ≡ ok s'
        → Scanning (a + 1) (view s')
    unfolding relax_use
    relax_use-Scanning disabled s s' off above below sc h =
        let same : s ≡ s' = cc h in
        rw (← same) (advance a (view s) sc (disabled-Relaxed (view s) current.distance off))
    relax_use-Scanning (enabled m) s s' on above below sc h =
        elim (relax_enabled-cases f t.node_count current a e m s s' h) [
          | inl (fin, same) ↦ rw same (advance a (view s) sc (skipped-Relaxed m on (view s) sc fin))
          | inr im ↦ improved-Scanning m on s s' above below sc im
        ]

    pub relax-Scanning :
        (s s' : Search)
        → start ≤ a
        → a < end
        → Scanning a (view s)
        → relax f t.node_count profile current a e s ≡ ok s'
        → Scanning (a + 1) (view s')
    unfolding relax
    relax-Scanning s s' above below sc h =
        elim (Option-cases (relation_use_index profile e.relation_index)) [
          | inl missing ↦ cc (rw missing at h)
          | inr (u, present) ↦ relax_use-Scanning u s s' present above below sc (rw present at h)
        ]
