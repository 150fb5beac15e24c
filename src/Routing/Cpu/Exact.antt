-- ===== src/Routing/Cpu/Exact.antt =====
-- What `route_topology_controlled` promises of each result.
use path_hydra.Common.{
  false, ℕ, suc, ◌≤◌, ◌≡◌, refl, ap, inl, inr, Bool, true, ◌||◌, some, ok, arith, ◌==◌, Bool-cases,
  Option-cases, >>=-eq-ok,
}
use path_hydra.Routing.Float64.{Float64}
use path_hydra.Routing.Profile.{PackedRelationProfile}
use path_hydra.Routing.Request.{CompletionReason, RoutingRequest, DestinationState, ExactRoute}
use path_hydra.Routing.Topology.{RoutingTopology, IsLawful}
use path_hydra.Routing.Cpu.{Search, polled}
use path_hydra.Routing.Cpu.Walk.{Walk, here, IsCanonical}
use path_hydra.Routing.Cpu.Route.{is_cut_short, Tally, start, run_search, classify, trace_requested}
use path_hydra.Routing.Cpu.Invariant.{view, Facts-of_Inv}
use path_hydra.Routing.Cpu.Invariant.Scan.{Ended, Going}
use path_hydra.Routing.Cpu.Invariant.Loop.{search-Ended}

module _ (f : Float64) (t : RoutingTopology) (signal : ℕ → Bool) (request : RoutingRequest)
    (profile : PackedRelationProfile) (laws : IsLawful t) (canonical : IsCanonical profile)
    (origin : ℕ) where
  -- Only the origin is known, at distance 0, and it is the one entry of the frontier.
  start-Going :
      (paths : Bool) (pending : ℕ → Bool) (n : ℕ)
      → Going f t profile origin (polled (start origin paths pending n))
  unfolding start polled
  start-Going paths pending n = record {
    inv = record {
      sorted = (tt, tt);
      source = (0, ground arith, omega arith);
      sound = λ v d k. here (ground arith) (ground arith);
      finite = λ v d k. ground arith;
      known = λ v fin. absurd (cc fin);
      queued = λ v d k open_. inl (ground arith);
      ordered = λ v d e fin k m. absurd (cc fin);
      optimal = λ v d d' fin k w. absurd (cc fin);
    };
    settled = record { at = λ u d s e a fin k r above below. absurd (cc fin) };
  }

  pub run_search-Ended :
      (paths : Bool) (pending : ℕ → Bool) (n : ℕ) (reason : CompletionReason) (s : Search)
      → run_search f t signal request profile (start origin paths pending n) ≡ ok (reason, s)
      → Ended f t profile origin reason s
  unfolding run_search start
  run_search-Ended paths pending n reason s h = elim (Bool-cases (signal 0)) [
    | inl seen ↦
        let g = start-Going paths pending n in
        let e = rw seen at h in
        let p : CompletionReason.cancelled ≡ reason = cc e in
        let q : polled (start origin paths pending n) ≡ s = cc e in
        rw (← p, ← q)
          (record {
            facts =
                Facts-of_Inv f t profile origin _ (view (polled (start origin paths pending n)))
                  refl refl g.inv;
            complete = λ v d e w. absurd (cc e);
          })
    | inr unseen ↦
        search-Ended f t signal request.budget profile laws canonical origin
          (suc (suc t.adjacency_count)) (polled (start origin paths pending n)) s reason
          (start-Going paths pending n) (rw unseen at h)
  ]

  module _ (s : Search) (reason : CompletionReason)
      (ended : Ended f t profile origin reason s) where
    -- A node that is final, or the origin, has the distance of a walk, and no walk has a smaller one.
    reported_distance :
        (v d : ℕ)
        → s.finalized v || v == origin ≡ true
        → s.distances v ≡ some d
        → Walk f t profile origin v d × ((d' : ℕ) → Walk f t profile origin v d' → d ≤ d')
    reported_distance v d shown k = (
      ended.facts.sound v d k,
      λ d' w. elim (Bool-cases (s.finalized v)) [
        | inl fin ↦ ended.facts.optimal v d d' fin k w
        | inr open_ ↦
            let (d0, k0, z) = ended.facts.source in
            let p : v ≡ origin = ground arith in
            let q : d ≡ d0 = cc (k, k0, ap s.distances p) in omega arith
      ],
    )

    -- An exact result has the least distance of a walk to its node.
    pub classify-exact :
        (id v : ℕ) (tally after : Tally) (r : ExactRoute)
        → classify f t signal profile request.origin origin s id (some v) tally
          ≡ ok (DestinationState.exact r, after)
        → Walk f t profile origin v r.logical_distance
          × ((d' : ℕ) → Walk f t profile origin v d' → r.logical_distance ≤ d')
    unfolding classify
    classify-exact id v tally after r h = elim (Bool-cases (s.finalized v || v == origin)) [
      | inr hidden ↦ absurd (ground (arith, rw hidden at h))
      | inl shown ↦ elim (Option-cases (s.distances v)) [
        | inl unknown ↦ absurd (cc (rw (shown, unknown) at h))
        | inr (d, k) ↦
            let (x, _, h2) =
              >>=-eq-ok
                (trace_requested f t signal profile request.origin origin s id v d s.predecessors
                  tally)
                (λ x.
                  ok (DestinationState.exact (record { logical_distance = d; path = x.0 }), x.1))
                (rw (shown, k) at h) in
            let p : record { logical_distance = d; path = x.0 } ≡ r = cc h2 in
            let q : d ≡ r.logical_distance = ap (λ (r : ExactRoute). r.logical_distance) p in
            rw (← q) (reported_distance v d shown k)
      ]
    ]

    -- An unreachable result is given for a node that is not final, by a search that was not cut short.
    pub classify-unreachable :
        (id v : ℕ) (tally after : Tally)
        → classify f t signal profile request.origin origin s id (some v) tally
          ≡ ok (DestinationState.unreachable, after)
        → (s.finalized v ≡ false) × (is_cut_short tally.reason ≡ false)
    unfolding classify
    classify-unreachable id v tally after h = elim (Bool-cases (s.finalized v || v == origin)) [
      | inr hidden ↦ elim (Bool-cases (is_cut_short tally.reason)) [
        | inl short ↦ absurd (cc (rw (hidden, short) at h))
        | inr full ↦ (ground arith, full)
      ]
      | inl shown ↦ elim (Option-cases (s.distances v)) [
        | inl unknown ↦ absurd (cc (rw (shown, unknown) at h))
        | inr (d, k) ↦
            let (x, _, h2) =
              >>=-eq-ok
                (trace_requested f t signal profile request.origin origin s id v d s.predecessors
                  tally)
                (λ x.
                  ok (DestinationState.exact (record { logical_distance = d; path = x.0 }), x.1))
                (rw (shown, k) at h) in
            absurd (cc h2)
      ]
    ]
