-- ===== src/Routing/Cpu/Results.antt =====
-- Each entry of a response is the classification of its destination after one search.
use path_hydra.Common.{
  ℕ, ◌≡◌, refl, sym, subst, ap, ◌⊎◌, inl, inr, Bool, false, ◌||◌, Option, some, none, List, [], ◌∷◌,
  map, Has, ok, arith, ◌==◌, Bool-cases, Option-cases, Result-cases, >>=-eq-ok,
}
use path_hydra.Core.{NodeId, checked_add}
use path_hydra.Routing.Float64.{Float64}
use path_hydra.Routing.Profile.{PackedRelationProfile, pack_relation_ids}
use path_hydra.Routing.Request.{
  CompletionReason, RoutingRequest, RoutePath, DestinationState, DestinationResult, RoutingResponse,
}
use path_hydra.Routing.Topology.{RoutingTopology}
use path_hydra.Routing.Cpu.{Search, Predecessor}
use path_hydra.Routing.Cpu.Route.{
  diagnose, Tally, CpuSearchDiagnostics, start, membership, run_search, classify, classify_all,
  trace, trace_requested, finish, first_tally, respond, all_missing, missing_result,
  route_topology_controlled,
}

-- The reason to report is the search's, or that a path was given up.
abbrev pub Reported : CompletionReason → Tally → Type 0
Reported reason tally = (tally.reason ≡ reason) ⊎ (tally.reason ≡ CompletionReason.cancelled)

module _ (f : Float64) (t : RoutingTopology) (signal : ℕ → Bool) (profile : PackedRelationProfile)
    (external_origin : NodeId) (origin : ℕ) (s : Search) where
  trace-Reported :
      (id v d : ℕ) (p : ℕ → Option Predecessor) (reason : CompletionReason) (tally after : Tally)
      (path : Option RoutePath)
      → Reported reason tally
      → trace f t signal profile external_origin origin s id v d p tally ≡ ok (path, after)
      → Reported reason after
  unfolding trace
  trace-Reported id v d p reason tally after path r h = ground arith

  trace_requested-Reported :
      (id v d : ℕ) (p : Option (ℕ → Option Predecessor)) (reason : CompletionReason)
      (tally after : Tally) (path : Option RoutePath)
      → Reported reason tally
      → trace_requested f t signal profile external_origin origin s id v d p tally
        ≡ ok (path, after)
      → Reported reason after
  unfolding trace_requested
  trace_requested-Reported id v d none reason tally after path r h = ground arith
  trace_requested-Reported id v d (some p) reason tally after path r h =
      trace-Reported id v d p reason tally after path r h

  pub classify-Reported :
      (id : ℕ) (dense : Option ℕ) (reason : CompletionReason) (tally after : Tally)
      (state : DestinationState)
      → Reported reason tally
      → classify f t signal profile external_origin origin s id dense tally ≡ ok (state, after)
      → Reported reason after
  unfolding classify
  classify-Reported id none reason tally after state r h = ground arith
  classify-Reported id (some v) reason tally after state r h =
      elim (Bool-cases (s.finalized v || v == origin)) [
        | inr hidden ↦ ground (arith, rw hidden at h)
        | inl shown ↦ elim (Option-cases (s.distances v)) [
          | inl unknown ↦ absurd (cc (rw (shown, unknown) at h))
          | inr (d, k) ↦
              let (x, traced, h2) =
                >>=-eq-ok
                  (trace_requested f t signal profile external_origin origin s id v d s.predecessors
                    tally)
                  (λ x.
                    ok (DestinationState.exact (record { logical_distance = d; path = x.0 }), x.1))
                  (rw (shown, k) at h) in
              let q : x.1 ≡ after = cc h2 in
              rw (← q)
                (trace_requested-Reported id v d s.predecessors reason tally x.1 x.0 r traced)
        ]
      ]

  -- An entry of the results is the classification of its destination, under some tally.
  pub record IsClassified (reason : CompletionReason) (r : DestinationResult) : Type 0 where
    pub tally : Tally
    pub after : Tally
    pub reported : Reported reason tally
    pub classified :
        classify f t signal profile external_origin origin s r.destination
          (t.dense_node_id r.destination)
          tally
        ≡ ok (r.state, after)

  pub classify_all-IsClassified :
      (ids : List NodeId) (reason : CompletionReason) (tally end : Tally)
      (results : List DestinationResult) (r : DestinationResult)
      → Reported reason tally
      → classify_all f t signal profile external_origin origin s ids tally ≡ ok (results, end)
      → Has r results
      → IsClassified reason r
  unfolding classify_all
  classify_all-IsClassified [] reason tally end results r rep h m =
      let p : [] ≡ results = cc h in absurd (subst (Has r) (sym p) m)
  classify_all-IsClassified (id ∷ ids) reason tally end results r rep h m =
      let (x, one, h1) = >>=-eq-ok {A = DestinationState × Tally} _ _ h in
      let (y, rest, h2) = >>=-eq-ok {A = List DestinationResult × Tally} _ _ h1 in
      let p : results ≡ record { destination = id; state = x.0 } ∷ y.0 = cc h2 in
      elim (subst (Has r) p m) [
        | inl e ↦ rw e (record { tally = tally; after = x.1; reported = rep; classified = one })
        | inr later ↦
            classify_all-IsClassified ids reason x.1 y.1 y.0 r
              (classify-Reported id (t.dense_node_id id) reason tally x.1 x.0 rep one) rest later
      ]

abbrev pub destination_of : DestinationResult → NodeId
destination_of r = r.destination

module _ (f : Float64) (t : RoutingTopology) (signal : ℕ → Bool) (profile : PackedRelationProfile)
    (external_origin : NodeId) (origin : ℕ) (s : Search) where
  -- The results stand in the order of the destinations.
  pub classify_all-destinations :
      (ids : List NodeId) (tally end : Tally) (results : List DestinationResult)
      → classify_all f t signal profile external_origin origin s ids tally ≡ ok (results, end)
      → map destination_of results ≡ ids
  unfolding classify_all
  classify_all-destinations [] tally end results h = let p : [] ≡ results = cc h in rw (← p)
  classify_all-destinations (id ∷ ids) tally end results h =
      let (x, one, h1) =
        >>=-eq-ok
          (classify f t signal profile external_origin origin s id (t.dense_node_id id) tally) _
          h in
      let (y, rest, h2) =
        >>=-eq-ok (classify_all f t signal profile external_origin origin s ids x.1) _ h1 in
      let p : results ≡ record { destination = id; state = x.0 } ∷ y.0 = cc h2 in
      rw (p, classify_all-destinations ids x.1 y.1 y.0 rest)

map-missing_result : (ids : List NodeId) → map destination_of (map missing_result ids) ≡ ids
unfolding missing_result
map-missing_result [] = refl
map-missing_result (id ∷ ids) = rw (map-missing_result ids)

pub Has-destination :
    (rs : List DestinationResult) (r : DestinationResult)
    → Has r rs
    → Has r.destination (map destination_of rs)
Has-destination [] r h = absurd h
Has-destination (x ∷ rs) r (inl e) = inl (ap destination_of e)
Has-destination (x ∷ rs) r (inr h) = inr (Has-destination rs r h)

all_missing_states :
    (ids : List NodeId) (r : DestinationResult)
    → Has r (map missing_result ids)
    → r.state ≡ DestinationState.missing_node
unfolding missing_result
all_missing_states [] r m = absurd m
all_missing_states (id ∷ ids) r (inl e) = rw e
all_missing_states (id ∷ ids) r (inr m) = all_missing_states ids r m

module _ (f : Float64) (t : RoutingTopology) (signal : ℕ → Bool) (request : RoutingRequest)
    (origin : ℕ) (profile : PackedRelationProfile)
    (known : t.dense_node_id request.origin ≡ some origin)
    (packed : pack_relation_ids request.profile t.relation_ids ≡ ok profile) where
  abbrev pub requested : (ℕ → Bool) × ℕ
  requested = membership (map t.dense_node_id request.destinations) (λ _. false, 0)

  abbrev pub started : Search
  started = start origin request.return_paths requested.0 requested.1

  -- A response after a search: how the search ended, and the loop over the destinations.
  pub record IsAnswer (response : RoutingResponse) : Type 0 where
    pub reason : CompletionReason
    pub final : Search
    pub end : Tally
    pub searched : run_search f t signal request profile started ≡ ok (reason, final)
    pub classified :
        classify_all f t signal profile request.origin origin final request.destinations
          (first_tally reason final)
        ≡ ok (response.results, end)
    pub examined : response.examined_edges ≡ final.examined_edges
    pub completion : response.completion_reason ≡ end.reason

  pub finish-IsAnswer :
      (reason : CompletionReason) (final : Search) (response : RoutingResponse)
      (diagnostics : CpuSearchDiagnostics)
      → run_search f t signal request profile started ≡ ok (reason, final)
      → finish f t signal request profile origin requested.1 reason final
        ≡ ok (response, diagnostics)
      → IsAnswer response
  unfolding finish respond
  finish-IsAnswer reason final response diagnostics searched h =
      let (y, all, h2) =
        >>=-eq-ok
          (classify_all f t signal profile request.origin origin final request.destinations
            (first_tally reason final))
          (λ y. ok (
            respond request profile y.0 final.examined_edges final.finalized_nodes y.1.reason,
            diagnose final requested.1 y.1.steps y.0,
          ))
          h in
      let p : respond request profile y.0 final.examined_edges final.finalized_nodes y.1.reason
          ≡ response =
        cc h2 in
      record {
        reason = reason;
        final = final;
        end = y.1;
        searched = searched;
        classified = rw (← p) all;
        examined = rw (← p);
        completion = rw (← p);
      }

  pub route-IsAnswer :
      (response : RoutingResponse) (diagnostics : CpuSearchDiagnostics)
      → route_topology_controlled f t signal request ≡ ok (response, diagnostics)
      → (requested.1 ≡ 0) × (response ≡ (all_missing request profile).0) ⊎ IsAnswer response
  unfolding route_topology_controlled
  route-IsAnswer response diagnostics h = elim (Bool-cases (requested.1 == 0)) [
    | inl absent ↦
        let p : (all_missing request profile).0 ≡ response = cc (rw (known, packed, absent) at h) in
        inl (ground arith, sym p)
    | inr some_ ↦ elim (Option-cases (checked_add t.adjacency_count 1)) [
      | inl over ↦ absurd (cc (rw (known, packed, some_, over) at h))
      | inr (_, fits) ↦
          let (x, searched, h1) =
            >>=-eq-ok (run_search f t signal request profile started)
              (λ x. finish f t signal request profile origin requested.1 x.0 x.1)
              (rw (known, packed, some_, fits) at h) in
          inr (finish-IsAnswer x.0 x.1 response diagnostics searched h1)
    ]
  ]

  -- An entry of a response: the search ended for `reason`, and the entry classifies its destination.
  pub record IsEntry (r : DestinationResult) : Type 0 where
    pub reason : CompletionReason
    pub final : Search
    pub searched : run_search f t signal request profile started ≡ ok (reason, final)
    pub entry : IsClassified f t signal profile request.origin origin final reason r

  pub route-IsEntry :
      (response : RoutingResponse) (diagnostics : CpuSearchDiagnostics) (r : DestinationResult)
      → route_topology_controlled f t signal request ≡ ok (response, diagnostics)
      → Has r response.results
      → (r.state ≡ DestinationState.missing_node) ⊎ IsEntry r
  unfolding all_missing respond first_tally
  route-IsEntry response diagnostics r h m = elim (route-IsAnswer response diagnostics h) [
    | inl (_, absent) ↦ inl (all_missing_states request.destinations r (rw absent at m))
    | inr a ↦ inr (record {
      reason = a.reason;
      final = a.final;
      searched = a.searched;
      entry =
          classify_all-IsClassified f t signal profile request.origin origin a.final
            request.destinations a.reason (first_tally a.reason a.final) a.end response.results r
            (inl refl) a.classified m;
    })
  ]

  route-destinations_known :
      (response : RoutingResponse) (diagnostics : CpuSearchDiagnostics)
      → route_topology_controlled f t signal request ≡ ok (response, diagnostics)
      → map destination_of response.results ≡ request.destinations
  unfolding all_missing respond
  route-destinations_known response diagnostics h = elim (route-IsAnswer response diagnostics h) [
    | inl (_, absent) ↦ rw absent (map-missing_result request.destinations)
    | inr a ↦
        classify_all-destinations f t signal profile request.origin origin a.final
          request.destinations (first_tally a.reason a.final) a.end response.results a.classified
  ]

-- A response lists the requested destinations, in their order.
pub route-destinations :
    (f : Float64) (t : RoutingTopology) (signal : ℕ → Bool) (request : RoutingRequest)
    (response : RoutingResponse) (diagnostics : CpuSearchDiagnostics)
    → route_topology_controlled f t signal request ≡ ok (response, diagnostics)
    → map destination_of response.results ≡ request.destinations
unfolding route_topology_controlled
route-destinations f t signal request response diagnostics h =
    elim (Option-cases (t.dense_node_id request.origin)) [
      | inl missing ↦ absurd (cc (rw missing at h))
      | inr (origin, known) ↦
          elim (Result-cases (pack_relation_ids request.profile t.relation_ids)) [
            | inr (e, invalid) ↦ absurd (cc (rw (known, invalid) at h))
            | inl (profile, packed) ↦
                route-destinations_known f t signal request origin profile known packed response
                  diagnostics h
          ]
    ]
