-- ===== src/Routing/Cpu/Guarantees.antt =====
-- What a response of `route_topology_controlled` says of the graph.
use path_hydra.Common.{
  ℕ, ◌≤◌, ◌≡◌, subst, ap, ◌⊎◌, inl, inr, Bool, true, false, some, List, [], ◌∷◌, map, Has, ok,
  arith, Bool-cases,
}
use path_hydra.Core.{NodeId}
use path_hydra.Routing.Float64.{Float64}
use path_hydra.Routing.Profile.{PackedRelationProfile, pack_relation_ids}
use path_hydra.Routing.Request.{
  CompletionReason, RoutingRequest, DestinationState, ExactRoute, DestinationResult,
  RoutingResponse,
}
use path_hydra.Routing.Topology.{RoutingTopology, IsLawful}
use path_hydra.Routing.Cpu.Walk.{Walk, IsCanonical}
use path_hydra.Routing.Cpu.Route.{
  CpuSearchDiagnostics, Tally, start, run_search, is_cut_short, route_topology_controlled,
}
use path_hydra.Routing.Cpu.Invariant.Scan.{Ended}
use path_hydra.Routing.Cpu.Pending.Tracks.{search-Stopped}
use path_hydra.Routing.Cpu.Pending.Membership.{membership_marks, start-Tracks}
use path_hydra.Routing.Cpu.Exact.{run_search-Ended, classify-exact, classify-unreachable}
use path_hydra.Routing.Cpu.Results.{
  Has-destination, route-destinations, IsEntry, route-IsEntry, Reported, requested,
}

-- A reason that does not cut the search short, if a path's cancellation does not hide it.
not_short :
    (reason : CompletionReason) (tally : Tally)
    → Reported reason tally
    → is_cut_short tally.reason ≡ false
    → (reason ≡ CompletionReason.all_destinations_finalized)
      ⊎ (reason ≡ CompletionReason.frontier_exhausted)
unfolding is_cut_short
not_short reason tally r h = ground arith

module _ (f : Float64) (t : RoutingTopology) (signal : ℕ → Bool) (request : RoutingRequest)
    (laws : IsLawful t) (origin : ℕ) (profile : PackedRelationProfile)
    (canonical : IsCanonical profile) (known : t.dense_node_id request.origin ≡ some origin)
    (packed : pack_relation_ids request.profile t.relation_ids ≡ ok profile)
    (response : RoutingResponse) (diagnostics : CpuSearchDiagnostics)
    (routed : route_topology_controlled f t signal request ≡ ok (response, diagnostics))
    (r : DestinationResult) (listed : Has r response.results) (v : ℕ)
    (present : t.dense_node_id r.destination ≡ some v) where
  abbrev Entry : Type 0
  Entry = IsEntry f t signal request origin profile known packed r

  entry-Ended : (e : Entry) → Ended f t profile origin e.reason e.final
  entry-Ended e =
      run_search-Ended f t signal request profile laws canonical origin request.return_paths
        (requested f t signal request origin profile known packed).0
        (requested f t signal request origin profile known packed).1 e.reason e.final e.searched

  -- On a lawful image, under a profile whose packed multipliers are canonical: a destination in the
  -- image whose result is exact has the reported distance along a walk from the origin, and no walk
  -- from the origin to it has a smaller one.
  pub route-exact :
      (x : ExactRoute)
      → r.state ≡ DestinationState.exact x
      → Walk f t profile origin v x.logical_distance
        × ((d : ℕ) → Walk f t profile origin v d → x.logical_distance ≤ d)
  route-exact x e =
      elim (route-IsEntry f t signal request origin profile known packed response diagnostics r
        routed listed) [
          | inl missing ↦ absurd (cc (e, missing))
          | inr entry ↦
              classify-exact f t signal request profile laws canonical origin entry.final
                entry.reason (entry-Ended entry) r.destination v entry.entry.tally entry.entry.after
                x (rw (present, e) at entry.entry.classified)
        ]

  -- The node is among the marked ones.
  wanted : (requested f t signal request origin profile known packed).0 v ≡ true
  wanted =
      membership_marks (map t.dense_node_id request.destinations) (λ _. false) 0 v
        (rw present at (
          has_map request.destinations r.destination (
            subst (Has r.destination)
              (route-destinations f t signal request response diagnostics routed)
              (Has-destination response.results r listed))))
    where
      has_map :
          (ids : List NodeId) (id : NodeId)
          → Has id ids
          → Has (t.dense_node_id id) (map t.dense_node_id ids)
      has_map [] id h = absurd h
      has_map (x ∷ ids) id (inl e) = inl (ap t.dense_node_id e)
      has_map (x ∷ ids) id (inr h) = inr (has_map ids id h)

  entry_served :
      (e : Entry)
      → e.reason ≡ CompletionReason.all_destinations_finalized
      → e.final.finalized v ≡ true
  unfolding run_search start
  entry_served e all_final = elim (Bool-cases (signal 0)) [
    | inl seen ↦ absurd (cc (all_final, rw seen at e.searched))
    | inr unseen ↦
        (search-Stopped (requested f t signal request origin profile known packed).0 t.node_count f
            t signal request.budget profile _ _ e.final e.reason
            (start-Tracks t laws request.destinations origin request.return_paths)
            (rw unseen at e.searched)).served
          v all_final wanted
  ]

  -- On a lawful image, under a profile whose packed multipliers are canonical: a destination in the
  -- image whose result is unreachable is reached by no walk from the origin.
  pub route-unreachable :
      (d : ℕ) → r.state ≡ DestinationState.unreachable → ¬ Walk f t profile origin v d
  route-unreachable d e w =
      elim (route-IsEntry f t signal request origin profile known packed response diagnostics r
        routed listed) [
          | inl missing ↦ absurd (cc (e, missing))
          | inr entry ↦
              let (open_, full) =
                classify-unreachable f t signal request profile laws canonical origin entry.final
                  entry.reason (entry-Ended entry) r.destination v entry.entry.tally
                  entry.entry.after (rw (present, e) at entry.entry.classified) in
              elim (not_short entry.reason entry.entry.tally entry.entry.reported full) [
                | inl all_final ↦ absurd (cc (entry_served entry all_final, open_))
                | inr exhausted ↦ absurd (cc ((entry-Ended entry).complete v d exhausted w, open_))
              ]
        ]
