-- ===== src/Routing/Cpu/Fuel/Whole.antt =====
-- A request is answered: the search and the classification never run out of fuel.
use path_hydra.Common.{
  ℕ, suc, ◌≤◌, ◌≢◌, inl, inr, ◌==◌, ◌||◌, Bool, false, ok, err, none, some, List, [], ◌∷◌, map,
  Option, Result, Bool-cases, Option-cases, arith,
}
use path_hydra.Core.{NodeId, checked_add}
use path_hydra.Routing.Float64.{Float64}
use path_hydra.Routing.Profile.{PackedRelationProfile, ProfileError, pack_relation_ids}
use path_hydra.Routing.Request
use path_hydra.Routing.Request.{
  RoutingRequest, missing_origin, invalid_profile, resource_estimate_overflow, CompletionReason,
  out_of_fuel,
}
use path_hydra.Routing.Topology.{RoutingTopology}
use path_hydra.Routing.Cpu.{Predecessor, Search, polled}
use path_hydra.Routing.Cpu.Route.{
  Tally, first_tally, start, membership, trace, trace_requested, classify, classify_all, run_search,
  finish, map_profile_error, route_topology_controlled,
}
use path_hydra.Routing.Cpu.Fuel.{
  IsFuelled, IsFuelled->>=, IsFuelled-ok, IsFuelled-found, IsFuelled-ok_or, IsBounded,
}
use path_hydra.Routing.Cpu.Fuel.Search.{measure, search-IsFuelled}
use path_hydra.Routing.Cpu.Fuel.Unpaid.{unpaid-start}
use path_hydra.Routing.Cpu.Fuel.Paths.{reconstruct_path-IsFuelled}

module _ (f : Float64) (t : RoutingTopology) (signal : ℕ → Bool) (profile : PackedRelationProfile)
    (external_origin : NodeId) (origin : ℕ) (s : Search) (bounded : IsBounded t) where
  trace-IsFuelled :
      (destination : NodeId) (dense distance : ℕ) (predecessors : ℕ → Option Predecessor)
      (tally : Tally)
      → IsFuelled (
          trace f t signal profile external_origin origin s destination dense distance predecessors
            tally)
  unfolding trace
  trace-IsFuelled destination dense distance predecessors tally =
      elim (Option-cases (tally.path_cache dense)) [
        | inr (path, cached) ↦ rw (cached, trace) (IsFuelled-ok _)
        | inl fresh ↦
            rw (fresh, trace)
              (IsFuelled->>= _ _
                (reconstruct_path-IsFuelled f t signal profile predecessors bounded external_origin
                  origin destination dense distance tally.clock tally.steps)
                (λ traced _. elim (Option-cases traced.found) [
                  | inl missing ↦ rw missing (IsFuelled-ok _)
                  | inr (path, found) ↦ rw found (IsFuelled-ok _)
                ]))
      ]

  trace_requested-IsFuelled :
      (destination : NodeId) (dense distance : ℕ) (predecessors : Option (ℕ → Option Predecessor))
      (tally : Tally)
      → IsFuelled (
          trace_requested f t signal profile external_origin origin s destination dense distance
            predecessors tally)
  unfolding trace_requested
  trace_requested-IsFuelled destination dense distance none tally = IsFuelled-ok _
  trace_requested-IsFuelled destination dense distance (some predecessors) tally =
      trace-IsFuelled destination dense distance predecessors tally

  classify-IsFuelled :
      (destination : NodeId) (dense : Option ℕ) (tally : Tally)
      → IsFuelled (classify f t signal profile external_origin origin s destination dense tally)
  unfolding classify
  classify-IsFuelled destination none tally = IsFuelled-ok _
  classify-IsFuelled destination (some dense) tally =
      elim (Bool-cases (s.finalized dense || dense == origin)) [
        | inr open_ ↦ rw open_ (IsFuelled-ok _)
        | inl final ↦ rw final (
            IsFuelled->>= _ _
              (IsFuelled-found (s.distances dense) Request.finalized_without_distance)
              (λ distance _.
                IsFuelled->>= _ _
                  (trace_requested-IsFuelled destination dense distance s.predecessors tally)
                  (λ _ _. IsFuelled-ok _)))
      ]

  classify_all-IsFuelled :
      (ids : List NodeId) (tally : Tally)
      → IsFuelled (classify_all f t signal profile external_origin origin s ids tally)
  unfolding classify_all
  classify_all-IsFuelled [] tally = IsFuelled-ok _
  classify_all-IsFuelled (id ∷ ids) tally =
      IsFuelled->>= _ _ (classify-IsFuelled id (t.dense_node_id id) tally) (λ (_, after) _.
        IsFuelled->>= _ _ (classify_all-IsFuelled ids after) (λ _ _. IsFuelled-ok _))

map_profile_error-IsFuelled :
    (r : Result ProfileError PackedRelationProfile) → IsFuelled (map_profile_error r)
unfolding map_profile_error
map_profile_error-IsFuelled (ok p) = IsFuelled-ok p
map_profile_error-IsFuelled (err e) = λ h. cc h

-- A request on a bounded image is answered, with a response or with an error of the code: the fuel
-- that the model gives to the search and to the paths is always enough.
pub route_topology_controlled-IsFuelled :
    (f : Float64) (t : RoutingTopology) (signal : ℕ → Bool) (request : RoutingRequest)
    → IsBounded t
    → route_topology_controlled f t signal request ≢ err out_of_fuel
unfolding route_topology_controlled run_search finish start measure polled
route_topology_controlled-IsFuelled f t signal request bounded =
    IsFuelled->>= _ _
      (IsFuelled-ok_or (t.dense_node_id request.origin) (missing_origin request.origin) (λ p. cc p))
      (λ origin _.
        IsFuelled->>= _ _
          (map_profile_error-IsFuelled (pack_relation_ids request.profile t.relation_ids))
          (λ profile _.
            let m = membership (map t.dense_node_id request.destinations) (λ _. false, 0) in
            elim (Bool-cases (m.1 == 0)) [
              | inl absent ↦ rw absent (IsFuelled-ok _)
              | inr present ↦ rw present (
                  IsFuelled->>= _ _
                    (IsFuelled-ok_or (checked_add t.adjacency_count 1) resource_estimate_overflow
                      (λ p. cc p))
                    (λ _ _.
                      IsFuelled->>= _ _
                        (searched profile (start origin request.return_paths m.0 m.1)
                          (starts origin m.0 m.1))
                        (λ (reason, s) _.
                          IsFuelled->>= _ _
                            (classify_all-IsFuelled f t signal profile request.origin origin s
                              bounded request.destinations (first_tally reason s))
                            (λ _ _. IsFuelled-ok _))))
            ]))
  where
    starts :
        (origin : ℕ) (pending : ℕ → Bool) (count : ℕ)
        → measure f t signal request.budget
            (record { uses = []; canonical = [] })
            bounded
            (start origin request.return_paths pending count)
          ≤ suc t.adjacency_count
    starts origin pending count =
        omega
          (arith, unpaid-start bounded.offset t.node_count bounded.offset_mono, bounded.offset_le)

    searched :
        (profile : PackedRelationProfile) (s : Search)
        → measure f t signal request.budget profile bounded s ≤ suc t.adjacency_count
        → IsFuelled (run_search f t signal request profile s)
    searched profile s h = elim (Bool-cases (signal s.clock)) [
      | inl seen ↦ rw seen (IsFuelled-ok _)
      | inr unseen ↦ rw unseen (
          search-IsFuelled f t signal request.budget profile bounded (suc (suc t.adjacency_count))
            (polled s) (omega (arith, h)))
    ]
