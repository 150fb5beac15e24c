-- ===== src/Tests/Routing.antt =====
-- A sample image of four nodes, with external identities 10 to 13, for cpu.rs. Node 0 leads to
-- node 1 directly, at 7, and through node 3, at 2 + 3; nothing leads to node 2.
use path_hydra.Common.{
  ℕ, zero, suc, ◌+◌, ◌*◌, ◌≤◌, ◌≡◌, ◌≢◌, refl, min, ltb, ◌==◌, if◌then◌else◌, false, inl, inr,
  Option, none, some, [], ◌∷◌, map, Result, ok, err, arith,
}
use path_hydra.Routing.Float64.{Float64, infinity}
use path_hydra.Routing.Profile.{
  enabled, PackedRelationProfile, pack_relation_ids, binary_search, relation_use_index,
}
use path_hydra.Routing.Request.{
  RoutingError, out_of_fuel, permits, RoutingRequest, ExactRoute, DestinationState,
  DestinationResult, RoutingResponse, CompletionReason, binary32_operands_separate_binary64,
  unlimited, examined_edges, stable_predecessor, node_without_range, internal_invariant,
}
use path_hydra.Routing.Topology.{RoutingTopology, OutgoingEdge, IsLawful}
use path_hydra.Routing.Cpu.Walk.{Walk, IsCanonical}
use path_hydra.Routing.Cpu.Route.{
  CpuSearchDiagnostics, route_topology_controlled, membership, all_missing, run_search, start,
  finish, classify_all, classify, first_tally, respond, diagnose,
}
use path_hydra.Routing.Cpu.{
  search, iterate, visit, is_stale, expand, scan, relax, improve, effective_weight,
  accumulate_distance, polled,
}
use path_hydra.Routing.Cpu.Frontier.{push_frontier, push}
use path_hydra.Routing.Cpu.Fuel.{IsBounded}
use path_hydra.Routing.Cpu.Fuel.Whole.{route_topology_controlled-IsFuelled}
use path_hydra.Routing.Cpu.Budget.{route-budget}
use path_hydra.Routing.Cpu.Guarantees.{route-exact, route-unreachable}
use path_hydra.Routing.Cpu.Results.{route-destinations, destination_of}

-- Whole numbers in place of binary64, cut off at infinity.
abbrev whole : Float64
whole = record {
  widen = λ a. a;
  multiply = λ a b. min (a * b) infinity;
  add = λ a b. min (a + b) infinity;
  widen-lt = λ a h. omega arith;
  multiply-le = λ a b g h. omega arith;
  add-le = λ a b g h. omega arith;
  le-add = λ a b g h. omega arith;
  add_mono = λ a b c g h k. omega arith;
}

abbrev edge : ℕ → ℕ → ℕ → OutgoingEdge
edge id destination weight = record {
  edge_id = id;
  destination = destination;
  relation_id = 5;
  base_weight = record { bits = weight };
  relation_index = 0;
}

abbrev dense : ℕ → Option ℕ
dense id =
    if id == 10
    then some 0
    else if id == 11
    then some 1
    else if id == 12
    then some 2
    else if id == 13
    then some 3
    else none

abbrev external : ℕ → Option ℕ
external d = if ltb d 4 then some (d + 10) else none

abbrev range : ℕ → Result RoutingError (ℕ × ℕ)
range d =
    if d == 0
    then ok (0, 2)
    else if d == 1
    then ok (2, 2)
    else if d == 2
    then ok (2, 2)
    else if d == 3
    then ok (2, 3)
    else err (internal_invariant node_without_range)

abbrev read_edge : ℕ → Option OutgoingEdge
read_edge i =
    if i == 0
    then some (edge 100 1 7)
    else if i == 1
    then some (edge 101 3 2)
    else if i == 2
    then some (edge 102 1 3)
    else none

abbrev sample : RoutingTopology
sample = record {
  node_count = 4;
  relation_kind_count = 1;
  adjacency_count = 3;
  dense_node_id = dense;
  external_node_id = external;
  relation_ids = 5 ∷ [];
  outgoing_range = range;
  edge_at = λ i _. ok (read_edge i);
}

sample_laws : IsLawful sample
sample_laws = record {
  dense_lt = λ id d h. ground arith;
  destination_lt = λ i c e h. ground arith;
  weight_le = λ i c e h. ground arith;
  stable = λ i c d e f g h. cc (g, h);
}

abbrev request : RoutingRequest
request = record {
  origin = 10;
  destinations = 11 ∷ 12 ∷ [];
  profile = (5, enabled (record { bits = 1 })) ∷ [];
  return_paths = false;
  budget = unlimited;
  tie_policy = stable_predecessor;
}

abbrev profile : PackedRelationProfile
profile = record {
  uses = enabled (record { bits = 1 }) ∷ [];
  canonical = (5, enabled (record { bits = 1 })) ∷ [];
}

profile-IsCanonical : IsCanonical profile
unfolding relation_use_index
profile-IsCanonical zero m h = ground arith
profile-IsCanonical (suc i) m h = ground arith

packed : pack_relation_ids request.profile sample.relation_ids ≡ ok profile
unfolding pack_relation_ids binary_search
packed = refl

-- The direct edge to 11 is longer than the way through 13, and 12 has no way to it.
abbrev best : ExactRoute
best = record { logical_distance = 5; path = none }

abbrev first_result : DestinationResult
first_result = record { destination = 11; state = DestinationState.exact best }

abbrev second_result : DestinationResult
second_result = record { destination = 12; state = DestinationState.unreachable }

abbrev response : RoutingResponse
response = record {
  origin = 10;
  results = first_result ∷ second_result ∷ [];
  profile = profile.canonical;
  numeric_policy = binary32_operands_separate_binary64;
  tie_policy = stable_predecessor;
  paths_requested = false;
  examined_edges = 3;
  finalized_nodes = 3;
  completion_reason = CompletionReason.frontier_exhausted;
}

abbrev diagnostics : CpuSearchDiagnostics
diagnostics = record {
  examined_edges = 3;
  relaxation_updates = 3;
  finalized_nodes = 3;
  frontier_high_water_mark = 2;
  unique_present_destinations = 2;
  exact_destinations = 1;
  unreachable_destinations = 1;
  missing_destinations = 0;
  incomplete_destinations = 0;
  path_reconstruction_steps = 0;
}

routed : route_topology_controlled whole sample (λ _. false) request ≡ ok (response, diagnostics)
unfolding route_topology_controlled pack_relation_ids binary_search membership all_missing
    run_search search iterate visit is_stale expand scan relax improve start finish classify_all
    classify first_tally respond diagnose effective_weight accumulate_distance permits
    relation_use_index polled push_frontier push
routed = refl

route-exact_example :
    Walk whole sample profile 0 1 5 × ((d : ℕ) → Walk whole sample profile 0 1 d → 5 ≤ d)
route-exact_example =
    route-exact whole sample (λ _. false) request sample_laws 0 profile profile-IsCanonical refl
      packed response diagnostics routed first_result (inl refl) 1 refl best refl

route-unreachable_example : ¬ Walk whole sample profile 0 2 4
route-unreachable_example =
    route-unreachable whole sample (λ _. false) request sample_laws 0 profile profile-IsCanonical
      refl packed response diagnostics routed second_result (inr (inl refl)) 2 refl 4 refl

route-destinations_example : map destination_of response.results ≡ request.destinations
route-destinations_example =
    route-destinations whole sample (λ _. false) request response diagnostics routed

sample-IsBounded : IsBounded sample
sample-IsBounded = record {
  offset = λ u. if u == 0 then 0 else if ltb u 4 then 2 else 3;
  offset_mono = λ u. ground arith;
  offset_le = omega arith;
  range_eq = λ u start end h. ground arith;
  range-IsFuelled = λ u. ground arith;
  edge-IsFuelled = λ a c p. cc p;
}

route_topology_controlled-IsFuelled_example :
    route_topology_controlled whole sample (λ _. false) request ≢ err out_of_fuel
route_topology_controlled-IsFuelled_example =
    route_topology_controlled-IsFuelled whole sample (λ _. false) request sample-IsBounded

abbrev limited : RoutingRequest
limited = record request { budget = examined_edges 1 }

-- One edge is examined; both destinations stay open.
abbrev limited_response : RoutingResponse
limited_response = record response {
  results =
      record { destination = 11; state = DestinationState.incomplete }
      ∷ record { destination = 12; state = DestinationState.incomplete }
      ∷ [];
  examined_edges = 1;
  finalized_nodes = 1;
  completion_reason = CompletionReason.budget_exhausted;
}

abbrev limited_diagnostics : CpuSearchDiagnostics
limited_diagnostics = record diagnostics {
  examined_edges = 1;
  relaxation_updates = 1;
  finalized_nodes = 1;
  frontier_high_water_mark = 1;
  exact_destinations = 0;
  unreachable_destinations = 0;
  incomplete_destinations = 2;
}

limited_routed :
    route_topology_controlled whole sample (λ _. false) limited
    ≡ ok (limited_response, limited_diagnostics)
unfolding route_topology_controlled pack_relation_ids binary_search membership all_missing
    run_search search iterate visit is_stale expand scan relax improve start finish classify_all
    classify first_tally respond diagnose effective_weight accumulate_distance permits
    relation_use_index polled push_frontier push
limited_routed = refl

route-budget_example :
    (limited_response.examined_edges ≤ 1)
    × (limited_response.completion_reason ≡ CompletionReason.budget_exhausted
        → limited_response.examined_edges ≡ 1)
route-budget_example =
    route-budget whole sample (λ _. false) limited 1 limited_response limited_diagnostics refl
      limited_routed
