-- ===== src/Routing/Cpu/Route.antt =====
-- `route_topology_controlled`, `route_controlled` and `route` of
-- crates/pathhydra-routing/src/cpu.rs: the request's mapping to dense nodes, the search, and the
-- classification of the destinations.
use path_hydra.Common.{
  ℕ, suc, ◌+◌, Bool, true, false, ◌||◌, ◌==◌, if◌then◌else◌, Option, none, some, List, [], ◌∷◌, map,
  length, Result, ok, err, ◌>>=◌, ok_or,
}
use path_hydra.Core.{NodeId, checked_add}
use path_hydra.Routing.Float64.{Float64}
use path_hydra.Routing.Profile.{PackedRelationProfile, ProfileError, pack_relation_ids}
use path_hydra.Routing.Request
use path_hydra.Routing.Request.{
  RoutingError, missing_origin, invalid_profile, internal_invariant, resource_estimate_overflow,
  CompletionReason, RoutingRequest, RoutePath, DestinationState, DestinationResult, RoutingResponse,
}
use path_hydra.Routing.Topology.{RoutingTopology}
use path_hydra.Routing.Cpu.{update, Predecessor, Search, polled, search}
use path_hydra.Routing.Cpu.Path.{reconstruct_path}

-- `CpuSearchDiagnostics` without its two durations.
pub record CpuSearchDiagnostics : Type 0 where
  pub examined_edges : ℕ
  pub relaxation_updates : ℕ
  pub finalized_nodes : ℕ
  pub frontier_high_water_mark : ℕ
  pub unique_present_destinations : ℕ
  pub exact_destinations : ℕ
  pub unreachable_destinations : ℕ
  pub missing_destinations : ℕ
  pub incomplete_destinations : ℕ
  pub path_reconstruction_steps : ℕ

-- The destination membership, and how many dense nodes it holds.
unfoldable pub membership : List (Option ℕ) → (ℕ → Bool) × ℕ → (ℕ → Bool) × ℕ
membership [] m = m
membership (none ∷ rest) m = membership rest m
membership (some d ∷ rest) (pending, count) =
    membership rest (if pending d then (pending, count) else (update pending d true, count + 1))

-- The variables before the loop, with the origin as the one entry of the frontier.
unfoldable pub start : ℕ → Bool → (ℕ → Bool) → ℕ → Search
start origin return_paths pending pending_count = record {
  pending = pending;
  pending_count = pending_count;
  distances = update (λ _. none) origin (some 0);
  finalized = λ _. false;
  predecessors = if return_paths then some (λ _. none) else none;
  frontier = record { distance = 0; node = origin } ∷ [];
  examined_edges = 0;
  finalized_nodes = 0;
  relaxation_updates = 0;
  frontier_high_water_mark = 1;
  clock = 0;
}

-- What the loop over the destinations changes.
pub record Tally : Type 0 where
  pub reason : CompletionReason
  pub path_cache : ℕ → Option RoutePath
  pub clock : ℕ
  pub steps : ℕ

unfoldable pub first_tally : CompletionReason → Search → Tally
first_tally reason s = record {
  reason = reason;
  path_cache = λ _. none;
  clock = s.clock;
  steps = 0;
}

-- `BudgetExhausted | Cancelled`
unfoldable pub is_cut_short : CompletionReason → Bool
is_cut_short CompletionReason.all_destinations_finalized = false
is_cut_short CompletionReason.frontier_exhausted = false
is_cut_short CompletionReason.budget_exhausted = true
is_cut_short CompletionReason.cancelled = true

unfoldable pub map_profile_error {ℓ} : {A : Type ℓ} → Result ProfileError A → Result RoutingError A
map_profile_error (ok a) = ok a
map_profile_error (err e) = err (invalid_profile e)

is_exact : DestinationResult → Bool
is_exact r = elim r.state [ DestinationState.exact _ ↦ true | _ ↦ false ]

is_unreachable : DestinationResult → Bool
is_unreachable r = elim r.state [ DestinationState.unreachable ↦ true | _ ↦ false ]

is_missing : DestinationResult → Bool
is_missing r = elim r.state [ DestinationState.missing_node ↦ true | _ ↦ false ]

is_incomplete : DestinationResult → Bool
is_incomplete r = elim r.state [ DestinationState.incomplete ↦ true | _ ↦ false ]

unfoldable pub count : (DestinationResult → Bool) → List DestinationResult → ℕ
count p [] = 0
count p (r ∷ rest) = (if p r then 1 else 0) + count p rest

-- The counters of a finished search and its results.
unfoldable pub diagnose : Search → ℕ → ℕ → List DestinationResult → CpuSearchDiagnostics
unfolding count is_exact is_unreachable is_missing is_incomplete
diagnose s unique steps results = record {
  examined_edges = s.examined_edges;
  relaxation_updates = s.relaxation_updates;
  finalized_nodes = s.finalized_nodes;
  frontier_high_water_mark = s.frontier_high_water_mark;
  unique_present_destinations = unique;
  exact_destinations = count is_exact results;
  unreachable_destinations = count is_unreachable results;
  missing_destinations = count is_missing results;
  incomplete_destinations = count is_incomplete results;
  path_reconstruction_steps = steps;
}

unfoldable pub respond :
    RoutingRequest
    → PackedRelationProfile
    → List DestinationResult
    → ℕ
    → ℕ
    → CompletionReason
    → RoutingResponse
respond request profile results examined finalized reason = record {
  origin = request.origin;
  results = results;
  profile = profile.canonical;
  numeric_policy = Request.binary32_operands_separate_binary64;
  tie_policy = request.tie_policy;
  paths_requested = request.return_paths;
  examined_edges = examined;
  finalized_nodes = finalized;
  completion_reason = reason;
}

unfoldable pub missing_result : NodeId → DestinationResult
missing_result id = record { destination = id; state = DestinationState.missing_node }

-- The early return where no destination is in the image.
unfoldable pub all_missing :
    RoutingRequest → PackedRelationProfile → RoutingResponse × CpuSearchDiagnostics
unfolding respond missing_result
all_missing request profile = (
  respond request profile (map missing_result request.destinations) 0 0
      CompletionReason.all_destinations_finalized,
  record {
    examined_edges = 0;
    relaxation_updates = 0;
    finalized_nodes = 0;
    frontier_high_water_mark = 0;
    unique_present_destinations = 0;
    exact_destinations = 0;
    unreachable_destinations = 0;
    missing_destinations = length request.destinations;
    incomplete_destinations = 0;
    path_reconstruction_steps = 0;
  },
)

module _ (f : Float64) (t : RoutingTopology) (signal : ℕ → Bool) (profile : PackedRelationProfile)
    (external_origin : NodeId) (origin : ℕ) (s : Search) where
  -- The shared path of a dense node, from the cache or reconstructed.
  unfoldable pub trace :
      NodeId
      → ℕ
      → ℕ
      → (ℕ → Option Predecessor)
      → Tally
      → Result RoutingError (Option RoutePath × Tally)
  trace destination dense distance predecessors tally = elim (tally.path_cache dense) [
    | some path ↦ ok (some path, tally)
    | none ↦ do
      traced ←
          reconstruct_path f t signal profile predecessors external_origin origin destination dense
            distance tally.clock tally.steps
      let after = record tally { clock = traced.clock; steps = traced.steps }
      elim traced.found [
        | some path ↦
            ok (some path, record after { path_cache = update after.path_cache dense (some path) })
        | none ↦ ok (none, record after { reason = CompletionReason.cancelled })
      ]
  ]

  unfoldable pub trace_requested :
      NodeId
      → ℕ
      → ℕ
      → Option (ℕ → Option Predecessor)
      → Tally
      → Result RoutingError (Option RoutePath × Tally)
  trace_requested destination dense distance none tally = ok (none, tally)
  trace_requested destination dense distance (some predecessors) tally =
      trace destination dense distance predecessors tally

  -- The state of one destination.
  unfoldable pub classify :
      NodeId → Option ℕ → Tally → Result RoutingError (DestinationState × Tally)
  unfolding trace trace_requested is_cut_short
  classify destination none tally = ok (DestinationState.missing_node, tally)
  classify destination (some dense) tally =
      if s.finalized dense || dense == origin
      then (do
        distance ← ok_or (s.distances dense) (internal_invariant Request.finalized_without_distance)
        (path, after) ← trace_requested destination dense distance s.predecessors tally
        ok (DestinationState.exact (record { logical_distance = distance; path = path }), after))
      else ok (
        if is_cut_short tally.reason
            then DestinationState.incomplete
            else DestinationState.unreachable,
        tally,
      )

  -- `for (&destination, dense) in destinations.zip(dense_destinations)`
  unfoldable pub classify_all :
      List NodeId → Tally → Result RoutingError (List DestinationResult × Tally)
  classify_all [] tally = ok ([], tally)
  classify_all (destination ∷ rest) tally = do
    (state, after) ← classify destination (t.dense_node_id destination) tally
    (results, end) ← classify_all rest after
    ok (record { destination = destination; state = state } ∷ results, end)

module _ (f : Float64) (t : RoutingTopology) (signal : ℕ → Bool) (request : RoutingRequest) where
  -- The search from its start, unless the signal is seen before the first round. Each round pops
  -- an entry, and an edge is pushed at most once, so this fuel is enough.
  unfoldable pub run_search :
      PackedRelationProfile → Search → Result RoutingError (CompletionReason × Search)
  run_search profile s =
      if signal s.clock
      then ok (CompletionReason.cancelled, polled s)
      else search f t signal request.budget profile (suc (suc t.adjacency_count)) (polled s)

  unfoldable pub finish :
      PackedRelationProfile
      → ℕ
      → ℕ
      → CompletionReason
      → Search
      → Result RoutingError (RoutingResponse × CpuSearchDiagnostics)
  finish profile origin unique reason s = do
    (results, end) ←
        classify_all f t signal profile request.origin origin s request.destinations
          (first_tally reason s)
    ok (
      respond request profile results s.examined_edges s.finalized_nodes end.reason,
      diagnose s unique end.steps results,
    )

  unfoldable pub route_topology_controlled :
      Result RoutingError (RoutingResponse × CpuSearchDiagnostics)
  unfolding map_profile_error checked_add
  route_topology_controlled = do
    origin ← ok_or (t.dense_node_id request.origin) (missing_origin request.origin)
    profile ← map_profile_error (pack_relation_ids request.profile t.relation_ids)
    let m = membership (map t.dense_node_id request.destinations) (λ _. false, 0)
    if m.1 == 0 then ok (all_missing request profile) else do
      _ ← ok_or (checked_add t.adjacency_count 1) resource_estimate_overflow
      (reason, s) ← run_search profile (start origin request.return_paths m.0 m.1)
      finish profile origin m.1 reason s

-- `route`, under a signal that is never raised.
unfoldable pub route :
    Float64 → RoutingTopology → RoutingRequest → Result RoutingError RoutingResponse
route f t request = do
  (response, _) ← route_topology_controlled f t (λ _. false) request
  ok response
