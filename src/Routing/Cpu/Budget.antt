-- ===== src/Routing/Cpu/Budget.antt =====
-- A response examines no more edges than its budget permits.
pub mod Loop
use path_hydra.Common.{
  ℕ, zero, suc, ◌+◌, ◌-◌, ◌≤◌, ◌<◌, ◌≡◌, ◌∙◌, sym, refl, inl, inr, ltb, ◌==◌, Bool, true, false, ok,
  none, some, List, [], ◌∷◌, map, Option, guard, ok_or, ◌>>=◌, ◌>>◌, >>=-eq-ok, holds_of_ok,
  Bool-cases, Option-cases, List-cases, Result-cases, if◌then◌else◌, not, arith,
}
use path_hydra.Core.{u64_bound}
use path_hydra.Routing.Float64.{Float64}
use path_hydra.Routing.Profile.{
  RelationMultiplier, RelationUse, disabled, enabled, PackedRelationProfile, relation_use_index,
  pack_relation_ids,
}
use path_hydra.Routing.Request
use path_hydra.Routing.Request.{
  DestinationState, DestinationResult, index_out_of_bounds, internal_invariant, SearchBudget,
  examined_edges, permits, CompletionReason, RoutingRequest, RoutingResponse,
}
use path_hydra.Routing.Topology.{RoutingTopology, OutgoingEdge}
use path_hydra.Routing.Cpu.{
  Predecessor, Search, more, stop, Flow, lower, improve, effective_weight, accumulate_distance,
  relax_enabled, relax_use, relax, scan, expand, visit, iterate, search, polled, mark, is_stale,
}
use path_hydra.Routing.Cpu.Frontier.{FrontierEntry}
use path_hydra.Routing.Cpu.Route.{
  CpuSearchDiagnostics, Tally, first_tally, classify, classify_all, start, run_search, all_missing,
  respond, route_topology_controlled,
}
use path_hydra.Routing.Cpu.Results.{
  IsAnswer, route-IsAnswer, Reported, classify-Reported, requested,
}
use path_hydra.Routing.Cpu.Budget.Loop.{Within, search-Within}
use path_hydra.Core.{NodeId}

module _ (f : Float64) (t : RoutingTopology) (signal : ℕ → Bool) (profile : PackedRelationProfile)
    (external_origin : NodeId) (origin : ℕ) (s : Search) where
  classify_all-Reported :
      (ids : List NodeId) (reason : CompletionReason) (tally end : Tally)
      (results : List DestinationResult)
      → Reported reason tally
      → classify_all f t signal profile external_origin origin s ids tally ≡ ok (results, end)
      → Reported reason end
  unfolding classify_all
  classify_all-Reported [] reason tally end results r h =
      holds_of_ok {A = List DestinationResult × Tally} (λ x. Reported reason x.1) {a = ([], tally)}
        r h
  classify_all-Reported (id ∷ ids) reason tally end results r h =
      let (x, one, h1) = >>=-eq-ok {A = DestinationState × Tally} _ _ h in
      let (y, rest, h2) = >>=-eq-ok {A = List DestinationResult × Tally} _ _ h1 in
      holds_of_ok {A = List DestinationResult × Tally} (λ z. Reported reason z.1)
        {a = (record { destination = id; state = x.0 } ∷ y.0, y.1)}
        (classify_all-Reported ids reason x.1 y.1 y.0
          (classify-Reported f t signal profile external_origin origin s id (t.dense_node_id id)
            reason tally x.1 x.0 r one)
          rest)
        h2

-- The completion reason of a response is the search's own, or says that a path was cut short.
exhausted :
    (reason : CompletionReason) (tally : Tally)
    → Reported reason tally
    → tally.reason ≡ CompletionReason.budget_exhausted
    → reason ≡ CompletionReason.budget_exhausted
exhausted reason tally (inl same) e = sym same ∙ e
exhausted reason tally (inr cut) e = absurd (cc (cut, e))

first-Reported : (reason : CompletionReason) (s : Search) → Reported reason (first_tally reason s)
unfolding first_tally
first-Reported reason s = inl refl

start-examined :
    (origin : ℕ) (return_paths : Bool) (pending : ℕ → Bool) (count : ℕ)
    → (start origin return_paths pending count).examined_edges ≡ 0
unfolding start
start-examined origin return_paths pending count = refl

nothing_examined :
    (request : RoutingRequest) (profile : PackedRelationProfile) (maximum : ℕ)
    → ((all_missing request profile).0.examined_edges ≤ maximum)
      × ((all_missing request profile).0.completion_reason ≡ CompletionReason.budget_exhausted
          → (all_missing request profile).0.examined_edges ≡ maximum)
unfolding all_missing respond
nothing_examined request profile maximum = (omega arith, λ e. absurd (cc e))

run_search-Within :
    (f : Float64) (t : RoutingTopology) (signal : ℕ → Bool) (request : RoutingRequest)
    (profile : PackedRelationProfile) (maximum : ℕ)
    → request.budget ≡ examined_edges maximum
    → (s final : Search) (reason : CompletionReason) → s.examined_edges ≡ 0
    → run_search f t signal request profile s ≡ ok (reason, final)
    → Within maximum reason final
unfolding run_search polled
run_search-Within f t signal request profile maximum budget s final reason zero_ h =
    elim (Bool-cases (signal s.clock)) [
      | inl seen ↦
          holds_of_ok {A = CompletionReason × Search} (λ x. Within maximum x.0 x.1)
            {a = (CompletionReason.cancelled, polled s)} (omega (arith, zero_), λ e. absurd (cc e))
            (rw seen at h)
      | inr unseen ↦
          search-Within f t signal profile maximum _ (polled s) final reason (omega (arith, zero_))
            (rw (unseen, budget) at h)
    ]

-- A response under a budget has examined no more edges than the budget's maximum, and exactly as
-- many where it says that the budget is exhausted.
pub route-budget :
    (f : Float64) (t : RoutingTopology) (signal : ℕ → Bool) (request : RoutingRequest) (maximum : ℕ)
    (response : RoutingResponse) (diagnostics : CpuSearchDiagnostics)
    → request.budget ≡ examined_edges maximum
    → route_topology_controlled f t signal request ≡ ok (response, diagnostics)
    → (response.examined_edges ≤ maximum)
      × (response.completion_reason ≡ CompletionReason.budget_exhausted
          → response.examined_edges ≡ maximum)
unfolding route_topology_controlled
route-budget f t signal request maximum response diagnostics budget h =
    elim (Option-cases (t.dense_node_id request.origin)) [
      | inl missing ↦ absurd (cc (rw missing at h))
      | inr (origin, known) ↦
          elim (Result-cases (pack_relation_ids request.profile t.relation_ids)) [
            | inr (e, invalid) ↦ absurd (cc (rw (known, invalid) at h))
            | inl (profile, packed) ↦
                elim (route-IsAnswer f t signal request origin profile known packed response
                  diagnostics h) [
                    | inl (_, absent) ↦ rw absent (nothing_examined request profile maximum)
                    | inr a ↦
                        let w =
                          run_search-Within f t signal request profile maximum budget _ a.final
                            a.reason
                            (start-examined origin request.return_paths
                              (requested f t signal request origin profile known packed).0
                              (requested f t signal request origin profile known packed).1)
                            a.searched in
                        (
                          rw a.examined w.0,
                          λ e.
                              a.examined
                              ∙ w.1 (
                                  exhausted a.reason a.end
                                    (classify_all-Reported f t signal profile request.origin origin
                                      a.final request.destinations a.reason
                                      (first_tally a.reason a.final) a.end response.results
                                      (first-Reported a.reason a.final) a.classified)
                                    (sym a.completion ∙ e)),
                        )
                  ]
          ]
    ]
