-- ===== src/Routing/Cpu/Budget/Loop.antt =====
-- Every round of the search keeps the count of the examined edges within the budget.
use path_hydra.Common.{
  ℕ, zero, suc, ◌+◌, ◌-◌, ◌≤◌, ◌≡◌, refl, inl, inr, ltb, ◌==◌, Bool, ok, none, some, [], Option,
  guard, ok_or, >>=-eq-ok, holds_of_ok, Bool-cases, Option-cases, List-cases, arith,
}
use path_hydra.Core.{u64_bound}
use path_hydra.Routing.Float64.{Float64}
use path_hydra.Routing.Profile.{
  RelationMultiplier, RelationUse, disabled, enabled, PackedRelationProfile, relation_use_index,
}
use path_hydra.Routing.Request
use path_hydra.Routing.Request.{
  index_out_of_bounds, internal_invariant, SearchBudget, examined_edges, permits, CompletionReason,
  RoutingRequest, RoutingResponse,
}
use path_hydra.Routing.Topology.{RoutingTopology, OutgoingEdge}
use path_hydra.Routing.Cpu.{
  Predecessor, Search, more, stop, Flow, lower, improve, effective_weight, accumulate_distance,
  relax_enabled, relax_use, relax, scan, expand, visit, iterate, search, polled, mark, is_stale,
}
use path_hydra.Routing.Cpu.Frontier.{FrontierEntry}
use path_hydra.Routing.Cpu.Route.{start}

improve-examined :
    (old : Option ℕ) (candidate destination : ℕ) (p : Predecessor) (s : Search)
    → (improve old candidate destination p s).examined_edges ≡ s.examined_edges
unfolding improve lower
improve-examined none candidate destination p s = refl
improve-examined (some existing) candidate destination p s =
    elim (Bool-cases (ltb candidate existing)) [
      | inl less ↦ rw less refl
      | inr not_less ↦ rw not_less (elim (Bool-cases (candidate == existing)) [
        | inl tie ↦ rw tie refl
        | inr no_tie ↦ rw no_tie refl
      ])
    ]

-- The count of the examined edges is within the maximum, and at it where the budget ended the search.
abbrev pub Within : ℕ → CompletionReason → Search → Type 0
Within maximum reason s =
    (s.examined_edges ≤ maximum)
    × (reason ≡ CompletionReason.budget_exhausted → s.examined_edges ≡ maximum)

abbrev Kept : ℕ → Flow → Type 0
Kept maximum (more s) = s.examined_edges ≤ maximum
Kept maximum (stop reason s) = Within maximum reason s

module _ (f : Float64) (t : RoutingTopology) (signal : ℕ → Bool) (profile : PackedRelationProfile)
    (maximum : ℕ) where
  relax_enabled-examined :
      (current : FrontierEntry) (a : ℕ) (edge : OutgoingEdge) (m : RelationMultiplier)
      (s s' : Search)
      → relax_enabled f t.node_count current a edge m s ≡ ok s'
      → s'.examined_edges ≡ s.examined_edges
  unfolding relax_enabled
  relax_enabled-examined current a edge m s s' h =
      let (_, _, h1) =
        >>=-eq-ok (guard (ltb edge.destination t.node_count) index_out_of_bounds) _ h in
      elim (Bool-cases (s.finalized edge.destination)) [
        | inl final ↦ holds_of_ok (λ x. x.examined_edges ≡ s.examined_edges) refl (rw final at h1)
        | inr open_ ↦
            let (w, _, h2) = >>=-eq-ok (effective_weight f edge.base_weight m) _ (rw open_ at h1) in
            let (c, _, h3) = >>=-eq-ok (accumulate_distance f current.distance w) _ h2 in
            holds_of_ok (λ x. x.examined_edges ≡ s.examined_edges)
              (improve-examined (s.distances edge.destination) c edge.destination
                (record { source = current.node; edge = edge.edge_id; adjacency = a }) s)
              h3
      ]

  relax-examined :
      (current : FrontierEntry) (a : ℕ) (edge : OutgoingEdge) (s s' : Search)
      → relax f t.node_count profile current a edge s ≡ ok s'
      → s'.examined_edges ≡ s.examined_edges
  unfolding relax
  relax-examined current a edge s s' h =
      let (u, _, h1) =
        >>=-eq-ok
          (ok_or (relation_use_index profile edge.relation_index)
            (internal_invariant Request.edge_relation_not_packed))
          _ h in
      used u h1
    where
      used :
          (u : RelationUse)
          → relax_use f t.node_count current a edge u s ≡ ok s'
          → s'.examined_edges ≡ s.examined_edges
      used disabled e = holds_of_ok (λ x. x.examined_edges ≡ s.examined_edges) refl e
      used (enabled m) e = relax_enabled-examined current a edge m s s' e

  scan-Kept :
      (rounds a : ℕ) (current : FrontierEntry) (s : Search) (flow : Flow)
      → s.examined_edges ≤ maximum
      → scan f t signal (examined_edges maximum) profile rounds a current s ≡ ok flow
      → Kept maximum flow
  unfolding scan polled permits
  scan-Kept zero a current s flow le h = holds_of_ok (Kept maximum) {a = more s} le h
  scan-Kept (suc rounds) a current s flow le h = elim (Bool-cases (signal s.clock)) [
    | inl seen ↦
        holds_of_ok (Kept maximum) {a = stop CompletionReason.cancelled (polled s)}
          (le, λ e. absurd (cc e)) (rw seen at h)
    | inr unseen ↦ elim (Bool-cases (ltb s.examined_edges maximum)) [
      | inr spent ↦
          holds_of_ok (Kept maximum) {a = stop CompletionReason.budget_exhausted (polled s)}
            (le, λ e. ground arith) (rw (unseen, spent) at h)
      | inl left ↦
          let (_, _, h1) =
            >>=-eq-ok
              (guard (ltb (s.examined_edges + 1) u64_bound)
                (internal_invariant Request.examined_counter_overflow))
              _ (rw (unseen, left) at h) in
          let s1 : Search = record (polled s) { examined_edges = s.examined_edges + 1 } in
          let le1 : s1.examined_edges ≤ maximum = ground arith in
          let (found, _, h2) = >>=-eq-ok (t.edge_at a (s.clock + 1)) _ h1 in
          elim (Option-cases found) [
            | inl unread ↦
                holds_of_ok (Kept maximum) {a = stop CompletionReason.cancelled s1}
                  (le1, λ e. absurd (cc e)) (rw unread at h2)
            | inr (edge, read) ↦
                let (s2, relaxed, h3) =
                  >>=-eq-ok (relax f t.node_count profile current a edge s1) _ (rw read at h2) in
                scan-Kept rounds (a + 1) current s2 flow
                  (omega (arith, relax-examined current a edge s1 s2 relaxed)) h3
          ]
    ]
  ]

  iterate-Kept :
      (s : Search) (flow : Flow)
      → s.examined_edges ≤ maximum
      → iterate f t signal (examined_edges maximum) profile s ≡ ok flow
      → Kept maximum flow
  unfolding iterate visit expand mark polled
  iterate-Kept s flow le h = elim (List-cases s.frontier) [
    | inl nothing ↦
        holds_of_ok (Kept maximum)
          {a = stop CompletionReason.frontier_exhausted (record s { frontier = [] })}
          (le, λ e. absurd (cc e)) (rw nothing at h)
    | inr (current, rest, front) ↦
        let popped : Search = record s { frontier = rest } in
        elim (Bool-cases (is_stale current popped)) [
          | inl stale ↦ holds_of_ok (Kept maximum) {a = more popped} le (rw (front, stale) at h)
          | inr fresh ↦ elim (Bool-cases (signal s.clock)) [
            | inl seen ↦
                holds_of_ok (Kept maximum) {a = stop CompletionReason.cancelled (polled popped)}
                  (le, λ e. absurd (cc e)) (rw (front, fresh, seen) at h)
            | inr unseen ↦
                let (_, _, h1) =
                  >>=-eq-ok
                    (guard (ltb (s.finalized_nodes + 1) u64_bound)
                      (internal_invariant Request.finalized_counter_overflow))
                    _ (rw (front, fresh, unseen) at h) in
                elim (Bool-cases ((mark current.node (polled popped)).pending_count == 0)) [
                  | inl all ↦
                      holds_of_ok (Kept maximum)
                        {a = stop CompletionReason.all_destinations_finalized
                          (mark current.node (polled popped))}
                        (le, λ e. absurd (cc e)) (rw all at h1)
                  | inr left ↦
                      let ((start, end), _, h2) =
                        >>=-eq-ok (t.outgoing_range current.node) _ (rw left at h1) in
                      scan-Kept (end - start) start current (mark current.node (polled popped)) flow
                        le h2
                ]
          ]
        ]
  ]

  pub search-Within :
      (fuel : ℕ) (s final : Search) (reason : CompletionReason)
      → s.examined_edges ≤ maximum
      → search f t signal (examined_edges maximum) profile fuel s ≡ ok (reason, final)
      → Within maximum reason final
  unfolding search
  search-Within zero s final reason le h = absurd (cc h)
  search-Within (suc fuel) s final reason le h =
      let (flow, e, h1) = >>=-eq-ok (iterate f t signal (examined_edges maximum) profile s) _ h in
      elim flow
          as (λ k.
            Kept maximum k
            → (elim k [
              | stop reason s' ↦ ok (reason, s')
              | more s' ↦ search f t signal (examined_edges maximum) profile fuel s'
            ])
              ≡ ok (reason, final)
            → Within maximum reason final) [
              | stop reason' s' ↦
                  λ kept h2. holds_of_ok (λ x. Within maximum x.0 x.1) {a = (reason', s')} kept h2
              | more s' ↦ λ kept h2. search-Within fuel s' final reason kept h2
            ]
        (iterate-Kept s flow le e) h1
