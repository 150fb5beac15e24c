-- ===== src/Routing/Cpu/Fuel/Search.antt =====
-- The loop of the search ends: each round takes an entry off the frontier, and the entries that it
-- adds are paid for by the edges of the node that it finalizes.
use path_hydra.Common.{
  ℕ, zero, suc, ◌+◌, ◌-◌, ◌≤◌, ◌<◌, ◌≡◌, sym, refl, inl, inr, ltb, ◌==◌, Bool, true, false, ok,
  length, guard, >>=-eq-ok, Bool-cases, List-cases, arith,
}
use path_hydra.Core.{u64_bound}
use path_hydra.Routing.Float64.{Float64}
use path_hydra.Routing.Profile.{PackedRelationProfile}
use path_hydra.Routing.Request.{
  RoutingError, out_of_fuel, index_out_of_bounds, internal_invariant, SearchBudget, permits,
  CompletionReason,
}
use path_hydra.Routing.Request
use path_hydra.Routing.Topology.{RoutingTopology}
use path_hydra.Routing.Cpu.{
  update, Search, more, stop, expand, visit, iterate, search, polled, mark, is_stale,
}
use path_hydra.Routing.Cpu.Frontier.{FrontierEntry}
use path_hydra.Routing.Cpu.Fuel.{IsFuelled, IsFuelled->>=, IsFuelled-ok, IsFuelled-guard, IsBounded}
use path_hydra.Routing.Cpu.Fuel.Growth.{scan-IsFuelled, scan-Grows}
use path_hydra.Routing.Cpu.Fuel.Unpaid.{unpaid, unpaid-update}

not_final :
    (current : FrontierEntry) (s : Search)
    → is_stale current s ≡ false
    → s.finalized current.node ≡ false
unfolding is_stale
not_final current s h = ground arith

module _ (f : Float64) (t : RoutingTopology) (signal : ℕ → Bool) (budget : SearchBudget)
    (profile : PackedRelationProfile) (bounded : IsBounded t) where
  expand-IsFuelled :
      (current : FrontierEntry) (s : Search)
      → IsFuelled (expand f t signal budget profile current s)
  unfolding expand
  expand-IsFuelled current s =
      IsFuelled->>= _ _ (IsFuelled-guard (ltb (s.finalized_nodes + 1) u64_bound) _ (λ p. cc p))
        (λ _ _. elim (Bool-cases ((mark current.node s).pending_count == 0)) [
          | inl all ↦ rw all (IsFuelled-ok _)
          | inr left ↦ rw left (
              IsFuelled->>= _ _ (bounded.range-IsFuelled current.node) (λ (start, end) _.
                scan-IsFuelled f t signal budget profile bounded (end - start) start current _))
        ])

  -- What a node that becomes final adds to the frontier, with its range.
  expand-Grows :
      (current : FrontierEntry) (s s' : Search)
      → expand f t signal budget profile current s ≡ ok (more s')
      → (current.node < t.node_count)
        × (length s'.frontier
            ≤ (bounded.offset (current.node + 1) - bounded.offset current.node) + length s.frontier)
        × (s'.finalized ≡ update s.finalized current.node true)
  unfolding expand mark
  expand-Grows current s s' h =
      let (_, _, h1) =
        >>=-eq-ok
          (guard (ltb (s.finalized_nodes + 1) u64_bound)
            (internal_invariant Request.finalized_counter_overflow))
          _ h in
      elim (Bool-cases ((mark current.node s).pending_count == 0)) [
        | inl all ↦ absurd (cc (rw all at h1))
        | inr left ↦
            let ((start, end), range, h2) =
              >>=-eq-ok (t.outgoing_range current.node) _ (rw left at h1) in
            let (inside, low, high) = bounded.range_eq current.node start end range in
            let g =
              scan-Grows f t signal budget profile bounded (end - start) start current
                (mark current.node s) s' h2 in
            (inside, rw (sym low, sym high) g.frontier_le, g.same)
      ]

  -- The entries of the frontier, and the edges that may still add one.
  unfoldable pub measure : Search → ℕ
  measure s = length s.frontier + unpaid bounded.offset s.finalized t.node_count

  iterate-IsFuelled : (s : Search) → IsFuelled (iterate f t signal budget profile s)
  unfolding iterate visit
  iterate-IsFuelled s = elim (List-cases s.frontier) [
    | inl nothing ↦ rw nothing (IsFuelled-ok _)
    | inr (current, rest, front) ↦
        rw front (elim (Bool-cases (is_stale current (record s { frontier = rest }))) [
          | inl stale ↦ rw stale (IsFuelled-ok _)
          | inr fresh ↦ rw fresh (elim (Bool-cases (signal s.clock)) [
            | inl seen ↦ rw seen (IsFuelled-ok _)
            | inr unseen ↦ rw unseen (expand-IsFuelled current _)
          ])
        ])
  ]

  iterate-measure :
      (s s' : Search) → iterate f t signal budget profile s ≡ ok (more s') → measure s' < measure s
  unfolding iterate visit measure polled
  iterate-measure s s' h = elim (List-cases s.frontier) [
    | inl nothing ↦ absurd (cc (rw nothing at h))
    | inr (current, rest, front) ↦
        let popped : Search = record s { frontier = rest } in
        let size : length s.frontier ≡ suc (length rest) = rw front refl in
        elim (Bool-cases (is_stale current popped)) [
          | inl stale ↦
              let p : popped ≡ s' = cc (rw (front, stale) at h) in rw (sym p) (omega (arith, size))
          | inr fresh ↦ elim (Bool-cases (signal s.clock)) [
            | inl seen ↦ absurd (cc (rw (front, fresh, seen) at h))
            | inr unseen ↦
                let (inside, grown, same) =
                  expand-Grows current (polled popped) s' (rw (front, fresh, unseen) at h) in
                let paid =
                  unpaid-update bounded.offset s.finalized current.node t.node_count inside
                    (not_final current popped fresh) in
                rw same (omega (arith, size, grown, paid))
          ]
        ]
  ]

  -- Fuel above the measure is enough.
  pub search-IsFuelled :
      (fuel : ℕ) (s : Search)
      → measure s < fuel
      → IsFuelled (search f t signal budget profile fuel s)
  unfolding search
  search-IsFuelled zero s h = absurd (omega arith)
  search-IsFuelled (suc fuel) s h = IsFuelled->>= _ _ (iterate-IsFuelled s) (λ flow e.
      elim flow
          as (λ k.
            iterate f t signal budget profile s ≡ ok k
            → IsFuelled (elim k [
              | stop reason s' ↦ ok (reason, s')
              | more s' ↦ search f t signal budget profile fuel s'
            ])) [
              | stop reason s' ↦ λ _. IsFuelled-ok _
              | more s' ↦ λ e. search-IsFuelled fuel s' (omega (arith, iterate-measure s s' e))
            ]
        e)
