-- ===== src/Routing/Cpu/Pending/Tracks.antt =====
-- The membership invariant through the search loop.
use path_hydra.Common.{
  ℕ, zero, suc, ◌+◌, ◌-◌, ◌<◌, ◌≡◌, ◌∙◌, sym, ◌⊎◌, inl, inr, Bool, true, ok, arith, ltb, ◌==◌,
  Bool-cases, List-cases, >>=-eq-ok, holds_of_ok,
}
use path_hydra.Core.{u64_bound}
use path_hydra.Routing.Float64.{Float64}
use path_hydra.Routing.Profile.{PackedRelationProfile}
use path_hydra.Routing.Request.{SearchBudget, CompletionReason}
use path_hydra.Routing.Topology.{RoutingTopology}
use path_hydra.Routing.Cpu.{
  Search, Flow, more, stop, polled, mark, is_stale, expand, visit, iterate, search,
}
use path_hydra.Routing.Cpu.Frontier.{FrontierEntry}
use path_hydra.Routing.Cpu.Pending.{Kept, FlowKept, scan-Kept}
use path_hydra.Routing.Cpu.Pending.Count.{
  marked_below, marked_below-clear, marked_below-clear_unmarked, unmarked_of_zero,
}

-- The pending marks are below `n` and counted, and each wanted node is pending or final.
pub record Tracks (wanted : ℕ → Bool) (n : ℕ) (s : Search) : Type 0 where
  pub below : (v : ℕ) → s.pending v ≡ true → v < n
  pub counted : s.pending_count ≡ marked_below n s.pending
  pub kept : (v : ℕ) → wanted v ≡ true → (s.pending v ≡ true) ⊎ (s.finalized v ≡ true)

-- The state of a search that has stopped.
pub record Stopped (wanted : ℕ → Bool) (reason : CompletionReason) (s : Search) : Type 0 where
  pub served :
      (v : ℕ)
      → reason ≡ CompletionReason.all_destinations_finalized
      → wanted v ≡ true
      → s.finalized v ≡ true

abbrev FlowTracks : (ℕ → Bool) → ℕ → Flow → Type 0
FlowTracks wanted n (more s) = Tracks wanted n s
FlowTracks wanted n (stop reason s) = Stopped wanted reason s

module _ (wanted : ℕ → Bool) (n : ℕ) where
  Tracks-Kept : (s s' : Search) → Kept s s' → Tracks wanted n s → Tracks wanted n s'
  Tracks-Kept s s' k t = record {
    below = λ v e. t.below v (rw k.pending at e);
    counted = rw (k.pending, k.count) t.counted;
    kept = λ v w. rw (k.pending, k.finalized) (t.kept v w);
  }

  mark-Tracks : (node : ℕ) (s : Search) → Tracks wanted n s → Tracks wanted n (mark node s)
  unfolding mark
  mark-Tracks node s t = elim (Bool-cases (s.pending node)) [
    | inl pending ↦ record {
      below = λ v e. ground (arith, t.below v);
      counted =
          rw pending
            (omega (arith, marked_below-clear n s.pending node (t.below node pending) pending));
      kept = λ v w. ground (arith, t.kept v w);
    }
    | inr idle ↦ record {
      below = λ v e. ground (arith, t.below v);
      counted = rw idle (omega (arith, marked_below-clear_unmarked n s.pending node idle));
      kept = λ v w. ground (arith, t.kept v w);
    }
  ]

  served_of_zero :
      (s : Search)
      → Tracks wanted n s
      → s.pending_count ≡ 0
      → (v : ℕ) → wanted v ≡ true
      → s.finalized v ≡ true
  served_of_zero s t z v w = elim (t.kept v w) [
    | inl pending ↦
        absurd
          (cc (unmarked_of_zero n s.pending v (sym t.counted ∙ z) (t.below v pending), pending))
    | inr fin ↦ fin
  ]

  unserved :
      (s : Search) (r : CompletionReason)
      → ¬ (r ≡ CompletionReason.all_destinations_finalized)
      → Stopped wanted r s
  unserved s r h = record { served = λ v e w. absurd (h e) }

  flow_of_kept :
      (s : Search) (flow : Flow) → Tracks wanted n s → FlowKept s flow → FlowTracks wanted n flow
  flow_of_kept s (more x) t k = Tracks-Kept s x k t
  flow_of_kept s (stop r x) t k = unserved x r k.1

  module _ (f : Float64) (t : RoutingTopology) (signal : ℕ → Bool) (budget : SearchBudget)
      (profile : PackedRelationProfile) where
    expand-Tracks :
        (current : FrontierEntry) (s : Search) (flow : Flow)
        → Tracks wanted n s
        → expand f t signal budget profile current s ≡ ok flow
        → FlowTracks wanted n flow
    unfolding expand
    expand-Tracks current s flow tr h = elim (Bool-cases (ltb (s.finalized_nodes + 1) u64_bound)) [
      | inr full ↦ absurd (cc (rw full at h))
      | inl room ↦
          let s' = mark current.node s in
          let tr' = mark-Tracks current.node s tr in
          elim (Bool-cases (s'.pending_count == 0)) [
            | inl done ↦
                holds_of_ok (FlowTracks wanted n)
                  {a = stop CompletionReason.all_destinations_finalized s'}
                  (record { served = λ v e w. served_of_zero s' tr' (ground arith) v w })
                  (rw (room, done) at h)
            | inr left ↦
                let (r, _, h1) =
                  >>=-eq-ok (t.outgoing_range current.node) _ (rw (room, left) at h) in
                flow_of_kept s' flow tr'
                  (scan-Kept f t signal budget profile (r.1 - r.0) r.0 current s' flow h1)
          ]
    ]

    visit-Tracks :
        (current : FrontierEntry) (s : Search) (flow : Flow)
        → Tracks wanted n s
        → visit f t signal budget profile current s ≡ ok flow
        → FlowTracks wanted n flow
    unfolding visit polled
    visit-Tracks current s flow tr h = elim (Bool-cases (is_stale current s)) [
      | inl stale ↦ holds_of_ok (FlowTracks wanted n) {a = more s} tr (rw stale at h)
      | inr fresh ↦ elim (Bool-cases (signal s.clock)) [
        | inl seen ↦
            holds_of_ok (FlowTracks wanted n) {a = stop CompletionReason.cancelled (polled s)}
              (unserved (polled s) CompletionReason.cancelled (λ e. cc e)) (rw (fresh, seen) at h)
        | inr unseen ↦
            expand-Tracks current (polled s) flow
              (record { below = tr.below; counted = tr.counted; kept = tr.kept })
              (rw (fresh, unseen) at h)
      ]
    ]

    iterate-Tracks :
        (s : Search) (flow : Flow)
        → Tracks wanted n s
        → iterate f t signal budget profile s ≡ ok flow
        → FlowTracks wanted n flow
    unfolding iterate
    iterate-Tracks s flow tr h = elim (List-cases s.frontier) [
      | inl empty ↦
          holds_of_ok (FlowTracks wanted n) {a = stop CompletionReason.frontier_exhausted s}
            (unserved s CompletionReason.frontier_exhausted (λ e. cc e)) (rw (empty, iterate) at h)
      | inr (current, rest, e) ↦
          visit-Tracks current (record s { frontier = rest }) flow
            (record { below = tr.below; counted = tr.counted; kept = tr.kept })
            (rw (e, iterate) at h)
    ]

    pub search-Stopped :
        (fuel : ℕ) (s s' : Search) (reason : CompletionReason)
        → Tracks wanted n s
        → search f t signal budget profile fuel s ≡ ok (reason, s')
        → Stopped wanted reason s'
    unfolding search
    search-Stopped zero s s' reason tr h = cc
    search-Stopped (suc fuel) s s' reason tr h =
        let (flow, round, h') = >>=-eq-ok _ _ h in
        step (λ x. search-Stopped fuel x s' reason) flow (iterate-Tracks s flow tr round) h'
      where
        step :
            ((x : Search)
              → Tracks wanted n x
              → search f t signal budget profile fuel x ≡ ok (reason, s')
              → Stopped wanted reason s')
            → (flow : Flow) → FlowTracks wanted n flow
            → (elim flow [
              | stop r x ↦ ok (r, x)
              | more x ↦ search f t signal budget profile fuel x
            ])
              ≡ ok (reason, s')
            → Stopped wanted reason s'
        step later (stop r x) held e =
            let p : r ≡ reason = cc e in let q : x ≡ s' = cc e in rw (← p, ← q) held
        step later (more x) held e = later x held e
