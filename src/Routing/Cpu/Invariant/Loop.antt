-- ===== src/Routing/Cpu/Invariant/Loop.antt =====
-- The search loop keeps its invariant, from the origin to whatever ends it.
use path_hydra.Common.{
  ℕ, zero, suc, ◌+◌, ◌-◌, ◌≡◌, refl, ap, subst, inl, inr, Bool, false, some, List, ◌∷◌, Has, ok,
  arith, ltb, ◌==◌, Bool-cases, List-cases, >>=-eq-ok, holds_of_ok,
}
use path_hydra.Core.{u64_bound}
use path_hydra.Routing.Float64.{Float64}
use path_hydra.Routing.Profile.{PackedRelationProfile}
use path_hydra.Routing.Request.{SearchBudget, CompletionReason}
use path_hydra.Routing.Topology.{RoutingTopology, IsLawful}
use path_hydra.Routing.Cpu.{
  Search, Flow, more, stop, polled, mark, is_stale, expand, visit, iterate, search,
}
use path_hydra.Routing.Cpu.Frontier.{FrontierEntry}
use path_hydra.Routing.Cpu.Walk.{IsCanonical}
use path_hydra.Routing.Cpu.Invariant.{Facts-of_Inv, view, with_frontier, Inv, AllSettled}
use path_hydra.Routing.Cpu.Invariant.Cover.{covered}
use path_hydra.Routing.Cpu.Invariant.Scan.{Ended, Going, FlowHolds, scan-FlowHolds}
use path_hydra.Routing.Cpu.Invariant.Pop.{
  dropped-Inv, fresh_of_not_stale, finalized-Inv, finalized-Scanning,
}

module _ (f : Float64) (t : RoutingTopology) (signal : ℕ → Bool) (budget : SearchBudget)
    (profile : PackedRelationProfile) (laws : IsLawful t) (canonical : IsCanonical profile)
    (origin : ℕ) where
  abbrev Holds : Flow → Type 0
  Holds = FlowHolds f t profile origin

  module _ (s : Search) (current : FrontierEntry) (rest : List FrontierEntry)
      (inv : Inv f t profile origin (with_frontier s (current ∷ rest)))
      (all : AllSettled f t profile origin (with_frontier s (current ∷ rest))) where
    abbrev popped : Search
    popped = record s { frontier = rest }

    expand-Holds :
        (flow : Flow)
        → s.finalized current.node ≡ false
        → s.distances current.node ≡ some current.distance
        → expand f t signal budget profile current (polled popped) ≡ ok flow
        → Holds flow
    unfolding expand polled mark
    expand-Holds flow fresh here h = elim (Bool-cases (ltb (s.finalized_nodes + 1) u64_bound)) [
      | inr full ↦ absurd (cc (rw full at h))
      | inl room ↦ elim (Bool-cases ((mark current.node (polled popped)).pending_count == 0)) [
        | inl done ↦
            let inv' =
              finalized-Inv f t profile laws canonical origin s current rest inv all fresh here in
            holds_of_ok Holds
              {a = stop CompletionReason.all_destinations_finalized
                (mark current.node (polled popped))}
              (record {
                facts =
                    Facts-of_Inv f t profile origin _ (view (mark current.node (polled popped)))
                      refl refl inv';
                complete = λ v d e w. absurd (cc e);
              })
              (rw (room, done) at h)
        | inr more_ ↦
            let (r, ran, h1) = >>=-eq-ok _ _ (rw (room, more_) at h) in
            scan-FlowHolds f t signal budget profile laws canonical origin r.0 r.1 current ran
              (r.1 - r.0) r.0 (mark current.node (polled popped)) flow refl (omega arith)
              (finalized-Scanning f t profile laws canonical origin s current rest inv all fresh
                here r.0 r.1 ran)
              h1
      ]
    ]

    visit-Holds :
        (flow : Flow) → visit f t signal budget profile current popped ≡ ok flow → Holds flow
    unfolding visit polled is_stale
    visit-Holds flow h = elim (Bool-cases (is_stale current popped)) [
      | inl stale ↦
          holds_of_ok Holds {a = more popped}
            (record {
              inv = dropped-Inv f t profile laws canonical origin s current rest inv all stale;
              settled = record { at = all.at };
            })
            (rw stale at h)
      | inr current_entry ↦
          let (fresh, here) = fresh_of_not_stale current s current_entry in
          elim (Bool-cases (signal s.clock)) [
            | inl seen ↦
                holds_of_ok Holds {a = stop CompletionReason.cancelled (polled popped)}
                  (record {
                    facts =
                        Facts-of_Inv f t profile origin (with_frontier s (current ∷ rest))
                          (with_frontier s rest) refl refl inv;
                    complete = λ v d e w. absurd (cc e);
                  })
                  (rw (current_entry, seen) at h)
            | inr unseen ↦ expand-Holds flow fresh here (rw (current_entry, unseen) at h)
          ]
    ]

  iterate-Holds :
      (s : Search) (flow : Flow)
      → Going f t profile origin s
      → iterate f t signal budget profile s ≡ ok flow
      → Holds flow
  unfolding iterate
  iterate-Holds s flow g h = elim (List-cases s.frontier) [
    | inl empty ↦
        holds_of_ok Holds {a = stop CompletionReason.frontier_exhausted s}
          (record {
            facts = Facts-of_Inv f t profile origin (view s) (view s) refl refl g.inv;
            complete = λ v d e w.
                elim (covered f t profile laws canonical origin (view s) g.inv g.settled w) [
                  | inl (_, fin, _, _) ↦ fin
                  | inr (e, m, _) ↦ absurd (subst (Has e) empty m)
                ];
          })
          (rw (empty, iterate) at h)
    | inr (current, rest, e) ↦
        let p : view s ≡ with_frontier s (current ∷ rest) =
          ap (λ (l : List FrontierEntry). with_frontier s l) e in
        visit-Holds s current rest (subst (Inv f t profile origin) p g.inv)
          (subst (AllSettled f t profile origin) p g.settled) flow (rw (e, iterate) at h)
  ]

  -- When the loop ends, its distances are those of walks, and those of final nodes are least.
  pub search-Ended :
      (fuel : ℕ) (s s' : Search) (reason : CompletionReason)
      → Going f t profile origin s
      → search f t signal budget profile fuel s ≡ ok (reason, s')
      → Ended f t profile origin reason s'
  unfolding search
  search-Ended zero s s' reason g h = cc
  search-Ended (suc fuel) s s' reason g h =
      let (flow, round, h') = >>=-eq-ok _ _ h in
      step (λ x. search-Ended fuel x s' reason) flow (iterate-Holds s flow g round) h'
    where
      step :
          ((x : Search)
            → Going f t profile origin x
            → search f t signal budget profile fuel x ≡ ok (reason, s')
            → Ended f t profile origin reason s')
          → (flow : Flow) → Holds flow
          → (elim flow [ stop r x ↦ ok (r, x) | more x ↦ search f t signal budget profile fuel x ])
            ≡ ok (reason, s')
          → Ended f t profile origin reason s'
      step later (stop r x) held e =
          let p : r ≡ reason = cc e in let q : x ≡ s' = cc e in rw (← p, ← q) held
      step later (more x) held e = later x held e
