-- ===== src/Routing/Cpu/Invariant/Scan.antt =====
-- The loop over the outgoing edges, and one round of the search loop.
use path_hydra.Common.{
  ℕ, zero, suc, ◌+◌, ◌-◌, ◌≤◌, ◌≡◌, refl, ap, inl, inr, Bool, true, Option, none, some, ok, ◌>>=◌,
  arith, ltb, ◌==◌, Bool-cases, >>=-eq-ok, holds_of_ok,
}
use path_hydra.Core.{u64_bound}
use path_hydra.Routing.Float64.{Float64}
use path_hydra.Routing.Profile.{PackedRelationProfile}
use path_hydra.Routing.Request.{SearchBudget, permits, CompletionReason}
use path_hydra.Routing.Topology.{RoutingTopology, OutgoingEdge, IsLawful}
use path_hydra.Routing.Cpu.{Search, Flow, more, stop, polled, relax, scan}
use path_hydra.Routing.Cpu.Frontier.{FrontierEntry}
use path_hydra.Routing.Cpu.Walk.{Walk, IsCanonical}
use path_hydra.Routing.Cpu.Invariant.{View, Facts, Facts-of_Inv, view, Inv, AllSettled}
use path_hydra.Routing.Cpu.Invariant.Edges.{Scanning, relax-Scanning}

module _ (f : Float64) (t : RoutingTopology) (profile : PackedRelationProfile) (origin : ℕ) where
  -- A search that has left the loop. If it has seen the whole frontier, what is reached is final.
  pub record Ended (reason : CompletionReason) (s : Search) : Type 0 where
    pub facts : Facts f t profile origin (view s)
    pub complete :
        (v d : ℕ)
        → reason ≡ CompletionReason.frontier_exhausted
        → Walk f t profile origin v d
        → s.finalized v ≡ true

  pub record Going (s : Search) : Type 0 where
    pub inv : Inv f t profile origin (view s)
    pub settled : AllSettled f t profile origin (view s)

  abbrev pub FlowHolds : Flow → Type 0
  FlowHolds (more s) = Going s
  FlowHolds (stop reason s) = Ended reason s

module _ (f : Float64) (t : RoutingTopology) (signal : ℕ → Bool) (budget : SearchBudget)
    (profile : PackedRelationProfile) (laws : IsLawful t) (canonical : IsCanonical profile)
    (origin : ℕ) where
  module _ (start end : ℕ) (current : FrontierEntry)
      (range : t.outgoing_range current.node ≡ ok (start, end)) where
    abbrev At : ℕ → View → Type 0
    At = Scanning f t profile laws canonical origin start end current range

    -- At the end of the range all final nodes are settled.
    scanned : (b : ℕ) (s : Search) → end ≤ b → At b (view s) → Going f t profile origin s
    scanned b s past sc = record {
      inv = sc.inv;
      settled = record {
        at = λ u d s1 e1 a fin k ran above below. elim (Bool-cases (u == current.node)) [
          | inl it ↦
              let p : u ≡ current.node = ground arith in
              let q : e1 ≡ end = cc (range, ap t.outgoing_range p) in
              sc.settled.at u d s1 e1 a fin k ran above below (inr (omega arith))
          | inr other ↦ sc.settled.at u d s1 e1 a fin k ran above below (inl (λ p. ground arith))
        ];
      };
    }

    -- What stops the scan keeps the invariant.
    cut :
        (b : ℕ) (s : Search) (reason : CompletionReason)
        → ¬ (reason ≡ CompletionReason.frontier_exhausted)
        → At b (view s)
        → Ended f t profile origin reason s
    cut b s reason short sc = record {
      facts = Facts-of_Inv f t profile origin (view s) (view s) refl refl sc.inv;
      complete = λ v d e w. absurd (short e);
    }

    -- The rest of a round, once the read is made, where the later rounds are known to hold.
    read_round :
        (rounds a : ℕ) (s : Search) (flow : Flow)
        → suc rounds ≡ end - a
        → start ≤ a
        → At a (view s)
        → ((s' : Search)
            → rounds ≡ end - (a + 1)
            → start ≤ a + 1
            → At (a + 1) (view s')
            → scan f t signal budget profile rounds (a + 1) current s' ≡ ok flow
            → FlowHolds f t profile origin flow)
        → (found : Option OutgoingEdge) → t.edge_at a s.clock ≡ ok found
        → (elim found [
          | none ↦ ok (stop CompletionReason.cancelled s)
          | some edge ↦
              relax f t.node_count profile current a edge s
              >>= scan f t signal budget profile rounds (a + 1) current
        ])
          ≡ ok flow
        → FlowHolds f t profile origin flow
    read_round rounds a s flow r above sc later none read h =
        holds_of_ok (FlowHolds f t profile origin) (cut a s CompletionReason.cancelled (λ e. cc) sc)
          h
    read_round rounds a s flow r above sc later (some e) read h =
        let (s', relaxed, h') = >>=-eq-ok _ _ h in
        later s' (omega arith) (omega arith)
          (relax-Scanning f t profile laws canonical origin start end current range a s.clock e read
            s s' above (omega arith) sc relaxed)
          h'

    pub scan-FlowHolds :
        (rounds a : ℕ) (s : Search) (flow : Flow)
        → rounds ≡ end - a
        → start ≤ a
        → At a (view s)
        → scan f t signal budget profile rounds a current s ≡ ok flow
        → FlowHolds f t profile origin flow
    unfolding scan polled
    scan-FlowHolds zero a s flow r above sc h =
        holds_of_ok (FlowHolds f t profile origin) (scanned a s (omega arith) sc) h
    scan-FlowHolds (suc rounds) a s flow r above sc h = elim (Bool-cases (signal s.clock)) [
      | inl seen ↦
          holds_of_ok (FlowHolds f t profile origin)
            (cut a (polled s) CompletionReason.cancelled (λ e. cc) sc) (rw seen at h)
      | inr unseen ↦ elim (Bool-cases (permits budget s.examined_edges)) [
        | inr spent ↦
            holds_of_ok (FlowHolds f t profile origin)
              (cut a (polled s) CompletionReason.budget_exhausted (λ e. cc) sc)
              (rw (unseen, spent) at h)
        | inl left ↦ elim (Bool-cases (ltb (s.examined_edges + 1) u64_bound)) [
          | inr full ↦ absurd (cc (rw (unseen, left, full) at h))
          | inl room ↦
              let s' = record (polled s) { examined_edges = s.examined_edges + 1 } in
              let (found, read, h1) = >>=-eq-ok _ _ (rw (unseen, left, room) at h) in
              read_round rounds a s' flow r above sc (λ s''. scan-FlowHolds rounds (a + 1) s'' flow)
                found read h1
        ]
      ]
    ]
