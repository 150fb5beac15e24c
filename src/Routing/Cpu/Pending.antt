-- ===== src/Routing/Cpu/Pending.antt =====
-- The destinations that are not yet final: the count of them that the search keeps is exact, so that
-- a search which stops with the count at 0 has made every destination final.
pub mod Count
pub mod Tracks
pub mod Membership
use path_hydra.Common.{
  ℕ, zero, suc, ◌+◌, ◌-◌, ◌≤◌, ◌<◌, ◌≡◌, refl, ◌∙◌, sym, subst, ap, ◌⊎◌, inl, inr, Bool, true,
  false, Option, some, none, List, [], ◌∷◌, Has, Result, ok, err, ◌>>=◌, arith, ltb, ◌==◌,
  if◌then◌else◌, Bool-cases, Option-cases, List-cases, >>=-eq-ok, holds_of_ok,
}
use path_hydra.Core.{u64_bound}
use path_hydra.Routing.Float64.{Float64}
use path_hydra.Routing.Profile.{
  PackedRelationProfile, RelationUse, disabled, enabled, relation_use_index,
}
use path_hydra.Routing.Request.{SearchBudget, permits, CompletionReason}
use path_hydra.Routing.Topology.{RoutingTopology, OutgoingEdge}
use path_hydra.Routing.Cpu.{
  Search, Predecessor, Flow, more, stop, update, polled, mark, is_stale, improve, lower, relax,
  relax_use, scan, expand, visit, iterate, search,
}
use path_hydra.Routing.Cpu.Frontier.{FrontierEntry}
use path_hydra.Routing.Cpu.Invariant.Edges.{Improved, predecessor_of, relax_enabled-cases}

pub record Kept (s s' : Search) : Type 0 where
  pub pending : s'.pending ≡ s.pending
  pub count : s'.pending_count ≡ s.pending_count
  pub finalized : s'.finalized ≡ s.finalized

Kept-refl : (s : Search) → Kept s s
Kept-refl s = record { pending = refl; count = refl; finalized = refl }

Kept-trans : (s t u : Search) → Kept s t → Kept t u → Kept s u
Kept-trans s t u a b = record {
  pending = b.pending ∙ a.pending;
  count = b.count ∙ a.count;
  finalized = b.finalized ∙ a.finalized;
}

improve-Kept : (o : Option ℕ) (c v : ℕ) (p : Predecessor) (s : Search) → Kept s (improve o c v p s)
unfolding improve
improve-Kept none c v p s = record { pending = refl; count = refl; finalized = refl }
improve-Kept (some d) c v p s = elim (Bool-cases (ltb c d)) [
  | inl less ↦ rw less (record { pending = refl; count = refl; finalized = refl })
  | inr more_ ↦ elim (Bool-cases (c == d)) [
    | inl same ↦ rw (more_, same) (record { pending = refl; count = refl; finalized = refl })
    | inr apart ↦ rw (more_, apart) (Kept-refl s)
  ]
]

module _ (f : Float64) (t : RoutingTopology) (profile : PackedRelationProfile) where
  relax_use-Kept :
      (current : FrontierEntry) (a : ℕ) (e : OutgoingEdge) (u : RelationUse) (s s' : Search)
      → relax_use f t.node_count current a e u s ≡ ok s'
      → Kept s s'
  unfolding relax_use
  relax_use-Kept current a e disabled s s' h = let p : s ≡ s' = cc h in rw (← p) (Kept-refl s)
  relax_use-Kept current a e (enabled m) s s' h =
      elim (relax_enabled-cases f t.node_count current a e m s s' h) [
        | inl (_, same) ↦ rw same (Kept-refl s)
        | inr im ↦ rw im.result (
            improve-Kept (s.distances e.destination) im.candidate e.destination
              (predecessor_of f current a e) s)
      ]

  relax-Kept :
      (current : FrontierEntry) (a : ℕ) (e : OutgoingEdge) (s s' : Search)
      → relax f t.node_count profile current a e s ≡ ok s'
      → Kept s s'
  unfolding relax
  relax-Kept current a e s s' h =
      elim (Option-cases (relation_use_index profile e.relation_index)) [
        | inl missing ↦ cc (rw missing at h)
        | inr (u, present) ↦ relax_use-Kept current a e u s s' (rw present at h)
      ]

-- The loop over the edges leaves the membership alone, and never stops for lack of destinations.
abbrev pub FlowKept : Search → Flow → Type 0
FlowKept s (more s') = Kept s s'
FlowKept s (stop reason s') = Kept s s' × ¬ (reason ≡ CompletionReason.all_destinations_finalized)

module _ (f : Float64) (t : RoutingTopology) (signal : ℕ → Bool) (budget : SearchBudget)
    (profile : PackedRelationProfile) where
  FlowKept-from : (s s' : Search) (flow : Flow) → Kept s s' → FlowKept s' flow → FlowKept s flow
  FlowKept-from s s' (more x) k h = Kept-trans s s' x k h
  FlowKept-from s s' (stop reason x) k h = (Kept-trans s s' x k h.0, h.1)

  read-Kept :
      (rounds a : ℕ) (current : FrontierEntry) (s : Search) (flow : Flow)
      → ((s' : Search)
          → scan f t signal budget profile rounds (a + 1) current s' ≡ ok flow
          → FlowKept s' flow)
      → (found : Option OutgoingEdge)
      → (elim found [
        | none ↦ ok (stop CompletionReason.cancelled s)
        | some edge ↦
            relax f t.node_count profile current a edge s
            >>= scan f t signal budget profile rounds (a + 1) current
      ])
        ≡ ok flow
      → FlowKept s flow
  read-Kept rounds a current s flow later none h =
      holds_of_ok (FlowKept s) {a = stop CompletionReason.cancelled s} (Kept-refl s, λ e. cc e) h
  read-Kept rounds a current s flow later (some e) h =
      let (s', relaxed, h') = >>=-eq-ok _ _ h in
      FlowKept-from s s' flow (relax-Kept f t profile current a e s s' relaxed) (later s' h')

  pub scan-Kept :
      (rounds a : ℕ) (current : FrontierEntry) (s : Search) (flow : Flow)
      → scan f t signal budget profile rounds a current s ≡ ok flow
      → FlowKept s flow
  unfolding scan polled
  scan-Kept zero a current s flow h = holds_of_ok (FlowKept s) {a = more s} (Kept-refl s) h
  scan-Kept (suc rounds) a current s flow h =
      let s1 = polled s in
      let s2 = record s1 { examined_edges = s.examined_edges + 1 } in
      let k1 : Kept s s1 = record { pending = refl; count = refl; finalized = refl } in
      let k2 : Kept s s2 = record { pending = refl; count = refl; finalized = refl } in
      elim (Bool-cases (signal s.clock)) [
        | inl seen ↦
            holds_of_ok (FlowKept s) {a = stop CompletionReason.cancelled s1} (k1, λ e. cc e)
              (rw seen at h)
        | inr unseen ↦ elim (Bool-cases (permits budget s.examined_edges)) [
          | inr spent ↦
              holds_of_ok (FlowKept s) {a = stop CompletionReason.budget_exhausted s1}
                (k1, λ e. cc e) (rw (unseen, spent) at h)
          | inl left ↦ elim (Bool-cases (ltb (s.examined_edges + 1) u64_bound)) [
            | inr full ↦ absurd (cc (rw (unseen, left, full) at h))
            | inl room ↦
                let (found, read, h1) =
                  >>=-eq-ok (t.edge_at a (polled s).clock) _ (rw (unseen, left, room) at h) in
                FlowKept-from s s2 flow k2 (
                  read-Kept rounds a current s2 flow
                    (λ s''. scan-Kept rounds (a + 1) current s'' flow) found h1)
          ]
        ]
      ]
