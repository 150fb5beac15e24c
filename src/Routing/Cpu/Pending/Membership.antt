-- ===== src/Routing/Cpu/Pending/Membership.antt =====
-- The membership that is computed before the search.
use path_hydra.Common.{
  ℕ, ◌+◌, ◌<◌, ◌≡◌, refl, sym, inl, inr, Bool, true, false, Option, some, none, List, [], ◌∷◌, map,
  Has, All, arith, Bool-cases,
}
use path_hydra.Core.{NodeId}
use path_hydra.Routing.Topology.{RoutingTopology, IsLawful}
use path_hydra.Routing.Cpu.{update, polled}
use path_hydra.Routing.Cpu.Route.{membership, start}
use path_hydra.Routing.Cpu.Pending.Count.{marked_below, marked_below-set, marked_below-none}
use path_hydra.Routing.Cpu.Pending.Tracks.{Tracks}

abbrev Bounded : ℕ → List (Option ℕ) → Type 0
Bounded n = All (λ o. (d : ℕ) → o ≡ some d → d < n)

record IsMembership (n : ℕ) (pending : ℕ → Bool) (count : ℕ) : Type 0 where
  below : (v : ℕ) → pending v ≡ true → v < n
  counted : count ≡ marked_below n pending

mark_one :
    (n d : ℕ) (pending : ℕ → Bool) (count : ℕ)
    → d < n
    → pending d ≡ false
    → IsMembership n pending count
    → IsMembership n (update pending d true) (count + 1)
mark_one n d pending count lt fresh m = record {
  below = λ v e. ground (arith, m.below v);
  counted = omega (arith, m.counted, marked_below-set n pending d lt fresh);
}

membership-IsMembership :
    (n : ℕ) (l : List (Option ℕ)) (pending : ℕ → Bool) (count : ℕ)
    → Bounded n l
    → IsMembership n pending count
    → IsMembership n (membership l (pending, count)).0 (membership l (pending, count)).1
unfolding membership
membership-IsMembership n [] pending count b m = m
membership-IsMembership n (none ∷ l) pending count b m =
    membership-IsMembership n l pending count b.1 m
membership-IsMembership n (some d ∷ l) pending count b m = elim (Bool-cases (pending d)) [
  | inl old ↦ rw (old, membership) (membership-IsMembership n l pending count b.1 m)
  | inr fresh ↦
      rw (fresh, membership)
        (membership-IsMembership n l (update pending d true) (count + 1) b.1
          (mark_one n d pending count (b.0 d refl) fresh m))
]

-- What is marked stays marked.
membership_keeps :
    (l : List (Option ℕ)) (pending : ℕ → Bool) (count v : ℕ)
    → pending v ≡ true
    → (membership l (pending, count)).0 v ≡ true
unfolding membership
membership_keeps [] pending count v h = h
membership_keeps (none ∷ l) pending count v h = membership_keeps l pending count v h
membership_keeps (some d ∷ l) pending count v h = elim (Bool-cases (pending d)) [
  | inl old ↦ rw (old, membership) (membership_keeps l pending count v h)
  | inr fresh ↦
      rw (fresh, membership)
        (membership_keeps l (update pending d true) (count + 1) v (ground arith))
]

-- Each destination in the image is marked.
pub membership_marks :
    (l : List (Option ℕ)) (pending : ℕ → Bool) (count v : ℕ)
    → Has (some v) l
    → (membership l (pending, count)).0 v ≡ true
unfolding membership
membership_marks [] pending count v h = absurd h
membership_marks (none ∷ l) pending count v (inl e) = absurd (cc e)
membership_marks (none ∷ l) pending count v (inr h) = membership_marks l pending count v h
membership_marks (some d ∷ l) pending count v h = elim (Bool-cases (pending d)) [
  | inl old ↦
      rw (old, membership)
        (elim h [
          | inl e ↦ let p : v ≡ d = cc e in membership_keeps l pending count v (rw p old)
          | inr later ↦ membership_marks l pending count v later
        ])
  | inr fresh ↦
      rw (fresh, membership)
        (elim h [
          | inl e ↦
              let p : v ≡ d = cc e in
              membership_keeps l (update pending d true) (count + 1) v (ground arith)
          | inr later ↦ membership_marks l (update pending d true) (count + 1) v later
        ])
]

dense-Bounded :
    (t : RoutingTopology) (laws : IsLawful t) (ids : List NodeId)
    → Bounded t.node_count (map t.dense_node_id ids)
dense-Bounded t laws [] = tt
dense-Bounded t laws (id ∷ ids) = (laws.dense_lt id, dense-Bounded t laws ids)

-- The search starts with the marks of the destinations, counted.
pub start-Tracks :
    (t : RoutingTopology) (laws : IsLawful t) (ids : List NodeId) (origin : ℕ) (paths : Bool)
    → let m = membership (map t.dense_node_id ids) (λ _. false, 0) in
      Tracks m.0 t.node_count (polled (start origin paths m.0 m.1))
unfolding start polled
start-Tracks t laws ids origin paths =
    let m =
      membership-IsMembership t.node_count (map t.dense_node_id ids) (λ _. false) 0
        (dense-Bounded t laws ids)
        (record { below = λ v e. absurd (cc e); counted = sym (marked_below-none t.node_count) }) in
    record { below = m.below; counted = m.counted; kept = λ v w. inl w }
