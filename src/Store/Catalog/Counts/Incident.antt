-- ===== src/Store/Catalog/Counts/Incident.antt =====
-- The edges that `remove_node` finds at its node, and what it counts of them.
use path_hydra.Common.{
  ℕ, ◌+◌, ◌<◌, ◌≡◌, ◌∙◌, refl, sym, subst, inl, inr, Bool, false, ◌==◌, some, List, [], ◌∷◌, ◌++◌,
  take, All, lookup-insert, lookup-remove, Sorted, Sorted-insert, Sorted-remove, lookup_of_remove,
  remove, total-remove, Has, Has-insert, ok, ok_or, ok_or-eq-ok, guard, >>=-eq-ok, holds_of_ok,
  Bool-cases, arith,
}
use path_hydra.Common.Keyed.{lookup, insert}
use path_hydra.Common.Totals.{total}
use path_hydra.Core.{
  Bytes, NodeId, EdgeId, RelationId, EdgeRecord, checked_add, checked_add-eq-some,
}
use path_hydra.Store.Codec.{decode_adjacency_key, encode_id_key}
use path_hydra.Store.Family.{Family, bytes_eq}
use path_hydra.Store.Catalog.{
  Catalog, decoded_value, incident_edge, incident_from, endpoint_of, decoded_key,
}
use path_hydra.Store.Catalog.Insert.{value_or_zero}
use path_hydra.Store.Catalog.Remove.{agrees, merge_incident, decrements_of, remove_all}
use path_hydra.Store.Catalog.Counts.{uses}

-- A record of an edge that stands under its identity.
abbrev pub Stands : List (ℕ × EdgeRecord) → EdgeRecord → Type 0
Stands edges found = lookup edges found.id ≡ some found

abbrev pub IsKeyed : List (ℕ × EdgeRecord) → Type 0
IsKeyed edges = (id : EdgeId) (found : EdgeRecord) → lookup edges id ≡ some found → found.id ≡ id

incident_edge-Stands :
    (c : Catalog) (node : NodeId) (outgoing : Bool) (key : Bytes) (value : ℕ) (found : EdgeRecord)
    → IsKeyed c.edges
    → incident_edge c node outgoing key value ≡ ok found
    → Stands c.edges found
unfolding incident_edge
incident_edge-Stands c node outgoing key value found keyed h =
    let ((n, id), _, h1) = >>=-eq-ok (decoded_key (decode_adjacency_key key)) _ h in
    let (_, _, h2) = >>=-eq-ok (guard (n == node) _) _ h1 in
    let (_, _, h2) = >>=-eq-ok (decoded_value value id) _ h2 in
    let (edge, e, h3) = >>=-eq-ok (ok_or (lookup c.edges id) _) _ h2 in
    let (_, _, h4) = >>=-eq-ok (guard (endpoint_of outgoing edge == node) _) _ h3 in
    let there = ok_or-eq-ok (lookup c.edges id) _ e in
    holds_of_ok (Stands c.edges)
      (subst (λ k. lookup c.edges k ≡ some edge) (sym (keyed id edge there)) there) h4

pub incident_from-Stands :
    (c : Catalog) (node : NodeId) (outgoing : Bool) (family : Family) (found : List EdgeRecord)
    → IsKeyed c.edges
    → incident_from c node outgoing family ≡ ok found
    → All (Stands c.edges) found
unfolding incident_from
incident_from-Stands c node outgoing [] found keyed h =
    holds_of_ok (All (Stands c.edges)) {a = []} tt h
incident_from-Stands c node outgoing ((key, v) ∷ family) found keyed h =
    elim (Bool-cases (bytes_eq (take 8 key) (encode_id_key node))) [
      | inl prefixed ↦
          let h0 = rw prefixed at h in
          let (edge, e, h1) = >>=-eq-ok (incident_edge c node outgoing key v) _ h0 in
          let (edges, e1, h2) = >>=-eq-ok (incident_from c node outgoing family) _ h1 in
          holds_of_ok (All (Stands c.edges)) {a = edge ∷ edges}
            (
              incident_edge-Stands c node outgoing key v edge keyed e,
              incident_from-Stands c node outgoing family edges keyed e1,
            )
            h2
      | inr over ↦ holds_of_ok (All (Stands c.edges)) {a = []} tt (rw over at h)
    ]

pub All-append :
    (edges : List (ℕ × EdgeRecord)) (xs ys : List EdgeRecord)
    → All (Stands edges) xs
    → All (Stands edges) ys
    → All (Stands edges) (xs ++ ys)
All-append edges [] ys a b = b
All-append edges (x ∷ xs) ys (h, a) b = (h, All-append edges xs ys a b)

-- The merged entries are edges of the catalog under their identities.
pub record IsIncident (edges incident : List (ℕ × EdgeRecord)) : Type 0 where
  pub sorted : Sorted incident
  pub each : (e : ℕ × EdgeRecord) → Has e incident → (e.1.id ≡ e.0) × Stands edges e.1

pub merge_incident-IsIncident :
    (edges : List (ℕ × EdgeRecord)) (found : List EdgeRecord) (incident end : List (ℕ × EdgeRecord))
    → All (Stands edges) found
    → IsIncident edges incident
    → merge_incident found incident ≡ ok end
    → IsIncident edges end
unfolding merge_incident
merge_incident-IsIncident edges [] incident end a i h = holds_of_ok (IsIncident edges) i h
merge_incident-IsIncident edges (x ∷ found) incident end (s, a) i h =
    let (_, _, h1) = >>=-eq-ok (guard (agrees x (lookup incident x.id)) _) _ h in
    merge_incident-IsIncident edges found (insert incident x.id x) end a
      (record {
        sorted = Sorted-insert incident x.id x i.sorted;
        each = λ e has. elim (Has-insert incident x.id x e has) [
          | inl new ↦ subst (λ y. (y.1.id ≡ y.0) × Stands edges y.1) (sym new) (refl, s)
          | inr old ↦ i.each e old
        ];
      })
      h1

-- The counts of the decrements, by relation.
pub decrements_of-total :
    (r : RelationId) (incident : List (ℕ × EdgeRecord)) (decrements end : List (ℕ × ℕ))
    → decrements_of incident decrements ≡ ok end
    → (value_or_zero (lookup end r) ≡ total (uses r) incident + value_or_zero (lookup decrements r))
      × (Sorted decrements → Sorted end)
unfolding decrements_of total uses value_or_zero
decrements_of-total r [] decrements end h =
    holds_of_ok
      (λ x.
        (value_or_zero (lookup x r) ≡ 0 + value_or_zero (lookup decrements r))
        × (Sorted decrements → Sorted x))
      (omega arith, λ s. s) h
decrements_of-total r ((k, found) ∷ incident) decrements end h =
    let (count, e, h1) =
      >>=-eq-ok (ok_or (checked_add (value_or_zero (lookup decrements found.relation_kind)) 1) _) _
        h in
    let d =
      checked_add-eq-some (value_or_zero (lookup decrements found.relation_kind)) 1 count
        (ok_or-eq-ok _ _ e) in
    let (t, s) =
      decrements_of-total r incident (insert decrements found.relation_kind count) end h1 in
    let l = lookup-insert decrements found.relation_kind count r in
    (
      elim (Bool-cases (found.relation_kind == r)) [
        | inl same ↦
            let p : found.relation_kind ≡ r = ground (arith, same) in
            let d' : count ≡ value_or_zero (lookup decrements r) + 1 =
              subst (λ x. count ≡ value_or_zero (lookup decrements x) + 1) p d in
            let t' = rw (rw same at l) at t in rw same (omega (arith, t', d'))
        | inr other ↦ let t' = rw (rw other at l) at t in rw other (omega (arith, t'))
      ],
      λ sorted. s (Sorted-insert decrements found.relation_kind count sorted),
    )

above_of :
    (k : ℕ) (m : List (ℕ × EdgeRecord)) (e : ℕ × EdgeRecord)
    → All (λ x. k < x.0) m
    → Has e m
    → k < e.0
above_of k [] e a h = absurd h
above_of k (x ∷ m) e (low, a) (inl same) = subst (λ y. k < y.0) (sym same) low
above_of k (x ∷ m) e (low, a) (inr later) = above_of k m e a later

-- Removing the incident edges takes away what they use.
pub remove_all-total :
    (r : RelationId) (incident edges : List (ℕ × EdgeRecord))
    → Sorted edges
    → IsIncident edges incident
    → (total (uses r) incident + total (uses r) (remove_all incident edges) ≡ total (uses r) edges)
      × Sorted (remove_all incident edges)
      × ((id : EdgeId) (found : EdgeRecord)
          → lookup (remove_all incident edges) id ≡ some found
          → lookup edges id ≡ some found)
unfolding remove_all total
remove_all-total r [] edges s i = (omega arith, s, λ id other h. h)
remove_all-total r ((k, found) ∷ incident) edges s i =
    let (id, stands) = i.each (k, found) (inl refl) in
    let there : lookup edges found.id ≡ some found = stands in
    let one = total-remove (uses r) edges found.id found s there in
    let rest : IsIncident (remove edges found.id) incident = record {
      sorted = i.sorted.1;
      each = λ e has.
          let (same, stays) = i.each e (inr has) in
          (
            same,
            let above = above_of k incident e i.sorted.0 has in
                let differs : (found.id == e.1.id) ≡ false = ground (arith, id, same, above) in
                rw differs at (lookup-remove edges found.id e.1.id) ∙ stays,
          );
    } in
    let (t, sorted, back) =
      remove_all-total r incident (remove edges found.id) (Sorted-remove edges found.id s) rest in
    (omega (arith, t, one), sorted, λ x other h. lookup_of_remove edges found.id x (back x other h))
