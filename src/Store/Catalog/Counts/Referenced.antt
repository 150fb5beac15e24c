-- ===== src/Store/Catalog/Counts/Referenced.antt =====
-- The reference counts that `insert_candidate_batch` gives to the candidates of the batch.
use path_hydra.Common.{
  ℕ, zero, suc, ◌+◌, ◌<◌, ◌≡◌, ◌∙◌, refl, subst, inl, inr, Bool, true, false, ◌==◌, if◌then◌else◌,
  List, [], ◌∷◌, length, get_elem?, set, get_elem?_lt, length-set, ok, ok_or, ok_or-eq-ok, guard,
  >>=-eq-ok, holds_of_ok, Bool-cases, Option-cases, arith,
}
use path_hydra.Common.Keyed.{lookup, insert}
use path_hydra.Core.{
  checked_add-eq-some, CandidateId, Candidate, CandidateNodeReference, CandidateRelationReference,
  checked_add,
}
use path_hydra.Store.Errors.{EdgeEndpoint, CatalogError}
use path_hydra.Store.Batch.{BatchNodeReference, BatchRelationReference, CandidateBatchEntry}
use path_hydra.Store.Catalog.{Catalog, require_node, require_relation_kind}
use path_hydra.Store.Catalog.Insert.{
  BatchTally, value_or_zero, increment_incoming, is_node_entry, is_relation_entry,
  resolve_batch_node_reference, resolve_batch_relation, plan_entry, plan,
}
use path_hydra.Store.Catalog.Counts.Planned.{}

-- How often an entry refers to the entry at an index.
unfoldable pub node_refers : ℕ → BatchNodeReference → ℕ
node_refers j (BatchNodeReference.batch_node local) = if local == j then 1 else 0
node_refers j (BatchNodeReference.confirmed _) = 0

unfoldable pub relation_refers : ℕ → BatchRelationReference → ℕ
relation_refers j (BatchRelationReference.batch_relation_kind local) = if local == j then 1 else 0
relation_refers j (BatchRelationReference.confirmed _) = 0

unfoldable pub entry_refers : ℕ → CandidateBatchEntry → ℕ
entry_refers j (CandidateBatchEntry.edge source destination relation_kind _) =
    node_refers j source + node_refers j destination + relation_refers j relation_kind
entry_refers j (CandidateBatchEntry.node _ _) = 0
entry_refers j (CandidateBatchEntry.relation_kind _) = 0

unfoldable pub batch_references : ℕ → List CandidateBatchEntry → ℕ
batch_references j [] = 0
batch_references j (entry ∷ entries) = entry_refers j entry + batch_references j entries

-- The counts of as many candidates, where that of `j` has grown.
pub record Grew (j added : ℕ) (before after : List ℕ) : Type 0 where
  pub count : value_or_zero (get_elem? after j) ≡ value_or_zero (get_elem? before j) + added
  pub size : length after ≡ length before

Grew-same : (j : ℕ) (incoming : List ℕ) → Grew j 0 incoming incoming
Grew-same j incoming = record { count = omega arith; size = refl }

Grew-trans :
    (j a b : ℕ) {first second third : List ℕ}
    → Grew j a first second
    → Grew j b second third
    → Grew j (a + b) first third
Grew-trans j a b g h = record { count = omega (arith, g.count, h.count); size = h.size ∙ g.size }

get_elem?-set :
    (xs : List ℕ) (i j v : ℕ)
    → i < length xs
    → value_or_zero (get_elem? (set xs i v) j)
      ≡ (if i == j then v else value_or_zero (get_elem? xs j))
unfolding value_or_zero
get_elem?-set [] i j v h = absurd (omega (arith, h))
get_elem?-set (x ∷ xs) zero zero v h = refl
get_elem?-set (x ∷ xs) zero (suc j) v h = ground arith
get_elem?-set (x ∷ xs) (suc i) zero v h = ground arith
get_elem?-set (x ∷ xs) (suc i) (suc j) v h =
    let rest = get_elem?-set xs i j v (omega (arith, h)) in ground (arith, rest)

increment_incoming-Grew :
    (j local : ℕ) (incoming end : List ℕ)
    → local < length incoming
    → increment_incoming incoming local ≡ ok end
    → Grew j (if local == j then 1 else 0) incoming end
unfolding increment_incoming
increment_incoming-Grew j local incoming end low h =
    let (count, e, h1) =
      >>=-eq-ok (ok_or (checked_add (value_or_zero (get_elem? incoming local)) 1) _) _ h in
    let d =
      checked_add-eq-some (value_or_zero (get_elem? incoming local)) 1 count (ok_or-eq-ok _ _ e) in
    let g = get_elem?-set incoming local j count low in
    holds_of_ok (λ x. Grew j (if local == j then 1 else 0) incoming x)
      (record {
        count = elim (Bool-cases (local == j)) [
          | inl same ↦
              let p : local ≡ j = ground arith in
              let d' : count ≡ value_or_zero (get_elem? incoming j) + 1 =
                subst (λ x. count ≡ value_or_zero (get_elem? incoming x) + 1) p d in
              rw same (rw same at g ∙ d')
          | inr other ↦ rw other (omega (arith, rw other at g))
        ];
        size = length-set incoming local count;
      })
      h1

present :
    (entries : List CandidateBatchEntry) (local : ℕ)
    → is_node_entry (get_elem? entries local) ≡ true
    → local < length entries
unfolding is_node_entry
present entries local h = elim (Option-cases (get_elem? entries local)) [
  | inl absent ↦ absurd (cc (rw absent at h))
  | inr (entry, p) ↦ get_elem?_lt entries local p
]

present_relation :
    (entries : List CandidateBatchEntry) (local : ℕ)
    → is_relation_entry (get_elem? entries local) ≡ true
    → local < length entries
unfolding is_relation_entry
present_relation entries local h = elim (Option-cases (get_elem? entries local)) [
  | inl absent ↦ absurd (cc (rw absent at h))
  | inr (entry, p) ↦ get_elem?_lt entries local p
]

pub guard-eq-ok : (b : Bool) (e : CatalogError) {u : Unit} → guard b e ≡ ok u → b ≡ true
guard-eq-ok true e h = refl
guard-eq-ok false e h = cc

module _ (c : Catalog) (entries : List CandidateBatchEntry) (first : CandidateId) (j : ℕ) where
  node-Grew :
      (owner : ℕ) (endpoint : EdgeEndpoint) (reference : BatchNodeReference) (incoming : List ℕ)
      (end : CandidateNodeReference × List ℕ)
      → length incoming ≡ length entries
      → resolve_batch_node_reference c entries first owner endpoint reference incoming ≡ ok end
      → Grew j (node_refers j reference) incoming end.1
  unfolding resolve_batch_node_reference node_refers
  node-Grew owner endpoint (BatchNodeReference.confirmed id) incoming end l h =
      let (_, _, h1) = >>=-eq-ok (require_node c id endpoint) _ h in
      holds_of_ok (λ x. Grew j 0 incoming x.1) {a = (CandidateNodeReference.confirmed id, incoming)}
        (Grew-same j incoming) h1
  node-Grew owner endpoint (BatchNodeReference.batch_node local) incoming end l h =
      let (_, e, h1) = >>=-eq-ok (guard (is_node_entry (get_elem? entries local)) _) _ h in
      let (incoming1, e1, h2) = >>=-eq-ok (increment_incoming incoming local) _ h1 in
      let low = present entries local (guard-eq-ok _ _ e) in
      holds_of_ok (λ x. Grew j (if local == j then 1 else 0) incoming x.1)
        {a = (CandidateNodeReference.candidate (first + local), incoming1)}
        (increment_incoming-Grew j local incoming incoming1 (omega (arith, low, l)) e1) h2

  relation-Grew :
      (owner : ℕ) (reference : BatchRelationReference) (incoming : List ℕ)
      (provisional : List (ℕ × ℕ)) (end : CandidateRelationReference × List ℕ × List (ℕ × ℕ))
      → length incoming ≡ length entries
      → resolve_batch_relation c entries first owner reference incoming provisional ≡ ok end
      → Grew j (relation_refers j reference) incoming end.1
  unfolding resolve_batch_relation relation_refers
  relation-Grew owner (BatchRelationReference.confirmed id) incoming provisional end l h =
      let (_, _, h1) = >>=-eq-ok (require_relation_kind c id) _ h in
      let (delta, _, h2) =
        >>=-eq-ok (ok_or (checked_add (value_or_zero (lookup provisional id)) 1) _) _ h1 in
      holds_of_ok (λ x. Grew j 0 incoming x.1)
        {a = (CandidateRelationReference.confirmed id, incoming, insert provisional id delta)}
        (Grew-same j incoming) h2
  relation-Grew owner (BatchRelationReference.batch_relation_kind local) incoming provisional end l
        h =
      let (_, e, h1) = >>=-eq-ok (guard (is_relation_entry (get_elem? entries local)) _) _ h in
      let (incoming1, e1, h2) = >>=-eq-ok (increment_incoming incoming local) _ h1 in
      let low = present_relation entries local (guard-eq-ok _ _ e) in
      holds_of_ok (λ x. Grew j (if local == j then 1 else 0) incoming x.1)
        {a = (CandidateRelationReference.candidate (first + local), incoming1, provisional)}
        (increment_incoming-Grew j local incoming incoming1 (omega (arith, low, l)) e1) h2

  plan_entry-Grew :
      (index : ℕ) (entry : CandidateBatchEntry) (tally : BatchTally) (end : Candidate × BatchTally)
      → length tally.incoming ≡ length entries
      → plan_entry c entries first index entry tally ≡ ok end
      → Grew j (entry_refers j entry) tally.incoming end.1.incoming
  unfolding plan_entry entry_refers
  plan_entry-Grew index (CandidateBatchEntry.node name payload) tally end l h =
      holds_of_ok (λ x. Grew j 0 tally.incoming x.1.incoming)
        {a = (
          Candidate.node (first + index) name payload 0,
          record tally { counts = record tally.counts { nodes = tally.counts.nodes + 1 } },
        )}
        (Grew-same j tally.incoming) h
  plan_entry-Grew index (CandidateBatchEntry.relation_kind name) tally end l h =
      holds_of_ok (λ x. Grew j 0 tally.incoming x.1.incoming)
        {a = (
          Candidate.relation (first + index) name 0,
          record tally {
            counts = record tally.counts { relation_kinds = tally.counts.relation_kinds + 1 };
          },
        )}
        (Grew-same j tally.incoming) h
  plan_entry-Grew index (CandidateBatchEntry.edge source destination kind weight) tally end l h =
      let ((source1, incoming1), e1, h1) =
        >>=-eq-ok
          (resolve_batch_node_reference c entries first index EdgeEndpoint.source source
            tally.incoming)
          _ h in
      let ((destination1, incoming2), e2, h2) =
        >>=-eq-ok
          (resolve_batch_node_reference c entries first index EdgeEndpoint.destination destination
            incoming1)
          _ h1 in
      let ((kind1, incoming3, provisional), e3, h3) =
        >>=-eq-ok
          (resolve_batch_relation c entries first index kind incoming2
            tally.provisional_by_relation)
          _ h2 in
      let g1 =
        node-Grew index EdgeEndpoint.source source tally.incoming (source1, incoming1) l e1 in
      let g2 =
        node-Grew index EdgeEndpoint.destination destination incoming1 (destination1, incoming2)
          (g1.size ∙ l) e2 in
      let g3 =
        relation-Grew index kind incoming2 tally.provisional_by_relation
          (kind1, incoming3, provisional) (g2.size ∙ g1.size ∙ l) e3 in
      holds_of_ok
        (λ x.
          Grew j (node_refers j source + node_refers j destination + relation_refers j kind)
            tally.incoming x.1.incoming)
        {a = (
          Candidate.edge (first + index) source1 destination1 kind1 weight,
          record {
            counts = record tally.counts { edges = tally.counts.edges + 1 };
            incoming = incoming3;
            provisional_by_relation = provisional;
          },
        )}
        (Grew-trans j _ _ (Grew-trans j _ _ g1 g2) g3) h3

  pub plan-Grew :
      (index : ℕ) (rest : List CandidateBatchEntry) (tally : BatchTally)
      (end : List Candidate × BatchTally)
      → length tally.incoming ≡ length entries
      → plan c entries first index rest tally ≡ ok end
      → Grew j (batch_references j rest) tally.incoming end.1.incoming
  unfolding plan batch_references
  plan-Grew index [] tally end l h =
      holds_of_ok (λ x. Grew j 0 tally.incoming x.1.incoming) {a = ([], tally)}
        (Grew-same j tally.incoming) h
  plan-Grew index (entry ∷ rest) tally end l h =
      let ((candidate, tally1), e, h1) =
        >>=-eq-ok (plan_entry c entries first index entry tally) _ h in
      let ((candidates, tally2), e1, h2) =
        >>=-eq-ok (plan c entries first (suc index) rest tally1) _ h1 in
      let g = plan_entry-Grew index entry tally (candidate, tally1) l e in
      let more = plan-Grew (suc index) rest tally1 (candidates, tally2) (g.size ∙ l) e1 in
      holds_of_ok
        (λ x. Grew j (entry_refers j entry + batch_references j rest) tally.incoming x.1.incoming)
        {a = (candidate ∷ candidates, tally2)} (Grew-trans j _ _ g more) h2
