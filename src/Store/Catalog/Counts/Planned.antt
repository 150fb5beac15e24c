-- ===== src/Store/Catalog/Counts/Planned.antt =====
-- What the loop of `insert_candidate_batch` counts, and that its candidates have the identities it gives.
use path_hydra.Common.{
  ℕ, suc, ◌+◌, ◌≡◌, refl, ◌==◌, List, [], ◌∷◌, length, get_elem?, lookup, insert, lookup-insert,
  Sorted, Sorted-insert, ok, guard, ok_or, >>=-eq-ok, holds_of_ok, ok_or-eq-ok, Bool-cases, inl,
  inr, subst, arith,
}
use path_hydra.Core.{
  checked_add-eq-some, CandidateId, RelationId, Candidate, CandidateRelationReference, candidate_id,
  checked_add,
}
use path_hydra.Store.Batch.{BatchRelationReference, CandidateBatchEntry}
use path_hydra.Store.Errors.{EdgeEndpoint}
use path_hydra.Store.Catalog.{Catalog, require_relation_kind}
use path_hydra.Store.Catalog.Insert.{
  BatchTally, value_or_zero, resolve_batch_node_reference, resolve_batch_relation,
  is_relation_entry, increment_incoming, plan_entry, plan, with_incoming, complete, ids_from,
}
use path_hydra.Store.Catalog.Counts.{refers, references}

-- The references of the candidates that a loop has made.
unfoldable pub references_of : RelationId → List Candidate → ℕ
references_of r [] = 0
references_of r (candidate ∷ candidates) = references r candidate + references_of r candidates

unfoldable pub ids_of : List Candidate → List CandidateId
ids_of [] = []
ids_of (candidate ∷ candidates) = candidate_id candidate ∷ ids_of candidates

-- From one tally to a later one, the relation counts grow by the references of the candidates between.
pub record Counted (r : RelationId) (added : ℕ) (before after : BatchTally) : Type 0 where
  pub grown :
      added + value_or_zero (lookup before.provisional_by_relation r)
      ≡ value_or_zero (lookup after.provisional_by_relation r)
  pub sorted : Sorted before.provisional_by_relation → Sorted after.provisional_by_relation

abbrev Grown :
    RelationId → List (ℕ × ℕ) → CandidateRelationReference × List ℕ × List (ℕ × ℕ) → Type 0
Grown r provisional (relation, _, provisional1) =
    (refers r relation + value_or_zero (lookup provisional r)
      ≡ value_or_zero (lookup provisional1 r))
    × (Sorted provisional → Sorted provisional1)

module _ (c : Catalog) (entries : List CandidateBatchEntry) (first : CandidateId)
    (r : RelationId) where
  resolve_batch_relation-Grown :
      (owner : ℕ) (reference : BatchRelationReference) (incoming : List ℕ)
      (provisional : List (ℕ × ℕ)) (end : CandidateRelationReference × List ℕ × List (ℕ × ℕ))
      → resolve_batch_relation c entries first owner reference incoming provisional ≡ ok end
      → Grown r provisional end
  unfolding resolve_batch_relation refers value_or_zero
  resolve_batch_relation-Grown owner (BatchRelationReference.confirmed k) incoming provisional end
        h =
      let (_, _, h1) = >>=-eq-ok (require_relation_kind c k) _ h in
      let (delta, e, h2) =
        >>=-eq-ok (ok_or (checked_add (value_or_zero (lookup provisional k)) 1) _) _ h1 in
      let d =
        checked_add-eq-some (value_or_zero (lookup provisional k)) 1 delta (ok_or-eq-ok _ _ e) in
      let l = lookup-insert provisional k delta r in
      holds_of_ok (Grown r provisional)
        {a = (CandidateRelationReference.confirmed k, incoming, insert provisional k delta)}
        (
          elim (Bool-cases (k == r)) [
            | inl same ↦
                let p : k ≡ r = ground arith in
                rw (l, same)
                  (omega (arith, subst (λ x. delta ≡ value_or_zero (lookup provisional x) + 1) p d))
            | inr other ↦ rw (l, other) (omega arith)
          ],
          Sorted-insert provisional k delta,
        )
        h2
  resolve_batch_relation-Grown owner (BatchRelationReference.batch_relation_kind local) incoming
        provisional end h =
      let (_, _, h1) = >>=-eq-ok (guard (is_relation_entry (get_elem? entries local)) _) _ h in
      let (incoming1, _, h2) = >>=-eq-ok (increment_incoming incoming local) _ h1 in
      holds_of_ok (Grown r provisional)
        {a = (CandidateRelationReference.candidate (first + local), incoming1, provisional)}
        (omega arith, λ s. s) h2

  abbrev Entered : ℕ → BatchTally → Candidate × BatchTally → Type 0
  Entered index tally (candidate, tally1) =
      Counted r (references r candidate) tally tally1 × (candidate_id candidate ≡ first + index)

  -- The candidates and the tally of the loop from an index on, over `n` entries.
  abbrev pub Looped : ℕ → ℕ → BatchTally → List Candidate × BatchTally → Type 0
  Looped index n tally (candidates, tally1) =
      Counted r (references_of r candidates) tally tally1
      × (ids_of candidates ≡ ids_from (first + index) n)

  plan_entry-Counted :
      (index : ℕ) (entry : CandidateBatchEntry) (tally : BatchTally) (end : Candidate × BatchTally)
      → plan_entry c entries first index entry tally ≡ ok end
      → Entered index tally end
  unfolding plan_entry references candidate_id
  plan_entry-Counted index (CandidateBatchEntry.node name payload) tally end h =
      holds_of_ok (Entered index tally)
        {a = (
          Candidate.node (first + index) name payload 0,
          record tally { counts = record tally.counts { nodes = tally.counts.nodes + 1 } },
        )}
        (record { grown = omega arith; sorted = λ s. s }, refl) h
  plan_entry-Counted index (CandidateBatchEntry.relation_kind name) tally end h =
      holds_of_ok (Entered index tally)
        {a = (
          Candidate.relation (first + index) name 0,
          record tally {
            counts = record tally.counts { relation_kinds = tally.counts.relation_kinds + 1 };
          },
        )}
        (record { grown = omega arith; sorted = λ s. s }, refl) h
  plan_entry-Counted index (CandidateBatchEntry.edge source destination kind weight) tally end h =
      let ((source1, incoming1), _, h1) =
        >>=-eq-ok
          (resolve_batch_node_reference c entries first index EdgeEndpoint.source source
            tally.incoming)
          _ h in
      let ((destination1, incoming2), _, h2) =
        >>=-eq-ok
          (resolve_batch_node_reference c entries first index EdgeEndpoint.destination destination
            incoming1)
          _ h1 in
      let ((kind1, incoming3, provisional), e, h3) =
        >>=-eq-ok
          (resolve_batch_relation c entries first index kind incoming2
            tally.provisional_by_relation)
          _ h2 in
      let (g, s) =
        resolve_batch_relation-Grown index kind incoming2 tally.provisional_by_relation
          (kind1, incoming3, provisional) e in
      holds_of_ok (Entered index tally)
        {a = (
          Candidate.edge (first + index) source1 destination1 kind1 weight,
          record {
            counts = record tally.counts { edges = tally.counts.edges + 1 };
            incoming = incoming3;
            provisional_by_relation = provisional;
          },
        )}
        (record { grown = g; sorted = s }, refl) h3

  pub plan-Counted :
      (index : ℕ) (rest : List CandidateBatchEntry) (tally : BatchTally)
      (end : List Candidate × BatchTally)
      → plan c entries first index rest tally ≡ ok end
      → Looped index (length rest) tally end
  unfolding plan references_of ids_of ids_from
  plan-Counted index [] tally end h =
      holds_of_ok (Looped index 0 tally) {a = ([], tally)}
        (record { grown = omega arith; sorted = λ s. s }, refl) h
  plan-Counted index (entry ∷ rest) tally end h =
      let ((candidate, tally1), e, h1) =
        >>=-eq-ok (plan_entry c entries first index entry tally) _ h in
      let ((candidates, tally2), e1, h2) =
        >>=-eq-ok (plan c entries first (suc index) rest tally1) _ h1 in
      let (one, id) = plan_entry-Counted index entry tally (candidate, tally1) e in
      let (more, ids) = plan-Counted (suc index) rest tally1 (candidates, tally2) e1 in
      let next : first + suc index ≡ suc (first + index) = omega arith in
      holds_of_ok (Looped index (suc (length rest)) tally) {a = (candidate ∷ candidates, tally2)}
        (
          record {
            grown = omega (arith, one.grown, more.grown);
            sorted = λ s. more.sorted (one.sorted s);
          },
          rw (id, ids, next) refl,
        )
        h2

-- The counts that are filled in change neither.
with_incoming-same :
    (r : RelationId) (index count : ℕ) (candidate candidate1 : Candidate)
    → with_incoming index count candidate ≡ ok candidate1
    → (references r candidate1 ≡ references r candidate)
      × (candidate_id candidate1 ≡ candidate_id candidate)
unfolding with_incoming references candidate_id
with_incoming-same r index count (Candidate.node id name payload _) candidate1 h =
    holds_of_ok (λ x. (references r x ≡ 0) × (candidate_id x ≡ id)) (refl, refl) h
with_incoming-same r index count (Candidate.relation id name _) candidate1 h =
    holds_of_ok (λ x. (references r x ≡ 0) × (candidate_id x ≡ id)) (refl, refl) h
with_incoming-same r index count (Candidate.edge id source destination kind weight) candidate1 h =
    let (_, _, h1) = >>=-eq-ok (guard (count == 0) _) _ h in
    holds_of_ok
      (λ x.
        (references r x ≡ references r (Candidate.edge id source destination kind weight))
        × (candidate_id x ≡ id))
      (refl, refl) h1

pub complete-same :
    (r : RelationId) (index : ℕ) (incoming : List ℕ) (candidates end : List Candidate)
    → complete index incoming candidates ≡ ok end
    → (references_of r end ≡ references_of r candidates) × (ids_of end ≡ ids_of candidates)
unfolding complete references_of ids_of
complete-same r index [] candidates end h =
    holds_of_ok
      (λ x. (references_of r x ≡ references_of r candidates) × (ids_of x ≡ ids_of candidates))
      (refl, refl) h
complete-same r index (count ∷ incoming) [] end h =
    holds_of_ok (λ x. (references_of r x ≡ 0) × (ids_of x ≡ [])) (refl, refl) h
complete-same r index (count ∷ incoming) (candidate ∷ candidates) end h =
    let (candidate1, e, h1) = >>=-eq-ok (with_incoming index count candidate) _ h in
    let (candidates1, e1, h2) = >>=-eq-ok (complete (suc index) incoming candidates) _ h1 in
    let (one, id) = with_incoming-same r index count candidate candidate1 e in
    let (more, ids) = complete-same r (suc index) incoming candidates candidates1 e1 in
    holds_of_ok
      (λ x.
        (references_of r x ≡ references_of r (candidate ∷ candidates))
        × (ids_of x ≡ ids_of (candidate ∷ candidates)))
      (cc (one, more), cc (id, ids)) h2
