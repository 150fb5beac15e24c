-- ===== src/Store/Catalog/Insert.antt =====
-- crates/pathhydra-store/src/catalog.rs: `Catalog::insert_candidate_batch`. `plan` is its loop over the
-- entries, with the counts it keeps on the way.
use path_hydra.Common.{
  ℕ, zero, suc, ◌+◌, ◌*◌, Bool, true, false, ltb, leb, ◌==◌, ◌&&◌, if◌then◌else◌, not, Option, none,
  some, List, [], ◌∷◌, length, get_elem?, set, replicate, lookup, insert, Result, ok, guard, ok_or,
  ◌>>=◌, ◌>>◌,
}
use path_hydra.Core.{
  CandidateId, u64_bound, checked_add, Candidate, candidate_id, CandidateNodeReference,
  CandidateRelationReference, RelationRecord,
}
use path_hydra.Store.Codec.{encode_candidate}
use path_hydra.Store.Errors.{EdgeEndpoint, BatchReason, Counter, CatalogError, encoded}
use path_hydra.Store.Family.{Family}
use path_hydra.Store.Batch.{
  BatchNodeReference, BatchRelationReference, CandidateBatchEntry, CandidateBatchCounts,
  maximum_candidate_batch_entries, maximum_candidate_batch_name_bytes,
  maximum_candidate_batch_payload_bytes, maximum_candidate_batch_estimated_bytes,
}
use path_hydra.Store.Catalog.{
  Catalog, require_node, require_relation_kind, get_relation, put_relation, commit_batch,
}

-- The aggregate bytes of names and payloads.
unfoldable pub sizes_of : List CandidateBatchEntry → ℕ → ℕ → Result CatalogError (ℕ × ℕ)
sizes_of [] names payloads = ok (names, payloads)
sizes_of (CandidateBatchEntry.node name payload ∷ entries) names payloads = do
  names1 ←
      ok_or (checked_add names (length name))
        (CatalogError.invalid_batch BatchReason.name_bytes_overflow)
  payloads1 ←
      ok_or (checked_add payloads (length payload))
        (CatalogError.invalid_batch BatchReason.payload_bytes_overflow)
  sizes_of entries names1 payloads1
sizes_of (CandidateBatchEntry.relation_kind name ∷ entries) names payloads = do
  names1 ←
      ok_or (checked_add names (length name))
        (CatalogError.invalid_batch BatchReason.name_bytes_overflow)
  sizes_of entries names1 payloads
sizes_of (CandidateBatchEntry.edge _ _ _ _ ∷ entries) names payloads =
    sizes_of entries names payloads

unfoldable pub checked_mul : ℕ → ℕ → Option ℕ
checked_mul a b = if ltb (a * b) u64_bound then some (a * b) else none

unfoldable pub check_limits : List CandidateBatchEntry → Result CatalogError (Unit {0})
unfolding sizes_of checked_mul
check_limits entries = do
  guard (not (length entries == 0)) (CatalogError.invalid_batch BatchReason.empty_batch)
  guard (leb (length entries) maximum_candidate_batch_entries)
      (CatalogError.invalid_batch BatchReason.too_many_entries)
  (names, payloads) ← sizes_of entries 0 0
  bytes ← ok_or (checked_add names payloads) overflow
  overhead ← ok_or (checked_mul (length entries) 128) overflow
  estimated ← ok_or (checked_add bytes overhead) overflow
  guard
      (leb names maximum_candidate_batch_name_bytes
        && leb payloads maximum_candidate_batch_payload_bytes
        && leb estimated maximum_candidate_batch_estimated_bytes)
      (CatalogError.invalid_batch BatchReason.byte_limit)
  where
    overflow : CatalogError
    overflow = CatalogError.invalid_batch BatchReason.estimated_bytes_overflow

-- What the loop changes.
pub record BatchTally : Type 0 where
  pub counts : CandidateBatchCounts
  pub incoming : List ℕ
  pub provisional_by_relation : List (ℕ × ℕ)

unfoldable pub value_or_zero : Option ℕ → ℕ
value_or_zero none = 0
value_or_zero (some n) = n

-- `incoming[local] += 1`, checked.
unfoldable pub increment_incoming : List ℕ → ℕ → Result CatalogError (List ℕ)
unfolding value_or_zero
increment_incoming incoming local = do
  count ←
      ok_or (checked_add (value_or_zero (get_elem? incoming local)) 1)
        (CatalogError.counter_overflow Counter.candidate_incoming_reference)
  ok (set incoming local count)

unfoldable pub is_node_entry : Option CandidateBatchEntry → Bool
is_node_entry (some (CandidateBatchEntry.node _ _)) = true
is_node_entry (some (CandidateBatchEntry.relation_kind _)) = false
is_node_entry (some (CandidateBatchEntry.edge _ _ _ _)) = false
is_node_entry none = false

unfoldable pub is_relation_entry : Option CandidateBatchEntry → Bool
is_relation_entry (some (CandidateBatchEntry.relation_kind _)) = true
is_relation_entry (some (CandidateBatchEntry.node _ _)) = false
is_relation_entry (some (CandidateBatchEntry.edge _ _ _ _)) = false
is_relation_entry none = false

module _ (c : Catalog) (entries : List CandidateBatchEntry) (first : CandidateId) where
  unfoldable pub resolve_batch_node_reference :
      ℕ
      → EdgeEndpoint
      → BatchNodeReference
      → List ℕ
      → Result CatalogError (CandidateNodeReference × List ℕ)
  unfolding increment_incoming
  resolve_batch_node_reference owner endpoint (BatchNodeReference.confirmed id) incoming = do
    require_node c id endpoint
    ok (CandidateNodeReference.confirmed id, incoming)
  resolve_batch_node_reference owner endpoint (BatchNodeReference.batch_node local) incoming = do
    guard (is_node_entry (get_elem? entries local))
        (CatalogError.invalid_batch (BatchReason.not_a_node_entry owner local))
    incoming1 ← increment_incoming incoming local
    ok (CandidateNodeReference.candidate (first + local), incoming1)

  -- The relation kind of an edge, with the two counts it may change.
  unfoldable pub resolve_batch_relation :
      ℕ
      → BatchRelationReference
      → List ℕ
      → List (ℕ × ℕ)
      → Result CatalogError (CandidateRelationReference × List ℕ × List (ℕ × ℕ))
  unfolding increment_incoming
  resolve_batch_relation owner (BatchRelationReference.confirmed id) incoming provisional = do
    require_relation_kind c id
    delta ←
        ok_or (checked_add (value_or_zero (lookup provisional id)) 1)
          (CatalogError.counter_overflow Counter.provisional_relation_reference)
    ok (CandidateRelationReference.confirmed id, incoming, insert provisional id delta)
  resolve_batch_relation owner (BatchRelationReference.batch_relation_kind local) incoming
        provisional =
      do
        guard (is_relation_entry (get_elem? entries local))
            (CatalogError.invalid_batch (BatchReason.not_a_relation_entry owner local))
        incoming1 ← increment_incoming incoming local
        ok (CandidateRelationReference.candidate (first + local), incoming1, provisional)

  -- The candidate of one entry.
  unfoldable pub plan_entry :
      ℕ → CandidateBatchEntry → BatchTally → Result CatalogError (Candidate × BatchTally)
  unfolding resolve_batch_node_reference resolve_batch_relation
  plan_entry index (CandidateBatchEntry.node name payload) tally = ok (
    Candidate.node (first + index) name payload 0,
    record tally { counts = record tally.counts { nodes = tally.counts.nodes + 1 } },
  )
  plan_entry index (CandidateBatchEntry.relation_kind name) tally = ok (
    Candidate.relation (first + index) name 0,
    record tally {
      counts = record tally.counts { relation_kinds = tally.counts.relation_kinds + 1 };
    },
  )
  plan_entry index (CandidateBatchEntry.edge source destination relation_kind base_weight) tally =
      do
        (source1, incoming1) ←
            resolve_batch_node_reference index EdgeEndpoint.source source tally.incoming
        (destination1, incoming2) ←
            resolve_batch_node_reference index EdgeEndpoint.destination destination incoming1
        (relation1, incoming3, provisional) ←
            resolve_batch_relation index relation_kind incoming2 tally.provisional_by_relation
        ok (
          Candidate.edge (first + index) source1 destination1 relation1 base_weight,
          record {
            counts = record tally.counts { edges = tally.counts.edges + 1 };
            incoming = incoming3;
            provisional_by_relation = provisional;
          },
        )

  unfoldable pub plan :
      ℕ → List CandidateBatchEntry → BatchTally → Result CatalogError (List Candidate × BatchTally)
  unfolding plan_entry
  plan index [] tally = ok ([], tally)
  plan index (entry ∷ rest) tally = do
    (candidate, tally1) ← plan_entry index entry tally
    (candidates, tally2) ← plan (suc index) rest tally1
    ok (candidate ∷ candidates, tally2)

-- The count of a candidate's references in the batch.
unfoldable pub with_incoming : ℕ → ℕ → Candidate → Result CatalogError Candidate
with_incoming index count (Candidate.node id name payload _) =
    ok (Candidate.node id name payload count)
with_incoming index count (Candidate.relation id name _) = ok (Candidate.relation id name count)
with_incoming index count (Candidate.edge id source destination relation_kind base_weight) = do
  guard (count == 0) (CatalogError.invalid_batch (BatchReason.not_a_dependency index))
  ok (Candidate.edge id source destination relation_kind base_weight)

unfoldable pub complete : ℕ → List ℕ → List Candidate → Result CatalogError (List Candidate)
unfolding with_incoming
complete index (count ∷ incoming) (candidate ∷ candidates) = do
  candidate1 ← with_incoming index count candidate
  candidates1 ← complete (suc index) incoming candidates
  ok (candidate1 ∷ candidates1)
complete index [] candidates = ok candidates
complete index (_ ∷ _) [] = ok []

unfoldable pub put_candidates :
    List Candidate → List (ℕ × Candidate) → Result CatalogError (List (ℕ × Candidate))
put_candidates [] family = ok family
put_candidates (candidate ∷ candidates) family = do
  _ ← encoded (encode_candidate candidate)
  put_candidates candidates (insert family (candidate_id candidate) candidate)

-- The relations that the batch refers to, with their new counts.
unfoldable pub put_provisional :
    Catalog
    → List (ℕ × ℕ)
    → List (ℕ × RelationRecord) × Family
    → Result CatalogError (List (ℕ × RelationRecord) × Family)
unfolding get_relation
put_provisional c [] families = ok families
put_provisional c ((id, delta) ∷ rest) families = do
  old ← get_relation c id
  provisional ←
      ok_or (checked_add old.provisional_reference_count delta)
        (CatalogError.counter_overflow Counter.provisional_relation_reference)
  _ ←
      ok_or (checked_add provisional old.confirmed_edge_count)
        (CatalogError.counter_overflow Counter.total_relation_reference)
  families1 ←
      put_relation families old (record old { id = id; provisional_reference_count = provisional })
  put_provisional c rest families1

abbrev pub no_counts : CandidateBatchCounts
no_counts = record { nodes = 0; relation_kinds = 0; edges = 0 }

-- The identities that the batch is given.
unfoldable pub ids_from : CandidateId → ℕ → List CandidateId
ids_from first zero = []
ids_from first (suc n) = first ∷ ids_from (suc first) n

pub record CandidateBatchInsertResult : Type 0 where
  pub candidate_ids : List CandidateId
  pub counts : CandidateBatchCounts

unfoldable pub insert_candidate_batch :
    Bool
    → List CandidateBatchEntry
    → Catalog
    → Result CatalogError (Catalog × CandidateBatchInsertResult)
unfolding check_limits plan complete put_candidates put_provisional ids_from
insert_candidate_batch accepted entries c = do
  check_limits entries
  following ←
      ok_or (checked_add c.next_candidate_id (length entries))
        (CatalogError.counter_overflow Counter.candidate_id)
  (planned, tally) ← plan c entries c.next_candidate_id 0 entries (record {
    counts = no_counts;
    incoming = replicate (length entries) 0;
    provisional_by_relation = [];
  })
  candidates ← complete 0 tally.incoming planned
  family ← put_candidates candidates c.candidates
  (relations, popularity) ←
      put_provisional c tally.provisional_by_relation (c.relations, c.popularity)
  written ← commit_batch accepted (record c {
    candidates = family;
    relations = relations;
    popularity = popularity;
    next_candidate_id = following;
  })
  ok (
    written,
    record { candidate_ids = ids_from c.next_candidate_id (length entries); counts = tally.counts },
  )
