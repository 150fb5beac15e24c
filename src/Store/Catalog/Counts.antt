-- ===== src/Store/Catalog/Counts.antt =====
-- The usage counts of the relations, beside the edges and the provisional edges that they count.
pub mod Planned
pub mod Stored
pub mod Inserted
pub mod Removed
pub mod Referenced
pub mod Recorded
pub mod Incident
pub mod NodeRemoved
pub mod NodeGone
pub mod EdgeGone
use path_hydra.Common.{
  ℕ, ◌+◌, ◌<◌, ◌≡◌, refl, Bool, true, false, ◌==◌, if◌then◌else◌, Option, none, some, List, [], ◌∷◌,
  All, lookup, insert, total, Sorted, arith,
}
use path_hydra.Core.{
  EdgeId, RelationId, Candidate, CandidateRelationReference, RelationRecord, EdgeRecord,
}
use path_hydra.Store.Catalog.{Catalog}

-- Whether a reference names a confirmed relation, as a number.
unfoldable pub refers : RelationId → CandidateRelationReference → ℕ
refers r (CandidateRelationReference.confirmed id) = if id == r then 1 else 0
refers r (CandidateRelationReference.candidate _) = 0

unfoldable pub references : RelationId → Candidate → ℕ
references r (Candidate.edge _ _ _ relation _) = refers r relation
references r (Candidate.node _ _ _ _) = 0
references r (Candidate.relation _ _ _) = 0

unfoldable pub uses : RelationId → EdgeRecord → ℕ
uses r found = if found.relation_kind == r then 1 else 0

unfoldable pub provisional_count : Option RelationRecord → ℕ
provisional_count none = 0
provisional_count (some r) = r.provisional_reference_count

unfoldable pub confirmed_count : Option RelationRecord → ℕ
confirmed_count none = 0
confirmed_count (some r) = r.confirmed_edge_count

-- A relation's counts are the numbers of the edges and provisional edges that name it, so no edge
-- names a relation that is absent. An edge stands under its identity. No candidate has an identity that is still to be given.
pub record IsCounted (c : Catalog) : Type 0 where
  pub confirmed : (r : RelationId) → confirmed_count (lookup c.relations r) ≡ total (uses r) c.edges
  pub provisional :
      (r : RelationId)
      → provisional_count (lookup c.relations r) ≡ total (references r) c.candidates
  pub edges_sorted : Sorted c.edges
  pub edges_keyed :
      (id : EdgeId) (found : EdgeRecord) → lookup c.edges id ≡ some found → found.id ≡ id
  pub relations_sorted : Sorted c.relations
  pub below_next : All (λ e. e.0 < c.next_candidate_id) c.candidates
