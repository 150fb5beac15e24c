-- ===== src/Store/Catalog.antt =====
-- crates/pathhydra-store/src/catalog.rs: the catalog's state, its errors and its reads. A column family
-- with identities as keys is the map of its decoded records: a record that is put can be encoded, and
-- Store.Codec reads it back. A family with other keys keeps the encoded keys. A write batch is the
-- state that it leads to.

pub mod Commit
pub mod Insert
pub mod Remove
pub mod Counts
pub mod Links
use path_hydra.Common.{
  ℕ, ◌≡◌, Bool, true, false, ltb, leb, ◌==◌, ◌||◌, if◌then◌else◌, Option, none, some, List, [], ◌∷◌,
  take, lookup, insert, Result, ok, err, guard, ok_or, ◌>>=◌, ◌>>◌,
}
use path_hydra.Core.{
  NodeId, EdgeId, RelationId, CandidateId, Bytes, Candidate, CandidateNodeReference, NodeRecord,
  RelationRecord, EdgeRecord,
}
use path_hydra.Store.Codec.{
  CodecError, encode_id_key, encode_adjacency_key, decode_adjacency_key, encode_relation,
  encode_popularity_key,
}
use path_hydra.Store.Errors.{
  RecordKind, EdgeEndpoint, BatchReason, Counter, Corruption, CatalogError, codec_input_error,
  encoded,
}
use path_hydra.Store.Family.{Family, bytes_eq, get, put, delete, seek}

pub record Catalog : Type 0 where
  pub candidates : List (ℕ × Candidate)
  pub nodes : List (ℕ × NodeRecord)
  pub node_names : Family
  pub relations : List (ℕ × RelationRecord)
  pub relation_names : Family
  pub popularity : Family
  pub edges : List (ℕ × EdgeRecord)
  pub outgoing : Family
  pub incoming : Family
  pub has_active_image : Bool
  pub next_candidate_id : ℕ
  pub next_node_id : ℕ
  pub next_relation_id : ℕ
  pub next_edge_id : ℕ

-- `commit_batch`, where `accepted` is the database's answer: the batch is written whole or not at all.
unfoldable pub commit_batch : Bool → Catalog → Result CatalogError Catalog
commit_batch accepted written = do guard accepted CatalogError.rocks_db; ok written

unfoldable pub get_candidate : Catalog → CandidateId → Result CatalogError Candidate
get_candidate c id = ok_or (lookup c.candidates id) (CatalogError.not_found RecordKind.candidate id)

unfoldable pub get_node : Catalog → NodeId → Result CatalogError NodeRecord
get_node c id = ok_or (lookup c.nodes id) (CatalogError.not_found RecordKind.node id)

unfoldable pub get_relation : Catalog → RelationId → Result CatalogError RelationRecord
get_relation c id = ok_or (lookup c.relations id) (CatalogError.not_found RecordKind.relation id)

unfoldable pub get_edge : Catalog → EdgeId → Result CatalogError EdgeRecord
get_edge c id = ok_or (lookup c.edges id) (CatalogError.not_found RecordKind.edge id)

unfoldable pub require_node : Catalog → NodeId → EdgeEndpoint → Result CatalogError (Unit {0})
require_node c id endpoint = do
  _ ← ok_or (lookup c.nodes id) (CatalogError.missing_edge_endpoint endpoint id)
  ok tt

unfoldable pub require_relation_kind : Catalog → RelationId → Result CatalogError (Unit {0})
require_relation_kind c id = do
  _ ← ok_or (lookup c.relations id) (CatalogError.missing_edge_relation_kind id)
  ok tt

-- A new record of a relation that the popularity index has under `old`.
unfoldable pub put_relation :
    List (ℕ × RelationRecord) × Family
    → RelationRecord
    → RelationRecord
    → Result CatalogError (List (ℕ × RelationRecord) × Family)
put_relation (relations, popularity) old new = do
  old_key ← encoded (encode_popularity_key old)
  _ ← encoded (encode_relation new)
  new_key ← encoded (encode_popularity_key new)
  ok (insert relations new.id new, put (delete popularity old_key) new_key new.id)

unfoldable pub endpoint_of : Bool → EdgeRecord → NodeId
endpoint_of outgoing edge = if outgoing then edge.source else edge.destination

-- `.map_err(record_error)?` on a key.
unfoldable pub decoded_key :
    Result CodecError (NodeId × EdgeId) → Result CatalogError (NodeId × EdgeId)
decoded_key (ok a) = ok a
decoded_key (err e) = err (CatalogError.corrupt_record (Corruption.bad_key e))

-- `decode_adjacency_value` with `.map_err(record_error)?`, on a value that is a number.
unfoldable pub decoded_value : ℕ → EdgeId → Result CatalogError (Unit {0})
decoded_value found expected =
    guard (found == expected)
      (CatalogError.corrupt_record (Corruption.bad_value (CodecError.id_mismatch expected found)))

-- An entry of an adjacency family under the prefix of a node.
unfoldable pub incident_edge : Catalog → NodeId → Bool → Bytes → ℕ → Result CatalogError EdgeRecord
unfolding endpoint_of decoded_key decoded_value
incident_edge c node outgoing key value = do
  (indexed_node, edge_id) ← decoded_key (decode_adjacency_key key)
  guard (indexed_node == node) (CatalogError.corrupt_record (Corruption.wrong_prefix node))
  decoded_value value edge_id
  edge ←
      ok_or (lookup c.edges edge_id) (CatalogError.corrupt_record (Corruption.edge_missing edge_id))
  guard (endpoint_of outgoing edge == node)
      (CatalogError.corrupt_record (Corruption.wrong_endpoint edge_id (endpoint_of outgoing edge)))
  ok edge

unfoldable pub incident_from :
    Catalog → NodeId → Bool → Family → Result CatalogError (List EdgeRecord)
unfolding incident_edge
incident_from c node outgoing [] = ok []
incident_from c node outgoing ((key, value) ∷ entries) =
    if bytes_eq (take 8 key) (encode_id_key node)
    then (do
      edge ← incident_edge c node outgoing key value
      edges ← incident_from c node outgoing entries
      ok (edge ∷ edges))
    else ok []

unfoldable pub incident_edges : Catalog → NodeId → Bool → Result CatalogError (List EdgeRecord)
unfolding incident_from
incident_edges c node outgoing =
    incident_from c node outgoing
      (seek (if outgoing then c.outgoing else c.incoming) (encode_id_key node))

unfoldable pub outgoing_edges : Catalog → NodeId → Result CatalogError (List EdgeRecord)
unfolding incident_edges
outgoing_edges c source = do _ ← get_node c source; incident_edges c source true

unfoldable pub incoming_edges : Catalog → NodeId → Result CatalogError (List EdgeRecord)
unfolding incident_edges
incoming_edges c destination = do _ ← get_node c destination; incident_edges c destination false

unfoldable pub validate_exact_adjacency : Catalog → EdgeRecord → Result CatalogError (Unit {0})
unfolding decoded_value
validate_exact_adjacency c edge = do
  outgoing ←
      ok_or (get c.outgoing (encode_adjacency_key edge.source edge.id))
        (CatalogError.corrupt_record (Corruption.adjacency_missing edge.id))
  decoded_value outgoing edge.id
  incoming ←
      ok_or (get c.incoming (encode_adjacency_key edge.destination edge.id))
        (CatalogError.corrupt_record (Corruption.adjacency_missing edge.id))
  decoded_value incoming edge.id
