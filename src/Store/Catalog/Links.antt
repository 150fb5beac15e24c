-- ===== src/Store/Catalog/Links.antt =====
-- The edges of a catalog and the adjacency families that lead to them.
pub mod Collected
pub mod Detached
pub mod Removal
use path_hydra.Common.{
  ℕ, ◌<◌, ◌≡◌, Bool, true, false, ◌==◌, ◌||◌, ◌&&◌, if◌then◌else◌, Option, none, some, List, any,
  Has,
}
use path_hydra.Common.Keyed.{lookup}
use path_hydra.Core.{u64_bound, Bytes, NodeId, EdgeId, EdgeRecord}
use path_hydra.Store.Codec.{encode_adjacency_key}
use path_hydra.Store.Family.{bytes_eq, get}
use path_hydra.Store.Family.Order.{Rising}
use path_hydra.Store.Catalog.{Catalog}

-- An edge has an entry in both adjacencies, each under its node.
pub record HasEntries (c : Catalog) (id : EdgeId) (found : EdgeRecord) : Type 0 where
  pub outgoing : Has (encode_adjacency_key found.source id, id) c.outgoing
  pub incoming : Has (encode_adjacency_key found.destination id, id) c.incoming
  pub source_fits : found.source < u64_bound
  pub destination_fits : found.destination < u64_bound
  pub id_fits : id < u64_bound

-- The adjacencies are in the order of their keys, and every edge has its entries.
pub record IsLinked (c : Catalog) : Type 0 where
  pub outgoing : Rising c.outgoing
  pub incoming : Rising c.incoming
  pub entries :
      (id : EdgeId) (found : EdgeRecord) → lookup c.edges id ≡ some found → HasEntries c id found

-- Whether the node is an end of the edge.
unfoldable pub touches : NodeId → EdgeRecord → Bool
touches node found = found.source == node || found.destination == node

-- What the removal of a node leaves under the identity of an edge.
unfoldable pub detached : NodeId → Option EdgeRecord → Option EdgeRecord
unfolding touches
detached node none = none
detached node (some found) = if touches node found then none else some found

-- Whether a key is that of an edge at the node, by the end that the family goes by.
unfoldable pub is_unlinked : NodeId → (EdgeRecord → NodeId) → Bytes → List (ℕ × EdgeRecord) → Bool
unfolding touches
is_unlinked node endpoint key edges =
    any (λ e. touches node e.1 && bytes_eq (encode_adjacency_key (endpoint e.1) e.1.id) key) edges

-- The catalog without the edges of a node: they are gone from the edges, and their keys from both
-- adjacencies.
pub record IsDetached (node : NodeId) (c end : Catalog) : Type 0 where
  pub edges : (id : EdgeId) → lookup end.edges id ≡ detached node (lookup c.edges id)
  pub outgoing :
      (key : Bytes)
      → get end.outgoing key
        ≡ (if is_unlinked node (λ e. e.source) key c.edges then none else get c.outgoing key)
  pub incoming :
      (key : Bytes)
      → get end.incoming key
        ≡ (if is_unlinked node (λ e. e.destination) key c.edges then none else get c.incoming key)
