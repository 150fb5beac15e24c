-- ===== src/Store/Catalog/Links/Collected.antt =====
-- What `incident_edges` collects: every edge that the adjacency has under the node, and only edges
-- that touch the node.
use path_hydra.Common.{
  ℕ, ◌<◌, ◌≡◌, sym, ap, subst, inl, inr, Bool, true, false, ◌==◌, if◌then◌else◌, some, List, [],
  ◌∷◌, ◌++◌, take, All, Has, ok, ok_or, ok_or-eq-ok, guard, >>=-eq-ok, holds_of_ok, Bool-cases,
  arith,
}
use path_hydra.Common.Keyed.{lookup}
use path_hydra.Core.{u64_bound, Bytes, NodeId, EdgeId, EdgeRecord}
use path_hydra.Store.Codec.{decode_adjacency_key, encode_adjacency_key, encode_id_key, to_be_bytes}
use path_hydra.Store.Codec.KeyOrder.{comes_before}
use path_hydra.Store.Codec.Numbers.{length-to_be_bytes}
use path_hydra.Store.Codec.Parts.{take-append}
use path_hydra.Store.Codec.RoundTrip.{decode-encode_adjacency_key}
use path_hydra.Store.Family.{Family, bytes_eq, seek}
use path_hydra.Store.Family.Lookup.{bytes_eq_refl}
use path_hydra.Store.Family.Order.{
  Rising, From, comes_before-prefix, has_prefix_between, seek-From, Has-seek,
}
use path_hydra.Store.Catalog.{
  Catalog, decoded_value, decoded_key, endpoint_of, incident_edge, incident_from, incident_edges,
}
use path_hydra.Store.Catalog.Counts.Referenced.{guard-eq-ok}
use path_hydra.Store.Catalog.Links.{touches}

-- An adjacency entry leads to its edge, which has the node at its end.
incident_edge-eq-ok :
    (c : Catalog) (node : NodeId) (outgoing : Bool) (key : Bytes) (value : ℕ) (found : EdgeRecord)
    → incident_edge c node outgoing key value ≡ ok found
    → (n : NodeId) × (id : EdgeId) × (decoded_key (decode_adjacency_key key) ≡ ok (n, id))
      × (lookup c.edges id ≡ some found)
      × (touches node found ≡ true)
unfolding incident_edge touches endpoint_of
incident_edge-eq-ok c node outgoing key value found h =
    let ((n, id), e, h1) = >>=-eq-ok (decoded_key (decode_adjacency_key key)) _ h in
    let (_, _, h2) = >>=-eq-ok (guard (n == node) _) _ h1 in
    let (_, _, h3) = >>=-eq-ok (decoded_value value id) _ h2 in
    let (edge, e1, h4) = >>=-eq-ok (ok_or (lookup c.edges id) _) _ h3 in
    let (_, e2, h5) = >>=-eq-ok (guard (endpoint_of outgoing edge == node) _) _ h4 in
    let there = ok_or-eq-ok (lookup c.edges id) _ e1 in
    let ends = guard-eq-ok _ _ e2 in
    (
      n,
      id,
      e,
      holds_of_ok (λ x. lookup c.edges id ≡ some x) there h5,
      holds_of_ok (λ x. touches node x ≡ true) (ground (arith, ends)) h5,
    )

module _ (c : Catalog) (node : NodeId) (outgoing : Bool) where
  incident_from-touches :
      (family : Family) (found : List EdgeRecord)
      → incident_from c node outgoing family ≡ ok found
      → All (λ x. touches node x ≡ true) found
  unfolding incident_from
  incident_from-touches [] found h = holds_of_ok (All (λ x. touches node x ≡ true)) {a = []} tt h
  incident_from-touches ((key, v) ∷ family) found h =
      elim (Bool-cases (bytes_eq (take 8 key) (encode_id_key node))) [
        | inl prefixed ↦
            let h0 = rw prefixed at h in
            let (edge, e, h1) = >>=-eq-ok (incident_edge c node outgoing key v) _ h0 in
            let (edges, e1, h2) = >>=-eq-ok (incident_from c node outgoing family) _ h1 in
            let (_, _, _, _, touching) = incident_edge-eq-ok c node outgoing key v edge e in
            holds_of_ok (All (λ x. touches node x ≡ true)) {a = edge ∷ edges}
              (touching, incident_from-touches family edges e1) h2
        | inr over ↦ holds_of_ok (All (λ x. touches node x ≡ true)) {a = []} tt (rw over at h)
      ]

  -- Every edge that is collected has the node at an end.
  pub incident_edges-touches :
      (found : List EdgeRecord)
      → incident_edges c node outgoing ≡ ok found
      → All (λ x. touches node x ≡ true) found
  unfolding incident_edges
  incident_edges-touches found h = incident_from-touches _ found h

  module _ (id : EdgeId) (edge : EdgeRecord) (node_fits : node < u64_bound)
      (id_fits : id < u64_bound) (there : lookup c.edges id ≡ some edge) where
    -- The entry of the edge leads to the edge.
    own_entry :
        (value : ℕ) (found : EdgeRecord)
        → incident_edge c node outgoing (encode_adjacency_key node id) value ≡ ok found
        → found ≡ edge
    unfolding decoded_key
    own_entry value found h =
        let (n, i, e, stands, _) =
          incident_edge-eq-ok c node outgoing (encode_adjacency_key node id) value found h in
        let same : i ≡ id = cc (rw (decode-encode_adjacency_key node id node_fits id_fits) at e) in
        let stands' : lookup c.edges id ≡ some found =
          subst (λ k. lookup c.edges k ≡ some found) same stands in
        cc (stands', there)

    -- A key between the node's prefix and the edge's key has the prefix.
    prefixed_before :
        (key : Bytes)
        → comes_before key (encode_id_key node) ≡ false
        → comes_before key (encode_adjacency_key node id) ≡ true
        → bytes_eq (take 8 key) (encode_id_key node) ≡ true
    unfolding encode_id_key encode_adjacency_key
    prefixed_before key h k =
        let p = has_prefix_between (to_be_bytes 8 node) (to_be_bytes 8 id) key h k in
        let q : take 8 key ≡ to_be_bytes 8 node = rw (length-to_be_bytes 8 node) at p in
        rw q (bytes_eq_refl (to_be_bytes 8 node))

    prefixed_own : bytes_eq (take 8 (encode_adjacency_key node id)) (encode_id_key node) ≡ true
    unfolding encode_id_key encode_adjacency_key
    prefixed_own =
        let p = take-append (to_be_bytes 8 node) (to_be_bytes 8 id) in
        let q : take 8 (to_be_bytes 8 node ++ to_be_bytes 8 id) ≡ to_be_bytes 8 node =
          rw (length-to_be_bytes 8 node) at p in
        rw q (bytes_eq_refl (to_be_bytes 8 node))

    incident_from-collects :
        (family : Family) (found : List EdgeRecord)
        → From (encode_id_key node) family
        → Rising family
        → Has (encode_adjacency_key node id, id) family
        → incident_from c node outgoing family ≡ ok found
        → Has edge found
    unfolding incident_from
    incident_from-collects [] found f r has h = absurd has
    incident_from-collects ((key, v) ∷ family) found (from, f) (above, r) has h =
        let prefixed : bytes_eq (take 8 key) (encode_id_key node) ≡ true = elim has [
          | inl same ↦
              let p : encode_adjacency_key node id ≡ key = ap (λ e. e.0) same in
              subst (λ k. bytes_eq (take 8 k) (encode_id_key node) ≡ true) p prefixed_own
          | inr later ↦ prefixed_before key from (above_entry family key above later)
        ] in
        let h0 = rw prefixed at h in
        let (first, e, h1) = >>=-eq-ok (incident_edge c node outgoing key v) _ h0 in
        let (edges, e1, h2) = >>=-eq-ok (incident_from c node outgoing family) _ h1 in
        holds_of_ok (Has edge) {a = first ∷ edges}
          (elim has [
            | inl same ↦
                let p : key ≡ encode_adjacency_key node id = sym (ap (λ e. e.0) same) in
                let e' : incident_edge c node outgoing (encode_adjacency_key node id) v ≡ ok first =
                  subst (λ k. incident_edge c node outgoing k v ≡ ok first) p e in
                inl (sym (own_entry v first e'))
            | inr later ↦ inr (incident_from-collects family edges f r later e1)
          ])
          h2
      where
        above_entry :
            (family : Family) (key : Bytes)
            → All (λ e. comes_before key e.0 ≡ true) family
            → Has (encode_adjacency_key node id, id) family
            → comes_before key (encode_adjacency_key node id) ≡ true
        above_entry [] key a has = absurd has
        above_entry (x ∷ family) key (above, a) (inl same) =
            subst (λ e. comes_before key e.0 ≡ true) (sym same) above
        above_entry (x ∷ family) key (above, a) (inr later) = above_entry family key a later

    -- Every edge with an entry under the node is collected.
    pub incident_edges-collects :
        (found : List EdgeRecord)
        → Rising (if outgoing then c.outgoing else c.incoming)
        → Has (encode_adjacency_key node id, id) (if outgoing then c.outgoing else c.incoming)
        → incident_edges c node outgoing ≡ ok found
        → Has edge found
    unfolding incident_edges encode_id_key encode_adjacency_key
    incident_edges-collects found r has h =
        let family : Family = if outgoing then c.outgoing else c.incoming in
        let prefix : Bytes = encode_id_key node in
        let (f, rising) = seek-From family prefix r in
        incident_from-collects (seek family prefix) found f rising
          (Has-seek family prefix (encode_adjacency_key node id, id) has
            (comes_before-prefix (to_be_bytes 8 node) (to_be_bytes 8 id)))
          h
