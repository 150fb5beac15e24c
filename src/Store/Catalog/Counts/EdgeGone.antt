-- ===== src/Store/Catalog/Counts/EdgeGone.antt =====
-- What `remove_edge` removes: the edge, its adjacency, and its relation with the last reference.
use path_hydra.Common.{
  ℕ, ◌+◌, ◌≡◌, ◌∙◌, refl, sym, ap, subst, inl, inr, Bool, true, false, ◌==◌, ◌&&◌, if◌then◌else◌,
  Option, none, some, List, [], ◌∷◌, lookup-insert, lookup-remove, remove, total-remove, ok, ok_or,
  ok_or-eq-ok, >>=-eq-ok, holds_of_ok, Bool-cases, arith,
}
use path_hydra.Common.Keyed.{lookup, insert}
use path_hydra.Common.Totals.{total}
use path_hydra.Core.{checked_sub}
use path_hydra.Core.{Bytes, EdgeId, RelationId, RelationRecord, EdgeRecord}
use path_hydra.Store.Codec.{encode_popularity_key, encode_name_key, encode_adjacency_key}
use path_hydra.Store.Errors.{encoded}
use path_hydra.Store.Family.{bytes_eq, get, delete}
use path_hydra.Store.Family.Lookup.{get-delete}
use path_hydra.Store.Catalog.{Catalog, get_relation, put_relation}
use path_hydra.Store.Catalog.Remove.{
  RelationFamilies, DeletionResult, drop_relation, keep_relation, lower_relation, relation_families,
  remove_edge,
}
use path_hydra.Store.Catalog.Counts.{
  IsCounted, uses, references, provisional_count, confirmed_count,
}
use path_hydra.Store.Catalog.Counts.Stored.{put_relation-relations}
use path_hydra.Store.Catalog.Counts.Removed.{
  EdgeRemoval-IsCounted, remove_edge-EdgeRemoval, checked_sub-eq-some,
}

-- What is left of a relation with these numbers of references: nothing where there is none.
unfoldable pub relation_left : RelationId → ℕ → ℕ → RelationRecord → Option RelationRecord
relation_left r provisional confirmed old =
    if provisional == 0 && confirmed == 0
    then none
    else some (record old { id = r; confirmed_edge_count = confirmed })

-- The relations, and whether one is gone, after `lower_relation`.
record Left (id : RelationId) (confirmed : ℕ) (old : RelationRecord)
    (before : List (ℕ × RelationRecord)) (end : RelationFamilies × Bool) : Type 0 where
  relations :
      (r : RelationId)
      → lookup end.0.relations r ≡ (
          if id == r
          then relation_left id old.provisional_reference_count confirmed old
          else lookup before r)
  gone : end.1 ≡ (old.provisional_reference_count == 0 && confirmed == 0)

drop_relation-Left :
    (id : RelationId) (confirmed : ℕ) (old : RelationRecord) (families : RelationFamilies)
    (end : RelationFamilies × Bool)
    → (old.provisional_reference_count == 0 && confirmed == 0) ≡ true
    → drop_relation id families old ≡ ok end
    → Left id confirmed old families.relations end
unfolding drop_relation relation_left
drop_relation-Left id confirmed old families end none_left h =
    let (old_key, _, h1) = >>=-eq-ok (encoded (encode_popularity_key old)) _ h in
    let (name_key, _, h2) = >>=-eq-ok (encoded (encode_name_key old.name)) _ h1 in
    holds_of_ok (Left id confirmed old families.relations)
      {a = (
        record {
          relations = remove families.relations id;
          relation_names = delete families.relation_names name_key;
          popularity = delete families.popularity old_key;
        },
        true,
      )}
      (record {
        relations = λ r. rw none_left (lookup-remove families.relations id r);
        gone = sym none_left;
      })
      h2

keep_relation-Left :
    (id : RelationId) (confirmed : ℕ) (old : RelationRecord) (families : RelationFamilies)
    (end : RelationFamilies × Bool)
    → (old.provisional_reference_count == 0 && confirmed == 0) ≡ false
    → keep_relation families old (record old { id = id; confirmed_edge_count = confirmed }) ≡ ok end
    → Left id confirmed old families.relations end
unfolding keep_relation relation_left
keep_relation-Left id confirmed old families end some_left h =
    let updated : RelationRecord = record old { id = id; confirmed_edge_count = confirmed } in
    let ((relations, popularity), e, h1) =
      >>=-eq-ok (put_relation (families.relations, families.popularity) old updated) _ h in
    let put : relations ≡ insert families.relations id updated =
      put_relation-relations (families.relations, families.popularity) old updated
        (relations, popularity) e in
    holds_of_ok (Left id confirmed old families.relations)
      {a = (record families { relations = relations; popularity = popularity }, false)}
      (record {
        relations = λ r. rw (put, some_left) (lookup-insert families.relations id updated r);
        gone = sym some_left;
      })
      h1

lower_relation-Left :
    (c : Catalog) (id : RelationId) (decrement : ℕ) (families : RelationFamilies)
    (end : RelationFamilies × Bool)
    → lower_relation c id decrement families ≡ ok end
    → (old : RelationRecord) × (confirmed : ℕ) × (lookup c.relations id ≡ some old)
      × (confirmed + decrement ≡ old.confirmed_edge_count)
      × Left id confirmed old families.relations end
unfolding lower_relation get_relation
lower_relation-Left c id decrement families end h =
    let (old, e, h1) = >>=-eq-ok (get_relation c id) _ h in
    let (confirmed, e1, h2) =
      >>=-eq-ok (ok_or (checked_sub old.confirmed_edge_count decrement) _) _ h1 in
    (
      old,
      confirmed,
      ok_or-eq-ok _ _ e,
      checked_sub-eq-some old.confirmed_edge_count decrement confirmed (ok_or-eq-ok _ _ e1),
      elim (Bool-cases (old.provisional_reference_count == 0 && confirmed == 0)) [
        | inl gone ↦ drop_relation-Left id confirmed old families end gone (rw gone at h2)
        | inr kept ↦ keep_relation-Left id confirmed old families end kept (rw kept at h2)
      ],
    )

uses_of_left :
    (c : Catalog) (id : EdgeId) (found : EdgeRecord) (old : RelationRecord) (confirmed : ℕ)
    → IsCounted c
    → lookup c.edges id ≡ some found
    → lookup c.relations found.relation_kind ≡ some old
    → confirmed + 1 ≡ old.confirmed_edge_count
    → confirmed ≡ total (uses found.relation_kind) (remove c.edges id)
unfolding uses confirmed_count
uses_of_left c id found old confirmed counted stands there rest =
    let left =
      total-remove (uses found.relation_kind) c.edges id found counted.edges_sorted stands in
    let all = rw there at (counted.confirmed found.relation_kind) in ground (arith, left, all, rest)

-- The catalog without the edge `id`, which was `found` and named the relation `old`: the edge is gone
-- from the edges and from both adjacencies, and what is left of its relation goes by the references
-- that are left.
pub record IsWithoutEdge (id : EdgeId) (c : Catalog) (found : EdgeRecord) (old : RelationRecord)
    (end : Catalog × DeletionResult) : Type 0 where
  pub counted : IsCounted end.0
  pub edges :
      (other : EdgeId)
      → lookup end.0.edges other ≡ (if id == other then none else lookup c.edges other)
  pub outgoing :
      (key : Bytes)
      → get end.0.outgoing key
        ≡ (if bytes_eq (encode_adjacency_key found.source id) key then none else get c.outgoing key)
  pub incoming :
      (key : Bytes)
      → get end.0.incoming key ≡ (
          if bytes_eq (encode_adjacency_key found.destination id) key
          then none
          else get c.incoming key)
  pub relations :
      (r : RelationId)
      → lookup end.0.relations r ≡ (
          if found.relation_kind == r
          then relation_left found.relation_kind
              (total (references found.relation_kind) end.0.candidates)
              (total (uses found.relation_kind) end.0.edges)
              old
          else lookup c.relations r)
  pub removed : end.1 ≡ (
      if total (references found.relation_kind) end.0.candidates == 0
        && total (uses found.relation_kind) end.0.edges == 0
      then found.relation_kind ∷ []
      else [])
  pub candidates : end.0.candidates ≡ c.candidates
  pub nodes : end.0.nodes ≡ c.nodes

-- In a catalog whose counts are right, an edge that is removed was there and is gone from the edges and
-- from both adjacencies, all else in them stays, and so do the nodes, the candidates and the other
-- relations. The relation of the edge is removed, and reported as removed, exactly where neither an
-- edge that is left nor a provisional edge names it; else it stays with the number of the edges
-- that are left as its count. The counts of the catalog stay right.
pub remove_edge_removes :
    (accepted : Bool) (id : EdgeId) (c : Catalog) (end : Catalog × DeletionResult)
    → IsCounted c
    → remove_edge accepted id c ≡ ok end
    → (found : EdgeRecord) × (old : RelationRecord) × (lookup c.edges id ≡ some found)
      × (lookup c.relations found.relation_kind ≡ some old)
      × IsWithoutEdge id c found old end
unfolding provisional_count
remove_edge_removes accepted id c end counted h =
    let e = remove_edge-EdgeRemoval accepted id c end h in
    let (old, confirmed, there, rest, left) =
      lower_relation-Left c e.found.relation_kind 1 (relation_families c) (e.families, e.gone)
        e.lowers in
    let uses_left : confirmed ≡ total (uses e.found.relation_kind) (remove c.edges id) =
      uses_of_left c id e.found old confirmed counted e.stands there rest in
    let referred : old.provisional_reference_count
        ≡ total (references e.found.relation_kind) c.candidates =
      ap provisional_count (sym there) ∙ counted.provisional e.found.relation_kind in
    (
      e.found,
      old,
      e.stands,
      there,
      subst (IsWithoutEdge id c e.found old) (sym e.result) (record {
        counted = subst (λ x. IsCounted x.0) e.result (EdgeRemoval-IsCounted id c end counted e);
        edges = lookup-remove c.edges id;
        outgoing = get-delete c.outgoing (encode_adjacency_key e.found.source id);
        incoming = get-delete c.incoming (encode_adjacency_key e.found.destination id);
        relations = λ r. rw (uses_left, referred) at (left.relations r);
        removed =
            ap (λ b. if b then e.found.relation_kind ∷ [] else [])
              (rw (uses_left, referred) at left.gone);
        candidates = refl;
        nodes = refl;
      }),
    )
