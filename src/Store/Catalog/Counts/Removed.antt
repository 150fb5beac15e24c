-- ===== src/Store/Catalog/Counts/Removed.antt =====
-- The steps of `remove_edge`, and that they keep the counts.
use path_hydra.Common.{
  ℕ, ◌+◌, ◌≡◌, ◌∙◌, refl, sym, ap, subst, inl, inr, Bool, true, false, ◌==◌, ◌&&◌, if◌then◌else◌,
  some, List, [], ◌∷◌, lookup-insert, lookup-remove, Sorted, Sorted-insert, Sorted-remove,
  lookup_of_remove, remove, total-remove, ok, ok_or, ok_or-eq-ok, >>=-eq-ok, holds_of_ok,
  Bool-cases, arith,
}
use path_hydra.Common.Keyed.{lookup, insert}
use path_hydra.Core.{checked_sub}
use path_hydra.Core.{EdgeId, RelationId, RelationRecord, EdgeRecord}
use path_hydra.Store.Codec.{encode_popularity_key, encode_name_key, encode_adjacency_key}
use path_hydra.Store.Errors.{encoded}
use path_hydra.Store.Family.{delete}
use path_hydra.Store.Catalog.{
  Catalog, get_edge, get_relation, put_relation, validate_exact_adjacency,
}
use path_hydra.Store.Catalog.Remove.{
  RelationFamilies, DeletionResult, drop_relation, keep_relation, lower_relation, relation_families,
  remove_edge,
}
use path_hydra.Store.Catalog.Counts.{IsCounted, uses, provisional_count, confirmed_count}
use path_hydra.Store.Catalog.Commit.{commit_batch-eq-ok}
use path_hydra.Store.Catalog.Counts.Stored.{put_relation-relations}

-- What has happened to a relation `r` when the relation `id` lost confirmed edges.
pub record Lowered (r id : RelationId) (decrement : ℕ) (old : RelationRecord)
    (before after : List (ℕ × RelationRecord)) : Type 0 where
  pub other : (id == r) ≡ false → lookup after r ≡ lookup before r
  pub confirmed :
      (id == r) ≡ true → confirmed_count (lookup after r) + decrement ≡ old.confirmed_edge_count
  pub provisional :
      (id == r) ≡ true → provisional_count (lookup after r) ≡ old.provisional_reference_count
  pub sorted : Sorted before → Sorted after

drop_relation-Lowered :
    (r id : RelationId) (decrement : ℕ) (old : RelationRecord) (families : RelationFamilies)
    (end : RelationFamilies × Bool)
    → old.provisional_reference_count ≡ 0
    → old.confirmed_edge_count ≡ decrement
    → drop_relation id families old ≡ ok end
    → Lowered r id decrement old families.relations end.0.relations
unfolding drop_relation provisional_count confirmed_count
drop_relation-Lowered r id decrement old families end p q h =
    let (old_key, _, h1) = >>=-eq-ok (encoded (encode_popularity_key old)) _ h in
    let (name_key, _, h2) = >>=-eq-ok (encoded (encode_name_key old.name)) _ h1 in
    let l = lookup-remove families.relations id r in
    holds_of_ok (λ x. Lowered r id decrement old families.relations x.0.relations)
      {a = (
        record {
          relations = remove families.relations id;
          relation_names = delete families.relation_names name_key;
          popularity = delete families.popularity old_key;
        },
        true,
      )}
      (record {
        other = λ k. rw k at l;
        confirmed = λ k. rw (rw k at l) (omega (arith, q));
        provisional = λ k. rw (rw k at l) (sym p);
        sorted = Sorted-remove families.relations id;
      })
      h2

keep_relation-Lowered :
    (r id : RelationId) (decrement : ℕ) (old updated : RelationRecord) (families : RelationFamilies)
    (end : RelationFamilies × Bool)
    → updated.id ≡ id
    → updated.provisional_reference_count ≡ old.provisional_reference_count
    → updated.confirmed_edge_count + decrement ≡ old.confirmed_edge_count
    → keep_relation families old updated ≡ ok end
    → Lowered r id decrement old families.relations end.0.relations
unfolding keep_relation provisional_count confirmed_count
keep_relation-Lowered r id decrement old updated families end i p q h =
    let ((relations, popularity), e, h1) =
      >>=-eq-ok (put_relation (families.relations, families.popularity) old updated) _ h in
    let put : relations ≡ insert families.relations id updated =
      put_relation-relations (families.relations, families.popularity) old updated
        (relations, popularity) e
      ∙ ap (λ k. insert families.relations k updated) i in
    let l : lookup relations r ≡ (if id == r then some updated else lookup families.relations r) =
      rw put (lookup-insert families.relations id updated r) in
    holds_of_ok (λ x. Lowered r id decrement old families.relations x.0.relations)
      {a = (record families { relations = relations; popularity = popularity }, false)}
      (record {
        other = λ k. rw k at l;
        confirmed = λ k. rw (rw k at l) q;
        provisional = λ k. rw (rw k at l) p;
        sorted = λ s. rw put (Sorted-insert families.relations id updated s);
      })
      h1

pub checked_sub-eq-some : (a b rest : ℕ) → checked_sub a b ≡ some rest → rest + b ≡ a
unfolding checked_sub
checked_sub-eq-some a b rest h = ground arith

-- The record that the relation had, and what became of it.
pub lower_relation-Lowered :
    (c : Catalog) (id : RelationId) (decrement : ℕ) (families : RelationFamilies)
    (end : RelationFamilies × Bool)
    → lower_relation c id decrement families ≡ ok end
    → (old : RelationRecord) × (lookup c.relations id ≡ some old)
      × ((r : RelationId) → Lowered r id decrement old families.relations end.0.relations)
unfolding lower_relation get_relation
lower_relation-Lowered c id decrement families end h =
    let (old, e, h1) = >>=-eq-ok (get_relation c id) _ h in
    let (confirmed, e1, h2) =
      >>=-eq-ok (ok_or (checked_sub old.confirmed_edge_count decrement) _) _ h1 in
    let rest =
      checked_sub-eq-some old.confirmed_edge_count decrement confirmed (ok_or-eq-ok _ _ e1) in
    (
      old,
      ok_or-eq-ok _ _ e,
      λ r. elim (Bool-cases (old.provisional_reference_count == 0 && confirmed == 0)) [
        | inl gone ↦
            drop_relation-Lowered r id decrement old families end (ground (arith, gone))
              (ground (arith, gone, rest)) (rw gone at h2)
        | inr kept ↦
            keep_relation-Lowered r id decrement old
              (record old { id = id; confirmed_edge_count = confirmed }) families end refl refl rest
              (rw kept at h2)
      ],
    )

-- The steps of a removal that succeeds.
pub record EdgeRemoval (id : EdgeId) (c : Catalog) (end : Catalog × DeletionResult) : Type 0 where
  pub found : EdgeRecord
  pub families : RelationFamilies
  pub gone : Bool
  pub stands : lookup c.edges id ≡ some found
  pub adjacent : validate_exact_adjacency c found ≡ ok tt
  pub lowers : lower_relation c found.relation_kind 1 (relation_families c) ≡ ok (families, gone)
  pub result : end ≡ (
    record c {
      edges = remove c.edges id;
      outgoing = delete c.outgoing (encode_adjacency_key found.source id);
      incoming = delete c.incoming (encode_adjacency_key found.destination id);
      relations = families.relations;
      relation_names = families.relation_names;
      popularity = families.popularity;
      has_active_image = false;
    },
    if gone then found.relation_kind ∷ [] else [],
  )

pub remove_edge-EdgeRemoval :
    (accepted : Bool) (id : EdgeId) (c : Catalog) (end : Catalog × DeletionResult)
    → remove_edge accepted id c ≡ ok end
    → EdgeRemoval id c end
unfolding remove_edge get_edge
remove_edge-EdgeRemoval accepted id c end h =
    let (found, e, h1) = >>=-eq-ok (get_edge c id) _ h in
    let (_, e1, h2) = >>=-eq-ok (validate_exact_adjacency c found) _ h1 in
    let ((families, gone), e2, h3) =
      >>=-eq-ok (lower_relation c found.relation_kind 1 (relation_families c)) _ h2 in
    record {
      found = found;
      families = families;
      gone = gone;
      stands = ok_or-eq-ok _ _ e;
      adjacent = e1;
      lowers = e2;
      result = commit_batch-eq-ok accepted _ _ end h3;
    }

confirmed_count-Lowered :
    (r id : RelationId) (old : RelationRecord) (before after : List (ℕ × RelationRecord))
    → lookup before id ≡ some old
    → Lowered r id 1 old before after
    → (confirmed_count (lookup after r) + (if id == r then 1 else 0)
        ≡ confirmed_count (lookup before r))
      × (provisional_count (lookup after r) ≡ provisional_count (lookup before r))
unfolding confirmed_count provisional_count
confirmed_count-Lowered r id old before after there l = elim (Bool-cases (id == r)) [
  | inl same ↦
      let k : id ≡ r = ground arith in
      let there' : lookup before r ≡ some old = subst (λ x. lookup before x ≡ some old) k there in
      rw (same, there') (l.confirmed same, l.provisional same)
  | inr differs ↦ rw (differs, l.other differs) (omega arith, refl)
]

pub EdgeRemoval-IsCounted :
    (id : EdgeId) (c : Catalog) (end : Catalog × DeletionResult)
    → IsCounted c
    → EdgeRemoval id c end
    → IsCounted end.0
unfolding uses
EdgeRemoval-IsCounted id c end counted e =
    let (old, there, lowered) =
      lower_relation-Lowered c e.found.relation_kind 1 (relation_families c) (e.families, e.gone)
        e.lowers in
    let counts = λ (r : RelationId).
      confirmed_count-Lowered r e.found.relation_kind old c.relations e.families.relations there
        (lowered r) in
    subst (λ x. IsCounted x.0) (sym e.result)
      (record {
        confirmed = λ r.
            let left = total-remove (uses r) c.edges id e.found counted.edges_sorted e.stands in
            let before = counted.confirmed r in
            let lost = (counts r).0 in omega (arith, left, before, lost);
        provisional = λ r. (counts r).1 ∙ counted.provisional r;
        edges_sorted = Sorted-remove c.edges id counted.edges_sorted;
        edges_keyed = λ k found h. counted.edges_keyed k found (lookup_of_remove c.edges id k h);
        relations_sorted = (lowered 0).sorted counted.relations_sorted;
        below_next = counted.below_next;
      })
