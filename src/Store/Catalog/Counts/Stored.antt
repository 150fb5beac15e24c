-- ===== src/Store/Catalog/Counts/Stored.antt =====
-- What the write batch of `insert_candidate_batch` does to the candidates and to the relation records.
use path_hydra.Common.{
  ℕ, zero, suc, ◌+◌, ◌<◌, ◌≡◌, ◌∙◌, refl, subst, inl, inr, ◌==◌, if◌then◌else◌, Option, none, some,
  List, [], ◌∷◌, All, lookup-insert, lookup-Above, Below, lookup-Below, insert-Below, Sorted,
  Sorted-insert, total, total-insert, ok, ok_or, ok_or-eq-ok, >>=-eq-ok, holds_of_ok, Bool-cases,
  arith,
}
use path_hydra.Common.Keyed.{lookup, insert}
use path_hydra.Core.{
  checked_add-eq-some, RelationId, Candidate, candidate_id, RelationRecord, checked_add,
}
use path_hydra.Store.Codec.{encode_candidate, encode_popularity_key, encode_relation}
use path_hydra.Store.Family.{Family, put, delete}
use path_hydra.Store.Errors.{encoded}
use path_hydra.Store.Catalog.{Catalog, get_relation, put_relation}
use path_hydra.Store.Catalog.Insert.{put_candidates, put_provisional, ids_from}
use path_hydra.Store.Catalog.Counts.{references, provisional_count, confirmed_count}
use path_hydra.Store.Catalog.Counts.Planned.{references_of, ids_of}

-- Candidates with fresh identities join the family, and none is lost.
pub put_candidates-total :
    (r : RelationId) (candidates : List Candidate) (first n : ℕ) (family end : List (ℕ × Candidate))
    → Below first family
    → ids_of candidates ≡ ids_from first n
    → put_candidates candidates family ≡ ok end
    → (total (references r) end ≡ references_of r candidates + total (references r) family)
      × Below (first + n) end
unfolding put_candidates ids_of ids_from references_of
put_candidates-total r [] first zero family end a ids h =
    let same : first ≡ first + 0 = omega arith in
    holds_of_ok
      (λ x. (total (references r) x ≡ 0 + total (references r) family) × Below (first + 0) x)
      (omega arith, subst (λ n. Below n family) same a) h
put_candidates-total r [] first (suc n) family end a ids h = absurd (cc ids)
put_candidates-total r (candidate ∷ candidates) first zero family end a ids h = absurd (cc ids)
put_candidates-total r (candidate ∷ candidates) first (suc n) family end a ids h =
    let (_, _, h1) = >>=-eq-ok (encoded (encode_candidate candidate)) _ h in
    let id : candidate_id candidate ≡ first = cc ids in
    let more : ids_of candidates ≡ ids_from (suc first) n = cc ids in
    let h2 = rw id at h1 in
    let (t, b) =
      put_candidates-total r candidates (suc first) n (insert family first candidate) end
        (insert-Below family first candidate a) more h2 in
    let fresh = total-insert (references r) family first candidate (lookup-Below family first a) in
    let next : suc first + n ≡ first + suc n = omega arith in
    (omega (arith, t, fresh), subst (λ x. Below x end) next b)

-- A relation's record is replaced.
pub put_relation-relations :
    (families : List (ℕ × RelationRecord) × Family) (old new : RelationRecord)
    (end : List (ℕ × RelationRecord) × Family)
    → put_relation families old new ≡ ok end
    → end.0 ≡ insert families.0 new.id new
unfolding put_relation
put_relation-relations (relations, popularity) old new end h =
    let (old_key, _, h1) = >>=-eq-ok (encoded (encode_popularity_key old)) _ h in
    let (_, _, h2) = >>=-eq-ok (encoded (encode_relation new)) _ h1 in
    let (new_key, _, h3) = >>=-eq-ok (encoded (encode_popularity_key new)) _ h2 in
    holds_of_ok (λ x. x.0 ≡ insert relations new.id new)
      {a = (insert relations new.id new, put (delete popularity old_key) new_key new.id)} refl h3

abbrev pub Usage :
    Catalog → RelationId → Option ℕ → List (ℕ × RelationRecord) → List (ℕ × RelationRecord) → Type 0
Usage c r none before after = lookup after r ≡ lookup before r
Usage c r (some delta) before after =
    (provisional_count (lookup after r) ≡ provisional_count (lookup c.relations r) + delta)
    × (confirmed_count (lookup after r) ≡ confirmed_count (lookup c.relations r))

module _ (c : Catalog) (r : RelationId) (before mid after : List (ℕ × RelationRecord)) where
  -- A relation of the usage that is not the next one.
  Usage-later :
      (usage : Option ℕ)
      → lookup mid r ≡ lookup before r
      → Usage c r usage mid after
      → Usage c r usage before after
  Usage-later none l u = u ∙ l
  Usage-later (some delta) l u = u

  Usage-step :
      (id delta : ℕ) (rest : List (ℕ × ℕ)) (old new : RelationRecord)
      → All (λ e. id < e.0) rest
      → lookup c.relations id ≡ some old
      → lookup mid r ≡ (if id == r then some new else lookup before r)
      → new.provisional_reference_count ≡ old.provisional_reference_count + delta
      → new.confirmed_edge_count ≡ old.confirmed_edge_count
      → Usage c r (lookup rest r) mid after
      → Usage c r (if id == r then some delta else lookup rest r) before after
  unfolding provisional_count confirmed_count
  Usage-step id delta rest old new a there l p q u = elim (Bool-cases (id == r)) [
    | inl same ↦
        let k : id ≡ r = ground arith in
        let there' : lookup c.relations r ≡ some old =
          subst (λ x. lookup c.relations x ≡ some old) k there in
        let u' : lookup after r ≡ lookup mid r =
          rw (lookup-Above rest id r (omega (arith, k)) a) at u in
        let l' : lookup mid r ≡ some new = rw same at l in rw (same, u', l', there') (p, q)
    | inr other ↦ rw other (Usage-later (lookup rest r) (rw other at l) u)
  ]

pub put_provisional-Usage :
    (c : Catalog) (r : RelationId) (usage : List (ℕ × ℕ))
    (families end : List (ℕ × RelationRecord) × Family)
    → Sorted usage
    → put_provisional c usage families ≡ ok end
    → Usage c r (lookup usage r) families.0 end.0 × (Sorted families.0 → Sorted end.0)
unfolding put_provisional lookup get_relation
put_provisional-Usage c r [] families end s h =
    holds_of_ok (λ x. (lookup x.0 r ≡ lookup families.0 r) × (Sorted families.0 → Sorted x.0))
      {a = families} (refl, λ t. t) h
put_provisional-Usage c r ((id, delta) ∷ rest) families end (a, s) h =
    let (old, e, h1) = >>=-eq-ok (get_relation c id) _ h in
    let (provisional, e1, h2) =
      >>=-eq-ok (ok_or (checked_add old.provisional_reference_count delta) _) _ h1 in
    let (_, _, h3) = >>=-eq-ok (ok_or (checked_add provisional old.confirmed_edge_count) _) _ h2 in
    let new : RelationRecord = record old { id = id; provisional_reference_count = provisional } in
    let (families1, e2, h4) = >>=-eq-ok (put_relation families old new) _ h3 in
    let put = put_relation-relations families old new families1 e2 in
    let sum =
      checked_add-eq-some old.provisional_reference_count delta provisional (ok_or-eq-ok _ _ e1) in
    let there : lookup c.relations id ≡ some old = ok_or-eq-ok _ _ e in
    let (u, t) = put_provisional-Usage c r rest families1 end s h4 in
    let l = lookup-insert families.0 id new r in
    (
      Usage-step c r families.0 families1.0 end.0 id delta rest old new a there (rw put l) sum refl
          u,
      λ o. t (rw put (Sorted-insert families.0 id new o)),
    )
