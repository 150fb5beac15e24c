-- ===== src/Store/Catalog/Counts/Inserted.antt =====
-- `insert_candidate_batch` keeps the counts.
use path_hydra.Common.{
  ℕ, ◌+◌, ◌<◌, ◌≡◌, ◌∙◌, sym, ap, subst, Bool, Option, none, some, List, [], length, replicate,
  Sorted, total, Below, ok, ok_or, ok_or-eq-ok, >>=-eq-ok, arith,
}
use path_hydra.Common.Keyed.{lookup}
use path_hydra.Store.Family.{Family}
use path_hydra.Core.{
  checked_add-eq-some, u64_bound, RelationId, CandidateId, Candidate, checked_add, RelationRecord,
}
use path_hydra.Store.Batch.{CandidateBatchEntry}
use path_hydra.Store.Catalog.{Catalog}
use path_hydra.Store.Catalog.Insert.{
  BatchTally, CandidateBatchInsertResult, no_counts, check_limits, plan, complete, put_candidates,
  put_provisional, value_or_zero, ids_from, insert_candidate_batch,
}
use path_hydra.Store.Catalog.Counts.{IsCounted, references, provisional_count, confirmed_count}
use path_hydra.Store.Catalog.Counts.Planned.{references_of, ids_of, plan-Counted, complete-same}
use path_hydra.Store.Catalog.Commit.{commit_batch-eq-ok}
use path_hydra.Store.Catalog.Counts.Stored.{Usage, put_candidates-total, put_provisional-Usage}

Usage-provisional :
    (c : Catalog) (r : RelationId) (usage : Option ℕ) (after : List (ℕ × RelationRecord))
    → Usage c r usage c.relations after
    → provisional_count (lookup after r)
      ≡ value_or_zero usage + provisional_count (lookup c.relations r)
unfolding value_or_zero
Usage-provisional c r none after u = rw u (omega arith)
Usage-provisional c r (some delta) after (p, _) = omega (arith, p)

Usage-confirmed :
    (c : Catalog) (r : RelationId) (usage : Option ℕ) (after : List (ℕ × RelationRecord))
    → Usage c r usage c.relations after
    → confirmed_count (lookup after r) ≡ confirmed_count (lookup c.relations r)
Usage-confirmed c r none after u = ap confirmed_count u
Usage-confirmed c r (some delta) after (_, q) = q

abbrev pub empty_tally : List CandidateBatchEntry → BatchTally
empty_tally entries = record {
  counts = no_counts;
  incoming = replicate (length entries) 0;
  provisional_by_relation = [];
}

checked_add-bound : (a b sum : ℕ) → checked_add a b ≡ some sum → a + b < u64_bound
unfolding checked_add
checked_add-bound a b sum h = ground arith

-- The steps of an insertion that succeeds.
pub record Insertion (entries : List CandidateBatchEntry) (c : Catalog)
    (end : Catalog × CandidateBatchInsertResult) : Type 0 where
  pub planned : List Candidate
  pub tally : BatchTally
  pub candidates : List Candidate
  pub family : List (ℕ × Candidate)
  pub families : List (ℕ × RelationRecord) × Family
  pub plans :
      plan c entries c.next_candidate_id 0 entries (empty_tally entries) ≡ ok (planned, tally)
  pub completes : complete 0 tally.incoming planned ≡ ok candidates
  pub puts : put_candidates candidates c.candidates ≡ ok family
  pub updates :
      put_provisional c tally.provisional_by_relation (c.relations, c.popularity) ≡ ok families
  pub within : c.next_candidate_id + length entries < u64_bound
  pub result : end ≡ (
    record c {
      candidates = family;
      relations = families.0;
      popularity = families.1;
      next_candidate_id = c.next_candidate_id + length entries;
    },
    record { candidate_ids = ids_from c.next_candidate_id (length entries); counts = tally.counts },
  )

pub insert_candidate_batch-Insertion :
    (accepted : Bool) (entries : List CandidateBatchEntry) (c : Catalog)
    (end : Catalog × CandidateBatchInsertResult)
    → insert_candidate_batch accepted entries c ≡ ok end
    → Insertion entries c end
unfolding insert_candidate_batch
insert_candidate_batch-Insertion accepted entries c end h =
    let first : CandidateId = c.next_candidate_id in
    let (_, _, h1) = >>=-eq-ok (check_limits entries) _ h in
    let (following, e2, h2) = >>=-eq-ok (ok_or (checked_add first (length entries)) _) _ h1 in
    let ((planned, tally), e3, h3) =
      >>=-eq-ok (plan c entries first 0 entries (empty_tally entries)) _ h2 in
    let (candidates, e4, h4) = >>=-eq-ok (complete 0 tally.incoming planned) _ h3 in
    let (family, e5, h5) = >>=-eq-ok (put_candidates candidates c.candidates) _ h4 in
    let (families, e6, h6) =
      >>=-eq-ok (put_provisional c tally.provisional_by_relation (c.relations, c.popularity)) _
        h5 in
    let sum = checked_add-eq-some first (length entries) following (ok_or-eq-ok _ _ e2) in
    let told : CandidateBatchInsertResult = record {
      candidate_ids = ids_from first (length entries);
      counts = tally.counts;
    } in
    let all_written : ℕ → Catalog = λ next. record c {
      candidates = family;
      relations = families.0;
      popularity = families.1;
      next_candidate_id = next;
    } in
    let done : end ≡ (all_written following, told) =
      commit_batch-eq-ok accepted (all_written following) told end h6 in
    record {
      planned = planned;
      tally = tally;
      candidates = candidates;
      family = family;
      families = families;
      plans = e3;
      completes = e4;
      puts = e5;
      updates = e6;
      within = checked_add-bound first (length entries) following (ok_or-eq-ok _ _ e2);
      result = subst (λ next. end ≡ (all_written next, told)) sum done;
    }

module _ (entries : List CandidateBatchEntry) (c : Catalog)
    (end : Catalog × CandidateBatchInsertResult) (i : Insertion entries c end) where
  pub planned-Counted :
      (r : RelationId)
      → (references_of r i.planned ≡ value_or_zero (lookup i.tally.provisional_by_relation r))
        × Sorted i.tally.provisional_by_relation
        × (ids_of i.planned ≡ ids_from c.next_candidate_id (length entries))
  unfolding lookup value_or_zero
  planned-Counted r =
      let (k, ids) =
        plan-Counted c entries c.next_candidate_id r 0 entries (empty_tally entries)
          (i.planned, i.tally) i.plans in
      let first : c.next_candidate_id + 0 ≡ c.next_candidate_id = omega arith in
      (omega (arith, k.grown), k.sorted tt, rw first at ids)

  candidates-total :
      (r : RelationId)
      → IsCounted c
      → (total (references r) i.family
          ≡ references_of r i.planned + total (references r) c.candidates)
        × Below (c.next_candidate_id + length entries) i.family
  candidates-total r counted =
      let (same, ids) = complete-same r 0 i.tally.incoming i.planned i.candidates i.completes in
      let (t, below) =
        put_candidates-total r i.candidates c.next_candidate_id (length entries) c.candidates
          i.family counted.below_next (ids ∙ (planned-Counted r).2) i.puts in
      (rw same at t, below)

  relations-Usage :
      (r : RelationId)
      → Usage c r (lookup i.tally.provisional_by_relation r) c.relations i.families.0
        × (Sorted c.relations → Sorted i.families.0)
  relations-Usage r =
      put_provisional-Usage c r i.tally.provisional_by_relation (c.relations, c.popularity)
        i.families (planned-Counted r).1 i.updates

  pub Insertion-IsCounted : IsCounted c → IsCounted end.0
  Insertion-IsCounted counted =
      subst (λ x. IsCounted x.0) (sym i.result)
        (record {
          confirmed = λ r.
              Usage-confirmed c r (lookup i.tally.provisional_by_relation r) i.families.0
                (relations-Usage r).0
              ∙ counted.confirmed r;
          provisional = λ r.
              let u =
                Usage-provisional c r (lookup i.tally.provisional_by_relation r) i.families.0
                  (relations-Usage r).0 in
              let k = (planned-Counted r).0 in
              let t = (candidates-total r counted).0 in
              let old = counted.provisional r in omega (arith, u, k, t, old);
          edges_sorted = counted.edges_sorted;
          edges_keyed = counted.edges_keyed;
          relations_sorted = (relations-Usage 0).1 counted.relations_sorted;
          below_next = (candidates-total 0 counted).1;
        })

-- A batch that is inserted keeps the catalog counted, where it was: each relation's provisional
-- and confirmed counts are the numbers of the provisional and the confirmed edges that name it,
-- no edge names an absent relation, the maps are in order with every edge under its identity, and
-- no candidate has an identity that is still to be given.
pub insert_candidate_batch-IsCounted :
    (accepted : Bool) (entries : List CandidateBatchEntry) (c : Catalog)
    (end : Catalog × CandidateBatchInsertResult)
    → IsCounted c
    → insert_candidate_batch accepted entries c ≡ ok end
    → IsCounted end.0
insert_candidate_batch-IsCounted accepted entries c end counted h =
    Insertion-IsCounted entries c end (insert_candidate_batch-Insertion accepted entries c end h)
      counted
