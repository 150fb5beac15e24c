-- ===== src/Store/Catalog/Counts/Recorded.antt =====
-- Where `insert_candidate_batch` puts the candidates of the batch, and with which reference counts.
use path_hydra.Common.{
  ℕ, zero, suc, ◌+◌, ◌<◌, ◌≡◌, ◌∙◌, refl, sym, ap, subst, Bool, true, false, ◌==◌, Option, none,
  some, List, [], ◌∷◌, length, get_elem?, replicate, length-replicate, lookup-insert, ok, guard,
  >>=-eq-ok, holds_of_ok, arith,
}
use path_hydra.Common.Keyed.{lookup, insert}
use path_hydra.Core.{CandidateId, Candidate, candidate_id, u64_bound}
use path_hydra.Store.Codec.{encode_candidate}
use path_hydra.Store.Errors.{encoded}
use path_hydra.Store.Batch.{CandidateBatchEntry}
use path_hydra.Store.Catalog.{Catalog}
use path_hydra.Store.Catalog.Insert.{
  CandidateBatchInsertResult, value_or_zero, with_incoming, complete, put_candidates, ids_from,
  insert_candidate_batch,
}
use path_hydra.Store.Catalog.Counts.Planned.{ids_of, complete-same}
use path_hydra.Store.Catalog.Counts.Inserted.{
  Insertion, insert_candidate_batch-Insertion, planned-Counted, empty_tally,
}
use path_hydra.Store.Catalog.Counts.Referenced.{batch_references, plan-Grew, guard-eq-ok}

-- The references that a candidate is recorded to have.
unfoldable pub incoming_count : Option Candidate → ℕ
incoming_count none = 0
incoming_count (some (Candidate.node _ _ _ count)) = count
incoming_count (some (Candidate.relation _ _ count)) = count
incoming_count (some (Candidate.edge _ _ _ _ _)) = 0

with_incoming-count :
    (index count : ℕ) (candidate end : Candidate)
    → with_incoming index count candidate ≡ ok end
    → incoming_count (some end) ≡ count
unfolding with_incoming incoming_count
with_incoming-count index count (Candidate.node id name payload _) end h =
    holds_of_ok (λ x. incoming_count (some x) ≡ count) refl h
with_incoming-count index count (Candidate.relation id name _) end h =
    holds_of_ok (λ x. incoming_count (some x) ≡ count) refl h
with_incoming-count index count (Candidate.edge id source destination kind weight) end h =
    let (_, e, h1) = >>=-eq-ok (guard (count == 0) _) _ h in
    let empty = guard-eq-ok _ _ e in
    let p : 0 ≡ count = ground (arith, empty) in
    holds_of_ok (λ x. incoming_count (some x) ≡ count) p h1

complete-count :
    (index : ℕ) (incoming : List ℕ) (candidates end : List Candidate) (j : ℕ)
    → length incoming ≡ length candidates
    → complete index incoming candidates ≡ ok end
    → incoming_count (get_elem? end j) ≡ value_or_zero (get_elem? incoming j)
unfolding complete incoming_count value_or_zero
complete-count index [] [] end j l h = holds_of_ok (λ x. incoming_count (get_elem? x j) ≡ 0) refl h
complete-count index [] (candidate ∷ candidates) end j l h = absurd (omega (arith, l))
complete-count index (count ∷ incoming) [] end j l h = absurd (omega (arith, l))
complete-count index (count ∷ incoming) (candidate ∷ candidates) end zero l h =
    let (candidate1, e, h1) = >>=-eq-ok (with_incoming index count candidate) _ h in
    let (candidates1, e1, h2) = >>=-eq-ok (complete (suc index) incoming candidates) _ h1 in
    holds_of_ok (λ x. incoming_count (get_elem? x 0) ≡ count)
      (with_incoming-count index count candidate candidate1 e) h2
complete-count index (count ∷ incoming) (candidate ∷ candidates) end (suc j) l h =
    let (candidate1, e, h1) = >>=-eq-ok (with_incoming index count candidate) _ h in
    let (candidates1, e1, h2) = >>=-eq-ok (complete (suc index) incoming candidates) _ h1 in
    let rest = complete-count (suc index) incoming candidates candidates1 j (omega (arith, l)) e1 in
    holds_of_ok (λ x. incoming_count (get_elem? x (suc j)) ≡ value_or_zero (get_elem? incoming j))
      rest h2

length-ids_of : (candidates : List Candidate) → length (ids_of candidates) ≡ length candidates
unfolding ids_of
length-ids_of [] = refl
length-ids_of (candidate ∷ candidates) = ap suc (length-ids_of candidates)

length-ids_from : (first n : ℕ) → length (ids_from first n) ≡ n
unfolding ids_from
length-ids_from first zero = refl
length-ids_from first (suc n) = ap suc (length-ids_from (suc first) n)

lookup-first :
    (end : List (ℕ × Candidate)) (first n : ℕ) (candidate : Candidate) (candidates : List Candidate)
    → lookup end first ≡ some candidate
    → ((j : ℕ) → j < n → lookup end (suc first + j) ≡ get_elem? candidates j)
    → (j : ℕ) → j < suc n
    → lookup end (first + j) ≡ get_elem? (candidate ∷ candidates) j
lookup-first end first n candidate candidates here rest zero low =
    let p : first + 0 ≡ first = omega arith in rw p here
lookup-first end first n candidate candidates here rest (suc j) low =
    let p : first + suc j ≡ suc first + j = omega arith in rw p (rest j (omega (arith, low)))

-- Candidates with consecutive identities are found under them, and no others change.
put_candidates-lookup :
    (candidates : List Candidate) (first n : ℕ) (family end : List (ℕ × Candidate))
    → ids_of candidates ≡ ids_from first n
    → put_candidates candidates family ≡ ok end
    → ((j : ℕ) → j < n → lookup end (first + j) ≡ get_elem? candidates j)
      × ((id : ℕ) → id < first → lookup end id ≡ lookup family id)
unfolding put_candidates ids_of ids_from
put_candidates-lookup [] first zero family end ids h =
    holds_of_ok
      (λ x.
        ((j : ℕ) → j < 0 → lookup x (first + j) ≡ none)
        × ((id : ℕ) → id < first → lookup x id ≡ lookup family id))
      ((λ j low. absurd (omega (arith, low))), λ id low. refl) h
put_candidates-lookup [] first (suc n) family end ids h = absurd (cc ids)
put_candidates-lookup (candidate ∷ candidates) first zero family end ids h = absurd (cc ids)
put_candidates-lookup (candidate ∷ candidates) first (suc n) family end ids h =
    let (_, _, h1) = >>=-eq-ok (encoded (encode_candidate candidate)) _ h in
    let id : candidate_id candidate ≡ first = cc ids in
    let more : ids_of candidates ≡ ids_from (suc first) n = cc ids in
    let h2 = rw id at h1 in
    let (found, kept) =
      put_candidates-lookup candidates (suc first) n (insert family first candidate) end more h2 in
    let same : (first == first) ≡ true = ground arith in
    let placed : lookup (insert family first candidate) first ≡ some candidate =
      rw (lookup-insert family first candidate first, same) refl in
    let here : lookup end first ≡ some candidate = kept first (omega arith) ∙ placed in
    (
      lookup-first end first n candidate candidates here found,
      λ k low.
          let l = lookup-insert family first candidate k in
          let other : (first == k) ≡ false = ground (arith, low) in
          kept k (omega (arith, low)) ∙ rw other at l,
    )

get_elem?-replicate : (n k : ℕ) → value_or_zero (get_elem? (replicate n 0) k) ≡ 0
unfolding value_or_zero
get_elem?-replicate zero k = refl
get_elem?-replicate (suc n) zero = refl
get_elem?-replicate (suc n) (suc k) = get_elem?-replicate n k

get_elem?-present :
    (xs : List Candidate) (j : ℕ) → j < length xs → (x : Candidate) × (get_elem? xs j ≡ some x)
get_elem?-present [] j h = absurd (omega (arith, h))
get_elem?-present (x ∷ xs) zero h = (x, refl)
get_elem?-present (x ∷ xs) (suc j) h = get_elem?-present xs j (omega (arith, h))

module _ (entries : List CandidateBatchEntry) (c : Catalog)
    (end : Catalog × CandidateBatchInsertResult) (i : Insertion entries c end) where
  recorded_ids : ids_of i.candidates ≡ ids_from c.next_candidate_id (length entries)
  recorded_ids =
      (complete-same 0 0 i.tally.incoming i.planned i.candidates i.completes).1
      ∙ (planned-Counted entries c end i 0).2

  recorded_count : (j : ℕ) → incoming_count (get_elem? i.candidates j) ≡ batch_references j entries
  unfolding value_or_zero
  recorded_count j =
      let l = length-replicate (length entries) 0 in
      let g =
        plan-Grew c entries c.next_candidate_id j 0 entries (empty_tally entries)
          (i.planned, i.tally) l i.plans in
      let ids = (planned-Counted entries c end i 0).2 in
      let n : length i.planned ≡ length entries =
        sym (length-ids_of i.planned)
        ∙ ap length ids
        ∙ length-ids_from c.next_candidate_id (length entries) in
      let size : length i.tally.incoming ≡ length i.planned = omega (arith, g.size, l, n) in
      let count = complete-count 0 i.tally.incoming i.planned i.candidates j size i.completes in
      let none_yet = get_elem?-replicate (length entries) j in
      omega (arith, count, g.count, none_yet)

  recorded :
      (j : ℕ)
      → j < length entries
      → (candidate : Candidate) × (lookup i.family (c.next_candidate_id + j) ≡ some candidate)
        × (incoming_count (some candidate) ≡ batch_references j entries)
  recorded j low =
      let (found, _) =
        put_candidates-lookup i.candidates c.next_candidate_id (length entries) c.candidates
          i.family recorded_ids i.puts in
      let n : length i.candidates ≡ length entries =
        sym (length-ids_of i.candidates)
        ∙ ap length recorded_ids
        ∙ length-ids_from c.next_candidate_id (length entries) in
      let (candidate, p) = get_elem?-present i.candidates j (omega (arith, n, low)) in
      (candidate, found j low ∙ p, rw p at (recorded_count j))

-- What an insertion that succeeds leaves for the entry at index `j`: a candidate under the next
-- identity but `j`, recorded with the number of the batch's references to the entry.
abbrev pub IsRecorded : List CandidateBatchEntry → CandidateId → List (ℕ × Candidate) → ℕ → Type 0
IsRecorded entries first candidates j =
    (candidate : Candidate) × (lookup candidates (first + j) ≡ some candidate)
    × (incoming_count (some candidate) ≡ batch_references j entries)

-- An insertion that succeeds gives its entries the next identities in order, moves the next identity
-- past them, which stays a `u64`, keeps every candidate that was below, and stores for each entry a
-- candidate whose reference count is the number of references to the entry in the batch.
pub insert_candidate_batch_lem :
    (accepted : Bool) (entries : List CandidateBatchEntry) (c : Catalog)
    (end : Catalog × CandidateBatchInsertResult)
    → insert_candidate_batch accepted entries c ≡ ok end
    → (end.1.candidate_ids ≡ ids_from c.next_candidate_id (length entries))
      × (end.0.next_candidate_id ≡ c.next_candidate_id + length entries)
      × (end.0.next_candidate_id < u64_bound)
      × ((id : CandidateId)
          → id < c.next_candidate_id
          → lookup end.0.candidates id ≡ lookup c.candidates id)
      × ((j : ℕ) → j < length entries → IsRecorded entries c.next_candidate_id end.0.candidates j)
insert_candidate_batch_lem accepted entries c end h =
    let i = insert_candidate_batch-Insertion accepted entries c end h in
    subst
      (λ x.
        (x.1.candidate_ids ≡ ids_from c.next_candidate_id (length entries))
        × (x.0.next_candidate_id ≡ c.next_candidate_id + length entries)
        × (x.0.next_candidate_id < u64_bound)
        × ((id : CandidateId)
            → id < c.next_candidate_id
            → lookup x.0.candidates id ≡ lookup c.candidates id)
        × ((j : ℕ) → j < length entries → IsRecorded entries c.next_candidate_id x.0.candidates j))
      (sym i.result)
      (
        refl,
        refl,
        i.within,
        (put_candidates-lookup i.candidates c.next_candidate_id (length entries) c.candidates
            i.family (recorded_ids entries c end i) i.puts).1,
        recorded entries c end i,
      )
