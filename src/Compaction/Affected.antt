-- ===== src/Compaction/Affected.antt =====
-- internal/cli/mutation_receipt.go: the summary of the affected tasks.
use terminal_todo.Base.{
  Eq-nat, ℕ, zero, suc, ◌≤◌, ◌≡◌, refl, false, not, ◌&&◌, List, [], ◌∷◌, arith, ltb, leb,
  if◌then◌else◌, length, take, has, has-nil, has-cons, Bool-cases, inl, inr,
}
use terminal_todo.Store.Ops.{insert_id, sort_ids}
use terminal_todo.Store.Expiry.{has-sort_ids}
use terminal_todo.Compaction.{
  MutationAffected, max_mutation_receipt_ids, unique_from, unique_task_ids, new_mutation_affected,
}

-- Strictly rising.
abbrev pub Rises : ℕ → List ℕ → Type 0
Rises low [] = Unit
Rises low (n ∷ ns) = (low ≤ n) × Rises (suc n) ns

insert_id-Rises :
    (low n : ℕ) (ns : List ℕ)
    → low ≤ n
    → has n ns ≡ false
    → Rises low ns
    → Rises low (insert_id n ns)
unfolding insert_id has
insert_id-Rises low n [] l h r = (l, tt)
insert_id-Rises low n (m ∷ ms) l h r = ground (arith, insert_id-Rises (suc m) n ms)

abbrev NoRepeat : List ℕ → Type 0
NoRepeat [] = Unit
NoRepeat (n ∷ ns) = (has n ns ≡ false) × NoRepeat ns

sort_ids-Rises : (ns : List ℕ) → NoRepeat ns → Rises 0 (sort_ids ns)
unfolding sort_ids
sort_ids-Rises [] u = tt
sort_ids-Rises (n ∷ ns) u =
    insert_id-Rises 0 n (sort_ids ns) (omega arith) (rw (has-sort_ids n ns) u.0)
      (sort_ids-Rises ns u.1)

has-same : (k n : ℕ) (ns : List ℕ) → k ≡ n → has k ns ≡ has n ns
has-same k n ns e = rw e refl

pub has-unique_from :
    (k : ℕ) (seen ids : List ℕ) → has k (unique_from seen ids) ≡ (not (has k seen) && has k ids)
unfolding unique_from has
has-unique_from k seen [] = ground arith
has-unique_from k seen (n ∷ ns) = elim (Bool-cases (has n seen)) [
  | inl e ↦ rw (e, unique_from, has) (ground (arith, has-unique_from k seen ns, has-same k n seen))
  | inr e ↦
      rw (e, unique_from, has) (ground (arith, has-unique_from k (n ∷ seen) ns, has-cons k n seen))
]

unique_from-NoRepeat : (seen ids : List ℕ) → NoRepeat (unique_from seen ids)
unfolding unique_from
unique_from-NoRepeat seen [] = tt
unique_from-NoRepeat seen (n ∷ ns) = elim (Bool-cases (has n seen)) [
  | inl e ↦ rw (e, unique_from) (unique_from-NoRepeat seen ns)
  | inr e ↦
      rw (e, unique_from)
        (
          ground (arith, has-unique_from n (n ∷ seen) ns, has-cons n n seen),
          unique_from-NoRepeat (n ∷ seen) ns,
        )
]

length-take :
    (n : ℕ) (ns : List ℕ) → length (take n ns) ≡ (if leb n (length ns) then n else length ns)
length-take zero ns = ground arith
length-take (suc n) [] = ground arith
length-take (suc n) (m ∷ ms) = ground (arith, length-take n ms)

-- A summary of affected tasks.
pub record Summarises (ids : List ℕ) (a : MutationAffected) : Type 0 where
  pub distinct : List ℕ
  pub rising : Rises 0 distinct
  pub same : (k : ℕ) → has k distinct ≡ has k ids
  pub counted : a.total ≡ length distinct
  pub first : a.ids ≡ take max_mutation_receipt_ids distinct
  pub bounded : length a.ids ≤ max_mutation_receipt_ids
  pub cut : a.truncated ≡ ltb max_mutation_receipt_ids a.total

-- A summary lists each affected task once, by rising ID, up to 20 of them; its total counts all
-- distinct ones, and it says truncated exactly if there are more than 20.
pub new_mutation_affected-Summarises : (ids : List ℕ) → Summarises ids (new_mutation_affected ids)
unfolding new_mutation_affected unique_task_ids
new_mutation_affected-Summarises ids =
    let unique = unique_from [] ids in
    let sorted = sort_ids unique in
    let r = sort_ids-Rises unique (unique_from-NoRepeat [] ids) in
    record {
      distinct = sorted;
      rising = r;
      same = λ k. same k ids;
      counted = refl;
      first = refl;
      bounded = ground (arith, length-take max_mutation_receipt_ids sorted);
      cut = ground (arith, length-take max_mutation_receipt_ids sorted);
    }
  where
    same : (k : ℕ) (ids : List ℕ) → has k (sort_ids (unique_from [] ids)) ≡ has k ids
    same k ids =
        ground (arith, has-sort_ids k (unique_from [] ids), has-unique_from k [] ids, has-nil k)
