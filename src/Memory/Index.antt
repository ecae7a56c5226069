-- ===== src/Memory/Index.antt =====
-- `find_mem_index`: which size class a request gets, and what a request above the largest does.
use microcsp.Base.{
  ℕ, zero, suc, ◌+◌, ◌≤◌, ◌<◌, ◌≡◌, refl, Bool, true, false, ◌||◌, List, [], ◌∷◌, arith, ltb, leb,
  ◌&&◌, length, get_or, Bool-cases, inl, inr,
}
use microcsp.Machine.{Machine, ok, fault}
use microcsp.Memory.{procmemlen, find_from, find_mem_index}

abbrev fits : List ℕ → ℕ → Bool
fits [] size = false
fits (len ∷ lens) size = leb size len || fits lens size

abbrev no_zero : List ℕ → Bool
no_zero [] = true
no_zero (len ∷ lens) = ltb 0 len && no_zero lens

-- Class `k` is the first whose blocks hold `size` bytes.
pub record IsSmallest (lens : List ℕ) (size k : ℕ) : Type 0 where
  pub in_range : k < length lens
  pub large_enough : size ≤ get_or lens k 0
  pub smallest : (j : ℕ) → j < k → get_or lens j 0 < size

smaller_first :
    (len size k : ℕ) (lens : List ℕ)
    → len < size
    → ((j : ℕ) → j < k → get_or lens j 0 < size)
    → (j : ℕ) → j < suc k
    → get_or (len ∷ lens) j 0 < size
smaller_first len size k lens h f zero lt = h
smaller_first len size k lens h f (suc j) lt = f j (omega arith)

find_from-IsSmallest :
    (lens : List ℕ) (i size : ℕ) (m : Machine)
    → no_zero lens ≡ true
    → fits lens size ≡ true
    → (k : ℕ) × (find_from lens i size m ≡ ok (i + k) m) × IsSmallest lens size k
unfolding find_from
find_from-IsSmallest [] i size m z f = absurd (ground arith)
find_from-IsSmallest (len ∷ lens) i size m z f = elim (Bool-cases (leb size len)) [
  | inl enough ↦ (
    0,
    ground arith,
    record {
      in_range = omega arith;
      large_enough = ground arith;
      smallest = λ j lt. absurd (omega arith);
    },
  )
  | inr small ↦
      let (k, e, s) = find_from-IsSmallest lens (i + 1) size m (ground arith) (ground arith) in
      (
        suc k,
        ground arith,
        record {
          in_range = omega (arith, s.in_range);
          large_enough = s.large_enough;
          smallest = smaller_first len size k lens (ground arith) s.smallest;
        },
      )
]

find_from-fault :
    (lens : List ℕ) (i size : ℕ) (m : Machine)
    → no_zero lens ≡ true
    → fits lens size ≡ false
    → find_from lens i size m ≡ fault
unfolding find_from
find_from-fault [] i size m z f = refl
find_from-fault (len ∷ lens) i size m z f = ground (arith, find_from-fault lens (i + 1) size m)

fits-table : (size : ℕ) → fits procmemlen size ≡ leb size 192
fits-table size = ground arith

-- A request of at most 192 bytes gets the first size class whose blocks hold it: the index is in
-- range, its blocks are large enough, and those of every lower index are too small.
pub find_mem_index-IsSmallest :
    (size : ℕ) (m : Machine)
    → size ≤ 192
    → (k : ℕ) × (find_mem_index size m ≡ ok k m) × IsSmallest procmemlen size k
unfolding find_mem_index
find_mem_index-IsSmallest size m h =
    let (k, e, s) = find_from-IsSmallest procmemlen 0 size m refl (rw fits-table (ground arith)) in
    (k, ground (arith, e), s)

-- A request of more than 192 bytes is not reported: the search reads past the table, which has no
-- closing 0, so the call of `error` behind the loop is never made.
pub find_mem_index-fault : (size : ℕ) (m : Machine) → 192 < size → find_mem_index size m ≡ fault
unfolding find_mem_index
find_mem_index-fault size m h =
    find_from-fault procmemlen 0 size m refl (rw fits-table (ground arith))
