-- ===== src/Buddy/Sizes.antt =====
-- The choice of a block order in src/kmem/heap/buddy.rs: `order_for_size`, `largest_order_for`.
use sill_os.Base.{
  ltb, leb, ℕ, zero, suc, ◌+◌, ◌-◌, ◌^◌, ◌≤◌, ◌<◌, ◌≡◌, refl, Option, none, some, max, ◌⊎◌, inl,
  inr, arith, true, false, Bool-cases, ◌==◌, ==_iff, ltb→lt, leb→le,
}
use sill_os.Buddy.{
  min_order, max_order_limit, node_size, order_count, block_size, order_for_size, order_loop,
  largest_order_for, largest_order_loop,
}

-- `some o`: `o` is the smallest order in range whose blocks have `size` bytes; `none`: none has.
abbrev pub SmallestOrder : ℕ → Option ℕ → Type 0
SmallestOrder size none = 2 ^ max_order_limit < size
SmallestOrder size (some o) =
    (min_order ≤ o)
    × (o ≤ max_order_limit)
    × (size ≤ 2 ^ o)
    × ((k : ℕ) → min_order ≤ k → size ≤ 2 ^ k → o ≤ k)

module _ (rounds size order : ℕ) where
  order_loop-next :
      ltb (2 ^ order) size ≡ true
      → (order == max_order_limit) ≡ false
      → order_loop (suc rounds) size order ≡ order_loop rounds size (order + 1)
  order_loop-next short more = unfold order_loop block_size in rw (short, more)

  order_loop-last :
      ltb (2 ^ order) size ≡ true
      → (order == max_order_limit) ≡ true
      → order_loop (suc rounds) size order ≡ none
  order_loop-last short last = unfold order_loop block_size in rw (short, last)

  order_loop-fits : ltb (2 ^ order) size ≡ false → order_loop (suc rounds) size order ≡ some order
  order_loop-fits long = unfold order_loop block_size in rw long

order_loop-SmallestOrder :
    (rounds size order : ℕ)
    → order + rounds ≡ max_order_limit + 1
    → min_order ≤ order
    → ((k : ℕ) → min_order ≤ k → k < order → 2 ^ k < size)
    → SmallestOrder size (order_loop rounds size order)
order_loop-SmallestOrder zero size order e lo small =
    unfold order_loop in small max_order_limit (omega arith) (omega arith)
order_loop-SmallestOrder (suc rounds) size order e lo small =
    elim (Bool-cases (ltb (2 ^ order) size)) [
      | inl short ↦ elim (Bool-cases (order == max_order_limit)) [
        | inl last ↦
            let big : 2 ^ order < size = ltb→lt (2 ^ order) size short in
            rw (order_loop-last rounds size order short last)
              (rw ((==_iff order max_order_limit).0 last) at big)
        | inr more ↦ rw (order_loop-next rounds size order short more) (
            order_loop-SmallestOrder rounds size (order + 1) (omega arith) (omega arith) λ k p q.
              elim (Bool-cases (order == k)) [
                | inl here ↦ rw (← (==_iff order k).0 here) (ltb→lt (2 ^ order) size short)
                | inr below ↦ small k p (ground arith)
              ])
      ]
      | inr long ↦
          rw (order_loop-fits rounds size order long)
            (lo, omega arith, ground arith, λ k p h. ground (arith, small k p))
    ]

-- order_for_size gives the smallest order from 6 to 30 whose blocks hold the size and a list node,
-- and none exactly if the size exceeds the largest block.
pub order_for_size-SmallestOrder :
    (size : ℕ) → SmallestOrder (max size node_size) (order_for_size size)
order_for_size-SmallestOrder size =
    unfold order_for_size in
    order_loop-SmallestOrder order_count (max size node_size) min_order (omega arith) (omega arith)
      (λ k p q. absurd (omega arith))

-- `o` is the largest order in range whose blocks are no larger than `size`, or the smallest order.
abbrev pub LargestOrder : ℕ → ℕ → Type 0
LargestOrder size o =
    (min_order ≤ o)
    × (o ≤ max_order_limit)
    × ((o ≡ min_order) ⊎ (2 ^ o ≤ size))
    × ((o ≡ max_order_limit) ⊎ (size < 2 ^ (o + 1)))

largest_order_loop-LargestOrder :
    (rounds size order : ℕ)
    → order + rounds ≡ max_order_limit
    → min_order ≤ order
    → (order ≡ min_order) ⊎ (2 ^ order ≤ size)
    → LargestOrder size (largest_order_loop rounds size order)
unfolding largest_order_loop block_size
largest_order_loop-LargestOrder zero size order e lo fits =
    (lo, omega arith, fits, inl (omega arith))
largest_order_loop-LargestOrder (suc rounds) size order e lo fits =
    elim (Bool-cases (leb (2 ^ (order + 1)) size)) [
      | inl more ↦
          let guard : ltb order max_order_limit ≡ true = ground arith in
          rw (guard, more)
            (largest_order_loop-LargestOrder rounds size (order + 1) (omega arith) (omega arith)
              (inr (leb→le (2 ^ (order + 1)) size more)))
      | inr less ↦
          let guard : ltb order max_order_limit ≡ true = ground arith in
          rw (guard, less) (lo, omega arith, fits, inr (ground arith))
    ]

-- largest_order_for gives the largest order from 6 to 30 whose blocks are not larger than the size,
-- or 6 where no block is that small.
pub largest_order_for-LargestOrder : (size : ℕ) → LargestOrder size (largest_order_for size)
largest_order_for-LargestOrder size =
    unfold largest_order_for in
    largest_order_loop-LargestOrder (max_order_limit - min_order) size min_order (omega arith)
      (omega arith) (inl refl)
