-- ===== src/Buddy/Count.antt =====
-- The number of free bytes of src/kmem/heap/buddy.rs, against the size of the heap.
use native.Mathlib.Nat.{one-le-pow}
use sill_os.Base.{
  ℕ, zero, suc, ◌+◌, ◌-◌, ◌*◌, ◌^◌, ◌≤◌, ◌<◌, ◌≡◌, refl, min, List, [], ◌∷◌, arith, length,
}
use sill_os.Buddy.{order_count}
use sill_os.Buddy.Weigh.{
  FreeLists, in_block, cover, cover_list, cover_at, bytes_at, free_bytes, weigh,
}

sum_below : ℕ → (ℕ → ℕ) → ℕ
sum_below zero h = 0
sum_below (suc n) h = sum_below n h + h n

sum_below-add : (n : ℕ) (h k : ℕ → ℕ) → sum_below n (λ b. h b + k b) ≡ sum_below n h + sum_below n k
unfolding sum_below
sum_below-add zero h k = refl
sum_below-add (suc n) h k = omega (arith, sum_below-add n h k)

sum_below-zero : (n : ℕ) → sum_below n (λ b. 0) ≡ 0
unfolding sum_below
sum_below-zero zero = refl
sum_below-zero (suc n) = omega (arith, sum_below-zero n)

sum_below_mono : (n : ℕ) (h k : ℕ → ℕ) → ((b : ℕ) → h b ≤ k b) → sum_below n h ≤ sum_below n k
unfolding sum_below
sum_below_mono zero h k le = omega arith
sum_below_mono (suc n) h k le = omega (arith, sum_below_mono n h k le, le n)

sum_below-in_block : (n a size : ℕ) → sum_below n (in_block a size) ≡ min (a + size) n - min a n
unfolding sum_below in_block
sum_below-in_block zero a size = omega arith
sum_below-in_block (suc n) a size = ground (arith, sum_below-in_block n a size)

-- A block none of whose bytes lies outside ends within the heap.
block_end-le :
    (a size start bytes : ℕ)
    → 0 < size
    → ((b : ℕ) → in_block a size b ≤ in_block start bytes b)
    → a + size ≤ start + bytes
unfolding in_block
block_end-le a size start bytes pos inside = ground (arith, inside (a + size - 1))

module _ (start bytes : ℕ) where
  sum_below-cover_list :
      (size : ℕ) (xs : List ℕ)
      → 0 < size
      → ((b : ℕ) → cover_list size xs b ≤ in_block start bytes b)
      → sum_below (start + bytes) (cover_list size xs) ≡ size * length xs
  unfolding cover_list
  sum_below-cover_list size [] pos inside = omega (arith, sum_below-zero (start + bytes))
  sum_below-cover_list size (x ∷ xs) pos inside = omega (
    arith,
    sum_below-add (start + bytes) (in_block x size) (cover_list size xs),
    sum_below-in_block (start + bytes) x size,
    block_end-le x size start bytes pos (λ b. omega (arith, inside b)),
    sum_below-cover_list size xs pos (λ b. omega (arith, inside b)),
  )

  sum_below-weigh :
      (n : ℕ) (l : FreeLists)
      → ((b : ℕ) → weigh n (cover_at b) l ≤ in_block start bytes b)
      → sum_below (start + bytes) (λ b. weigh n (cover_at b) l) ≡ weigh n bytes_at l
  unfolding weigh
  sum_below-weigh zero l inside = sum_below-zero (start + bytes)
  sum_below-weigh (suc n) l inside = omega (
    arith,
    sum_below-add (start + bytes) (λ b. weigh n (cover_at b) l) (cover_list (2 ^ (n + 6)) (l n)),
    sum_below-weigh n l (λ b. omega (arith, inside b)),
    sum_below-cover_list (2 ^ (n + 6)) (l n) (one-le-pow (n + 6) 2 (omega arith))
        (λ b. omega (arith, inside b)),
  )

  pub free_bytes-le :
      (l : FreeLists) → ((b : ℕ) → cover l b ≤ in_block start bytes b) → free_bytes l ≤ bytes
  free_bytes-le l inside = omega (
    arith,
    sum_below-weigh order_count l inside,
    sum_below_mono (start + bytes) (cover l) (in_block start bytes) inside,
    sum_below-in_block (start + bytes) start bytes,
  )
