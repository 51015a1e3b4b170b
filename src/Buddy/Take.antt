-- ===== src/Buddy/Take.antt =====
-- Allocation in src/kmem/heap/buddy.rs: `allocate_order` and its splitting.
use native.Mathlib.Nat.{pow-succ'}
use sill_os.Base.{
  ltb, ℕ, zero, suc, ◌+◌, ◌-◌, ◌^◌, ◌≤◌, ◌<◌, ◌≡◌, ◌≢◌, refl, ap, true, false, Option, none, some,
  List, [], ◌∷◌, arith, update, List-cases, inl, inr,
}
use sill_os.Buddy.{
  BuddyAllocator, order_count, max_order_limit, allocate_order, allocate_loop, split_block,
  block_size, push_free_block,
}
use sill_os.Buddy.Weigh.{
  FreeLists, in_block, in_block-add, cover, cover_list, cover_at, weigh, weigh-update,
}
use sill_os.Buddy.Lists.{Holds, SameHeap, split_lists, take_block}
use sill_os.Buddy.Steps.{
  push_free_block-Holds, pop_free_block-nil, pop_free_block-cons, push_free_block-SameHeap,
  after_pop, listed-ne_zero,
}

pub double : (i : ℕ) → 2 ^ (i + 1 + 6) ≡ 2 ^ (i + 6) + 2 ^ (i + 6)
double i =
    let e : i + 1 + 6 ≡ suc (i + 6) = omega arith in rw e (omega (arith, pow-succ' 2 (i + 6)))

pub take_block-nil :
    (n : ℕ) (l : FreeLists) (i : ℕ)
    → l i ≡ []
    → take_block (suc n) l i ≡ split_lists (take_block n l (i + 1)) i
unfolding take_block
take_block-nil n l i e = rw (e, take_block)

pub take_block-cons :
    (n : ℕ) (l : FreeLists) (i x : ℕ) (xs : List ℕ)
    → l i ≡ x ∷ xs
    → take_block (suc n) l i ≡ some (x, update l i xs)
unfolding take_block
take_block-cons n l i x xs e = rw (e, take_block)

-- By how much `r` lowers the weight of the free blocks: by that of the block it gives.
abbrev pub Conserved :
    (ℕ → List ℕ → ℕ) → (ℕ → ℕ → ℕ) → FreeLists → ℕ → Option (ℕ × FreeLists) → Type 0
Conserved f g l i none = Unit {0}
Conserved f g l i (some (a, l')) = weigh order_count f l ≡ weigh order_count f l' + g i a

-- What a list operation keeps: a weight of the free blocks that is a sum over the blocks, and in
-- which a block weighs as much as its halves.
module _ (f : ℕ → List ℕ → ℕ) (g : ℕ → ℕ → ℕ)
    (cons : (i x : ℕ) (xs : List ℕ) → f i (x ∷ xs) ≡ g i x + f i xs)
    (halves : (i a : ℕ) → g (i + 1) a ≡ g i a + g i (a + 2 ^ (i + 6))) where
  split_lists-Conserved :
      (l : FreeLists) (i : ℕ) (r : Option (ℕ × FreeLists))
      → i < order_count
      → Conserved f g l (i + 1) r
      → Conserved f g l i (split_lists r i)
  unfolding split_lists
  split_lists-Conserved l i none p c = tt
  split_lists-Conserved l i (some (a, l')) p c = omega (
    arith,
    halves i a,
    cons i (a + 2 ^ (i + 6)) (l' i),
    weigh-update f l' order_count i ((a + 2 ^ (i + 6)) ∷ l' i) p,
  )

  pub take_block-Conserved :
      (n : ℕ) (l : FreeLists) (i : ℕ) → i + n ≤ order_count → Conserved f g l i (take_block n l i)
  take_block-Conserved zero l i p = unfold take_block in tt
  take_block-Conserved (suc n) l i p = elim (List-cases (l i)) [
    | inl e ↦ rw (take_block-nil n l i e) (
        split_lists-Conserved l i (take_block n l (i + 1)) (omega arith)
          (take_block-Conserved n l (i + 1) (omega arith)))
    | inr (x, xs, e) ↦
        rw (take_block-cons n l i x xs e)
          (omega (arith, cons i x xs, ap (f i) e, weigh-update f l order_count i xs (omega arith)))
  ]

pub cover-halves :
    (b i a : ℕ)
    → in_block a (2 ^ (i + 1 + 6)) b
      ≡ in_block a (2 ^ (i + 6)) b + in_block (a + 2 ^ (i + 6)) (2 ^ (i + 6)) b
cover-halves b i a = rw (double i) (in_block-add a (2 ^ (i + 6)) (2 ^ (i + 6)) b)

-- The block that `take_block` gives is what the free blocks lose.
pub take_block-cover :
    (b n : ℕ) (l : FreeLists) (i : ℕ)
    → i + n ≤ order_count
    → Conserved (cover_at b) (λ j a. in_block a (2 ^ (j + 6)) b) l i (take_block n l i)
take_block-cover b =
    take_block-Conserved (cover_at b) (λ j a. in_block a (2 ^ (j + 6)) b)
      (λ i x xs. unfold cover_list in refl) (cover-halves b)

-- The code's result `r` for the lists `l`, where the list operation gives `t`.
abbrev pub Takes : BuddyAllocator → Option (ℕ × FreeLists) → BuddyAllocator × Option ℕ → Type 0
Takes s none r = r ≡ (s, none)
Takes s (some (a, l')) r =
    (s' : BuddyAllocator) × (r ≡ (s', some a)) × Holds s' l' × SameHeap s s' × (a ≢ 0)

split_block-Takes :
    (s : BuddyAllocator) (l : FreeLists) (i : ℕ) (t : Option (ℕ × FreeLists))
    (r : BuddyAllocator × Option ℕ)
    → i < order_count
    → ((b : ℕ) → cover l b ≤ 1)
    → ((b : ℕ) → Conserved (cover_at b) (λ j a. in_block a (2 ^ (j + 6)) b) l (i + 1) t)
    → Takes s t r
    → Takes s (split_lists t i) (split_block r (i + 6))
unfolding split_block split_lists block_size
split_block-Takes s l i none r p small c t = rw t
split_block-Takes s l i (some (a, l')) r p small c (s', e, h, same, ne) = (
  push_free_block s' (a + 2 ^ (i + 6)) (i + 6),
  rw e,
  push_free_block-Holds h (a + 2 ^ (i + 6)) i p (omega arith)
      (λ b. omega (arith, small b, c b, cover-halves b i a)),
  push_free_block-SameHeap s (a + 2 ^ (i + 6)) (i + 6) same,
  ne,
)

module _ {s : BuddyAllocator} {l : FreeLists} (h : Holds s l)
    (valid : s.max_order ≤ max_order_limit) where
  allocate_loop-nil :
      (n i : ℕ)
      → i < order_count
      → l i ≡ []
      → i + 6 ≤ s.max_order
      → allocate_loop (suc n) s (i + 6) ≡ split_block (allocate_loop n s (i + 1 + 6)) (i + 6)
  allocate_loop-nil n i p e le =
      let next : i + 6 + 1 ≡ i + 1 + 6 = omega arith in
      let low : ltb s.max_order (i + 6) ≡ false = ground arith in
      let popped = pop_free_block-nil h i p e in
      unfold allocate_loop in rw (low, ap (λ r. r.1) popped, ap (λ r. r.0) popped, next)

  allocate_loop-cons :
      (n i x : ℕ) (xs : List ℕ)
      → i < order_count
      → l i ≡ x ∷ xs
      → i + 6 ≤ s.max_order
      → allocate_loop (suc n) s (i + 6) ≡ (after_pop h i x, some x)
  allocate_loop-cons n i x xs p e le =
      let low : ltb s.max_order (i + 6) ≡ false = ground arith in
      let popped = (pop_free_block-cons h i x xs p e).0 in
      unfold allocate_loop in rw (low, ap (λ r. r.1) popped, ap (λ r. r.0) popped)

  allocate_loop-Takes :
      (n i : ℕ)
      → i + n + 6 ≡ s.max_order + 1
      → Takes s (take_block n l i) (allocate_loop (suc n) s (i + 6))
  allocate_loop-Takes zero i e =
      let high : ltb s.max_order (i + 6) ≡ true = ground arith in
      unfold allocate_loop take_block in rw high
  allocate_loop-Takes (suc n) i e = elim (List-cases (l i)) [
    | inl none_free ↦
        rw
          (
            take_block-nil n l i none_free,
            allocate_loop-nil (suc n) i (omega arith) none_free (omega arith),
          )
          (split_block-Takes s l i (take_block n l (i + 1)) (allocate_loop (suc n) s (i + 1 + 6))
            (omega arith) h.disjoint (λ b. take_block-cover b n l (i + 1) (omega arith))
            (allocate_loop-Takes n (i + 1) (omega arith)))
    | inr (x, xs, some_free) ↦
        rw
          (
            take_block-cons n l i x xs some_free,
            allocate_loop-cons (suc n) i x xs (omega arith) some_free (omega arith),
          )
          (
            after_pop h i x,
            refl,
            (pop_free_block-cons h i x xs (omega arith) some_free).1,
            record { start = refl; size = refl; top = refl; ready = refl },
            listed-ne_zero h i x xs (omega arith) some_free,
          )
  ]

  -- Where the lists in memory are l, the largest order is at most 30, and i + 6 is at most one
  -- above it: allocate_order of order i + 6 gives the block, and leaves in memory the lists, that
  -- taking and splitting a block of l gives, or returns none and changes nothing where that finds
  -- no block.
  pub allocate_order-Takes :
      (i : ℕ)
      → i + 6 ≤ s.max_order + 1
      → Takes s (take_block (s.max_order + 1 - (i + 6)) l i) (allocate_order s (i + 6))
  allocate_order-Takes i le =
      let fuel : s.max_order + 2 - (i + 6) ≡ suc (s.max_order + 1 - (i + 6)) = omega arith in
      unfold allocate_order in
      rw fuel (allocate_loop-Takes (s.max_order + 1 - (i + 6)) i (omega arith))
