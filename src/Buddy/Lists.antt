-- ===== src/Buddy/Lists.antt =====
-- What src/kmem/heap/buddy.rs promises of its free lists, with each list as a list of addresses,
-- and what it means that the lists in memory stand for those.
use Prim.Native.Nat.{bit_xor}
use sill_os.Base.{
  ℕ, zero, suc, ◌+◌, ◌-◌, ◌^◌, ◌≤◌, ◌<◌, ◌≡◌, Option, none, some, true, false, [], ◌∷◌, min, update,
  has, erase,
}
use sill_os.Buddy.{BuddyAllocator, order_count}
use sill_os.Buddy.Chain.{Chain}
use sill_os.Buddy.Weigh.{FreeLists, cover}

unfoldable pub push_list : FreeLists → ℕ → ℕ → FreeLists
push_list l i a = update l i (a ∷ l i)

unfoldable pub split_lists : Option (ℕ × FreeLists) → ℕ → Option (ℕ × FreeLists)
unfolding push_list
split_lists none i = none
split_lists (some (a, l)) i = some (a, push_list l i (a + 2 ^ (i + 6)))

-- A block of index `i` or above is taken, and split down to index `i`.
unfoldable pub take_block : ℕ → FreeLists → ℕ → Option (ℕ × FreeLists)
unfolding split_lists
take_block zero l i = none
take_block (suc n) l i = elim (l i) [
  | [] ↦ split_lists (take_block n l (i + 1)) i
  | x ∷ xs ↦ some (x, update l i xs)
]

abbrev pub buddy : ℕ → ℕ → ℕ → ℕ
buddy start a i = start + bit_xor (a - start) (2 ^ (i + 6))

-- A block is given back, and joined with its buddy as long as that is free.
unfoldable pub give_block : ℕ → ℕ → FreeLists → ℕ → ℕ → FreeLists
unfolding push_list
give_block zero start l a i = push_list l i a
give_block (suc n) start l a i = elim (has (buddy start a i) (l i)) [
  | true ↦
      give_block n start (update l i (erase (buddy start a i) (l i))) (min a (buddy start a i))
        (i + 1)
  | false ↦ push_list l i a
]

-- The lists in memory are those of `l`, and no byte lies in two free blocks.
pub record Holds (s : BuddyAllocator) (l : FreeLists) : Type 0 where
  pub chains : (i : ℕ) → i < order_count → Chain s.memory (s.free_lists i) (l i)
  pub disjoint : (b : ℕ) → cover l b ≤ 1

-- The fields that only `init` sets.
pub record SameHeap (s s' : BuddyAllocator) : Type 0 where
  pub start : s'.heap_start ≡ s.heap_start
  pub size : s'.heap_size ≡ s.heap_size
  pub top : s'.max_order ≡ s.max_order
  pub ready : s'.initialized ≡ s.initialized
