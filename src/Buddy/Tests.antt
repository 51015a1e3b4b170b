-- ===== src/Buddy/Tests.antt =====
-- The buddy allocator on a heap of 4096 bytes at 65536, with all of it free and with none.
use native.Mathlib.Nat.{dvd_of_mod-eq-zero}
use sill_os.Base.{ℕ, ◌+◌, ◌-◌, ◌^◌, ◌≤◌, ◌≡◌, refl, some, [], ◌⊎◌, true, arith, max}
use sill_os.Buddy.{
  BuddyAllocator, Layout, order_count, init, new, alloc, dealloc, layout_order, order_for_size,
  release, allocate_order, largest_order_for, push_free_block,
}
use sill_os.Buddy.Weigh.{FreeLists, cover, in_block}
use sill_os.Buddy.Steps.{push_free_block-Holds}
use sill_os.Buddy.Give.{Gives, release-Holds}
use sill_os.Buddy.Count.{free_bytes-le}
use sill_os.Buddy.Lists.{push_list, Holds, SameHeap, take_block, give_block}
use sill_os.Buddy.Heap.{in_block_le_one, IsValid, NoneFree, Allocated, alloc_lem, dealloc_lem}
use sill_os.Buddy.Init.{
  Initialised, init-Initialised, nothing-Holds, no_block-AllAligned, no_block-cover,
}
use sill_os.Buddy.Take.{Takes, allocate_order-Takes}
use sill_os.Buddy.Sizes.{
  SmallestOrder, LargestOrder, order_for_size-SmallestOrder, largest_order_for-LargestOrder,
}

abbrev pub line : Layout
line = record { size = 64; align = 8 }

booted :
    (s : BuddyAllocator) × (init (new (λ _. 0)) 65536 4096 ≡ some s) × Initialised 16 65536 4096 s
booted =
    init-Initialised 16 (new (λ _. 0)) 65536 4096 (omega arith) refl
      (dvd_of_mod-eq-zero (2 ^ 16) refl) (omega arith)

pub line-order : layout_order line ≡ some 6
unfolding layout_order order_for_size
line-order = refl

init-Initialised_example :
    (s : BuddyAllocator) × (init (new (λ _. 0)) 65536 4096 ≡ some s) × Initialised 16 65536 4096 s
init-Initialised_example =
    init-Initialised 16 (new (λ _. 0)) 65536 4096 (omega arith) refl
      (dvd_of_mod-eq-zero (2 ^ 16) refl) (omega arith)

alloc_lem_example :
    ((alloc booted.0 line ≡ (booted.0, 0)) × NoneFree booted.0 booted.2.lists 0)
    ⊎ Allocated 16 booted.0 booted.2.lists 0 (alloc booted.0 line)
alloc_lem_example = alloc_lem booted.2.valid line 0 line-order

-- The same heap when all of it is in use.
abbrev pub full : BuddyAllocator
full = record {
  heap_start = 65536;
  heap_size = 4096;
  max_order = 12;
  free_lists = λ _. 0;
  initialized = true;
  memory = λ _. 0;
}

abbrev pub nothing : FreeLists
nothing i = []

pub full-IsValid : IsValid 16 full nothing
full-IsValid = record {
  holds = nothing-Holds full (λ i. refl);
  ready = refl;
  lowest = omega arith;
  highest = omega arith;
  based = omega arith;
  base = dvd_of_mod-eq-zero (2 ^ 16) refl;
  aligned = no_block-AllAligned 16;
  inside = λ b. omega (arith, no_block-cover order_count b);
}

pub first_line-fits : (b : ℕ) → in_block 65536 (2 ^ 6) b + cover nothing b ≤ in_block 65536 4096 b
unfolding in_block
first_line-fits b = ground (arith, no_block-cover order_count b)

dealloc_lem_example :
    (s : BuddyAllocator) × (l : FreeLists) × (dealloc full 65536 line ≡ some s)
    × IsValid 16 s l
    × SameHeap full s
    × ((b : ℕ) → cover l b ≡ cover nothing b + in_block 65536 (2 ^ 6) b)
dealloc_lem_example =
    dealloc_lem full-IsValid 65536 0 (omega arith) (dvd_of_mod-eq-zero 64 refl, first_line-fits)
      line line-order (omega arith)

order_for_size-SmallestOrder_example : SmallestOrder (max 100 8) (order_for_size 100)
order_for_size-SmallestOrder_example = order_for_size-SmallestOrder 100

largest_order_for-LargestOrder_example : LargestOrder 5000 (largest_order_for 5000)
largest_order_for-LargestOrder_example = largest_order_for-LargestOrder 5000

-- One free block of 64 bytes at 65536.
abbrev single : BuddyAllocator
single = push_free_block full 65536 6

abbrev one_block : FreeLists
one_block = push_list nothing 0 65536

first_line-room : (b : ℕ) → in_block 65536 (2 ^ 6) b + cover nothing b ≤ 1
first_line-room b = omega (arith, first_line-fits b, in_block_le_one 65536 4096 b)

single-Holds : Holds single one_block
single-Holds =
    push_free_block-Holds full-IsValid.holds 65536 0 (omega arith) (omega arith) first_line-room

single-top : single.max_order ≡ 12
unfolding push_free_block
single-top = refl

allocate_order-Takes_example :
    Takes single
      (take_block (single.max_order + 1 - (0 + 6)) one_block 0)
      (allocate_order single (0 + 6))
allocate_order-Takes_example =
    allocate_order-Takes single-Holds (omega (arith, single-top)) 0 (omega (arith, single-top))

release-Holds_example :
    Gives full
      (give_block (full.max_order - (0 + 6)) 65536 nothing 65536 0)
      (release full 65536 (0 + 6))
release-Holds_example = release-Holds 65536 (omega arith) full nothing 65536 0 (record {
  holds = full-IsValid.holds;
  based = refl;
  small = free_bytes-le 65536 4096 nothing full-IsValid.inside;
  rounds = refl;
  indexed = omega arith;
  above = omega arith;
  high = omega arith;
  room = first_line-room;
})
