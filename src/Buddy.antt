-- ===== src/Buddy.antt =====
-- The kernel heap's buddy allocator, src/kmem/heap/buddy.rs: its state, the memory in which the
-- free lists are threaded, and every operation of it.
use sill_os.Base.{
  ℕ, zero, suc, ◌+◌, ◌-◌, ◌*◌, ◌/◌, ◌%◌, ◌^◌, max, min, Bool, true, false, Option, none, some, ◌&&◌,
  ◌||◌, not, ltb, leb, ◌==◌, if◌then◌else◌, update,
}
use Prim.Native.Nat.{bit_xor}
pub mod Chain
pub mod Weigh
pub mod Lists
pub mod Steps
pub mod Remove
pub mod Take
pub mod Join
pub mod Give
pub mod Sizes
pub mod Count
pub mod Align
pub mod Heap
pub mod Valid
pub mod Pick
pub mod Init
pub mod Tests

abbrev pub min_order : ℕ
min_order = 6

abbrev pub max_order_limit : ℕ
max_order_limit = 30

abbrev pub order_count : ℕ
order_count = 25

-- The size of a `FreeListNode`, one pointer.
abbrev pub node_size : ℕ
node_size = 8

-- `memory` is the heap memory that the allocator writes: at the address of a free block the
-- `next` field of its `FreeListNode`. The null pointer is 0.
pub record BuddyAllocator : Type 0 where
  pub heap_start : ℕ
  pub heap_size : ℕ
  pub max_order : ℕ
  pub free_lists : ℕ → ℕ
  pub initialized : Bool
  pub memory : ℕ → ℕ

pub record Layout : Type 0 where
  pub size : ℕ
  pub align : ℕ

-- `new`, over a memory with some content.
unfoldable pub new : (ℕ → ℕ) → BuddyAllocator
new memory = record {
  heap_start = 0;
  heap_size = 0;
  max_order = min_order;
  free_lists = λ _. 0;
  initialized = false;
  memory = memory;
}

unfoldable pub block_size : ℕ → ℕ
block_size order = 2 ^ order

unfoldable pub index_for : ℕ → ℕ
index_for order = order - min_order

-- The loop of `largest_order_for`, which runs at most `max_order_limit - min_order` times.
largest_order_loop : ℕ → ℕ → ℕ → ℕ
largest_order_loop zero size order = order
largest_order_loop (suc rounds) size order =
    let next = largest_order_loop rounds size (order + 1) in
    if ltb order max_order_limit && leb (block_size (order + 1)) size then next else order

unfoldable pub largest_order_for : ℕ → ℕ
unfolding largest_order_loop block_size
largest_order_for size = largest_order_loop (max_order_limit - min_order) size min_order

-- The loop of `order_for_size`.
order_loop : ℕ → ℕ → ℕ → Option ℕ
order_loop zero size order = none
order_loop (suc rounds) size order =
    let next = order_loop rounds size (order + 1) in
    if ltb (block_size order) size
    then (if order == max_order_limit then none else next)
    else some order

unfoldable pub order_for_size : ℕ → Option ℕ
unfolding order_loop block_size
order_for_size size = order_loop order_count (max size node_size) min_order

unfoldable pub push_free_block : BuddyAllocator → ℕ → ℕ → BuddyAllocator
unfolding index_for
push_free_block s addr order =
    let index = index_for order in
    record s {
      memory = update s.memory addr (s.free_lists index);
      free_lists = update s.free_lists index addr;
    }

unfoldable pub pop_free_block : BuddyAllocator → ℕ → BuddyAllocator × Option ℕ
unfolding index_for
pop_free_block s order =
    let index = index_for order in
    let node = s.free_lists index in
    if node == 0
    then (s, none)
    else (record s { free_lists = update s.free_lists index (s.memory node) }, some node)

-- The found block is taken out: through the list head, or through the node before it.
unlink : BuddyAllocator → ℕ → ℕ → ℕ → BuddyAllocator
unlink s index prev current =
    let next = s.memory current in
    if prev == 0
    then record s { free_lists = update s.free_lists index next }
    else record s { memory = update s.memory prev next }

-- The walk of `remove_free_block`. Without fuel it answers `false`.
remove_loop : ℕ → BuddyAllocator → ℕ → ℕ → ℕ → ℕ → BuddyAllocator × Bool
remove_loop zero s index target prev current = (s, false)
remove_loop (suc fuel) s index target prev current =
    let rest = remove_loop fuel s index target current (s.memory current) in
    if current == 0
    then (s, false)
    else (if current == target then (unlink s index prev current, true) else rest)

-- No list has more nodes than the heap has smallest blocks.
abbrev pub walk_fuel : BuddyAllocator → ℕ
walk_fuel s = s.heap_size / 2 ^ min_order + 1

unfoldable pub remove_free_block : BuddyAllocator → ℕ → ℕ → BuddyAllocator × Bool
unfolding remove_loop unlink index_for
remove_free_block s addr order =
    let index = index_for order in remove_loop (walk_fuel s) s index addr 0 (s.free_lists index)

-- The unused half of a split block goes to the free list.
split_block : BuddyAllocator × Option ℕ → ℕ → BuddyAllocator × Option ℕ
split_block (s, none) order = (s, none)
split_block (s, some addr) order = (push_free_block s (addr + block_size order) order, some addr)

-- `allocate_order` calls itself with the next order, at most up to `max_order + 1`.
allocate_loop : ℕ → BuddyAllocator → ℕ → BuddyAllocator × Option ℕ
allocate_loop zero s order = (s, none)
allocate_loop (suc fuel) s order =
    if ltb s.max_order order then (s, none) else elim (pop_free_block s order).1 [
      | some addr ↦ ((pop_free_block s order).0, some addr)
      | none ↦ split_block (allocate_loop fuel (pop_free_block s order).0 (order + 1)) order
    ]

unfoldable pub allocate_order : BuddyAllocator → ℕ → BuddyAllocator × Option ℕ
unfolding allocate_loop split_block pop_free_block push_free_block block_size
allocate_order s order = allocate_loop (s.max_order + 2 - order) s order

-- `none` is the overflow of the subtraction or of the sum, a panic.
unfoldable pub buddy_of : BuddyAllocator → ℕ → ℕ → Option ℕ
unfolding block_size
buddy_of s addr order =
    let buddy = s.heap_start + bit_xor (addr - s.heap_start) (block_size order) in
    if ltb addr s.heap_start then none else if ltb buddy (2 ^ 64) then some buddy else none

-- The order of a layout: both its size and its alignment have to fit.
unfoldable pub layout_order : Layout → Option ℕ
unfolding order_for_size
layout_order layout = order_for_size (max layout.size layout.align)

pointer : BuddyAllocator × Option ℕ → BuddyAllocator × ℕ
pointer (s, none) = (s, 0)
pointer (s, some addr) = (s, addr)

unfoldable pub alloc : BuddyAllocator → Layout → BuddyAllocator × ℕ
unfolding layout_order allocate_order pointer
alloc s layout =
    if s.initialized
    then elim (layout_order layout) [
      | none ↦ (s, 0)
      | some order ↦ pointer (allocate_order s order)
    ]
    else (s, 0)

-- The merging loop of `dealloc`, and the push that follows it.
merge_loop : ℕ → BuddyAllocator → ℕ → ℕ → Option BuddyAllocator
merge_loop zero s addr order = some (push_free_block s addr order)
merge_loop (suc fuel) s addr order =
    if ltb order s.max_order
    then elim (buddy_of s addr order) [
      | none ↦ none
      | some buddy ↦ elim (remove_free_block s buddy order).1 [
        | true ↦ merge_loop fuel (remove_free_block s buddy order).0 (min addr buddy) (order + 1)
        | false ↦ some (push_free_block (remove_free_block s buddy order).0 addr order)
      ]
    ]
    else some (push_free_block s addr order)

-- The part of `dealloc` after the order is known. The loop ends at `max_order`.
unfoldable pub release : BuddyAllocator → ℕ → ℕ → Option BuddyAllocator
unfolding merge_loop push_free_block remove_free_block buddy_of
release s addr order = merge_loop (s.max_order - order) s addr order

-- `none` is a panic.
unfoldable pub dealloc : BuddyAllocator → ℕ → Layout → Option BuddyAllocator
unfolding layout_order release
dealloc s ptr layout =
    if ptr == 0 || not s.initialized
    then some s
    else elim (layout_order layout) [ none ↦ some s | some order ↦ release s ptr order ]

-- The inner loop of `init`: the largest order whose block fits and is aligned.
pub pick_loop : ℕ → ℕ → ℕ → ℕ → ℕ
pick_loop zero addr remaining order = order
pick_loop (suc rounds) addr remaining order =
    let next = pick_loop rounds addr remaining (order - 1) in
    if ltb min_order order
    then (if leb (block_size order) remaining && addr % block_size order == 0 then order else next)
    else order

pub pick_order : ℕ → ℕ → ℕ → ℕ
unfolding pick_loop
pick_order max_order addr remaining = pick_loop (max_order - min_order) addr remaining max_order

-- The outer loop of `init`. Each round takes at least a smallest block off the range.
decompose : ℕ → BuddyAllocator → ℕ → ℕ → BuddyAllocator
decompose zero s addr remaining = s
decompose (suc fuel) s addr remaining =
    let order = pick_order s.max_order addr remaining in
    let size = block_size order in
    let rest = decompose fuel (push_free_block s addr order) (addr + size) (remaining - size) in
    if leb (block_size min_order) remaining
    then (if ltb remaining size || not (addr % size == 0) then s else rest)
    else s

-- `none` is a failed assertion.
unfoldable pub init : BuddyAllocator → ℕ → ℕ → Option BuddyAllocator
unfolding decompose pick_order push_free_block block_size largest_order_for
init s heap_start heap_size =
    let fresh : BuddyAllocator = record s {
      heap_start = heap_start;
      heap_size = heap_size;
      max_order = min (largest_order_for heap_size) max_order_limit;
      free_lists = λ _. 0;
    } in
    let seeded = decompose (heap_size / 2 ^ min_order + 1) fresh heap_start heap_size in
    if heap_start % block_size min_order == 0 && leb (block_size min_order) heap_size
    then some (record seeded { initialized = true })
    else none
