-- ===== src/ListAllocator.antt =====
-- The linked-list allocator of src/kmem/heap.rs: ListAllocator, ListNode, adjust_layout and
-- align_up. The nodes own one another, so the list is the sequence of its nodes, each with the
-- address at which it lies.
pub mod Fits
pub mod Served
pub mod Bytes
pub mod Alloc
pub mod Misaligned
pub mod Session
pub mod Restore
pub mod Tests
use Prim.Native.Nat.{bit_and}
use sill_os.Base.{
  ℕ, zero, suc, ◌+◌, ◌-◌, ◌%◌, ◌^◌, max, Bool, true, false, Option, none, some, List, [], ◌∷◌, ◌&&◌,
  ◌||◌, ltb, leb, ◌==◌, if◌then◌else◌,
}
use sill_os.Buddy.{Layout}

-- The size and the alignment of a `ListNode` on a machine of 64 bits.
abbrev pub list_node_size : ℕ
list_node_size = 16

abbrev pub list_node_align : ℕ
list_node_align = 8

-- A node of the free list; `start` is its own address, at which the free region begins.
pub record ListNode : Type 0 where
  pub start : ℕ
  pub size : ℕ

-- `regions` are the nodes from `head.next` on.
pub record ListAllocator : Type 0 where
  pub regions : List ListNode
  pub initialized : Bool

-- What a call ends in: a value, or a panic.
pub data Outcome (A : Type 0) : Type 0 where
  done : A → Outcome A
  panic : Outcome A

unfoldable pub new : ListAllocator
new = record { regions = []; initialized = false }

-- `usize::is_power_of_two`, over the powers below `2 ^ n`.
power_below : ℕ → ℕ → Bool
power_below zero a = false
power_below (suc n) a = (2 ^ n == a) || power_below n a

unfoldable pub is_power_of_two : ℕ → Bool
unfolding power_below
is_power_of_two a = power_below 64 a

-- `Layout::from_size_align`: the alignment is a power of two, and the size, rounded up to it, does
-- not exceed `isize::MAX`.
unfoldable pub from_size_align : ℕ → ℕ → Option Layout
unfolding is_power_of_two
from_size_align size align =
    if is_power_of_two align && leb (size + align) (2 ^ 63)
    then some (record { size = size; align = align })
    else none

unfoldable pub adjust_layout : Layout → Option Layout
unfolding from_size_align
adjust_layout layout =
    from_size_align (max layout.size list_node_size) (max layout.align list_node_align)

-- `none` is the overflow of the sum. The debug assertion on `align` holds for every `Layout`.
unfoldable pub align_up : ℕ → ℕ → Option ℕ
align_up addr align =
    if ltb (addr + align) (2 ^ 64)
    then some (bit_and (addr + align - 1) (2 ^ 64 - 1 - (align - 1)))
    else none

unfoldable pub checked_add : ℕ → ℕ → Option ℕ
checked_add a b = if ltb (a + b) (2 ^ 64) then some (a + b) else none

unfoldable pub add_free_region : ListAllocator → ℕ → ℕ → Outcome ListAllocator
add_free_region s addr size =
    if addr % list_node_align == 0
    then (if leb list_node_size size
        then done (record s { regions = record { start = addr; size = size } ∷ s.regions })
        else panic)
    else panic

unfoldable pub init : ListAllocator → ℕ → ℕ → Outcome ListAllocator
unfolding add_free_region
init s heap_start heap_size =
    if heap_start % list_node_align == 0
    then (if leb list_node_size heap_size
        then add_free_region (record s { initialized = true }) heap_start heap_size
        else panic)
    else panic

-- The tests of `alloc_from_region` on the bounds of the block and of the region.
unfoldable pub accept : ℕ → ℕ → ℕ → Option ℕ
accept alloc_start alloc_end region_end =
    if ltb region_end alloc_end
    then none
    else if ltb 0 (region_end - alloc_end) && ltb (region_end - alloc_end) list_node_size
    then none
    else some alloc_start

-- `none` is the code's `Err(())`.
unfoldable pub alloc_from_region : ListNode → Layout → Outcome (Option ℕ)
unfolding align_up checked_add accept
alloc_from_region region layout = elim (align_up region.start layout.align) [
  | none ↦ panic
  | some alloc_start ↦ elim (checked_add alloc_start layout.size) [
    | none ↦ done none
    | some alloc_end ↦ elim (checked_add region.start region.size) [
      | none ↦ done none
      | some region_end ↦ done (accept alloc_start alloc_end region_end)
    ]
  ]
]

-- The excess of a region that is taken becomes a node, if it can hold one.
unfoldable pub leftover : ℕ → ℕ → List ListNode → List ListNode
leftover alloc_end excess_size next =
    if leb list_node_size excess_size
    then record { start = alloc_end; size = excess_size } ∷ next
    else next

-- The body of the loop for a region that serves the allocation, and `next` behind it.
unfoldable pub take_region :
    ListNode → Layout → ℕ → List ListNode → Outcome (Option (ℕ × List ListNode))
unfolding checked_add leftover
take_region region layout alloc_start next = elim (checked_add alloc_start layout.size) [
  | none ↦ done none
  | some alloc_end ↦ elim (checked_add region.start region.size) [
    | none ↦ panic
    | some region_end ↦ done (some (alloc_start, leftover alloc_end (region_end - alloc_end) next))
  ]
]

-- A region that is passed over stays in front.
unfoldable pub pass_over :
    ListNode → Outcome (Option (ℕ × List ListNode)) → Outcome (Option (ℕ × List ListNode))
pass_over region panic = panic
pass_over region (done none) = done none
pass_over region (done (some (alloc_start, rest))) = done (some (alloc_start, region ∷ rest))

-- The loop of `alloc` over the regions.
unfoldable pub alloc_loop : List ListNode → Layout → Outcome (Option (ℕ × List ListNode))
unfolding alloc_from_region take_region pass_over
alloc_loop [] layout = done none
alloc_loop (region ∷ next) layout =
    let rest = pass_over region (alloc_loop next layout) in
    elim (alloc_from_region region layout) [
      | panic ↦ panic
      | done none ↦ rest
      | done (some alloc_start) ↦ take_region region layout alloc_start next
    ]

-- The pointer and the state that `alloc` ends in; the null pointer is 0.
unfoldable pub finish :
    ListAllocator → Outcome (Option (ℕ × List ListNode)) → Outcome (ListAllocator × ℕ)
finish s panic = panic
finish s (done none) = done (s, 0)
finish s (done (some (alloc_start, regions))) = done (record s { regions = regions }, alloc_start)

unfoldable pub alloc : ListAllocator → Layout → Outcome (ListAllocator × ℕ)
unfolding alloc_loop finish
alloc s layout =
    if s.initialized
    then elim (adjust_layout layout) [
      | none ↦ done (s, 0)
      | some adjusted ↦ finish s (alloc_loop s.regions adjusted)
    ]
    else done (s, 0)

unfoldable pub dealloc : ListAllocator → ℕ → Layout → Outcome ListAllocator
unfolding add_free_region
dealloc s ptr layout = if ptr == 0 then done s else elim (adjust_layout layout) [
  | none ↦ done s
  | some adjusted ↦ add_free_region s ptr adjusted.size
]
