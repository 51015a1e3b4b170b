-- ===== src/Kmem.antt =====
-- Kernel memory set-up, src/kmem/mod.rs and the start of src/kmem/heap.rs: the figures of
-- mem_analyze, the conversion of addresses, and init_heap.
pub mod Totals
pub mod Usable
pub mod Span
pub mod Mapped
pub mod Figures
pub mod Analysis
pub mod Lines
pub mod Reported
pub mod Tests
use sill_os.Base.{
  ℕ, zero, suc, ◌+◌, ◌-◌, ◌*◌, ◌/◌, ◌^◌, min, max, Bool, true, false, Option, none, some, List, [],
  ◌∷◌, ◌==◌, if◌then◌else◌,
}
use sill_os.Buddy.{BuddyAllocator}
use sill_os.Buddy as Buddy
use sill_os.Frame.{Entry, frame_size, checked_add}
use sill_os.Fb.{saturating_add}

-- The boot loader's marks of the memory regions, the constants of `limine::memmap`.
pub record MemmapTypes : Type 0 where
  pub usable : ℕ
  pub reserved : ℕ
  pub acpi_reclaimable : ℕ
  pub bootloader_reclaimable : ℕ
  pub executable_and_modules : ℕ
  pub framebuffer : ℕ
  pub bad_memory : ℕ

pub data RegionClass : Type 0 where
  usable reserved reclaimable bootloader kernel framebuffer bad other : RegionClass

-- The local variables of `mem_analyze` that its first loop changes.
pub record Tally : Type 0 where
  pub total_memory : ℕ
  pub usable_memory : ℕ
  pub reserved_memory : ℕ
  pub reclaimable_memory : ℕ
  pub bootloader_memory : ℕ
  pub kernel_memory : ℕ
  pub framebuffer_memory : ℕ
  pub bad_memory : ℕ
  pub other_memory : ℕ
  pub usable_regions : ℕ
  pub first_usable_base : Option ℕ
  pub last_usable_end : Option ℕ

unfoldable pub no_entries : Tally
no_entries = record {
  total_memory = 0;
  usable_memory = 0;
  reserved_memory = 0;
  reclaimable_memory = 0;
  bootloader_memory = 0;
  kernel_memory = 0;
  framebuffer_memory = 0;
  bad_memory = 0;
  other_memory = 0;
  usable_regions = 0;
  first_usable_base = none;
  last_usable_end = none;
}

unfoldable pub or_first : Option ℕ → ℕ → Option ℕ
or_first none base = some base
or_first (some first) base = some first

unfoldable pub unwrap_or_zero : Option ℕ → ℕ
unwrap_or_zero none = 0
unwrap_or_zero (some end) = end

-- The arm of the `match` on the entry's type.
unfoldable pub class_of : MemmapTypes → ℕ → RegionClass
class_of types type_ =
    if type_ == types.usable
    then usable
    else if type_ == types.reserved
    then reserved
    else if type_ == types.acpi_reclaimable
    then reclaimable
    else if type_ == types.bootloader_reclaimable
    then bootloader
    else if type_ == types.executable_and_modules
    then kernel
    else if type_ == types.framebuffer
    then framebuffer
    else if type_ == types.bad_memory
    then bad
    else other

unfoldable pub count_class : RegionClass → Tally → ℕ → ℕ → Tally
unfolding saturating_add or_first unwrap_or_zero
count_class usable t base length = record t {
  usable_memory = saturating_add t.usable_memory length;
  usable_regions = t.usable_regions + 1;
  first_usable_base = or_first t.first_usable_base base;
  last_usable_end = some (max (unwrap_or_zero t.last_usable_end) (saturating_add base length));
}
count_class reserved t base length = record t {
  reserved_memory = saturating_add t.reserved_memory length;
}
count_class reclaimable t base length = record t {
  reclaimable_memory = saturating_add t.reclaimable_memory length;
}
count_class bootloader t base length = record t {
  bootloader_memory = saturating_add t.bootloader_memory length;
}
count_class kernel t base length = record t {
  kernel_memory = saturating_add t.kernel_memory length;
}
count_class framebuffer t base length = record t {
  framebuffer_memory = saturating_add t.framebuffer_memory length;
}
count_class bad t base length = record t { bad_memory = saturating_add t.bad_memory length }
count_class other t base length = record t { other_memory = saturating_add t.other_memory length }

-- The body of the loop.
unfoldable pub count_entry : MemmapTypes → Tally → Entry → Tally
unfolding class_of count_class saturating_add
count_entry types t e =
    count_class (class_of types e.type_)
      (record t { total_memory = saturating_add t.total_memory e.length }) e.base e.length

-- The first loop of `mem_analyze`.
unfoldable pub tally : MemmapTypes → Tally → List Entry → Tally
unfolding count_entry
tally types t [] = t
tally types t (e ∷ es) = tally types (count_entry types t e) es

-- The second loop: the lowest and the highest address.
unfoldable pub address_span : ℕ → ℕ → List Entry → ℕ × ℕ
unfolding saturating_add
address_span lowest highest [] = (lowest, highest)
address_span lowest highest (e ∷ es) =
    address_span (min lowest e.base) (max highest (saturating_add e.base e.length)) es

-- The figure "Usable frames".
unfoldable pub frame_count : Tally → ℕ
frame_count t = t.usable_memory / frame_size

-- `phys_to_virt`, with the offset of the boot loader's direct map and `VirtAddr::new`, which
-- panics on an address that is not canonical, as is the overflow of the sum.
unfoldable pub phys_to_virt : (ℕ → Option ℕ) → Option ℕ → ℕ → Option ℕ
unfolding checked_add
phys_to_virt virt_addr none physical_address = none
phys_to_virt virt_addr (some offset) physical_address = elim (checked_add offset physical_address) [
  | none ↦ none
  | some address ↦ virt_addr address
]

-- The start and the size of the kernel heap.
abbrev pub heap_start : ℕ
heap_start = 0x444444440000

abbrev pub heap_size : ℕ
heap_size = 1024 * 1024 * 100

pub data MapToError : Type 0 where
  frame_allocation_failed : MapToError
  mapping_failed : ℕ → MapToError

pub data MapResult : Type 0 where
  mapped : MapResult
  failed : MapToError → MapResult

-- The page tables and the frame allocator, of types `M` and `A`. `allocate_frame` is the trait's
-- method of the frame allocator. `map_to` is the mapper's, for a page and a frame with the flags
-- PRESENT and WRITABLE; it may take frames for page tables.
module _ {M A : Type 0} (allocate_frame : A → A × Option ℕ)
    (map_to : M → A → ℕ → ℕ → (M × A) × MapResult) where
  -- The loop of `init_heap` over `left` pages from `page` on.
  unfoldable pub map_pages : ℕ → ℕ → M × A → (M × A) × MapResult
  map_pages zero page (mapper, frames) = ((mapper, frames), mapped)
  map_pages (suc left) page (mapper, frames) =
      let (frames', frame) = allocate_frame frames in
      elim frame [
        | none ↦ ((mapper, frames'), failed frame_allocation_failed)
        | some f ↦
            let (state, result) = map_to mapper frames' page f in
            elim result [ mapped ↦ map_pages left (page + 1) state | failed e ↦ (state, failed e) ]
      ]

  -- `Page::containing_address`, by the number of the page.
  abbrev pub page_of : ℕ → ℕ
  page_of address = address / 4096

  -- `none` is a panic. A failed mapping leaves the heap as it was.
  unfoldable pub init_heap : M × A → BuddyAllocator → Option ((M × A) × BuddyAllocator × MapResult)
  unfolding map_pages
  init_heap state heap =
      let first = page_of heap_start in
      let last = page_of (heap_start + heap_size - 1) in
      let (state', result) = map_pages (last + 1 - first) first state in
      elim result [
        | failed e ↦ some (state', heap, failed e)
        | mapped ↦ elim (Buddy.init heap heap_start heap_size) [
          | none ↦ none
          | some heap' ↦ some (state', heap', mapped)
        ]
      ]
