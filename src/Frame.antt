-- ===== src/Frame.antt =====
-- The physical frame allocator, src/kmem/frame.rs, over a memory map. Sums of 64-bit numbers that
-- overflow panic, as in the debug build that the Makefile runs.
pub mod Regions
pub mod Search
pub mod Enumerate
pub mod Usable
pub mod Tests
use Prim.Native.Nat.{bit_and}
use sill_os.Base.{
  ℕ, zero, suc, ◌+◌, ◌-◌, ◌^◌, Bool, true, false, Option, none, some, List, [], ◌∷◌, ltb, ◌==◌,
  if◌then◌else◌, length, get_elem?,
}

abbrev pub frame_size : ℕ
frame_size = 4096

-- An entry of the boot loader's memory map.
pub record Entry : Type 0 where
  pub base : ℕ
  pub length : ℕ
  pub type_ : ℕ

pub record BootInfoFrameAllocator : Type 0 where
  pub memory_map : List Entry
  pub current_region : ℕ
  pub next_frame : ℕ

-- What a call ends in: a value and the new state, a panic, or the model's fuel used up.
pub data Run (A : Type 0) : Type 0 where
  ok : A → BootInfoFrameAllocator → Run A
  panic : Run A
  out_of_fuel : Run A

unfoldable pub new : List Entry → BootInfoFrameAllocator
new memory_map = record { memory_map = memory_map; current_region = 0; next_frame = 0 }

-- `!value` of a 64-bit number.
abbrev pub not_u64 : ℕ → ℕ
not_u64 value = 2 ^ 64 - 1 - value

-- `none` is the overflow of the sum.
unfoldable pub align_up : ℕ → ℕ → Option ℕ
align_up value alignment =
    if ltb (value + alignment) (2 ^ 64)
    then some (bit_and (value + alignment - 1) (not_u64 (alignment - 1)))
    else none

unfoldable pub align_down : ℕ → ℕ → ℕ
align_down value alignment = bit_and value (not_u64 (alignment - 1))

unfoldable pub checked_add : ℕ → ℕ → Option ℕ
checked_add a b = if ltb (a + b) (2 ^ 64) then some (a + b) else none

-- `usable` is the boot loader's mark of usable memory, MEMMAP_USABLE.
module _ (usable : ℕ) where
  -- The sum of the lengths, from `total` on; `none` is its overflow.
  unfoldable pub usable_sum : ℕ → List Entry → Option ℕ
  usable_sum total [] = some total
  usable_sum total (region ∷ regions) =
      let rest = usable_sum (total + region.length) regions in
      let skipped = usable_sum total regions in
      if region.type_ == usable
      then (if ltb (total + region.length) (2 ^ 64) then rest else none)
      else skipped

  unfoldable pub usable_memory : BootInfoFrameAllocator → Option ℕ
  unfolding usable_sum
  usable_memory s = usable_sum 0 s.memory_map

  -- The loop of `next_usable_region`, with the regions left as fuel.
  next_usable_loop : ℕ → BootInfoFrameAllocator → BootInfoFrameAllocator × Option Entry
  next_usable_loop zero s = (s, none)
  next_usable_loop (suc left) s =
      let rest =
        next_usable_loop left
          (record s { current_region = s.current_region + 1; next_frame = 0 }) in
      elim (get_elem? s.memory_map s.current_region) [
        | none ↦ (s, none)
        | some region ↦ if region.type_ == usable then (s, some region) else rest
      ]

  unfoldable pub next_usable_region : BootInfoFrameAllocator → BootInfoFrameAllocator × Option Entry
  unfolding next_usable_loop
  next_usable_region s = next_usable_loop (length s.memory_map - s.current_region) s

-- `frame_at` is `PhysFrame::containing_address(PhysAddr::new(_))`, `none` where that panics.
module _ (usable : ℕ) (frame_at : ℕ → Option ℕ) where
  -- The frame at `next_frame`, in a region that still has one.
  take_frame : BootInfoFrameAllocator → Run (Option ℕ)
  take_frame s = elim (frame_at s.next_frame) [
    | none ↦ panic
    | some frame ↦ ok (some frame) (record s { next_frame = s.next_frame + frame_size })
  ]

  -- Start at the beginning of a region that is new.
  enter_region : BootInfoFrameAllocator → ℕ → BootInfoFrameAllocator
  enter_region s region_start =
      if s.next_frame == 0 then record s { next_frame = region_start } else s

  -- A region with no frame left is followed by the next one, `rest`.
  visit : BootInfoFrameAllocator → ℕ → Run (Option ℕ) → Run (Option ℕ)
  visit s region_end rest = if ltb s.next_frame region_end then take_frame s else rest

  -- The loop of `allocate_frame`.
  allocate_loop : ℕ → BootInfoFrameAllocator → Run (Option ℕ)
  allocate_loop zero s = out_of_fuel
  allocate_loop (suc fuel) s =
      let found = next_usable_region usable s in
      elim found.1 [
        | none ↦ ok none found.0
        | some region ↦ elim (align_up region.base frame_size) [
          | none ↦ panic
          | some region_start ↦ elim (checked_add region.base region.length) [
            | none ↦ ok none found.0
            | some end ↦
                let inside = enter_region found.0 region_start in
                let rest =
                  allocate_loop fuel (record inside {
                    current_region = inside.current_region + 1;
                    next_frame = 0;
                  }) in
                visit inside (align_down end frame_size) rest
          ]
        ]
      ]

  -- Every round but the last one leaves a region behind.
  unfoldable pub allocate_frame : BootInfoFrameAllocator → Run (Option ℕ)
  unfolding allocate_loop next_usable_region visit take_frame enter_region align_up align_down
      checked_add
  allocate_frame s = allocate_loop (length s.memory_map + 1) s
