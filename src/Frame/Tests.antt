-- ===== src/Frame/Tests.antt =====
-- The frame allocator on a map of a usable region of three frames and a reserved one.
use sill_os.Base.{
  ◌*◌, ◌≤◌, length, ℕ, ◌%◌, ◌^◌, ◌<◌, ◌≡◌, Option, none, some, List, [], ◌∷◌, refl, ◌==◌,
  if◌then◌else◌, arith, if_true,
}
use sill_os.Frame.{Entry, new, allocate_frame, usable_memory}
use sill_os.Frame.Regions.{all_frames, remaining_in}
use sill_os.Frame.Usable.{usable_memory-all_frames}
use sill_os.Frame.Search.{IsAt}
use sill_os.Frame.Enumerate.{Yields, allocate_frame-Yields}

abbrev regions : List Entry
regions =
    record { base = 4096; length = 12288; type_ = 0 }
    ∷ record { base = 16384; length = 4096; type_ = 1 }
    ∷ []

-- `containing_address` of an address that is a frame's start.
abbrev frame_at : ℕ → Option ℕ
frame_at address = if address % 4096 == 0 then some address else none

frame_at-boundary : (a : ℕ) → a % 4096 ≡ 0 → a < 2 ^ 52 → frame_at a ≡ some a
frame_at-boundary a boundary small = if_true {b = a % 4096 == 0} _ _ (ground arith)

fresh-IsAt : IsAt (new regions) regions
unfolding new
fresh-IsAt = record {
  left = refl;
  boundary = refl;
  physical = (omega arith, (omega arith, record {}));
}

regions-total : usable_memory 0 (new regions) ≡ some 12288
unfolding usable_memory new
regions-total = refl

usable_memory-all_frames_example : 4096 * length (all_frames 0 (new regions).memory_map) ≤ 12288
usable_memory-all_frames_example = usable_memory-all_frames 0 (new regions) 12288 regions-total

allocate_frame-Yields_example :
    Yields 0
      (new regions)
      (remaining_in 0 regions (new regions).next_frame)
      (allocate_frame 0 frame_at (new regions))
allocate_frame-Yields_example =
    allocate_frame-Yields 0 frame_at frame_at-boundary (new regions) regions fresh-IsAt
