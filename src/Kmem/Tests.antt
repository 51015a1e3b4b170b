-- ===== src/Kmem/Tests.antt =====
-- The figures of a map of three regions, and a heap mapped by a table from pages to frames.
use sill_os.Base.{
  ℕ, ◌+◌, ◌-◌, ◌^◌, ◌≤◌, ◌≡◌, refl, Option, none, some, List, [], ◌∷◌, arith, length, update, ◌==◌,
  if_true, if_false, ==_refl, false,
}
use sill_os.Buddy as Buddy
use sill_os.Frame.{Entry}
use sill_os.Frame as Frame
use sill_os.Frame.Regions.{all_frames}
use sill_os.Kmem.{
  MemmapTypes, MapResult, mapped, failed, frame_allocation_failed, no_entries, tally, frame_count,
  address_span, map_pages, phys_to_virt, init_heap,
}
use sill_os.Kmem.Totals.{Totals, tally-Totals}
use sill_os.Kmem.Usable.{Agrees, tally-Agrees, frame_count-all_frames}
use sill_os.Kmem.Span.{Spans, address_span-Spans}
use sill_os.Kmem.Mapped.{Maps, Starts, init_heap-Starts}

-- The constants of the boot loader's protocol.
abbrev pub types : MemmapTypes
types = record {
  usable = 0;
  reserved = 1;
  acpi_reclaimable = 2;
  bootloader_reclaimable = 5;
  executable_and_modules = 6;
  framebuffer = 7;
  bad_memory = 4;
}

abbrev pub entries : List Entry
entries =
    record { base = 4096; length = 12288; type_ = 0 }
    ∷ record { base = 16384; length = 4096; type_ = 6 }
    ∷ record { base = 20480; length = 6000; type_ = 0 }
    ∷ []

entries-kernel : (tally types no_entries entries).kernel_memory ≡ 4096
unfolding tally no_entries
entries-kernel = refl

entries-last : (tally types no_entries entries).last_usable_end ≡ some 26480
unfolding tally no_entries
entries-last = refl

phys_to_virt-overflow : phys_to_virt some (some (2 ^ 63)) (2 ^ 63) ≡ none
unfolding phys_to_virt
phys_to_virt-overflow = refl

tally-Totals_example : Totals 22384 (tally types no_entries entries)
tally-Totals_example = tally-Totals types entries (omega arith)

tally-Agrees_example :
    Agrees types (Frame.usable_memory 0 (Frame.new entries)) (tally types no_entries entries)
tally-Agrees_example = tally-Agrees types entries

entries-usable : Frame.usable_memory types.usable (Frame.new entries) ≡ some 18288
unfolding Frame.usable_memory Frame.new
entries-usable = refl

frame_count-all_frames_example :
    length (all_frames types.usable entries) ≤ frame_count (tally types no_entries entries)
frame_count-all_frames_example = frame_count-all_frames types entries entries-usable

address_span-Spans_example : Spans (2 ^ 64 - 1) 0 entries (address_span (2 ^ 64 - 1) 0 entries)
address_span-Spans_example = address_span-Spans entries (2 ^ 64 - 1) 0

-- A mapper that keeps the frame of each page, and a frame allocator that counts.
abbrev Pages : Type 0
Pages = ℕ → Option ℕ

abbrev map_to : Pages → ℕ → ℕ → ℕ → (Pages × ℕ) × MapResult
map_to m a page frame = ((update m page (some frame), a), mapped)

abbrev allocate_frame : ℕ → ℕ × Option ℕ
allocate_frame a = (a + 4096, some a)

map_to-Maps : Maps map_to (λ m. m)
map_to-Maps = record {
  sets = λ m a page frame e. if_true _ _ (==_refl page);
  keeps = λ m a page frame other ne.
      let apart : (page == other) ≡ false = ground arith in if_false _ _ apart;
}

no_frames :
    map_pages (λ (a : ℕ). (a, none)) map_to 2 7 ((λ _. none), 0)
    ≡ (((λ _. none), 0), failed frame_allocation_failed)
unfolding map_pages
no_frames = refl

init_heap-Starts_example :
    Starts allocate_frame map_to
      (λ m. m)
      map_to-Maps
      ((λ _. none), 4096)
      (Buddy.new (λ _. 0))
      (init_heap allocate_frame map_to ((λ _. none), 4096) (Buddy.new (λ _. 0)))
init_heap-Starts_example =
    init_heap-Starts allocate_frame map_to (λ m. m) map_to-Maps ((λ _. none), 4096)
      (Buddy.new (λ _. 0))
