-- ===== src/Kmem/Figures.antt =====
-- The ends of what `mem_analyze` of src/kmem/mod.rs prints: the heap, its place and its cost in
-- frames, the alignments and the summary.
use sill_os.Base.{
  ℕ, ◌+◌, ◌*◌, ◌/◌, ◌%◌, Bool, true, false, Option, none, some, List, [], ◌∷◌, ◌++◌, ◌==◌, leb,
  if◌then◌else◌, Text, text,
}
use sill_os.Frame.{Entry}
use sill_os.Shell.Parsing.{decimal, padded}
use sill_os.Kmem.{MemmapTypes, Tally, frame_count, heap_start, heap_size}

-- The answers of the boot loader, its marks of the regions, and the register CR3 with its flags
-- as their crate prints them.
pub record Machine : Type 0 where
  pub offset : Option ℕ
  pub entries : Option (List Entry)
  pub types : MemmapTypes
  pub cr3_physical : ℕ
  pub cr3_flags : Text

abbrev pub yes_no : Bool → Text
yes_no true = text "true"
yes_no false = text "false"

abbrev pub kib : ℕ → Text
kib n = decimal (n / 1024) ++ text " KiB"

abbrev pub mib : ℕ → Text
mib n = decimal (n / (1024 * 1024)) ++ text " MiB"

abbrev pub aligned : ℕ → Text
aligned address = yes_no (address % 4096 == 0)

-- The hundredths of a percentage are printed without a leading zero.
abbrev pub percent : ℕ → Text
percent n = decimal (n / 100) ++ text "." ++ decimal (n % 100) ++ text "%"

abbrev pub some_line : Option ℕ → (ℕ → Text) → Text → Text
some_line none line otherwise = otherwise
some_line (some n) line otherwise = line n

abbrev pub rule : Text
rule = text "========================================"

-- The heap's constants leave no overflow.
unfoldable pub heap_lines : List Text
heap_lines =
    []
    ∷ text "[KERNEL HEAP]"
    ∷ (text "  Start:          " ++ padded heap_start)
    ∷ (text "  End:            " ++ padded (heap_start + heap_size))
    ∷ (text "  Size:           " ++ kib heap_size)
    ∷ (text "  Size:           " ++ mib heap_size)
    ∷ (text "  Pages:          " ++ decimal ((heap_size + 4095) / 4096))
    ∷ (text "  Start aligned:  " ++ aligned heap_start)
    ∷ (text "  Size aligned:   " ++ aligned heap_size)
    ∷ (text "  End aligned:    " ++ aligned (heap_start + heap_size))
    ∷ []

unfoldable pub layout_lines : ℕ → List Text
layout_lines offset =
    []
    ∷ text "[ADDRESS SPACE]"
    ∷ (text "  HHDM base:      " ++ padded offset)
    ∷ (text "  Heap base:      " ++ padded heap_start)
    ∷ (text "  Heap above HHDM: " ++ yes_no (leb offset heap_start))
    ∷ []

-- The pages of the heap.
abbrev pub heap_frames : ℕ
heap_frames = (heap_size + 4095) / 4096

unfoldable pub capacity_lines : ℕ → List Text
capacity_lines frames =
    []
    ∷ text "[FRAME CAPACITY]"
    ∷ (text "  Heap pages:     " ++ decimal heap_frames)
    ∷ (text "  Usable frames:  " ++ decimal frames)
    ∷ (if leb heap_frames frames
        then text "  Heap frame cost: " ++ percent (heap_frames * 10000 / frames)
        else text "  Heap frame cost: exceeds usable-frame count")
    ∷ []

unfoldable pub alignment_lines : Machine → ℕ → Tally → List Text
alignment_lines m offset t =
    []
    ∷ text "[ALIGNMENT]"
    ∷ (text "  Page size:      " ++ decimal 4096)
    ∷ (text "  HHDM aligned:   " ++ aligned offset)
    ∷ (text "  CR3 aligned:    " ++ aligned m.cr3_physical)
    ∷ (text "  Heap aligned:   " ++ aligned heap_start)
    ∷ elim t.first_usable_base [
      | some base ↦ (text "  First frame aligned: " ++ aligned base) ∷ []
      | none ↦ []
    ]

-- In hundredths of a percent.
unfoldable pub usable_percent : Tally → ℕ
usable_percent t = if t.total_memory == 0 then 0 else t.usable_memory * 10000 / t.total_memory

unfoldable pub summary_lines : Machine → ℕ → Tally → List Text
unfolding usable_percent frame_count
summary_lines m offset t =
    []
    ∷ text "[SUMMARY]"
    ∷ (text "  Physical RAM:   " ++ mib t.total_memory)
    ∷ (text "  Usable RAM:     " ++ mib t.usable_memory)
    ∷ (text "  Usable RAM:     " ++ percent (usable_percent t))
    ∷ (text "  Usable frames:  " ++ decimal (frame_count t))
    ∷ (text "  Heap size:      " ++ mib heap_size)
    ∷ (text "  Heap pages:     " ++ decimal heap_frames)
    ∷ (text "  HHDM:           " ++ padded offset)
    ∷ (text "  CR3:            " ++ padded m.cr3_physical)
    ∷ []
    ∷ rule
    ∷ text "       END MEMORY ANALYSIS"
    ∷ rule
    ∷ []
    ∷ []
