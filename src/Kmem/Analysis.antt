-- ===== src/Kmem/Analysis.antt =====
-- The lines that `mem_analyze` of src/kmem/mod.rs prints, in order; the last ones are in
-- Kmem/Figures.
use sill_os.Base.{
  ℕ, ◌+◌, ◌-◌, ◌*◌, ◌/◌, ◌^◌, Option, none, some, List, [], ◌∷◌, length, ◌++◌, ◌==◌, if◌then◌else◌,
  not, Text, text,
}
use sill_os.Frame.{Entry, frame_size, checked_add}
use sill_os.Fb.{saturating_add}
use sill_os.Shell.Parsing.{decimal, padded}
use sill_os.Kmem.Figures.{
  Machine, kib, mib, some_line, rule, heap_lines, layout_lines, capacity_lines, alignment_lines,
  summary_lines,
}
use sill_os.Kmem.{Tally, no_entries, tally, address_span, frame_count}

unfoldable pub banner : List Text
banner = [] ∷ rule ∷ text "       KERNEL MEMORY ANALYSIS" ∷ rule ∷ []

unfoldable pub hhdm_lines : ℕ → List Text
hhdm_lines offset = [] ∷ text "[HHDM]" ∷ (text "  Offset:          " ++ padded offset) ∷ []

unfoldable pub memory_map_lines : List Entry → Tally → List Text
memory_map_lines entries t =
    []
    ∷ text "[MEMORY MAP]"
    ∷ (text "  Entries:         " ++ decimal (length entries))
    ∷ (text "  Total:           " ++ kib t.total_memory)
    ∷ (text "  Total:           " ++ mib t.total_memory)
    ∷ (text "  Usable:          " ++ mib t.usable_memory)
    ∷ (text "  Usable regions:  " ++ decimal t.usable_regions)
    ∷ (text "  Reserved:        " ++ kib t.reserved_memory)
    ∷ (text "  ACPI reclaim:    " ++ kib t.reclaimable_memory)
    ∷ (text "  Bootloader:      " ++ kib t.bootloader_memory)
    ∷ (text "  Kernel/modules:  " ++ kib t.kernel_memory)
    ∷ (text "  Framebuffer:     " ++ kib t.framebuffer_memory)
    ∷ (text "  Bad memory:      " ++ kib t.bad_memory)
    ∷ (text "  Other:           " ++ kib t.other_memory)
    ∷ []

unfoldable pub frame_lines : Tally → List Text
unfolding frame_count
frame_lines t =
    []
    ∷ text "[PHYSICAL FRAMES]"
    ∷ (text "  Frame size:      " ++ decimal frame_size ++ text " bytes")
    ∷ (text "  Usable frames:   " ++ decimal (frame_count t))
    ∷ (text "  Frame memory:    " ++ mib (frame_count t * frame_size))
    ∷ some_line t.first_usable_base (λ base. text "  First usable:    " ++ padded base)
        (text "  First usable:    NONE")
    ∷ some_line t.last_usable_end (λ end. text "  Last usable end: " ++ padded end)
        (text "  Last usable end: NONE")
    ∷ []

unfoldable pub space_lines : ℕ × ℕ → List Text
space_lines (lowest, highest) =
    []
      ∷ text "[PHYSICAL ADDRESS SPACE]"
      ∷ (if not (lowest == 2 ^ 64 - 1)
          then (text "  Lowest address:  " ++ padded lowest) ∷ []
          else [])
    ++ (text "  Highest address: " ++ padded highest)
      ∷ (text "  Address span:    " ++ mib (highest - lowest))
      ∷ []

unfoldable pub region_line : ℕ → Entry → Text
unfolding saturating_add
region_line index e =
    text "  #"
    ++ decimal index
    ++ text ": "
    ++ padded e.base
    ++ text " - "
    ++ padded (saturating_add e.base e.length)
    ++ text " | "
    ++ decimal (e.length / 1024)
    ++ text " KiB | type "
    ++ decimal e.type_

unfoldable pub region_lines : ℕ → List Entry → List Text
unfolding region_line
region_lines index [] = []
region_lines index (e ∷ es) = region_line index e ∷ region_lines (index + 1) es

unfoldable pub page_table_lines : Machine → ℕ → List Text
unfolding checked_add
page_table_lines m offset =
    []
    ∷ text "[PAGE TABLES]"
    ∷ (text "  CR3 physical:   " ++ padded m.cr3_physical)
    ∷ some_line (checked_add offset m.cr3_physical)
        (λ address. text "  CR3 virtual:    " ++ padded address) (text "  CR3 virtual:    OVERFLOW")
    ∷ (text "  CR3 flags:      " ++ m.cr3_flags)
    ∷ text "  Page size:      4096 bytes"
    ∷ []

-- An address and its place in the direct map, with the words for it.
unfoldable pub converted : ℕ → Option ℕ → Text → Text → Text → List Text
unfolding checked_add
converted offset none physical virtual overflow = []
converted offset (some address) physical virtual overflow = elim (checked_add offset address) [
  | some virtual_address ↦ (physical ++ padded address) ∷ (virtual ++ padded virtual_address) ∷ []
  | none ↦ overflow ∷ []
]

unfoldable pub conversion_lines : ℕ → Tally → List Text
unfolding converted
conversion_lines offset t =
    []
      ∷ text "[HHDM ADDRESS CONVERSION]"
      ∷ converted offset t.first_usable_base (text "  Physical:       ") (text "  HHDM virtual:   ")
          (text "  First usable HHDM address overflow")
    ++ converted offset t.last_usable_end (text "  Last physical:  ") (text "  Last HHDM VA:   ")
        (text "  Last usable HHDM address overflow")

-- The address span and the regions.
unfoldable pub map_lines : List Entry → List Text
unfolding space_lines address_span region_lines
map_lines entries =
    space_lines (address_span (2 ^ 64 - 1) 0 entries)
    ++ [] ∷ text "[MEMORY MAP REGIONS]" ∷ region_lines 0 entries

-- The figures of the heap, and what it takes of the usable frames.
unfoldable pub kernel_lines : ℕ → ℕ → List Text
unfolding heap_lines layout_lines capacity_lines
kernel_lines offset frames = heap_lines ++ layout_lines offset ++ capacity_lines frames

-- What follows the first loop.
unfoldable pub analysis : Machine → ℕ → List Entry → Tally → List Text
unfolding memory_map_lines frame_lines map_lines page_table_lines conversion_lines kernel_lines
    frame_count alignment_lines summary_lines
analysis m offset entries t =
    memory_map_lines entries t
    ++ frame_lines t
    ++ map_lines entries
    ++ page_table_lines m offset
    ++ conversion_lines offset t
    ++ kernel_lines offset (frame_count t)
    ++ alignment_lines m offset t
    ++ summary_lines m offset t

-- The lines, in order. It stops where the boot loader has not answered.
unfoldable pub report : Machine → List Text
unfolding banner hhdm_lines analysis tally
report m = banner ++ elim m.offset [
  | none ↦ text "[HHDM] NOT AVAILABLE" ∷ []
  | some offset ↦ hhdm_lines offset ++ elim m.entries [
    | none ↦ text "[MEMORY MAP] NOT AVAILABLE" ∷ []
    | some entries ↦ analysis m offset entries (tally m.types no_entries entries)
  ]
]
