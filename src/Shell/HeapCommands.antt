-- ===== src/Shell/HeapCommands.antt =====
-- The commands `alloc!` and `dealloc!` of src/shell.rs, on the kernel's heap.
use sill_os.Base.{ℕ, Option, none, some, List, [], ◌∷◌, ◌++◌, ◌==◌, if◌then◌else◌, Text, text}
use sill_os.Buddy.{Layout, BuddyAllocator}
use sill_os.Buddy as Buddy
use sill_os.Fb.{red}
use sill_os.Fb.Named.{green}
use sill_os.ListAllocator.{is_power_of_two, from_size_align}
use sill_os.Shell.{
  Kernel, End, panicked, and_then, console_println, console_println_color, print_lines,
}
use sill_os.Shell.Parsing.{decimal, hexadecimal, parse, from_str_radix, trim_start}

-- A power of two.
unfoldable pub parse_power : Text → Option ℕ
parse_power s = elim (parse s) [
  | none ↦ none
  | some align ↦ if is_power_of_two align then some align else none
]

-- The alignment, which may be left out, and then the rest of the command.
unfoldable pub with_align : Kernel → List Text → (ℕ → End) → End
unfolding parse_power
with_align k [] rest = rest 8
with_align k (align_str ∷ args) rest = elim (parse_power align_str) [
  | none ↦
      console_println k
        (text "Invalid alignment: " ++ align_str ++ text " (must be a power of two)")
  | some align ↦ rest align
]

unfoldable pub invalid_layout : Kernel → ℕ → ℕ → End
invalid_layout k size align =
    console_println k
      (text "Invalid layout: size=" ++ decimal size ++ text " align=" ++ decimal align)

-- The arguments with which a block can be given back, as they are printed.
unfoldable pub free_arguments : ℕ → ℕ → ℕ → Text
free_arguments ptr size align =
    hexadecimal ptr ++ (text " " ++ (decimal size ++ (text " " ++ decimal align)))

-- The end of `alloc_cmd`, on what `alloc` returns.
unfoldable pub report_block : Kernel → ℕ → ℕ → BuddyAllocator × ℕ → End
unfolding free_arguments
report_block k size align (heap, ptr) =
    let after = record k { heap = heap } in
    if ptr == 0
    then console_println_color after red (text "Allocation failed: out of memory")
    else and_then
        (console_println_color after green (
          text "Allocated "
          ++ decimal size
          ++ text " bytes (align "
          ++ decimal align
          ++ text ") at "
          ++ hexadecimal ptr))
        (λ j. console_println j (text "To free: dealloc " ++ free_arguments ptr size align))

unfoldable pub alloc_layout : Kernel → ℕ → ℕ → End
unfolding invalid_layout report_block
alloc_layout k size align = elim (from_size_align size align) [
  | none ↦ invalid_layout k size align
  | some layout ↦ report_block k size align (Buddy.alloc k.heap layout)
]

unfoldable pub alloc_cmd : Kernel → List Text → End
unfolding with_align alloc_layout
alloc_cmd k [] = print_lines (text "Incorrect usage!" ∷ text "Usage: alloc <size> [align]" ∷ []) k
alloc_cmd k (size_str ∷ args) = elim (parse size_str) [
  | none ↦ console_println k (text "Invalid size: " ++ size_str)
  | some size ↦
      if size == 0
      then console_println k (text "Size must be greater than 0")
      else with_align k args (alloc_layout k size)
]

-- The end of `dealloc_cmd`, with the heap after `dealloc`, which may panic.
unfoldable pub report_freed : Kernel → ℕ → Option BuddyAllocator → End
report_freed k addr none = panicked
report_freed k addr (some heap) =
    console_println_color (record k { heap = heap }) green (text "Deallocated " ++ hexadecimal addr)

unfoldable pub dealloc_layout : Kernel → ℕ → ℕ → ℕ → End
unfolding invalid_layout report_freed
dealloc_layout k addr size align = elim (from_size_align size align) [
  | none ↦ invalid_layout k size align
  | some layout ↦
      if addr == 0
      then console_println k (text "Cannot deallocate a null pointer")
      else report_freed k addr (Buddy.dealloc k.heap addr layout)
]

unfoldable pub dealloc_sized : Kernel → ℕ → Text → List Text → End
unfolding with_align dealloc_layout
dealloc_sized k addr size_str args = elim (parse size_str) [
  | none ↦ console_println k (text "Invalid size: " ++ size_str)
  | some size ↦ with_align k args (dealloc_layout k addr size)
]

-- The number behind the prefixes `0x` and then `0X`.
unfoldable pub parse_pointer : Text → Option ℕ
parse_pointer s = from_str_radix 16 (trim_start 48 88 (trim_start 48 120 s))

abbrev pub dealloc_usage : List Text
dealloc_usage = text "Incorrect usage!" ∷ text "Usage: dealloc <ptr> <size> [align]" ∷ []

unfoldable pub dealloc_cmd : Kernel → List Text → End
unfolding parse_pointer dealloc_sized
dealloc_cmd k [] = print_lines dealloc_usage k
dealloc_cmd k (ptr_str ∷ []) = print_lines dealloc_usage k
dealloc_cmd k (ptr_str ∷ size_str ∷ args) = elim (parse_pointer ptr_str) [
  | none ↦ console_println k (text "Invalid pointer: " ++ ptr_str)
  | some addr ↦ dealloc_sized k addr size_str args
]
