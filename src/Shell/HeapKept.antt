-- ===== src/Shell/HeapKept.antt =====
-- The heap commands of src/shell.rs keep the console and the file system valid.
use sill_os.Base.{ℕ, Option, none, some, List, [], ◌∷◌, Text, ◌==◌}
use sill_os.Buddy.{Layout, BuddyAllocator}
use sill_os.Buddy as Buddy
use sill_os.Buddy.Valid.{HeapValid, alloc-HeapValid}
use sill_os.ListAllocator.{from_size_align}
use sill_os.Shell.{Kernel, End}
use sill_os.Shell.Parsing.{parse}
use sill_os.Shell.HeapCommands.{
  parse_power, with_align, invalid_layout, report_block, alloc_layout, alloc_cmd,
}
use sill_os.Shell.Printing.{
  Sound, Kept, and_then-Kept, if-Kept, console_println-Kept, console_println_color-Kept,
  print_lines-Kept,
}

-- An option's value is used, or a line is printed.
option-Kept :
    {A : Type 0} (o : Option A) (none_ : End) (some_ : A → End)
    → Kept none_
    → ((a : A) → Kept (some_ a))
    → Kept (elim o [ none ↦ none_ | some a ↦ some_ a ])
option-Kept none none_ some_ h g = h
option-Kept (some a) none_ some_ h g = g a

module _ (k : Kernel) (v : Sound k) where
  invalid_layout-Kept : (size align : ℕ) → Kept (invalid_layout k size align)
  unfolding invalid_layout
  invalid_layout-Kept size align = console_println-Kept k v _

  with_align-Kept :
      (args : List Text) (rest : ℕ → End)
      → ((a : ℕ) → Kept (rest a))
      → Kept (with_align k args rest)
  unfolding with_align
  with_align-Kept [] rest h = h 8
  with_align-Kept (align ∷ args) rest h =
      option-Kept (parse_power align) _ rest (console_println-Kept k v _) h

  report_block-Kept :
      (size align : ℕ) (r : BuddyAllocator × ℕ) → HeapValid r.0 → Kept (report_block k size align r)
  unfolding report_block
  report_block-Kept size align (heap, ptr) h =
      let after : Kernel = record k { heap = heap } in
      let w : Sound after = record { console = v.console; files = v.files; heap = h } in
      if-Kept (ptr == 0) _ _ (λ e. console_println_color-Kept after w _ _)
        (λ e.
          and_then-Kept _ (console_println_color-Kept after w _ _)
            λ j u. console_println-Kept j u _)

  alloc_layout-Kept : (size align : ℕ) → Kept (alloc_layout k size align)
  unfolding alloc_layout
  alloc_layout-Kept size align =
      option-Kept (from_size_align size align) _ _ (invalid_layout-Kept size align) λ layout.
        report_block-Kept size align (Buddy.alloc k.heap layout)
          (alloc-HeapValid k.heap layout v.heap)

  pub alloc_cmd-Kept : (args : List Text) → Kept (alloc_cmd k args)
  unfolding alloc_cmd
  alloc_cmd-Kept [] = print_lines-Kept _ k v
  alloc_cmd-Kept (size_str ∷ args) =
      option-Kept (parse size_str) _ _ (console_println-Kept k v _) λ size.
        if-Kept (size == 0) _ _ (λ e. console_println-Kept k v _)
          (λ e. with_align-Kept args (alloc_layout k size) (alloc_layout-Kept size))
