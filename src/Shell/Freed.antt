-- ===== src/Shell/Freed.antt =====
-- Giving back a block of the heap by the line that src/shell.rs prints for it.
use sill_os.Base.{
  ℕ, ◌+◌, ◌^◌, ◌≤◌, ◌<◌, ◌≡◌, ◌≢◌, ◌∙◌, refl, ap, true, false, some, List, [], ◌∷◌, ◌++◌, ◌&&◌, leb,
  ◌==◌, Text, text, arith, if_true,
}
use sill_os.Buddy as Buddy
use sill_os.Buddy.{BuddyAllocator, order_count, layout_order}
use sill_os.Buddy.Weigh.{FreeLists, cover, in_block}
use sill_os.Buddy.Lists.{SameHeap}
use sill_os.Buddy.Heap as Heap
use sill_os.Shell.Prints.{IsValid, Prints}
use sill_os.Shell.Analyzed.{console_println_color-Prints}
use sill_os.Fb.Named.{green}
use sill_os.ListAllocator.{is_power_of_two, from_size_align}
use sill_os.Kmem.Figures.{Machine}
use sill_os.Shell.{Kernel, End, console_println_color}
use sill_os.Shell.Parsing.{split_whitespace, decimal, hexadecimal}
use sill_os.Shell.HeapCommands.{
  parse_power, with_align, free_arguments, dealloc_layout, dealloc_sized, dealloc_cmd, report_freed,
}
use sill_os.Shell.Execute.{dispatch, execute_words, execute, unknown_command}
use sill_os.Shell.Words.{IsWord, AllWords, split_whitespace-join}
use sill_os.Shell.Numbers.{
  parse-decimal, parse_pointer-hexadecimal, decimal-IsWord, hexadecimal-IsWord,
}

module _ (k : Kernel) (ptr size align : ℕ) where
  abbrev pub layout : Buddy.Layout
  layout = record { size = size; align = align }

  abbrev pub message : Text
  message = text "Deallocated " ++ hexadecimal ptr

  abbrev pub arguments : List Text
  arguments = hexadecimal ptr ∷ decimal size ∷ decimal align ∷ []

-- The block of index `i` at `ptr` is free in the heap, whose free blocks were the lists `l`, and
-- the message is printed.
pub record Returned (k : Kernel) (n : ℕ) (l : FreeLists) (ptr i : ℕ) (e : End) : Type 0 where
  pub heap : BuddyAllocator
  pub lists : FreeLists
  pub valid : Heap.IsValid n heap lists
  pub same : SameHeap k.heap heap
  pub bytes : (b : ℕ) → cover lists b ≡ cover l b + in_block ptr (2 ^ (i + 6)) b
  pub prints :
      Prints ((text "Deallocated " ++ hexadecimal ptr) ++ 10 ∷ []) (record k { heap = heap }) e

module _ (k : Kernel) (ptr size align : ℕ) (used : ptr ≢ 0) (short : ptr < 2 ^ 64)
    (power : is_power_of_two align ≡ true) (fits : size + align ≤ 2 ^ 63) (h : BuddyAllocator)
    (released : Buddy.dealloc k.heap ptr (layout k ptr size align) ≡ some h) where
  abbrev freed : End
  freed = console_println_color (record k { heap = h }) green (message k ptr size align)

  from_size_align-layout : from_size_align size align ≡ some (layout k ptr size align)
  unfolding from_size_align
  from_size_align-layout =
      let room : leb (size + align) (2 ^ 63) ≡ true = ground arith in
      let both : (is_power_of_two align && leb (size + align) (2 ^ 63)) ≡ true = cc in
      if_true _ _ both

  parse_power-align : parse_power (decimal align) ≡ some align
  unfolding parse_power
  parse_power-align = rw (parse_power, parse-decimal align (omega arith), power)

  dealloc_layout-freed : dealloc_layout k ptr size align ≡ freed
  unfolding dealloc_layout report_freed
  dealloc_layout-freed =
      let set : (ptr == 0) ≡ false = ground arith in
      rw (dealloc_layout, from_size_align-layout, set, released, report_freed)

  dealloc_cmd-freed : dealloc_cmd k (hexadecimal ptr ∷ decimal size ∷ decimal align ∷ []) ≡ freed
  unfolding dealloc_cmd dealloc_sized with_align
  dealloc_cmd-freed =
      rw
        (
          dealloc_cmd,
          parse_pointer-hexadecimal ptr short,
          dealloc_sized,
          parse-decimal size (omega arith),
          with_align,
          parse_power-align,
        )
        dealloc_layout-freed

  arguments-AllWords : AllWords (arguments k ptr size align)
  arguments-AllWords = (hexadecimal-IsWord ptr, (decimal-IsWord size, (decimal-IsWord align, tt)))

  -- A command with the printed arguments.
  line-words :
      (command : Text)
      → IsWord command
      → split_whitespace (command ++ 32 ∷ free_arguments ptr size align)
        ≡ command ∷ arguments k ptr size align
  unfolding free_arguments
  line-words command h =
      split_whitespace-join (command ∷ arguments k ptr size align) (h, arguments-AllWords)

  module _ (stack_frame : Text) (machine : Machine) where
    execute_command :
        (command : Text)
        → IsWord command
        → execute stack_frame machine k (command ++ 32 ∷ free_arguments ptr size align)
          ≡ dispatch stack_frame machine k command (arguments k ptr size align)
    unfolding execute execute_words
    execute_command command h = ap (execute_words stack_frame machine k) (line-words command h)

    commands-freed :
        (execute stack_frame machine k (text "dealloc! " ++ free_arguments ptr size align) ≡ freed)
        × (execute stack_frame machine k (text "dealloc " ++ free_arguments ptr size align)
            ≡ unknown_command stack_frame machine k (text "dealloc"))
    unfolding dispatch
    commands-freed = (
      execute_command (text "dealloc!")
            (refl, (refl, (refl, (refl, (refl, (refl, (refl, (refl, tt))))))))
          ∙ dealloc_cmd-freed,
      execute_command (text "dealloc") (refl, (refl, (refl, (refl, (refl, (refl, (refl, tt))))))),
    )

-- On a kernel whose console and file system are valid, whose heap is valid with the lists l of free
-- blocks, for an aligned block of index i inside the heap, at an address at most 2 ^ 64 - 2 ^ 30,
-- that shares no byte with a free block, and a size and a power of two as alignment whose layout
-- has that order and that together are at most 2 ^ 63: the command dealloc! with the arguments that
-- alloc! prints for the block does not panic; it leaves a valid heap in which exactly the bytes of
-- the block are free besides those that were, and prints that the block is deallocated. The line
-- that alloc! prints, which has dealloc in place of dealloc!, is an unknown command.
pub execute-freed :
    (stack_frame : Text) (machine : Machine) (k : Kernel)
    → IsValid k
    → (n : ℕ) (l : FreeLists) (v : Heap.IsValid n k.heap l) (ptr i size align : ℕ) → i < order_count
    → Heap.Used v ptr i
    → ptr + 2 ^ 30 ≤ 2 ^ 64
    → is_power_of_two align ≡ true
    → size + align ≤ 2 ^ 63
    → layout_order (record { size = size; align = align }) ≡ some (i + 6)
    → Returned k n l ptr i
        (execute stack_frame machine k (text "dealloc! " ++ free_arguments ptr size align))
      × (execute stack_frame machine k (text "dealloc " ++ free_arguments ptr size align)
          ≡ unknown_command stack_frame machine k (text "dealloc"))
execute-freed stack_frame machine k w n l v ptr i size align p used high power fits order =
    let (h, l', released, valid, same, bytes) =
      Heap.dealloc_lem v ptr i p used (record { size = size; align = align }) order high in
    let set : ptr ≢ 0 =
      λ null. absurd (omega (arith, null, v.based, Heap.above_start v ptr i p used)) in
    let runs =
      commands-freed k ptr size align set (omega (arith, high)) power fits h released stack_frame
        machine in
    let (j, done, printed) =
      console_println_color-Prints green (text "Deallocated " ++ hexadecimal ptr)
        (record k { heap = h }) (record { console = w.console; files = w.files }) in
    (
      record {
        heap = h;
        lists = l';
        valid = valid;
        same = same;
        bytes = bytes;
        prints = (j, runs.0 ∙ done, printed);
      },
      runs.1,
    )
