-- ===== src/Interrupts.antt =====
-- The interrupts, src/int.rs: the state that the handlers work on, and what a handler ends in.
pub mod Faults
pub mod Dispatch
pub mod Handled
pub mod Runs
pub mod Tests
use sill_os.Base.{ℕ, List, [], ◌∷◌, ◌++◌, Option, Text}
use sill_os.Shell.{Kernel, End, running}

-- The kernel, the keyboard's decoder, which is of type `D`, and the interrupts whose end the
-- interrupt controller has been told, the last one first.
pub record State (D : Type 0) : Type 0 where
  pub kernel : Kernel
  pub keyboard : D
  pub acknowledged : List ℕ

-- A handler returns; it stops the processor in `panic_loop`, with interrupts disabled; or the
-- kernel has ended within it.
pub data Outcome (D : Type 0) : Type 0 where
  resumed stopped : State D → Outcome D
  ended : End → Outcome D

-- The entries of the descriptor table that `init` fills, with the error code, the address or the
-- byte from the keyboard that comes with them. What the crate prints of an address and of a page
-- fault's code is a text.
pub data Interrupt : Type 0 where
  breakpoint invalid_opcode divide_error : Interrupt
  double_fault general_protection_fault invalid_tss : ℕ → Interrupt
  segment_not_present stack_segment_fault alignment_check : ℕ → Interrupt
  page_fault : Text → Text → Interrupt
  x87_floating_point simd_floating_point virtualization device_not_available debug : Interrupt
  overflow bound_range_exceeded non_maskable_interrupt machine_check timer : Interrupt
  keyboard : ℕ → Interrupt

-- What `process_keyevent` of the keyboard's crate decodes.
pub data DecodedKey : Type 0 where
  unicode raw_key : ℕ → DecodedKey

-- `InterruptIndex`.
abbrev pub timer_index : ℕ
timer_index = 32

abbrev pub keyboard_index : ℕ
keyboard_index = 33

module _ {D : Type 0} where
  -- `serial_println!` of one line after another.
  unfoldable pub serial_lines : List Text → State D → State D
  serial_lines [] s = s
  serial_lines (line ∷ lines) s =
      serial_lines lines
        (record s { kernel = record s.kernel { serial = s.kernel.serial ++ (line ++ 10 ∷ []) } })

  -- `end_of_interrupt` of src/pic.rs, and `notify_end_of_interrupt`.
  unfoldable pub end_of_interrupt : ℕ → State D → State D
  end_of_interrupt interrupt_id s = record s { acknowledged = interrupt_id ∷ s.acknowledged }

  unfoldable pub panic_loop : State D → Outcome D
  panic_loop s = stopped s
