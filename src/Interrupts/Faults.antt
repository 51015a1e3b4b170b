-- ===== src/Interrupts/Faults.antt =====
-- The handlers of the processor's exceptions in src/int.rs, but that of the breakpoint.
use sill_os.Base.{ℕ, [], ◌∷◌, ◌++◌, Text, text}
use sill_os.Shell.Parsing.{hexadecimal}
use sill_os.Interrupts.{State, Outcome, resumed, serial_lines, panic_loop}

-- `stack_frame` is the text in which the crate prints an interrupt's stack frame.
module _ {D : Type 0} (stack_frame : Text) where
  unfoldable pub double_fault_handler : ℕ → State D → Outcome D
  unfolding serial_lines panic_loop
  double_fault_handler error_code s = panic_loop (
      serial_lines
        ([]
          ∷ text "EXCEPTION: DOUBLE FAULT"
          ∷ (text "error code: " ++ hexadecimal error_code)
          ∷ stack_frame
          ∷ [])
        s)

  unfoldable pub general_protection_fault_handler : ℕ → State D → Outcome D
  unfolding serial_lines panic_loop
  general_protection_fault_handler error_code s = panic_loop (
      serial_lines
        ([]
          ∷ text "EXCEPTION: GENERAL PROTECTION FAULT"
          ∷ (text "error code: " ++ hexadecimal error_code)
          ∷ stack_frame
          ∷ [])
        s)

  unfoldable pub invalid_opcode_handler : State D → Outcome D
  unfolding serial_lines panic_loop
  invalid_opcode_handler s =
      panic_loop (serial_lines ([] ∷ text "EXCEPTION: INVALID OPCODE" ∷ stack_frame ∷ []) s)

  unfoldable pub page_fault_handler : Text → Text → State D → Outcome D
  unfolding serial_lines panic_loop
  page_fault_handler address error_code s = panic_loop (
      serial_lines
        ([]
          ∷ text "EXCEPTION: PAGE FAULT"
          ∷ (text "accessed address: " ++ address)
          ∷ (text "error code: " ++ error_code)
          ∷ stack_frame
          ∷ [])
        s)

  unfoldable pub divide_error_handler : State D → Outcome D
  unfolding serial_lines panic_loop
  divide_error_handler s =
      panic_loop (serial_lines ([] ∷ text "EXCEPTION: DIVIDE ERROR" ∷ stack_frame ∷ []) s)

  unfoldable pub invalid_tss_handler : ℕ → State D → Outcome D
  unfolding serial_lines panic_loop
  invalid_tss_handler error_code s = panic_loop (
      serial_lines
        ([]
          ∷ text "EXCEPTION: INVALID TSS"
          ∷ (text "error code: " ++ hexadecimal error_code)
          ∷ stack_frame
          ∷ [])
        s)

  unfoldable pub segment_not_present_handler : ℕ → State D → Outcome D
  unfolding serial_lines panic_loop
  segment_not_present_handler error_code s = panic_loop (
      serial_lines
        ([]
          ∷ text "EXCEPTION: SEGMENT NOT PRESENT"
          ∷ (text "error code: " ++ hexadecimal error_code)
          ∷ stack_frame
          ∷ [])
        s)

  unfoldable pub stack_segment_fault_handler : ℕ → State D → Outcome D
  unfolding serial_lines panic_loop
  stack_segment_fault_handler error_code s = panic_loop (
      serial_lines
        ([]
          ∷ text "EXCEPTION: STACK SEGMENT FAULT"
          ∷ (text "error code: " ++ hexadecimal error_code)
          ∷ stack_frame
          ∷ [])
        s)

  unfoldable pub alignment_check_handler : ℕ → State D → Outcome D
  unfolding serial_lines panic_loop
  alignment_check_handler error_code s = panic_loop (
      serial_lines
        ([]
          ∷ text "EXCEPTION: ALIGNMENT CHECK"
          ∷ (text "error code: " ++ hexadecimal error_code)
          ∷ stack_frame
          ∷ [])
        s)

  unfoldable pub x87_floating_point_handler : State D → Outcome D
  unfolding serial_lines panic_loop
  x87_floating_point_handler s =
      panic_loop (serial_lines (text "EXCEPTION: x87 FLOATING POINT" ∷ stack_frame ∷ []) s)

  unfoldable pub simd_floating_point_handler : State D → Outcome D
  unfolding serial_lines panic_loop
  simd_floating_point_handler s =
      panic_loop (serial_lines (text "EXCEPTION: SIMD FLOATING POINT" ∷ stack_frame ∷ []) s)

  unfoldable pub virtualization_handler : State D → Outcome D
  unfolding serial_lines panic_loop
  virtualization_handler s =
      panic_loop (serial_lines (text "EXCEPTION: VIRTUALIZATION" ∷ stack_frame ∷ []) s)

  unfoldable pub device_not_available_handler : State D → Outcome D
  unfolding serial_lines panic_loop
  device_not_available_handler s =
      panic_loop (serial_lines (text "EXCEPTION: DEVICE NOT AVAILABLE" ∷ stack_frame ∷ []) s)

  unfoldable pub debug_handler : State D → Outcome D
  unfolding serial_lines
  debug_handler s = resumed (serial_lines (text "EXCEPTION: DEBUG" ∷ stack_frame ∷ []) s)

  unfoldable pub overflow_handler : State D → Outcome D
  unfolding serial_lines panic_loop
  overflow_handler s = panic_loop (serial_lines (text "EXCEPTION: OVERFLOW" ∷ stack_frame ∷ []) s)

  unfoldable pub bound_range_exceeded_handler : State D → Outcome D
  unfolding serial_lines panic_loop
  bound_range_exceeded_handler s =
      panic_loop (serial_lines (text "EXCEPTION: BOUND RANGE EXCEEDED" ∷ stack_frame ∷ []) s)

  unfoldable pub non_maskable_interrupt_handler : State D → Outcome D
  unfolding serial_lines panic_loop
  non_maskable_interrupt_handler s =
      panic_loop (serial_lines (text "EXCEPTION: NON-MASKABLE INTERRUPT" ∷ stack_frame ∷ []) s)

  unfoldable pub machine_check_handler : State D → Outcome D
  unfolding serial_lines panic_loop
  machine_check_handler s =
      panic_loop (serial_lines (text "EXCEPTION: MACHINE CHECK" ∷ stack_frame ∷ []) s)
