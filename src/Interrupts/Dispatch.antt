-- ===== src/Interrupts/Dispatch.antt =====
-- The hardware interrupts of src/int.rs, and the descriptor table.
use sill_os.Base.{ℕ, Option, none, some, Text}
use sill_os.Kmem.Figures.{Machine}
use sill_os.Shell.{Kernel, End, running}
use sill_os.Shell.Execute.{breakpoint_handler, receive_key}
use sill_os.Interrupts.{
  State, Outcome, resumed, ended, Interrupt, DecodedKey, unicode, raw_key, timer_index,
  keyboard_index, end_of_interrupt, breakpoint, timer, keyboard, double_fault,
  general_protection_fault, invalid_opcode, page_fault, divide_error, invalid_tss,
  segment_not_present, stack_segment_fault, alignment_check, x87_floating_point,
  simd_floating_point, virtualization, device_not_available, debug, overflow, bound_range_exceeded,
  non_maskable_interrupt, machine_check,
}
use sill_os.Interrupts.Faults.{
  double_fault_handler, general_protection_fault_handler, invalid_opcode_handler,
  page_fault_handler, divide_error_handler, invalid_tss_handler, segment_not_present_handler,
  stack_segment_fault_handler, alignment_check_handler, x87_floating_point_handler,
  simd_floating_point_handler, virtualization_handler, device_not_available_handler, debug_handler,
  overflow_handler, bound_range_exceeded_handler, non_maskable_interrupt_handler,
  machine_check_handler,
}

-- The keyboard's crate: `add_byte` gives a key event, nothing yet, or an error, which is `none`;
-- `process_keyevent` decodes an event.
module _ {D E : Type 0} (add_byte : D → ℕ → D × Option (Option E))
    (process_keyevent : D → E → D × Option DecodedKey) (stack_frame : Text)
    (machine : Machine) where
  unfoldable pub timer_interrupt_handler : State D → Outcome D
  unfolding end_of_interrupt
  timer_interrupt_handler s = resumed (end_of_interrupt timer_index s)

  -- A handler goes on where a call has returned.
  abbrev pub resume : (State D → State D) → State D → End → Outcome D
  resume next s (running k) = resumed (next (record s { kernel = k }))
  resume next s e = ended e

  -- The decoded key goes to the console.
  unfoldable pub receive_decoded : Option DecodedKey → Kernel → End
  unfolding receive_key
  receive_decoded none k = running k
  receive_decoded (some (raw_key key)) k = running k
  receive_decoded (some (unicode character)) k = receive_key stack_frame machine k character

  -- The key that the byte completes.
  unfoldable pub decode : D × Option (Option E) → D × Option DecodedKey
  decode (d, none) = (d, none)
  decode (d, some none) = (d, none)
  decode (d, some (some key_event)) = process_keyevent d key_event

  -- `scancode` is what the read of port 0x60 gives.
  unfoldable pub keyboard_interrupt_handler : ℕ → State D → Outcome D
  unfolding end_of_interrupt receive_decoded decode
  keyboard_interrupt_handler scancode s =
      let (d, key) = decode (add_byte s.keyboard scancode) in
      resume (end_of_interrupt keyboard_index) (record s { keyboard = d })
        (receive_decoded key s.kernel)

  -- The descriptor table.
  unfoldable pub handle : Interrupt → State D → Outcome D
  unfolding timer_interrupt_handler keyboard_interrupt_handler breakpoint_handler
  handle breakpoint s = resume (λ t. t) s (breakpoint_handler stack_frame machine s.kernel)
  handle (double_fault error_code) s = double_fault_handler stack_frame error_code s
  handle (general_protection_fault error_code) s =
      general_protection_fault_handler stack_frame error_code s
  handle invalid_opcode s = invalid_opcode_handler stack_frame s
  handle (page_fault address error_code) s = page_fault_handler stack_frame address error_code s
  handle divide_error s = divide_error_handler stack_frame s
  handle (invalid_tss error_code) s = invalid_tss_handler stack_frame error_code s
  handle (segment_not_present error_code) s = segment_not_present_handler stack_frame error_code s
  handle (stack_segment_fault error_code) s = stack_segment_fault_handler stack_frame error_code s
  handle (alignment_check error_code) s = alignment_check_handler stack_frame error_code s
  handle x87_floating_point s = x87_floating_point_handler stack_frame s
  handle simd_floating_point s = simd_floating_point_handler stack_frame s
  handle virtualization s = virtualization_handler stack_frame s
  handle device_not_available s = device_not_available_handler stack_frame s
  handle debug s = debug_handler stack_frame s
  handle overflow s = overflow_handler stack_frame s
  handle bound_range_exceeded s = bound_range_exceeded_handler stack_frame s
  handle non_maskable_interrupt s = non_maskable_interrupt_handler stack_frame s
  handle machine_check s = machine_check_handler stack_frame s
  handle timer s = timer_interrupt_handler s
  handle (keyboard scancode) s = keyboard_interrupt_handler scancode s
