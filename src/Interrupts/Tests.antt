-- ===== src/Interrupts/Tests.antt =====
-- Interrupts on the kernel of the shell's tests, with a decoder that takes each byte
-- for a character, but 224 for the first byte of a longer code.
use sill_os.Base.{◌==◌, none, if◌then◌else◌, ℕ, ◌+◌, refl, ◌≡◌, Option, some, [], ◌∷◌, text}
use sill_os.Shell.Parsing.{hexadecimal}
use sill_os.Shell.Tests.{machine, kernel, kernel-Sound, ls-Harmless}
use sill_os.Interrupts.{
  State, resumed, DecodedKey, unicode, keyboard, timer, double_fault, stopped, serial_lines,
}
use sill_os.Interrupts.Faults.{double_fault_handler}
use sill_os.Interrupts.Dispatch.{handle, timer_interrupt_handler, keyboard_interrupt_handler}
use sill_os.Interrupts.Runs.{Reaches, start, step, Follows, Reaches-Follows}
use sill_os.Interrupts.Handled.{Handles, handle-Handles}

abbrev add_byte : ℕ → ℕ → ℕ × Option (Option ℕ)
add_byte d byte = (d + 1, if byte == 224 then some none else some (some byte))

abbrev process_keyevent : ℕ → ℕ → ℕ × Option DecodedKey
process_keyevent d key_event = (d, some (unicode key_event))

abbrev state : State ℕ
state = record { kernel = kernel; keyboard = 0; acknowledged = [] }

timer-handle :
    handle add_byte process_keyevent [] machine timer state
    ≡ resumed (record state { acknowledged = 32 ∷ [] })
unfolding handle timer_interrupt_handler
timer-handle = refl

double_fault-handle :
    handle add_byte process_keyevent (text "frame") machine (double_fault 16) state
    ≡ stopped (
        serial_lines
          ([] ∷ text "EXCEPTION: DOUBLE FAULT" ∷ text "error code: 0x10" ∷ text "frame" ∷ [])
          state)
unfolding handle double_fault_handler hexadecimal
double_fault-handle = refl

handle-Handles_example :
    Handles (keyboard 13) state (handle add_byte process_keyevent [] machine (keyboard 13) state)
handle-Handles_example =
    handle-Handles add_byte process_keyevent [] machine state kernel-Sound ls-Harmless (keyboard 13)

-- The timer, then the first byte of a longer code.
abbrev later : State ℕ
later = record state { keyboard = 1; acknowledged = 33 ∷ 32 ∷ [] }

Reaches-later : Reaches add_byte process_keyevent [] machine state (keyboard 224 ∷ timer ∷ []) later
unfolding handle timer_interrupt_handler keyboard_interrupt_handler
Reaches-later = step (step start ls-Harmless timer refl) ls-Harmless (keyboard 224) refl

Reaches-Follows_example :
    Follows add_byte process_keyevent [] machine state (keyboard 224 ∷ timer ∷ []) later
Reaches-Follows_example =
    Reaches-Follows add_byte process_keyevent [] machine kernel-Sound Reaches-later
