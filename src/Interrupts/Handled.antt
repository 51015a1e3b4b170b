-- ===== src/Interrupts/Handled.antt =====
-- What every handler of src/int.rs leaves.
use sill_os.Base.{
  ◌⊎◌, inl, inr, ℕ, ◌≡◌, refl, sym, subst, Bool, true, false, Option, none, some, List, [], ◌∷◌,
  ◌++◌, Text, text,
}
use sill_os.Buddy.Valid.{HeapValid}
use sill_os.Fb.{red}
use sill_os.Kmem.Figures.{Machine}
use sill_os.Shell.{Kernel, End, rebooting, exiting}
use sill_os.Shell.Parsing.{split_whitespace}
use sill_os.Shell.Execute.{breakpoint_handler}
use sill_os.Shell.Printing.{Sound, Kept, runs, reboots, exits}
use sill_os.Shell.Analyzed.{print_lines_color-Prints}
use sill_os.Shell.Keys.{Harmless, typed, receive_key-Kept}
use sill_os.Interrupts.{
  State, Outcome, resumed, stopped, ended, Interrupt, DecodedKey, unicode, raw_key, timer_index,
  keyboard_index, end_of_interrupt, breakpoint, timer, keyboard, debug,
}
use sill_os.Interrupts.Faults.{
  debug_handler, double_fault_handler, general_protection_fault_handler, invalid_opcode_handler,
  page_fault_handler, divide_error_handler, invalid_tss_handler, segment_not_present_handler,
  stack_segment_fault_handler, alignment_check_handler, x87_floating_point_handler,
  simd_floating_point_handler, virtualization_handler, device_not_available_handler,
  overflow_handler, bound_range_exceeded_handler, non_maskable_interrupt_handler,
  machine_check_handler,
}
use sill_os.Interrupts.Dispatch.{
  timer_interrupt_handler, keyboard_interrupt_handler, resume, receive_decoded, decode, handle,
}

-- The exceptions after which the kernel does not go on.
abbrev pub is_fault : Interrupt → Bool
is_fault breakpoint = false
is_fault debug = false
is_fault timer = false
is_fault (keyboard scancode) = false
is_fault _ = true

-- What the controller is to be told of an interrupt.
abbrev pub to_acknowledge : Interrupt → List ℕ
to_acknowledge timer = timer_index ∷ []
to_acknowledge (keyboard scancode) = keyboard_index ∷ []
to_acknowledge _ = []

-- The kernel has ended in the restart or in leaving the machine.
pub data Leaves : End → Type 0 where
  restarts : (k : Kernel) → Leaves (rebooting k)
  leaves : (k : Kernel) → Leaves (exiting k)

-- Only the serial port has got something.
pub record OnlySerial {D : Type 0} (s t : State D) : Type 0 where
  pub console : t.kernel.console ≡ s.kernel.console
  pub mirror : t.kernel.mirror ≡ s.kernel.mirror
  pub files : t.kernel.files ≡ s.kernel.files
  pub heap : t.kernel.heap ≡ s.kernel.heap
  pub keyboard : t.keyboard ≡ s.keyboard
  pub acknowledged : t.acknowledged ≡ s.acknowledged

-- The files and the heap are as before.
abbrev pub Stored : Kernel → Kernel → Type 0
Stored k j = (j.files ≡ k.files) × (j.heap ≡ k.heap)

abbrev pub Handles : {D : Type 0} → Interrupt → State D → Outcome D → Type 0
Handles i s (resumed t) =
    (is_fault i ≡ false)
    × Sound t.kernel
    × (t.acknowledged ≡ to_acknowledge i ++ s.acknowledged)
    × ((to_acknowledge i ≡ keyboard_index ∷ []) ⊎ Stored s.kernel t.kernel)
Handles i s (stopped t) = (is_fault i ≡ true) × OnlySerial s t
Handles i s (ended e) = (to_acknowledge i ≡ keyboard_index ∷ []) × Leaves e

module _ {D E : Type 0} (add_byte : D → ℕ → D × Option (Option E))
    (process_keyevent : D → E → D × Option DecodedKey) (stack_frame : Text) (machine : Machine)
    (s : State D) (v : Sound s.kernel) where
  resume-Handles :
      (scancode : ℕ) (d : D) {e : End}
      → Kept e
      → Handles (keyboard scancode) s (
          resume add_byte process_keyevent stack_frame machine
            (end_of_interrupt keyboard_index)
            (record s { keyboard = d })
            e)
  unfolding end_of_interrupt
  resume-Handles scancode d (runs k w) = (refl, w, refl, inl refl)
  resume-Handles scancode d (reboots k) = (refl, restarts k)
  resume-Handles scancode d (exits k) = (refl, leaves k)

  breakpoint-Handles :
      Handles breakpoint s (handle add_byte process_keyevent stack_frame machine breakpoint s)
  unfolding handle breakpoint_handler
  breakpoint-Handles =
      let said : Kernel = record s.kernel {
        serial = s.kernel.serial ++ (text "EXCEPTION: BREAKPOINT" ++ 10 ∷ (stack_frame ++ 10 ∷ []));
      } in
      let (j, e, p) =
        print_lines_color-Prints red (text "EXCEPTION: BREAKPOINT" ∷ stack_frame ∷ []) said
          (record { console = v.console; files = v.files }) in
      subst
        (λ r.
          Handles breakpoint s (resume add_byte process_keyevent stack_frame machine (λ t. t) s r))
        (sym e)
        (
          refl,
          record {
            console = p.valid.console;
            files = p.valid.files;
            heap = subst HeapValid (sym p.heap) v.heap;
          },
          refl,
          inr (p.files, p.heap),
        )

  module _ (harmless : Harmless (split_whitespace (typed s.kernel.console))) where
    receive_decoded-Kept :
        (key : Option DecodedKey)
        → Kept (receive_decoded add_byte process_keyevent stack_frame machine key s.kernel)
    unfolding receive_decoded
    receive_decoded-Kept none = runs s.kernel v
    receive_decoded-Kept (some (raw_key key)) = runs s.kernel v
    receive_decoded-Kept (some (unicode character)) =
        receive_key-Kept stack_frame machine s.kernel v character harmless

    -- For any crate that decodes the keyboard's bytes, on a kernel whose console, file system and
    -- heap are valid and where the words of the line typed so far do not begin with panic, nor with
    -- dealloc!, nor with setbg and the name of a colour other than black, and for any interrupt:
    -- where its handler returns, it is no fault, the console, the file system and the heap are
    -- valid, and the interrupt controller has been told the end of the interrupt once if it is the
    -- timer's or the keyboard's, and of no other, and no interrupt but the keyboard's has changed
    -- the files or the heap. Where the handler stops in panic_loop, it is a fault, and nothing but
    -- the output of the serial port has changed. Otherwise the interrupt is the keyboard's, and the
    -- kernel has ended in the calls that restart or leave the machine. The memory that the file
    -- system takes from the heap is not counted.
    pub handle-Handles :
        (i : Interrupt) → Handles i s (handle add_byte process_keyevent stack_frame machine i s)
    unfolding handle timer_interrupt_handler keyboard_interrupt_handler end_of_interrupt
        debug_handler double_fault_handler general_protection_fault_handler invalid_opcode_handler
        page_fault_handler divide_error_handler invalid_tss_handler segment_not_present_handler
        stack_segment_fault_handler alignment_check_handler x87_floating_point_handler
        simd_floating_point_handler virtualization_handler device_not_available_handler
        overflow_handler bound_range_exceeded_handler non_maskable_interrupt_handler
        machine_check_handler
    handle-Handles breakpoint = breakpoint-Handles
    handle-Handles debug = (
      refl,
      record { console = v.console; files = v.files; heap = v.heap },
      refl,
      inr (refl, refl),
    )
    handle-Handles timer = (refl, v, refl, inr (refl, refl))
    handle-Handles (keyboard scancode) =
        let r =
          decode add_byte process_keyevent stack_frame machine (add_byte s.keyboard scancode) in
        resume-Handles scancode r.0 (receive_decoded-Kept r.1)
    handle-Handles _ = (
      refl,
      record {
        console = refl;
        mirror = refl;
        files = refl;
        heap = refl;
        keyboard = refl;
        acknowledged = refl;
      },
    )
