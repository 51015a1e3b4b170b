-- ===== src/Interrupts/Runs.antt =====
-- Runs of the kernel from interrupt to interrupt, by the handlers of src/int.rs.
use mathlib.Core.List.{append_assoc}
use sill_os.Base.{ℕ, ◌≡◌, ◌∙◌, refl, sym, ap, subst, false, Option, List, [], ◌∷◌, ◌++◌, Text}
use sill_os.Kmem.Figures.{Machine}
use sill_os.Shell.Parsing.{split_whitespace}
use sill_os.Shell.Printing.{Sound}
use sill_os.Shell.Keys.{Harmless, typed}
use sill_os.Interrupts.{State, resumed, Interrupt, DecodedKey}
use sill_os.Interrupts.Dispatch.{handle}
use sill_os.Interrupts.Handled.{Handles, handle-Handles, is_fault, to_acknowledge}

-- What the controller has been told of some interrupts, the last one first.
abbrev pub acknowledgements : List Interrupt → List ℕ
acknowledgements [] = []
acknowledgements (i ∷ is) = to_acknowledge i ++ acknowledgements is

-- None of them is a fault.
abbrev pub NoFault : List Interrupt → Type 0
NoFault [] = Unit {0}
NoFault (i ∷ is) = (is_fault i ≡ false) × NoFault is

module _ {D E : Type 0} (add_byte : D → ℕ → D × Option (Option E))
    (process_keyevent : D → E → D × Option DecodedKey) (stack_frame : Text)
    (machine : Machine) where
  -- From `s` the kernel comes to a state by interrupts, the last one first, whose handlers return.
  -- The line typed before each of them is harmless.
  pub data Reaches (s : State D) : List Interrupt → State D → Type 0 where
    start : Reaches s [] s
    step :
        {is : List Interrupt} {t : State D}
        → Reaches s is t
        → Harmless (split_whitespace (typed t.kernel.console))
        → (i : Interrupt) {u : State D}
        → handle add_byte process_keyevent stack_frame machine i t ≡ resumed u
        → Reaches s (i ∷ is) u

  -- The state after interrupts, from a state before them.
  pub record Follows (s : State D) (is : List Interrupt) (t : State D) : Type 0 where
    pub valid : Sound t.kernel
    pub told : t.acknowledged ≡ acknowledgements is ++ s.acknowledged
    pub no_fault : NoFault is

  step-Follows :
      (s t u : State D) (is : List Interrupt) (i : Interrupt)
      → Follows s is t
      → Handles i t (resumed u)
      → Follows s (i ∷ is) u
  step-Follows s t u is i f h = record {
    valid = h.1;
    told =
        h.2
        ∙ ap (λ told. to_acknowledge i ++ told) f.told
        ∙ sym (append_assoc (to_acknowledge i) (acknowledgements is) s.acknowledged);
    no_fault = (h.0, f.no_fault);
  }

  -- For any crate that decodes the keyboard's bytes, a kernel whose console, file system and heap
  -- are valid, and any state that it reaches by interrupts whose handlers return, where the words
  -- of the line typed before each one do not begin with panic, nor with dealloc!, nor with setbg
  -- and the name of a colour other than black: the console, the file system and the heap are valid,
  -- the controller has been told the end of each interrupt of the timer and of the keyboard once
  -- and of no other, in their order, and none of the interrupts was a fault. The memory that the
  -- file system takes from the heap is not counted.
  pub Reaches-Follows :
      {s t : State D} {is : List Interrupt} → Sound s.kernel → Reaches s is t → Follows s is t
  Reaches-Follows v start = record { valid = v; told = refl; no_fault = tt }
  Reaches-Follows {s} v (step {is} {t} reached harmless i {u} returned) =
      let f = Reaches-Follows v reached in
      step-Follows s t u is i f (
        subst (Handles i t) returned
          (handle-Handles add_byte process_keyevent stack_frame machine t f.valid harmless i))
