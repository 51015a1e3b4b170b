-- ===== src/Acpi/Reset.antt =====
-- What `reboot` and `fallback_reboot` of src/acpi.rs do to the machine.
use Prim.Native.Nat.{bit_and}
use sill_os.Base.{
  ℕ, zero, suc, ◌+◌, ◌-◌, ◌^◌, ◌≤◌, ◌<◌, ◌≡◌, ◌∙◌, ◌⊎◌, ap, subst, inl, inr, refl, Bool, true,
  false, Option, none, some, List, [], ◌∷◌, ◌++◌, arith, ltb, ◌==◌, ==_iff, Bool-cases, if_true,
  if_false,
}
use sill_os.Acpi.{
  ResetInfo, Action, disable_interrupts, read_port, write_port, triple_fault, wait_loop, polls,
  fallback_reboot, reset_write, reboot,
}

abbrev pub is_ready : ℕ → Bool
is_ready byte = bit_and byte 0x02 == 0

abbrev pub reads : ℕ → List Action
reads zero = []
reads (suc n) = read_port 0x64 ∷ reads n

-- The controller is read until it is ready, at most `rounds` times.
pub record Waits (status : ℕ → ℕ) (i rounds : ℕ) (actions : List Action) : Type 0 where
  pub count : ℕ
  pub only : actions ≡ reads count
  pub bounded : count ≤ rounds
  pub busy : (j : ℕ) → j + 1 < count → is_ready (status (i + j)) ≡ false
  pub last : ((0 < count) × (is_ready (status (i + (count - 1))) ≡ true)) ⊎ (count ≡ rounds)

module _ (status : ℕ → ℕ) where
  Waits-ready :
      (i rounds : ℕ)
      → is_ready (status i) ≡ true
      → Waits status i (suc rounds) (wait_loop status i (suc rounds))
  Waits-ready i rounds h = record {
    count = 1;
    only = unfold wait_loop in rw h;
    bounded = omega arith;
    busy = λ j below. absurd (omega arith);
    last = inl (omega arith, let e : i + (1 - 1) ≡ i = omega arith in rw e h);
  }

  later_busy :
      (i count : ℕ)
      → is_ready (status i) ≡ false
      → ((j : ℕ) → j + 1 < count → is_ready (status (i + 1 + j)) ≡ false)
      → (j : ℕ) → j + 1 < suc count
      → is_ready (status (i + j)) ≡ false
  later_busy i count h rest zero below = let e : i + 0 ≡ i = omega arith in rw e h
  later_busy i count h rest (suc j) below =
      let e : i + suc j ≡ i + 1 + j = omega arith in rw e (rest j (omega arith))

  later_last :
      (i rounds count : ℕ)
      → is_ready (status i) ≡ false
      → ((0 < count) × (is_ready (status (i + 1 + (count - 1))) ≡ true)) ⊎ (count ≡ rounds)
      → ((0 < suc count) × (is_ready (status (i + (suc count - 1))) ≡ true))
        ⊎ (suc count ≡ suc rounds)
  later_last i rounds count h (inr e) = inr (omega arith)
  later_last i rounds zero h (inl e) = absurd (omega arith)
  later_last i rounds (suc count) h (inl e) =
      let same : i + 1 + (suc count - 1) ≡ i + (suc (suc count) - 1) = omega arith in
      inl (omega arith, subst (λ n. is_ready (status n) ≡ true) same e.1)

  Waits-busy :
      (i rounds : ℕ)
      → is_ready (status i) ≡ false
      → Waits status (i + 1) rounds (wait_loop status (i + 1) rounds)
      → Waits status i (suc rounds) (wait_loop status i (suc rounds))
  Waits-busy i rounds h t = record {
    count = suc t.count;
    only = unfold wait_loop in rw h (ap (λ (l : List Action). read_port 0x64 ∷ l) t.only);
    bounded = omega (arith, t.bounded);
    busy = later_busy i t.count h t.busy;
    last = later_last i rounds t.count h t.last;
  }

  wait_loop-Waits : (rounds i : ℕ) → Waits status i rounds (wait_loop status i rounds)
  wait_loop-Waits zero i = record {
    count = 0;
    only = unfold wait_loop in refl;
    bounded = omega arith;
    busy = λ j below. absurd (omega arith);
    last = inr refl;
  }
  wait_loop-Waits (suc rounds) i = elim (Bool-cases (is_ready (status i))) [
    | inl ready ↦ Waits-ready i rounds ready
    | inr busy ↦ Waits-busy i rounds busy (wait_loop-Waits rounds (i + 1))
  ]

-- The reset register is written if it is a port of 16 bits.
abbrev pub IsPort : Option ResetInfo → Type 0
IsPort none = ⊥
IsPort (some reset) = (reset.address_space ≡ 1) × (reset.address < 2 ^ 16)

abbrev pub register_write : Option ResetInfo → List Action
register_write none = []
register_write (some reset) = write_port reset.address reset.value ∷ []

reset_write-cases :
    (info : Option ResetInfo)
    → (IsPort info × (reset_write info ≡ register_write info))
      ⊎ ((¬ IsPort info) × (reset_write info ≡ []))
unfolding reset_write
reset_write-cases none = inr (λ h. h, refl)
reset_write-cases (some reset) = elim (Bool-cases (reset.address_space == 1)) [
  | inl io ↦ elim (Bool-cases (ltb (2 ^ 16 - 1) reset.address)) [
    | inl wide ↦ inr (λ h. ground arith, if_true _ _ io ∙ if_true _ _ wide)
    | inr fits ↦
        inl
          (((==_iff reset.address_space 1).0 io, ground arith), if_true _ _ io ∙ if_false _ _ fits)
  ]
  | inr other ↦ inr (λ h. ground arith, if_false _ _ other)
]

-- The actions of a reset: the register's write, the wait, the controller's command and the fault.
pub record Resets (status : ℕ → ℕ) (info : Option ResetInfo) (actions : List Action) : Type 0 where
  pub written : List Action
  pub waited : List Action
  pub parts :
      actions
      ≡ disable_interrupts ∷ (written ++ (waited ++ write_port 0x64 0xFE ∷ triple_fault ∷ []))
  pub register :
      (IsPort info × (written ≡ register_write info)) ⊎ ((¬ IsPort info) × (written ≡ []))
  pub waits : Waits status 0 polls waited

-- For any answers of the keyboard controller and any state: reboot disables interrupts, writes the
-- value of the reset register to its port exactly if there is one of address space 1 whose address
-- has 16 bits, then reads port 0x64, at most 100,000 times and as long as the controller is busy,
-- then writes the command 0xFE, and ends in the triple fault.
pub reboot-Resets :
    (status : ℕ → ℕ) (info : Option ResetInfo) → Resets status info (reboot status info)
unfolding reboot fallback_reboot
reboot-Resets status info = record {
  written = reset_write info;
  waited = wait_loop status 0 polls;
  parts = refl;
  register = reset_write-cases info;
  waits = wait_loop-Waits status polls 0;
}
