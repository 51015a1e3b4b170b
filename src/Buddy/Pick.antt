-- ===== src/Buddy/Pick.antt =====
-- The inner loop of `init` of src/kmem/heap/buddy.rs: the order of the next block.
use native.Mathlib.Numerals.{towards_suc}
use sill_os.Base.{
  ltb, leb, ℕ, zero, suc, ◌+◌, ◌-◌, ◌*◌, ◌%◌, ◌^◌, ◌≤◌, ◌≡◌, ap, ◌∙◌, true, false, arith, ◌==◌,
  Bool-cases, inl, inr, ◌&&◌,
}
use sill_os.Buddy.{min_order, pick_order, pick_loop, block_size}

-- A power of two from 64 upwards is a multiple of 64.
pub pow_64 : (order : ℕ) → min_order ≤ order → 2 ^ order ≡ 64 * 2 ^ (order - 6)
pow_64 order h =
    let e : order ≡ order - 6 + 6 = omega arith in
    ap (λ n. 2 ^ n) e ∙ simp towards_suc (omega arith)

-- A block of the order fits in the range at `addr` and is aligned.
abbrev pub Fits : ℕ → ℕ → ℕ → Type 0
Fits addr remaining order = (min_order ≤ order) × (2 ^ order ≤ remaining) × (addr % 2 ^ order ≡ 0)

module _ (addr remaining : ℕ) (aligned : addr % 64 ≡ 0) (enough : 64 ≤ remaining) where
  module _ (rounds order : ℕ) (e : suc rounds + min_order ≡ order) where
    pick_loop-fits :
        (leb (2 ^ order) remaining && addr % 2 ^ order == 0) ≡ true
        → pick_loop (suc rounds) addr remaining order ≡ order
    pick_loop-fits fits =
        let above : ltb min_order order ≡ true = ground arith in
        unfold pick_loop block_size in rw (above, fits)

    pick_loop-misfit :
        (leb (2 ^ order) remaining && addr % 2 ^ order == 0) ≡ false
        → pick_loop (suc rounds) addr remaining order ≡ pick_loop rounds addr remaining (order - 1)
    pick_loop-misfit misfit =
        let above : ltb min_order order ≡ true = ground arith in
        unfold pick_loop block_size in rw (above, misfit)

  pick_loop-Fits :
      (rounds order : ℕ)
      → rounds + min_order ≡ order
      → Fits addr remaining (pick_loop rounds addr remaining order)
        × (pick_loop rounds addr remaining order ≤ order)
  pick_loop-Fits zero order e =
      unfold pick_loop in rw (← e) ((omega arith, enough, aligned), omega arith)
  pick_loop-Fits (suc rounds) order e =
      elim (Bool-cases (leb (2 ^ order) remaining && addr % 2 ^ order == 0)) [
        | inl fits ↦
            rw (pick_loop-fits rounds order e fits)
              ((omega arith, ground arith, ground arith), omega arith)
        | inr misfit ↦
            let rest = pick_loop-Fits rounds (order - 1) (omega arith) in
            rw (pick_loop-misfit rounds order e misfit) (rest.0, omega (arith, rest.1))
      ]

  pub pick_order-Fits :
      (top : ℕ)
      → min_order ≤ top
      → Fits addr remaining (pick_order top addr remaining) × (pick_order top addr remaining ≤ top)
  pick_order-Fits top lo = unfold pick_order in pick_loop-Fits (top - min_order) top (omega arith)
