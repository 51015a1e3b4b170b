-- ===== src/Console/Cells.antt =====
-- The cell buffer of src/console.rs under the moves of `scroll`.
use sill_os.Base.{
  ℕ, zero, suc, ◌+◌, ◌-◌, ◌*◌, ◌≤◌, ◌<◌, ◌≡◌, ap, sym, ◌∙◌, true, false, ◌&&◌, ltb, leb,
  if◌then◌else◌, if_true, if_false, Bool-cases, inl, inr, arith,
}
use sill_os.Console.{Cell, copy_within, shift_rows}

module _ (columns column : ℕ) (narrow : columns ≤ 240) (inside : column < columns) where
  copy_within-cell :
      (cells : ℕ → Cell) (src dst row : ℕ)
      → copy_within cells (src * 240) columns (dst * 240) (row * 240 + column) ≡ (
          if leb dst row && leb row dst
          then cells (src * 240 + column)
          else cells (row * 240 + column))
  copy_within-cell cells src dst row = elim (Bool-cases (leb dst row && leb row dst)) [
    | inl same ↦
        let t : (leb (dst * 240) (row * 240 + column)
              && ltb (row * 240 + column) (dst * 240 + columns))
            ≡ true =
          ground arith in
        unfold copy_within in if_true _ _ t ∙ ap cells (ground arith) ∙ sym (if_true _ _ same)
    | inr other ↦
        let f : (leb (dst * 240) (row * 240 + column)
              && ltb (row * 240 + column) (dst * 240 + columns))
            ≡ false =
          ground arith in
        unfold copy_within in if_false _ _ f ∙ sym (if_false _ _ other)
  ]

  shift_rows-suc :
      (n : ℕ) (cells : ℕ → Cell) (to : ℕ)
      → shift_rows (suc n) cells columns (to + 1)
        ≡ shift_rows n (copy_within cells ((to + 1) * 240) columns (to * 240)) columns (to + 1 + 1)
  shift_rows-suc n cells to =
      let back : to + 1 - 1 ≡ to = omega arith in unfold shift_rows in rw back

  -- The loop moves `n` rows up by one, to the rows from `to` on.
  pub shift_rows-cell :
      (n : ℕ) (cells : ℕ → Cell) (to row : ℕ)
      → shift_rows n cells columns (to + 1) (row * 240 + column) ≡ (
          if leb to row && ltb row (to + n)
          then cells ((row + 1) * 240 + column)
          else cells (row * 240 + column))
  shift_rows-cell zero cells to row =
      let none_moved : (leb to row && ltb row (to + zero)) ≡ false = ground arith in
      unfold shift_rows in sym (if_false _ _ none_moved)
  shift_rows-cell (suc n) cells to row =
      ap (λ g. g (row * 240 + column)) (shift_rows-suc n cells to)
      ∙ shift_rows-cell n next (to + 1) row
      ∙ elim (Bool-cases (leb (to + 1) row && ltb row (to + 1 + n))) [
        | inl later ↦
            let away : (leb to (row + 1) && leb (row + 1) to) ≡ false = ground arith in
            let moved : (leb to row && ltb row (to + suc n)) ≡ true = ground arith in
            if_true _ _ later
            ∙ copy_within-cell cells (to + 1) to (row + 1)
            ∙ if_false _ _ away
            ∙ sym (if_true _ _ moved)
        | inr now ↦ if_false _ _ now ∙ copy_within-cell cells (to + 1) to row ∙ first now
      ]
    where
      next : ℕ → Cell
      next = copy_within cells ((to + 1) * 240) columns (to * 240)

      first :
          (leb (to + 1) row && ltb row (to + 1 + n)) ≡ false
          → (if leb to row && leb row to
              then cells ((to + 1) * 240 + column)
              else cells (row * 240 + column))
            ≡ (if leb to row && ltb row (to + suc n)
                then cells ((row + 1) * 240 + column)
                else cells (row * 240 + column))
      first now = elim (Bool-cases (leb to row && leb row to)) [
        | inl here ↦
            let moved : (leb to row && ltb row (to + suc n)) ≡ true = ground arith in
            if_true _ _ here ∙ ap cells (ground arith) ∙ sym (if_true _ _ moved)
        | inr beyond ↦
            let still : (leb to row && ltb row (to + suc n)) ≡ false = ground arith in
            if_false _ _ beyond ∙ sym (if_false _ _ still)
      ]
