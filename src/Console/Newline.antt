-- ===== src/Console/Newline.antt =====
-- `newline` of src/console.rs.
use sill_os.Base.{
  ◌+◌, ◌-◌, ◌≤◌, ◌<◌, ◌≡◌, refl, sym, subst, ◌∙◌, true, false, ltb, ◌==◌, if_true, if_false,
  Bool-cases, inl, inr, arith, min,
}
use sill_os.Console.{Console, input_size, scroll, newline}
use sill_os.Console.Scroll.{scroll_eq, scroll-Displays}
use sill_os.Console.Synced.{SameInput, Displays, IsValid}

newline-none : (c : Console) → (c.rows == 0) ≡ true → newline c ≡ record c { cursor_x = 0 }
newline-none c no_rows = unfold newline in if_true _ _ no_rows

newline-down :
    (c : Console)
    → (c.rows == 0) ≡ false
    → ltb (c.cursor_y + 1) c.rows ≡ true
    → newline c ≡ record c { cursor_x = 0; cursor_y = c.cursor_y + 1 }
newline-down c some_rows room = unfold newline in if_false _ _ some_rows ∙ if_true _ _ room

newline-scroll :
    (c : Console)
    → (c.rows == 0) ≡ false
    → ltb (c.cursor_y + 1) c.rows ≡ false
    → newline c ≡ scroll (record c { cursor_x = 0 })
newline-scroll c some_rows full = unfold newline in if_false _ _ some_rows ∙ if_false _ _ full

-- What `newline` does to the cursor, and what it leaves.
pub record NextLine (c d : Console) : Type 0 where
  pub displays : Displays d
  pub column : d.cursor_x ≡ 0
  pub columns : d.columns ≡ c.columns
  pub rows : d.rows ≡ c.rows
  pub line : SameInput c d
  pub row : 0 < c.rows → d.cursor_y ≡ min (c.cursor_y + 1) (c.rows - 1)

scroll-NextLine :
    (c : Console)
    → Displays c
    → 0 < c.rows
    → c.rows ≤ c.cursor_y + 1
    → NextLine c (scroll (record c { cursor_x = 0 }))
scroll-NextLine c d some_rows full =
    subst (NextLine c) (sym (scroll_eq (record c { cursor_x = 0 }) some_rows)) (record {
      displays =
          subst Displays (scroll_eq (record c { cursor_x = 0 }) some_rows)
            (scroll-Displays (record c { cursor_x = 0 }) d some_rows);
      column = refl;
      columns = refl;
      rows = refl;
      line = (refl, refl, refl);
      row = λ h. omega arith;
    })

-- On a console whose background is black and whose screen shows its cells, newline puts the cursor
-- at the first column of the next row, or of the last row where there is no next one, leaves the
-- input line as it is, and the screen shows the cells.
pub newline-NextLine : (c : Console) → Displays c → NextLine c (newline c)
newline-NextLine c d = elim (Bool-cases (c.rows == 0)) [
  | inl no_rows ↦ subst (NextLine c) (sym (newline-none c no_rows)) (record {
    displays = d;
    column = refl;
    columns = refl;
    rows = refl;
    line = (refl, refl, refl);
    row = λ h. absurd (ground arith);
  })
  | inr some_rows ↦ elim (Bool-cases (ltb (c.cursor_y + 1) c.rows)) [
    | inl room ↦ subst (NextLine c) (sym (newline-down c some_rows room)) (record {
      displays = d;
      column = refl;
      columns = refl;
      rows = refl;
      line = (refl, refl, refl);
      row = λ h. ground arith;
    })
    | inr full ↦
        subst (NextLine c) (sym (newline-scroll c some_rows full))
          (scroll-NextLine c d (ground arith) (ground arith))
  ]
]

pub newline-IsValid : (c : Console) → Displays c → c.input_len ≤ input_size → IsValid (newline c)
newline-IsValid c d fits =
    let n = newline-NextLine c d in
    record {
      displays = n.displays;
      column = λ h. omega (arith, n.column, h);
      row = λ h. omega (arith, n.row (omega (arith, n.rows, h)), n.rows, h);
      input = omega (arith, n.line.1, fits);
    }
