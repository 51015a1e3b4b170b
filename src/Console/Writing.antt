-- ===== src/Console/Writing.antt =====
-- `write_cell`, `backspace` and the tabulator of src/console.rs on a valid console.
use sill_os.Base.{
  ℕ, ◌+◌, ◌-◌, ◌*◌, ◌/◌, ◌≤◌, ◌<◌, ◌≡◌, refl, ap, sym, subst, ◌∙◌, true, false, Option, some, ◌&&◌,
  ◌||◌, ltb, leb, ◌==◌, if_true, if_false, Bool-cases, inl, inr, arith, update,
}
use sill_os.Fb.{Framebuffer}
use sill_os.Console.{
  Cell, Console, empty, set_cell, render_cell, newline, advance, write_cell, write_here,
  advance_all, step_back, backspace, tab,
}
use sill_os.Console.Synced.{SameInput, Displays, IsValid, view-below}
use sill_os.Console.Newline.{newline-IsValid, newline-NextLine}
use sill_os.Console.Place.{place-Displays}

-- An operation that does not panic, leaves a valid console and does not touch the input line.
abbrev pub Succeeds : Console → Option Console → Type 0
Succeeds c r = (d : Console) × (r ≡ some d) × IsValid d × SameInput c d

pub SameInput-trans : (c d e : Console) → SameInput c d → SameInput d e → SameInput c e
SameInput-trans c d e p q = (q.0 ∙ p.0, q.1 ∙ p.1, q.2 ∙ p.2)

-- The same for an operation that cannot panic.
abbrev Keeps : Console → Console → Type 0
Keeps c d = IsValid d × SameInput c d

pub newline-Keeps : (c : Console) → Displays c → c.input_len ≤ 256 → Keeps c (newline c)
newline-Keeps c d fits = (newline-IsValid c d fits, (newline-NextLine c d).line)

advance-Keeps :
    (c : Console)
    → Displays c
    → (0 < c.rows → c.cursor_y < c.rows)
    → c.input_len ≤ 256
    → Keeps c (advance c)
advance-Keeps c d row fits = elim (Bool-cases (leb c.columns (c.cursor_x + 1))) [
  | inl wraps ↦
      let e : advance c ≡ newline (record c { cursor_x = c.cursor_x + 1 }) =
        unfold advance in if_true _ _ wraps in
      subst (Keeps c) (sym e) (newline-Keeps (record c { cursor_x = c.cursor_x + 1 }) d fits)
  | inr room ↦
      let e : advance c ≡ record c { cursor_x = c.cursor_x + 1 } =
        unfold advance in if_false _ _ room in
      subst (Keeps c) (sym e) (
        record { displays = d; column = λ h. ground arith; row = row; input = fits },
        (refl, refl, refl),
      )
]

-- The cell of a character that is typed.
abbrev typed : Console → ℕ → Cell
typed c character = record {
  character = character;
  foreground = c.foreground;
  background = c.background;
}

-- The state in which the cell under the cursor has been set and drawn.
abbrev wrote : Console → Cell → Framebuffer → Console
wrote c cell t = record c {
  cells = update c.cells (c.cursor_y * 240 + c.cursor_x) cell;
  screen = t;
}

module _ (c : Console) (v : IsValid c) where
  write_cell-some :
      (character : ℕ) (t : Framebuffer)
      → (c.columns == 0 || c.rows == 0) ≡ false
      → render_cell (set_cell c c.cursor_y c.cursor_x (typed c character)) c.cursor_y c.cursor_x
        ≡ some (wrote c (typed c character) t)
      → write_cell c character ≡ some (advance (wrote c (typed c character) t))
  write_cell-some character t sized rendered =
      let inside : leb c.columns c.cursor_x ≡ false = ground (arith, v.column) in
      unfold write_cell in
      if_false _ _ sized
      ∙ ap (λ d. write_here d character) (if_false _ _ inside)
      ∙ (unfold write_here advance_all in ap advance_all rendered)

  pub write_cell-Succeeds : (character : ℕ) → Succeeds c (write_cell c character)
  write_cell-Succeeds character = elim (Bool-cases (c.columns == 0 || c.rows == 0)) [
    | inl nothing ↦ (c, unfold write_cell in if_true _ _ nothing, v, (refl, refl, refl))
    | inr sized ↦
        let (t, rendered, d) =
          place-Displays c c.cursor_y c.cursor_x v.displays (v.row (ground arith))
            (v.column (ground arith)) (typed c character) in
        (
          advance (wrote c (typed c character) t),
          write_cell-some character t sized rendered,
          (advance-Keeps (wrote c (typed c character) t) d v.row v.input).0,
          (advance-Keeps (wrote c (typed c character) t) d v.row v.input).1,
        )
  ]

  step_back-Keeps : Keeps c (step_back c)
  step_back-Keeps = elim (Bool-cases (c.cursor_x == 0)) [
    | inl first ↦
        let e : step_back c ≡ record c { cursor_y = c.cursor_y - 1; cursor_x = c.columns - 1 } =
          unfold step_back in if_true _ _ first in
        subst (Keeps c) (sym e) (
          record {
            displays = v.displays;
            column = λ h. omega arith;
            row = λ h. omega (arith, v.row h);
            input = v.input;
          },
          (refl, refl, refl),
        )
    | inr later ↦
        let e : step_back c ≡ record c { cursor_x = c.cursor_x - 1 } =
          unfold step_back in if_false _ _ later in
        subst (Keeps c) (sym e) (
          record {
            displays = v.displays;
            column = λ h. omega (arith, v.column h);
            row = v.row;
            input = v.input;
          },
          (refl, refl, refl),
        )
  ]

  -- Without a column or a row nothing is drawn, and the screen shows no cell.
  erase-nothing :
      (c.columns == 0 || c.rows == 0) ≡ true
      → Succeeds c (render_cell (set_cell c c.cursor_y c.cursor_x empty) c.cursor_y c.cursor_x)
  erase-nothing nothing =
      let off : (leb c.rows c.cursor_y || leb c.columns c.cursor_x) ≡ true = ground arith in
      (
        record c { cells = update c.cells (c.cursor_y * 240 + c.cursor_x) empty },
        unfold render_cell set_cell in if_true _ _ off,
        record {
          displays = record {
            glyphs = v.displays.glyphs;
            valid = v.displays.valid;
            narrow = v.displays.narrow;
            low = v.displays.low;
            wide = v.displays.wide;
            tall = v.displays.tall;
            plain = v.displays.plain;
            shown = λ px py inx iny.
                let below : ltb py (c.rows * 16) ≡ false = ground arith in
                v.displays.shown px py inx iny
                ∙ view-below c.font c.rows c.cells c.screen.info px py below
                ∙ sym (view-below c.font c.rows _ c.screen.info px py below);
          };
          column = v.column;
          row = v.row;
          input = v.input;
        },
        (refl, refl, refl),
      )

  erase-Succeeds :
      Succeeds c (render_cell (set_cell c c.cursor_y c.cursor_x empty) c.cursor_y c.cursor_x)
  erase-Succeeds = elim (Bool-cases (c.columns == 0 || c.rows == 0)) [
    | inl nothing ↦ erase-nothing nothing
    | inr sized ↦
        let (t, rendered, d) =
          place-Displays c c.cursor_y c.cursor_x v.displays (v.row (ground arith))
            (v.column (ground arith)) empty in
        (
          wrote c empty t,
          rendered,
          record { displays = d; column = v.column; row = v.row; input = v.input },
          (refl, refl, refl),
        )
  ]

pub backspace-Succeeds : (c : Console) → IsValid c → Succeeds c (backspace c)
backspace-Succeeds c v = elim (Bool-cases (c.cursor_x == 0 && c.cursor_y == 0)) [
  | inl corner ↦ (c, unfold backspace in if_true _ _ corner, v, (refl, refl, refl))
  | inr inside ↦
      let (back, kept) = step_back-Keeps c v in
      let (d, erased, w, same) = erase-Succeeds (step_back c) back in
      (
        d,
        unfold backspace in if_false _ _ inside ∙ erased,
        w,
        SameInput-trans c (step_back c) d kept same,
      )
]

pub tab-Keeps : (c : Console) → IsValid c → Keeps c (tab c)
tab-Keeps c v = elim (Bool-cases (leb c.columns ((c.cursor_x / 4 + 1) * 4))) [
  | inl wraps ↦
      let e : tab c ≡ newline c = unfold tab in if_true _ _ wraps in
      subst (Keeps c) (sym e) (newline-Keeps c v.displays v.input)
  | inr room ↦
      let e : tab c ≡ record c { cursor_x = (c.cursor_x / 4 + 1) * 4 } =
        unfold tab in if_false _ _ room in
      subst (Keeps c) (sym e) (
        record { displays = v.displays; column = λ h. ground arith; row = v.row; input = v.input },
        (refl, refl, refl),
      )
]
