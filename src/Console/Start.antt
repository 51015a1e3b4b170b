-- ===== src/Console/Start.antt =====
-- `init` and `clear` of src/console.rs.
use sill_os.Base.{
  ℕ, ◌+◌, ◌*◌, ◌/◌, ◌%◌, ◌≤◌, ◌<◌, ◌≡◌, refl, ap, sym, ◌∙◌, true, false, some, [], ◌∷◌, ◌&&◌, ltb,
  leb, if_true, Bool-cases, inl, inr, arith, min,
}
use sill_os.Fb.{Framebuffer, Color, black, white, color_to_u32, present}
use sill_os.Fb
use sill_os.Fb.Shown
use sill_os.Fb.Shown.{Shown}
use sill_os.Fb.Draw.{clear-pixel, clear-IsValid, clear-info}
use sill_os.Fb.Present.{present-Presented, Presented-IsValid}
use sill_os.Font.{Font}
use sill_os.Font.Character.{HasGlyphs}
use sill_os.Console.{
  Cell, Console, empty, fill_cells, max_columns, max_rows, init, new, clear, write_str,
}
use sill_os.Console.Synced.{Synced, IsValid, view, view-cell, view-below, cell_pixel}
use sill_os.Console.Scroll.{cell_pixel-empty}
use sill_os.Console.Typing.{write_str-Succeeds}

-- A valid console stays valid when its screen is presented.
pub present-IsValid : (d : Console) → IsValid d → IsValid (record d { screen = present d.screen })
present-IsValid d w =
    let p = present-Presented d.screen w.displays.valid in
    record {
      displays = record {
        glyphs = w.displays.glyphs;
        valid = Presented-IsValid d.screen w.displays.valid (present d.screen) p;
        narrow = w.displays.narrow;
        low = w.displays.low;
        wide = rw p.info w.displays.wide;
        tall = rw p.info w.displays.tall;
        plain = w.displays.plain;
        shown = λ px py inx iny.
            ap (λ b. b (py * (present d.screen).info.width + px)) p.back
            ∙ ap (λ i. d.screen.back (py * i.width + px)) p.info
            ∙ w.displays.shown px py inx (rw p.info at iny)
            ∙ ap (λ i. view d.font d.rows d.cells i px py) (sym p.info);
      };
      column = w.column;
      row = w.row;
      input = w.input;
    }

module _ (font : Font) (columns rows : ℕ) (cells : ℕ → Cell) (screen : Framebuffer)
    (g : HasGlyphs font) (v : Shown.IsValid screen) (narrow : columns ≤ max_columns)
    (low : rows ≤ max_rows) (wide : columns * 8 ≤ screen.info.width)
    (tall : rows * 16 ≤ screen.info.height) where
  abbrev blank : ℕ → Cell
  blank = fill_cells cells 0 (240 * 67) empty

  -- Empty cells are seen as black.
  blank-view :
      (px py : ℕ)
      → px < columns * 8
      → view font rows blank screen.info px py ≡ color_to_u32 screen.info black
  blank-view px py inx = elim (Bool-cases (ltb py (rows * 16))) [
    | inr below ↦ view-below font rows blank screen.info px py below
    | inl text ↦
        let all : (leb 0 (py / 16 * 240 + px / 8) && ltb (py / 16 * 240 + px / 8) (0 + 16080))
            ≡ true =
          ground arith in
        let cell : blank (py / 16 * 240 + px / 8) ≡ empty = unfold fill_cells in if_true _ _ all in
        view-cell font rows blank screen.info px py text
        ∙ ap (λ x. cell_pixel font screen.info x (px % 8) (py % 16)) cell
        ∙ cell_pixel-empty font screen.info (px % 8) (py % 16)
  ]

  pub blank-Synced : Synced font columns rows black blank (Fb.clear screen black)
  blank-Synced =
      let e = clear-info screen v black in
      record {
        glyphs = g;
        valid = clear-IsValid screen v black;
        narrow = narrow;
        low = low;
        wide = rw e wide;
        tall = rw e tall;
        plain = refl;
        shown = λ px py inx iny.
            clear-pixel screen v black px py (omega arith) (rw e at iny)
            ∙ sym (blank-view px py inx)
            ∙ ap (λ i. view font rows blank i px py) (sym e);
      }

-- On a valid console, whose background is black, clear leaves a valid console whose cells are all
-- empty, whose line is empty and not ready, and whose cursor is at the first column and row.
pub clear-Clears :
    (c : Console)
    → IsValid c
    → IsValid (clear c)
      × ((i : ℕ) → i < max_columns * max_rows → (clear c).cells i ≡ empty)
      × ((clear c).input_len ≡ 0)
      × ((clear c).line_ready ≡ false)
      × ((clear c).cursor_x ≡ 0)
      × ((clear c).cursor_y ≡ 0)
clear-Clears c v =
    let d = v.displays in
    let screen =
      blank-Synced c.font c.columns c.rows c.cells c.screen d.glyphs d.valid d.narrow d.low d.wide
        d.tall in
    unfold clear in
    (
      record { displays = rw d.plain screen; column = λ h. h; row = λ h. h; input = omega arith },
      λ i h.
          let all : (leb 0 i && ltb i (0 + 16080)) ≡ true = ground arith in
          unfold fill_cells in if_true _ _ all,
      refl,
      refl,
      refl,
      refl,
    )

module _ (font : Font) (screen : Framebuffer) (cells : ℕ → Cell) (g : HasGlyphs font)
    (v : Shown.IsValid screen) where
  abbrev columns : ℕ
  columns = min (screen.info.width / 8) 240

  abbrev rows : ℕ
  rows = min (screen.info.height / 16) 67

  abbrev opened : Console
  opened = record {
    font = font;
    cursor_x = 0;
    cursor_y = 0;
    columns = columns;
    rows = rows;
    foreground = white;
    background = black;
    cells =
        blank font columns rows (fill_cells cells 0 (240 * 67) empty) screen g v (omega arith)
          (omega arith) (omega arith) (omega arith);
    input = λ _. 0;
    input_len = 0;
    line_ready = false;
    screen = Fb.clear screen black;
  }

  opened-IsValid : IsValid opened
  opened-IsValid = record {
    displays =
        blank-Synced font columns rows (fill_cells cells 0 (240 * 67) empty) screen g v
          (omega arith) (omega arith) (omega arith) (omega arith);
    column = λ h. h;
    row = λ h. h;
    input = omega arith;
  }

  init-some :
      (d : Console)
      → write_str opened (62 ∷ 32 ∷ []) ≡ some d
      → init font screen cells ≡ some (record d { screen = present d.screen })
  init-some d e = unfold init new clear in rw (e, init)

  -- On a valid framebuffer and with a font file that holds its glyphs, init does not panic, and
  -- leaves a valid console with an empty line all of whose pixels are in the front buffer.
  pub init-Starts :
      (c : Console) × (init font screen cells ≡ some c)
      × IsValid c
      × (c.input_len ≡ 0)
      × ((px py : ℕ) → px < c.screen.info.width → py < c.screen.info.height → Shown c.screen px py)
  init-Starts =
      let (d, e, w, same) = write_str-Succeeds opened opened-IsValid (62 ∷ 32 ∷ []) in
      let p = present-Presented d.screen w.displays.valid in
      (
        record d { screen = present d.screen },
        init-some d e,
        present-IsValid d w,
        same.1,
        λ px py inx iny. p.shown px py (rw p.info at inx) (rw p.info at iny),
      )
