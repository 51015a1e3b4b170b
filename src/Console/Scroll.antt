-- ===== src/Console/Scroll.antt =====
-- `scroll` of src/console.rs.
use sill_os.Base.{
  ℕ, ◌+◌, ◌-◌, ◌*◌, ◌/◌, ◌%◌, ◌≤◌, ◌<◌, ◌≡◌, refl, ap, sym, subst, ◌∙◌, true, false, ◌&&◌, ltb, leb,
  ◌==◌, if◌then◌else◌, if_true, if_false, Bool-cases, inl, inr, arith,
}
use sill_os.Fb.{Info, black, color_to_u32, scroll_up}
use sill_os.Fb.Drawn.{pixel_at}
use sill_os.Fb.Scroll.{scroll_up-pixel, scroll_up-IsValid, scroll_up-info}
use sill_os.Font.{Font}
use sill_os.Console.{Cell, Console, empty, scroll, clear_row, shift_rows, fill_cells, char_height}
use sill_os.Console.Cells.{shift_rows-cell}
use sill_os.Console.Synced.{Displays, view, view-cell, view-below, cell_pixel}

pub cell_pixel-empty :
    (font : Font) (info : Info) (dx dy : ℕ)
    → cell_pixel font info empty dx dy ≡ color_to_u32 info black
unfolding cell_pixel
cell_pixel-empty font info dx dy = refl

-- The cells after `scroll`.
abbrev scrolled : Console → ℕ → Cell
scrolled c =
    fill_cells (shift_rows (c.rows - 1) c.cells c.columns 1) ((c.rows - 1) * 240 + 0) 240 empty

pub scroll_eq :
    (c : Console)
    → 0 < c.rows
    → scroll c ≡ record c {
      screen = scroll_up c.screen char_height c.background;
      cells = scrolled c;
      cursor_x = 0;
      cursor_y = c.rows - 1;
    }
scroll_eq c some_rows =
    let not_zero : (c.rows == 0) ≡ false = ground arith in
    let last : leb c.rows (c.rows - 1) ≡ false = ground arith in
    unfold scroll clear_row in if_false _ _ not_zero ∙ rw last

module _ (c : Console) (d : Displays c) (some_rows : 0 < c.rows) where
  scrolled-cell :
      (row column : ℕ)
      → column < c.columns
      → row < c.rows
      → scrolled c (row * 240 + column)
        ≡ (if ltb (row + 1) c.rows then c.cells ((row + 1) * 240 + column) else empty)
  scrolled-cell row column inx iny = elim (Bool-cases (ltb (row + 1) c.rows)) [
    | inl kept ↦
        let off : (leb ((c.rows - 1) * 240 + 0) (row * 240 + column)
              && ltb (row * 240 + column) ((c.rows - 1) * 240 + 0 + 240))
            ≡ false =
          ground (arith, d.narrow) in
        let moved : (leb 0 row && ltb row (0 + (c.rows - 1))) ≡ true = ground arith in
        unfold fill_cells in
        if_false _ _ off
        ∙ shift_rows-cell c.columns column d.narrow inx (c.rows - 1) c.cells 0 row
        ∙ if_true _ _ moved
        ∙ sym (if_true _ _ kept)
    | inr last ↦
        let on : (leb ((c.rows - 1) * 240 + 0) (row * 240 + column)
              && ltb (row * 240 + column) ((c.rows - 1) * 240 + 0 + 240))
            ≡ true =
          ground (arith, d.narrow) in
        unfold fill_cells in if_true _ _ on ∙ sym (if_false _ _ last)
  ]

  abbrev info : Info
  info = c.screen.info

  kept-pixel :
      (px py : ℕ)
      → px < c.columns * 8
      → py + 16 < c.rows * 16
      → pixel_at c.screen px (py + 16) ≡ view c.font c.rows (scrolled c) info px py
  kept-pixel px py inx kept =
      let old : ltb (py + 16) (c.rows * 16) ≡ true = ground arith in
      let new : ltb py (c.rows * 16) ≡ true = ground arith in
      let more : ltb (py / 16 + 1) c.rows ≡ true = ground arith in
      let row : (py + 16) / 16 ≡ py / 16 + 1 = omega arith in
      let dy : (py + 16) % 16 ≡ py % 16 = omega arith in
      let cell = scrolled-cell (py / 16) (px / 8) (omega arith) (omega arith) ∙ if_true _ _ more in
      d.shown px (py + 16) inx (omega (arith, d.tall))
      ∙ view-cell c.font c.rows c.cells info px (py + 16) old
      ∙ rw (row, dy) (ap (λ x. cell_pixel c.font info x (px % 8) (py % 16)) (sym cell))
      ∙ sym (view-cell c.font c.rows (scrolled c) info px py new)

  exposed-view :
      (px py : ℕ)
      → px < c.columns * 8
      → c.rows * 16 ≤ py + 16
      → view c.font c.rows (scrolled c) info px py ≡ color_to_u32 info black
  exposed-view px py inx exposed = elim (Bool-cases (ltb py (c.rows * 16))) [
    | inl t ↦
        let last : ltb (py / 16 + 1) c.rows ≡ false = ground arith in
        let cell =
          scrolled-cell (py / 16) (px / 8) (omega arith) (ground arith) ∙ if_false _ _ last in
        view-cell c.font c.rows (scrolled c) info px py t
        ∙ ap (λ x. cell_pixel c.font info x (px % 8) (py % 16)) cell
        ∙ cell_pixel-empty c.font info (px % 8) (py % 16)
    | inr f ↦ view-below c.font c.rows (scrolled c) info px py f
  ]

  scrolled-pixel :
      (px py : ℕ)
      → px < c.columns * 8
      → py < info.height
      → (if ltb (py + 16) info.height
          then pixel_at c.screen px (py + 16)
          else color_to_u32 info c.background)
        ≡ view c.font c.rows (scrolled c) info px py
  scrolled-pixel px py inx iny = elim (Bool-cases (ltb (py + 16) (c.rows * 16))) [
    | inl kept ↦
        let there : ltb (py + 16) info.height ≡ true = ground (arith, d.tall) in
        if_true _ _ there ∙ kept-pixel px py inx (ground arith)
    | inr exposed ↦
        (elim (Bool-cases (ltb (py + 16) info.height)) [
          | inl there ↦
              if_true _ _ there
              ∙ d.shown px (py + 16) inx (ground arith)
              ∙ view-below c.font c.rows c.cells info px (py + 16) exposed
          | inr gone ↦ if_false _ _ gone ∙ ap (λ k. color_to_u32 info k) d.plain
        ])
        ∙ sym (exposed-view px py inx (ground arith))
  ]

  -- `scroll` moves the text up by one row, and the screen with it.
  pub scroll-Displays : Displays (scroll c)
  scroll-Displays =
      let e : (scroll_up c.screen 16 c.background).info ≡ info =
        scroll_up-info c.screen d.valid 16 c.background in
      subst Displays (sym (scroll_eq c some_rows)) (record {
        glyphs = d.glyphs;
        valid = scroll_up-IsValid c.screen d.valid 16 c.background;
        narrow = d.narrow;
        low = d.low;
        wide = rw e d.wide;
        tall = rw e d.tall;
        plain = d.plain;
        shown = λ px py inx iny.
            let inside : py < info.height = rw e at iny in
            scroll_up-pixel c.screen d.valid 16 c.background px py (omega (arith, d.wide)) inside
            ∙ scrolled-pixel px py inx inside
            ∙ ap (λ i. view c.font c.rows (scrolled c) i px py) (sym e);
      })
