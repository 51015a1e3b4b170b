-- ===== src/Console/Place.antt =====
-- The cell buffer and the screen of src/console.rs after `set_cell` and `render_cell`.
use sill_os.Base.{
  ℕ, ◌+◌, ◌-◌, ◌*◌, ◌/◌, ◌%◌, ◌<◌, ◌≡◌, ap, sym, ◌∙◌, Bool, true, false, some, ltb, ◌==◌, if_true,
  if_false, Bool-cases, inl, inr, arith, update, ==_refl,
}
use sill_os.Fb.{Framebuffer, Info}
use sill_os.Fb.Pixels.{in_rect}
use sill_os.Console.{Cell, Console, set_cell, render_cell}
use sill_os.Console.Synced.{Displays, view, view-cell, view-below, cell_pixel}
use sill_os.Console.Render.{CellDrawn, place-CellDrawn, placed}

module _ (c : Console) (row column : ℕ) (d : Displays c) (low : row < c.rows)
    (left : column < c.columns) (cell : Cell) where
  abbrev here : ℕ → ℕ → Bool
  here px py = in_rect (column * 8) (row * 16) 8 16 px py

  view-here :
      (info : Info) (px py : ℕ)
      → here px py ≡ true
      → view c.font c.rows (update c.cells (row * 240 + column) cell) info px py
        ≡ cell_pixel c.font info cell (px - column * 8) (py - row * 16)
  view-here info px py t =
      let text : ltb py (c.rows * 16) ≡ true = ground arith in
      let r : py / 16 ≡ row = ground arith in
      let q : px / 8 ≡ column = ground arith in
      let dx : px % 8 ≡ px - column * 8 = ground arith in
      let dy : py % 16 ≡ py - row * 16 = ground arith in
      view-cell c.font c.rows (update c.cells (row * 240 + column) cell) info px py text
      ∙ rw (r, q, dx, dy)
          (ap (λ x. cell_pixel c.font info x (px - column * 8) (py - row * 16))
            (if_true {b = row * 240 + column == row * 240 + column} _ _
              (==_refl (row * 240 + column))))

  view-away :
      (info : Info) (px py : ℕ)
      → px < c.columns * 8
      → here px py ≡ false
      → view c.font c.rows (update c.cells (row * 240 + column) cell) info px py
        ≡ view c.font c.rows c.cells info px py
  view-away info px py inx f = elim (Bool-cases (ltb py (c.rows * 16))) [
    | inl text ↦
        let other : (row * 240 + column == py / 16 * 240 + px / 8) ≡ false =
          ground (arith, d.narrow) in
        view-cell c.font c.rows (update c.cells (row * 240 + column) cell) info px py text
        ∙ ap (λ x. cell_pixel c.font info x (px % 8) (py % 16)) (if_false _ _ other)
        ∙ sym (view-cell c.font c.rows c.cells info px py text)
    | inr below ↦
        view-below c.font c.rows (update c.cells (row * 240 + column) cell) info px py below
        ∙ sym (view-below c.font c.rows c.cells info px py below)
  ]

  CellDrawn-Displays :
      (t : Framebuffer)
      → CellDrawn c.font cell row column c.screen t
      → Displays (record (placed c row column d low left cell) { screen = t })
  CellDrawn-Displays t p = record {
    glyphs = d.glyphs;
    valid = p.valid;
    narrow = d.narrow;
    low = d.low;
    wide = rw p.info d.wide;
    tall = rw p.info d.tall;
    plain = d.plain;
    shown = λ px py inx iny.
        let inside : py < c.screen.info.height = rw p.info at iny in
        p.pixels px py (omega (arith, d.wide)) inside
        ∙ (elim (Bool-cases (here px py)) [
          | inl t ↦ if_true _ _ t ∙ sym (view-here c.screen.info px py t)
          | inr f ↦
              if_false _ _ f ∙ d.shown px py inx inside ∙ sym (view-away c.screen.info px py inx f)
        ])
        ∙ ap (λ i. view c.font c.rows (update c.cells (row * 240 + column) cell) i px py)
            (sym p.info);
  }

  -- Setting a cell and drawing it does not panic, and keeps screen and cells together.
  pub place-Displays :
      (t : Framebuffer) × (render_cell (set_cell c row column cell) row column
        ≡ some (record c { cells = update c.cells (row * 240 + column) cell; screen = t }))
      × Displays (record c { cells = update c.cells (row * 240 + column) cell; screen = t })
  place-Displays =
      let (t, rendered, p) = place-CellDrawn c row column d low left cell in
      (t, rendered, CellDrawn-Displays t p)
