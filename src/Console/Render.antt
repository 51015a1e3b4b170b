-- ===== src/Console/Render.antt =====
-- A cell of src/console.rs that is set and drawn: `set_cell` followed by `render_cell`.
use sill_os.Base.{
  ℕ, ◌+◌, ◌-◌, ◌*◌, ◌<◌, ◌≡◌, ap, sym, ◌∙◌, Bool, true, false, some, ◌&&◌, ◌||◌, not, leb, ◌==◌,
  if◌then◌else◌, if_true, if_false, Bool-cases, inl, inr, arith, update, ==_refl,
}
use sill_os.Fb.{Framebuffer, color_to_u32, draw_rect}
use sill_os.Fb.Pixels.{in_rect}
use sill_os.Fb.Shown
use sill_os.Fb.Drawn.{pixel_at}
use sill_os.Fb.Draw.{draw_rect-pixel, draw_rect-IsValid, draw_rect-info}
use sill_os.Font.{Font, draw_char}
use sill_os.Font.Glyph.{Paints}
use sill_os.Font.Character.{ink, char_mask, draw_char-Paints}
use sill_os.Console.{Cell, Console, set_cell, render_cell}
use sill_os.Console.Synced.{Displays, cell_pixel}

-- From `s` to `s'` the cell's 8 × 16 pixels become those of `cell`, and no other changes.
pub record CellDrawn (font : Font) (cell : Cell) (row column : ℕ) (s s' : Framebuffer)
    : Type 0 where
  pub valid : Shown.IsValid s'
  pub info : s'.info ≡ s.info
  pub pixels :
      (px py : ℕ)
      → px < s.info.width
      → py < s.info.height
      → pixel_at s' px py ≡ (
          if in_rect (column * 8) (row * 16) 8 16 px py
          then cell_pixel font s.info cell (px - column * 8) (py - row * 16)
          else pixel_at s px py)

module _ (c : Console) (row column : ℕ) (d : Displays c) (low : row < c.rows)
    (left : column < c.columns) (cell : Cell) where
  abbrev pub placed : Console
  placed = record c { cells = update c.cells (row * 240 + column) cell }

  abbrev cleared : Framebuffer
  cleared = draw_rect c.screen (column * 8) (row * 16) 8 16 cell.background

  cleared-IsValid : Shown.IsValid cleared
  cleared-IsValid = draw_rect-IsValid c.screen d.valid (column * 8) (row * 16) 8 16 cell.background

  cleared-info : cleared.info ≡ c.screen.info
  cleared-info = draw_rect-info c.screen d.valid (column * 8) (row * 16) 8 16 cell.background

  placed-cell : update c.cells (row * 240 + column) cell (row * 240 + column) ≡ cell
  placed-cell = if_true _ _ (==_refl (row * 240 + column))

  render_cell-blank :
      (not (cell.character == 32)) ≡ false
      → render_cell (set_cell c row column cell) row column
        ≡ some (record placed { screen = cleared })
  render_cell-blank blank =
      let off : (leb c.rows row || leb c.columns column) ≡ false = ground arith in
      unfold render_cell set_cell in if_false _ _ off ∙ rw (placed-cell, blank)

  render_cell-char :
      (t : Framebuffer)
      → (not (cell.character == 32)) ≡ true
      → draw_char c.font cleared (column * 8) (row * 16) cell.character cell.foreground ≡ some t
      → render_cell (set_cell c row column cell) row column ≡ some (record placed { screen = t })
  render_cell-char t char drawn =
      let off : (leb c.rows row || leb c.columns column) ≡ false = ground arith in
      unfold render_cell set_cell in if_false _ _ off ∙ rw (placed-cell, char, drawn, render_cell)

  blank-CellDrawn :
      (not (cell.character == 32)) ≡ false → CellDrawn c.font cell row column c.screen cleared
  blank-CellDrawn blank = record {
    valid = cleared-IsValid;
    info = cleared-info;
    pixels = λ px py inx iny.
        draw_rect-pixel c.screen d.valid (column * 8) (row * 16) 8 16 cell.background px py inx iny
        ∙ ap
            (λ p. if in_rect (column * 8) (row * 16) 8 16 px py then p else pixel_at c.screen px py)
            (sym (blank_pixel (px - column * 8) (py - row * 16)));
  }
    where
      blank_pixel :
          (dx dy : ℕ)
          → cell_pixel c.font c.screen.info cell dx dy ≡ color_to_u32 c.screen.info cell.background
      blank_pixel dx dy = unfold cell_pixel in rw blank

  char-CellDrawn :
      (t : Framebuffer)
      → (not (cell.character == 32)) ≡ true
      → Paints cleared (char_mask c.font (column * 8) (row * 16) cell.character) cell.foreground t
      → CellDrawn c.font cell row column c.screen t
  char-CellDrawn t char p = record {
    valid = p.valid;
    info = p.info ∙ cleared-info;
    pixels = λ px py inx iny.
        p.pixels px py (rw cleared-info inx) (rw cleared-info iny)
        ∙ layers px py (
            draw_rect-pixel c.screen d.valid (column * 8) (row * 16) 8 16 cell.background px py inx
              iny);
  }
    where
      merge :
          (inside bit : Bool) (front front' back old base : ℕ)
          → front ≡ front'
          → base ≡ (if inside then back else old)
          → (if inside && bit then front else base)
            ≡ (if inside then (if bit then front' else back) else old)
      merge true true front front' back old base ef eb = ef
      merge true false front front' back old base ef eb = eb
      merge false bit front front' back old base ef eb = eb

      char_pixel :
          (dx dy : ℕ)
          → cell_pixel c.font c.screen.info cell dx dy ≡ (
              if ink c.font cell.character dx dy
              then color_to_u32 c.screen.info cell.foreground
              else color_to_u32 c.screen.info cell.background)
      char_pixel dx dy = unfold cell_pixel in rw char

      layers :
          (px py : ℕ)
          → pixel_at cleared px py ≡ (
              if in_rect (column * 8) (row * 16) 8 16 px py
              then color_to_u32 c.screen.info cell.background
              else pixel_at c.screen px py)
          → (if char_mask c.font (column * 8) (row * 16) cell.character px py
              then color_to_u32 cleared.info cell.foreground
              else pixel_at cleared px py)
            ≡ (if in_rect (column * 8) (row * 16) 8 16 px py
                then cell_pixel c.font c.screen.info cell (px - column * 8) (py - row * 16)
                else pixel_at c.screen px py)
      layers px py base =
          merge (in_rect (column * 8) (row * 16) 8 16 px py)
            (ink c.font cell.character (px - column * 8) (py - row * 16)) _ _ _ _ _
            (ap (λ i. color_to_u32 i cell.foreground) cleared-info) base
          ∙ ap
              (λ p.
                if in_rect (column * 8) (row * 16) 8 16 px py then p else pixel_at c.screen px py)
              (sym (char_pixel (px - column * 8) (py - row * 16)))

  -- The new cell is in the buffer and on the screen.
  pub place-CellDrawn :
      (t : Framebuffer) × (render_cell (set_cell c row column cell) row column
        ≡ some (record placed { screen = t }))
      × CellDrawn c.font cell row column c.screen t
  place-CellDrawn = elim (Bool-cases (not (cell.character == 32))) [
    | inr blank ↦ (cleared, render_cell-blank blank, blank-CellDrawn blank)
    | inl char ↦
        let (t, drawn, p) =
          draw_char-Paints c.font d.glyphs cleared cleared-IsValid (column * 8) (row * 16)
            cell.character cell.foreground (omega (arith, d.narrow)) (omega (arith, d.low)) in
        (t, render_cell-char t char drawn, char-CellDrawn t char p)
  ]
