-- ===== src/Console/Synced.antt =====
-- What it means that the screen shows the cell buffer of src/console.rs.
use sill_os.Base.{
  ℕ, ◌+◌, ◌*◌, ◌/◌, ◌%◌, ◌≤◌, ◌<◌, ◌≡◌, ◌&&◌, not, ltb, ◌==◌, if◌then◌else◌, true, false, if_true,
  if_false,
}
use sill_os.Fb.{Framebuffer, Info, Color, black, color_to_u32}
use sill_os.Fb.Shown
use sill_os.Fb.Drawn.{pixel_at}
use sill_os.Font.{Font}
use sill_os.Font.Character.{HasGlyphs, ink}
use sill_os.Console.{Cell, Console, input_size, max_columns, max_rows}

-- The pixel of a cell at column `dx` and row `dy` of its 8 × 16 pixels.
unfoldable pub cell_pixel : Font → Info → Cell → ℕ → ℕ → ℕ
unfolding ink
cell_pixel font info cell dx dy =
    if not (cell.character == 32) && ink font cell.character dx dy
    then color_to_u32 info cell.foreground
    else color_to_u32 info cell.background

-- The pixel of the screen at (px, py): that of its cell, and black below the last row.
unfoldable pub view : Font → ℕ → (ℕ → Cell) → Info → ℕ → ℕ → ℕ
unfolding cell_pixel
view font rows cells info px py =
    if ltb py (rows * 16)
    then cell_pixel font info (cells (py / 16 * 240 + px / 8)) (px % 8) (py % 16)
    else color_to_u32 info black

-- The text fits on the screen, and the screen shows the cells.
pub record Synced (font : Font) (columns rows : ℕ) (background : Color) (cells : ℕ → Cell)
    (screen : Framebuffer) : Type 0 where
  pub glyphs : HasGlyphs font
  pub valid : Shown.IsValid screen
  pub narrow : columns ≤ max_columns
  pub low : rows ≤ max_rows
  pub wide : columns * 8 ≤ screen.info.width
  pub tall : rows * 16 ≤ screen.info.height
  pub plain : background ≡ black
  pub shown :
      (px py : ℕ)
      → px < columns * 8
      → py < screen.info.height
      → pixel_at screen px py ≡ view font rows cells screen.info px py

abbrev pub Displays : Console → Type 0
Displays c = Synced c.font c.columns c.rows c.background c.cells c.screen

-- Besides, the cursor is on the screen and the input fits in its buffer.
pub record IsValid (c : Console) : Type 0 where
  pub displays : Displays c
  pub column : 0 < c.columns → c.cursor_x < c.columns
  pub row : 0 < c.rows → c.cursor_y < c.rows
  pub input : c.input_len ≤ input_size

module _ (font : Font) (rows : ℕ) (cells : ℕ → Cell) (info : Info) (px py : ℕ) where
  pub view-cell :
      ltb py (rows * 16) ≡ true
      → view font rows cells info px py
        ≡ cell_pixel font info (cells (py / 16 * 240 + px / 8)) (px % 8) (py % 16)
  view-cell t = unfold view in if_true _ _ t

  pub view-below :
      ltb py (rows * 16) ≡ false → view font rows cells info px py ≡ color_to_u32 info black
  view-below f = unfold view in if_false _ _ f

-- The input line is as before.
abbrev pub SameInput : Console → Console → Type 0
SameInput c d = (d.input ≡ c.input) × (d.input_len ≡ c.input_len) × (d.line_ready ≡ c.line_ready)
