-- ===== src/Console/Grid.antt =====
-- The cells of the console of src/console.rs, and its state.
use sill_os.Base.{ℕ, ◌+◌, ◌-◌, ◌*◌, Bool, ◌&&◌, ltb, leb, if◌then◌else◌, update}
use sill_os.Fb.{Framebuffer, Color, black, white}
use sill_os.Font.{Font}

abbrev pub char_width : ℕ
char_width = 8

abbrev pub char_height : ℕ
char_height = 16

abbrev pub input_size : ℕ
input_size = 256

abbrev pub max_columns : ℕ
max_columns = 240

abbrev pub max_rows : ℕ
max_rows = 67

pub record Cell : Type 0 where
  pub character : ℕ
  pub foreground : Color
  pub background : Color

abbrev pub empty : Cell
empty = record { character = 32; foreground = white; background = black }

-- `cells` is the static CELLS that the console points to, and `screen` the framebuffer, a static of
-- src/fb.rs.
pub record Console : Type 0 where
  pub font : Font
  pub cursor_x : ℕ
  pub cursor_y : ℕ
  pub columns : ℕ
  pub rows : ℕ
  pub foreground : Color
  pub background : Color
  pub cells : ℕ → Cell
  pub input : ℕ → ℕ
  pub input_len : ℕ
  pub line_ready : Bool
  pub screen : Framebuffer

-- `fill` of the slice of `length` cells at `start`.
unfoldable pub fill_cells : (ℕ → Cell) → ℕ → ℕ → Cell → ℕ → Cell
fill_cells cells start length value i =
    if leb start i && ltb i (start + length) then value else cells i

-- `copy_within`, as if through a temporary buffer.
unfoldable pub copy_within : (ℕ → Cell) → ℕ → ℕ → ℕ → ℕ → Cell
copy_within cells src count dst i =
    if leb dst i && ltb i (dst + count) then cells (src + (i - dst)) else cells i

abbrev pub cell_index : ℕ → ℕ → ℕ
cell_index row column = row * max_columns + column

abbrev pub get_cell : Console → ℕ → ℕ → Cell
get_cell c row column = c.cells (cell_index row column)

unfoldable pub set_cell : Console → ℕ → ℕ → Cell → Console
set_cell c row column cell = record c { cells = update c.cells (cell_index row column) cell }

unfoldable pub clear_row : Console → ℕ → Console
unfolding fill_cells
clear_row c row =
    if leb c.rows row
    then c
    else record c { cells = fill_cells c.cells (cell_index row 0) max_columns empty }
