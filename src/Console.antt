-- ===== src/Console.antt =====
-- The text console, src/console.rs: the cell buffer, the cursor and the input line, drawn to the
-- framebuffer of src/fb.rs with the font of src/font.rs.
pub mod Grid
pub mod Cells
pub mod Synced
pub mod Render
pub mod Place
pub mod Scroll
pub mod Newline
pub mod Writing
pub mod Typing
pub mod Input
pub mod Line
pub mod Start
pub mod Tests
use sill_os.Base.{
  ℕ, zero, suc, ◌+◌, ◌-◌, ◌*◌, ◌/◌, min, Bool, true, false, Option, none, some, List, [], ◌∷◌, ◌&&◌,
  ◌||◌, not, ltb, leb, ◌==◌, if◌then◌else◌, update,
}
use sill_os.Fb.{Framebuffer, Color, black, white, draw_rect, scroll_up, present}
use sill_os.Fb
use sill_os.Font.{Font, draw_char}
pub use sill_os.Console.Grid.{
  char_width, char_height, input_size, max_columns, max_rows, Cell, empty, Console, cell_index,
  get_cell,
}
unfoldable pub use sill_os.Console.Grid.{fill_cells, copy_within, set_cell, clear_row}

-- `new`, with the font and the framebuffer that are in use.
unfoldable pub new : Font → Framebuffer → (ℕ → Cell) → ℕ → ℕ → Console
unfolding fill_cells
new font screen cells width height = record {
  font = font;
  cursor_x = 0;
  cursor_y = 0;
  columns = min (width / char_width) max_columns;
  rows = min (height / char_height) max_rows;
  foreground = white;
  background = black;
  cells = fill_cells cells 0 (max_columns * max_rows) empty;
  input = λ _. 0;
  input_len = 0;
  line_ready = false;
  screen = screen;
}

unfoldable pub clear : Console → Console
unfolding fill_cells
clear c = record c {
  cells = fill_cells c.cells 0 (max_columns * max_rows) empty;
  cursor_x = 0;
  cursor_y = 0;
  input_len = 0;
  line_ready = false;
  screen = Fb.clear c.screen c.background;
}

unfoldable pub render_cell : Console → ℕ → ℕ → Option Console
render_cell c row column =
    let cell = get_cell c row column in
    let x = column * char_width in
    let y = row * char_height in
    let cleared = draw_rect c.screen x y char_width char_height cell.background in
    if leb c.rows row || leb c.columns column
    then some c
    else if not (cell.character == 32)
    then elim (draw_char c.font cleared x y cell.character cell.foreground) [
      | none ↦ none
      | some screen ↦ some (record c { screen = screen })
    ]
    else some (record c { screen = cleared })

-- The loop of `render_row` over `n` columns from `column` on.
render_columns : ℕ → Console → ℕ → ℕ → Option Console
render_columns zero c row column = some c
render_columns (suc n) c row column = elim (render_cell c row column) [
  | none ↦ none
  | some d ↦ render_columns n d row (column + 1)
]

unfoldable pub render_row : Console → ℕ → Option Console
unfolding render_columns render_cell
render_row c row = if leb c.rows row then some c else render_columns c.columns c row 0

-- The loop of `render` over `n` rows from `row` on.
render_rows : ℕ → Console → ℕ → Option Console
render_rows zero c row = some c
render_rows (suc n) c row = elim (render_row c row) [
  | none ↦ none
  | some d ↦ render_rows n d (row + 1)
]

unfoldable pub render : Console → Option Console
unfolding render_rows render_row
render c = render_rows c.rows (record c { screen = Fb.clear c.screen c.background }) 0

-- The loop of `scroll` over `n` rows from `row` on, each copied to the one above.
unfoldable pub shift_rows : ℕ → (ℕ → Cell) → ℕ → ℕ → ℕ → Cell
unfolding copy_within
shift_rows zero cells columns row = cells
shift_rows (suc n) cells columns row =
    shift_rows n (copy_within cells (row * max_columns) columns ((row - 1) * max_columns)) columns
      (row + 1)

unfoldable pub scroll : Console → Console
unfolding shift_rows clear_row
scroll c =
    let moved = record c {
      screen = scroll_up c.screen char_height c.background;
      cells = shift_rows (c.rows - 1) c.cells c.columns 1;
    } in
    if c.rows == 0
    then c
    else record (clear_row moved (c.rows - 1)) { cursor_x = 0; cursor_y = c.rows - 1 }

unfoldable pub newline : Console → Console
unfolding scroll
newline c =
    if c.rows == 0
    then record c { cursor_x = 0 }
    else if ltb (c.cursor_y + 1) c.rows
    then record c { cursor_x = 0; cursor_y = c.cursor_y + 1 }
    else scroll (record c { cursor_x = 0 })

-- The cursor moves past the cell just written, and wraps at the right edge.
unfoldable pub advance : Console → Console
unfolding newline
advance c =
    let next = record c { cursor_x = c.cursor_x + 1 } in
    if leb c.columns (c.cursor_x + 1) then newline next else next

unfoldable pub advance_all : Option Console → Option Console
unfolding advance
advance_all none = none
advance_all (some c) = some (advance c)

-- The rest of `write_cell`, with the cursor inside. `none` is a panic in `draw_char`, here and in
-- what follows.
unfoldable pub write_here : Console → ℕ → Option Console
unfolding set_cell render_cell advance_all
write_here c character =
    let cell : Cell = record {
      character = character;
      foreground = c.foreground;
      background = c.background;
    } in
    advance_all (render_cell (set_cell c c.cursor_y c.cursor_x cell) c.cursor_y c.cursor_x)

unfoldable pub write_cell : Console → ℕ → Option Console
unfolding newline write_here
write_cell c character =
    if c.columns == 0 || c.rows == 0
    then some c
    else write_here (if leb c.columns c.cursor_x then newline c else c) character

-- The cursor one cell back, from the first column to the last one of the row above.
unfoldable pub step_back : Console → Console
step_back c =
    if c.cursor_x == 0
    then record c { cursor_y = c.cursor_y - 1; cursor_x = c.columns - 1 }
    else record c { cursor_x = c.cursor_x - 1 }

unfoldable pub backspace : Console → Option Console
unfolding step_back set_cell render_cell
backspace c =
    let d = step_back c in
    if c.cursor_x == 0 && c.cursor_y == 0
    then some c
    else render_cell (set_cell d d.cursor_y d.cursor_x empty) d.cursor_y d.cursor_x

unfoldable pub tab : Console → Console
unfolding newline
tab c =
    let next_tab = (c.cursor_x / 4 + 1) * 4 in
    if leb c.columns next_tab then newline c else record c { cursor_x = next_tab }

unfoldable pub put_char : Console → ℕ → Option Console
unfolding newline tab backspace write_cell
put_char c character =
    if character == 10
    then some (newline c)
    else if character == 13
    then some (record c { cursor_x = 0 })
    else if character == 9
    then some (tab c)
    else if character == 8
    then backspace c
    else if leb 32 character && leb character 126
    then write_cell c character
    else some c

unfoldable pub write_str : Console → List ℕ → Option Console
unfolding put_char
write_str c [] = some c
write_str c (byte ∷ bytes) = elim (put_char c byte) [ none ↦ none | some d ↦ write_str d bytes ]

-- The line is complete.
abbrev pub finish : Option Console → Option Console
finish none = none
finish (some c) = some (record c { line_ready = true })

-- A character of the line; `key` is a code point.
unfoldable pub receive_key : Console → ℕ → Option Console
unfolding put_char
receive_key c key =
    if key == 10 || key == 13
    then finish (put_char c 10)
    else if key == 8 || key == 127
    then (if ltb 0 c.input_len && ltb 2 c.cursor_x
        then put_char (record c { input_len = c.input_len - 1 }) 8
        else some c)
    else if leb 32 key && ltb key 127
    then (if ltb c.input_len input_size
        then put_char
            (record c { input = update c.input c.input_len key; input_len = c.input_len + 1 }) key
        else some c)
    else some c

-- The caller's buffer has `size` bytes. The result is the console, the buffer, and the number of
-- bytes written, if a line was ready.
unfoldable pub read_line : Console → (ℕ → ℕ) → ℕ → Console × (ℕ → ℕ) × Option ℕ
read_line c buffer size =
    let length = min c.input_len size in
    if not c.line_ready then (c, buffer, none) else (
      record c { input_len = 0; line_ready = false },
      (λ i. if ltb i length then c.input i else buffer i),
      some length,
    )

-- `init`, on the framebuffer in use: the console is cleared, and the prompt is written and shown.
unfoldable pub init : Font → Framebuffer → (ℕ → Cell) → Option Console
unfolding new clear put_char write_str
init font screen cells =
    let c = clear (new font screen cells screen.info.width screen.info.height) in
    elim (write_str c (62 ∷ 32 ∷ [])) [
      | none ↦ none
      | some d ↦ some (record d { screen = present d.screen })
    ]
