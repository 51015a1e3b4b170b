-- ===== src/Font.antt =====
-- The bitmap font, src/font.rs: the header of a PSF2 file, and a character drawn at half its size
-- with `put_pixel` of src/fb.rs. The file is data that the build includes, a parameter here.
pub mod Glyph
pub mod Character
pub mod Written
pub mod Tests
use Prim.Native.Nat.{bit_and}
use sill_os.Base.{
  ℕ, zero, suc, ◌+◌, ◌-◌, ◌*◌, ◌/◌, ◌%◌, ◌^◌, Bool, true, false, Option, none, some, ◌&&◌, not, ltb,
  leb, ◌==◌, if◌then◌else◌, List, [], ◌∷◌, Text,
}
use sill_os.Fb.{Framebuffer, Color, put_pixel}

abbrev pub font_width : ℕ
font_width = 16

abbrev pub font_height : ℕ
font_height = 32

abbrev pub scaled_width : ℕ
scaled_width = 8

abbrev pub scaled_height : ℕ
scaled_height = 16

-- The file: its bytes and their number.
pub record FontData : Type 0 where
  pub byte : ℕ → ℕ
  pub len : ℕ

pub record Font : Type 0 where
  pub file : FontData
  pub header_size : ℕ
  pub glyph_count : ℕ
  pub glyph_size : ℕ

-- Four bytes, the lowest one first. The callers have checked that they are there.
unfoldable pub read_u32 : FontData → ℕ → ℕ
read_u32 file offset =
    file.byte offset
    + 256 * file.byte (offset + 1)
    + 65536 * file.byte (offset + 2)
    + 16777216 * file.byte (offset + 3)

is_psf2 : FontData → Bool
is_psf2 file = file.byte 0 == 114 && file.byte 1 == 181 && file.byte 2 == 74 && file.byte 3 == 134

-- `none` is a failed assertion.
unfoldable pub new : FontData → Option Font
unfolding read_u32 is_psf2
new file =
    if leb 32 file.len
      && is_psf2 file
      && read_u32 file 4 == 0
      && read_u32 file 28 == font_width
      && read_u32 file 24 == font_height
    then some (record {
      file = file;
      header_size = read_u32 file 8;
      glyph_count = read_u32 file 16;
      glyph_size = read_u32 file 20;
    })
    else none

-- A slice of the file: where it starts, and its length.
pub record Slice : Type 0 where
  pub start : ℕ
  pub len : ℕ

-- `none` is a slice out of range.
unfoldable pub glyph : Font → ℕ → Option Slice
glyph font index =
    let offset = font.header_size + index * font.glyph_size in
    if leb font.glyph_count index
    then some (record { start = 0; len = 0 })
    else if leb (offset + font.glyph_size) font.file.len
    then some (record { start = offset; len = font.glyph_size })
    else none

-- The bit of the byte that stands for a column of the scaled character.
unfoldable pub bit_set : ℕ → ℕ → Bool
bit_set byte col = not (bit_and byte (2 ^ (7 - col * 2 % 8)) == 0)

module _ (font : Font) (g : Slice) (x y : ℕ) (color : Color) where
  -- The body of the inner loop; `none` is an index out of range, or the overflow of a coordinate.
  unfoldable pub draw_bit : Framebuffer → ℕ → ℕ → Option Framebuffer
  unfolding bit_set
  draw_bit s row col =
      let index = row * 2 * 2 + col * 2 / 8 in
      if ltb index g.len
      then (if bit_set (font.file.byte (g.start + index)) col
          then (if ltb (x + col) (2 ^ 64) && ltb (y + row) (2 ^ 64)
              then some (put_pixel s (x + col) (y + row) color)
              else none)
          else some s)
      else none

  -- The loop over the columns from `col` on.
  unfoldable pub draw_cols : ℕ → Framebuffer → ℕ → ℕ → Option Framebuffer
  unfolding draw_bit
  draw_cols zero s row col = some s
  draw_cols (suc n) s row col = elim (draw_bit s row col) [
    | none ↦ none
    | some t ↦ draw_cols n t row (col + 1)
  ]

  -- The loop over the rows from `row` on.
  unfoldable pub draw_rows : ℕ → Framebuffer → ℕ → Option Framebuffer
  unfolding draw_cols
  draw_rows zero s row = some s
  draw_rows (suc n) s row = elim (draw_cols scaled_width s row 0) [
    | none ↦ none
    | some t ↦ draw_rows n t (row + 1)
  ]

unfoldable pub draw_char : Font → Framebuffer → ℕ → ℕ → ℕ → Color → Option Framebuffer
unfolding glyph draw_rows
draw_char font s x y character color = elim (glyph font character) [
  | none ↦ none
  | some g ↦ if g.len == 0 then some s else draw_rows font g x y color scaled_height s 0
]

-- The bytes that have a shape.
abbrev pub is_printable : ℕ → Bool
is_printable c = leb 32 c && leb c 126

-- A place of the cursor; `none` is the overflow of a coordinate.
unfoldable pub moved : ℕ → ℕ → Option (ℕ × ℕ)
moved x y = if ltb x (2 ^ 64) && ltb y (2 ^ 64) then some (x, y) else none

-- Where the cursor goes after a byte of the text; a line starts at column `x`.
unfoldable pub move_cursor : ℕ → ℕ × ℕ → ℕ → Option (ℕ × ℕ)
unfolding moved
move_cursor x (cursor_x, cursor_y) c =
    if c == 10
    then moved x (cursor_y + scaled_height)
    else if c == 13
    then moved x cursor_y
    else if c == 9
    then moved (cursor_x + scaled_width * 4) cursor_y
    else if is_printable c
    then moved (cursor_x + scaled_width) cursor_y
    else moved cursor_x cursor_y

unfoldable pub draw_byte : Font → Color → ℕ × ℕ → ℕ → Framebuffer → Option Framebuffer
unfolding draw_char
draw_byte font color (cursor_x, cursor_y) c s =
    if is_printable c then draw_char font s cursor_x cursor_y c color else some s

-- The loop of `draw_text`.
unfoldable pub text_loop : Font → Color → ℕ → ℕ × ℕ → Text → Framebuffer → Option Framebuffer
unfolding draw_byte move_cursor
text_loop font color x cursor [] s = some s
text_loop font color x cursor (c ∷ rest) s = elim (draw_byte font color cursor c s) [
  | none ↦ none
  | some t ↦ elim (move_cursor x cursor c) [
    | none ↦ none
    | some next ↦ text_loop font color x next rest t
  ]
]

unfoldable pub draw_text : Font → Framebuffer → ℕ → ℕ → Text → Color → Option Framebuffer
unfolding text_loop
draw_text font s x y text color = text_loop font color x (x, y) text s
