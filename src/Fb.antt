-- ===== src/Fb.antt =====
-- The framebuffer, src/fb.rs: the back buffer that the kernel draws to, the dirty rectangle, and
-- the front buffer that the user sees. The state is that of the statics after `init`; before it
-- every operation panics. The colour mask shifts are below 32, as for any 32-bit pixel format.
pub mod Pixels
pub mod Copies
pub mod Drawn
pub mod Draw
pub mod CopyRect
pub mod Scroll
pub mod Dirty
pub mod Shown
pub mod Present
pub mod Session
pub mod Named
pub mod Tests
use Prim.Native.Nat.{bit_or}
use sill_os.Base.{
  ℕ, zero, suc, ◌+◌, ◌-◌, ◌*◌, ◌/◌, ◌%◌, ◌^◌, min, max, Bool, true, false, Option, none, some, List,
  [], ◌∷◌, ◌&&◌, ◌||◌, not, ltb, leb, ◌==◌, if◌then◌else◌,
}

abbrev pub max_width : ℕ
max_width = 1920

abbrev pub max_height : ℕ
max_height = 1080

abbrev pub bytes_per_pixel : ℕ
bytes_per_pixel = 4

pub record Color : Type 0 where
  pub r : ℕ
  pub g : ℕ
  pub b : ℕ

abbrev pub black : Color
black = record { r = 0; g = 0; b = 0 }

abbrev pub white : Color
white = record { r = 255; g = 255; b = 255 }

abbrev pub red : Color
red = record { r = 255; g = 0; b = 0 }

pub record Info : Type 0 where
  pub width : ℕ
  pub height : ℕ
  pub front_pitch : ℕ
  pub red_shift : ℕ
  pub green_shift : ℕ
  pub blue_shift : ℕ

-- `back` is BACKBUFFER, by the index of a 32-bit pixel. `front` is the memory at `info.front`, by
-- the offset of a byte. The other fields are DIRTY and its rectangle.
pub record Framebuffer : Type 0 where
  pub info : Info
  pub back : ℕ → ℕ
  pub front : ℕ → ℕ
  pub dirty : Bool
  pub dirty_min_x : ℕ
  pub dirty_min_y : ℕ
  pub dirty_max_x : ℕ
  pub dirty_max_y : ℕ

unfoldable pub saturating_add : ℕ → ℕ → ℕ
saturating_add a b = min (a + b) (2 ^ 64 - 1)

unfoldable pub mark_dirty : Framebuffer → ℕ → ℕ → ℕ → ℕ → Framebuffer
unfolding saturating_add
mark_dirty s x y width height =
    let max_x = min (saturating_add x width) s.info.width in
    let max_y = min (saturating_add y height) s.info.height in
    if width == 0 || height == 0
    then s
    else if leb s.info.width x || leb s.info.height y
    then s
    else if leb max_x x || leb max_y y
    then s
    else if not s.dirty
    then record s {
      dirty = true;
      dirty_min_x = x;
      dirty_min_y = y;
      dirty_max_x = max_x;
      dirty_max_y = max_y;
    }
    else record s {
      dirty_min_x = min s.dirty_min_x x;
      dirty_min_y = min s.dirty_min_y y;
      dirty_max_x = max s.dirty_max_x max_x;
      dirty_max_y = max s.dirty_max_y max_y;
    }

-- `value << shift` of a 32-bit number.
abbrev pub shift_left : ℕ → ℕ → ℕ
shift_left value shift = value * 2 ^ shift % 2 ^ 32

unfoldable pub color_to_u32 : Info → Color → ℕ
color_to_u32 info color =
    bit_or (bit_or (shift_left color.r info.red_shift) (shift_left color.g info.green_shift))
      (shift_left color.b info.blue_shift)

-- `fill` of the slice of `length` elements at `start`.
unfoldable pub fill : (ℕ → ℕ) → ℕ → ℕ → ℕ → ℕ → ℕ
fill buffer start length value i = if leb start i && ltb i (start + length) then value else buffer i

-- `ptr::copy`, as if through a temporary buffer, and `ptr::copy_nonoverlapping`, whose source may
-- be another memory.
unfoldable pub copy : (ℕ → ℕ) → (ℕ → ℕ) → ℕ → ℕ → ℕ → ℕ → ℕ
copy from to src dst count i =
    if leb dst i && ltb i (dst + count) then from (src + (i - dst)) else to i

unfoldable pub put_pixel : Framebuffer → ℕ → ℕ → Color → Framebuffer
unfolding fill color_to_u32 mark_dirty
put_pixel s x y color =
    if leb s.info.width x || leb s.info.height y
    then s
    else (let pixel = color_to_u32 s.info color in
        mark_dirty (record s { back = fill s.back (y * s.info.width + x) 1 pixel }) x y 1 1)

unfoldable pub clear : Framebuffer → Color → Framebuffer
unfolding fill color_to_u32 mark_dirty
clear s color =
    let pixel = color_to_u32 s.info color in
    mark_dirty (record s { back = fill s.back 0 (s.info.width * s.info.height) pixel }) 0 0
      s.info.width s.info.height

-- The loop of `draw_rect` over `rows` rows from `py` on.
unfoldable pub fill_rows : ℕ → (ℕ → ℕ) → ℕ → ℕ → ℕ → ℕ → ℕ → ℕ → ℕ
unfolding fill
fill_rows zero buffer pitch x py length pixel = buffer
fill_rows (suc rows) buffer pitch x py length pixel =
    fill_rows rows (fill buffer (py * pitch + x) length pixel) pitch x (py + 1) length pixel

unfoldable pub draw_rect : Framebuffer → ℕ → ℕ → ℕ → ℕ → Color → Framebuffer
unfolding saturating_add fill_rows color_to_u32 mark_dirty
draw_rect s x y width height color =
    let end_x = min (saturating_add x width) s.info.width in
    let end_y = min (saturating_add y height) s.info.height in
    let pixel = color_to_u32 s.info color in
    if width == 0 || height == 0
    then s
    else if leb s.info.width x || leb s.info.height y
    then s
    else if leb end_x x || leb end_y y
    then s
    else mark_dirty
        (record s { back = fill_rows (end_y - y) s.back s.info.width x y (end_x - x) pixel }) x y
        (end_x - x) (end_y - y)

-- The loop of `copy_rect` over `rows` rows, from the row `sy` to the row `dy` and on.
unfoldable pub copy_rows : ℕ → (ℕ → ℕ) → ℕ → ℕ → ℕ → ℕ → ℕ → ℕ → ℕ → ℕ
unfolding copy
copy_rows zero buffer pitch sx sy dx dy width = buffer
copy_rows (suc rows) buffer pitch sx sy dx dy width =
    copy_rows rows (copy buffer buffer (sy * pitch + sx) (dy * pitch + dx) width) pitch sx (sy + 1)
      dx (dy + 1) width

unfoldable pub copy_rect : Framebuffer → ℕ → ℕ → ℕ → ℕ → ℕ → ℕ → Framebuffer
unfolding copy_rows mark_dirty
copy_rect s src_x src_y dst_x dst_y width height =
    let w = min (min width (s.info.width - src_x)) (s.info.width - dst_x) in
    let h = min (min height (s.info.height - src_y)) (s.info.height - dst_y) in
    if width == 0 || height == 0
    then s
    else if leb s.info.width src_x
        || leb s.info.height src_y
        || leb s.info.width dst_x
        || leb s.info.height dst_y
    then s
    else if w == 0 || h == 0
    then s
    else mark_dirty (record s { back = copy_rows h s.back s.info.width src_x src_y dst_x dst_y w })
        dst_x dst_y w h

unfoldable pub scroll_up : Framebuffer → ℕ → Color → Framebuffer
unfolding clear copy_rect draw_rect
scroll_up s pixels color =
    if pixels == 0
    then s
    else if leb s.info.height pixels
    then clear s color
    else draw_rect (copy_rect s 0 pixels 0 0 s.info.width (s.info.height - pixels)) 0
        (s.info.height - pixels) s.info.width pixels color

-- The back buffer seen as bytes, the lowest byte of a pixel first.
unfoldable pub byte_of : (ℕ → ℕ) → ℕ → ℕ
byte_of buffer i = buffer (i / 4) / 256 ^ (i % 4) % 256

-- The loop of `present` over `rows` rows from `y` on.
unfoldable pub present_rows : ℕ → Framebuffer → (ℕ → ℕ) → ℕ → ℕ → ℕ → ℕ → ℕ
unfolding copy byte_of
present_rows zero s front min_x y row_size = front
present_rows (suc rows) s front min_x y row_size =
    present_rows rows s
      (copy (byte_of s.back) front (y * s.info.width * bytes_per_pixel + min_x * bytes_per_pixel)
        (y * s.info.front_pitch + min_x * bytes_per_pixel) row_size)
      min_x (y + 1) row_size

unfoldable pub present : Framebuffer → Framebuffer
unfolding present_rows
present s =
    let row_size = (s.dirty_max_x - s.dirty_min_x) * bytes_per_pixel in
    if not s.dirty
    then s
    else if leb s.dirty_max_x s.dirty_min_x || leb s.dirty_max_y s.dirty_min_y
    then record s { dirty = false }
    else record s {
      dirty = false;
      front =
          present_rows (s.dirty_max_y - s.dirty_min_y) s s.front s.dirty_min_x s.dirty_min_y
            row_size;
    }

unfoldable pub present_full : Framebuffer → Framebuffer
unfolding mark_dirty present
present_full s = present (mark_dirty s 0 0 s.info.width s.info.height)

-- `init`, from what the boot loader says of the framebuffer; `none` is a panic. The back buffer
-- and the front buffer start with some content.
unfoldable pub init : Info → ℕ → (ℕ → ℕ) → (ℕ → ℕ) → Option Framebuffer
unfolding clear present
init info bpp back front =
    let s : Framebuffer = record {
      info = info;
      back = back;
      front = front;
      dirty = false;
      dirty_min_x = 0;
      dirty_min_y = 0;
      dirty_max_x = 0;
      dirty_max_y = 0;
    } in
    if not (bpp == 32)
    then none
    else if info.width == 0 || info.height == 0
    then none
    else if ltb max_width info.width || ltb max_height info.height
    then none
    else some (present (clear s black))
