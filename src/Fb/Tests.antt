-- ===== src/Fb/Tests.antt =====
-- The framebuffer on a screen of 16 × 32 pixels.
use sill_os.Base.{◌+◌, ◌-◌, ◌≡◌, some, List, [], ◌∷◌, refl, ltb, if◌then◌else◌, true, arith}
use sill_os.Fb.{
  Framebuffer, Info, black, white, red, init, present, draw_rect, copy_rect, scroll_up,
  color_to_u32, present,
}
use sill_os.Fb.Pixels.{in_rect}
use sill_os.Fb.Shown.{IsValid}
use sill_os.Fb.Drawn.{pixel_at}
use sill_os.Fb.Draw.{draw_rect-pixel}
use sill_os.Fb.CopyRect.{copied, copy_rect-pixel}
use sill_os.Fb.Scroll.{scroll_up-pixel}
use sill_os.Fb.Present.{Presented, present-Presented}
use sill_os.Fb.Session.{Operation, draw, scroll, show, run, Suitable, session-shows}

abbrev pub small : Info
small = record {
  width = 16;
  height = 32;
  front_pitch = 64;
  red_shift = 16;
  green_shift = 8;
  blue_shift = 0;
}

-- All of the screen is dirty.
abbrev pub screen : Framebuffer
screen = record {
  info = small;
  back = λ i. i;
  front = λ _. 0;
  dirty = true;
  dirty_min_x = 0;
  dirty_min_y = 0;
  dirty_max_x = 16;
  dirty_max_y = 32;
}

pub screen-IsValid : IsValid screen
screen-IsValid = record {
  narrow = omega arith;
  low = omega arith;
  wide = omega arith;
  tall = omega arith;
  pitch = omega arith;
  inside = λ d. (omega arith, omega arith);
  synced = λ px py inx iny clean. absurd (ground arith);
}

small-Suitable : Suitable small 32 (λ i. i) (λ _. 0)
small-Suitable = record {
  depth = refl;
  wide = omega arith;
  tall = omega arith;
  narrow = omega arith;
  low = omega arith;
  pitch = omega arith;
}

abbrev drawing : List Operation
drawing = draw 1 2 3 4 red ∷ scroll 16 black ∷ show ∷ draw 5 5 100 100 white ∷ []

session-shows_example :
    (s : Framebuffer) × (init small 32 (λ i. i) (λ _. 0) ≡ some s)
    × IsValid (run drawing s)
    × Presented (run drawing s) (present (run drawing s))
session-shows_example = session-shows small 32 (λ i. i) (λ _. 0) small-Suitable drawing

draw_rect-pixel_example :
    pixel_at (draw_rect screen 1 2 3 4 red) 2 3
    ≡ (if in_rect 1 2 3 4 2 3 then color_to_u32 screen.info red else pixel_at screen 2 3)
draw_rect-pixel_example =
    draw_rect-pixel screen screen-IsValid 1 2 3 4 red 2 3 (omega arith) (omega arith)

copy_rect-pixel_example : pixel_at (copy_rect screen 1 4 2 3 5 6) 3 4 ≡ (
    if copied screen 1 4 2 3 5 6 3 4
    then pixel_at screen (1 + (3 - 2)) (4 + (4 - 3))
    else pixel_at screen 3 4)
copy_rect-pixel_example =
    copy_rect-pixel screen screen-IsValid 1 4 2 3 5 6 3 4 (omega arith) (omega arith) (omega arith)

scroll_up-pixel_example : pixel_at (scroll_up screen 16 black) 3 4 ≡ (
    if ltb (4 + 16) screen.info.height
    then pixel_at screen 3 (4 + 16)
    else color_to_u32 screen.info black)
scroll_up-pixel_example =
    scroll_up-pixel screen screen-IsValid 16 black 3 4 (omega arith) (omega arith)

present-Presented_example : Presented screen (present screen)
present-Presented_example = present-Presented screen screen-IsValid
