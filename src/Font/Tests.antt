-- ===== src/Font/Tests.antt =====
-- A font of 128 full glyphs on the screen of the framebuffer's tests.
use sill_os.Base.{none, ◌^◌, ◌-◌, ◌≡◌, refl, some, arith, text}
use sill_os.Fb.{Framebuffer, white}
use sill_os.Fb.Tests.{screen, screen-IsValid}
use sill_os.Font.{Font, draw_char, draw_text, move_cursor}
use sill_os.Font.Written.{text_mask, draw_text-Paints}
use sill_os.Font.Glyph.{Paints}
use sill_os.Font.Character.{HasGlyphs, char_mask, draw_char-Paints}

abbrev pub blocks : Font
blocks = record {
  file = record { byte = λ _. 255; len = 8224 };
  header_size = 32;
  glyph_count = 128;
  glyph_size = 64;
}

pub blocks-HasGlyphs : HasGlyphs blocks
blocks-HasGlyphs = record { inside = omega arith; long = omega arith }

draw_char-Paints_example :
    (t : Framebuffer) × (draw_char blocks screen 8 16 65 white ≡ some t)
    × Paints screen (char_mask blocks 8 16 65) white t
draw_char-Paints_example =
    draw_char-Paints blocks blocks-HasGlyphs screen screen-IsValid 8 16 65 white (omega arith)
      (omega arith)

move_cursor-overflow : move_cursor 0 (0, 2 ^ 64 - 1) 10 ≡ none
unfolding move_cursor
move_cursor-overflow = refl

move_cursor-tab : move_cursor 8 (16, 4) 9 ≡ some (48, 4)
unfolding move_cursor
move_cursor-tab = refl

draw_text-Paints_example :
    (t : Framebuffer) × (draw_text blocks screen 8 16 (text "a b") white ≡ some t)
    × Paints screen (text_mask blocks 8 (8, 16) (text "a b")) white t
draw_text-Paints_example =
    draw_text-Paints blocks blocks-HasGlyphs white screen screen-IsValid 8 16 (text "a b")
      (omega arith) (omega arith)
