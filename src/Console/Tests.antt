-- ===== src/Console/Tests.antt =====
-- The console on the screen of the framebuffer's tests: two rows of two columns.
use sill_os.Base.{ℕ, ◌*◌, ◌<◌, ◌≡◌, some, [], ◌∷◌, refl, false, arith}
use sill_os.Fb.Shown.{Shown}
use sill_os.Fb.Tests.{screen, screen-IsValid}
use sill_os.Font.Tests.{blocks, blocks-HasGlyphs}
use sill_os.Console.{
  Console, empty, max_columns, max_rows, init, clear, newline, put_char, receive_key, read_line,
}
use sill_os.Console.Synced.{IsValid}
use sill_os.Console.Newline.{NextLine, newline-NextLine}
use sill_os.Console.Writing.{Succeeds}
use sill_os.Console.Typing.{put_char-Succeeds}
use sill_os.Console.Line.{receive_keys, LineRead, type_line-LineRead}
use sill_os.Console.Start.{init-Starts, clear-Clears}

started :
    (c : Console) × (init blocks screen (λ _. empty) ≡ some c)
    × IsValid c
    × (c.input_len ≡ 0)
    × ((px py : ℕ) → px < c.screen.info.width → py < c.screen.info.height → Shown c.screen px py)
started = init-Starts blocks screen (λ _. empty) blocks-HasGlyphs screen-IsValid

init-Starts_example :
    (c : Console) × (init blocks screen (λ _. empty) ≡ some c)
    × IsValid c
    × (c.input_len ≡ 0)
    × ((px py : ℕ) → px < c.screen.info.width → py < c.screen.info.height → Shown c.screen px py)
init-Starts_example = init-Starts blocks screen (λ _. empty) blocks-HasGlyphs screen-IsValid

put_char-Succeeds_example : Succeeds started.0 (put_char started.0 65)
put_char-Succeeds_example = put_char-Succeeds started.0 started.2 65

newline-NextLine_example : NextLine started.0 (newline started.0)
newline-NextLine_example = newline-NextLine started.0 started.2.displays

type_line-LineRead_example :
    (d : Console) × (e : Console) × (receive_keys started.0 (108 ∷ 115 ∷ []) ≡ some d)
    × (receive_key d 13 ≡ some e)
    × LineRead (108 ∷ 115 ∷ []) 256 (read_line e (λ _. 0) 256)
type_line-LineRead_example =
    type_line-LineRead started.0 (108 ∷ 115 ∷ []) (λ _. 0) 256 started.2 started.3
      (refl, (refl, refl)) (omega arith)

clear-Clears_example :
    IsValid (clear started.0)
    × ((i : ℕ) → i < max_columns * max_rows → (clear started.0).cells i ≡ empty)
    × ((clear started.0).input_len ≡ 0)
    × ((clear started.0).line_ready ≡ false)
    × ((clear started.0).cursor_x ≡ 0)
    × ((clear started.0).cursor_y ≡ 0)
clear-Clears_example = clear-Clears started.0 started.2
