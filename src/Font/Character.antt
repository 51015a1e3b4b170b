-- ===== src/Font/Character.antt =====
-- Whole characters of src/font.rs: `draw_char`.
use native.Mathlib.Nat.{mul-le-mul_right}
use sill_os.Base.{
  ℕ, suc, ◌+◌, ◌^◌, ◌-◌, ◌*◌, ◌/◌, ◌≤◌, ◌≡◌, ◌∙◌, Bool, true, false, some, ◌&&◌, ltb, leb, ◌==◌,
  if_true, if_false, Bool-cases, inl, inr, arith,
}
use sill_os.Fb.{Framebuffer, Color}
use sill_os.Fb.Pixels.{in_rect}
use sill_os.Fb.Shown.{IsValid}
use sill_os.Font.{Font, Slice, glyph, draw_rows, draw_char, bit_set}
use sill_os.Font.Glyph.{Paints, Paints-same, Paints-nothing, draw_rows-Paints, lit}

-- The file holds all glyphs, and a glyph has the rows that are read.
pub record HasGlyphs (font : Font) : Type 0 where
  pub inside : font.header_size + font.glyph_count * font.glyph_size ≤ font.file.len
  pub long : 62 ≤ font.glyph_size

-- The scaled character has the pixel at column `dx` and row `dy`. A code without glyph has none.
unfoldable pub ink : Font → ℕ → ℕ → ℕ → Bool
ink font character dx dy =
    ltb character font.glyph_count
    && bit_set
        (font.file.byte
          (font.header_size + character * font.glyph_size + (dy * 2 * 2 + dx * 2 / 8)))
        dx

-- The pixels of the character drawn at (x, y).
abbrev pub char_mask : Font → ℕ → ℕ → ℕ → ℕ → ℕ → Bool
char_mask font x y character px py = in_rect x y 8 16 px py && ink font character (px - x) (py - y)

module _ (font : Font) (h : HasGlyphs font) (s : Framebuffer) (v : IsValid s) (x y character : ℕ)
    (color : Color) (inx : x + 8 ≤ 2 ^ 64) (iny : y + 16 ≤ 2 ^ 64) where
  abbrev slice : Slice
  slice = record { start = font.header_size + character * font.glyph_size; len = font.glyph_size }

  glyph-there : ltb character font.glyph_count ≡ true → glyph font character ≡ some slice
  glyph-there known =
      let rows =
        mul-le-mul_right {m = suc character} {n = font.glyph_count} font.glyph_size
          (ground arith) in
      let fits : leb (font.header_size + character * font.glyph_size + font.glyph_size)
            font.file.len
          ≡ true =
        ground (arith, h.inside, rows) in
      let within : leb font.glyph_count character ≡ false = ground arith in
      unfold glyph in if_false _ _ within ∙ if_true _ _ fits

  draw_char-drawn :
      ltb character font.glyph_count ≡ true
      → draw_char font s x y character color ≡ draw_rows font slice x y color 16 s 0
  draw_char-drawn known =
      let sized : (font.glyph_size == 0) ≡ false = ground (arith, h.long) in
      unfold draw_char in rw (glyph-there known, draw_char) (if_false _ _ sized)

  draw_char-unknown :
      ltb character font.glyph_count ≡ false → draw_char font s x y character color ≡ some s
  draw_char-unknown unknown =
      let beyond : leb font.glyph_count character ≡ true = ground arith in
      unfold draw_char glyph in rw (beyond, draw_char)

  -- For a font file that holds all glyphs, each of at least 62 bytes, a valid framebuffer, and a
  -- place whose 8 columns and 16 rows have coordinates of 64 bits: draw_char does not panic and
  -- leaves the framebuffer valid; it colours the pixels of the screen at which the character, at
  -- half size, has a bit set, and changes no other.
  pub draw_char-Paints :
      (t : Framebuffer) × (draw_char font s x y character color ≡ some t)
      × Paints s (char_mask font x y character) color t
  draw_char-Paints = elim (Bool-cases (ltb character font.glyph_count)) [
    | inl known ↦
        let (t, drawn, p) =
          draw_rows-Paints font slice x y color h.long inx iny 16 s 0 v (omega arith) in
        (
          t,
          draw_char-drawn known ∙ drawn,
          Paints-same s
              (λ px py. in_rect x (y + 0) 8 16 px py && lit font slice x y color (px - x) (py - y))
              (char_mask font x y character) color t
              (λ px py. let here : y + 0 ≡ y = omega arith in unfold ink in rw (known, here)) p,
        )
    | inr unknown ↦ (
      s,
      draw_char-unknown unknown,
      Paints-nothing s _ color v (λ px py. unfold ink in rw unknown (ground arith)),
    )
  ]
