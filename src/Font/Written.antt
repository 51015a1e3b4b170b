-- ===== src/Font/Written.antt =====
-- Whole texts of src/font.rs: `draw_text`.
use sill_os.Base.{
  ℕ, suc, ◌+◌, ◌*◌, ◌^◌, ◌≤◌, ◌<◌, ◌≡◌, ◌∙◌, refl, Bool, true, false, Option, some, [], ◌∷◌, Text,
  ◌&&◌, ◌||◌, ◌==◌, ltb, length, if◌then◌else◌, if_true, if_false, Bool-cases, inl, inr, arith,
}
use sill_os.Fb.{Framebuffer, Color}
use sill_os.Fb.Shown.{IsValid}
use sill_os.Font.{Font, is_printable, move_cursor, moved, draw_byte, text_loop, draw_text}
use sill_os.Font.Glyph.{Paints, Paints-nothing, Paints-same, Paints-then}
use sill_os.Font.Character.{HasGlyphs, char_mask, draw_char-Paints}

-- Where the byte after `c` stands: a line end goes to the start of the next line, a return to that
-- of the same one, a tab four characters on, and a printable byte one.
abbrev pub next_place : ℕ → ℕ × ℕ → ℕ → ℕ × ℕ
next_place x place c =
    if c == 10
    then (x, place.1 + 16)
    else if c == 13
    then (x, place.1)
    else if c == 9
    then (place.0 + 32, place.1)
    else if is_printable c
    then (place.0 + 8, place.1)
    else (place.0, place.1)

-- From a place on, `n` bytes keep to coordinates of 64 bits.
abbrev pub Inside : ℕ → ℕ → ℕ × ℕ → Type 0
Inside n x place =
    (x + 32 * n + 8 ≤ 2 ^ 64) × (place.0 + 32 * n + 8 ≤ 2 ^ 64) × (place.1 + 16 * n + 16 ≤ 2 ^ 64)

if_both : {A : Type 0} (P : A → Type 0) (b : Bool) (x y : A) → P x → P y → P (if b then x else y)
if_both P true x y p q = p
if_both P false x y p q = q

if_some :
    (b : Bool) (r r' : Option (ℕ × ℕ)) (x y : ℕ × ℕ)
    → r ≡ some x
    → r' ≡ some y
    → (if b then r else r') ≡ some (if b then x else y)
if_some true r r' x y p q = p
if_some false r r' x y p q = q

module _ (n x : ℕ) (place : ℕ × ℕ) (c : ℕ) (i : Inside (suc n) x place) where
  Inside-next : Inside n x (next_place x place c)
  Inside-next =
      let P = Inside n x in
      let (start, left, low) = i in
      if_both P (c == 10) _ _ (omega arith, omega arith, omega arith)
        (if_both P (c == 13) _ _ (omega arith, omega arith, omega arith)
          (if_both P (c == 9) _ _ (omega arith, omega arith, omega arith)
            (if_both P (is_printable c) _ _ (omega arith, omega arith, omega arith)
              (omega arith, omega arith, omega arith))))

  moved-some : (a b : ℕ) → a < 2 ^ 64 → b < 2 ^ 64 → moved a b ≡ some (a, b)
  moved-some a b h g =
      let both : (ltb a (2 ^ 64) && ltb b (2 ^ 64)) ≡ true = ground arith in
      unfold moved in if_true _ _ both

  move_cursor-next : move_cursor x place c ≡ some (next_place x place c)
  unfolding move_cursor
  move_cursor-next =
      let (start, left, low) = i in
      if_some (c == 10) _ _ _ _ (moved-some x (place.1 + 16) (omega arith) (omega arith)) (
        if_some (c == 13) _ _ _ _ (moved-some x place.1 (omega arith) (omega arith)) (
          if_some (c == 9) _ _ _ _ (moved-some (place.0 + 32) place.1 (omega arith) (omega arith)) (
            if_some (is_printable c) _ _ _ _
              (moved-some (place.0 + 8) place.1 (omega arith) (omega arith))
              (moved-some place.0 place.1 (omega arith) (omega arith)))))

module _ (font : Font) (x : ℕ) where
  -- The pixels of a byte at the cursor.
  abbrev pub byte_mask : ℕ × ℕ → ℕ → ℕ → ℕ → Bool
  byte_mask cursor c px py = is_printable c && char_mask font cursor.0 cursor.1 c px py

  -- The pixels of all bytes of a text, each at the place where the cursor is before it.
  abbrev pub text_mask : ℕ × ℕ → Text → ℕ → ℕ → Bool
  text_mask cursor [] px py = false
  text_mask cursor (c ∷ rest) px py =
      byte_mask cursor c px py || text_mask (next_place x cursor c) rest px py

module _ (font : Font) (h : HasGlyphs font) (color : Color) where
  draw_byte-Paints :
      (x : ℕ) (cursor : ℕ × ℕ) (c : ℕ) (s : Framebuffer)
      → IsValid s
      → cursor.0 + 8 ≤ 2 ^ 64
      → cursor.1 + 16 ≤ 2 ^ 64
      → (t : Framebuffer) × (draw_byte font color cursor c s ≡ some t)
        × Paints s (byte_mask font x cursor c) color t
  unfolding draw_byte
  draw_byte-Paints x (cursor_x, cursor_y) c s v inx iny = elim (Bool-cases (is_printable c)) [
    | inl shown ↦
        let (t, drawn, p) = draw_char-Paints font h s v cursor_x cursor_y c color inx iny in
        (
          t,
          if_true _ _ shown ∙ drawn,
          Paints-same s _ (byte_mask font x (cursor_x, cursor_y) c) color t (λ px py. rw shown refl)
              p,
        )
    | inr unknown ↦ (s, if_false _ _ unknown, Paints-nothing s _ color v (λ px py. rw unknown refl))
  ]

  text_loop-Paints :
      (x : ℕ) (text : Text) (cursor : ℕ × ℕ) (s : Framebuffer)
      → IsValid s
      → Inside (length text) x cursor
      → (t : Framebuffer) × (text_loop font color x cursor text s ≡ some t)
        × Paints s (text_mask font x cursor text) color t
  unfolding text_loop
  text_loop-Paints x [] cursor s v i = (s, refl, Paints-nothing s _ color v (λ px py. refl))
  text_loop-Paints x (c ∷ rest) cursor s v i =
      let (t, drawn, p) =
        draw_byte-Paints x cursor c s v (omega (arith, i.1)) (omega (arith, i.2)) in
      let (u, written, q) =
        text_loop-Paints x rest (next_place x cursor c) t p.valid
          (Inside-next (length rest) x cursor c i) in
      (
        u,
        rw (drawn, text_loop, move_cursor-next (length rest) x cursor c i) written,
        Paints-then s t u _ _ _ color p q (λ px py. refl),
      )

  -- For a font file that holds all glyphs, each of at least 62 bytes, a valid framebuffer, and a
  -- text of n bytes at (x, y) where x + 32 n + 8 and y + 16 n + 16 are at most 2 ^ 64: draw_text
  -- does not panic and leaves the framebuffer valid; it colours the pixels of the screen at which a
  -- printable byte of the text, at half size and at its place, has a bit set, and changes no other.
  -- The places begin at (x, y); a line end leads to column x 16 rows further down, a return to
  -- column x, a tab 32 columns and a printable byte 8 columns further right.
  pub draw_text-Paints :
      (s : Framebuffer)
      → IsValid s
      → (x y : ℕ) (text : Text) → x + 32 * length text + 8 ≤ 2 ^ 64
      → y + 16 * length text + 16 ≤ 2 ^ 64
      → (t : Framebuffer) × (draw_text font s x y text color ≡ some t)
        × Paints s (text_mask font x (x, y) text) color t
  unfolding draw_text
  draw_text-Paints s v x y text inx iny = text_loop-Paints x text (x, y) s v (inx, inx, iny)
