-- ===== src/Font/Glyph.antt =====
-- The loops of `draw_char` of src/font.rs.
use sill_os.Base.{
  ℕ, zero, suc, ◌+◌, ◌^◌, ◌-◌, ◌*◌, ◌/◌, ◌≤◌, ◌<◌, ◌≡◌, refl, ap, sym, ◌∙◌, Bool, true, false, some,
  ◌&&◌, ◌||◌, ltb, if◌then◌else◌, if_true, if_false, Bool-cases, inl, inr, arith,
}
use sill_os.Fb.{Framebuffer, Color, put_pixel, color_to_u32}
use sill_os.Fb.Pixels.{in_rect}
use sill_os.Fb.Shown.{IsValid}
use sill_os.Fb.Drawn.{pixel_at}
use sill_os.Fb.Draw.{put_pixel-pixel, put_pixel-IsValid, put_pixel-info}
use sill_os.Font.{Font, Slice, bit_set, draw_bit, draw_cols, draw_rows, scaled_width}

-- From `s` to `s'` the pixels of the mask take the colour, and no other changes.
pub record Paints (s : Framebuffer) (mask : ℕ → ℕ → Bool) (color : Color) (s' : Framebuffer)
    : Type 0 where
  pub valid : IsValid s'
  pub info : s'.info ≡ s.info
  pub pixels :
      (px py : ℕ)
      → px < s.info.width
      → py < s.info.height
      → pixel_at s' px py ≡ (if mask px py then color_to_u32 s.info color else pixel_at s px py)

pub Paints-nothing :
    (s : Framebuffer) (mask : ℕ → ℕ → Bool) (color : Color)
    → IsValid s
    → ((px py : ℕ) → mask px py ≡ false)
    → Paints s mask color s
Paints-nothing s mask color v off = record {
  valid = v;
  info = refl;
  pixels = λ px py inx iny. sym (if_false _ _ (off px py));
}

pub Paints-same :
    (s : Framebuffer) (mask other : ℕ → ℕ → Bool) (color : Color) (t : Framebuffer)
    → ((px py : ℕ) → other px py ≡ mask px py)
    → Paints s mask color t
    → Paints s other color t
Paints-same s mask other color t e p = record {
  valid = p.valid;
  info = p.info;
  pixels = λ px py inx iny. rw (e px py) (p.pixels px py inx iny);
}

pub Paints-then :
    (s t u : Framebuffer) (first second both : ℕ → ℕ → Bool) (color : Color)
    → Paints s first color t
    → Paints t second color u
    → ((px py : ℕ) → both px py ≡ (first px py || second px py))
    → Paints s both color u
Paints-then s t u first second both color p q e = record {
  valid = q.valid;
  info = q.info ∙ p.info;
  pixels = λ px py inx iny.
      q.pixels px py (rw p.info inx) (rw p.info iny)
      ∙ merge (first px py) (second px py) (both px py) _ _ _ _
          (ap (λ i. color_to_u32 i color) p.info) (p.pixels px py inx iny) (e px py);
}
  where
    merge :
        (a b c : Bool) (v v' w w' : ℕ)
        → v ≡ v'
        → w ≡ (if a then v' else w')
        → c ≡ (a || b)
        → (if b then v else w) ≡ (if c then v' else w')
    merge true true c v v' w w' ev ew ec = ev ∙ sym (if_true _ _ ec)
    merge true false c v v' w w' ev ew ec = ew ∙ sym (if_true _ _ ec)
    merge false true c v v' w w' ev ew ec = ev ∙ sym (if_true _ _ ec)
    merge false false c v v' w w' ev ew ec = ew ∙ sym (if_false _ _ ec)

module _ (font : Font) (g : Slice) (x y : ℕ) (color : Color) where
  -- The column and row of the scaled character whose bit in the glyph is set.
  abbrev pub lit : ℕ → ℕ → Bool
  lit col row = bit_set (font.file.byte (g.start + (row * 2 * 2 + col * 2 / 8))) col

  -- The pixels that columns `col` to `col + n` of a row paint.
  abbrev row_mask : ℕ → ℕ → ℕ → ℕ → ℕ → Bool
  row_mask n row col px py = in_rect (x + col) (y + row) n 1 px py && lit (px - x) (py - y)

  abbrev rows_mask : ℕ → ℕ → ℕ → ℕ → Bool
  rows_mask n row px py = in_rect x (y + row) scaled_width n px py && lit (px - x) (py - y)

  module _ (long : 62 ≤ g.len) (inx : x + 8 ≤ 2 ^ 64) (iny : y + 16 ≤ 2 ^ 64) where
    draw_bit-Paints :
        (s : Framebuffer) (row col : ℕ)
        → IsValid s
        → row < 16
        → col < 8
        → (t : Framebuffer) × (draw_bit font g x y color s row col ≡ some t)
          × Paints s (row_mask 1 row col) color t
    draw_bit-Paints s row col v low left =
        let reachable : ltb (row * 2 * 2 + col * 2 / 8) g.len ≡ true = ground arith in
        let fits : (ltb (x + col) (2 ^ 64) && ltb (y + row) (2 ^ 64)) ≡ true = ground arith in
        elim (Bool-cases (lit col row)) [
          | inl on ↦ (
            put_pixel s (x + col) (y + row) color,
            unfold draw_bit in if_true _ _ reachable ∙ if_true _ _ on ∙ if_true _ _ fits,
            record {
              valid = put_pixel-IsValid s v (x + col) (y + row) color;
              info = put_pixel-info s v (x + col) (y + row) color;
              pixels = λ px py inx iny.
                  put_pixel-pixel s v (x + col) (y + row) color px py inx iny
                  ∙ if_same _ _ _ _ (set px py on);
            },
          )
          | inr off ↦ (
            s,
            unfold draw_bit in if_true _ _ reachable ∙ if_false _ _ off,
            Paints-nothing s (row_mask 1 row col) color v (unset off),
          )
        ]
      where
        at_bit :
            (px py : ℕ)
            → in_rect (x + col) (y + row) 1 1 px py ≡ true
            → lit (px - x) (py - y) ≡ lit col row
        at_bit px py here =
            let c : px - x ≡ col = ground arith in let r : py - y ≡ row = ground arith in rw (c, r)

        if_same : (a b : Bool) (v w : ℕ) → a ≡ b → (if a then v else w) ≡ (if b then v else w)
        if_same a b v w e = rw e

        set :
            (px py : ℕ)
            → lit col row ≡ true
            → in_rect (x + col) (y + row) 1 1 px py ≡ row_mask 1 row col px py
        set px py on = elim (Bool-cases (in_rect (x + col) (y + row) 1 1 px py)) [
          | inl here ↦ here ∙ sym (rw (here, at_bit px py here, on))
          | inr away ↦ away ∙ sym (rw away)
        ]

        unset : lit col row ≡ false → (px py : ℕ) → row_mask 1 row col px py ≡ false
        unset off px py = elim (Bool-cases (in_rect (x + col) (y + row) 1 1 px py)) [
          | inl here ↦ rw (here, at_bit px py here, off)
          | inr away ↦ rw away
        ]

    draw_cols-some :
        (n : ℕ) (s t : Framebuffer) (row col : ℕ)
        → draw_bit font g x y color s row col ≡ some t
        → draw_cols font g x y color (suc n) s row col
          ≡ draw_cols font g x y color n t row (col + 1)
    draw_cols-some n s t row col e = unfold draw_cols in rw (e, draw_cols)

    draw_cols-Paints :
        (n : ℕ) (s : Framebuffer) (row col : ℕ)
        → IsValid s
        → row < 16
        → col + n ≤ 8
        → (t : Framebuffer) × (draw_cols font g x y color n s row col ≡ some t)
          × Paints s (row_mask n row col) color t
    draw_cols-Paints zero s row col v low left = (
      s,
      unfold draw_cols in refl,
      Paints-nothing s (row_mask zero row col) color v (λ px py. ground arith),
    )
    draw_cols-Paints (suc n) s row col v low left =
        let (t, first, p) = draw_bit-Paints s row col v low (omega arith) in
        let (u, rest, q) = draw_cols-Paints n t row (col + 1) p.valid low (omega arith) in
        (
          u,
          draw_cols-some n s t row col first ∙ rest,
          Paints-then s t u (row_mask 1 row col) (row_mask n row (col + 1))
              (row_mask (suc n) row col) color p q (λ px py. ground arith),
        )

    draw_rows-some :
        (n : ℕ) (s t : Framebuffer) (row : ℕ)
        → draw_cols font g x y color scaled_width s row 0 ≡ some t
        → draw_rows font g x y color (suc n) s row ≡ draw_rows font g x y color n t (row + 1)
    draw_rows-some n s t row e = unfold draw_rows in rw (e, draw_rows)

    pub draw_rows-Paints :
        (n : ℕ) (s : Framebuffer) (row : ℕ)
        → IsValid s
        → row + n ≤ 16
        → (t : Framebuffer) × (draw_rows font g x y color n s row ≡ some t)
          × Paints s (rows_mask n row) color t
    draw_rows-Paints zero s row v low = (
      s,
      unfold draw_rows in refl,
      Paints-nothing s (rows_mask zero row) color v (λ px py. ground arith),
    )
    draw_rows-Paints (suc n) s row v low =
        let (t, first, p) = draw_cols-Paints scaled_width s row 0 v (omega arith) (omega arith) in
        let (u, rest, q) = draw_rows-Paints n t (row + 1) p.valid (omega arith) in
        (
          u,
          draw_rows-some n s t row first ∙ rest,
          Paints-then s t u (row_mask scaled_width row 0) (rows_mask n (row + 1))
              (rows_mask (suc n) row) color p q (λ px py. ground arith),
        )
