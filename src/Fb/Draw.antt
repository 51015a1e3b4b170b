-- ===== src/Fb/Draw.antt =====
-- The drawing operations of src/fb.rs, pixel by pixel.
use native.Mathlib.Nat.{mul_comm, mul-le-mul_right}
use sill_os.Base.{
  ℕ, ◌+◌, ◌*◌, ◌^◌, ◌<◌, ◌≡◌, refl, sym, ◌∙◌, Bool, true, false, inl, inr, ◌&&◌, ◌||◌, ltb, leb,
  ◌==◌, if◌then◌else◌, arith, Bool-cases, if_true, if_false,
}
use sill_os.Fb.{Framebuffer, Color, put_pixel, clear, draw_rect, color_to_u32, fill, fill_rows}
use sill_os.Fb.Pixels.{in_rect, row-le, fill-pixel, fill_rows-pixel}
use sill_os.Fb.Dirty.{clipped, clipped_eq}
use sill_os.Fb.Shown.{IsValid}
use sill_os.Fb.Drawn.{Drawn, unseen, seen, Drawn-info, Drawn-pixel, Drawn-IsValid, pixel_at, cut}

cut-axis :
    (x width limit p : ℕ)
    → limit < 2 ^ 63
    → p < limit
    → (leb x p && ltb p (x + cut x width limit)) ≡ (leb x p && ltb p (x + width))
cut-axis x width limit p small inside = rw (clipped_eq x width limit small) (ground arith)

conjoin :
    (a b c d e f : Bool)
    → (a && b) ≡ (a && e)
    → (c && d) ≡ (c && f)
    → (a && b && c && d) ≡ (a && e && c && f)
conjoin a b c d e f g h = ground arith

-- The clipped rectangle has the same pixels on the screen.
in_rect-cut :
    (x y width height W H px py : ℕ)
    → W < 2 ^ 63
    → H < 2 ^ 63
    → px < W
    → py < H
    → in_rect x y (cut x width W) (cut y height H) px py ≡ in_rect x y width height px py
in_rect-cut x y width height W H px py w h inx iny =
    conjoin (leb x px) _ (leb y py) _ _ _ (cut-axis x width W px w inx)
      (cut-axis y height H py h iny)

pub if_swap : (a b : Bool) (x y : ℕ) → a ≡ b → (if a then x else y) ≡ (if b then x else y)
if_swap a b x y e = rw e

module _ (s : Framebuffer) (v : IsValid s) where
  put_pixel-Drawn :
      (x y : ℕ) (color : Color)
      → Drawn s
          (fill s.back (y * s.info.width + x) 1 (color_to_u32 s.info color))
          x
          y
          1
          1
          (put_pixel s x y color)
  put_pixel-Drawn x y color = elim (Bool-cases (leb s.info.width x || leb s.info.height y)) [
    | inl off ↦ unseen (unfold put_pixel in if_true _ _ off) (λ px py inx iny. ground arith)
    | inr on ↦
        seen
          (record {
            narrow = v.narrow;
            low = v.low;
            wide = omega arith;
            tall = omega arith;
            left = ground arith;
            top = ground arith;
          })
          (ground arith) (unfold put_pixel in if_false _ _ on)
  ]

  -- `put_pixel` colours the pixel at its coordinates, if that is on the screen, and no other.
  pub put_pixel-pixel :
      (x y : ℕ) (color : Color) (px py : ℕ)
      → px < s.info.width
      → py < s.info.height
      → pixel_at (put_pixel s x y color) px py
        ≡ (if in_rect x y 1 1 px py then color_to_u32 s.info color else pixel_at s px py)
  put_pixel-pixel x y color px py inx iny =
      Drawn-pixel s v _ x y 1 1 _ (put_pixel-Drawn x y color) px py _ inx iny (λ o fits.
        fill-pixel s.info.width px py inx s.back x y 1 _ fits
        ∙ if_swap (py == y && leb x px && ltb px (x + 1)) (in_rect x y 1 1 px py) _ _
            (ground arith))

  draw_rect-Drawn :
      (x y width height : ℕ) (color : Color)
      → Drawn s
          (fill_rows
            (cut y height s.info.height)
            s.back
            s.info.width
            x
            y
            (cut x width s.info.width)
            (color_to_u32 s.info color))
          x
          y
          (cut x width s.info.width)
          (cut y height s.info.height)
          (draw_rect s x y width height color)
  draw_rect-Drawn x y width height color =
      let cx = clipped_eq x width s.info.width (omega (arith, v.narrow)) in
      let cy = clipped_eq y height s.info.height (omega (arith, v.low)) in
      elim (Bool-cases (width == 0 || height == 0)) [
        | inl empty ↦
            unseen (unfold draw_rect in if_true _ _ empty)
              (λ px py inx iny. rw (cx, cy) (ground arith))
        | inr sized ↦ elim (Bool-cases (leb s.info.width x || leb s.info.height y)) [
          | inl off ↦
              unseen (unfold draw_rect in if_false _ _ sized ∙ if_true _ _ off)
                (λ px py inx iny. rw (cx, cy) (ground arith))
          | inr on ↦
              seen
                (record {
                  narrow = v.narrow;
                  low = v.low;
                  wide = rw cx (ground arith);
                  tall = rw cy (ground arith);
                  left = ground arith;
                  top = ground arith;
                })
                (rw cx (ground arith))
                (let left_over : (leb (clipped x width s.info.width) x
                        || leb (clipped y height s.info.height) y)
                      ≡ false =
                    rw (cx, cy) (ground arith) in
                  unfold draw_rect in if_false _ _ sized ∙ if_false _ _ on ∙ if_false _ _ left_over)
        ]
      ]

  -- On a valid framebuffer, for any rectangle and colour: after draw_rect a pixel of the screen has
  -- the colour if it lies in the rectangle, and is as before if not.
  pub draw_rect-pixel :
      (x y width height : ℕ) (color : Color) (px py : ℕ)
      → px < s.info.width
      → py < s.info.height
      → pixel_at (draw_rect s x y width height color) px py
        ≡ (if in_rect x y width height px py then color_to_u32 s.info color else pixel_at s px py)
  draw_rect-pixel x y width height color px py inx iny =
      Drawn-pixel s v _ x y _ _ _ (draw_rect-Drawn x y width height color) px py _ inx iny
        (λ o fits. fill_rows-pixel s.info.width px py inx _ s.back x y _ _ fits)
      ∙ if_swap _ _ _ _ (
          in_rect-cut x y width height s.info.width s.info.height px py (omega (arith, v.narrow))
            (omega (arith, v.low)) inx iny)

  clear-Drawn :
      (color : Color)
      → Drawn s
          (fill s.back 0 (s.info.width * s.info.height) (color_to_u32 s.info color))
          0
          0
          s.info.width
          s.info.height
          (clear s color)
  clear-Drawn color =
      seen
        (record {
          narrow = v.narrow;
          low = v.low;
          wide = v.wide;
          tall = v.tall;
          left = v.wide;
          top = v.tall;
        })
        (omega arith) (unfold clear in refl)

  -- `clear` colours every pixel.
  pub clear-pixel :
      (color : Color) (px py : ℕ)
      → px < s.info.width
      → py < s.info.height
      → pixel_at (clear s color) px py ≡ color_to_u32 s.info color
  clear-pixel color px py inx iny =
      let screen : in_rect 0 0 s.info.width s.info.height px py ≡ true = ground arith in
      Drawn-pixel s v _ 0 0 _ _ _ (clear-Drawn color) px py (color_to_u32 s.info color) inx iny
        (λ o fits. unfold fill in if_true _ _ (inside px py inx iny) ∙ sym (if_true _ _ screen))
      ∙ if_true _ _ screen
    where
      inside :
          (px py : ℕ)
          → px < s.info.width
          → py < s.info.height
          → (leb 0 (py * s.info.width + px)
              && ltb (py * s.info.width + px) (0 + s.info.width * s.info.height))
            ≡ true
      inside px py inx iny =
          let rows = row-le s.info.width py s.info.height iny in
          let swap = mul_comm s.info.width s.info.height in ground arith

  pub put_pixel-IsValid : (x y : ℕ) (color : Color) → IsValid (put_pixel s x y color)
  put_pixel-IsValid x y color =
      Drawn-IsValid s v _ x y 1 1 _ (put_pixel-Drawn x y color) (λ px py inx fits off.
        fill-pixel s.info.width px py inx s.back x y 1 _ fits
        ∙ if_false {b = py == y && leb x px && ltb px (x + 1)} _ _ (ground arith))

  pub draw_rect-IsValid :
      (x y width height : ℕ) (color : Color) → IsValid (draw_rect s x y width height color)
  draw_rect-IsValid x y width height color =
      Drawn-IsValid s v _ x y _ _ _ (draw_rect-Drawn x y width height color) (λ px py inx fits off.
        fill_rows-pixel s.info.width px py inx _ s.back x y _ _ fits ∙ if_false _ _ off)

  pub clear-IsValid : (color : Color) → IsValid (clear s color)
  clear-IsValid color =
      Drawn-IsValid s v _ 0 0 _ _ _ (clear-Drawn color)
        (λ px py inx fits off. unfold fill in if_false _ _ (outside px py inx off))
    where
      outside :
          (px py : ℕ)
          → px < s.info.width
          → in_rect 0 0 s.info.width s.info.height px py ≡ false
          → (leb 0 (py * s.info.width + px)
              && ltb (py * s.info.width + px) (0 + s.info.width * s.info.height))
            ≡ false
      outside px py inx off =
          let rows = mul-le-mul_right {m = s.info.height} {n = py} s.info.width (ground arith) in
          let swap = mul_comm s.info.width s.info.height in ground arith

  pub put_pixel-info : (x y : ℕ) (color : Color) → (put_pixel s x y color).info ≡ s.info
  put_pixel-info x y color = Drawn-info s v _ x y 1 1 _ (put_pixel-Drawn x y color)

  pub draw_rect-info :
      (x y width height : ℕ) (color : Color) → (draw_rect s x y width height color).info ≡ s.info
  draw_rect-info x y width height color =
      Drawn-info s v _ x y _ _ _ (draw_rect-Drawn x y width height color)

  pub clear-info : (color : Color) → (clear s color).info ≡ s.info
  clear-info color = Drawn-info s v _ 0 0 _ _ _ (clear-Drawn color)
