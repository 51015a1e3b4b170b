-- ===== src/Fb/CopyRect.antt =====
-- `copy_rect` of src/fb.rs, pixel by pixel.
use sill_os.Base.{
  ℕ, ◌+◌, ◌-◌, ◌≤◌, ◌<◌, ◌≡◌, ◌∙◌, Bool, false, inl, inr, ◌&&◌, ◌||◌, ltb, leb, ◌==◌, if◌then◌else◌,
  arith, Bool-cases, if_true, if_false, min,
}
use sill_os.Fb.{Framebuffer, copy_rect, copy_rows}
use sill_os.Fb.Pixels.{in_rect}
use sill_os.Fb.Copies.{copy_rows-pixel, copy_rows-outside}
use sill_os.Fb.Shown.{IsValid}
use sill_os.Fb.Drawn.{Drawn, unseen, seen, Drawn-info, Drawn-pixel, Drawn-IsValid, pixel_at}
use sill_os.Fb.Draw.{if_swap}

-- A length cut where the source or the destination leaves the screen.
abbrev room : ℕ → ℕ → ℕ → ℕ → ℕ
room length src dst limit = min (min length (limit - src)) (limit - dst)

-- The pixel lies in the destination, and its source on the screen.
abbrev pub copied : Framebuffer → ℕ → ℕ → ℕ → ℕ → ℕ → ℕ → ℕ → ℕ → Bool
copied s sx sy dx dy width height px py =
    in_rect dx dy width height px py
    && ltb (sx + (px - dx)) s.info.width
    && ltb (sy + (py - dy)) s.info.height

room-axis :
    (length src dst limit p : ℕ)
    → p < limit
    → (leb dst p && ltb p (dst + room length src dst limit))
      ≡ (leb dst p && ltb p (dst + length) && ltb (src + (p - dst)) limit)
room-axis length src dst limit p inside = ground arith

conjoin :
    (a b c d e f g h : Bool)
    → (a && b) ≡ (a && e && f)
    → (c && d) ≡ (c && g && h)
    → (a && b && c && d) ≡ ((a && e && c && g) && f && h)
conjoin a b c d e f g h p q = ground arith

module _ (s : Framebuffer) (v : IsValid s) where
  in_rect-room :
      (sx sy dx dy width height px py : ℕ)
      → px < s.info.width
      → py < s.info.height
      → in_rect dx dy (room width sx dx s.info.width) (room height sy dy s.info.height) px py
        ≡ copied s sx sy dx dy width height px py
  in_rect-room sx sy dx dy width height px py inx iny =
      conjoin (leb dx px) _ (leb dy py) _ _ _ _ _ (room-axis width sx dx s.info.width px inx)
        (room-axis height sy dy s.info.height py iny)

  copy_rect-Drawn :
      (sx sy dx dy width height : ℕ)
      → Drawn s
          (copy_rows
            (room height sy dy s.info.height)
            s.back
            s.info.width
            sx
            sy
            dx
            dy
            (room width sx dx s.info.width))
          dx
          dy
          (room width sx dx s.info.width)
          (room height sy dy s.info.height)
          (copy_rect s sx sy dx dy width height)
  copy_rect-Drawn sx sy dx dy width height = elim (Bool-cases (width == 0 || height == 0)) [
    | inl empty ↦ unseen (unfold copy_rect in if_true _ _ empty) (λ px py inx iny. ground arith)
    | inr sized ↦
        elim (Bool-cases (
          leb s.info.width sx
          || leb s.info.height sy
          || leb s.info.width dx
          || leb s.info.height dy)) [
            | inl off ↦
                unseen (unfold copy_rect in if_false _ _ sized ∙ if_true _ _ off)
                  (λ px py inx iny. ground arith)
            | inr on ↦
                let left_over : (room width sx dx s.info.width == 0
                      || room height sy dy s.info.height == 0)
                    ≡ false =
                  ground arith in
                seen
                  (record {
                    narrow = v.narrow;
                    low = v.low;
                    wide = ground arith;
                    tall = ground arith;
                    left = ground arith;
                    top = ground arith;
                  })
                  (ground arith)
                  (unfold copy_rect in
                    if_false _ _ sized ∙ if_false _ _ on ∙ if_false _ _ left_over)
          ]
  ]

  -- On a valid framebuffer, for a destination not below the source: after copy_rect a pixel of the
  -- screen that lies in the destination, with its source on the screen, is what its source was
  -- before, and any other pixel is as before.
  pub copy_rect-pixel :
      (sx sy dx dy width height px py : ℕ)
      → dy ≤ sy
      → px < s.info.width
      → py < s.info.height
      → pixel_at (copy_rect s sx sy dx dy width height) px py ≡ (
          if copied s sx sy dx dy width height px py
          then pixel_at s (sx + (px - dx)) (sy + (py - dy))
          else pixel_at s px py)
  copy_rect-pixel sx sy dx dy width height px py up inx iny =
      Drawn-pixel s v _ dx dy _ _ _ (copy_rect-Drawn sx sy dx dy width height) px py _ inx iny
        (λ o fits.
          copy_rows-pixel s.info.width (room width sx dx s.info.width) _ s.back sx sy dx dy px py
            inx (omega (arith, o.wide)) fits up)
      ∙ if_swap _ _ _ _ (in_rect-room sx sy dx dy width height px py inx iny)

  pub copy_rect-info :
      (sx sy dx dy width height : ℕ) → (copy_rect s sx sy dx dy width height).info ≡ s.info
  copy_rect-info sx sy dx dy width height =
      Drawn-info s v _ dx dy _ _ _ (copy_rect-Drawn sx sy dx dy width height)

  pub copy_rect-IsValid :
      (sx sy dx dy width height : ℕ) → IsValid (copy_rect s sx sy dx dy width height)
  copy_rect-IsValid sx sy dx dy width height =
      Drawn-IsValid s v _ dx dy _ _ _ (copy_rect-Drawn sx sy dx dy width height)
        (λ px py inx fits off.
          copy_rows-outside s.info.width (room width sx dx s.info.width) _ s.back sx sy dx dy px py
            inx fits off)
