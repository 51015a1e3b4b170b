-- ===== src/Fb/Scroll.antt =====
-- `scroll_up` of src/fb.rs, pixel by pixel.
use sill_os.Base.{
  ℕ, ◌+◌, ◌-◌, ◌≤◌, ◌<◌, ◌≡◌, ap, sym, subst, ◌∙◌, true, false, inl, inr, ltb, leb, ◌==◌,
  if◌then◌else◌, arith, Bool-cases, if_true, if_false,
}
use sill_os.Fb.{Framebuffer, Color, clear, draw_rect, copy_rect, scroll_up, color_to_u32}
use sill_os.Fb.Pixels.{in_rect}
use sill_os.Fb.Shown.{IsValid}
use sill_os.Fb.Drawn.{pixel_at}
use sill_os.Fb.Draw.{
  draw_rect-pixel, clear-pixel, draw_rect-IsValid, clear-IsValid, draw_rect-info, clear-info,
}
use sill_os.Fb.CopyRect.{copied, copy_rect-pixel, copy_rect-info, copy_rect-IsValid}

module _ (s : Framebuffer) (v : IsValid s) where
  module _ (pixels : ℕ) (color : Color) where
    moved : Framebuffer
    moved = copy_rect s 0 pixels 0 0 s.info.width (s.info.height - pixels)

    scroll_up-still : (pixels == 0) ≡ true → scroll_up s pixels color ≡ s
    scroll_up-still still = unfold scroll_up in if_true _ _ still

    scroll_up-all :
        (pixels == 0) ≡ false
        → leb s.info.height pixels ≡ true
        → scroll_up s pixels color ≡ clear s color
    scroll_up-all some_pixels all = unfold scroll_up in if_false _ _ some_pixels ∙ if_true _ _ all

    scroll_up-moved :
        (pixels == 0) ≡ false
        → leb s.info.height pixels ≡ false
        → scroll_up s pixels color
          ≡ draw_rect moved 0 (s.info.height - pixels) s.info.width pixels color
    scroll_up-moved some_pixels some_left =
        unfold scroll_up moved in if_false _ _ some_pixels ∙ if_false _ _ some_left

    moved-info : moved.info ≡ s.info
    moved-info =
        unfold moved in copy_rect-info s v 0 pixels 0 0 s.info.width (s.info.height - pixels)

    moved-IsValid : IsValid moved
    moved-IsValid =
        unfold moved in copy_rect-IsValid s v 0 pixels 0 0 s.info.width (s.info.height - pixels)

    moved-pixel :
        (px py : ℕ)
        → px < s.info.width
        → py < s.info.height
        → pixel_at moved px py ≡ (
            if ltb (py + pixels) s.info.height
            then pixel_at s px (py + pixels)
            else pixel_at s px py)
    moved-pixel px py inx iny =
        let there : copied s 0 pixels 0 0 s.info.width (s.info.height - pixels) px py
            ≡ ltb (py + pixels) s.info.height =
          ground arith in
        let column : 0 + (px - 0) ≡ px = omega arith in
        let row : pixels + (py - 0) ≡ py + pixels = omega arith in
        unfold moved in
        copy_rect-pixel s v 0 pixels 0 0 s.info.width (s.info.height - pixels) px py (omega arith)
          inx iny
        ∙ rw (there, column, row)

    -- On a valid framebuffer, for any number of pixels and any colour: after scroll_up a pixel of
    -- the screen is the one that was that many rows below it, or has the colour if that row was not
    -- on the screen.
    pub scroll_up-pixel :
        (px py : ℕ)
        → px < s.info.width
        → py < s.info.height
        → pixel_at (scroll_up s pixels color) px py ≡ (
            if ltb (py + pixels) s.info.height
            then pixel_at s px (py + pixels)
            else color_to_u32 s.info color)
    scroll_up-pixel px py inx iny = elim (Bool-cases (pixels == 0)) [
      | inl still ↦
          let e : pixels ≡ 0 = ground arith in
          let stay : ltb (py + pixels) s.info.height ≡ true = ground arith in
          ap (λ t. pixel_at t px py) (scroll_up-still still)
          ∙ ap (λ r. pixel_at s px r) (omega arith)
          ∙ sym (if_true _ _ stay)
      | inr some_pixels ↦ elim (Bool-cases (leb s.info.height pixels)) [
        | inl all ↦
            let gone : ltb (py + pixels) s.info.height ≡ false = ground arith in
            ap (λ t. pixel_at t px py) (scroll_up-all some_pixels all)
            ∙ clear-pixel s v color px py inx iny
            ∙ sym (if_false _ _ gone)
        | inr some_left ↦
            ap (λ t. pixel_at t px py) (scroll_up-moved some_pixels some_left)
            ∙ draw_rect-pixel moved moved-IsValid 0 (s.info.height - pixels) s.info.width pixels
                color px py (rw moved-info inx) (rw moved-info iny)
            ∙ joined px py inx iny (ground arith)
      ]
    ]
      where
        joined :
            (px py : ℕ)
            → px < s.info.width
            → py < s.info.height
            → pixels ≤ s.info.height
            → (if in_rect 0 (s.info.height - pixels) s.info.width pixels px py
                then color_to_u32 moved.info color
                else pixel_at moved px py)
              ≡ (if ltb (py + pixels) s.info.height
                  then pixel_at s px (py + pixels)
                  else color_to_u32 s.info color)
        joined px py inx iny le = elim (Bool-cases (ltb (py + pixels) s.info.height)) [
          | inl kept ↦
              let above : in_rect 0 (s.info.height - pixels) s.info.width pixels px py ≡ false =
                ground arith in
              if_false _ _ above
              ∙ moved-pixel px py inx iny
              ∙ if_true _ _ kept
              ∙ sym (if_true _ _ kept)
          | inr free ↦
              let below : in_rect 0 (s.info.height - pixels) s.info.width pixels px py ≡ true =
                ground arith in
              if_true _ _ below
              ∙ ap (λ i. color_to_u32 i color) moved-info
              ∙ sym (if_false _ _ free)
        ]

    pub scroll_up-IsValid : IsValid (scroll_up s pixels color)
    scroll_up-IsValid = elim (Bool-cases (pixels == 0)) [
      | inl still ↦ subst IsValid (sym (scroll_up-still still)) v
      | inr some_pixels ↦ elim (Bool-cases (leb s.info.height pixels)) [
        | inl all ↦ subst IsValid (sym (scroll_up-all some_pixels all)) (clear-IsValid s v color)
        | inr some_left ↦ subst IsValid (sym (scroll_up-moved some_pixels some_left)) (
            draw_rect-IsValid moved moved-IsValid 0 (s.info.height - pixels) s.info.width pixels
              color)
      ]
    ]

    pub scroll_up-info : (scroll_up s pixels color).info ≡ s.info
    scroll_up-info = elim (Bool-cases (pixels == 0)) [
      | inl still ↦ ap (λ t. t.info) (scroll_up-still still)
      | inr some_pixels ↦ elim (Bool-cases (leb s.info.height pixels)) [
        | inl all ↦ ap (λ t. t.info) (scroll_up-all some_pixels all) ∙ clear-info s v color
        | inr some_left ↦
            ap (λ t. t.info) (scroll_up-moved some_pixels some_left)
            ∙ draw_rect-info moved moved-IsValid 0 (s.info.height - pixels) s.info.width pixels
                color
            ∙ moved-info
      ]
    ]
