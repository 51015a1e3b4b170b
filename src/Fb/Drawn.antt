-- ===== src/Fb/Drawn.antt =====
-- The common shape of the drawing operations of src/fb.rs.
use sill_os.Base.{ℕ, ◌+◌, ◌-◌, ◌*◌, ◌≤◌, ◌<◌, ◌≡◌, ap, sym, ◌∙◌, false, if◌then◌else◌, if_false}
use sill_os.Fb.{Framebuffer, mark_dirty}
use sill_os.Fb.Pixels.{in_rect}
use sill_os.Fb.Dirty.{OnScreen, clipped, mark_dirty-back, mark_dirty-info}
use sill_os.Fb.Shown.{IsValid, drawn-IsValid}

-- The pixel of the back buffer at (px, py).
abbrev pub pixel_at : Framebuffer → ℕ → ℕ → ℕ
pixel_at s px py = s.back (py * s.info.width + px)

-- A drawing operation: nothing of the rectangle is on the screen, or the pixels of `back` come and
-- the rectangle is marked.
pub data Drawn (s : Framebuffer) (back : ℕ → ℕ) (x y width height : ℕ) (s' : Framebuffer)
    : Type 0 where
  unseen :
      s' ≡ s
      → ((px py : ℕ)
          → px < s.info.width
          → py < s.info.height
          → in_rect x y width height px py ≡ false)
      → Drawn s back x y width height s'
  seen :
      OnScreen s x y width height
      → x + width ≤ s.info.width
      → s' ≡ mark_dirty (record s { back = back }) x y width height
      → Drawn s back x y width height s'

-- The part of a length that fits between `x` and `limit`.
abbrev pub cut : ℕ → ℕ → ℕ → ℕ
cut x width limit = clipped x width limit - x

module _ (s : Framebuffer) (v : IsValid s) where
  module _ (back : ℕ → ℕ) (x y width height : ℕ) (s' : Framebuffer)
      (d : Drawn s back x y width height s') where
    pub Drawn-info : s'.info ≡ s.info
    Drawn-info = elim d [
      | unseen e out ↦ ap (λ t. t.info) e
      | seen o fits e ↦
          ap (λ t. t.info) e ∙ mark_dirty-info (record s { back = back }) x y width height
    ]

    pub Drawn-pixel :
        (px py : ℕ) (value : ℕ)
        → px < s.info.width
        → py < s.info.height
        → (OnScreen s x y width height
            → x + width ≤ s.info.width
            → back (py * s.info.width + px)
              ≡ (if in_rect x y width height px py then value else pixel_at s px py))
        → pixel_at s' px py ≡ (if in_rect x y width height px py then value else pixel_at s px py)
    Drawn-pixel px py value inx iny drew = elim d [
      | unseen e out ↦ ap (λ t. pixel_at t px py) e ∙ sym (if_false _ _ (out px py inx iny))
      | seen o fits e ↦
          ap (λ t. pixel_at t px py) e
          ∙ ap
              (λ i.
                (mark_dirty (record s { back = back }) x y width height).back (py * i.width + px))
              (mark_dirty-info (record s { back = back }) x y width height)
          ∙ ap (λ b. b (py * s.info.width + px))
              (mark_dirty-back (record s { back = back }) x y width height)
          ∙ drew o fits
    ]

    pub Drawn-IsValid :
        ((px py : ℕ)
          → px < s.info.width
          → x + width ≤ s.info.width
          → in_rect x y width height px py ≡ false
          → back (py * s.info.width + px) ≡ pixel_at s px py)
        → IsValid s'
    Drawn-IsValid outside = elim d [
      | unseen e out ↦ rw e v
      | seen o fits e ↦ rw e (
          drawn-IsValid s back x y width height v
            (record {
              narrow = o.narrow;
              low = o.low;
              wide = o.wide;
              tall = o.tall;
              left = o.left;
              top = o.top;
            })
            (λ px py inx off. outside px py inx fits off))
    ]
