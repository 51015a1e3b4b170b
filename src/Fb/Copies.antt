-- ===== src/Fb/Copies.antt =====
-- The row copies of src/fb.rs, pixel by pixel.
use sill_os.Base.{
  ℕ, zero, suc, ◌+◌, ◌-◌, ◌*◌, ◌≤◌, ◌<◌, ◌≡◌, refl, ap, sym, ◌∙◌, true, false, inl, inr, ◌&&◌, ltb,
  leb, ◌==◌, if◌then◌else◌, arith, Bool-cases, if_true, if_false,
}
use sill_os.Fb.{copy, copy_rows}
use sill_os.Fb.Pixels.{in_rect, in_span}

module _ (pitch width : ℕ) where
  -- A copied span of a row.
  pub copy-pixel :
      (from to : ℕ → ℕ) (sx sy dx dy px py : ℕ)
      → px < pitch
      → dx + width ≤ pitch
      → copy from to (sy * pitch + sx) (dy * pitch + dx) width (py * pitch + px) ≡ (
          if py == dy && leb dx px && ltb px (dx + width)
          then from (sy * pitch + (sx + (px - dx)))
          else to (py * pitch + px))
  copy-pixel from to sx sy dx dy px py inside fits =
      unfold copy in
      rw (in_span pitch dx width dy px py inside fits)
        (elim (Bool-cases (py == dy && leb dx px && ltb px (dx + width))) [
          | inl t ↦
              let row : py ≡ dy = ground arith in
              if_true _ _ t ∙ ap from (rw row (ground arith)) ∙ sym (if_true _ _ t)
          | inr f ↦ if_false _ _ f ∙ sym (if_false _ _ f)
        ])

  copy-pixel-other :
      (from to : ℕ → ℕ) (sx sy dx dy px py : ℕ)
      → px < pitch
      → dx + width ≤ pitch
      → dy < py
      → copy from to (sy * pitch + sx) (dy * pitch + dx) width (py * pitch + px)
        ≡ to (py * pitch + px)
  copy-pixel-other from to sx sy dx dy px py inside fits other =
      let off : (py == dy && leb dx px && ltb px (dx + width)) ≡ false = ground arith in
      copy-pixel from to sx sy dx dy px py inside fits ∙ if_false _ _ off

  copy_rows-suc :
      (rows : ℕ) (buffer : ℕ → ℕ) (sx sy dx dy : ℕ)
      → copy_rows (suc rows) buffer pitch sx sy dx dy width
        ≡ copy_rows rows
            (copy buffer buffer (sy * pitch + sx) (dy * pitch + dx) width)
            pitch
            sx
            (sy + 1)
            dx
            (dy + 1)
            width
  copy_rows-suc rows buffer sx sy dx dy = unfold copy_rows in refl

  -- Copied upwards or within its rows, a rectangle arrives as it was, also where the two overlap.
  pub copy_rows-pixel :
      (rows : ℕ) (buffer : ℕ → ℕ) (sx sy dx dy px py : ℕ)
      → px < pitch
      → sx + width ≤ pitch
      → dx + width ≤ pitch
      → dy ≤ sy
      → copy_rows rows buffer pitch sx sy dx dy width (py * pitch + px) ≡ (
          if in_rect dx dy width rows px py
          then buffer ((sy + (py - dy)) * pitch + (sx + (px - dx)))
          else buffer (py * pitch + px))
  copy_rows-pixel zero buffer sx sy dx dy px py inside fits fitd up =
      let off : in_rect dx dy width zero px py ≡ false = ground arith in
      unfold copy_rows in sym (if_false _ _ off)
  copy_rows-pixel (suc rows) buffer sx sy dx dy px py inside fits fitd up =
      copy_rows-suc-at rows
      ∙ copy_rows-pixel rows next sx (sy + 1) dx (dy + 1) px py inside fits fitd (omega arith)
      ∙ elim (Bool-cases (in_rect dx (dy + 1) width rows px py)) [
        | inl t ↦
            let whole : in_rect dx dy width (suc rows) px py ≡ true = ground arith in
            let row : sy + 1 + (py - (dy + 1)) ≡ sy + (py - dy) = ground arith in
            if_true _ _ t
            ∙ copy-pixel-other buffer buffer sx sy dx dy (sx + (px - dx)) (sy + 1 + (py - (dy + 1)))
                (ground arith) fitd (omega arith)
            ∙ ap (λ r. buffer (r * pitch + (sx + (px - dx)))) row
            ∙ sym (if_true _ _ whole)
        | inr f ↦ if_false _ _ f ∙ copy-pixel buffer buffer sx sy dx dy px py inside fitd ∙ first f
      ]
    where
      next : ℕ → ℕ
      next = copy buffer buffer (sy * pitch + sx) (dy * pitch + dx) width

      copy_rows-suc-at :
          (n : ℕ)
          → copy_rows (suc n) buffer pitch sx sy dx dy width (py * pitch + px)
            ≡ copy_rows n next pitch sx (sy + 1) dx (dy + 1) width (py * pitch + px)
      copy_rows-suc-at n = ap (λ g. g (py * pitch + px)) (copy_rows-suc n buffer sx sy dx dy)

      first :
          in_rect dx (dy + 1) width rows px py ≡ false
          → (if py == dy && leb dx px && ltb px (dx + width)
              then buffer (sy * pitch + (sx + (px - dx)))
              else buffer (py * pitch + px))
            ≡ (if in_rect dx dy width (suc rows) px py
                then buffer ((sy + (py - dy)) * pitch + (sx + (px - dx)))
                else buffer (py * pitch + px))
      first f = elim (Bool-cases (py == dy && leb dx px && ltb px (dx + width))) [
        | inl t ↦
            let whole : in_rect dx dy width (suc rows) px py ≡ true = ground arith in
            let row : sy ≡ sy + (py - dy) = ground arith in
            if_true _ _ t
            ∙ ap (λ r. buffer (r * pitch + (sx + (px - dx)))) row
            ∙ sym (if_true _ _ whole)
        | inr o ↦
            let outside : in_rect dx dy width (suc rows) px py ≡ false = ground arith in
            if_false _ _ o ∙ sym (if_false _ _ outside)
      ]

  -- Outside of the destination nothing changes, whichever way the rectangle is copied.
  pub copy_rows-outside :
      (rows : ℕ) (buffer : ℕ → ℕ) (sx sy dx dy px py : ℕ)
      → px < pitch
      → dx + width ≤ pitch
      → in_rect dx dy width rows px py ≡ false
      → copy_rows rows buffer pitch sx sy dx dy width (py * pitch + px) ≡ buffer (py * pitch + px)
  copy_rows-outside zero buffer sx sy dx dy px py inside fitd off = unfold copy_rows in refl
  copy_rows-outside (suc rows) buffer sx sy dx dy px py inside fitd off =
      let away : (py == dy && leb dx px && ltb px (dx + width)) ≡ false = ground arith in
      ap (λ g. g (py * pitch + px)) (copy_rows-suc rows buffer sx sy dx dy)
      ∙ copy_rows-outside rows _ sx (sy + 1) dx (dy + 1) px py inside fitd (ground arith)
      ∙ copy-pixel buffer buffer sx sy dx dy px py inside fitd
      ∙ if_false _ _ away
