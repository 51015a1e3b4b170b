-- ===== src/Fb/Present.antt =====
-- `present` of src/fb.rs.
use sill_os.Base.{
  ℕ, zero, suc, ◌+◌, ◌-◌, ◌*◌, ◌/◌, ◌%◌, ◌^◌, ◌≤◌, ◌<◌, ◌≡◌, refl, ap, sym, ◌∙◌, true, false, inl,
  inr, ◌&&◌, ◌||◌, not, ltb, leb, ◌==◌, if◌then◌else◌, arith, Bool-cases, if_true, if_false,
}
use sill_os.Fb.{Framebuffer, copy, byte_of, present_rows, present}
use sill_os.Fb.Pixels.{in_rect, in_span}
use sill_os.Fb.Dirty.{covered}
use sill_os.Fb.Shown.{IsValid, Shown}

byte_of-pixel :
    (buffer : ℕ → ℕ) (p c : ℕ) → c < 4 → byte_of buffer (p * 4 + c) ≡ buffer p / 256 ^ c % 256
byte_of-pixel buffer p c small =
    let index : (p * 4 + c) / 4 ≡ p = omega arith in
    let offset : (p * 4 + c) % 4 ≡ c = omega arith in unfold byte_of in rw (index, offset)

module _ (s : Framebuffer) (px py c : ℕ) (inside : px < s.info.width) (small : c < 4)
    (pitch : s.info.width * 4 ≤ s.info.front_pitch) where
  -- The bytes of a span of pixels, copied from the back buffer to the front buffer.
  copy-bytes :
      (front : ℕ → ℕ) (x y n : ℕ)
      → x + n ≤ s.info.width
      → copy
          (byte_of s.back)
          front
          (y * s.info.width * 4 + x * 4)
          (y * s.info.front_pitch + x * 4)
          (n * 4)
          (py * s.info.front_pitch + (px * 4 + c))
        ≡ (if py == y && leb x px && ltb px (x + n)
            then s.back (py * s.info.width + px) / 256 ^ c % 256
            else front (py * s.info.front_pitch + (px * 4 + c)))
  copy-bytes front x y n fits =
      unfold copy in
      rw (in_span s.info.front_pitch (x * 4) (n * 4) y (px * 4 + c) py (omega arith) (omega arith))
        (elim (Bool-cases (py == y && leb x px && ltb px (x + n))) [
          | inl t ↦
              let t4 : (py == y && leb (x * 4) (px * 4 + c) && ltb (px * 4 + c) (x * 4 + n * 4))
                  ≡ true =
                ground arith in
              let row : py ≡ y = ground arith in
              if_true _ _ t4
              ∙ ap (byte_of s.back) (rw row (ground arith))
              ∙ byte_of-pixel s.back (py * s.info.width + px) c small
              ∙ sym (if_true _ _ t)
          | inr f ↦
              let f4 : (py == y && leb (x * 4) (px * 4 + c) && ltb (px * 4 + c) (x * 4 + n * 4))
                  ≡ false =
                ground arith in
              if_false _ _ f4 ∙ sym (if_false _ _ f)
        ])

  present_rows-suc :
      (rows : ℕ) (front : ℕ → ℕ) (x y n : ℕ)
      → present_rows (suc rows) s front x y (n * 4)
        ≡ present_rows rows s
            (copy
              (byte_of s.back)
              front
              (y * s.info.width * 4 + x * 4)
              (y * s.info.front_pitch + x * 4)
              (n * 4))
            x
            (y + 1)
            (n * 4)
  present_rows-suc rows front x y n = unfold present_rows in refl

  present_rows-pixel :
      (rows : ℕ) (front : ℕ → ℕ) (x y n : ℕ)
      → x + n ≤ s.info.width
      → present_rows rows s front x y (n * 4) (py * s.info.front_pitch + (px * 4 + c)) ≡ (
          if in_rect x y n rows px py
          then s.back (py * s.info.width + px) / 256 ^ c % 256
          else front (py * s.info.front_pitch + (px * 4 + c)))
  present_rows-pixel zero front x y n fits =
      let off : in_rect x y n zero px py ≡ false = ground arith in
      unfold present_rows in sym (if_false _ _ off)
  present_rows-pixel (suc rows) front x y n fits =
      let rest =
        present_rows-pixel rows
          (copy (byte_of s.back) front (y * s.info.width * 4 + x * 4)
            (y * s.info.front_pitch + x * 4) (n * 4))
          x (y + 1) n fits in
      let first = copy-bytes front x y n fits in
      rw (present_rows-suc rows front x y n, rest, first) (ground arith)

present-clean : (s : Framebuffer) → s.dirty ≡ false → present s ≡ s
present-clean s d = unfold present in if_true _ _ (ap not d)

present-empty :
    (s : Framebuffer)
    → s.dirty ≡ true
    → (leb s.dirty_max_x s.dirty_min_x || leb s.dirty_max_y s.dirty_min_y) ≡ true
    → present s ≡ record s { dirty = false }
present-empty s d none_left = unfold present in if_false _ _ (ap not d) ∙ if_true _ _ none_left

-- The front buffer after the dirty rectangle has been copied.
abbrev copied_front : Framebuffer → ℕ → ℕ
copied_front s =
    present_rows (s.dirty_max_y - s.dirty_min_y) s s.front s.dirty_min_x s.dirty_min_y
      ((s.dirty_max_x - s.dirty_min_x) * 4)

present-copied :
    (s : Framebuffer)
    → s.dirty ≡ true
    → (leb s.dirty_max_x s.dirty_min_x || leb s.dirty_max_y s.dirty_min_y) ≡ false
    → present s ≡ record s { dirty = false; front = copied_front s }
present-copied s d some_left = unfold present in if_false _ _ (ap not d) ∙ if_false _ _ some_left

-- After a call of `present` nothing is dirty, the back buffer is as before, and the user sees it.
pub record Presented (s s' : Framebuffer) : Type 0 where
  pub clean : s'.dirty ≡ false
  pub back : s'.back ≡ s.back
  pub info : s'.info ≡ s.info
  pub shown : (px py : ℕ) → px < s.info.width → py < s.info.height → Shown s' px py

module _ (s : Framebuffer) (v : IsValid s) where
  copied_front-Shown :
      s.dirty ≡ true
      → (leb s.dirty_max_x s.dirty_min_x || leb s.dirty_max_y s.dirty_min_y) ≡ false
      → (px py : ℕ) → px < s.info.width
      → py < s.info.height
      → Shown (record s { dirty = false; front = copied_front s }) px py
  copied_front-Shown d some_left px py inx iny c small =
      present_rows-pixel s px py c inx small v.pitch _ s.front s.dirty_min_x s.dirty_min_y
        (s.dirty_max_x - s.dirty_min_x) (ground (arith, (v.inside d).0))
      ∙ elim (Bool-cases (
          in_rect s.dirty_min_x s.dirty_min_y (s.dirty_max_x - s.dirty_min_x)
            (s.dirty_max_y - s.dirty_min_y) px py)) [
              | inl t ↦ if_true _ _ t
              | inr f ↦
                  let untouched : covered s px py ≡ false = ground arith in
                  if_false _ _ f ∙ v.synced px py inx iny untouched c small
            ]

  -- On a valid framebuffer present leaves nothing dirty, the back buffer and the information as
  -- they are, and in the front buffer the four bytes of every pixel of the back buffer.
  pub present-Presented : Presented s (present s)
  present-Presented = elim (Bool-cases s.dirty) [
    | inr clean ↦ rw (present-clean s clean) (record {
      clean = clean;
      back = refl;
      info = refl;
      shown = λ px py inx iny. v.synced px py inx iny (ground arith);
    })
    | inl d ↦
        elim (Bool-cases (leb s.dirty_max_x s.dirty_min_x || leb s.dirty_max_y s.dirty_min_y)) [
          | inl none_left ↦ rw (present-empty s d none_left) (record {
            clean = refl;
            back = refl;
            info = refl;
            shown = λ px py inx iny. v.synced px py inx iny (ground arith);
          })
          | inr some_left ↦ rw (present-copied s d some_left) (record {
            clean = refl;
            back = refl;
            info = refl;
            shown = copied_front-Shown d some_left;
          })
        ]
  ]

  pub Presented-IsValid : (s' : Framebuffer) → Presented s s' → IsValid s'
  Presented-IsValid s' p = record {
    narrow = rw p.info v.narrow;
    low = rw p.info v.low;
    wide = rw p.info v.wide;
    tall = rw p.info v.tall;
    pitch = rw p.info v.pitch;
    inside = λ d. absurd (cc p.clean);
    synced = λ px py inx iny free. p.shown px py (rw (sym p.info) inx) (rw (sym p.info) iny);
  }
