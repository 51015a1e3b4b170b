-- ===== src/Fb/Dirty.antt =====
-- The dirty rectangle of src/fb.rs and `mark_dirty`.
use sill_os.Base.{
  ℕ, ◌+◌, ◌^◌, ◌≤◌, ◌<◌, ◌≡◌, ap, ◌∙◌, Bool, true, false, inl, inr, ◌&&◌, ◌||◌, not, ltb, leb, ◌==◌,
  arith, Bool-cases, if_true, if_false, min, max,
}
use sill_os.Fb.{Framebuffer, mark_dirty, saturating_add, max_width, max_height}
use sill_os.Fb.Pixels.{in_rect}

-- The pixel is in the dirty rectangle.
abbrev pub covered : Framebuffer → ℕ → ℕ → Bool
covered s px py =
    s.dirty
    && leb s.dirty_min_x px
    && ltb px s.dirty_max_x
    && leb s.dirty_min_y py
    && ltb py s.dirty_max_y

module _ (s : Framebuffer) (x y width height : ℕ) where
  pub mark_dirty-back : (mark_dirty s x y width height).back ≡ s.back
  mark_dirty-back = unfold mark_dirty saturating_add in ground arith

  pub mark_dirty-front : (mark_dirty s x y width height).front ≡ s.front
  mark_dirty-front = unfold mark_dirty saturating_add in ground arith

  pub mark_dirty-info : (mark_dirty s x y width height).info ≡ s.info
  mark_dirty-info = unfold mark_dirty saturating_add in ground arith

-- The right and the lower end of what `mark_dirty` adds.
abbrev pub clipped : ℕ → ℕ → ℕ → ℕ
clipped x width limit = min (saturating_add x width) limit

pub clipped_eq :
    (x width limit : ℕ) → limit < 2 ^ 63 → clipped x width limit ≡ min (x + width) limit
clipped_eq x width limit small = unfold saturating_add in ground arith

-- A rectangle of which something is on the screen.
pub record OnScreen (s : Framebuffer) (x y width height : ℕ) : Type 0 where
  pub narrow : s.info.width ≤ max_width
  pub low : s.info.height ≤ max_height
  pub wide : 0 < width
  pub tall : 0 < height
  pub left : x < s.info.width
  pub top : y < s.info.height

-- Along one axis the joined interval holds both.
joined :
    (a b x w limit p : ℕ)
    → p < limit
    → (leb a p && ltb p b) ≡ true
    → (leb (min a x) p && ltb p (max b (min (x + w) limit))) ≡ true
joined a b x w limit p h t = ground arith

joined_new :
    (a b x w limit p : ℕ)
    → p < limit
    → (leb x p && ltb p (x + w)) ≡ true
    → (leb (min a x) p && ltb p (max b (min (x + w) limit))) ≡ true
joined_new a b x w limit p h t = ground arith

and4 :
    (d a b c e : Bool)
    → d ≡ true
    → (a && b) ≡ true
    → (c && e) ≡ true
    → (d && a && b && c && e) ≡ true
and4 d a b c e hd hab hce = ground arith

module _ (s : Framebuffer) (x y width height : ℕ) (v : OnScreen s x y width height) where
  sized : (width == 0 || height == 0) ≡ false
  sized = ground (arith, v.wide, v.tall)

  placed : (leb s.info.width x || leb s.info.height y) ≡ false
  placed = ground (arith, v.left, v.top)

  cut : (leb (clipped x width s.info.width) x || leb (clipped y height s.info.height) y) ≡ false
  cut =
      rw
        (
          clipped_eq x width s.info.width (omega (arith, v.narrow)),
          clipped_eq y height s.info.height (omega (arith, v.low)),
        )
        (ground (arith, v.wide, v.tall, v.left, v.top))

  -- On a clean buffer the rectangle is the given one.
  pub mark_dirty-clean :
      s.dirty ≡ false
      → mark_dirty s x y width height ≡ record s {
        dirty = true;
        dirty_min_x = x;
        dirty_min_y = y;
        dirty_max_x = clipped x width s.info.width;
        dirty_max_y = clipped y height s.info.height;
      }
  mark_dirty-clean clean =
      unfold mark_dirty in
      if_false _ _ sized ∙ if_false _ _ placed ∙ if_false _ _ cut ∙ if_true _ _ (ap not clean)

  -- On a dirty one it is the smallest that holds both.
  pub mark_dirty-joined :
      s.dirty ≡ true
      → mark_dirty s x y width height ≡ record s {
        dirty_min_x = min s.dirty_min_x x;
        dirty_min_y = min s.dirty_min_y y;
        dirty_max_x = max s.dirty_max_x (clipped x width s.info.width);
        dirty_max_y = max s.dirty_max_y (clipped y height s.info.height);
      }
  mark_dirty-joined marked =
      unfold mark_dirty in
      if_false _ _ sized ∙ if_false _ _ placed ∙ if_false _ _ cut ∙ if_false _ _ (ap not marked)

  -- What was dirty stays dirty, and so becomes the rectangle.
  pub mark_dirty-covered :
      (px py : ℕ)
      → px < s.info.width
      → py < s.info.height
      → (covered s px py || in_rect x y width height px py) ≡ true
      → covered (mark_dirty s x y width height) px py ≡ true
  mark_dirty-covered px py inx iny t =
      let cx = clipped_eq x width s.info.width (omega (arith, v.narrow)) in
      let cy = clipped_eq y height s.info.height (omega (arith, v.low)) in
      elim (Bool-cases s.dirty) [
        | inl d ↦
            rw (mark_dirty-joined d, cx, cy)
              (elim (Bool-cases (in_rect x y width height px py)) [
                | inl new ↦
                    and4 s.dirty _ _ _ _ d
                      (joined_new s.dirty_min_x s.dirty_max_x x width s.info.width px inx
                        (ground arith))
                      (joined_new s.dirty_min_y s.dirty_max_y y height s.info.height py iny
                        (ground arith))
                | inr kept ↦
                    and4 s.dirty _ _ _ _ d
                      (joined s.dirty_min_x s.dirty_max_x x width s.info.width px inx
                        (ground arith))
                      (joined s.dirty_min_y s.dirty_max_y y height s.info.height py iny
                        (ground arith))
              ])
        | inr d ↦ rw (mark_dirty-clean d, cx, cy) (ground arith)
      ]

  -- The dirty rectangle stays on the screen.
  pub mark_dirty-inside :
      (s.dirty ≡ true → (s.dirty_max_x ≤ s.info.width) × (s.dirty_max_y ≤ s.info.height))
      → ((mark_dirty s x y width height).dirty_max_x ≤ s.info.width)
        × ((mark_dirty s x y width height).dirty_max_y ≤ s.info.height)
  mark_dirty-inside old =
      let cx = clipped_eq x width s.info.width (omega (arith, v.narrow)) in
      let cy = clipped_eq y height s.info.height (omega (arith, v.low)) in
      elim (Bool-cases s.dirty) [
        | inl d ↦
            rw (mark_dirty-joined d, cx, cy) (ground (arith, (old d).0), ground (arith, (old d).1))
        | inr d ↦ rw (mark_dirty-clean d, cx, cy) (ground arith, ground arith)
      ]
