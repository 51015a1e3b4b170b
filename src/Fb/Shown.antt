-- ===== src/Fb/Shown.antt =====
-- The relation between the front buffer and the back buffer of src/fb.rs.
use sill_os.Base.{
  ℕ, ◌+◌, ◌*◌, ◌/◌, ◌%◌, ◌^◌, ◌≤◌, ◌<◌, ◌≡◌, ap, sym, ◌∙◌, true, false, inl, inr, ◌||◌, arith,
  Bool-cases,
}
use sill_os.Fb.{Framebuffer, mark_dirty, max_width, max_height}
use sill_os.Fb.Pixels.{in_rect}
use sill_os.Fb.Dirty.{
  covered, OnScreen, mark_dirty-back, mark_dirty-front, mark_dirty-info, mark_dirty-covered,
  mark_dirty-inside,
}

-- The front buffer has at (px, py) the four bytes of the back buffer's pixel.
abbrev pub Shown : Framebuffer → ℕ → ℕ → Type 0
Shown s px py =
    (c : ℕ)
    → c < 4
    → s.front (py * s.info.front_pitch + (px * 4 + c))
      ≡ s.back (py * s.info.width + px) / 256 ^ c % 256

pub record IsValid (s : Framebuffer) : Type 0 where
  pub narrow : s.info.width ≤ max_width
  pub low : s.info.height ≤ max_height
  pub wide : 0 < s.info.width
  pub tall : 0 < s.info.height
  pub pitch : s.info.width * 4 ≤ s.info.front_pitch
  pub inside : s.dirty ≡ true → (s.dirty_max_x ≤ s.info.width) × (s.dirty_max_y ≤ s.info.height)
  pub synced :
      (px py : ℕ) → px < s.info.width → py < s.info.height → covered s px py ≡ false → Shown s px py

-- Drawing only in a rectangle that is marked keeps the promise.
pub drawn-IsValid :
    (s : Framebuffer) (back : ℕ → ℕ) (x y width height : ℕ)
    → IsValid s
    → OnScreen (record s { back = back }) x y width height
    → ((px py : ℕ)
        → px < s.info.width
        → in_rect x y width height px py ≡ false
        → back (py * s.info.width + px) ≡ s.back (py * s.info.width + px))
    → IsValid (mark_dirty (record s { back = back }) x y width height)
drawn-IsValid s back x y width height v o outside =
    let t : Framebuffer = record s { back = back } in
    let ei = mark_dirty-info t x y width height in
    let ef = mark_dirty-front t x y width height in
    let eb = mark_dirty-back t x y width height in
    record {
      narrow = rw ei v.narrow;
      low = rw ei v.low;
      wide = rw ei v.wide;
      tall = rw ei v.tall;
      pitch = rw ei v.pitch;
      inside = λ d. rw ei (mark_dirty-inside t x y width height o v.inside);
      synced = rw ei (λ px py inx iny clean.
          elim (Bool-cases (covered s px py || in_rect x y width height px py)) [
            | inl touched ↦
                absurd (cc (mark_dirty-covered t x y width height o px py inx iny touched))
            | inr free ↦
                rw (ef, eb)
                  (λ c small.
                    v.synced px py inx iny (ground arith) c small
                    ∙ ap (λ p. p / 256 ^ c % 256) (sym (outside px py inx (ground arith))))
          ]);
    }

-- Once the whole screen is marked, nothing is promised of the front buffer.
pub whole-IsValid :
    (s : Framebuffer)
    → OnScreen s 0 0 s.info.width s.info.height
    → s.info.width * 4 ≤ s.info.front_pitch
    → (s.dirty ≡ true → (s.dirty_max_x ≤ s.info.width) × (s.dirty_max_y ≤ s.info.height))
    → IsValid (mark_dirty s 0 0 s.info.width s.info.height)
whole-IsValid s o pitch inside =
    let ei = mark_dirty-info s 0 0 s.info.width s.info.height in
    record {
      narrow = rw ei o.narrow;
      low = rw ei o.low;
      wide = rw ei o.wide;
      tall = rw ei o.tall;
      pitch = rw ei pitch;
      inside = λ d. rw ei (mark_dirty-inside s 0 0 s.info.width s.info.height o inside);
      synced = rw ei (λ px py inx iny free. absurd (cc (marked px py inx iny)));
    }
  where
    marked :
        (px py : ℕ)
        → px < s.info.width
        → py < s.info.height
        → covered (mark_dirty s 0 0 s.info.width s.info.height) px py ≡ true
    marked px py inx iny =
        mark_dirty-covered s 0 0 s.info.width s.info.height o px py inx iny (ground arith)
