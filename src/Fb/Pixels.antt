-- ===== src/Fb/Pixels.antt =====
-- Pixels of the framebuffer by their coordinates, and the loops of src/fb.rs that fill rows.
use native.Mathlib.Nat.{mul-le-mul_right}
use sill_os.Base.{
  ℕ, zero, suc, ◌+◌, ◌*◌, ◌≤◌, ◌<◌, ◌≡◌, refl, Bool, inl, inr, ◌&&◌, ltb, leb, ◌==◌, if◌then◌else◌,
  arith, Bool-cases, ==_iff,
}
use sill_os.Fb.{fill, fill_rows}

-- The coordinates lie in the rectangle of the given size at (x, y).
abbrev pub in_rect : ℕ → ℕ → ℕ → ℕ → ℕ → ℕ → Bool
in_rect x y width height px py = leb x px && ltb px (x + width) && leb y py && ltb py (y + height)

-- Rows of `pitch` entries do not overlap.
pub row-le : (pitch a b : ℕ) → a < b → a * pitch + pitch ≤ b * pitch
row-le pitch a b h = omega (arith, mul-le-mul_right {m = suc a} {n = b} pitch h)

-- A span of a row, inside it, holds a pixel just when it is of that row and column.
pub in_span :
    (pitch x length ry px py : ℕ)
    → px < pitch
    → x + length ≤ pitch
    → (leb (ry * pitch + x) (py * pitch + px) && ltb (py * pitch + px) (ry * pitch + x + length))
      ≡ (py == ry && leb x px && ltb px (x + length))
in_span pitch x length ry px py inside fits = elim (Bool-cases (py == ry)) [
  | inl same ↦ rw ((==_iff py ry).0 same) (ground arith)
  | inr other ↦ elim (Bool-cases (ltb py ry)) [
    | inl below ↦ let apart = row-le pitch py ry (ground arith) in ground arith
    | inr above ↦ let apart = row-le pitch ry py (ground arith) in ground arith
  ]
]

module _ (pitch px py : ℕ) (inside : px < pitch) where
  -- A filled span of a row.
  pub fill-pixel :
      (buffer : ℕ → ℕ) (x ry length pixel : ℕ)
      → x + length ≤ pitch
      → fill buffer (ry * pitch + x) length pixel (py * pitch + px)
        ≡ (if py == ry && leb x px && ltb px (x + length) then pixel else buffer (py * pitch + px))
  fill-pixel buffer x ry length pixel fits =
      unfold fill in rw (in_span pitch x length ry px py inside fits)

  fill_rows-suc :
      (rows : ℕ) (buffer : ℕ → ℕ) (x y length pixel : ℕ)
      → fill_rows (suc rows) buffer pitch x y length pixel
        ≡ fill_rows rows (fill buffer (y * pitch + x) length pixel) pitch x (y + 1) length pixel
  fill_rows-suc rows buffer x y length pixel = unfold fill_rows in refl

  -- `fill_rows` fills a rectangle and nothing else.
  pub fill_rows-pixel :
      (rows : ℕ) (buffer : ℕ → ℕ) (x y length pixel : ℕ)
      → x + length ≤ pitch
      → fill_rows rows buffer pitch x y length pixel (py * pitch + px)
        ≡ (if in_rect x y length rows px py then pixel else buffer (py * pitch + px))
  fill_rows-pixel zero buffer x y length pixel fits = unfold fill_rows in ground arith
  fill_rows-pixel (suc rows) buffer x y length pixel fits =
      let rest =
        fill_rows-pixel rows (fill buffer (y * pitch + x) length pixel) x (y + 1) length pixel
          fits in
      let first = fill-pixel buffer x y length pixel fits in
      rw (fill_rows-suc rows buffer x y length pixel, rest, first) (ground arith)
