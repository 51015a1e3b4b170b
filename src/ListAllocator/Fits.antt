-- ===== src/ListAllocator/Fits.antt =====
-- Which regions of src/kmem/heap.rs can serve an allocation, and where `alloc_from_region` puts it.
use native.Mathlib.Nat.{mod-lt, div-add-mod', mul-mod_left, one-le-pow, pow-le-pow_right}
use sill_os.Base.{
  ℕ, zero, suc, ◌+◌, ◌-◌, ◌*◌, ◌/◌, ◌%◌, ◌^◌, ◌≤◌, ◌<◌, max, ◌≡◌, ◌⊎◌, ◌∙◌, ap, ==_iff, inl, inr,
  true, none, some, ◌==◌, arith, ltb, leb, Bool-cases, leb→le, if_true, if◌then◌else◌,
}
use sill_os.Base.Bits.{bit_and-high_mask}
use sill_os.Buddy.{Layout}
use sill_os.ListAllocator.{
  ListNode, done, is_power_of_two, power_below, from_size_align, adjust_layout, align_up,
  checked_add, accept, alloc_from_region,
}

-- The first multiple of `p` from `a` on.
abbrev pub round_up : ℕ → ℕ → ℕ
round_up a p = (a + p - 1) / p * p

pub round_up_lem :
    (a p : ℕ) → 0 < p → (round_up a p % p ≡ 0) × (a ≤ round_up a p) × (round_up a p < a + p)
round_up_lem a p pos =
    let whole = div-add-mod' (a + p - 1) p in
    let small = mod-lt (a + p - 1) pos in
    (mul-mod_left ((a + p - 1) / p) p, omega arith, omega arith)

pub align_up-round_up :
    (a k : ℕ) → k ≤ 63 → a + 2 ^ k < 2 ^ 64 → align_up a (2 ^ k) ≡ some (round_up a (2 ^ k))
unfolding align_up
align_up-round_up a k hk h =
    let pos : 0 < 2 ^ k = one-le-pow k 2 (omega arith) in
    let low : 2 ^ 64 - 1 - (2 ^ k - 1) ≡ 2 ^ 64 - 2 ^ k = omega arith in
    let same : a + 2 ^ k - 1 - (a + 2 ^ k - 1) % 2 ^ k ≡ round_up a (2 ^ k) =
      omega (arith, div-add-mod' (a + 2 ^ k - 1) (2 ^ k)) in
    let mask = bit_and-high_mask k 64 (a + 2 ^ k - 1) (omega arith) (omega arith) in
    let fits : ltb (a + 2 ^ k) (2 ^ 64) ≡ true = ground arith in
    if_true _ _ fits ∙ rw (low, mask, same)

power_below-pow : (n k : ℕ) → k < n → power_below n (2 ^ k) ≡ true
unfolding power_below
power_below-pow zero k h = elim h [ ]
power_below-pow (suc n) k h = elim (Bool-cases (n == k)) [
  | inl e ↦ ground (arith, ap (λ (j : ℕ). 2 ^ j) ((==_iff n k).0 e))
  | inr e ↦ ground (arith, power_below-pow n k)
]

pub pow-le-pow : (m n : ℕ) → m ≤ n → 2 ^ m ≤ 2 ^ n
pow-le-pow m n h = pow-le-pow_right {n = 2} (omega arith) h

-- An alignment is at least that of a node, and a power of two.
max-pow : (k : ℕ) → max (2 ^ k) 8 ≡ 2 ^ max k 3
max-pow k = elim (Bool-cases (leb k 3)) [
  | inl e ↦
      let small : max k 3 ≡ 3 = ground arith in
      rw small (omega (arith, pow-le-pow k 3 (ground arith)))
  | inr e ↦
      let large : max k 3 ≡ k = ground arith in
      rw large (omega (arith, pow-le-pow 3 k (ground arith)))
]

-- The layout that the allocator uses for one of size `size` and alignment `2 ^ k`.
abbrev pub adjusted : ℕ → ℕ → Layout
adjusted size k = record { size = max size 16; align = 2 ^ max k 3 }

pub adjust_layout_lem :
    (size k : ℕ)
    → k < 64
    → adjust_layout (record { size = size; align = 2 ^ k })
      ≡ (if leb (max size 16 + 2 ^ max k 3) (2 ^ 63) then some (adjusted size k) else none)
unfolding adjust_layout from_size_align is_power_of_two
adjust_layout_lem size k h =
    let power = power_below-pow 64 (max k 3) (omega arith) in rw (max-pow k, power)

pub checked_add_lem : (a b : ℕ) → a + b < 2 ^ 64 → checked_add a b ≡ some (a + b)
unfolding checked_add
checked_add_lem a b h = ground arith

-- A free region of the heap.
pub record IsFree (r : ListNode) : Type 0 where
  pub aligned : r.start % 8 ≡ 0
  pub large : 16 ≤ r.size
  pub low : r.start + r.size ≤ 2 ^ 63

-- The block at the first aligned address leaves nothing behind it, or enough for a node.
abbrev pub Fits : ListNode → Layout → Type 0
Fits r l =
    let end = round_up r.start l.align + l.size in
    (end ≡ r.start + r.size) ⊎ (end + 16 ≤ r.start + r.size)

accept-cases :
    (a e t : ℕ)
    → (((e ≡ t) ⊎ (e + 16 ≤ t)) × (accept a e t ≡ some a))
      ⊎ ((¬ ((e ≡ t) ⊎ (e + 16 ≤ t))) × (accept a e t ≡ none))
unfolding accept
accept-cases a e t = elim (Bool-cases (e == t)) [
  | inl same ↦ inl (inl ((==_iff e t).0 same), ground arith)
  | inr other ↦ elim (Bool-cases (leb (e + 16) t)) [
    | inl room ↦ inl (inr (leb→le _ _ room), ground arith)
    | inr tight ↦ inr (λ h. elim h [ inl p ↦ ground arith | inr p ↦ ground arith ], ground arith)
  ]
]

module _ (r : ListNode) (free : IsFree r) (size k : ℕ) (hk : k ≤ 63)
    (small : size + 2 ^ k ≤ 2 ^ 63) where
  abbrev pub layout : Layout
  layout = record { size = size; align = 2 ^ k }

  abbrev pub place : ℕ
  place = round_up r.start (2 ^ k)

  pub place_lem : (place % 2 ^ k ≡ 0) × (r.start ≤ place) × (place < r.start + 2 ^ k)
  place_lem = round_up_lem r.start (2 ^ k) (one-le-pow k 2 (omega arith))

  alloc_from_region-accept :
      alloc_from_region r layout ≡ done (accept place (place + size) (r.start + r.size))
  unfolding alloc_from_region
  alloc_from_region-accept =
      let bounds = place_lem in
      let up = align_up-round_up r.start k hk (omega (arith, free.low, free.large)) in
      let one = checked_add_lem place size (omega (arith, free.low, free.large)) in
      let two = checked_add_lem r.start r.size (omega (arith, free.low)) in
      rw (alloc_from_region, up, checked_add, one, two)

  pub alloc_from_region-cases :
      (Fits r layout × (alloc_from_region r layout ≡ done (some place)))
      ⊎ ((¬ Fits r layout) × (alloc_from_region r layout ≡ done none))
  alloc_from_region-cases = elim (accept-cases place (place + size) (r.start + r.size)) [
    | inl h ↦ inl (h.0, alloc_from_region-accept ∙ ap done h.1)
    | inr h ↦ inr (h.0, alloc_from_region-accept ∙ ap done h.1)
  ]

  pub alloc_from_region-hit : Fits r layout → alloc_from_region r layout ≡ done (some place)
  alloc_from_region-hit fits = elim alloc_from_region-cases [
    | inl h ↦ h.1
    | inr h ↦ absurd (h.0 fits)
  ]
