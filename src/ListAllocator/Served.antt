-- ===== src/ListAllocator/Served.antt =====
-- `alloc` of src/kmem/heap.rs serves an allocation from the first region in which it fits.
use native.Mathlib.Nat.{dvd_trans, dvd_of_mod-eq-zero, mod-eq-zero_of_dvd}
use sill_os.Base.{
  ℕ, ◌+◌, ◌-◌, ◌%◌, ◌^◌, ◌≤◌, ◌<◌, ◌≡◌, refl, ◌⊎◌, inl, inr, ap, Option, none, some, List, [], ◌∷◌,
  ◌++◌, arith, leb, leb→le, Bool-cases,
}
use sill_os.Buddy.{Layout}
use sill_os.Buddy.Align.{pow-dvd-pow}
use sill_os.ListAllocator.{
  ListNode, Outcome, done, panic, alloc_from_region, leftover, take_region, pass_over, alloc_loop,
  checked_add,
}
use sill_os.ListAllocator.Fits.{
  IsFree, Fits, round_up, alloc_from_region-cases, checked_add_lem, place_lem,
}
use sill_os.ListAllocator.Bytes.{inside, covers, inside-block, covers-leftover}

abbrev pub AllFree : List ListNode → Type 0
AllFree [] = Unit {0}
AllFree (r ∷ rs) = IsFree r × AllFree rs

abbrev pub NoneFits : Layout → List ListNode → Type 0
NoneFits l [] = Unit {0}
NoneFits l (r ∷ rs) = (¬ Fits r l) × NoneFits l rs

-- The block at `a` comes from the first region in which it fits, at the first aligned address of
-- it. Each byte that was free is free, in the block, or before the block in its region.
pub record Served (l : Layout) (rs : List ListNode) (a : ℕ) (rs' : List ListNode) : Type 0 where
  pub before : List ListNode
  pub region : ListNode
  pub after : List ListNode
  pub split : rs ≡ before ++ region ∷ after
  pub first : NoneFits l before
  pub fits : Fits region l
  pub placed : a ≡ round_up region.start l.align
  pub aligned : a % l.align ≡ 0
  pub behind : region.start ≤ a
  pub near : a < region.start + l.align
  pub low : a + l.size ≤ 2 ^ 63
  pub bytes :
      (x : ℕ)
      → covers rs x ≡ inside x region.start (a - region.start) + inside x a l.size + covers rs' x
  pub free : l.size % 8 ≡ 0 → AllFree rs'

abbrev pub Serves : Layout → List ListNode → Outcome (Option (ℕ × List ListNode)) → Type 0
Serves l rs panic = ⊥
Serves l rs (done none) = NoneFits l rs
Serves l rs (done (some (a, rs'))) = Served l rs a rs'

Serves-pass_over :
    (l : Layout) (r : ListNode) (rs : List ListNode)
    → IsFree r
    → (¬ Fits r l)
    → (res : Outcome (Option (ℕ × List ListNode))) → Serves l rs res
    → Serves l (r ∷ rs) (pass_over r res)
unfolding pass_over
Serves-pass_over l r rs free unfit panic h = h
Serves-pass_over l r rs free unfit (done none) h = (unfit, h)
Serves-pass_over l r rs free unfit (done (some (a, rs'))) h = record {
  before = r ∷ h.before;
  region = h.region;
  after = h.after;
  split = ap (λ (t : List ListNode). r ∷ t) h.split;
  first = (unfit, h.first);
  fits = h.fits;
  placed = h.placed;
  aligned = h.aligned;
  behind = h.behind;
  near = h.near;
  low = h.low;
  bytes = λ x. unfold covers in omega (arith, h.bytes x);
  free = λ e. (free, h.free e);
}

-- An address that a larger power of two divides is aligned for a node.
pub mod_eight : (a k : ℕ) → 3 ≤ k → a % 2 ^ k ≡ 0 → a % 8 ≡ 0
mod_eight a k h e =
    mod-eq-zero_of_dvd 8 (dvd_trans 8 (pow-dvd-pow 3 k h) (dvd_of_mod-eq-zero (2 ^ k) e))

module _ (size k : ℕ) (hk : k ≤ 63) (fine : 3 ≤ k) (large : 16 ≤ size)
    (small : size + 2 ^ k ≤ 2 ^ 63) where
  abbrev pub layout : Layout
  layout = record { size = size; align = 2 ^ k }

  module _ (r : ListNode) (next : List ListNode) where
    pub alloc_loop-hit :
        {a : ℕ}
        → alloc_from_region r layout ≡ done (some a)
        → alloc_loop (r ∷ next) layout ≡ take_region r layout a next
    unfolding alloc_loop
    alloc_loop-hit e = rw (e, alloc_loop)

    alloc_loop-miss :
        alloc_from_region r layout ≡ done none
        → alloc_loop (r ∷ next) layout ≡ pass_over r (alloc_loop next layout)
    unfolding alloc_loop
    alloc_loop-miss e = rw (e, alloc_loop)

  module _ (r : ListNode) (free : IsFree r) (next : List ListNode) where
    abbrev pub place : ℕ
    place = round_up r.start (2 ^ k)

    abbrev pub excess : ℕ
    excess = r.start + r.size - (place + size)

    pub take_region_lem :
        take_region r layout place next ≡ done (some (place, leftover (place + size) excess next))
    unfolding take_region
    take_region_lem =
        let bounds = place_lem r free size k hk small in
        let one = checked_add_lem place size (omega (arith, free.low, free.large)) in
        let two = checked_add_lem r.start r.size (omega (arith, free.low)) in
        rw (take_region, one, checked_add, two)

    excess-cases : Fits r layout → (excess ≡ 0) ⊎ (16 ≤ excess)
    excess-cases (inl e) = inl (omega arith)
    excess-cases (inr h) = inr (omega arith)

    Fits-end : Fits r layout → place + size ≤ r.start + r.size
    Fits-end (inl e) = omega arith
    Fits-end (inr h) = omega arith

    leftover-AllFree :
        Fits r layout → size % 8 ≡ 0 → AllFree next → AllFree (leftover (place + size) excess next)
    unfolding leftover
    leftover-AllFree fits even all = elim (Bool-cases (leb 16 excess)) [
      | inl enough ↦
          let bounds = place_lem r free size k hk small in
          let even_place = mod_eight place k fine bounds.0 in
          let end = Fits-end fits in
          rw enough (
            record {
              aligned = omega arith;
              large = leb→le 16 excess enough;
              low = omega (arith, free.low);
            },
            all,
          )
      | inr little ↦ rw little all
    ]

    covers-take :
        Fits r layout
        → (x : ℕ)
        → covers (r ∷ next) x
          ≡ inside x r.start (place - r.start)
            + inside x place size
            + covers (leftover (place + size) excess next) x
    unfolding covers
    covers-take fits x =
        let bounds = place_lem r free size k hk small in
        omega (
          arith,
          inside-block x r.start r.size place size bounds.1 (Fits-end fits),
          covers-leftover next x (place + size) excess (excess-cases fits),
        )

    take_region-Served :
        Fits r layout → AllFree next → Serves layout (r ∷ next) (take_region r layout place next)
    take_region-Served fits all =
        let bounds = place_lem r free size k hk small in
        rw take_region_lem record {
          before = [];
          region = r;
          after = next;
          split = refl;
          first = tt;
          fits = fits;
          placed = refl;
          aligned = bounds.0;
          behind = bounds.1;
          near = bounds.2;
          low = omega (arith, Fits-end fits, free.low);
          bytes = covers-take fits;
          free = λ even. leftover-AllFree fits even all;
        }

  pub alloc_loop-Serves :
      (rs : List ListNode) → AllFree rs → Serves layout rs (alloc_loop rs layout)
  alloc_loop-Serves [] all = unfold alloc_loop in tt
  alloc_loop-Serves (r ∷ rs) all = elim (alloc_from_region-cases r all.0 size k hk small) [
    | inl hit ↦ rw (alloc_loop-hit r rs hit.1) (take_region-Served r all.0 rs hit.0 all.1)
    | inr miss ↦ rw (alloc_loop-miss r rs miss.1) (
        Serves-pass_over layout r rs all.0 miss.0 (alloc_loop rs layout)
          (alloc_loop-Serves rs all.1))
  ]
