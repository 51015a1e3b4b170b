-- ===== src/Frame/Search.antt =====
-- `next_usable_region` of src/kmem/frame.rs: the regions from the current one on.
use sill_os.Base.{
  ℕ, suc, ◌+◌, ◌-◌, ◌%◌, ◌<◌, ◌≡◌, refl, ap, ◌∙◌, true, false, Option, none, some, List, [], ◌∷◌,
  ◌==◌, length, drop, drop-suc, get_elem?-drop, length-drop, arith, Bool-cases, inl, inr,
}
use sill_os.Frame.{Entry, BootInfoFrameAllocator, next_usable_region, next_usable_loop}
use sill_os.Frame.Regions.{AllPhysical, remaining_in, remaining_in-unmarked}

abbrev pub skip : BootInfoFrameAllocator → BootInfoFrameAllocator
skip s = record s { current_region = s.current_region + 1; next_frame = 0 }

-- The regions from the current one on are `es`, and the next frame is a frame boundary.
pub record IsAt (s : BootInfoFrameAllocator) (es : List Entry) : Type 0 where
  pub left : drop s.current_region s.memory_map ≡ es
  pub boundary : s.next_frame % 4096 ≡ 0
  pub physical : AllPhysical es

pub IsAt-skip :
    {s : BootInfoFrameAllocator} (e : Entry) (es : List Entry) → IsAt s (e ∷ es) → IsAt (skip s) es
IsAt-skip {s} e es t =
    let next : s.current_region + 1 ≡ suc s.current_region = omega arith in
    record {
      left = rw next (drop-suc s.current_region s.memory_map t.left);
      boundary = omega arith;
      physical = t.physical.1;
    }

module _ (usable : ℕ) where
  -- Where `next_usable_region` stops: at a usable region, with no frame lost.
  pub record Found (s : BootInfoFrameAllocator) (es : List Entry) (s' : BootInfoFrameAllocator)
      (region : Entry) : Type 0 where
    pub rest : List Entry
    pub here : IsAt s' (region ∷ rest)
    pub marked : (region.type_ == usable) ≡ true
    pub kept :
        remaining_in usable es s.next_frame ≡ remaining_in usable (region ∷ rest) s'.next_frame
    pub shorter : length rest < length es
    pub same_map : s'.memory_map ≡ s.memory_map

  pub record Exhausted (s : BootInfoFrameAllocator) (es : List Entry) (s' : BootInfoFrameAllocator)
      : Type 0 where
    pub here : IsAt s' []
    pub none_left : remaining_in usable es s.next_frame ≡ []
    pub same_map : s'.memory_map ≡ s.memory_map

  abbrev pub Finds :
      BootInfoFrameAllocator → List Entry → BootInfoFrameAllocator × Option Entry → Type 0
  Finds s es (s', none) = Exhausted s es s'
  Finds s es (s', some region) = Found s es s' region

  Finds-skip :
      (s : BootInfoFrameAllocator) (e : Entry) (es : List Entry)
      → (e.type_ == usable) ≡ false
      → (r : BootInfoFrameAllocator × Option Entry) → Finds (skip s) es r
      → Finds s (e ∷ es) r
  Finds-skip s e es h (s', none) t = record {
    here = t.here;
    none_left = remaining_in-unmarked usable e es s.next_frame h ∙ t.none_left;
    same_map = t.same_map;
  }
  Finds-skip s e es h (s', some region) t = record {
    rest = t.rest;
    here = t.here;
    marked = t.marked;
    kept = remaining_in-unmarked usable e es s.next_frame h ∙ t.kept;
    shorter = omega (arith, t.shorter);
    same_map = t.same_map;
  }

  module _ (n : ℕ) {s : BootInfoFrameAllocator} (e : Entry) (es : List Entry)
      (t : IsAt s (e ∷ es)) where
    next_usable_loop-marked :
        (e.type_ == usable) ≡ true → next_usable_loop usable (suc n) s ≡ (s, some e)
    next_usable_loop-marked h =
        unfold next_usable_loop in
        rw (get_elem?-drop s.current_region s.memory_map t.left, h, next_usable_loop)

    next_usable_loop-unmarked :
        (e.type_ == usable) ≡ false
        → next_usable_loop usable (suc n) s ≡ next_usable_loop usable n (skip s)
    next_usable_loop-unmarked h =
        unfold next_usable_loop in
        rw (get_elem?-drop s.current_region s.memory_map t.left, h, next_usable_loop)

  next_usable_loop-Finds :
      (es : List Entry) (s : BootInfoFrameAllocator)
      → IsAt s es
      → Finds s es (next_usable_loop usable (length es) s)
  next_usable_loop-Finds [] s t =
      unfold next_usable_loop in
      record { here = t; none_left = unfold remaining_in in refl; same_map = refl }
  next_usable_loop-Finds (e ∷ es) s t = elim (Bool-cases (e.type_ == usable)) [
    | inl marked ↦ rw (next_usable_loop-marked (length es) e es t marked) (record {
      rest = es;
      here = t;
      marked = marked;
      kept = refl;
      shorter = omega arith;
      same_map = refl;
    })
    | inr unmarked ↦ rw (next_usable_loop-unmarked (length es) e es t unmarked) (
        Finds-skip s e es unmarked (next_usable_loop usable (length es) (skip s))
          (next_usable_loop-Finds es (skip s) (IsAt-skip e es t)))
  ]

  pub next_usable_region-Finds :
      {s : BootInfoFrameAllocator} {es : List Entry}
      → IsAt s es
      → Finds s es (next_usable_region usable s)
  next_usable_region-Finds {s} {es} t =
      let fuel : length s.memory_map - s.current_region ≡ length es =
        omega (arith, length-drop s.current_region s.memory_map, ap length t.left) in
      unfold next_usable_region in rw fuel (next_usable_loop-Finds es s t)
