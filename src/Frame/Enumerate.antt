-- ===== src/Frame/Enumerate.antt =====
-- The calls of `allocate_frame` of src/kmem/frame.rs, one after another.
use sill_os.Base.{
  ℕ, zero, suc, ◌+◌, ◌%◌, ◌^◌, ◌<◌, ◌≡◌, refl, ap, ◌∙◌, true, false, Option, none, some, List, [],
  ◌∷◌, ◌++◌, ltb, ◌==◌, length, length-drop, arith, Bool-cases, ltb→lt, inl, inr,
}
use sill_os.Frame.{
  frame_size, Entry, BootInfoFrameAllocator, Run, ok, next_usable_region, allocate_frame,
  allocate_loop, take_frame, visit, enter_region,
}
use sill_os.Frame.Regions.{
  start_of, end_of, IsPhysical, frames_between, frames_between-cons, frames_between-nil,
  align_up-start, align_down-end, checked_add-end, remaining_in, remaining_in-marked,
}
use sill_os.Frame.Search.{skip, IsAt, IsAt-skip, Finds, next_usable_region-Finds}

module _ (usable : ℕ) where
  -- `r` hands out the first of the frames `fs`, and leaves the others; or says that there is none.
  abbrev pub Yields : BootInfoFrameAllocator → List ℕ → Run (Option ℕ) → Type 0
  Yields s [] r =
      (s' : BootInfoFrameAllocator) × (r ≡ ok none s') × IsAt s' [] × (s'.memory_map ≡ s.memory_map)
  Yields s (f ∷ fs) r =
      (s' : BootInfoFrameAllocator) × (r ≡ ok (some f) s')
      × ((es : List Entry) × IsAt s' es × (remaining_in usable es s'.next_frame ≡ fs))
      × (s'.memory_map ≡ s.memory_map)

module _ (usable : ℕ) (frame_at : ℕ → Option ℕ)
    (frame_at-boundary : (a : ℕ) → a % 4096 ≡ 0 → a < 2 ^ 52 → frame_at a ≡ some a) where
  allocate_loop-found :
      (fuel : ℕ) (s s' : BootInfoFrameAllocator) (e : Entry)
      → next_usable_region usable s ≡ (s', some e)
      → IsPhysical e
      → let inside = enter_region usable frame_at s' (start_of e) in
        allocate_loop usable frame_at (suc fuel) s
        ≡ visit usable frame_at inside (end_of e) (allocate_loop usable frame_at fuel (skip inside))
  allocate_loop-found fuel s s' e found h =
      unfold allocate_loop in
      rw (
        ap (λ r. r.1) found,
        align_up-start e h,
        checked_add-end e h,
        ap (λ r. r.0) found,
        align_down-end e h,
        allocate_loop,
      )

  allocate_loop-none :
      (fuel : ℕ) (s s' : BootInfoFrameAllocator)
      → next_usable_region usable s ≡ (s', none)
      → allocate_loop usable frame_at (suc fuel) s ≡ ok none s'
  allocate_loop-none fuel s s' found =
      unfold allocate_loop in rw (ap (λ r. r.1) found, ap (λ r. r.0) found, allocate_loop)

  Yields-map :
      (s s' : BootInfoFrameAllocator) (fs : List ℕ) (r : Run (Option ℕ))
      → s'.memory_map ≡ s.memory_map
      → Yields usable s' fs r
      → Yields usable s fs r
  Yields-map s s' [] r e (t, got, at, same) = (t, got, at, same ∙ e)
  Yields-map s s' (f ∷ fs) r e (t, got, at, same) = (t, got, at, same ∙ e)

  take_frame-Yields :
      (s : BootInfoFrameAllocator) (e : Entry) (es : List Entry)
      → IsAt s (e ∷ es)
      → (e.type_ == usable) ≡ true
      → s.next_frame < end_of e
      → Yields usable s
          (frames_between s.next_frame (end_of e) ++ remaining_in usable es 0)
          (take_frame usable frame_at s)
  take_frame-Yields s e es t marked more =
      let given = frame_at-boundary s.next_frame t.boundary (omega (arith, t.physical.0)) in
      let later : (s.next_frame + frame_size == 0) ≡ false = ground arith in
      rw (frames_between-cons s.next_frame (end_of e) t.boundary (omega arith) more) (
        record s { next_frame = s.next_frame + frame_size },
        unfold take_frame in rw (given, take_frame),
        (
          e ∷ es,
          record { left = t.left; boundary = omega (arith, t.boundary); physical = t.physical },
          rw (remaining_in-marked usable e es (s.next_frame + frame_size) marked, later),
        ),
        refl,
      )

  visit-Yields :
      (s : BootInfoFrameAllocator) (e : Entry) (es : List Entry) (rest : Run (Option ℕ))
      → IsAt s (e ∷ es)
      → (e.type_ == usable) ≡ true
      → Yields usable s (remaining_in usable es 0) rest
      → Yields usable s
          (frames_between s.next_frame (end_of e) ++ remaining_in usable es 0)
          (visit usable frame_at s (end_of e) rest)
  visit-Yields s e es rest t marked y = elim (Bool-cases (ltb s.next_frame (end_of e))) [
    | inl more ↦
        unfold visit in
        rw more (take_frame-Yields s e es t marked (ltb→lt s.next_frame (end_of e) more))
    | inr done ↦
        unfold visit in rw (done, frames_between-nil s.next_frame (end_of e) (ground arith)) y
  ]

  skip-enter_region :
      (s : BootInfoFrameAllocator) (a : ℕ) → skip (enter_region usable frame_at s a) ≡ skip s
  skip-enter_region s a = elim (Bool-cases (s.next_frame == 0)) [
    | inl new ↦ unfold enter_region in rw (new, enter_region)
    | inr old ↦ unfold enter_region in rw (old, enter_region)
  ]

  -- Entering a region at a boundary: the cursor is the one that `remaining_in` speaks of.
  enter_region-Yields :
      (s : BootInfoFrameAllocator) (e : Entry) (es : List Entry) (rest : Run (Option ℕ))
      → IsAt s (e ∷ es)
      → (e.type_ == usable) ≡ true
      → Yields usable (skip s) (remaining_in usable es 0) rest
      → Yields usable s
          (remaining_in usable (e ∷ es) s.next_frame)
          (visit usable frame_at (enter_region usable frame_at s (start_of e)) (end_of e) rest)
  enter_region-Yields s e es rest t marked y =
      rw (remaining_in-marked usable e es s.next_frame marked)
        (elim (Bool-cases (s.next_frame == 0)) [
          | inl new ↦
              unfold enter_region in
              rw (new, enter_region)
                (Yields-map s (record s { next_frame = start_of e }) _ _ refl
                  (visit-Yields (record s { next_frame = start_of e }) e es rest
                    (record { left = t.left; boundary = omega arith; physical = t.physical }) marked
                    (Yields-map (record s { next_frame = start_of e }) (skip s) _ _ refl y)))
          | inr old ↦
              unfold enter_region in
              rw (old, enter_region)
                (visit-Yields s e es rest t marked (Yields-map s (skip s) _ _ refl y))
        ])

  round-Yields :
      (fuel : ℕ) (s : BootInfoFrameAllocator) (es : List Entry)
      (r : BootInfoFrameAllocator × Option Entry)
      → length es < suc fuel
      → next_usable_region usable s ≡ r
      → Finds usable s es r
      → ((s' : BootInfoFrameAllocator) (rest : List Entry)
          → IsAt s' rest
          → length rest < fuel
          → Yields usable s'
              (remaining_in usable rest s'.next_frame)
              (allocate_loop usable frame_at fuel s'))
      → Yields usable s
          (remaining_in usable es s.next_frame)
          (allocate_loop usable frame_at (suc fuel) s)
  round-Yields fuel s es (s', none) f found t ih =
      rw (allocate_loop-none fuel s s' found, t.none_left) (s', refl, t.here, t.same_map)
  round-Yields fuel s es (s', some e) f found t ih =
      rw
        (
          allocate_loop-found fuel s s' e found t.here.physical.0,
          t.kept,
          skip-enter_region s' (start_of e),
        )
        (Yields-map s s' _ _ t.same_map (
          enter_region-Yields s' e t.rest (allocate_loop usable frame_at fuel (skip s')) t.here
            t.marked (ih (skip s') t.rest (IsAt-skip e t.rest t.here) (omega (arith, t.shorter)))))

  allocate_loop-Yields :
      (fuel : ℕ) (s : BootInfoFrameAllocator) (es : List Entry)
      → IsAt s es
      → length es < fuel
      → Yields usable s (remaining_in usable es s.next_frame) (allocate_loop usable frame_at fuel s)
  allocate_loop-Yields zero s es t f = absurd (omega arith)
  allocate_loop-Yields (suc fuel) s es t f =
      round-Yields fuel s es (next_usable_region usable s) f refl
        (next_usable_region-Finds usable t) (allocate_loop-Yields fuel)

  -- For any constructor of frames that accepts the multiples of 4096 below 2 ^ 52, and in a state
  -- whose regions from the current one on are es, all below 2 ^ 52, and whose next frame is a
  -- multiple of 4096: allocate_frame ends without a panic, gives the first frame that is left of
  -- the usable regions of es and keeps exactly the others in their order, in a state as before, or
  -- gives none if none is left.
  pub allocate_frame-Yields :
      (s : BootInfoFrameAllocator) (es : List Entry)
      → IsAt s es
      → Yields usable s (remaining_in usable es s.next_frame) (allocate_frame usable frame_at s)
  allocate_frame-Yields s es t =
      unfold allocate_frame in
      allocate_loop-Yields (length s.memory_map + 1) s es t
        (omega (arith, length-drop s.current_region s.memory_map, ap length t.left))
