-- ===== src/Frame/Usable.antt =====
-- `usable_memory` of src/kmem/frame.rs, against the frames of the map.
use sill_os.Base.{
  ℕ, suc, zero, ◌+◌, ◌-◌, ◌*◌, ◌/◌, ◌^◌, ◌≤◌, ◌≡◌, ◌∙◌, refl, sym, ap, Option, none, some, List, [],
  ◌∷◌, ◌++◌, ltb, ◌==◌, if_true, if_false, Bool-cases, inl, inr, length, arith,
}
use sill_os.Frame.{Entry, BootInfoFrameAllocator, frame_size, usable_memory, usable_sum}
use sill_os.Frame.Regions.{start_of, end_of, frames_from, frames_between, all_frames}

length-append : (xs ys : List ℕ) → length (xs ++ ys) ≡ length xs + length ys
length-append [] ys = omega arith
length-append (x ∷ xs) ys = omega (arith, length-append xs ys)

length-frames_from : (a n : ℕ) → length (frames_from a n) ≡ n
unfolding frames_from
length-frames_from a zero = refl
length-frames_from a (suc n) = omega (arith, length-frames_from (a + frame_size) n)

abbrev value : Option ℕ → ℕ
value none = 0
value (some n) = n

module _ (usable : ℕ) where
  usable_sum-frames :
      (es : List Entry) (total m : ℕ)
      → usable_sum usable total es ≡ some m
      → total + 4096 * length (all_frames usable es) ≤ m
  unfolding usable_sum all_frames
  usable_sum-frames [] total m h = omega (arith, ap value h)
  usable_sum-frames (e ∷ es) total m h = elim (Bool-cases (e.type_ == usable)) [
    | inl marked ↦ elim (Bool-cases (ltb (total + e.length) (2 ^ 64))) [
      | inl fits ↦
          let rest =
            usable_sum-frames es (total + e.length) m
              (sym (if_true _ _ marked ∙ if_true _ _ fits) ∙ h) in
          let here = length-frames_from (start_of e) ((end_of e - start_of e) / 4096) in
          let both =
            length-append (frames_between (start_of e) (end_of e)) (all_frames usable es) in
          rw marked (omega (arith, rest, here, both))
      | inr over ↦
          let panics : none ≡ some m = sym (if_true _ _ marked ∙ if_false _ _ over) ∙ h in
          absurd (cc)
    ]
    | inr other ↦ rw other (usable_sum-frames es total m (sym (if_false _ _ other) ∙ h))
  ]

  -- Where usable_memory does not overflow, the whole frames of all usable regions have together at
  -- most as many bytes as it says.
  pub usable_memory-all_frames :
      (s : BootInfoFrameAllocator) (m : ℕ)
      → usable_memory usable s ≡ some m
      → 4096 * length (all_frames usable s.memory_map) ≤ m
  unfolding usable_memory
  usable_memory-all_frames s m h = omega (arith, usable_sum-frames s.memory_map 0 m h)
