-- ===== src/Kmem/Usable.antt =====
-- The usable memory of `mem_analyze` in src/kmem/mod.rs, against `usable_memory` and the frames of
-- src/kmem/frame.rs.
use sill_os.Base.{
  ℕ, ◌+◌, ◌-◌, ◌^◌, ◌≤◌, ◌≡◌, ◌≢◌, ◌∙◌, sym, subst, ap, refl, List, [], ◌∷◌, Bool, true, false,
  arith, Option, some, none, Bool-cases, inl, inr, if_true, if_false, ltb, ◌==◌, if◌then◌else◌,
  length,
}
use sill_os.Frame.{Entry, new, usable_sum, usable_memory}
use sill_os.Frame.Regions.{all_frames}
use sill_os.Frame.Usable.{usable_memory-all_frames}
use sill_os.Fb.{saturating_add}
use sill_os.Kmem.{
  MemmapTypes, RegionClass, usable, reserved, Tally, no_entries, class_of, count_class, count_entry,
  tally, frame_count,
}

-- The part of the figures that the usable entries change.
pub record SameUsable (t u : Tally) : Type 0 where
  pub memory : t.usable_memory ≡ u.usable_memory
  pub regions : t.usable_regions ≡ u.usable_regions
  pub first : t.first_usable_base ≡ u.first_usable_base
  pub last : t.last_usable_end ≡ u.last_usable_end

count_class-other :
    (c : RegionClass) (t : Tally) (base length : ℕ)
    → c ≢ usable
    → SameUsable (count_class c t base length) t
unfolding count_class
count_class-other usable t base length h = absurd (h refl)
count_class-other reserved t base length h = record {
  memory = refl;
  regions = refl;
  first = refl;
  last = refl;
}
count_class-other _ t base length h = record {
  memory = refl;
  regions = refl;
  first = refl;
  last = refl;
}

module _ (types : MemmapTypes) where
  abbrev pub is_usable : Entry → Bool
  is_usable e = e.type_ == types.usable

  class_of-usable : (e : Entry) → is_usable e ≡ true → class_of types e.type_ ≡ usable
  unfolding class_of
  class_of-usable e h = if_true _ _ h

  class_of-other : (e : Entry) → is_usable e ≡ false → class_of types e.type_ ≢ usable
  unfolding class_of
  class_of-other e h = λ p. ground arith

  abbrev pub with_total : Tally → Entry → Tally
  with_total t e = record t { total_memory = saturating_add t.total_memory e.length }

  pub count_entry-usable :
      (t : Tally) (e : Entry)
      → is_usable e ≡ true
      → count_entry types t e ≡ count_class usable (with_total t e) e.base e.length
  unfolding count_entry
  count_entry-usable t e h =
      ap (λ (c : RegionClass). count_class c (with_total t e) e.base e.length) (class_of-usable e h)

  pub count_entry-other :
      (t : Tally) (e : Entry)
      → is_usable e ≡ false
      → SameUsable (count_entry types t e) (with_total t e)
  unfolding count_entry
  count_entry-other t e h =
      count_class-other (class_of types e.type_) (with_total t e) e.base e.length
        (class_of-other e h)

  -- The usable memory is the sum, or the largest number of 64 bits where that overflows.
  abbrev pub Agrees : Option ℕ → Tally → Type 0
  Agrees none t = t.usable_memory ≡ 2 ^ 64 - 1
  Agrees (some total) t = t.usable_memory ≡ total

  usable_after : (t : Tally) (e : Entry) → ℕ
  usable_after t e =
      if is_usable e then saturating_add t.usable_memory e.length else t.usable_memory

  count_entry-memory :
      (t : Tally) (e : Entry) → (count_entry types t e).usable_memory ≡ usable_after t e
  unfolding usable_after count_class
  count_entry-memory t e = elim (Bool-cases (is_usable e)) [
    | inl h ↦
        ap (λ (u : Tally). u.usable_memory) (count_entry-usable t e h)
        ∙ sym (if_true (saturating_add t.usable_memory e.length) t.usable_memory h)
    | inr h ↦
        (count_entry-other t e h).memory
        ∙ sym (if_false (saturating_add t.usable_memory e.length) t.usable_memory h)
  ]

  tally-full :
      (es : List Entry) (t : Tally)
      → t.usable_memory ≡ 2 ^ 64 - 1
      → (tally types t es).usable_memory ≡ 2 ^ 64 - 1
  unfolding tally usable_after saturating_add
  tally-full [] t h = h
  tally-full (e ∷ es) t h =
      tally-full es (count_entry types t e) (ground (arith, count_entry-memory t e))

  tally-Agrees_from :
      (es : List Entry) (t : Tally) (total : ℕ)
      → t.usable_memory ≡ total
      → Agrees (usable_sum types.usable total es) (tally types t es)
  unfolding tally usable_sum usable_after saturating_add
  tally-Agrees_from [] t total h = h
  tally-Agrees_from (e ∷ es) t total h =
      let after = count_entry types t e in
      let memory = count_entry-memory t e in
      elim (Bool-cases (is_usable e)) [
        | inl marked ↦ elim (Bool-cases (ltb (total + e.length) (2 ^ 64))) [
          | inl fits ↦
              subst (λ r. Agrees r (tally types after es))
                (sym (if_true _ _ marked ∙ if_true _ _ fits))
                (tally-Agrees_from es after (total + e.length) (ground (arith, memory)))
          | inr over ↦
              subst (λ r. Agrees r (tally types after es))
                (sym (if_true _ _ marked ∙ if_false _ _ over))
                (tally-full es after (ground (arith, memory)))
        ]
        | inr unmarked ↦
            subst (λ r. Agrees r (tally types after es)) (sym (if_false _ _ unmarked))
              (tally-Agrees_from es after total (ground (arith, memory)))
      ]

  -- The usable memory of mem_analyze is what usable_memory of the frame allocator gives for the
  -- same map, and is the largest number of 64 bits where that overflows.
  pub tally-Agrees :
      (es : List Entry) → Agrees (usable_memory types.usable (new es)) (tally types no_entries es)
  unfolding usable_memory new no_entries
  tally-Agrees es = tally-Agrees_from es no_entries 0 refl

  -- Where usable_memory does not overflow, the usable regions have no more whole frames than
  -- mem_analyze prints as usable frames.
  pub frame_count-all_frames :
      (es : List Entry) {m : ℕ}
      → usable_memory types.usable (new es) ≡ some m
      → length (all_frames types.usable es) ≤ frame_count (tally types no_entries es)
  unfolding frame_count new
  frame_count-all_frames es {m} e =
      let same : (tally types no_entries es).usable_memory ≡ m =
        subst (λ r. Agrees r (tally types no_entries es)) e (tally-Agrees es) in
      omega (arith, same, usable_memory-all_frames types.usable (new es) m e)
