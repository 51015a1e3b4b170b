-- ===== src/Kmem/Span.antt =====
-- The address span that `mem_analyze` of src/kmem/mod.rs prints.
use sill_os.Base.{
  ℕ, ◌+◌, ◌-◌, ◌^◌, ◌≤◌, ◌≡◌, ◌⊎◌, Bool-cases, leb, leb→le, min, max, refl, inl, inr, List, [], ◌∷◌,
  arith,
}
use sill_os.Frame.{Entry}
use sill_os.Fb.{saturating_add}
use sill_os.Kmem.{address_span}

-- The end of an entry, at most the largest number of 64 bits.
abbrev pub end_of : Entry → ℕ
end_of e = min (e.base + e.length) (2 ^ 64 - 1)

abbrev pub Within : ℕ → ℕ → List Entry → Type 0
Within lowest highest [] = Unit {0}
Within lowest highest (e ∷ es) =
    ((lowest ≤ e.base) × (end_of e ≤ highest)) × Within lowest highest es

abbrev pub BeginsAt : ℕ → List Entry → Type 0
BeginsAt lowest [] = ⊥
BeginsAt lowest (e ∷ es) = (e.base ≡ lowest) ⊎ BeginsAt lowest es

abbrev pub EndsAt : ℕ → List Entry → Type 0
EndsAt highest [] = ⊥
EndsAt highest (e ∷ es) = (end_of e ≡ highest) ⊎ EndsAt highest es

-- All entries lie in the span, which begins and ends with one of them, or as it was before.
pub record Spans (lowest highest : ℕ) (es : List Entry) (span : ℕ × ℕ) : Type 0 where
  pub below : span.0 ≤ lowest
  pub above : highest ≤ span.1
  pub within : Within span.0 span.1 es
  pub begins : (span.0 ≡ lowest) ⊎ BeginsAt span.0 es
  pub ends : (span.1 ≡ highest) ⊎ EndsAt span.1 es

module _ (lowest highest : ℕ) (e : Entry) (es : List Entry) (span : ℕ × ℕ) where
  begins-cons :
      (span.0 ≡ min lowest e.base) ⊎ BeginsAt span.0 es
      → (span.0 ≡ lowest) ⊎ BeginsAt span.0 (e ∷ es)
  begins-cons (inl h) = elim (Bool-cases (leb lowest e.base)) [
    | inl low ↦ inl (ground (arith, leb→le lowest e.base low))
    | inr high ↦ inr (inl (ground arith))
  ]
  begins-cons (inr h) = inr (inr h)

  ends-cons :
      (span.1 ≡ max highest (end_of e)) ⊎ EndsAt span.1 es
      → (span.1 ≡ highest) ⊎ EndsAt span.1 (e ∷ es)
  ends-cons (inl h) = elim (Bool-cases (leb (end_of e) highest)) [
    | inl low ↦ inl (ground (arith, leb→le (end_of e) highest low))
    | inr high ↦ inr (inl (ground arith))
  ]
  ends-cons (inr h) = inr (inr h)

  Spans-cons :
      Spans (min lowest e.base) (max highest (end_of e)) es span
      → Spans lowest highest (e ∷ es) span
  Spans-cons t = record {
    below = omega (arith, t.below);
    above = omega (arith, t.above);
    within = ((omega (arith, t.below), omega (arith, t.above)), t.within);
    begins = begins-cons t.begins;
    ends = ends-cons t.ends;
  }

-- From any lowest and highest address on, the loop of mem_analyze ends in a span in which every
-- entry lies, its end cut at the largest number of 64 bits, and whose ends are those it started
-- from or those of an entry.
pub address_span-Spans :
    (es : List Entry) (lowest highest : ℕ)
    → Spans lowest highest es (address_span lowest highest es)
unfolding address_span saturating_add
address_span-Spans [] lowest highest = record {
  below = omega arith;
  above = omega arith;
  within = tt;
  begins = inl refl;
  ends = inl refl;
}
address_span-Spans (e ∷ es) lowest highest =
    Spans-cons lowest highest e es (address_span (min lowest e.base) (max highest (end_of e)) es)
      (address_span-Spans es (min lowest e.base) (max highest (end_of e)))
