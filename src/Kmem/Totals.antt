-- ===== src/Kmem/Totals.antt =====
-- The sums of `mem_analyze` in src/kmem/mod.rs.
use sill_os.Base.{ℕ, ◌+◌, ◌^◌, ◌<◌, ◌≡◌, subst, refl, List, [], ◌∷◌, arith}
use sill_os.Frame.{Entry}
use sill_os.Fb.{saturating_add}
use sill_os.Kmem.{
  MemmapTypes, RegionClass, usable, Tally, no_entries, class_of, count_class, count_entry, tally,
}

abbrev pub sum_lengths : List Entry → ℕ
sum_lengths [] = 0
sum_lengths (e ∷ es) = e.length + sum_lengths es

-- The total is `n`, and each byte of it is counted in one class.
pub record Totals (n : ℕ) (t : Tally) : Type 0 where
  pub total : t.total_memory ≡ n
  pub parts :
      t.usable_memory + t.reserved_memory + t.reclaimable_memory + t.bootloader_memory
        + t.kernel_memory + t.framebuffer_memory + t.bad_memory + t.other_memory
      ≡ n

module _ (t : Tally) (n base length : ℕ) (h : Totals n t) (fits : n + length < 2 ^ 64) where
  abbrev counted : Tally
  counted = record t { total_memory = saturating_add t.total_memory length }

  count_class-Totals : (c : RegionClass) → Totals (n + length) (count_class c counted base length)
  unfolding count_class saturating_add
  count_class-Totals usable = omega (arith, h.total, h.parts)
  count_class-Totals _ = omega (arith, h.total, h.parts)

module _ (types : MemmapTypes) where
  count_entry-Totals :
      (e : Entry) (n : ℕ) (t : Tally)
      → n + e.length < 2 ^ 64
      → Totals n t
      → Totals (n + e.length) (count_entry types t e)
  unfolding count_entry
  count_entry-Totals e n t fits h =
      count_class-Totals t n e.base e.length h fits (class_of types e.type_)

  tally-Totals_from :
      (es : List Entry) (n : ℕ) (t : Tally)
      → n + sum_lengths es < 2 ^ 64
      → Totals n t
      → Totals (n + sum_lengths es) (tally types t es)
  unfolding tally
  tally-Totals_from [] n t fits h = let e : n + 0 ≡ n = omega arith in rw e h
  tally-Totals_from (e ∷ es) n t fits h =
      let same : n + e.length + sum_lengths es ≡ n + (e.length + sum_lengths es) = omega arith in
      subst (λ m. Totals m (tally types (count_entry types t e) es)) same
        (tally-Totals_from es (n + e.length) (count_entry types t e) (omega arith)
          (count_entry-Totals e n t (omega arith) h))

  -- Where the lengths of all entries together fit in 64 bits, the total of mem_analyze is their
  -- sum, and the eight sums over the kinds of memory add up to it.
  pub tally-Totals :
      (es : List Entry)
      → sum_lengths es < 2 ^ 64
      → Totals (sum_lengths es) (tally types no_entries es)
  unfolding no_entries
  tally-Totals es fits =
      let zero-add : 0 + sum_lengths es ≡ sum_lengths es = omega arith in
      subst (λ m. Totals m (tally types no_entries es)) zero-add
        (tally-Totals_from es 0 no_entries (omega arith) (record { total = refl; parts = refl }))
