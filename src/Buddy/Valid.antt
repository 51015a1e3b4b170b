-- ===== src/Buddy/Valid.antt =====
-- A heap in use of src/kmem/heap/buddy.rs stays one under every `alloc`.
use sill_os.Base.{
  ℕ, ◌+◌, ◌-◌, ◌≡◌, ◌∙◌, refl, sym, ap, subst, Option, none, some, arith, inl, inr, max, if_true,
}
use sill_os.Buddy.{BuddyAllocator, Layout, alloc, layout_order, node_size}
use sill_os.Buddy.Weigh.{FreeLists}
use sill_os.Buddy.Heap.{IsValid, alloc_lem}
use sill_os.Buddy.Sizes.{SmallestOrder, order_for_size-SmallestOrder}

-- Valid, for some alignment of its start and some lists.
abbrev pub HeapValid : BuddyAllocator → Type 0
HeapValid s = (n : ℕ) × (l : FreeLists) × IsValid n s l

module _ (s : BuddyAllocator) (layout : Layout) (h : HeapValid s) where
  served-HeapValid : (i : ℕ) → layout_order layout ≡ some (i + 6) → HeapValid (alloc s layout).0
  served-HeapValid i e =
      let (n, l, v) = h in
      elim (alloc_lem v layout i e) [
        | inl p ↦ subst (λ r. HeapValid r.0) (sym p.0) h
        | inr a ↦ (n, a.lists, a.valid)
      ]

  ordered-HeapValid :
      (o : Option ℕ)
      → layout_order layout ≡ o
      → SmallestOrder (max (max layout.size layout.align) node_size) o
      → HeapValid (alloc s layout).0
  ordered-HeapValid none e least =
      let nothing : alloc s layout ≡ (s, 0) = unfold alloc in if_true _ _ h.2.ready ∙ rw e in
      subst (λ r. HeapValid r.0) (sym nothing) h
  ordered-HeapValid (some o) e least =
      let shifted : o ≡ o - 6 + 6 = omega (arith, least.0) in
      served-HeapValid (o - 6) (e ∙ ap some shifted)

  pub alloc-HeapValid : HeapValid (alloc s layout).0
  alloc-HeapValid =
      ordered-HeapValid (layout_order layout) refl
        (unfold layout_order in order_for_size-SmallestOrder (max layout.size layout.align))
