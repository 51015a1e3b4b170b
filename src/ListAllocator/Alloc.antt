-- ===== src/ListAllocator/Alloc.antt =====
-- `alloc` of src/kmem/heap.rs on a list of free regions, for any layout.
use sill_os.Base.{
  ℕ, ◌+◌, ◌^◌, ◌≤◌, ◌<◌, max, ◌≡◌, ◌∙◌, refl, ◌⊎◌, inl, inr, true, false, Option, none, some, List,
  arith, leb, Bool-cases, leb→le, if_true, if_false,
}
use sill_os.Buddy.{Layout}
use sill_os.ListAllocator.{
  ListNode, ListAllocator, Outcome, done, panic, adjust_layout, alloc_loop, finish, alloc,
}
use sill_os.ListAllocator.Fits.{adjusted, adjust_layout_lem}
use sill_os.ListAllocator.Served.{AllFree, NoneFits, Served, Serves, alloc_loop-Serves}

abbrev pub request : ℕ → ℕ → Layout
request size k = record { size = size; align = 2 ^ k }

-- The adjusted layout is one that `Layout::from_size_align` takes.
abbrev pub IsLayout : ℕ → ℕ → Type 0
IsLayout size k = max size 16 + 2 ^ max k 3 ≤ 2 ^ 63

abbrev pub Refused : ListAllocator → ℕ → ℕ → Type 0
Refused s size k = (¬ IsLayout size k) ⊎ NoneFits (adjusted size k) s.regions

-- `alloc` ends in null with the state as it was, or serves the layout that it adjusted.
abbrev pub Allocates : ListAllocator → ℕ → ℕ → Outcome (ListAllocator × ℕ) → Type 0
Allocates s size k panic = ⊥
Allocates s size k (done (s', p)) =
    ((p ≡ 0) × (s' ≡ s) × Refused s size k)
    ⊎ ((s'.initialized ≡ s.initialized)
        × IsLayout size k
        × Served (adjusted size k) s.regions p s'.regions)

finish-Allocates :
    (s : ListAllocator) (size k : ℕ) (res : Outcome (Option (ℕ × List ListNode)))
    → IsLayout size k
    → Serves (adjusted size k) s.regions res
    → Allocates s size k (finish s res)
unfolding finish
finish-Allocates s size k panic fine h = h
finish-Allocates s size k (done none) fine h = inl (refl, refl, inr h)
finish-Allocates s size k (done (some (a, regions))) fine h = inr (refl, fine, h)

module _ (size k : ℕ) (hk : k < 64) where
  pub adjust_layout-taken :
      IsLayout size k → adjust_layout (request size k) ≡ some (adjusted size k)
  adjust_layout-taken h =
      let test : leb (max size 16 + 2 ^ max k 3) (2 ^ 63) ≡ true = ground arith in
      adjust_layout_lem size k hk ∙ if_true _ _ test

  pub adjust_layout-refused : (¬ IsLayout size k) → adjust_layout (request size k) ≡ none
  adjust_layout-refused h =
      let test : leb (max size 16 + 2 ^ max k 3) (2 ^ 63) ≡ false = ground arith in
      adjust_layout_lem size k hk ∙ if_false _ _ test

  module _ (s : ListAllocator) (on : s.initialized ≡ true) where
    pub alloc-taken :
        IsLayout size k
        → alloc s (request size k) ≡ finish s (alloc_loop s.regions (adjusted size k))
    unfolding alloc
    alloc-taken h = if_true _ _ on ∙ rw (adjust_layout-taken h)

    alloc-refused : (¬ IsLayout size k) → alloc s (request size k) ≡ done (s, 0)
    unfolding alloc
    alloc-refused h = if_true _ _ on ∙ rw (adjust_layout-refused h)

    pub alloc-Allocates : AllFree s.regions → Allocates s size k (alloc s (request size k))
    alloc-Allocates all = elim (Bool-cases (leb (max size 16 + 2 ^ max k 3) (2 ^ 63))) [
      | inl fine ↦
          let h = leb→le _ _ fine in
          rw (alloc-taken h) (
            finish-Allocates s size k (alloc_loop s.regions (adjusted size k)) h (
              alloc_loop-Serves (max size 16) (max k 3) (omega arith) (omega arith) (omega arith) h
                s.regions all))
      | inr wide ↦
          let h : ¬ IsLayout size k = λ p. ground arith in
          rw (alloc-refused h) (inl (refl, refl, inl h))
    ]
