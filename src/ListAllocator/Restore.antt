-- ===== src/ListAllocator/Restore.antt =====
-- `dealloc` after `alloc`, of src/kmem/heap.rs.
use sill_os.Base.{ℕ, ◌-◌, ◌≤◌, max, ◌≡◌, ◌≢◌, ap, refl, subst, inl, inr, true, ◌∷◌, arith}
use sill_os.ListAllocator.{ListAllocator, done, alloc, dealloc}
use sill_os.ListAllocator.Fits.{adjusted}
use sill_os.ListAllocator.Served.{AllFree, Served, mod_eight}
use sill_os.ListAllocator.Alloc.{request, Allocates, alloc-Allocates}
use sill_os.ListAllocator.Session.{dealloc_lem, AllFree-append}
use sill_os.ListAllocator.Bytes.{inside, covers, inside_none}

module _ (s : ListAllocator) (size k : ℕ) (s' : ListAllocator) (p : ℕ) where
  abbrev pub given_back : ListAllocator
  given_back = record s' { regions = record { start = p; size = max size 16 } ∷ s'.regions }

  Served-covers :
      k ≤ 3
      → AllFree s.regions
      → Served (adjusted size k) s.regions p s'.regions
      → (x : ℕ) → covers given_back.regions x ≡ covers s.regions x
  unfolding covers
  Served-covers small all t x =
      let eight : max k 3 ≡ 3 = omega arith in
      let region = AllFree-append t.before t.region t.after (subst AllFree t.split all) in
      let none_lost : p - t.region.start ≡ 0 =
        omega (arith, region.0.aligned, rw eight at t.aligned, rw eight at t.near, t.behind) in
      omega (
        arith,
        t.bytes x,
        inside_none x t.region.start,
        ap (λ (n : ℕ). inside x t.region.start n) none_lost,
      )

  -- On an initialised list allocator whose regions are aligned, hold a node and end at or below 2 ^
  -- 63, for a layout of alignment at most 8: where alloc returns a block that is not null, dealloc
  -- of it with the same layout does not panic, puts it in front of the free regions, and each byte
  -- is free as often as before alloc.
  pub alloc-dealloc :
      s.initialized ≡ true
      → AllFree s.regions
      → k ≤ 3
      → p ≢ 0
      → alloc s (request size k) ≡ done (s', p)
      → (dealloc s' p (request size k) ≡ done given_back)
        × ((x : ℕ) → covers given_back.regions x ≡ covers s.regions x)
  alloc-dealloc on all small used e =
      elim (subst (Allocates s size k) e (alloc-Allocates size k (omega arith) s on all)) [
        | inl null ↦ absurd (used null.0)
        | inr (same, fine, t) ↦ (
          dealloc_lem s' (record { start = p; size = max size 16 }) size k (omega arith) refl
              (record {
                aligned = mod_eight p (max k 3) (omega arith) t.aligned;
                large = omega arith;
                low = t.low;
              })
              used fine,
          Served-covers small all t,
        )
      ]
