-- ===== src/Kmem/Mapped.antt =====
-- `init_heap` of src/kmem/heap.rs: the pages it maps and the heap it starts.
use native.Mathlib.Nat.{dvd_of_mod-eq-zero}
use sill_os.Base.{
  ℕ, zero, suc, ◌+◌, ◌/◌, ◌^◌, ◌≤◌, ◌<◌, ◌≡◌, ◌≢◌, ◌∙◌, ◌⊎◌, sym, subst, inl, inr, refl, Option,
  some, none, Option-cases, Bool-cases, ◌==◌, ==_iff, arith,
}
use sill_os.Buddy.{BuddyAllocator}
use sill_os.Buddy as Buddy
use sill_os.Buddy.Init.{Initialised, init-Initialised}
use sill_os.Kmem.{
  MapToError, frame_allocation_failed, MapResult, mapped, failed, map_pages, init_heap, heap_start,
  heap_size,
}

-- What `Mapper::map_to` promises: a page that is mapped without an error leads to its frame, and
-- the other pages lead where they did, whatever it returns.
pub record Maps {M A : Type 0} (map_to : M → A → ℕ → ℕ → (M × A) × MapResult)
    (frame_of : M → ℕ → Option ℕ) : Type 0 where
  pub sets :
      (m : M) (a : A) (page frame : ℕ)
      → (map_to m a page frame).1 ≡ mapped
      → frame_of (map_to m a page frame).0.0 page ≡ some frame
  pub keeps :
      (m : M) (a : A) (page frame other : ℕ)
      → other ≢ page
      → frame_of (map_to m a page frame).0.0 other ≡ frame_of m other

module _ {M A : Type 0} (allocate_frame : A → A × Option ℕ)
    (map_to : M → A → ℕ → ℕ → (M × A) × MapResult) (frame_of : M → ℕ → Option ℕ)
    (law : Maps map_to frame_of) where
  -- The pages from `page` on, as many as `left`, lead to frames, and the others where they did.
  pub record Mapped (left page : ℕ) (before after : M × A) : Type 0 where
    pub inside : (p : ℕ) → page ≤ p → p < page + left → (f : ℕ) × (frame_of after.0 p ≡ some f)
    pub outside :
        (p : ℕ) → (p < page) ⊎ (page + left ≤ p) → frame_of after.0 p ≡ frame_of before.0 p

  abbrev pub MapsAll : ℕ → ℕ → M × A → (M × A) × MapResult → Type 0
  MapsAll left page before (after, mapped) = Mapped left page before after
  MapsAll left page before (after, failed e) = Unit {0}

  -- One page more, below those that are mapped.
  module _ (left page frame : ℕ) (m : M) (a a' : A) (after : M × A)
      (e : (map_to m a' page frame).1 ≡ mapped)
      (t : Mapped left (page + 1) (map_to m a' page frame).0 after) where
    first_page : frame_of after.0 page ≡ some frame
    first_page = t.outside page (inl (omega arith)) ∙ law.sets m a' page frame e

    inside_cons : (p : ℕ) → page ≤ p → p < page + suc left → (f : ℕ) × (frame_of after.0 p ≡ some f)
    inside_cons p low high = elim (Bool-cases (p == page)) [
      | inl here ↦ (
        frame,
        subst (λ q. frame_of after.0 q ≡ some frame) (sym ((==_iff p page).0 here)) first_page,
      )
      | inr later ↦ t.inside p (ground arith) (omega arith)
    ]

    outside_cons : (p : ℕ) → (p < page) ⊎ (page + suc left ≤ p) → frame_of after.0 p ≡ frame_of m p
    outside_cons p (inl h) =
        t.outside p (inl (omega arith)) ∙ law.keeps m a' page frame p (omega arith)
    outside_cons p (inr h) =
        t.outside p (inr (omega arith)) ∙ law.keeps m a' page frame p (omega arith)

    Mapped-cons : Mapped (suc left) page (m, a) after
    Mapped-cons = record { inside = inside_cons; outside = outside_cons }

  MapsAll-cons :
      (left page frame : ℕ) (m : M) (a a' : A) (result : (M × A) × MapResult)
      → (map_to m a' page frame).1 ≡ mapped
      → MapsAll left (page + 1) (map_to m a' page frame).0 result
      → MapsAll (suc left) page (m, a) result
  MapsAll-cons left page frame m a a' (after, mapped) e t =
      Mapped-cons left page frame m a a' after e t
  MapsAll-cons left page frame m a a' (after, failed x) e t = tt

  abbrev pages : ℕ → ℕ → M × A → (M × A) × MapResult
  pages = map_pages allocate_frame map_to

  module _ (left page : ℕ) (m : M) (a : A) where
    pages-none :
        (allocate_frame a).1 ≡ none
        → pages (suc left) page (m, a) ≡ ((m, (allocate_frame a).0), failed frame_allocation_failed)
    unfolding map_pages
    pages-none e = rw (e, map_pages)

    module _ (f : ℕ) (e : (allocate_frame a).1 ≡ some f) where
      abbrev step : (M × A) × MapResult
      step = map_to m (allocate_frame a).0 page f

      pages-failed :
          (x : MapToError) → step.1 ≡ failed x → pages (suc left) page (m, a) ≡ (step.0, failed x)
      unfolding map_pages
      pages-failed x h = rw (e, map_pages, h)

      pages-mapped : step.1 ≡ mapped → pages (suc left) page (m, a) ≡ pages left (page + 1) step.0
      unfolding map_pages
      pages-mapped h = rw (e, map_pages, h)

  MapResult-cases : (r : MapResult) → (r ≡ mapped) ⊎ ((x : MapToError) × (r ≡ failed x))
  MapResult-cases mapped = inl refl
  MapResult-cases (failed x) = inr (x, refl)

  map_pages-MapsAll :
      (left page : ℕ) (state : M × A) → MapsAll left page state (pages left page state)
  map_pages-MapsAll zero page (m, a) =
      unfold map_pages in
      record { inside = λ p low high. absurd (omega arith); outside = λ p h. refl }
  map_pages-MapsAll (suc left) page (m, a) = elim (Option-cases (allocate_frame a).1) [
    | inl e ↦ rw (pages-none left page m a e) tt
    | inr (f, e) ↦ elim (MapResult-cases (step left page m a f e).1) [
      | inl h ↦ rw (pages-mapped left page m a f e h) (
          MapsAll-cons left page f m a (allocate_frame a).0 _ h
            (map_pages-MapsAll left (page + 1) (step left page m a f e).0))
      | inr (x, h) ↦ rw (pages-failed left page m a f e x h) tt
    ]
  ]

  -- Every address of the heap leads to a frame, pages outside lead where they did, and the heap is
  -- started over the whole range. After an error the heap is as it was.
  abbrev pub Starts :
      M × A → BuddyAllocator → Option ((M × A) × BuddyAllocator × MapResult) → Type 0
  Starts before heap none = ⊥
  Starts before heap (some (after, heap', failed e)) = heap' ≡ heap
  Starts before heap (some (after, heap', mapped)) =
      ((address : ℕ)
        → heap_start ≤ address
        → address < heap_start + heap_size
        → (f : ℕ) × (frame_of after.0 (address / 4096) ≡ some f))
      × ((p : ℕ)
          → (p < heap_start / 4096) ⊎ ((heap_start + heap_size) / 4096 ≤ p)
          → frame_of after.0 p ≡ frame_of before.0 p)
      × Initialised 18 heap_start heap_size heap'

  abbrev heap_pages : ℕ
  heap_pages = 25600

  module _ (state : M × A) (heap : BuddyAllocator) where
    abbrev run : Option ((M × A) × BuddyAllocator × MapResult)
    run = init_heap allocate_frame map_to state heap

    abbrev loop : (M × A) × MapResult
    loop = pages heap_pages (heap_start / 4096) state

    run_error : (e : MapToError) → loop.1 ≡ failed e → run ≡ some (loop.0, heap, failed e)
    unfolding init_heap
    run_error e h = rw h

    run_success :
        (heap' : BuddyAllocator)
        → loop.1 ≡ mapped
        → Buddy.init heap heap_start heap_size ≡ some heap'
        → run ≡ some (loop.0, heap', mapped)
    unfolding init_heap
    run_success heap' h e = rw (h, e)

    MapsAll-mapped :
        (result : (M × A) × MapResult)
        → MapsAll heap_pages (heap_start / 4096) state result
        → result.1 ≡ mapped
        → Mapped heap_pages (heap_start / 4096) state result.0
    MapsAll-mapped (after, mapped) t e = t
    MapsAll-mapped (after, failed x) t e = absurd (cc)

    -- For any mapper that sets the page it is given to its frame and keeps the others, and any
    -- frame allocator: init_heap does not panic. After an error the heap is as it was. Otherwise
    -- every address of the 100 MiB from the heap's start leads to a frame, the pages outside lead
    -- where they did, and the buddy allocator is started over the whole range, with the alignment 2
    -- ^ 18 of its start.
    pub init_heap-Starts : Starts state heap run
    init_heap-Starts = elim (MapResult-cases loop.1) [
      | inl h ↦
          let started =
            init-Initialised 18 heap heap_start heap_size (omega arith) refl
              (dvd_of_mod-eq-zero (2 ^ 18) refl) (omega arith) in
          let t = MapsAll-mapped loop (map_pages-MapsAll heap_pages (heap_start / 4096) state) h in
          rw (run_success started.0 h started.1) (
            λ address low high. t.inside (address / 4096) (omega arith) (omega arith),
            λ p out. elim out [
              | inl below ↦ t.outside p (inl below)
              | inr above ↦ t.outside p (inr (omega arith))
            ],
            started.2,
          )
      | inr (e, h) ↦ rw (run_error e h) refl
    ]
