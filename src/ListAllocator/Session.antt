-- ===== src/ListAllocator/Session.antt =====
-- Whole uses of the linked-list allocator of src/kmem/heap.rs: init, then alloc and dealloc in any
-- order.
use sill_os.Base.{
  ℕ, ◌+◌, ◌%◌, ◌^◌, ◌≤◌, ◌<◌, max, ◌≡◌, ◌≢◌, ◌∙◌, refl, ◌⊎◌, subst, inl, inr, true, false, ap, List,
  [], ◌∷◌, ◌++◌, arith, leb, leb→le, Bool-cases, ◌==◌,
}
use sill_os.ListAllocator.{
  ListNode, ListAllocator, Outcome, done, panic, new, init, add_free_region, alloc, dealloc,
}
use sill_os.ListAllocator.Fits.{IsFree}
use sill_os.ListAllocator.Served.{AllFree, mod_eight}
use sill_os.ListAllocator.Alloc.{
  request, IsLayout, Allocates, alloc-Allocates, adjust_layout-taken, adjust_layout-refused,
}
use sill_os.ListAllocator.Bytes.{inside, covers}

-- The allocator and the blocks that are in use, each with the size that it was adjusted to.
pub record Heap : Type 0 where
  pub allocator : ListAllocator
  pub live : List ListNode

-- A call of `alloc` or `dealloc` that does not panic. A size is a multiple of 8, and a block is
-- given back once, with a layout of the size with which it was allocated.
pub data Step : Heap → Heap → Type 0 where
  refuse :
      (h : Heap) (size k : ℕ) (s : ListAllocator)
      → k < 64
      → size % 8 ≡ 0
      → alloc h.allocator (request size k) ≡ done (s, 0)
      → Step h (record h { allocator = s })
  serve :
      (h : Heap) (size k : ℕ) (s : ListAllocator) (p : ℕ)
      → k < 64
      → size % 8 ≡ 0
      → p ≢ 0
      → alloc h.allocator (request size k) ≡ done (s, p)
      → Step h (record { allocator = s; live = record { start = p; size = max size 16 } ∷ h.live })
  release :
      (h : Heap) (size k : ℕ) (s : ListAllocator) (before after : List ListNode) (b : ListNode)
      → k < 64
      → max size 16 ≡ b.size
      → h.live ≡ before ++ b ∷ after
      → dealloc h.allocator b.start (request size k) ≡ done s
      → Step h (record { allocator = s; live = before ++ after })

pub data Reach (h : Heap) : Heap → Type 0 where
  here : Reach h h
  next : {i j : Heap} → Reach h i → Step i j → Reach h j

-- No byte is in two free regions or blocks, and each lies in the heap. Each free region can hold a
-- node, and each block can become one.
pub record Kept (heap_start heap_size : ℕ) (h : Heap) : Type 0 where
  pub on : h.allocator.initialized ≡ true
  pub free : AllFree h.allocator.regions
  pub blocks : AllFree h.live
  pub owned :
      (x : ℕ) → covers h.allocator.regions x + covers h.live x ≤ inside x heap_start heap_size

-- `dealloc` ends with the block free again, or with nothing changed: at the null pointer, and for
-- a layout that `alloc` refuses.
abbrev pub Deallocates : ListAllocator → ListNode → Outcome ListAllocator → Type 0
Deallocates s b panic = ⊥
Deallocates s b (done s') =
    (s' ≡ s) ⊎ ((s'.initialized ≡ s.initialized) × (s'.regions ≡ b ∷ s.regions))

add_free_region_lem :
    (s : ListAllocator) (b : ListNode)
    → IsFree b
    → add_free_region s b.start b.size ≡ done (record s { regions = b ∷ s.regions })
unfolding add_free_region
add_free_region_lem s b free = ground (arith, free.aligned, free.large)

pub dealloc_lem :
    (s : ListAllocator) (b : ListNode) (size k : ℕ)
    → k < 64
    → max size 16 ≡ b.size
    → IsFree b
    → b.start ≢ 0
    → IsLayout size k
    → dealloc s b.start (request size k) ≡ done (record s { regions = b ∷ s.regions })
unfolding dealloc
dealloc_lem s b size k hk same free used fine =
    let test : (b.start == 0) ≡ false = ground arith in
    rw (test, adjust_layout-taken size k hk fine, same, add_free_region_lem s b free)

dealloc-Deallocates :
    (s : ListAllocator) (b : ListNode) (size k : ℕ)
    → k < 64
    → max size 16 ≡ b.size
    → IsFree b
    → Deallocates s b (dealloc s b.start (request size k))
unfolding dealloc
dealloc-Deallocates s b size k hk same free = elim (Bool-cases (b.start == 0)) [
  | inl null ↦ rw null (inl refl)
  | inr used ↦ elim (Bool-cases (leb (max size 16 + 2 ^ max k 3) (2 ^ 63))) [
    | inl fine ↦
        rw (dealloc_lem s b size k hk same free (λ e. ground arith) (leb→le _ _ fine))
          (inr (refl, refl))
    | inr wide ↦ rw (used, adjust_layout-refused size k hk (λ p. ground arith)) (inl refl)
  ]
]

covers-append :
    (xs : List ListNode) (b : ListNode) (ys : List ListNode) (x : ℕ)
    → covers (xs ++ b ∷ ys) x ≡ inside x b.start b.size + covers (xs ++ ys) x
unfolding covers
covers-append [] b ys x = refl
covers-append (y ∷ xs) b ys x = omega (arith, covers-append xs b ys x)

pub AllFree-append :
    (xs : List ListNode) (b : ListNode) (ys : List ListNode)
    → AllFree (xs ++ b ∷ ys)
    → IsFree b × AllFree (xs ++ ys)
AllFree-append [] b ys all = all
AllFree-append (y ∷ xs) b ys all =
    let rest = AllFree-append xs b ys all.1 in (rest.0, (all.0, rest.1))

module _ (heap_start heap_size : ℕ) where
  refuse-Kept :
      {h : Heap} (size k : ℕ) (s : ListAllocator)
      → k < 64
      → size % 8 ≡ 0
      → Kept heap_start heap_size h
      → Allocates h.allocator size k (done (s, 0))
      → Kept heap_start heap_size (record h { allocator = s })
  refuse-Kept size k s hk even kept (inl a) = record {
    on = rw a.1 kept.on;
    free = rw a.1 kept.free;
    blocks = kept.blocks;
    owned = rw a.1 kept.owned;
  }
  refuse-Kept size k s hk even kept (inr a) = record {
    on = a.0 ∙ kept.on;
    free = a.2.free (ground arith);
    blocks = kept.blocks;
    owned = λ x. omega (arith, kept.owned x, a.2.bytes x);
  }

  serve-Kept :
      {h : Heap} (size k : ℕ) (s : ListAllocator) (p : ℕ)
      → k < 64
      → size % 8 ≡ 0
      → p ≢ 0
      → Kept heap_start heap_size h
      → Allocates h.allocator size k (done (s, p))
      → Kept heap_start heap_size
          (record { allocator = s; live = record { start = p; size = max size 16 } ∷ h.live })
  serve-Kept size k s p hk even used kept (inl a) = absurd (used a.0)
  serve-Kept size k s p hk even used kept (inr a) = record {
    on = a.0 ∙ kept.on;
    free = a.2.free (ground arith);
    blocks = (
      record {
        aligned = mod_eight p (max k 3) (omega arith) a.2.aligned;
        large = omega arith;
        low = a.2.low;
      },
      kept.blocks,
    );
    owned = λ x. unfold covers in omega (arith, kept.owned x, a.2.bytes x);
  }

  release-Kept :
      {h : Heap} (s : ListAllocator) (before after : List ListNode) (b : ListNode)
      → h.live ≡ before ++ b ∷ after
      → Kept heap_start heap_size h
      → Deallocates h.allocator b (done s)
      → Kept heap_start heap_size (record { allocator = s; live = before ++ after })
  release-Kept {h} s before after b split kept d =
      let all = AllFree-append before b after (subst AllFree split kept.blocks) in
      let bytes =
        λ (x : ℕ). ap (λ (l : List ListNode). covers l x) split ∙ covers-append before b after x in
      elim d [
        | inl same ↦ record {
          on = rw same kept.on;
          free = rw same kept.free;
          blocks = all.1;
          owned = λ x. rw same (omega (arith, kept.owned x, bytes x));
        }
        | inr (on, regions) ↦ record {
          on = on ∙ kept.on;
          free = rw regions (all.0, kept.free);
          blocks = all.1;
          owned = λ x. rw regions (unfold covers in omega (arith, kept.owned x, bytes x));
        }
      ]

  Step-Kept : {h i : Heap} → Step h i → Kept heap_start heap_size h → Kept heap_start heap_size i
  Step-Kept (refuse h size k s hk even e) kept = refuse-Kept size k s hk even kept (
      subst (Allocates h.allocator size k) e
        (alloc-Allocates size k hk h.allocator kept.on kept.free))
  Step-Kept (serve h size k s p hk even used e) kept = serve-Kept size k s p hk even used kept (
      subst (Allocates h.allocator size k) e
        (alloc-Allocates size k hk h.allocator kept.on kept.free))
  Step-Kept (release h size k s before after b hk same split e) kept =
      let all = AllFree-append before b after (subst AllFree split kept.blocks) in
      release-Kept s before after b split kept (
        subst (Deallocates h.allocator b) e
          (dealloc-Deallocates h.allocator b size k hk same all.0))

  Reach-Kept : {h i : Heap} → Reach h i → Kept heap_start heap_size h → Kept heap_start heap_size i
  Reach-Kept here kept = kept
  Reach-Kept (next r st) kept = Step-Kept st (Reach-Kept r kept)

  abbrev pub whole : ListNode
  whole = record { start = heap_start; size = heap_size }

  abbrev pub started : ListAllocator
  started = record { regions = whole ∷ []; initialized = true }

  module _ (aligned : heap_start % 8 ≡ 0) (large : 16 ≤ heap_size)
      (low : heap_start + heap_size ≤ 2 ^ 63) where
    whole-IsFree : IsFree whole
    whole-IsFree = record { aligned = aligned; large = large; low = low }

    init-started : init new heap_start heap_size ≡ done started
    unfolding init new
    init-started = ground (arith, add_free_region_lem (record new { initialized = true }) whole)

    started-Kept : Kept heap_start heap_size (record { allocator = started; live = [] })
    started-Kept = record {
      on = refl;
      free = (whole-IsFree, tt);
      blocks = tt;
      owned = λ x. unfold covers in omega arith;
    }

    -- On a range of at least 16 bytes below 2 ^ 63 that starts at a multiple of 8, init of a new
    -- list allocator succeeds, with the range as its region. After any sequence of calls of alloc
    -- with sizes that are multiples of 8, and of dealloc of blocks in use with the size they have:
    -- no byte lies in two free regions or blocks or outside the range, and each free region and
    -- block can hold a node.
    pub session-Kept :
        {h : Heap}
        → Reach (record { allocator = started; live = [] }) h
        → (init new heap_start heap_size ≡ done started) × Kept heap_start heap_size h
    session-Kept r = (init-started, Reach-Kept r started-Kept)
