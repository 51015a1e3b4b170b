-- ===== src/Buddy/Heap.antt =====
-- `alloc` and `dealloc` of src/kmem/heap/buddy.rs over a heap in use.
use native.Mathlib.Nat.{one-le-pow}
use Prim.Native.Nat.{◌∣◌}
use sill_os.Base.{
  ltb, ℕ, zero, suc, ◌+◌, ◌-◌, ◌^◌, ◌≤◌, ◌<◌, ◌≡◌, ◌≢◌, refl, sym, ◌∙◌, ltb→lt, if_false, ◌||◌, not,
  true, false, Option, none, some, ◌⊎◌, [], arith, ◌==◌, List-cases, inl, inr, Bool-cases, ==_iff,
  if_true,
}
use sill_os.Buddy.{
  BuddyAllocator, Layout, min_order, max_order_limit, order_count, alloc, dealloc, release,
  layout_order, allocate_order, allocate_loop, pointer,
}
use sill_os.Buddy.Weigh.{FreeLists, in_block, cover}
use sill_os.Buddy.Lists.{Holds, SameHeap, split_lists, take_block, give_block}
use sill_os.Buddy.Steps.{in_block_self}
use sill_os.Buddy.Take.{
  Takes, allocate_order-Takes, take_block-cover, take_block-nil, take_block-cons,
}
use sill_os.Buddy.Join.{give_block-cover}
use sill_os.Buddy.Give.{Returnable, release-Holds}
use sill_os.Buddy.Align.{alignment, AllAligned, Aligned, take_block-Aligned, give_block-AllAligned}
use sill_os.Buddy.Count.{free_bytes-le}

in_block_start : (b start bytes : ℕ) → 1 ≤ in_block start bytes b → start ≤ b
unfolding in_block
in_block_start b start bytes h = ground arith

pub in_block_le_one : (start bytes b : ℕ) → in_block start bytes b ≤ 1
unfolding in_block
in_block_le_one start bytes b = ground arith

-- An initialised allocator over a heap whose start `2 ^ k` divides: the free blocks, those of `l`,
-- lie in the heap, do not overlap, and are as aligned as their size and `2 ^ k`.
pub record IsValid (k : ℕ) (s : BuddyAllocator) (l : FreeLists) : Type 0 where
  pub holds : Holds s l
  pub ready : s.initialized ≡ true
  pub lowest : min_order ≤ s.max_order
  pub highest : s.max_order ≤ max_order_limit
  pub based : 0 < s.heap_start
  pub base : 2 ^ k ∣ s.heap_start
  pub aligned : AllAligned k l
  pub inside : (b : ℕ) → cover l b ≤ in_block s.heap_start s.heap_size b

-- No block from index `i` up to that of `max_order` is free.
abbrev pub NoneFree : BuddyAllocator → FreeLists → ℕ → Type 0
NoneFree s l i = (j : ℕ) → i ≤ j → j + 6 ≤ s.max_order → l j ≡ []

split_lists-none : (t : Option (ℕ × FreeLists)) (i : ℕ) → split_lists t i ≡ none → t ≡ none
unfolding split_lists
split_lists-none none i e = refl
split_lists-none (some (a, l)) i e = cc

take_block-none :
    (n : ℕ) (l : FreeLists) (i : ℕ)
    → take_block n l i ≡ none
    → (j : ℕ) → i ≤ j
    → j < i + n
    → l j ≡ []
take_block-none zero l i e j lo hi = absurd (omega arith)
take_block-none (suc n) l i e j lo hi = elim (List-cases (l i)) [
  | inl empty ↦ elim (Bool-cases (i == j)) [
    | inl same ↦ rw (← (==_iff i j).0 same) empty
    | inr other ↦
        take_block-none n l (i + 1)
          (split_lists-none (take_block n l (i + 1)) i (sym (take_block-nil n l i empty) ∙ e)) j
          (ground arith) (omega arith)
  ]
  | inr (x, xs, full) ↦ absurd (cc (take_block-cons n l i x xs full))
]

-- What a successful allocation of index `i` does: it gives a block that was free, and no other
-- byte changes.
pub record Allocated (k : ℕ) (s : BuddyAllocator) (l : FreeLists) (i : ℕ) (r : BuddyAllocator × ℕ)
    : Type 0 where
  pub lists : FreeLists
  pub valid : IsValid k r.0 lists
  pub same : SameHeap s r.0
  pub not_null : r.1 ≢ 0
  pub aligned : alignment k i ∣ r.1
  pub bytes : (b : ℕ) → cover l b ≡ cover lists b + in_block r.1 (2 ^ (i + 6)) b

allocate_order_above :
    (s : BuddyAllocator) (order : ℕ) → s.max_order < order → allocate_order s order ≡ (s, none)
allocate_order_above s order high = unfold allocate_order in go (s.max_order + 2 - order)
  where
    go : (n : ℕ) → allocate_loop n s order ≡ (s, none)
    go zero = unfold allocate_loop in refl
    go (suc n) =
        let above : ltb s.max_order order ≡ true = ground arith in unfold allocate_loop in rw above

module _ {k : ℕ} {s : BuddyAllocator} {l : FreeLists} (v : IsValid k s l) where
  IsValid-moved :
      {s' : BuddyAllocator} {l' : FreeLists}
      → Holds s' l'
      → SameHeap s s'
      → AllAligned k l'
      → ((b : ℕ) → cover l' b ≤ in_block s.heap_start s.heap_size b)
      → IsValid k s' l'
  IsValid-moved h same aligned inside = record {
    holds = h;
    ready = same.ready ∙ v.ready;
    lowest = omega (arith, same.top, v.lowest);
    highest = omega (arith, same.top, v.highest);
    based = omega (arith, same.start, v.based);
    base = rw same.start v.base;
    aligned = aligned;
    inside = λ b. rw (same.start, same.size) (inside b);
  }

  Takes-Allocated :
      (i : ℕ) (t : Option (ℕ × FreeLists)) (r : BuddyAllocator × Option ℕ)
      → t ≡ take_block (s.max_order + 1 - (i + 6)) l i
      → i + 6 ≤ s.max_order
      → Takes s t r
      → ((pointer r ≡ (s, 0)) × NoneFree s l i) ⊎ Allocated k s l i (pointer r)
  Takes-Allocated i none r e le t = inl (
    unfold pointer in rw t,
    λ j lo hi. take_block-none (s.max_order + 1 - (i + 6)) l i (sym e) j lo (omega arith),
  )
  Takes-Allocated i (some (a, l')) r e le (s', got, h, same, ne) =
      let bytes : (b : ℕ) → cover l b ≡ cover l' b + in_block a (2 ^ (i + 6)) b = λ b.
        rw (← e) at
          (take_block-cover b (s.max_order + 1 - (i + 6)) l i (omega (arith, v.highest))) in
      let placed : Aligned k i (some (a, l')) = rw (← e) at (
        take_block-Aligned k (s.max_order + 1 - (i + 6)) l i (omega (arith, v.highest))
          v.aligned) in
      unfold pointer in
      rw got (
        inr (record {
          lists = l';
          valid = IsValid-moved h same placed.1 (λ b. omega (arith, v.inside b, bytes b));
          same = same;
          not_null = ne;
          aligned = placed.0;
          bytes = bytes;
        }))

  -- On a valid heap, whose free blocks are the lists l, and for a layout whose order is i + 6,
  -- alloc either returns null, changes nothing, and no block of index i up to the largest is free,
  -- or it returns an address that is not null, that 2 ^ (i + 6) divides, or 2 ^ k where that is
  -- less, and whose 2 ^ (i + 6) bytes were free, it takes exactly these bytes out of the free ones,
  -- and the heap stays valid.
  pub alloc_lem :
      (layout : Layout) (i : ℕ)
      → layout_order layout ≡ some (i + 6)
      → ((alloc s layout ≡ (s, 0)) × NoneFree s l i) ⊎ Allocated k s l i (alloc s layout)
  alloc_lem layout i e = rw alloc_order (elim (Bool-cases (ltb s.max_order (i + 6))) [
    | inl above ↦
        let high : s.max_order < i + 6 = ltb→lt s.max_order (i + 6) above in
        rw (allocate_order_above s (i + 6) high)
          (inl (unfold pointer in refl, λ j lo hi. absurd (omega arith)))
    | inr within ↦
        Takes-Allocated i (take_block (s.max_order + 1 - (i + 6)) l i) (allocate_order s (i + 6))
          refl (ground arith) (allocate_order-Takes v.holds v.highest i (ground arith))
  ])
    where
      alloc_order : alloc s layout ≡ pointer (allocate_order s (i + 6))
      alloc_order = unfold alloc in if_true _ _ v.ready ∙ rw e

  -- What may be given back as a block of index `i`: an aligned block in the heap that shares no
  -- byte with a free block.
  abbrev pub Used : ℕ → ℕ → Type 0
  Used a i =
      (alignment k i ∣ a)
      × ((b : ℕ) → in_block a (2 ^ (i + 6)) b + cover l b ≤ in_block s.heap_start s.heap_size b)

  module _ (a i : ℕ) (p : i < order_count) (used : Used a i) where
    pub above_start : s.heap_start ≤ a
    above_start = ground (
      arith,
      used.1 a,
      in_block_self a (2 ^ (i + 6)) (one-le-pow (i + 6) 2 (omega arith)),
      in_block_start a s.heap_start s.heap_size,
    )

    used-Returnable :
        a + 2 ^ 30 ≤ 2 ^ 64 → Returnable s.heap_start v.based (s.max_order - (i + 6)) s l a i
    used-Returnable high = record {
      holds = v.holds;
      based = refl;
      small = free_bytes-le s.heap_start s.heap_size l v.inside;
      rounds = refl;
      indexed = omega (arith, v.highest);
      above = above_start;
      high = high;
      room = λ b. omega (arith, used.1 b, in_block_le_one s.heap_start s.heap_size b);
    }

    -- On a valid heap, for an aligned block of index i inside the heap at an address at most 2 ^ 64
    -- - 2 ^ 30, that shares no byte with a free block, and a layout of that order, dealloc does not
    -- panic and leaves a valid heap in which exactly the bytes of the block are free besides those
    -- that were.
    pub dealloc_lem :
        (layout : Layout)
        → layout_order layout ≡ some (i + 6)
        → a + 2 ^ 30 ≤ 2 ^ 64
        → (s' : BuddyAllocator) × (l' : FreeLists) × (dealloc s a layout ≡ some s')
          × IsValid k s' l'
          × SameHeap s s'
          × ((b : ℕ) → cover l' b ≡ cover l b + in_block a (2 ^ (i + 6)) b)
    dealloc_lem layout e high =
        let (s', released, holds, same) =
          release-Holds s.heap_start v.based s l a i (used-Returnable high) in
        let l' = give_block (s.max_order - (i + 6)) s.heap_start l a i in
        let bytes : (b : ℕ) → cover l' b ≡ cover l b + in_block a (2 ^ (i + 6)) b = λ b.
          give_block-cover b (s.max_order - (i + 6)) s.heap_start l a i (omega (arith, v.highest))
            above_start in
        (
          s',
          l',
          dealloc_order ∙ released,
          IsValid-moved holds same
              (give_block-AllAligned k s.heap_start v.base (s.max_order - (i + 6)) l a i
                (omega (arith, v.highest)) above_start used.0 v.aligned)
              (λ b. omega (arith, bytes b, used.1 b)),
          same,
          bytes,
        )
      where
        dealloc_order : dealloc s a layout ≡ release s a (i + 6)
        dealloc_order =
            let live : (a == 0 || not s.initialized) ≡ false =
              ground (arith, v.ready, v.based, above_start) in
            unfold dealloc in if_false _ _ live ∙ rw e
