-- ===== src/Buddy/Init.antt =====
-- `init` of src/kmem/heap/buddy.rs: the outer loop and the whole.
use native.Mathlib.Nat.{one-le-pow, dvd_trans, dvd_of_mod-eq-zero}
use Prim.Native.Nat.{◌∣◌}
use sill_os.Base.{
  ltb, leb, ℕ, zero, suc, ◌+◌, ◌-◌, ◌*◌, ◌/◌, ◌%◌, ◌^◌, ◌≤◌, ◌<◌, ◌≡◌, refl, subst, ◌∙◌, true,
  false, some, [], ◌∷◌, arith, ◌==◌, Bool-cases, inl, inr, ◌&&◌, ◌||◌, not, if_true, min, leb→le,
}
use sill_os.Buddy.{
  BuddyAllocator, min_order, max_order_limit, order_count, init, decompose, pick_order,
  push_free_block, block_size, largest_order_for,
}
use sill_os.Buddy.Weigh.{FreeLists, in_block, cover, cover_list, weigh, weigh-update, cover_at}
use sill_os.Buddy.Lists.{Holds, SameHeap, push_list}
use sill_os.Buddy.Steps.{
  push_free_block-Holds, push_free_block-SameHeap, SameHeap-refl, SameHeap-trans,
}
use sill_os.Buddy.Heap.{IsValid, in_block_le_one}
use sill_os.Buddy.Align.{alignment, AllAligned, AllAligned-push, pow-dvd-pow}
use sill_os.Buddy.Sizes.{largest_order_for-LargestOrder}
use sill_os.Buddy.Pick.{pow_64, Fits, pick_order-Fits}

-- One round of the outer loop, at the order that the inner loop picks.
decompose-next :
    (fuel : ℕ) (s : BuddyAllocator) (addr remaining order : ℕ)
    → pick_order s.max_order addr remaining ≡ order
    → Fits addr remaining order
    → 64 ≤ remaining
    → decompose (suc fuel) s addr remaining
      ≡ decompose fuel (push_free_block s addr order) (addr + 2 ^ order) (remaining - 2 ^ order)
decompose-next fuel s addr remaining order e fits enough =
    let first : leb 64 remaining ≡ true = ground arith in
    let goes_on : (ltb remaining (2 ^ order) || not (addr % 2 ^ order == 0)) ≡ false =
      ground arith in
    unfold decompose block_size in rw (e, first, goes_on)

decompose-done :
    (fuel : ℕ) (s : BuddyAllocator) (addr remaining : ℕ)
    → remaining < 64
    → decompose fuel s addr remaining ≡ s
decompose-done zero s addr remaining h = unfold decompose in refl
decompose-done (suc fuel) s addr remaining h =
    let last : leb 64 remaining ≡ false = ground arith in unfold decompose block_size in rw last

-- The free blocks are the part of the range at `start` before `addr`.
record Seeded (s : BuddyAllocator) (l : FreeLists) (start addr : ℕ) : Type 0 where
  holds : Holds s l
  lowest : min_order ≤ s.max_order
  highest : s.max_order ≤ max_order_limit
  based : 0 < start
  above : start ≤ addr
  aligned : addr % 64 ≡ 0
  listed : (k : ℕ) → AllAligned k l
  bytes : (b : ℕ) → cover l b ≡ in_block start (addr - start) b

in_block-seam :
    (start addr size b : ℕ)
    → start ≤ addr
    → in_block addr size b + in_block start (addr - start) b
      ≡ in_block start (addr + size - start) b
unfolding in_block
in_block-seam start addr size b h = ground arith

cover-push_list :
    (l : FreeLists) (i a b : ℕ)
    → i < order_count
    → cover (push_list l i a) b ≡ cover l b + in_block a (2 ^ (i + 6)) b
unfolding push_list cover_list
cover-push_list l i a b p = omega (arith, weigh-update (cover_at b) l order_count i (a ∷ l i) p)

Seeded-push :
    {s : BuddyAllocator} {l : FreeLists} {start : ℕ} (addr remaining i : ℕ)
    → Seeded s l start addr
    → Fits addr remaining (i + 6)
    → i < order_count
    → Seeded (push_free_block s addr (i + 6)) (push_list l i addr) start (addr + 2 ^ (i + 6))
Seeded-push {s} {l} {start} addr remaining i t fits p = record {
  holds = push_free_block-Holds t.holds addr i p (omega (arith, t.based, t.above)) (λ b. omega (
    arith,
    t.bytes b,
    in_block-seam start addr (2 ^ (i + 6)) b t.above,
    in_block_le_one start (addr + 2 ^ (i + 6) - start) b,
  ));
  lowest = unfold push_free_block in t.lowest;
  highest = unfold push_free_block in t.highest;
  based = t.based;
  above = omega (arith, t.above);
  aligned = omega (arith, t.aligned, pow_64 (i + 6) (omega arith));
  listed = λ k. AllAligned-push k l i addr (whole k) (t.listed k);
  bytes = λ b. omega (
    arith,
    t.bytes b,
    in_block-seam start addr (2 ^ (i + 6)) b t.above,
    cover-push_list l i addr b p,
  );
}
  where
    whole : (k : ℕ) → alignment k i ∣ addr
    whole k =
        dvd_trans (alignment k i) (pow-dvd-pow (min (i + 6) k) (i + 6) (omega arith))
          (dvd_of_mod-eq-zero (2 ^ (i + 6)) fits.2)

-- The state in which the loop ends, with the lists that it holds.
record Seeds (s r : BuddyAllocator) (start addr : ℕ) : Type 0 where
  lists : FreeLists
  seeded : Seeded r lists start addr
  same : SameHeap s r

Seeds-push :
    {s r : BuddyAllocator} {start addr : ℕ} (a order : ℕ)
    → Seeds (push_free_block s a order) r start addr
    → Seeds s r start addr
Seeds-push {s} a order t = record {
  lists = t.lists;
  seeded = t.seeded;
  same = SameHeap-trans (push_free_block-SameHeap s a order (SameHeap-refl s)) t.same;
}

Seeds-step :
    (fuel : ℕ) (s : BuddyAllocator) (start addr remaining i : ℕ)
    → pick_order s.max_order addr remaining ≡ i + 6
    → Fits addr remaining (i + 6)
    → 64 ≤ remaining
    → let size = 2 ^ (i + 6) in
      let pushed = push_free_block s addr (i + 6) in
      Seeds pushed
        (decompose fuel pushed (addr + size) (remaining - size))
        start
        (addr + size + (remaining - size) / 64 * 64)
      → Seeds s (decompose (suc fuel) s addr remaining) start (addr + remaining / 64 * 64)
Seeds-step fuel s start addr remaining i e fits enough rest =
    let end : addr + 2 ^ (i + 6) + (remaining - 2 ^ (i + 6)) / 64 * 64
        ≡ addr + remaining / 64 * 64 =
      omega (arith, pow_64 (i + 6) (omega arith), fits) in
    rw (decompose-next fuel s addr remaining (i + 6) e fits enough, ← end)
      (Seeds-push addr (i + 6) rest)

-- With enough fuel the loop goes on until less than a smallest block remains.
decompose-Seeds :
    (fuel : ℕ) (s : BuddyAllocator) (l : FreeLists) (start addr remaining : ℕ)
    → Seeded s l start addr
    → remaining / 64 < fuel
    → Seeds s (decompose fuel s addr remaining) start (addr + remaining / 64 * 64)
decompose-Seeds zero s l start addr remaining t f = absurd (omega arith)
decompose-Seeds (suc fuel) s l start addr remaining t f = elim (Bool-cases (leb 64 remaining)) [
  | inl enough ↦
      let more : 64 ≤ remaining = leb→le 64 remaining enough in
      let picked = pick_order-Fits addr remaining t.aligned more s.max_order t.lowest in
      let i : ℕ = pick_order s.max_order addr remaining - 6 in
      let e : pick_order s.max_order addr remaining ≡ i + 6 = omega (arith, picked.0) in
      let fits : Fits addr remaining (i + 6) = subst (Fits addr remaining) e picked.0 in
      let indexed : i < order_count = omega (arith, picked.1, t.highest) in
      Seeds-step fuel s start addr remaining i e fits more (
        decompose-Seeds fuel (push_free_block s addr (i + 6)) (push_list l i addr) start
          (addr + 2 ^ (i + 6)) (remaining - 2 ^ (i + 6))
          (Seeded-push addr remaining i t fits indexed)
          (omega (arith, pow_64 (i + 6) (omega arith), one-le-pow i 2, fits)))
  | inr short ↦
      let less : remaining < 64 = ground arith in
      let end : addr + remaining / 64 * 64 ≡ addr = omega arith in
      rw (decompose-done (suc fuel) s addr remaining less, end)
        (record { lists = l; seeded = t; same = SameHeap-refl s })
]

-- The state before the outer loop.
abbrev emptied : BuddyAllocator → ℕ → ℕ → BuddyAllocator
emptied s heap_start heap_size = record s {
  heap_start = heap_start;
  heap_size = heap_size;
  max_order = min (largest_order_for heap_size) max_order_limit;
  free_lists = λ _. 0;
}

pub no_block-cover : (n b : ℕ) → weigh n (cover_at b) (λ _. []) ≡ 0
unfolding weigh cover_list
no_block-cover zero b = refl
no_block-cover (suc n) b = omega (arith, no_block-cover n b)

-- Empty lists in memory.
pub nothing-Holds : (s : BuddyAllocator) → ((i : ℕ) → s.free_lists i ≡ 0) → Holds s (λ _. [])
nothing-Holds s none_free = record {
  chains = λ i p. none_free i;
  disjoint = λ b. omega (arith, no_block-cover order_count b);
}

pub no_block-AllAligned : (k : ℕ) → AllAligned k (λ _. [])
no_block-AllAligned k j x p m = absurd (cc)

in_block_none : (a b : ℕ) → in_block a (a - a) b ≡ 0
unfolding in_block
in_block_none a b = ground arith

emptied-Seeded :
    (s : BuddyAllocator) (heap_start heap_size : ℕ)
    → 0 < heap_start
    → heap_start % 64 ≡ 0
    → Seeded (emptied s heap_start heap_size) (λ _. []) heap_start heap_start
emptied-Seeded s heap_start heap_size pos aligned = record {
  holds = nothing-Holds (emptied s heap_start heap_size) (λ i. refl);
  lowest = omega (arith, largest_order_for-LargestOrder heap_size);
  highest = omega (arith, largest_order_for-LargestOrder heap_size);
  based = pos;
  above = omega arith;
  aligned = aligned;
  listed = no_block-AllAligned;
  bytes = λ b. omega (arith, no_block-cover order_count b, in_block_none heap_start b);
}

-- What `init` gives: a valid heap, in which every whole smallest block of the range is free.
pub record Initialised (k heap_start heap_size : ℕ) (s : BuddyAllocator) : Type 0 where
  pub lists : FreeLists
  pub valid : IsValid k s lists
  pub start : s.heap_start ≡ heap_start
  pub size : s.heap_size ≡ heap_size
  pub bytes : (b : ℕ) → cover lists b ≡ in_block heap_start (heap_size / 64 * 64) b

in_block_within : (start size b : ℕ) → in_block start (size / 64 * 64) b ≤ in_block start size b
unfolding in_block
in_block_within start size b = ground arith

in_block_span : (start n b : ℕ) → in_block start (start + n - start) b ≡ in_block start n b
unfolding in_block
in_block_span start n b = ground arith

abbrev started : BuddyAllocator → BuddyAllocator
started r = record r { initialized = true }

Seeds-Initialised :
    {s r : BuddyAllocator} (k start size : ℕ)
    → 2 ^ k ∣ start
    → s.heap_start ≡ start
    → s.heap_size ≡ size
    → Seeds s r start (start + size / 64 * 64)
    → Initialised k start size (started r)
Seeds-Initialised {s} {r} k start size base es ez t = record {
  lists = t.lists;
  valid = record {
    holds = record { chains = t.seeded.holds.chains; disjoint = t.seeded.holds.disjoint };
    ready = refl;
    lowest = t.seeded.lowest;
    highest = t.seeded.highest;
    based = omega (arith, t.seeded.based, t.same.start);
    base = rw (t.same.start, es) base;
    aligned = t.seeded.listed k;
    inside = λ b.
        rw (t.same.start, es, t.same.size, ez)
          (omega (arith, bytes b, in_block_within start size b));
  };
  start = t.same.start ∙ es;
  size = t.same.size ∙ ez;
  bytes = bytes;
}
  where
    bytes : (b : ℕ) → cover t.lists b ≡ in_block start (size / 64 * 64) b
    bytes b = t.seeded.bytes b ∙ in_block_span start (size / 64 * 64) b

-- On a range of at least 64 bytes that starts above 0 at a multiple of 64 and of 2 ^ k, init
-- succeeds and leaves a valid heap over that range in which exactly the bytes of its whole 64-byte
-- blocks are free.
pub init-Initialised :
    (k : ℕ) (s : BuddyAllocator) (heap_start heap_size : ℕ)
    → 0 < heap_start
    → heap_start % 2 ^ min_order ≡ 0
    → 2 ^ k ∣ heap_start
    → 2 ^ min_order ≤ heap_size
    → (s' : BuddyAllocator) × (init s heap_start heap_size ≡ some s')
      × Initialised k heap_start heap_size s'
init-Initialised k s heap_start heap_size pos aligned base large =
    let empty = emptied s heap_start heap_size in
    let asserted : (heap_start % 64 == 0 && leb 64 heap_size) ≡ true = ground arith in
    (
      started (decompose (heap_size / 64 + 1) empty heap_start heap_size),
      unfold init in if_true _ _ asserted,
      Seeds-Initialised k heap_start heap_size base refl refl (
          decompose-Seeds (heap_size / 64 + 1) empty (λ _. []) heap_start heap_start heap_size
            (emptied-Seeded s heap_start heap_size pos aligned) (omega arith)),
    )
