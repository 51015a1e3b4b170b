-- ===== src/Buddy/Remove.antt =====
-- `remove_free_block` of src/kmem/heap/buddy.rs: the walk along a free list and the unlinking.
use sill_os.Base.{
  ℕ, zero, suc, ◌+◌, ◌/◌, ◌^◌, ◌≤◌, ◌<◌, ◌≡◌, ◌≢◌, refl, sym, ap, ◌∙◌, Bool, true, false, List, [],
  ◌∷◌, arith, update, ◌==◌, has, erase, length, Bool-cases, List-cases, ==_refl, ==_iff, inl, inr,
}
use sill_os.Buddy.{BuddyAllocator, order_count, remove_free_block, remove_loop, unlink, walk_fuel}
use sill_os.Buddy.Chain.{Chain, Distinct, Chain-frame, Chain-update}
use sill_os.Buddy.Weigh.{FreeLists, cover, cover_at, weigh-update, cover-erase}
use sill_os.Buddy.Lists.{Holds, SameHeap}
use sill_os.Buddy.Steps.{index_for-add, lists-Distinct, lists-apart}

-- From `prev`, a node that leads to `current`, the walk takes `target` out of the rest of the
-- chain, and writes to no other node.
record Unlinked (memory : ℕ → ℕ) (prev target : ℕ) (ys : List ℕ) (memory' : ℕ → ℕ) : Type 0 where
  chain : Chain memory' (memory' prev) (erase target ys)
  spared : (a : ℕ) → has a (prev ∷ ys) ≡ false → memory' a ≡ memory a

abbrev with_memory : BuddyAllocator → (ℕ → ℕ) → BuddyAllocator
with_memory s memory' = record s { memory = memory' }

nonzero : (n : ℕ) → n ≢ 0 → (n == 0) ≡ false
nonzero n h = ground arith

module _ (index target fuel : ℕ) (s : BuddyAllocator) (prev y : ℕ) (ny : y ≢ 0) where
  remove_loop-hit :
      prev ≢ 0
      → (y == target) ≡ true
      → remove_loop (suc fuel) s index target prev y
        ≡ (with_memory s (update s.memory prev (s.memory y)), true)
  unfolding remove_loop unlink
  remove_loop-hit ne hit = rw (nonzero y ny, hit, nonzero prev ne)

  remove_loop-miss :
      (y == target) ≡ false
      → remove_loop (suc fuel) s index target prev y
        ≡ remove_loop fuel s index target y (s.memory y)
  unfolding remove_loop
  remove_loop-miss miss = rw (nonzero y ny, miss)

module _ (index target : ℕ) where
  Unlinked-hit :
      (memory : ℕ → ℕ) (prev y : ℕ) (ys : List ℕ)
      → (y == target) ≡ true
      → Distinct (prev ∷ y ∷ ys)
      → Chain memory (memory y) ys
      → Unlinked memory prev target (y ∷ ys) (update memory prev (memory y))
  Unlinked-hit memory prev y ys hit d c = record {
    chain =
        rw (hit, ==_refl prev) (Chain-update memory prev (memory y) (memory y) ys (ground arith) c);
    spared = λ a o. ground arith;
  }

  Unlinked-miss :
      (memory memory' : ℕ → ℕ) (prev y : ℕ) (ys : List ℕ)
      → (y == target) ≡ false
      → y ≢ 0
      → memory prev ≡ y
      → Distinct (prev ∷ y ∷ ys)
      → Unlinked memory y target ys memory'
      → Unlinked memory prev target (y ∷ ys) memory'
  Unlinked-miss memory memory' prev y ys miss ny e d u = record {
    chain = rw miss (u.spared prev d.0 ∙ e, ny, u.chain);
    spared = λ a o. u.spared a (ground arith);
  }

  -- The walk from the second node on.
  remove_loop-found :
      (fuel : ℕ) (s : BuddyAllocator) (prev current : ℕ) (ys : List ℕ)
      → length ys < fuel
      → prev ≢ 0
      → s.memory prev ≡ current
      → Chain s.memory current ys
      → Distinct (prev ∷ ys)
      → has target ys ≡ true
      → (memory' : ℕ → ℕ) × (remove_loop fuel s index target prev current
          ≡ (with_memory s memory', true))
        × Unlinked s.memory prev target ys memory'
  remove_loop-found zero s prev current ys f ne e c d m = absurd (omega arith)
  remove_loop-found (suc fuel) s prev current [] f ne e c d m = absurd (cc)
  remove_loop-found (suc fuel) s prev current (y ∷ ys) f ne e c d m =
      elim (Bool-cases (y == target)) [
        | inl hit ↦ (
          update s.memory prev (s.memory y),
          rw c.0 (remove_loop-hit index target fuel s prev y c.1 ne hit),
          Unlinked-hit s.memory prev y ys hit d c.2,
        )
        | inr miss ↦
            let rest =
              remove_loop-found fuel s y (s.memory y) ys (omega arith) c.1 refl c.2 d.1
                (ground arith) in
            (
              rest.0,
              rw c.0 (remove_loop-miss index target fuel s prev y c.1 miss ∙ rest.1),
              Unlinked-miss s.memory rest.0 prev y ys miss c.1 (e ∙ c.0) d rest.2,
            )
      ]

  -- A walk that does not meet its target changes nothing.
  remove_loop-missing :
      (fuel : ℕ) (s : BuddyAllocator) (prev current : ℕ) (ys : List ℕ)
      → length ys < fuel
      → Chain s.memory current ys
      → has target ys ≡ false
      → remove_loop fuel s index target prev current ≡ (s, false)
  unfolding remove_loop
  remove_loop-missing zero s prev current ys f c m = absurd (omega arith)
  remove_loop-missing (suc fuel) s prev current [] f c m = ground arith
  remove_loop-missing (suc fuel) s prev current (y ∷ ys) f c m =
      rw c.0 (ground (arith, remove_loop-missing fuel s y (s.memory y) ys (omega arith) c.2))

-- The state after `remove_free_block` found its block.
pub record Removed (s : BuddyAllocator) (l : FreeLists) (a i : ℕ) (r : BuddyAllocator × Bool)
    : Type 0 where
  pub found : r.1 ≡ true
  pub holds : Holds r.0 (update l i (erase a (l i)))
  pub same : SameHeap s r.0

module _ {s : BuddyAllocator} {l : FreeLists} (h : Holds s l) (a i : ℕ) (p : i < order_count) where
  -- Where the lists in memory are l, and the list of index i is shorter than the fuel and does not
  -- have the block a: remove_free_block returns false and changes nothing.
  pub remove_free_block-missing :
      length (l i) < walk_fuel s → has a (l i) ≡ false → remove_free_block s a (i + 6) ≡ (s, false)
  unfolding remove_free_block
  remove_free_block-missing f m =
      rw (index_for-add i)
        (remove_loop-missing i a (walk_fuel s) s 0 (s.free_lists i) (l i) f (h.chains i p) m)

  erase-disjoint : has a (l i) ≡ true → (b : ℕ) → cover (update l i (erase a (l i))) b ≤ 1
  erase-disjoint m b = omega (
    arith,
    h.disjoint b,
    weigh-update (cover_at b) l order_count i (erase a (l i)) p,
    cover-erase (2 ^ (i + 6)) a (l i) b m,
  )

  module _ (y : ℕ) (ys : List ℕ) (e : l i ≡ y ∷ ys) (m : has a (l i) ≡ true) where
    first_node : Chain s.memory (s.free_lists i) (y ∷ ys)
    first_node = rw e at (h.chains i p)

    -- The block is the first of its list.
    Removed-head :
        (y == a) ≡ true
        → Removed s l a i (record s { free_lists = update s.free_lists i (s.memory y) }, true)
    Removed-head hit = record {
      found = refl;
      holds = record {
        chains = λ j q. elim (Bool-cases (i == j)) [
          | inl at ↦ rw (at, e, hit) first_node.2
          | inr off ↦ rw off (h.chains j q)
        ];
        disjoint = erase-disjoint m;
      };
      same = record { start = refl; size = refl; top = refl; ready = refl };
    }

    -- The block stands further down.
    Removed-rest :
        (memory' : ℕ → ℕ)
        → (y == a) ≡ false
        → Unlinked s.memory y a ys memory'
        → Removed s l a i (with_memory s memory', true)
    Removed-rest memory' miss u = record {
      found = refl;
      holds = record {
        chains = λ j q. elim (Bool-cases (i == j)) [
          | inl at ↦
              rw (at, e, miss)
                (ap s.free_lists (sym ((==_iff i j).0 at)) ∙ first_node.0, first_node.1, u.chain)
          | inr off ↦ rw off (
              Chain-frame s.memory memory' (s.free_lists j) (l j)
                (λ x m'. u.spared x (rw e at (lists-apart h x j i q p (ground arith) m')))
                (h.chains j q))
        ];
        disjoint = erase-disjoint m;
      };
      same = record { start = refl; size = refl; top = refl; ready = refl };
    }

    -- Where the walk begins, with the first node in view.
    walk_start : remove_free_block s a (i + 6) ≡ remove_loop (suc (s.heap_size / 2 ^ 6)) s i a 0 y
    walk_start =
        let fuel : walk_fuel s ≡ suc (s.heap_size / 2 ^ 6) = omega arith in
        unfold remove_free_block in
        rw (index_for-add i, first_node.0) (ap (λ (n : ℕ). remove_loop n s i a 0 y) fuel)

    remove_free_block-node :
        length (l i) < walk_fuel s → Removed s l a i (remove_free_block s a (i + 6))
    unfolding remove_loop unlink
    remove_free_block-node f = elim (Bool-cases (y == a)) [
      | inl hit ↦ rw (walk_start, nonzero y first_node.1, hit) (Removed-head hit)
      | inr miss ↦
          let short : suc (length ys) < walk_fuel s = rw e at f in
          let apart : Distinct (y ∷ ys) = rw e at (lists-Distinct h i p) in
          let inside : has a (y ∷ ys) ≡ true = rw e at m in
          let rest =
            remove_loop-found i a (s.heap_size / 2 ^ 6) s y (s.memory y) ys (omega arith)
              first_node.1 refl first_node.2 apart (ground arith) in
          rw (walk_start, nonzero y first_node.1, miss, rest.1) (Removed-rest rest.0 miss rest.2)
    ]

  -- Where the lists in memory are l, and the list of index i is shorter than the fuel and has the
  -- block a: remove_free_block returns true, and the lists in memory are then l without a in that
  -- list.
  pub remove_free_block-found :
      length (l i) < walk_fuel s
      → has a (l i) ≡ true
      → Removed s l a i (remove_free_block s a (i + 6))
  remove_free_block-found f m = elim (List-cases (l i)) [
    | inl e ↦ absurd (cc)
    | inr (y, ys, e) ↦ remove_free_block-node y ys e m f
  ]
