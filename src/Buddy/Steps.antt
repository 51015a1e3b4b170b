-- ===== src/Buddy/Steps.antt =====
-- The operations of src/kmem/heap/buddy.rs on one free list, in memory and on lists of addresses.
use sill_os.Base.{
  ℕ, ◌+◌, ◌^◌, ◌≤◌, ◌<◌, ◌≡◌, ◌≢◌, refl, ap, ◌∙◌, ◌∙◌, true, false, none, some, List, [], ◌∷◌,
  arith, update, ◌==◌, has, Bool-cases, ==_refl, inl, inr,
}
use native.Mathlib.Nat.{one-le-pow}
use sill_os.Buddy.{BuddyAllocator, order_count, index_for, push_free_block, pop_free_block}
use sill_os.Buddy.Chain.{Chain, Distinct, Chain-update}
use sill_os.Buddy.Weigh.{
  FreeLists, in_block, cover, cover_list, cover_at, weigh-update, part-le-weigh, parts-le-weigh,
  has-cover, cover-Distinct,
}
use sill_os.Buddy.Lists.{Holds, SameHeap, push_list}

pub index_for-add : (i : ℕ) → index_for (i + 6) ≡ i
unfolding index_for
index_for-add i = omega arith

pub in_block_self : (a size : ℕ) → 0 < size → in_block a size a ≡ 1
unfolding in_block
in_block_self a size h = ground arith

module _ {s : BuddyAllocator} {l : FreeLists} (h : Holds s l) where
  pub lists-Distinct : (i : ℕ) → i < order_count → Distinct (l i)
  lists-Distinct i lt =
      cover-Distinct (2 ^ (i + 6)) (one-le-pow (i + 6) 2 (omega arith)) (l i)
        (λ b. omega (arith, h.disjoint b, part-le-weigh (cover_at b) l order_count i lt))

  -- An address is in one free list only.
  pub lists-apart :
      (a i j : ℕ)
      → i < order_count
      → j < order_count
      → i ≢ j
      → has a (l i) ≡ true
      → has a (l j) ≡ false
  lists-apart a i j p q ne m = elim (Bool-cases (has a (l j))) [
    | inl m' ↦ absurd (
        omega (
          arith,
          h.disjoint a,
          parts-le-weigh (cover_at a) l order_count i j p q ne,
          has-cover (2 ^ (i + 6)) (one-le-pow (i + 6) 2 (omega arith)) a (l i) m,
          has-cover (2 ^ (j + 6)) (one-le-pow (j + 6) 2 (omega arith)) a (l j) m',
        ))
    | inr out ↦ out
  ]

  -- The start of a block that overlaps no free block is in no free list.
  pub fresh-not-has : (a i : ℕ) → i < order_count → cover l a ≡ 0 → has a (l i) ≡ false
  fresh-not-has a i p e = elim (Bool-cases (has a (l i))) [
    | inl m ↦ absurd (
        omega (
          arith,
          part-le-weigh (cover_at a) l order_count i p,
          has-cover (2 ^ (i + 6)) (one-le-pow (i + 6) 2 (omega arith)) a (l i) m,
        ))
    | inr out ↦ out
  ]

  pub push_free_block-Holds :
      (a i : ℕ)
      → i < order_count
      → a ≢ 0
      → ((b : ℕ) → in_block a (2 ^ (i + 6)) b + cover l b ≤ 1)
      → Holds (push_free_block s a (i + 6)) (push_list l i a)
  unfolding push_free_block push_list cover_list
  push_free_block-Holds a i p ne room = record {
    chains = λ j q. rw (index_for-add i) (elim (Bool-cases (i == j)) [
      | inl e ↦ rw e (
        refl,
        ne,
        rw (==_refl a) (
            Chain-update s.memory a (s.free_lists i) (s.free_lists i) (l i) (out i p)
              (h.chains i p)),
      )
      | inr e ↦
          rw e (
            Chain-update s.memory a (s.free_lists i) (s.free_lists j) (l j) (out j q)
              (h.chains j q))
    ]);
    disjoint = λ b. omega (arith, room b, weigh-update (cover_at b) l order_count i (a ∷ l i) p);
  }
    where
      out : (j : ℕ) → j < order_count → has a (l j) ≡ false
      out j q = fresh-not-has a j q (
          omega (arith, room a, in_block_self a (2 ^ (i + 6)) (one-le-pow (i + 6) 2 (omega arith))))

  -- Popping an empty list changes nothing.
  pub pop_free_block-nil :
      (i : ℕ) → i < order_count → l i ≡ [] → pop_free_block s (i + 6) ≡ (s, none)
  unfolding pop_free_block
  pop_free_block-nil i p e =
      let c : Chain s.memory (s.free_lists i) [] = rw e at (h.chains i p) in rw (index_for-add i, c)

  pub listed-ne_zero : (i x : ℕ) (xs : List ℕ) → i < order_count → l i ≡ x ∷ xs → x ≢ 0
  listed-ne_zero i x xs p e =
      let c : Chain s.memory (s.free_lists i) (x ∷ xs) = rw e at (h.chains i p) in c.1

  abbrev pub after_pop : ℕ → ℕ → BuddyAllocator
  after_pop i x = record s { free_lists = update s.free_lists i (s.memory x) }

  pub pop_free_block-cons :
      (i x : ℕ) (xs : List ℕ)
      → i < order_count
      → l i ≡ x ∷ xs
      → (pop_free_block s (i + 6) ≡ (after_pop i x, some x)) × Holds (after_pop i x) (update l i xs)
  unfolding pop_free_block cover_list
  pop_free_block-cons i x xs p e =
      let c : Chain s.memory (s.free_lists i) (x ∷ xs) = rw e at (h.chains i p) in
      let full : (s.free_lists i == 0) ≡ false = ground arith in
      (
        rw (index_for-add i, full) (ap (λ n. (after_pop i n, some n)) c.0),
        record {
          chains =
              λ j q. elim (Bool-cases (i == j)) [ inl e ↦ rw e c.2 | inr e ↦ rw e (h.chains j q) ];
          disjoint = λ b. omega (
            arith,
            h.disjoint b,
            weigh-update (cover_at b) l order_count i xs p,
            ap (λ ys. cover_list (2 ^ (i + 6)) ys b) e,
          );
        },
      )

pub push_free_block-SameHeap :
    (s : BuddyAllocator) {s' : BuddyAllocator} (a order : ℕ)
    → SameHeap s s'
    → SameHeap s (push_free_block s' a order)
unfolding push_free_block
push_free_block-SameHeap s a order same = record {
  start = same.start;
  size = same.size;
  top = same.top;
  ready = same.ready;
}

pub SameHeap-refl : (s : BuddyAllocator) → SameHeap s s
SameHeap-refl s = record { start = refl; size = refl; top = refl; ready = refl }

pub SameHeap-trans : {s t u : BuddyAllocator} → SameHeap s t → SameHeap t u → SameHeap s u
SameHeap-trans p q = record {
  start = q.start ∙ p.start;
  size = q.size ∙ p.size;
  top = q.top ∙ p.top;
  ready = q.ready ∙ p.ready;
}
