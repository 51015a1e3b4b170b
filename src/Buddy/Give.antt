-- ===== src/Buddy/Give.antt =====
-- `release`, the part of `dealloc` of src/kmem/heap/buddy.rs after the order is known.
use native.Mathlib.Nat.{pow-le-pow_right}
use sill_os.Base.{
  refl, Option, some, if_true, if_false, ltb, ℕ, zero, suc, ◌+◌, ◌-◌, ◌*◌, ◌^◌, ◌≤◌, ◌<◌, ◌≡◌, ap,
  ◌∙◌, Bool, true, false, min, arith, has, erase, Bool-cases, inl, inr,
}
use sill_os.Buddy.{
  BuddyAllocator, order_count, release, merge_loop, block_size, push_free_block, remove_free_block,
  buddy_of,
}
use sill_os.Buddy.Weigh.{
  FreeLists, in_block, cover, cover_at, bytes_at, free_bytes, weigh-update, cover-erase,
  length-erase,
}
use sill_os.Buddy.Lists.{Holds, SameHeap, give_block, push_list, buddy}
use sill_os.Buddy.Steps.{
  push_free_block-Holds, push_free_block-SameHeap, SameHeap-refl, SameHeap-trans,
}
use sill_os.Buddy.Remove.{Removed, remove_free_block-missing, remove_free_block-found}
use sill_os.Buddy.Take.{cover-halves}
use sill_os.Buddy.Join.{
  buddy_adjacent, without, give_block-hit, give_block-miss, joined, length-lt-walk_fuel,
}

buddy_of-buddy :
    (s : BuddyAllocator) (start a i : ℕ)
    → s.heap_start ≡ start
    → start ≤ a
    → buddy start a i < 2 ^ 64
    → buddy_of s a (i + 6) ≡ some (buddy start a i)
buddy_of-buddy s start a i e above short =
    let within : ltb a s.heap_start ≡ false = ground (arith, e) in
    let fits : ltb (buddy start a i) (2 ^ 64) ≡ true = ground arith in
    unfold buddy_of block_size in if_false _ _ within ∙ rw e (if_true _ _ fits)

-- A buddy below the largest order has 64 bits.
buddy-short : (start a i : ℕ) → start ≤ a → i < 24 → a + 2 ^ 30 ≤ 2 ^ 64 → buddy start a i < 2 ^ 64
buddy-short start a i above low high = omega (
  arith,
  buddy_adjacent start a i above,
  pow-le-pow_right {n = 2} (omega arith) {i = i + 6} {j = 29} (omega arith),
)

-- From `s` the call succeeds, with the lists in memory and every other field as before.
abbrev pub Gives : BuddyAllocator → FreeLists → Option BuddyAllocator → Type 0
Gives s l r = (s' : BuddyAllocator) × (r ≡ some s') × Holds s' l × SameHeap s s'

module _ (n : ℕ) (s : BuddyAllocator) (start a i : ℕ) (es : s.heap_start ≡ start)
    (below : i + 6 < s.max_order) (above : start ≤ a) (short : buddy start a i < 2 ^ 64) where
  abbrev walked : BuddyAllocator × Bool
  walked = remove_free_block s (buddy start a i) (i + 6)

  guard : ltb (i + 6) s.max_order ≡ true
  guard = ground arith

  merge_loop-hit :
      walked.1 ≡ true
      → merge_loop (suc n) s a (i + 6) ≡ merge_loop n walked.0 (min a (buddy start a i)) (i + 1 + 6)
  merge_loop-hit e =
      let next : i + 6 + 1 ≡ i + 1 + 6 = omega arith in
      unfold merge_loop in rw (guard, buddy_of-buddy s start a i es above short, e, next)

  merge_loop-miss :
      walked ≡ (s, false) → merge_loop (suc n) s a (i + 6) ≡ some (push_free_block s a (i + 6))
  merge_loop-miss e =
      unfold merge_loop in
      rw (guard, buddy_of-buddy s start a i es above short, ap (λ r. r.1) e, ap (λ r. r.0) e)

-- `release` gives a block back as the lists do, and merges as often.
module _ (start : ℕ) (pos : 0 < start) where
  -- The hypotheses that the merging loop keeps.
  pub record Returnable (n : ℕ) (s : BuddyAllocator) (l : FreeLists) (a i : ℕ) : Type 0 where
    pub holds : Holds s l
    pub based : s.heap_start ≡ start
    pub small : free_bytes l ≤ s.heap_size
    pub rounds : n ≡ s.max_order - (i + 6)
    pub indexed : i + n < order_count
    pub above : start ≤ a
    pub high : a + 2 ^ 30 ≤ 2 ^ 64
    pub room : (b : ℕ) → in_block a (2 ^ (i + 6)) b + cover l b ≤ 1

  module _ {n : ℕ} {s : BuddyAllocator} {l : FreeLists} {a i : ℕ} (t : Returnable (suc n) s l a i)
      (free : has (buddy start a i) (l i) ≡ true) where
    taken_out : Removed s l (buddy start a i) i (remove_free_block s (buddy start a i) (i + 6))
    taken_out =
        remove_free_block-found t.holds (buddy start a i) i (omega (arith, t.indexed))
          (length-lt-walk_fuel s l i (omega (arith, t.indexed)) t.small) free

    joined-Returnable :
        Returnable n
          (remove_free_block s (buddy start a i) (i + 6)).0
          (without start l a i)
          (min a (buddy start a i))
          (i + 1)
    joined-Returnable = record {
      holds = taken_out.holds;
      based = taken_out.same.start ∙ t.based;
      small = omega (
        arith,
        t.small,
        taken_out.same.size,
        weigh-update bytes_at l order_count i (erase (buddy start a i) (l i))
            (omega (arith, t.indexed)),
        ap (λ (k : ℕ). 2 ^ (i + 6) * k) (length-erase (buddy start a i) (l i) free),
      );
      rounds = omega (arith, taken_out.same.top, t.rounds);
      indexed = omega (arith, t.indexed);
      above = omega (arith, t.above, buddy_adjacent start a i t.above);
      high = omega (arith, t.high);
      room = λ b. omega (
        arith,
        t.room b,
        joined (λ j c. in_block c (2 ^ (j + 6)) b) (cover-halves b) start a i t.above,
        cover-erase (2 ^ (i + 6)) (buddy start a i) (l i) b free,
        weigh-update (cover_at b) l order_count i (erase (buddy start a i) (l i))
            (omega (arith, t.indexed)),
      );
    }

  pushed-Gives :
      {n : ℕ} {s : BuddyAllocator} {l : FreeLists} {a i : ℕ}
      → Returnable n s l a i
      → Gives s (push_list l i a) (some (push_free_block s a (i + 6)))
  pushed-Gives {s = s} {a = a} {i = i} t = (
    push_free_block s a (i + 6),
    refl,
    push_free_block-Holds t.holds a i (omega (arith, t.indexed)) (omega (arith, t.above)) t.room,
    push_free_block-SameHeap s a (i + 6) (SameHeap-refl s),
  )

  merge_loop-Holds :
      (n : ℕ) (s : BuddyAllocator) (l : FreeLists) (a i : ℕ)
      → Returnable n s l a i
      → Gives s (give_block n start l a i) (merge_loop n s a (i + 6))
  merge_loop-Holds zero s l a i t = unfold merge_loop give_block in pushed-Gives t
  merge_loop-Holds (suc n) s l a i t =
      let short = buddy-short start a i t.above (omega (arith, t.indexed)) t.high in
      elim (Bool-cases (has (buddy start a i) (l i))) [
        | inl free ↦
            let r = taken_out t free in
            let (s', done, holds, same) =
              merge_loop-Holds n _ _ _ (i + 1) (joined-Returnable t free) in
            rw
              (
                give_block-hit n start l a i free,
                merge_loop-hit n s start a i t.based (omega (arith, t.rounds)) t.above short
                    r.found,
              )
              (s', done, holds, SameHeap-trans r.same same)
        | inr used ↦
            let kept =
              remove_free_block-missing t.holds (buddy start a i) i (omega (arith, t.indexed))
                (length-lt-walk_fuel s l i (omega (arith, t.indexed)) t.small) used in
            rw
              (
                give_block-miss n start l a i used,
                merge_loop-miss n s start a i t.based (omega (arith, t.rounds)) t.above short kept,
              )
              (pushed-Gives t)
      ]

  -- For a heap above 0, lists l in memory whose blocks fit in it, and a block of index i at or
  -- above its start, at an address at most 2 ^ 64 - 2 ^ 30, that shares no byte with a free one:
  -- release does not panic, leaves in memory the lists that giving the block back to l gives,
  -- joined with its buddy as long as that is free, and changes no other field.
  pub release-Holds :
      (s : BuddyAllocator) (l : FreeLists) (a i : ℕ)
      → Returnable (s.max_order - (i + 6)) s l a i
      → Gives s (give_block (s.max_order - (i + 6)) start l a i) (release s a (i + 6))
  release-Holds s l a i t = unfold release in merge_loop-Holds (s.max_order - (i + 6)) s l a i t
