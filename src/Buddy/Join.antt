-- ===== src/Buddy/Join.antt =====
-- Blocks given back to the lists of src/kmem/heap/buddy.rs: buddies, and what the lists cover.
use native.Mathlib.Nat.{one-le-pow}
use native.Mathlib.Numerals.{towards_suc}
use sill_os.Base.{
  ℕ, zero, suc, ◌+◌, ◌-◌, ◌*◌, ◌^◌, ◌≤◌, ◌<◌, ◌≡◌, refl, ap, true, false, min, ◌⊎◌, List, ◌∷◌,
  arith, update, has, erase, length, Bool-cases, inl, inr,
}
use sill_os.Base.Bits.{bit_xor-pow, pow_le_of_bit}
use sill_os.Buddy.{BuddyAllocator, order_count, walk_fuel}
use sill_os.Buddy.Weigh.{
  FreeLists, in_block, cover, cover_list, cover_at, bytes_at, free_bytes, weigh, weigh-update,
  part-le-weigh, cover-erase,
}
use sill_os.Buddy.Lists.{push_list, give_block, buddy}
use sill_os.Buddy.Take.{cover-halves}

-- The buddy is the block of the same size right behind or right before, on the heap's side.
pub buddy_adjacent :
    (start a i : ℕ)
    → start ≤ a
    → (buddy start a i ≡ a + 2 ^ (i + 6))
      ⊎ ((a ≡ buddy start a i + 2 ^ (i + 6)) × (start ≤ buddy start a i))
buddy_adjacent start a i le =
    ground (arith, bit_xor-pow (i + 6) (a - start), pow_le_of_bit (a - start) (2 ^ (i + 6)))

-- The lists without a free buddy.
abbrev pub without : ℕ → FreeLists → ℕ → ℕ → FreeLists
without start l a i = update l i (erase (buddy start a i) (l i))

module _ (n start : ℕ) (l : FreeLists) (a i : ℕ) where
  pub give_block-hit :
      has (buddy start a i) (l i) ≡ true
      → give_block (suc n) start l a i
        ≡ give_block n start (without start l a i) (min a (buddy start a i)) (i + 1)
  give_block-hit e = unfold give_block in rw (e, give_block)

  pub give_block-miss :
      has (buddy start a i) (l i) ≡ false → give_block (suc n) start l a i ≡ push_list l i a
  give_block-miss e = unfold give_block in rw (e, give_block)

module _ (g : ℕ → ℕ → ℕ) (halves : (i a : ℕ) → g (i + 1) a ≡ g i a + g i (a + 2 ^ (i + 6))) where
  -- Two buddies weigh as much as the block that they make.
  pub joined :
      (start a i : ℕ)
      → start ≤ a
      → g (i + 1) (min a (buddy start a i)) ≡ g i a + g i (buddy start a i)
  joined start a i le = elim (buddy_adjacent start a i le) [
    | inl behind ↦
        let least : min a (buddy start a i) ≡ a = omega arith in rw (least, behind) (halves i a)
    | inr before ↦
        let least : min a (buddy start a i) ≡ buddy start a i = omega arith in
        rw least (omega (arith, halves i (buddy start a i), ap (g i) before.0))
  ]

module _ (f : ℕ → List ℕ → ℕ) (g : ℕ → ℕ → ℕ)
    (cons : (i x : ℕ) (xs : List ℕ) → f i (x ∷ xs) ≡ g i x + f i xs)
    (halves : (i a : ℕ) → g (i + 1) a ≡ g i a + g i (a + 2 ^ (i + 6)))
    (erased : (i x : ℕ) (xs : List ℕ) → has x xs ≡ true → f i (erase x xs) + g i x ≡ f i xs) where
  -- Giving a block back raises the weight by that of the block.
  pub give_block-Conserved :
      (n start : ℕ) (l : FreeLists) (a i : ℕ)
      → i + n < order_count
      → start ≤ a
      → weigh order_count f (give_block n start l a i) ≡ weigh order_count f l + g i a
  unfolding push_list give_block
  give_block-Conserved zero start l a i p le =
      omega (arith, cons i a (l i), weigh-update f l order_count i (a ∷ l i) (omega arith))
  give_block-Conserved (suc n) start l a i p le = elim (Bool-cases (has (buddy start a i) (l i))) [
    | inl free ↦ rw (give_block-hit n start l a i free) (
        omega (
          arith,
          give_block-Conserved n start (without start l a i) (min a (buddy start a i)) (i + 1)
              (omega arith) (omega (arith, buddy_adjacent start a i le)),
          joined g halves start a i le,
          erased i (buddy start a i) (l i) free,
          weigh-update f l order_count i (erase (buddy start a i) (l i)) (omega arith),
        ))
    | inr used ↦
        rw (give_block-miss n start l a i used)
          (omega (arith, cons i a (l i), weigh-update f l order_count i (a ∷ l i) (omega arith)))
  ]

pub give_block-cover :
    (b n start : ℕ) (l : FreeLists) (a i : ℕ)
    → i + n < order_count
    → start ≤ a
    → cover (give_block n start l a i) b ≡ cover l b + in_block a (2 ^ (i + 6)) b
give_block-cover b =
    give_block-Conserved (cover_at b) (λ j a. in_block a (2 ^ (j + 6)) b)
      (λ i x xs. unfold cover_list in refl) (cover-halves b)
      (λ i x xs h. cover-erase (2 ^ (i + 6)) x xs b h)

at_least_64 : (i : ℕ) → 64 ≤ 2 ^ (i + 6)
at_least_64 i = simp towards_suc (omega (arith, one-le-pow i 2))

-- Lists of free blocks within the heap are short enough for the walk.
pub length-lt-walk_fuel :
    (s : BuddyAllocator) (l : FreeLists) (i : ℕ)
    → i < order_count
    → free_bytes l ≤ s.heap_size
    → length (l i) < walk_fuel s
length-lt-walk_fuel s l i p small =
    let sized : 64 * length (l i) ≤ 2 ^ (i + 6) * length (l i) = grind (arith, at_least_64 i) in
    omega (arith, part-le-weigh bytes_at l order_count i p)
