-- ===== src/Buddy/Weigh.antt =====
-- Sums over the free lists of all orders: how often a byte is free, and how many bytes are free.
use sill_os.Base.{
  ℕ, zero, suc, ◌+◌, ◌*◌, ◌^◌, ◌≤◌, ◌<◌, ◌≡◌, ◌≢◌, refl, true, List, [], ◌∷◌, arith, update, ltb,
  leb, has, erase, length, if◌then◌else◌, ◌&&◌,
}
use sill_os.Buddy.{order_count}
use sill_os.Buddy.Chain.{Distinct}

-- The addresses of the free blocks of each index; the blocks of index `i` have `2 ^ (i + 6)` bytes.
abbrev pub FreeLists : Type 0
FreeLists = ℕ → List ℕ

-- 1 if byte `b` lies in the block of `size` bytes at `a`, else 0.
unfoldable pub in_block : ℕ → ℕ → ℕ → ℕ
in_block a size b = if leb a b && ltb b (a + size) then 1 else 0

unfoldable pub cover_list : ℕ → List ℕ → ℕ → ℕ
cover_list size [] b = 0
cover_list size (x ∷ xs) b = in_block x size b + cover_list size xs b

unfoldable pub weigh : ℕ → (ℕ → List ℕ → ℕ) → FreeLists → ℕ
weigh zero f l = 0
weigh (suc n) f l = weigh n f l + f n (l n)

abbrev pub cover_at : ℕ → ℕ → List ℕ → ℕ
cover_at b i xs = cover_list (2 ^ (i + 6)) xs b

abbrev pub bytes_at : ℕ → List ℕ → ℕ
bytes_at i xs = 2 ^ (i + 6) * length xs

-- In how many free blocks byte `b` lies.
abbrev pub cover : FreeLists → ℕ → ℕ
cover l b = weigh order_count (cover_at b) l

-- How many bytes the free blocks have together.
abbrev pub free_bytes : FreeLists → ℕ
free_bytes l = weigh order_count bytes_at l

module _ (f : ℕ → List ℕ → ℕ) (l : FreeLists) where
  weigh-update_above : (n i : ℕ) (xs : List ℕ) → n ≤ i → weigh n f (update l i xs) ≡ weigh n f l
  unfolding weigh
  weigh-update_above zero i xs h = refl
  weigh-update_above (suc n) i xs h = ground (arith, weigh-update_above n i xs)

  -- Only the summand of the updated list changes.
  pub weigh-update :
      (n i : ℕ) (xs : List ℕ) → i < n → weigh n f (update l i xs) + f i (l i) ≡ weigh n f l + f i xs
  unfolding weigh
  weigh-update zero i xs h = absurd (omega arith)
  weigh-update (suc n) i xs h = ground (arith, weigh-update n i xs, weigh-update_above n i xs)

  pub part-le-weigh : (n i : ℕ) → i < n → f i (l i) ≤ weigh n f l
  unfolding weigh
  part-le-weigh zero i h = absurd (omega arith)
  part-le-weigh (suc n) i h = ground (arith, part-le-weigh n i)

  pub parts-le-weigh : (n i j : ℕ) → i < n → j < n → i ≢ j → f i (l i) + f j (l j) ≤ weigh n f l
  unfolding weigh
  parts-le-weigh zero i j h k ne = absurd (omega arith)
  parts-le-weigh (suc n) i j h k ne =
      ground (arith, parts-le-weigh n i j, part-le-weigh n i, part-le-weigh n j)

module _ (size : ℕ) (pos : 0 < size) where
  pub has-cover : (a : ℕ) (xs : List ℕ) → has a xs ≡ true → 1 ≤ cover_list size xs a
  unfolding cover_list in_block
  has-cover a [] h = ground arith
  has-cover a (x ∷ xs) h = ground (arith, has-cover a xs)

  -- Blocks that share no byte have different addresses.
  pub cover-Distinct : (xs : List ℕ) → ((b : ℕ) → cover_list size xs b ≤ 1) → Distinct xs
  unfolding cover_list in_block
  cover-Distinct [] h = tt
  cover-Distinct (x ∷ xs) h =
      (ground (arith, h x, has-cover x xs), cover-Distinct xs (λ b. ground (arith, h b)))

pub cover-erase :
    (size a : ℕ) (xs : List ℕ) (b : ℕ)
    → has a xs ≡ true
    → cover_list size (erase a xs) b + in_block a size b ≡ cover_list size xs b
unfolding cover_list
cover-erase size a [] b h = ground arith
cover-erase size a (x ∷ xs) b h = ground (arith, cover-erase size a xs b)

pub length-erase : (a : ℕ) (xs : List ℕ) → has a xs ≡ true → length (erase a xs) + 1 ≡ length xs
length-erase a [] h = ground arith
length-erase a (x ∷ xs) h = ground (arith, length-erase a xs)

-- A block and the block behind it make one block of both sizes.
pub in_block-add : (a m n b : ℕ) → in_block a (m + n) b ≡ in_block a m b + in_block (a + m) n b
unfolding in_block
in_block-add a m n b = ground arith
