-- ===== src/Buddy/Align.antt =====
-- Alignment of the blocks of src/kmem/heap/buddy.rs. Buddies are computed from the start of the
-- heap, so a block is as aligned as its size and the start allow.
use native.Mathlib.Nat.{
  pow-succ', dvd_refl, dvd_trans, dvd-add, dvd-sub, dvd-mul_right, dvd-mul_left, mul-div_cancel',
  one-le-pow, div-eq-sub-div,
}
use Prim.Native.Nat.{◌∣◌}
use sill_os.Base.{
  leb, ℕ, zero, suc, ◌+◌, ◌-◌, ◌*◌, ◌/◌, ◌%◌, ◌^◌, ◌≤◌, ◌<◌, ◌≡◌, ◌≢◌, sym, subst, ap, true, Option,
  none, some, List, [], ◌∷◌, arith, update, has, erase, ◌==◌, Bool-cases, List-cases, inl, inr,
  ==_iff, min,
}
use sill_os.Base.Bits.{bit_xor-pow, pow_le_of_bit}
use sill_os.Buddy.{order_count}
use sill_os.Buddy.Weigh.{FreeLists}
use sill_os.Buddy.Lists.{push_list, split_lists, take_block, give_block, buddy}
use sill_os.Buddy.Take.{take_block-nil, take_block-cons}
use sill_os.Buddy.Join.{give_block-hit, give_block-miss, without, buddy_adjacent}

pow-dvd-add : (m d : ℕ) → 2 ^ m ∣ 2 ^ (m + d)
pow-dvd-add m zero = let e : m + 0 ≡ m = omega arith in rw e (dvd_refl (2 ^ m))
pow-dvd-add m (suc d) =
    let e : m + suc d ≡ suc (m + d) = omega arith in
    rw (e, pow-succ' 2 (m + d)) (dvd_trans (2 ^ m) (pow-dvd-add m d) (dvd-mul_left (2 ^ (m + d)) 2))

pub pow-dvd-pow : (m n : ℕ) → m ≤ n → 2 ^ m ∣ 2 ^ n
pow-dvd-pow m n h =
    let e : m + (n - m) ≡ n = omega arith in subst (λ k. 2 ^ m ∣ 2 ^ k) e (pow-dvd-add m (n - m))

-- The alignment of the blocks of index `i` over a start that `2 ^ k` divides.
abbrev pub alignment : ℕ → ℕ → ℕ
alignment k i = 2 ^ min (i + 6) k

abbrev pub AllAligned : ℕ → FreeLists → Type 0
AllAligned k l = (i x : ℕ) → i < order_count → has x (l i) ≡ true → alignment k i ∣ x

module _ (k : ℕ) where
  aligned-halves :
      (i a : ℕ) → alignment k (i + 1) ∣ a → (alignment k i ∣ a) × (alignment k i ∣ a + 2 ^ (i + 6))
  aligned-halves i a h =
      let low =
        dvd_trans (alignment k i) (pow-dvd-pow (min (i + 6) k) (min (i + 1 + 6) k) (omega arith))
          h in
      (low, dvd-add (alignment k i) low (pow-dvd-pow (min (i + 6) k) (i + 6) (omega arith)))

  pub AllAligned-push :
      (l : FreeLists) (i a : ℕ)
      → alignment k i ∣ a
      → AllAligned k l
      → AllAligned k (push_list l i a)
  unfolding push_list
  AllAligned-push l i a h all j x p m = elim (Bool-cases (i == j)) [
    | inl here ↦ elim (Bool-cases (a == x)) [
      | inl new ↦
          subst (λ y. alignment k j ∣ y) ((==_iff a x).0 new)
            (subst (λ n. alignment k n ∣ a) ((==_iff i j).0 here) h)
      | inr old ↦ all j x p (ground arith)
    ]
    | inr there ↦ all j x p (ground arith)
  ]

  -- Lists that hold no new block keep their alignment.
  AllAligned-shrink :
      (l : FreeLists) (i : ℕ) (xs : List ℕ)
      → ((x : ℕ) → has x xs ≡ true → has x (l i) ≡ true)
      → AllAligned k l
      → AllAligned k (update l i xs)
  AllAligned-shrink l i xs sub all j x p m = elim (Bool-cases (i == j)) [
    | inl here ↦
        all j x p (subst (λ n. has x (l n) ≡ true) ((==_iff i j).0 here) (sub x (rw here at m)))
    | inr there ↦ all j x p (ground arith)
  ]

  abbrev pub Aligned : ℕ → Option (ℕ × FreeLists) → Type 0
  Aligned i none = Unit {0}
  Aligned i (some (a, l')) = (alignment k i ∣ a) × AllAligned k l'

  split_lists-Aligned :
      (t : Option (ℕ × FreeLists)) (i : ℕ) → Aligned (i + 1) t → Aligned i (split_lists t i)
  unfolding split_lists
  split_lists-Aligned none i h = tt
  split_lists-Aligned (some (a, l')) i h =
      let two = aligned-halves i a h.0 in (two.0, AllAligned-push l' i (a + 2 ^ (i + 6)) two.1 h.1)

  pub take_block-Aligned :
      (n : ℕ) (l : FreeLists) (i : ℕ)
      → i + n ≤ order_count
      → AllAligned k l
      → Aligned i (take_block n l i)
  take_block-Aligned zero l i p all = unfold take_block in tt
  take_block-Aligned (suc n) l i p all = elim (List-cases (l i)) [
    | inl e ↦ rw (take_block-nil n l i e) (
        split_lists-Aligned (take_block n l (i + 1)) i
          (take_block-Aligned n l (i + 1) (omega arith) all))
    | inr (x, xs, e) ↦ rw (take_block-cons n l i x xs e) (
      all i x (omega arith) (rw e (ground arith)),
      AllAligned-shrink l i xs (λ y m. rw e (ground arith)) all,
    )
  ]

has-erase : (x y : ℕ) (xs : List ℕ) → has x (erase y xs) ≡ true → has x xs ≡ true
has-erase x y [] h = h
has-erase x y (z ∷ xs) h = ground (arith, has-erase x y xs)

-- An even multiple of `p` is a multiple of `2 * p`.
double_dvd : (p t : ℕ) → p ∣ t → t / p % 2 ≡ 0 → 2 * p ∣ t
double_dvd p t d even =
    let whole : p * (t / p) ≡ t = mul-div_cancel' p d in
    let halved : t / p ≡ 2 * (t / p / 2) = omega arith in
    let e : 2 * p * (t / p / 2) ≡ t = omega (arith, ap (λ (q : ℕ). p * q) halved) in
    subst (λ u. 2 * p ∣ u) e (dvd-mul_right (2 * p) (t / p / 2))

-- The lower of two buddies of `p` bytes lies at an even multiple of `p` from the start.
lower_even : (p t : ℕ) → 0 < p → p ∣ t → t / p % 2 ≢ 0 → (p ∣ t - p) × ((t - p) / p % 2 ≡ 0)
lower_even p t pos d odd =
    (dvd-sub p d (dvd_refl p), omega (arith, div-eq-sub-div pos (pow_le_of_bit t p odd)))

-- With buddies of `p` bytes, the lower one is as aligned as a block of twice the size.
lower_aligned :
    (start a i : ℕ)
    → 2 * 2 ^ (i + 6) ∣ start
    → start ≤ a
    → 2 ^ (i + 6) ∣ a - start
    → 2 * 2 ^ (i + 6) ∣ min a (buddy start a i)
lower_aligned start a i base le d = elim (Bool-cases ((a - start) / 2 ^ (i + 6) % 2 == 0)) [
  | inl clear ↦
      let lower : start + (a - start) ≡ min a (buddy start a i) =
        ground (arith, bit_xor-pow (i + 6) (a - start)) in
      subst (λ u. 2 * 2 ^ (i + 6) ∣ u) lower
        (dvd-add (2 * 2 ^ (i + 6)) base
          (double_dvd (2 ^ (i + 6)) (a - start) d ((==_iff _ 0).0 clear)))
  | inr set ↦
      let odd : (a - start) / 2 ^ (i + 6) % 2 ≢ 0 = ground arith in
      let even = lower_even (2 ^ (i + 6)) (a - start) (one-le-pow (i + 6) 2 (omega arith)) d odd in
      let lower : start + (a - start - 2 ^ (i + 6)) ≡ min a (buddy start a i) =
        ground (arith, bit_xor-pow (i + 6) (a - start), pow_le_of_bit (a - start) (2 ^ (i + 6))) in
      subst (λ u. 2 * 2 ^ (i + 6) ∣ u) lower
        (dvd-add (2 * 2 ^ (i + 6)) base
          (double_dvd (2 ^ (i + 6)) (a - start - 2 ^ (i + 6)) even.0 even.1))
]

module _ (k start : ℕ) (base : 2 ^ k ∣ start) where
  aligned-joined :
      (a i : ℕ)
      → start ≤ a
      → alignment k i ∣ a
      → alignment k i ∣ buddy start a i
      → alignment k (i + 1) ∣ min a (buddy start a i)
  aligned-joined a i le d e = elim (Bool-cases (leb k (i + 6))) [
    | inl coarse ↦
        let same : min (i + 6) k ≡ min (i + 1 + 6) k = ground arith in
        subst (λ m. 2 ^ m ∣ min a (buddy start a i)) same
          (elim (buddy_adjacent start a i le) [
            | inl behind ↦
                let lower : a ≡ min a (buddy start a i) = omega arith in
                subst (λ u. alignment k i ∣ u) lower d
            | inr before ↦
                let lower : buddy start a i ≡ min a (buddy start a i) = omega arith in
                subst (λ u. alignment k i ∣ u) lower e
          ])
    | inr fine ↦
        let size : i + 6 ≡ min (i + 6) k = ground arith in
        let twice : suc (i + 6) ≡ min (i + 1 + 6) k = ground arith in
        let own : 2 ^ (i + 6) ∣ a = subst (λ m. 2 ^ m ∣ a) (sym size) d in
        let base' : 2 * 2 ^ (i + 6) ∣ start =
          rw (pow-succ' 2 (i + 6)) at
            (dvd_trans (2 ^ suc (i + 6)) (pow-dvd-pow (suc (i + 6)) k (ground arith)) base) in
        let base'' : 2 ^ (i + 6) ∣ start =
          dvd_trans (2 ^ (i + 6)) (dvd-mul_left (2 ^ (i + 6)) 2) base' in
        subst (λ m. 2 ^ m ∣ min a (buddy start a i)) twice
          (rw (pow-succ' 2 (i + 6))
            (lower_aligned start a i base' le (dvd-sub (2 ^ (i + 6)) own base'')))
  ]

  pub give_block-AllAligned :
      (n : ℕ) (l : FreeLists) (a i : ℕ)
      → i + n < order_count
      → start ≤ a
      → alignment k i ∣ a
      → AllAligned k l
      → AllAligned k (give_block n start l a i)
  give_block-AllAligned zero l a i p le d all = unfold give_block in AllAligned-push k l i a d all
  give_block-AllAligned (suc n) l a i p le d all = elim (Bool-cases (has (buddy start a i) (l i))) [
    | inl free ↦ rw (give_block-hit n start l a i free) (
        give_block-AllAligned n (without start l a i) (min a (buddy start a i)) (i + 1)
          (omega arith) (omega (arith, buddy_adjacent start a i le))
          (aligned-joined a i le d (all i (buddy start a i) (omega arith) free))
          (AllAligned-shrink k l i (erase (buddy start a i) (l i))
            (λ x m. has-erase x (buddy start a i) (l i) m) all))
    | inr used ↦ rw (give_block-miss n start l a i used) (AllAligned-push k l i a d all)
  ]
