-- ===== src/ListAllocator/Bytes.antt =====
-- Which bytes the free regions and the blocks of src/kmem/heap.rs cover.
use sill_os.Base.{
  ℕ, ◌+◌, ◌-◌, ◌≤◌, ◌≡◌, List, [], ◌∷◌, ◌&&◌, ltb, leb, if◌then◌else◌, arith, inl, inr, ◌⊎◌,
}
use sill_os.ListAllocator.{ListNode, leftover}

-- 1 for a byte `x` among the `size` bytes from `start` on.
unfoldable pub inside : ℕ → ℕ → ℕ → ℕ
inside x start size = if leb start x && ltb x (start + size) then 1 else 0

-- How many of the regions the byte `x` lies in.
unfoldable pub covers : List ListNode → ℕ → ℕ
covers [] x = 0
covers (r ∷ rs) x = inside x r.start r.size + covers rs x

-- Bytes from one address on, cut in two.
pub inside_cut :
    (x start n m : ℕ) → inside x start (n + m) ≡ inside x start n + inside x (start + n) m
unfolding inside
inside_cut x start n m = ground arith

pub inside_none : (x start : ℕ) → inside x start 0 ≡ 0
unfolding inside
inside_none x start = ground arith

-- A block in a region cuts it in three.
pub inside-block :
    (x start size a n : ℕ)
    → start ≤ a
    → a + n ≤ start + size
    → inside x start size
      ≡ inside x start (a - start) + inside x a n + inside x (a + n) (start + size - (a + n))
unfolding inside
inside-block x start size a n h k = ground arith

-- A region is the bytes before the block, the block, and what is left.
pub covers-leftover :
    (next : List ListNode) (x end excess : ℕ)
    → (excess ≡ 0) ⊎ (16 ≤ excess)
    → covers (leftover end excess next) x ≡ inside x end excess + covers next x
unfolding leftover covers
covers-leftover next x end excess (inl e) = rw e (ground (arith, inside_none x end))
covers-leftover next x end excess (inr h) = ground arith
