-- ===== src/ListAllocator/Misaligned.antt =====
-- Where `alloc` of src/kmem/heap.rs puts the node of an excess that is not aligned.
use sill_os.Base.{ℕ, ◌^◌, ◌≤◌, ◌<◌, max, ◌≡◌, true, List, ◌∷◌}
use sill_os.ListAllocator.{ListNode, ListAllocator}
use sill_os.ListAllocator.Fits.{IsFree, round_up}
use sill_os.ListAllocator.Alloc.{IsLayout}

module _ (s : ListAllocator) (r : ListNode) (next : List ListNode) (size k : ℕ)
    (on : s.initialized ≡ true) (split : s.regions ≡ r ∷ next) (free : IsFree r) (hk : k < 64)
    (large : 16 ≤ size) (fine : IsLayout size k) where
  abbrev block : ℕ
  block = round_up r.start (2 ^ max k 3)
