-- ===== src/ListAllocator/Tests.antt =====
-- The linked-list allocator on a heap of 4096 bytes.
use sill_os.Base.{ℕ, ◌≡◌, refl, true, false, [], ◌∷◌, arith}
use sill_os.ListAllocator.{
  ListAllocator, done, panic, new, init, is_power_of_two, adjust_layout, alloc, dealloc,
}
use sill_os.ListAllocator.Served.{AllFree}
use sill_os.ListAllocator.Bytes.{covers}
use sill_os.ListAllocator.Alloc.{request}
use sill_os.ListAllocator.Session.{Heap, Step, Reach, Kept, started, session-Kept}
use sill_os.ListAllocator.Restore.{alloc-dealloc, given_back}

powers : is_power_of_two 4096 ≡ true
unfolding is_power_of_two
powers = refl

no_power : is_power_of_two 48 ≡ false
unfolding is_power_of_two
no_power = refl

abbrev heap : ListAllocator
heap = started 0x1000 4096

abbrev after_alloc : ListAllocator
after_alloc = record { regions = record { start = 4120; size = 4072 } ∷ []; initialized = true }

alloc-first : alloc heap (request 24 3) ≡ done (after_alloc, 4096)
unfolding alloc adjust_layout
alloc-first = refl

alloc-page :
    alloc after_alloc (request 24 10)
    ≡ done
        (record { regions = record { start = 5144; size = 3048 } ∷ []; initialized = true }, 5120)
unfolding alloc adjust_layout
alloc-page = refl

alloc-full : alloc after_alloc (request 4064 3) ≡ done (after_alloc, 0)
unfolding alloc adjust_layout
alloc-full = refl

init-refuses : init new 4 4096 ≡ panic
unfolding init
init-refuses = refl

heap-AllFree : AllFree heap.regions
heap-AllFree = omega arith

abbrev one_live : Heap
one_live = record { allocator = after_alloc; live = record { start = 4096; size = 24 } ∷ [] }

session-Kept_example : (init new 0x1000 4096 ≡ done heap) × Kept 0x1000 4096 one_live
session-Kept_example = session-Kept 0x1000 4096 refl (omega arith) (omega arith) (
    Reach.next Reach.here (
      Step.serve (record { allocator = heap; live = [] }) 24 3 after_alloc 4096 (omega arith) refl
        (omega arith) alloc-first))

alloc-dealloc_example :
    (dealloc after_alloc 4096 (request 24 3) ≡ done (given_back heap 24 3 after_alloc 4096))
    × ((x : ℕ) → covers (given_back heap 24 3 after_alloc 4096).regions x ≡ covers heap.regions x)
alloc-dealloc_example =
    alloc-dealloc heap 24 3 after_alloc 4096 refl heap-AllFree (omega arith) (omega arith)
      alloc-first
