-- ===== src/Buddy/Chain.antt =====
-- Singly linked lists in memory, as src/kmem/heap/buddy.rs threads them through free blocks.
use sill_os.Base.{ℕ, ◌≡◌, ◌≢◌, true, false, List, [], ◌∷◌, arith, update, has}

-- From `p` the next pointers lead through `xs` to null.
abbrev pub Chain : (ℕ → ℕ) → ℕ → List ℕ → Type 0
Chain memory p [] = p ≡ 0
Chain memory p (x ∷ xs) = (p ≡ x) × (x ≢ 0) × Chain memory (memory x) xs

abbrev pub Distinct : List ℕ → Type 0
Distinct [] = Unit {0}
Distinct (x ∷ xs) = (has x xs ≡ false) × Distinct xs

-- A chain survives every change of memory that spares its nodes.
pub Chain-frame :
    (memory memory' : ℕ → ℕ) (p : ℕ) (xs : List ℕ)
    → ((x : ℕ) → has x xs ≡ true → memory' x ≡ memory x)
    → Chain memory p xs
    → Chain memory' p xs
Chain-frame memory memory' p [] same c = c
Chain-frame memory memory' p (x ∷ xs) same c = (
  c.0,
  c.1,
  (rw (same x (ground arith))
      (Chain-frame memory memory' (memory x) xs (λ y h. same y (ground arith)) c.2)),
)

pub Chain-update :
    (memory : ℕ → ℕ) (a v p : ℕ) (xs : List ℕ)
    → has a xs ≡ false
    → Chain memory p xs
    → Chain (update memory a v) p xs
Chain-update memory a v p xs out c =
    Chain-frame memory (update memory a v) p xs (λ x h. ground arith) c
