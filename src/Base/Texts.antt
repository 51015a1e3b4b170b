-- ===== src/Base/Texts.antt =====
-- Texts as lists of their bytes: equality.
use Prim.Native.Char.{code}
use Prim.Native.Nat.{ℕ}
use Prim.Native.String.{String}
use mathlib.Core.Path.{◌≡◌, refl}
use mathlib.Core.Bool.{Bool, true, false, ◌&&◌}
use mathlib.Core.List.{List, [], ◌∷◌}
use native.Mathlib.Omega.{arith}
use sill_os.Base.Tests.{◌==◌, ==_iff, ==_refl}

abbrev pub Text : Type 0
Text = List ℕ

-- The bytes of a literal in ASCII.
abbrev pub text : String → Text
text String.[] = []
text (String.◌∷◌ c s) = code c ∷ text s

-- The equality of texts, byte by byte.
abbrev pub same : List ℕ → List ℕ → Bool
same [] [] = true
same [] (y ∷ ys) = false
same (x ∷ xs) [] = false
same (x ∷ xs) (y ∷ ys) = x == y && same xs ys

pub same_refl : (s : List ℕ) → same s s ≡ true
same_refl [] = refl
same_refl (byte ∷ s) = rw (==_refl byte) (same_refl s)

pub and-eq-true : (a b : Bool) → (a && b) ≡ true → (a ≡ true) × (b ≡ true)
and-eq-true a b e = (ground arith, ground arith)

pub same_eq : (s t : List ℕ) → same s t ≡ true → s ≡ t
same_eq [] [] e = refl
same_eq [] (y ∷ ys) e = absurd (cc)
same_eq (x ∷ xs) [] e = absurd (cc)
same_eq (x ∷ xs) (y ∷ ys) e =
    let (first, rest) = and-eq-true (x == y) (same xs ys) e in
    rw ((==_iff x y).0 first, same_eq xs ys rest)
