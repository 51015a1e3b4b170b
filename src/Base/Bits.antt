-- ===== src/Base/Bits.antt =====
-- The bit operations of the kernel at variables: a single toggled bit, and masks of high bits.
use Prim.Native.Nat.{
  ℕ, zero, suc, ◌+◌, ◌-◌, ◌*◌, ◌/◌, ◌%◌, ◌^◌, ◌≤◌, ◌<◌, bit_and, bit_xor, min, digits, differ,
  bit_and-bitwise, bit_xor-bitwise,
}
use mathlib.Core.Path.{◌≡◌, refl, sym, ◌∙◌}
use mathlib.Core.Logic.{◌≢◌}
use native.Mathlib.Omega.{arith}
use native.Mathlib.Nat.{
  pow-succ', one-le-pow, div-div-eq-div-mul, div-mul-le_self, mod-eq-sub-div-mul,
}
use sill_os.Base.Tests.{◌==◌, if◌then◌else◌}

-- Any fuel from the number upwards gives the same digits.
module _ (rest : ℕ → ℕ) (digit : ℕ → ℕ → ℕ) where
  abbrev run : ℕ → ℕ → ℕ → ℕ
  run = digits rest digit

  enough : (m n a b : ℕ) → a ≤ m → a ≤ n → run m a b ≡ run n a b
  enough m n zero b p q = ends m ∙ sym (ends n)
    where
      ends : (k : ℕ) → run k 0 b ≡ rest b
      ends zero = refl
      ends (suc k) = refl
  enough zero n (suc a) b p q = absurd (omega arith)
  enough (suc m) zero (suc a) b p q = absurd (omega arith)
  enough (suc m) (suc n) (suc a) b p q =
      rw (enough m n (suc a / 2) (b / 2) (omega arith) (omega arith))

bit_and_halves : (x y : ℕ) → bit_and x y ≡ min (x % 2) (y % 2) + 2 * bit_and (x / 2) (y / 2)
bit_and_halves zero y = simp bit_and-bitwise (omega arith)
bit_and_halves (suc x) y =
    let same = enough (λ y. 0) min x (suc x / 2) (suc x / 2) (y / 2) (omega arith) (omega arith) in
    simp bit_and-bitwise (omega (arith, same))

differ_lem : (x y : ℕ) → x < 2 → y < 2 → differ x y ≡ (x + y) % 2
differ_lem zero zero p q = refl
differ_lem zero (suc zero) p q = refl
differ_lem (suc zero) zero p q = refl
differ_lem (suc zero) (suc zero) p q = refl
differ_lem (suc (suc x)) y p q = absurd (omega arith)
differ_lem zero (suc (suc y)) p q = absurd (omega arith)
differ_lem (suc zero) (suc (suc y)) p q = absurd (omega arith)

bit_xor_step : (a b : ℕ) → bit_xor a b ≡ bit_xor (a / 2) (b / 2) * 2 + (a + b) % 2
bit_xor_step zero b = simp bit_xor-bitwise (omega arith)
bit_xor_step (suc a) b = simp bit_xor-bitwise (
    omega (
      arith,
      enough (λ y. y) differ a (suc a / 2) (suc a / 2) (b / 2) (omega arith) (omega arith),
      differ_lem (suc a % 2) (b % 2) (omega arith) (omega arith),
    ))

bit_xor-zero : (n a : ℕ) → a ≤ n → bit_xor a 0 ≡ a
bit_xor-zero n zero h = refl
bit_xor-zero zero (suc a) h = absurd (omega arith)
bit_xor-zero (suc n) (suc a) h =
    omega (arith, bit_xor_step (suc a) 0, bit_xor-zero n (suc a / 2) (omega arith))

-- A number with bit `o` set is at least `2 ^ o`.
pub pow_le_of_bit : (a p : ℕ) → a / p % 2 ≢ 0 → p ≤ a
pow_le_of_bit a p h =
    let one : 1 ≤ a / p = omega arith in
    let scaled : 1 * p ≤ a / p * p = grind arith in omega (arith, div-mul-le_self a p)

-- Toggling bit `o`: add it if it is clear, take it away if it is set.
pub bit_xor-pow :
    (o a : ℕ) → bit_xor a (2 ^ o) ≡ (if a / 2 ^ o % 2 == 0 then a + 2 ^ o else a - 2 ^ o)
bit_xor-pow zero a = ground (arith, bit_xor_step a 1, bit_xor-zero (a / 2) (a / 2) (omega arith))
bit_xor-pow (suc o) a =
    rw (pow-succ' 2 o, ← div-div-eq-div-mul a 2 (2 ^ o))
      (ground
        (arith, bit_xor_step a (2 * 2 ^ o), bit_xor-pow o (a / 2), pow_le_of_bit (a / 2) (2 ^ o)))

bit_and-zero : (n a : ℕ) → a ≤ n → bit_and a 0 ≡ 0
bit_and-zero n zero h = refl
bit_and-zero zero (suc a) h = absurd (omega arith)
bit_and-zero (suc n) (suc a) h =
    omega (arith, bit_and_halves (suc a) 0, bit_and-zero n (suc a / 2) (omega arith))

bit_and_even : (a n m : ℕ) → m ≡ 2 * n → bit_and a m ≡ bit_and (a / 2) n * 2
bit_and_even a n m e = rw e (ground (arith, bit_and_halves a (2 * n)))

bit_and_odd : (a n m : ℕ) → m ≡ 2 * n + 1 → bit_and a m ≡ bit_and (a / 2) n * 2 + a % 2
bit_and_odd a n m e = rw e (ground (arith, bit_and_halves a (2 * n + 1)))

-- The remainder by twice `p`, from that of the half.
pub mod_double : (a p : ℕ) → a % (2 * p) ≡ a / 2 % p * 2 + a % 2
mod_double a p =
    rw (mod-eq-sub-div-mul a (2 * p), mod-eq-sub-div-mul (a / 2) p, ← div-div-eq-div-mul a 2 p)
      (omega (arith, div-mul-le_self (a / 2) p))

mod_double_pow : (a k : ℕ) → a % 2 ^ suc k ≡ a / 2 % 2 ^ k * 2 + a % 2
mod_double_pow a k = rw (pow-succ' 2 k) (mod_double a (2 ^ k))

-- A mask with the low `k` of `w` bits clear rounds down to a multiple of `2 ^ k`.
pub bit_and-high_mask : (k w a : ℕ) → k ≤ w → a < 2 ^ w → bit_and a (2 ^ w - 2 ^ k) ≡ a - a % 2 ^ k
bit_and-high_mask zero zero a h f = ground (arith, bit_and-zero a a (omega arith))
bit_and-high_mask zero (suc w) a h f = omega (
  arith,
  bit_and_odd a (2 ^ w - 2 ^ 0) (2 ^ suc w - 2 ^ 0) (omega (arith, pow-succ' 2 w, one-le-pow w 2)),
  bit_and-high_mask zero w (a / 2) (omega arith) (omega (arith, pow-succ' 2 w)),
)
bit_and-high_mask (suc k) zero a h f = absurd (omega arith)
bit_and-high_mask (suc k) (suc w) a h f = omega (
  arith,
  bit_and_even a (2 ^ w - 2 ^ k) (2 ^ suc w - 2 ^ suc k)
      (omega (arith, pow-succ' 2 w, pow-succ' 2 k)),
  bit_and-high_mask k w (a / 2) (omega arith) (omega (arith, pow-succ' 2 w)),
  mod_double_pow a k,
)
