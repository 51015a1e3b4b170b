-- ===== src/Acpi/Checksum.antt =====
-- `checksum_valid` of src/acpi.rs against the sum of the bytes.
use sill_os.Base.{ℕ, zero, suc, ◌+◌, ◌%◌, ◌≡◌, ◌∙◌, ap, arith, ◌==◌}
use sill_os.Acpi.{Memory, checksum_loop, checksum_valid}

-- The sum of `n` bytes, as a number without bound.
unfoldable pub byte_sum : Memory → ℕ → ℕ → ℕ
byte_sum memory a zero = 0
byte_sum memory a (suc n) = memory a + byte_sum memory (a + 1) n

checksum_loop-byte_sum :
    (memory : Memory) (a n sum : ℕ)
    → checksum_loop memory a n (sum % 256) ≡ (sum + byte_sum memory a n) % 256
unfolding checksum_loop byte_sum
checksum_loop-byte_sum memory a zero sum = omega arith
checksum_loop-byte_sum memory a (suc n) sum =
    let wrapped : (sum % 256 + memory a) % 256 ≡ (sum + memory a) % 256 = omega arith in
    let added : sum + memory a + byte_sum memory (a + 1) n
        ≡ sum + (memory a + byte_sum memory (a + 1) n) =
      omega arith in
    ap (checksum_loop memory (a + 1) n) wrapped
    ∙ checksum_loop-byte_sum memory (a + 1) n (sum + memory a)
    ∙ ap (λ (t : ℕ). t % 256) added

-- Later.
pub checksum_valid-byte_sum :
    (memory : Memory) (a n : ℕ) → checksum_valid memory a n ≡ (byte_sum memory a n % 256 == 0)
unfolding checksum_valid
checksum_valid-byte_sum memory a n =
    ap (λ (t : ℕ). t == 0)
      (checksum_loop-byte_sum memory a n 0 ∙ ap (λ (t : ℕ). t % 256) (omega arith))
