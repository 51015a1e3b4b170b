-- ===== src/Acpi/Tests.antt =====
-- A reset register at port 0xCF9: an RSDP at 256, an XSDT at 1024 and an FADT at 2048.
use sill_os.Base.{ℕ, ◌%◌, ◌≡◌, ◌↔◌, refl, none, some, List, [], ◌∷◌, ◌==◌, if◌then◌else◌}
use sill_os.Acpi.{
  Memory, ResetInfo, init, find_loop, checksum_valid, reboot, fallback_reboot, disable_interrupts,
  read_port, write_port, triple_fault, bytes_at, read_number,
}
use sill_os.Acpi.Checksum.{byte_sum, checksum_valid-byte_sum}
use sill_os.Acpi.Tables.{First, find_loop-First}
use sill_os.Acpi.Found.{Describes, init-Describes}
use sill_os.Acpi.Reset.{Resets, reboot-Resets}

abbrev holding : List (ℕ × ℕ) → Memory
holding [] address = 0
holding ((a, byte) ∷ rest) address = if a == address then byte else holding rest address

abbrev tables : List (ℕ × ℕ)
tables =
    (256, 82)
    ∷ (257, 83)
    ∷ (258, 68)
    ∷ (259, 32)
    ∷ (260, 80)
    ∷ (261, 84)
    ∷ (262, 82)
    ∷ (263, 32)
    ∷ (264, 223)
    ∷ (271, 2)
    ∷ (276, 36)
    ∷ (281, 4)
    ∷ (288, 216)
    ∷ (1024, 88)
    ∷ (1025, 83)
    ∷ (1026, 68)
    ∷ (1027, 84)
    ∷ (1028, 52)
    ∷ (1069, 8)
    ∷ (2048, 70)
    ∷ (2049, 65)
    ∷ (2050, 67)
    ∷ (2051, 80)
    ∷ (2052, 125)
    ∷ (2057, 93)
    ∷ (2160, 1)
    ∷ (2164, 249)
    ∷ (2165, 12)
    ∷ (2172, 6)
    ∷ []

abbrev memory : Memory
memory = holding tables

abbrev info : ResetInfo
info = record { address_space = 1; address = 0xCF9; value = 6 }

init-memory : init memory (some 256) none ≡ some info
unfolding init bytes_at read_number
init-memory = refl

init-none : init memory none none ≡ none
unfolding init
init-none = refl

init-elsewhere : init memory (some 257) none ≡ none
unfolding init bytes_at read_number
init-elsewhere = refl

reboot-port :
    reboot (λ i. if i == 2 then 0 else 2) (some info)
    ≡ disable_interrupts
      ∷ write_port 0xCF9 6
      ∷ read_port 0x64
      ∷ read_port 0x64
      ∷ read_port 0x64
      ∷ write_port 0x64 0xFE
      ∷ triple_fault
      ∷ []
unfolding reboot fallback_reboot
reboot-port = refl

checksum_valid-byte_sum_example : checksum_valid memory 256 20 ≡ (byte_sum memory 256 20 % 256 == 0)
checksum_valid-byte_sum_example = checksum_valid-byte_sum memory 256 20

find_loop-First_example : (find_loop memory 1060 2 ≡ some 2048) ↔ First memory 1060 2 2048
find_loop-First_example = find_loop-First memory 1060 2 2048

init-Describes_example : (init memory (some 256) none ≡ some info) ↔ Describes memory 256 info
init-Describes_example = init-Describes memory 256 info

reboot-Resets_example : Resets (λ _. 2) (some info) (reboot (λ _. 2) (some info))
reboot-Resets_example = reboot-Resets (λ _. 2) (some info)
