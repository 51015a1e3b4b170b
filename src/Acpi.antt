-- ===== src/Acpi.antt =====
-- The ACPI tables and the reset register, src/acpi.rs, over the bytes of the memory. The messages
-- on the serial port are left out.
pub mod Checksum
pub mod Tables
pub mod Found
pub mod Reset
pub mod Tests
use Prim.Native.Nat.{bit_and}
use sill_os.Base.{
  ℕ, zero, suc, ◌+◌, ◌-◌, ◌*◌, ◌/◌, ◌%◌, ◌^◌, Bool, true, false, Option, none, some, List, [], ◌∷◌,
  ◌++◌, ltb, leb, ◌==◌, if◌then◌else◌, same,
}

-- The bytes of the memory, by address.
abbrev pub Memory : Type 0
Memory = ℕ → ℕ

-- The fields of `RsdpV1` and `RsdpV2`, as `repr(C, packed)` places them.
abbrev pub rsdp_revision : ℕ
rsdp_revision = 15

abbrev pub rsdp_length : ℕ
rsdp_length = 20

abbrev pub rsdp_xsdt_address : ℕ
rsdp_xsdt_address = 24

-- `size_of::<SdtHeader>()`, and the place of its length.
abbrev pub sdt_header_size : ℕ
sdt_header_size = 36

abbrev pub sdt_length : ℕ
sdt_length = 4

abbrev pub reset_reg_offset : ℕ
reset_reg_offset = 0x70

abbrev pub reset_value_offset : ℕ
reset_value_offset = 0x7C

pub record ResetInfo : Type 0 where
  pub address_space : ℕ
  pub address : ℕ
  pub value : ℕ

-- `n` bytes from an address on.
unfoldable pub bytes_at : Memory → ℕ → ℕ → List ℕ
bytes_at memory address zero = []
bytes_at memory address (suc n) = memory address ∷ bytes_at memory (address + 1) n

-- A number of `n` bytes, the lowest one first.
unfoldable pub read_number : Memory → ℕ → ℕ → ℕ
read_number memory address zero = 0
read_number memory address (suc n) = memory address + 256 * read_number memory (address + 1) n

abbrev pub read_u32 : Memory → ℕ → ℕ
read_u32 memory address = read_number memory address 4

abbrev pub read_u64 : Memory → ℕ → ℕ
read_u64 memory address = read_number memory address 8

-- "RSD PTR ", "XSDT" and "FACP".
abbrev pub rsdp_signature : List ℕ
rsdp_signature = b'R' ∷ b'S' ∷ b'D' ∷ b' ' ∷ b'P' ∷ b'T' ∷ b'R' ∷ b' ' ∷ []

abbrev pub xsdt_signature : List ℕ
xsdt_signature = b'X' ∷ b'S' ∷ b'D' ∷ b'T' ∷ []

abbrev pub fadt_signature : List ℕ
fadt_signature = b'F' ∷ b'A' ∷ b'C' ∷ b'P' ∷ []

-- The loop of `checksum_valid`, from address `a` on: `wrapping_add` of bytes.
checksum_loop : Memory → ℕ → ℕ → ℕ → ℕ
checksum_loop memory a zero sum = sum
checksum_loop memory a (suc left) sum = checksum_loop memory (a + 1) left ((sum + memory a) % 2 ^ 8)

unfoldable pub checksum_valid : Memory → ℕ → ℕ → Bool
unfolding checksum_loop
checksum_valid memory address length = checksum_loop memory address length 0 == 0

-- The loop of `find_fadt` over the entries from `entry` on.
unfoldable pub find_loop : Memory → ℕ → ℕ → Option ℕ
find_loop memory entry zero = none
find_loop memory entry (suc left) =
    let rest = find_loop memory (entry + 8) left in
    let table_address = read_u64 memory entry in
    if table_address == 0
    then rest
    else if same (bytes_at memory table_address 4) fadt_signature
    then some table_address
    else rest

-- `RESET_INFO` after `parse_fadt`.
unfoldable pub parse_fadt : Memory → ℕ → Option ResetInfo → Option ResetInfo
unfolding checksum_valid
parse_fadt memory address reset_info =
    let length = read_u32 memory (address + sdt_length) in
    let reset_reg = address + reset_reg_offset in
    let reset_address = read_u64 memory (reset_reg + 4) in
    if checksum_valid memory address length
    then (if ltb length (reset_value_offset + 1)
        then reset_info
        else if reset_address == 0
        then reset_info
        else some (record {
          address_space = memory reset_reg;
          address = reset_address;
          value = memory (address + reset_value_offset);
        }))
    else reset_info

unfoldable pub find_fadt : Memory → ℕ → Option ResetInfo → Option ResetInfo
unfolding find_loop parse_fadt
find_fadt memory xsdt_address reset_info =
    let length = read_u32 memory (xsdt_address + sdt_length) in
    let entries = xsdt_address + sdt_header_size in
    if same (bytes_at memory xsdt_address 4) xsdt_signature
    then (if ltb length sdt_header_size
        then reset_info
        else elim (find_loop memory entries ((length - sdt_header_size) / 8)) [
          | none ↦ reset_info
          | some table_address ↦ parse_fadt memory table_address reset_info
        ])
    else reset_info

-- `response` is the address that the boot loader gives for the RSDP.
unfoldable pub init : Memory → Option ℕ → Option ResetInfo → Option ResetInfo
unfolding checksum_valid find_fadt
init memory none reset_info = reset_info
init memory (some rsdp) reset_info =
    if same (bytes_at memory rsdp 8) rsdp_signature
    then (if checksum_valid memory rsdp 20
        then (if leb 2 (memory (rsdp + rsdp_revision))
            then (if checksum_valid memory rsdp (read_u32 memory (rsdp + rsdp_length))
                then find_fadt memory (read_u64 memory (rsdp + rsdp_xsdt_address)) reset_info
                else reset_info)
            else reset_info)
        else reset_info)
    else reset_info

-- What the reset sequence does to the machine, in order.
pub data Action : Type 0 where
  disable_interrupts : Action
  read_port : ℕ → Action
  write_port : ℕ → ℕ → Action
  triple_fault : Action

-- The loop that waits for the keyboard controller, at most `rounds` times. `status` are the bytes
-- that the reads of port 0x64 give, from the first one on.
unfoldable pub wait_loop : (ℕ → ℕ) → ℕ → ℕ → List Action
wait_loop status i zero = []
wait_loop status i (suc rounds) =
    let rest = wait_loop status (i + 1) rounds in
    read_port 0x64 ∷ (if bit_and (status i) 0x02 == 0 then [] else rest)

abbrev pub polls : ℕ
polls = 100000

unfoldable pub fallback_reboot : (ℕ → ℕ) → List Action
unfolding wait_loop
fallback_reboot status = wait_loop status 0 polls ++ write_port 0x64 0xFE ∷ triple_fault ∷ []

-- What is tried before the fallback.
unfoldable pub reset_write : Option ResetInfo → List Action
reset_write none = []
reset_write (some reset) =
    if reset.address_space == 1
    then (if ltb (2 ^ 16 - 1) reset.address then [] else write_port reset.address reset.value ∷ [])
    else []

unfoldable pub reboot : (ℕ → ℕ) → Option ResetInfo → List Action
unfolding reset_write
reboot status reset_info = disable_interrupts ∷ (reset_write reset_info ++ fallback_reboot status)
