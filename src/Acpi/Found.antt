-- ===== src/Acpi/Found.antt =====
-- What `init` of src/acpi.rs finds in the memory, against a description of the tables.
use sill_os.Base.{
  ℕ, ◌+◌, ◌-◌, ◌/◌, ◌%◌, ◌≤◌, ◌≡◌, ◌≢◌, ◌∙◌, ◌↔◌, sym, ap, inl, inr, refl, Bool, true, false,
  Option, none, some, arith, ltb, leb, leb→le, ◌==◌, ==_iff, Bool-cases, same, same_eq, same_refl,
  if◌then◌else◌, if_true, if_false,
}
use sill_os.Acpi.{
  Memory, ResetInfo, bytes_at, read_u32, read_u64, find_loop, parse_fadt, find_fadt, init,
  checksum_valid, rsdp_revision, rsdp_length, rsdp_xsdt_address, sdt_length, sdt_header_size,
  reset_reg_offset, reset_value_offset, rsdp_signature, xsdt_signature,
}
use sill_os.Acpi.Checksum.{byte_sum, checksum_valid-byte_sum}
use sill_os.Acpi.Tables.{First, find_loop-First}

-- A test that guards a result.
module _ {ℓ} {A : Type ℓ} {a : A} where
  guarded : (b : Bool) (x : Option A) → (if b then x else none) ≡ some a → (b ≡ true) × (x ≡ some a)
  guarded b x e = elim (Bool-cases b) [
    | inl h ↦ (h, sym (if_true x none h) ∙ e)
    | inr h ↦ absurd (cc (if_false x none h))
  ]

  excluded :
      (b : Bool) (x : Option A) → (if b then none else x) ≡ some a → (b ≡ false) × (x ≡ some a)
  excluded b x e = elim (Bool-cases b) [
    | inl h ↦ absurd (cc (if_true none x h))
    | inr h ↦ (h, sym (if_false none x h) ∙ e)
  ]

module _ (memory : Memory) where
  abbrev pub SumsToZero : ℕ → ℕ → Type 0
  SumsToZero address n = byte_sum memory address n % 256 ≡ 0

  abbrev pub table_length : ℕ → ℕ
  table_length address = read_u32 memory (address + sdt_length)

  -- The address space and the address of the register, and the value that resets.
  abbrev pub reset_register : ℕ → ResetInfo
  reset_register fadt = record {
    address_space = memory (fadt + reset_reg_offset);
    address = read_u64 memory (fadt + reset_reg_offset + 4);
    value = memory (fadt + reset_value_offset);
  }

  -- The FADT is valid and long enough, and its reset register has an address.
  pub record Resets (fadt : ℕ) (info : ResetInfo) : Type 0 where
    pub checksum : SumsToZero fadt (table_length fadt)
    pub long : 125 ≤ table_length fadt
    pub used : read_u64 memory (fadt + reset_reg_offset + 4) ≢ 0
    pub register : info ≡ reset_register fadt

  -- The XSDT, and the FADT that is the first among its entries.
  pub record Lists (xsdt : ℕ) (info : ResetInfo) : Type 0 where
    pub signature : bytes_at memory xsdt 4 ≡ xsdt_signature
    pub long : 36 ≤ table_length xsdt
    pub fadt : ℕ
    pub first : First memory (xsdt + sdt_header_size) ((table_length xsdt - 36) / 8) fadt
    pub resets : Resets fadt info

  -- The RSDP of version 2 at `rsdp` leads to the reset register.
  pub record Describes (rsdp : ℕ) (info : ResetInfo) : Type 0 where
    pub signature : bytes_at memory rsdp 8 ≡ rsdp_signature
    pub checksum : SumsToZero rsdp 20
    pub revision : 2 ≤ memory (rsdp + rsdp_revision)
    pub extended : SumsToZero rsdp (read_u32 memory (rsdp + rsdp_length))
    pub lists : Lists (read_u64 memory (rsdp + rsdp_xsdt_address)) info

  checksum_valid→SumsToZero : (a n : ℕ) → checksum_valid memory a n ≡ true → SumsToZero a n
  checksum_valid→SumsToZero a n e = (==_iff _ 0).0 (sym (checksum_valid-byte_sum memory a n) ∙ e)

  SumsToZero→checksum_valid : (a n : ℕ) → SumsToZero a n → checksum_valid memory a n ≡ true
  SumsToZero→checksum_valid a n h = checksum_valid-byte_sum memory a n ∙ (==_iff _ 0).1 h

  parse_fadt→Resets :
      (fadt : ℕ) (info : ResetInfo) → parse_fadt memory fadt none ≡ some info → Resets fadt info
  unfolding parse_fadt
  parse_fadt→Resets fadt info e =
      let null = read_u64 memory (fadt + reset_reg_offset + 4) == 0 in
      let unused : Option ResetInfo = if null then none else some (reset_register fadt) in
      let short = ltb (table_length fadt) (reset_value_offset + 1) in
      let one =
        guarded (checksum_valid memory fadt (table_length fadt)) (if short then none else unused)
          e in
      let two = excluded short unused one.1 in
      let three = excluded null (some (reset_register fadt)) two.1 in
      record {
        checksum = checksum_valid→SumsToZero fadt (table_length fadt) one.0;
        long = ground (arith, two.0);
        used = λ p. ground (arith, three.0);
        register = cc (three.1);
      }

  Resets→parse_fadt :
      (fadt : ℕ) (info : ResetInfo) → Resets fadt info → parse_fadt memory fadt none ≡ some info
  unfolding parse_fadt
  Resets→parse_fadt fadt info t =
      let long : ltb (table_length fadt) (reset_value_offset + 1) ≡ false =
        ground (arith, t.long) in
      let used : (read_u64 memory (fadt + reset_reg_offset + 4) == 0) ≡ false =
        ground (arith, t.used) in
      if_true _ _ (SumsToZero→checksum_valid fadt (table_length fadt) t.checksum)
      ∙ if_false _ _ long
      ∙ if_false _ _ used
      ∙ ap some (sym t.register)

  abbrev parsed : Option ℕ → Option ResetInfo
  parsed found = elim found [ none ↦ none | some table ↦ parse_fadt memory table none ]

  parsed-some :
      (found : Option ℕ) (info : ResetInfo)
      → parsed found ≡ some info
      → (table : ℕ) × (found ≡ some table) × (parse_fadt memory table none ≡ some info)
  parsed-some none info e = absurd (cc)
  parsed-some (some table) info e = (table, refl, e)

  find_fadt→Lists :
      (xsdt : ℕ) (info : ResetInfo) → find_fadt memory xsdt none ≡ some info → Lists xsdt info
  unfolding find_fadt
  find_fadt→Lists xsdt info e =
      let found =
        find_loop memory (xsdt + sdt_header_size) ((table_length xsdt - sdt_header_size) / 8) in
      let short = ltb (table_length xsdt) sdt_header_size in
      let signed = same (bytes_at memory xsdt 4) xsdt_signature in
      let one = guarded signed (if short then none else (parsed found)) e in
      let two = excluded short (parsed found) one.1 in
      let (table, hit, parse) = parsed-some found info two.1 in
      record {
        signature = same_eq (bytes_at memory xsdt 4) xsdt_signature one.0;
        long = ground (arith, two.0);
        fadt = table;
        first = (find_loop-First memory _ _ table).0 hit;
        resets = parse_fadt→Resets table info parse;
      }

  Lists→find_fadt :
      (xsdt : ℕ) (info : ResetInfo) → Lists xsdt info → find_fadt memory xsdt none ≡ some info
  unfolding find_fadt
  Lists→find_fadt xsdt info t =
      let long : ltb (table_length xsdt) sdt_header_size ≡ false = ground (arith, t.long) in
      let signed : same (bytes_at memory xsdt 4) xsdt_signature ≡ true =
        rw t.signature (same_refl xsdt_signature) in
      if_true _ _ signed
      ∙ if_false _ _ long
      ∙ ap parsed ((find_loop-First memory _ _ t.fadt).1 t.first)
      ∙ Resets→parse_fadt t.fadt info t.resets

  init→Describes :
      (rsdp : ℕ) (info : ResetInfo) → init memory (some rsdp) none ≡ some info → Describes rsdp info
  unfolding init
  init→Describes rsdp info e =
      let found = find_fadt memory (read_u64 memory (rsdp + rsdp_xsdt_address)) none in
      let extended = checksum_valid memory rsdp (read_u32 memory (rsdp + rsdp_length)) in
      let revision = leb 2 (memory (rsdp + rsdp_revision)) in
      let last : Option ResetInfo = if extended then found else none in
      let third : Option ResetInfo = if revision then last else none in
      let second : Option ResetInfo = if checksum_valid memory rsdp 20 then third else none in
      let one = guarded (same (bytes_at memory rsdp 8) rsdp_signature) second e in
      let two = guarded (checksum_valid memory rsdp 20) third one.1 in
      let three = guarded revision last two.1 in
      let four = guarded extended found three.1 in
      record {
        signature = same_eq (bytes_at memory rsdp 8) rsdp_signature one.0;
        checksum = checksum_valid→SumsToZero rsdp 20 two.0;
        revision = leb→le _ _ three.0;
        extended = checksum_valid→SumsToZero rsdp _ four.0;
        lists = find_fadt→Lists _ info four.1;
      }

  Describes→init :
      (rsdp : ℕ) (info : ResetInfo) → Describes rsdp info → init memory (some rsdp) none ≡ some info
  unfolding init
  Describes→init rsdp info t =
      let revised : leb 2 (memory (rsdp + rsdp_revision)) ≡ true = ground (arith, t.revision) in
      let signed : same (bytes_at memory rsdp 8) rsdp_signature ≡ true =
        rw t.signature (same_refl rsdp_signature) in
      if_true _ _ signed
      ∙ if_true _ _ (SumsToZero→checksum_valid rsdp 20 t.checksum)
      ∙ if_true _ _ revised
      ∙ if_true _ _ (SumsToZero→checksum_valid rsdp _ t.extended)
      ∙ Lists→find_fadt _ info t.lists

  -- For any memory and address of the RSDP: init finds a reset register exactly when the memory
  -- describes it. That is, the signature, the checksum of 20 bytes, a revision of at least 2 and
  -- the extended checksum are right, the XSDT has its signature and a length of at least 36, the
  -- first of its entries with the signature FACP has a checksum and at least 125 bytes, the
  -- register's address is not 0, and what is found are the register's fields. Checksums are sums of
  -- bytes that 256 divides.
  pub init-Describes :
      (rsdp : ℕ) (info : ResetInfo)
      → (init memory (some rsdp) none ≡ some info) ↔ Describes rsdp info
  init-Describes rsdp info = (init→Describes rsdp info, Describes→init rsdp info)
