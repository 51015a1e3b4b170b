-- ===== src/Acpi/Tables.antt =====
-- The walk of `find_fadt` in src/acpi.rs over the entries of the XSDT.
use sill_os.Base.{
  ℕ, zero, suc, ◌+◌, ◌*◌, ◌<◌, ◌≡◌, ◌≢◌, ◌∙◌, ◌⊎◌, ◌↔◌, sym, ap, subst, inl, inr, some, arith, ◌==◌,
  ==_iff, Bool-cases, same, same_eq, same_refl, if_true, if_false,
}
use sill_os.Acpi.{Memory, bytes_at, read_u64, find_loop, fadt_signature}

module _ (memory : Memory) where
  -- The entry of index `i`, of those that begin at `entries`.
  abbrev pub entry_at : ℕ → ℕ → ℕ
  entry_at entries i = read_u64 memory (entries + 8 * i)

  abbrev pub IsFadt : ℕ → Type 0
  IsFadt table = (table ≢ 0) × (bytes_at memory table 4 ≡ fadt_signature)

  -- `table` is the first of `n` entries that is the address of an FADT.
  pub record First (entries n table : ℕ) : Type 0 where
    pub index : ℕ
    pub inside : index < n
    pub entry : table ≡ entry_at entries index
    pub fadt : IsFadt table
    pub others : (j : ℕ) → j < index → ¬ IsFadt (entry_at entries j)

  find_loop-cases :
      (entries n : ℕ)
      → let table = read_u64 memory entries in
        (IsFadt table × (find_loop memory entries (suc n) ≡ some table))
        ⊎ ((¬ IsFadt table) × (find_loop memory entries (suc n) ≡ find_loop memory (entries + 8) n))
  unfolding find_loop
  find_loop-cases entries n =
      let table = read_u64 memory entries in
      elim (Bool-cases (table == 0)) [
        | inl null ↦ inr (λ h. h.0 ((==_iff table 0).0 null), if_true _ _ null)
        | inr used ↦ elim (Bool-cases (same (bytes_at memory table 4) fadt_signature)) [
          | inl fadt ↦ inl (
            (λ e. ground arith, same_eq (bytes_at memory table 4) fadt_signature fadt),
            if_false _ _ used ∙ if_true _ _ fadt,
          )
          | inr other ↦ inr (
            λ h. absurd (cc (other, h.1, same_refl fadt_signature)),
            if_false _ _ used ∙ if_false _ _ other,
          )
        ]
      ]

  -- The entries from one on are those of the rest.
  entry_at-zero : (entries : ℕ) → entry_at entries 0 ≡ read_u64 memory entries
  entry_at-zero entries = ap (read_u64 memory) (omega arith)

  entry_at-suc : (entries i : ℕ) → entry_at entries (suc i) ≡ entry_at (entries + 8) i
  entry_at-suc entries i = ap (read_u64 memory) (omega arith)

  First-here :
      (entries n : ℕ)
      → IsFadt (read_u64 memory entries)
      → First entries (suc n) (read_u64 memory entries)
  First-here entries n h = record {
    index = 0;
    inside = omega arith;
    entry = sym (entry_at-zero entries);
    fadt = h;
    others = λ j below. absurd (omega arith);
  }

  later_others :
      (entries : ℕ)
      → (¬ IsFadt (read_u64 memory entries))
      → (index : ℕ) → ((j : ℕ) → j < index → ¬ IsFadt (entry_at (entries + 8) j))
      → (j : ℕ) → j < suc index
      → ¬ IsFadt (entry_at entries j)
  later_others entries h index rest zero below = λ f. h (subst IsFadt (entry_at-zero entries) f)
  later_others entries h index rest (suc j) below =
      λ f. rest j (omega arith) (subst IsFadt (entry_at-suc entries j) f)

  First-later :
      (entries n table : ℕ)
      → (¬ IsFadt (read_u64 memory entries))
      → First (entries + 8) n table
      → First entries (suc n) table
  First-later entries n table h t = record {
    index = suc t.index;
    inside = omega (arith, t.inside);
    entry = t.entry ∙ sym (entry_at-suc entries t.index);
    fadt = t.fadt;
    others = later_others entries h t.index t.others;
  }

  module _ (entries n table : ℕ) where
    -- Where the first entry is no FADT, the index is that of a later one.
    First-inv :
        (index : ℕ)
        → index < suc n
        → table ≡ entry_at entries index
        → IsFadt table
        → ((j : ℕ) → j < index → ¬ IsFadt (entry_at entries j))
        → (¬ IsFadt (read_u64 memory entries))
        → First (entries + 8) n table
    First-inv zero inside entry fadt others h =
        absurd (h (subst IsFadt (entry ∙ entry_at-zero entries) fadt))
    First-inv (suc index) inside entry fadt others h = record {
      index = index;
      inside = omega arith;
      entry = entry ∙ entry_at-suc entries index;
      fadt = fadt;
      others =
          λ j below f. others (suc j) (omega arith) (subst IsFadt (sym (entry_at-suc entries j)) f);
    }

    First-first :
        (index : ℕ)
        → table ≡ entry_at entries index
        → ((j : ℕ) → j < index → ¬ IsFadt (entry_at entries j))
        → IsFadt (read_u64 memory entries)
        → table ≡ read_u64 memory entries
    First-first zero entry others h = entry ∙ entry_at-zero entries
    First-first (suc index) entry others h =
        absurd (others 0 (omega arith) (subst IsFadt (sym (entry_at-zero entries)) h))

  find_loop→First :
      (entries n table : ℕ) → find_loop memory entries n ≡ some table → First entries n table
  find_loop→First entries zero table e = absurd (unfold find_loop in cc)
  find_loop→First entries (suc n) table e = elim (find_loop-cases entries n) [
    | inl (h, hit) ↦
        let same_table : read_u64 memory entries ≡ table = cc in
        subst (First entries (suc n)) same_table (First-here entries n h)
    | inr (h, miss) ↦
        First-later entries n table h (find_loop→First (entries + 8) n table (sym miss ∙ e))
  ]

  First→find_loop :
      (entries n table : ℕ) → First entries n table → find_loop memory entries n ≡ some table
  First→find_loop entries zero table t = absurd (omega (arith, t.inside))
  First→find_loop entries (suc n) table t = elim (find_loop-cases entries n) [
    | inl (h, hit) ↦ hit ∙ ap some (sym (First-first entries n table t.index t.entry t.others h))
    | inr (h, miss) ↦
        miss
        ∙ First→find_loop (entries + 8) n table
            (First-inv entries n table t.index t.inside t.entry t.fadt t.others h)
  ]

  -- Later.
  pub find_loop-First :
      (entries n table : ℕ) → (find_loop memory entries n ≡ some table) ↔ First entries n table
  find_loop-First entries n table =
      (find_loop→First entries n table, First→find_loop entries n table)
