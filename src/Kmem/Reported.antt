-- ===== src/Kmem/Reported.antt =====
-- What the report of `mem_analyze` in src/kmem/mod.rs says of the memory map.
use native.Mathlib.Nat.{div-mul-le_self, div-lt_iff_lt-mul}
use sill_os.Base.{
  ℕ, ◌+◌, ◌-◌, ◌*◌, ◌/◌, ◌%◌, ◌^◌, ◌≤◌, ◌<◌, ◌≡◌, ◌∙◌, refl, sym, subst, ap, false, some, List, [],
  ◌∷◌, ◌++◌, Text, text, inl, inr, arith, if_true, if_false, Bool-cases, ◌==◌, if◌then◌else◌,
}
use sill_os.Frame.{Entry}
use sill_os.Shell.Parsing.{decimal, padded}
use sill_os.Kmem.{MemmapTypes, Tally, no_entries, tally, count_entry, address_span, count_class}
use sill_os.Fb.{saturating_add}
use sill_os.Kmem.Totals.{sum_lengths, tally-Totals}
use sill_os.Kmem.Usable.{is_usable, count_entry-usable, count_entry-other}
use sill_os.Kmem.Span.{Spans, address_span-Spans, end_of}
use sill_os.Kmem.Figures.{mib, kib, percent, Machine, summary_lines, usable_percent}
use sill_os.Kmem.Analysis.{
  report, analysis, banner, hhdm_lines, memory_map_lines, region_lines, region_line,
}
use sill_os.Kmem.Lines.{
  Has, Has-right, Has-memory_map, Has-summary, Has-span, Has-region, Has-highest, Has-width,
}

-- The lengths of the usable entries together.
abbrev pub usable_lengths : MemmapTypes → List Entry → ℕ
usable_lengths types [] = 0
usable_lengths types (e ∷ es) =
    (if e.type_ == types.usable then e.length else 0) + usable_lengths types es

module _ (types : MemmapTypes) where
  count_entry-usable_memory :
      (t : Tally) (e : Entry)
      → t.usable_memory + e.length < 2 ^ 64
      → (count_entry types t e).usable_memory
        ≡ t.usable_memory + (if e.type_ == types.usable then e.length else 0)
  count_entry-usable_memory t e fits = elim (Bool-cases (is_usable types e)) [
    | inl h ↦
        ap (λ (u : Tally). u.usable_memory) (count_entry-usable types t e h)
        ∙ (unfold count_class saturating_add in omega (arith, if_true e.length 0 h, fits))
    | inr h ↦ (count_entry-other types t e h).memory ∙ omega (arith, if_false e.length 0 h)
  ]

  tally-usable_lengths :
      (es : List Entry) (t : Tally)
      → t.usable_memory + sum_lengths es < 2 ^ 64
      → (tally types t es).usable_memory ≡ t.usable_memory + usable_lengths types es
  unfolding tally
  tally-usable_lengths [] t fits = omega arith
  tally-usable_lengths (e ∷ es) t fits =
      let here = count_entry-usable_memory t e (omega (arith, fits)) in
      let short : (if e.type_ == types.usable then e.length else 0) ≤ e.length = ground arith in
      tally-usable_lengths es (count_entry types t e) (omega (arith, fits, here, short))
      ∙ omega (arith, here)

-- Every entry has its line, with its number, its start and end, its length and its type.
abbrev pub RegionsIn : ℕ → List Entry → List Text → Type 0
RegionsIn index [] lines = Unit {0}
RegionsIn index (e ∷ es) lines =
    Has
      (text "  #"
        ++ decimal index
        ++ text ": "
        ++ padded e.base
        ++ text " - "
        ++ padded (end_of e)
        ++ text " | "
        ++ decimal (e.length / 1024)
        ++ text " KiB | type "
        ++ decimal e.type_)
      lines
    × RegionsIn (index + 1) es lines

RegionsIn-lines :
    (index : ℕ) (es : List Entry) (lines : List Text)
    → ((s : Text) → Has s (region_lines index es) → Has s lines)
    → RegionsIn index es lines
unfolding region_lines region_line saturating_add
RegionsIn-lines index [] lines h = tt
RegionsIn-lines index (e ∷ es) lines h =
    (h _ (inl refl), RegionsIn-lines (index + 1) es lines λ s p. h s (inr p))

-- The lines say the size of the memory, its usable part in hundredths of a percent, the span of the
-- addresses, and all regions.
pub record Tells (types : MemmapTypes) (es : List Entry) (lines : List Text) : Type 0 where
  pub total_kib :
      Has (text "  Total:           " ++ decimal (sum_lengths es / 1024) ++ text " KiB") lines
  pub total_mib :
      Has (text "  Total:           " ++ decimal (sum_lengths es / 1048576) ++ text " MiB") lines
  pub usable_mib :
      Has
        (text "  Usable:          " ++ decimal (usable_lengths types es / 1048576) ++ text " MiB")
        lines
  pub percent : ℕ
  pub percent_line :
      Has
        (text "  Usable RAM:     "
          ++ decimal (percent / 100)
          ++ text "."
          ++ decimal (percent % 100)
          ++ text "%")
        lines
  pub percent_least : percent * sum_lengths es ≤ usable_lengths types es * 10000
  pub percent_most : usable_lengths types es * 10000 < (percent + 1) * sum_lengths es
  pub span : ℕ × ℕ
  pub spans : Spans (2 ^ 64 - 1) 0 es span
  pub highest : Has (text "  Highest address: " ++ padded span.1) lines
  pub width :
      Has (text "  Address span:    " ++ decimal ((span.1 - span.0) / 1048576) ++ text " MiB") lines
  pub regions : RegionsIn 0 es lines

-- A quotient between its bounds.
quotient-bounds : (n d : ℕ) → 0 < d → (n / d * d ≤ n) × (n < (n / d + 1) * d)
quotient-bounds n d some_ = (div-mul-le_self n d, (div-lt_iff_lt-mul some_).0 (omega arith))

module _ (m : Machine) (offset : ℕ) (es : List Entry) (answered : m.offset ≡ some offset)
    (mapped : m.entries ≡ some es) (fits : sum_lengths es < 2 ^ 64) where
  abbrev figures : Tally
  figures = tally m.types no_entries es

  report_eq : report m ≡ banner ++ (hhdm_lines offset ++ analysis m offset es figures)
  unfolding report
  report_eq = rw (answered, mapped) refl

  Has-report : (s : Text) → Has s (analysis m offset es figures) → Has s (report m)
  Has-report s h = subst (Has s) (sym report_eq) (
      Has-right s banner (hhdm_lines offset ++ analysis m offset es figures)
        (Has-right s (hhdm_lines offset) (analysis m offset es figures) h))

  total : figures.total_memory ≡ sum_lengths es
  total = (tally-Totals m.types es fits).total

  usable_part : figures.usable_memory ≡ usable_lengths m.types es
  unfolding no_entries
  usable_part = tally-usable_lengths m.types es no_entries (omega (arith, fits)) ∙ omega arith

  abbrev hundredths : ℕ
  hundredths = usable_lengths m.types es * 10000 / sum_lengths es

  usable_percent-hundredths : 0 < sum_lengths es → usable_percent figures ≡ hundredths
  unfolding usable_percent
  usable_percent-hundredths some_byte =
      let some_total : (figures.total_memory == 0) ≡ false = ground (arith, total) in
      if_false _ _ some_total ∙ rw (total, usable_part) refl

  Has-figure : (s : Text) → Has s (memory_map_lines es figures) → Has s (report m)
  Has-figure s h = Has-report s (Has-memory_map m offset es figures s h)

  pub report-Tells : 0 < sum_lengths es → Tells m.types es (report m)
  unfolding memory_map_lines summary_lines
  report-Tells some_byte =
      let bounds = quotient-bounds (usable_lengths m.types es * 10000) (sum_lengths es) some_byte in
      let span = address_span (2 ^ 64 - 1) 0 es in
      record {
        total_kib =
            Has-figure _
              (inr (inr (inr (inl (ap (λ n. text "  Total:           " ++ kib n) total)))));
        total_mib =
            Has-figure _
              (inr (inr (inr (inr (inl (ap (λ n. text "  Total:           " ++ mib n) total))))));
        usable_mib = Has-figure _ (
            inr (
              inr (
                inr
                  (inr (inr (inl (ap (λ n. text "  Usable:          " ++ mib n) usable_part)))))));
        percent = hundredths;
        percent_line = Has-report _ (
            Has-summary m offset es figures _ (
              inr (
                inr (
                  inr (
                    inr (
                      inl (
                        ap (λ n. text "  Usable RAM:     " ++ percent n)
                          (usable_percent-hundredths some_byte))))))));
        percent_least = bounds.0;
        percent_most = bounds.1;
        span = span;
        spans = address_span-Spans es (2 ^ 64 - 1) 0;
        highest = Has-report _ (Has-span m offset es figures _ (Has-highest span));
        width = Has-report _ (Has-span m offset es figures _ (Has-width span));
        regions =
            RegionsIn-lines 0 es (report m)
              λ s h. Has-report s (Has-region m offset es figures s h);
      }
