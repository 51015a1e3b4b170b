-- ===== src/Kmem/Lines.antt =====
-- Where the lines of the parts stand in the report of `mem_analyze` in src/kmem/mod.rs.
use sill_os.Base.{
  ℕ, not, ◌-◌, ◌/◌, ◌^◌, ◌≡◌, ◌⊎◌, refl, List, [], ◌∷◌, ◌++◌, Text, text, inl, inr, ◌==◌,
  if◌then◌else◌,
}
use sill_os.Frame.{Entry}
use sill_os.Shell.Parsing.{decimal, padded}
use sill_os.Kmem.{Tally, address_span, frame_count}
use sill_os.Kmem.Figures.{mib, Machine, summary_lines, alignment_lines}
use sill_os.Kmem.Analysis.{
  analysis, memory_map_lines, frame_lines, map_lines, space_lines, region_lines, page_table_lines,
  conversion_lines, kernel_lines,
}

-- The text is one of the lines.
abbrev pub Has : Text → List Text → Type 0
Has s [] = ⊥
Has s (line ∷ lines) = (line ≡ s) ⊎ Has s lines

pub Has-left : (s : Text) (xs ys : List Text) → Has s xs → Has s (xs ++ ys)
Has-left s [] ys h = elim h [ ]
Has-left s (line ∷ xs) ys (inl e) = inl e
Has-left s (line ∷ xs) ys (inr h) = inr (Has-left s xs ys h)

pub Has-right : (s : Text) (xs ys : List Text) → Has s ys → Has s (xs ++ ys)
Has-right s [] ys h = h
Has-right s (line ∷ xs) ys h = inr (Has-right s xs ys h)

-- Where a line of a part stands in what follows the first loop.
module _ (m : Machine) (offset : ℕ) (es : List Entry) (t : Tally) (s : Text) where
  -- The lines up to the regions, and up to the alignments.
  abbrev front : List Text
  front = memory_map_lines es t ++ frame_lines t ++ map_lines es

  abbrev middle : List Text
  middle =
      front
      ++ page_table_lines m offset
      ++ conversion_lines offset t
      ++ kernel_lines offset (frame_count t)

  Has-front : Has s front → Has s (analysis m offset es t)
  unfolding analysis
  Has-front h = Has-left s (middle ++ alignment_lines m offset t) (summary_lines m offset t) (
      Has-left s middle (alignment_lines m offset t) (
        Has-left s (front ++ page_table_lines m offset ++ conversion_lines offset t)
          (kernel_lines offset (frame_count t))
          (Has-left s (front ++ page_table_lines m offset) (conversion_lines offset t)
            (Has-left s front (page_table_lines m offset) h))))

  pub Has-memory_map : Has s (memory_map_lines es t) → Has s (analysis m offset es t)
  Has-memory_map h = Has-front (
      Has-left s (memory_map_lines es t ++ frame_lines t) (map_lines es)
        (Has-left s (memory_map_lines es t) (frame_lines t) h))

  Has-map : Has s (map_lines es) → Has s (analysis m offset es t)
  Has-map h = Has-front (Has-right s (memory_map_lines es t ++ frame_lines t) (map_lines es) h)

  pub Has-summary : Has s (summary_lines m offset t) → Has s (analysis m offset es t)
  unfolding analysis
  Has-summary h = Has-right s (middle ++ alignment_lines m offset t) (summary_lines m offset t) h

  pub Has-span :
      Has s (space_lines (address_span (2 ^ 64 - 1) 0 es)) → Has s (analysis m offset es t)
  Has-span h = Has-map (
      unfold map_lines in
      Has-left s (space_lines (address_span (2 ^ 64 - 1) 0 es))
        ([] ∷ text "[MEMORY MAP REGIONS]" ∷ region_lines 0 es) h)

  pub Has-region : Has s (region_lines 0 es) → Has s (analysis m offset es t)
  Has-region h = Has-map (
      unfold map_lines in
      Has-right s (space_lines (address_span (2 ^ 64 - 1) 0 es))
        ([] ∷ text "[MEMORY MAP REGIONS]" ∷ region_lines 0 es) (inr (inr h)))

module _ (span : ℕ × ℕ) where
  abbrev lowest_lines : List Text
  lowest_lines =
      if not (span.0 == 2 ^ 64 - 1) then (text "  Lowest address:  " ++ padded span.0) ∷ [] else []

  abbrev last_lines : List Text
  last_lines =
      (text "  Highest address: " ++ padded span.1)
      ∷ (text "  Address span:    " ++ mib (span.1 - span.0))
      ∷ []

  Has-last : (s : Text) → Has s last_lines → Has s (space_lines span)
  unfolding space_lines
  Has-last s h = inr (inr (Has-right s lowest_lines last_lines h))

  pub Has-highest : Has (text "  Highest address: " ++ padded span.1) (space_lines span)
  Has-highest = Has-last _ (inl refl)

  pub Has-width :
      Has
        (text "  Address span:    " ++ decimal ((span.1 - span.0) / 1048576) ++ text " MiB")
        (space_lines span)
  Has-width = Has-last _ (inr (inl refl))
