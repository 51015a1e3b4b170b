-- ===== src/Shell/Words.antt =====
-- The words of a command line of src/shell.rs.
use mathlib.Core.List.{append-nil, append_assoc}
use sill_os.Base.{ℕ, ◌≡◌, ◌∙◌, refl, sym, ap, false, List, [], ◌∷◌, ◌++◌, Text, if_false}
use sill_os.Shell.Parsing.{is_whitespace, split_from, split_whitespace}

-- The words with a blank between them.
abbrev pub join : List Text → Text
join [] = []
join (word ∷ []) = word
join (word ∷ next ∷ words) = word ++ 32 ∷ join (next ∷ words)

abbrev pub NoBlank : Text → Type 0
NoBlank [] = Unit {0}
NoBlank (c ∷ word) = (is_whitespace c ≡ false) × NoBlank word

abbrev pub IsWord : Text → Type 0
IsWord [] = ⊥
IsWord (c ∷ word) = NoBlank (c ∷ word)

abbrev pub AllWords : List Text → Type 0
AllWords [] = Unit {0}
AllWords (word ∷ words) = IsWord word × AllWords words

split_from-append :
    (before word rest : Text)
    → NoBlank word
    → split_from before (word ++ rest) ≡ split_from (before ++ word) rest
split_from-append before [] rest h = ap (λ (b : Text). split_from b rest) (sym (append-nil before))
split_from-append before (c ∷ word) rest h =
    split_from-letter before c (word ++ rest) h.0
    ∙ split_from-append (before ++ c ∷ []) word rest h.1
    ∙ ap (λ (b : Text). split_from b rest) (append_assoc before (c ∷ []) word)
  where
    split_from-letter :
        (b : Text) (x : ℕ) (r : Text)
        → is_whitespace x ≡ false
        → split_from b (x ∷ r) ≡ split_from (b ++ x ∷ []) r
    split_from-letter b x r e = unfold split_from in if_false _ _ e

split_from-word : (word : Text) → IsWord word → split_from [] word ≡ word ∷ []
split_from-word [] h = elim h [ ]
split_from-word (c ∷ word) h =
    ap (split_from []) (sym (append-nil (c ∷ word)))
    ∙ split_from-append [] (c ∷ word) [] h
    ∙ unfold split_from in refl

split_from-blank :
    (word rest : Text) → IsWord word → split_from [] (word ++ 32 ∷ rest) ≡ word ∷ split_from [] rest
split_from-blank [] rest h = elim h [ ]
split_from-blank (c ∷ word) rest h =
    split_from-append [] (c ∷ word) (32 ∷ rest) h ∙ unfold split_from in refl

split_from-join : (words : List Text) → AllWords words → split_from [] (join words) ≡ words
split_from-join [] h = unfold split_from in refl
split_from-join (word ∷ []) h = split_from-word word h.0
split_from-join (word ∷ next ∷ words) h =
    split_from-blank word (join (next ∷ words)) h.0
    ∙ ap (λ (ws : List Text). word ∷ ws) (split_from-join (next ∷ words) h.1)

pub split_whitespace-join :
    (words : List Text) → AllWords words → split_whitespace (join words) ≡ words
unfolding split_whitespace
split_whitespace-join words h = split_from-join words h
