-- ===== src/Shell/Parsing.antt =====
-- What src/shell.rs uses of the language's library on texts: words, numbers and their printing.
-- Texts are lists of ASCII bytes, as the console's input line holds them.
use sill_os.Base.{
  ℕ, zero, suc, ◌+◌, ◌-◌, ◌*◌, ◌/◌, ◌%◌, ◌^◌, Bool, Option, none, some, List, [], ◌∷◌, ◌++◌, ◌&&◌,
  ◌||◌, ltb, leb, ◌==◌, if◌then◌else◌, Text,
}

-- `char::is_whitespace`, on ASCII.
abbrev pub is_whitespace : ℕ → Bool
is_whitespace c = c == 32 || leb 9 c && leb c 13

-- A word that has a letter goes in front of the others.
abbrev pub add_word : Text → List Text → List Text
add_word [] words = words
add_word (c ∷ word) words = (c ∷ word) ∷ words

-- `split_whitespace` of the text, after the letters of a word that has begun.
unfoldable pub split_from : Text → Text → List Text
split_from word [] = add_word word []
split_from word (c ∷ rest) =
    let next = add_word word (split_from [] rest) in
    let longer = split_from (word ++ c ∷ []) rest in if is_whitespace c then next else longer

unfoldable pub split_whitespace : Text → List Text
unfolding split_from
split_whitespace line = split_from [] line

-- The digit `d`, from `0` to `9` and from `a` on.
abbrev pub digit_byte : ℕ → ℕ
digit_byte d = if ltb d 10 then 48 + d else 87 + d

-- The digits of `n` in front of `rest`; a number of 64 bits has at most 64.
unfoldable pub digits : ℕ → ℕ → ℕ → Text → Text
digits base zero n rest = rest
digits base (suc left) n rest =
    let more = digits base left (n / base) (digit_byte (n % base) ∷ rest) in
    if ltb n base then digit_byte n ∷ rest else more

-- `{}` of a `usize`.
unfoldable pub decimal : ℕ → Text
unfolding digits
decimal n = digits 10 64 n []

-- `{:#x}` of a `usize`.
unfoldable pub hexadecimal : ℕ → Text
unfolding digits
hexadecimal n = 48 ∷ 120 ∷ digits 16 64 n []

abbrev pub bytes : Text → ℕ
bytes [] = 0
bytes (c ∷ s) = bytes s + 1

-- A text with zeros in front.
abbrev pub zeros : ℕ → Text → Text
zeros zero s = s
zeros (suc n) s = 48 ∷ zeros n s

-- `{:#018x}` of a number of 64 bits.
unfoldable pub padded : ℕ → Text
unfolding digits
padded n = let s = digits 16 64 n [] in 48 ∷ 120 ∷ zeros (16 - bytes s) s

-- `char::to_digit`.
abbrev pub digit_value : ℕ → Option ℕ
digit_value c =
    if leb 48 c && leb c 57
    then some (c - 48)
    else if leb 97 c && leb c 122
    then some (c - 87)
    else if leb 65 c && leb c 90
    then some (c - 55)
    else none

abbrev pub digit_of : ℕ → ℕ → Option ℕ
digit_of base c = elim (digit_value c) [
  | none ↦ none
  | some d ↦ if ltb d base then some d else none
]

-- The number with the digits of a text behind those of `value`; `none` is an error, also overflow.
unfoldable pub parse_digits : ℕ → ℕ → Text → Option ℕ
parse_digits base value [] = some value
parse_digits base value (c ∷ rest) = elim (digit_of base c) [
  | none ↦ none
  | some d ↦
      let next = parse_digits base (value * base + d) rest in
      if ltb (value * base + d) (2 ^ 64) then next else none
]

-- `usize::from_str_radix`: one sign `+` may stand in front, and there is a digit.
unfoldable pub from_str_radix : ℕ → Text → Option ℕ
unfolding parse_digits
from_str_radix base [] = none
from_str_radix base (c ∷ []) = if c == 43 then none else parse_digits base 0 (c ∷ [])
from_str_radix base (c ∷ d ∷ rest) =
    if c == 43 then parse_digits base 0 (d ∷ rest) else parse_digits base 0 (c ∷ d ∷ rest)

-- `parse::<usize>`.
unfoldable pub parse : Text → Option ℕ
unfolding from_str_radix
parse s = from_str_radix 10 s

-- `trim_start_matches` of a text of the two bytes `a` and `b`.
unfoldable pub trim_start : ℕ → ℕ → Text → Text
trim_start a b [] = []
trim_start a b (c ∷ []) = c ∷ []
trim_start a b (c ∷ d ∷ rest) =
    let trimmed = trim_start a b rest in if c == a && d == b then trimmed else c ∷ d ∷ rest
