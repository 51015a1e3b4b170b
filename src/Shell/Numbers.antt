-- ===== src/Shell/Numbers.antt =====
-- Numbers that src/shell.rs prints and reads.
use native.Mathlib.Nat.{div-add-mod', mod-lt, pow-succ', mul-le-mul_left}
use sill_os.Base.{
  ℕ, zero, suc, ◌+◌, ◌*◌, ◌/◌, ◌%◌, ◌^◌, ◌≤◌, ◌<◌, ◌≡◌, ◌≢◌, ◌∙◌, refl, sym, ap, subst, ◌&&◌, true,
  false, Option, none, some, [], ◌∷◌, Text, if_true, if_false, arith, ltb, ltb→lt, ◌==◌, Bool-cases,
  inl, inr, if◌then◌else◌,
}
use sill_os.Shell.Parsing.{
  digit_byte, digits, decimal, hexadecimal, digit_of, parse_digits, from_str_radix, parse,
  trim_start,
}
use sill_os.Shell.HeapCommands.{parse_pointer}
use sill_os.Shell.Words.{NoBlank, IsWord}

-- A byte of a digit below 16.
abbrev IsDigit : ℕ → Type 0
IsDigit c = (48 ≤ c) × (c ≤ 102) × (c ≢ 88)

abbrev AllDigits : Text → Type 0
AllDigits [] = Unit {0}
AllDigits (c ∷ s) = IsDigit c × AllDigits s

-- A number begins with a digit.
abbrev IsNumber : Text → Type 0
IsNumber [] = ⊥
IsNumber (c ∷ s) = AllDigits (c ∷ s)

module _ (base : ℕ) (two : 2 ≤ base) (few : base ≤ 16) where
  digit_of-digit_byte : (d : ℕ) → d < base → digit_of base (digit_byte d) ≡ some d
  digit_of-digit_byte d h = ground arith

  parse_digits-digit :
      (value d : ℕ) (rest : Text)
      → d < base
      → value * base + d < 2 ^ 64
      → parse_digits base value (digit_byte d ∷ rest) ≡ parse_digits base (value * base + d) rest
  unfolding parse_digits
  parse_digits-digit value d rest h small =
      let fits : ltb (value * base + d) (2 ^ 64) ≡ true = ground arith in
      ap
        (λ (o : Option ℕ). elim o [
          | none ↦ none
          | some e ↦
              if ltb (value * base + e) (2 ^ 64)
              then parse_digits base (value * base + e) rest
              else none
        ])
        (digit_of-digit_byte d h)
      ∙ if_true _ _ fits

  parse_digits-digits :
      (left n : ℕ) (rest : Text)
      → n < 2 ^ left
      → n < 2 ^ 64
      → parse_digits base 0 (digits base left n rest) ≡ parse_digits base n rest
  unfolding digits
  parse_digits-digits zero n rest h small = ap (λ (m : ℕ). parse_digits base m rest) (omega arith)
  parse_digits-digits (suc left) n rest h small = elim (Bool-cases (ltb n base)) [
    | inl last ↦
        ap (parse_digits base 0) (if_true _ _ last)
        ∙ parse_digits-digit 0 n rest (ltb→lt n base last) (omega arith)
        ∙ ap (λ (m : ℕ). parse_digits base m rest) (omega arith)
    | inr more ↦
        let whole = div-add-mod' n base in
        let lower : n / base < 2 ^ left =
          omega (arith, pow-succ' 2 left, mul-le-mul_left (n / base) two, whole) in
        ap (parse_digits base 0) (if_false _ _ more)
        ∙ parse_digits-digits left (n / base) (digit_byte (n % base) ∷ rest) lower (omega arith)
        ∙ parse_digits-digit (n / base) (n % base) rest (mod-lt n (omega arith)) (omega arith)
        ∙ ap (λ (m : ℕ). parse_digits base m rest) whole
  ]

  digit_byte-IsDigit : (d : ℕ) → d < base → IsDigit (digit_byte d)
  digit_byte-IsDigit d h = (ground arith, ground arith, λ e. ground arith)

  digits-AllDigits :
      (left n c : ℕ) (rest : Text) → IsNumber (c ∷ rest) → IsNumber (digits base left n (c ∷ rest))
  unfolding digits
  digits-AllDigits zero n c rest h = h
  digits-AllDigits (suc left) n c rest h = elim (Bool-cases (ltb n base)) [
    | inl last ↦
        subst IsNumber (sym (if_true _ _ last)) (digit_byte-IsDigit n (ltb→lt n base last), h)
    | inr more ↦ subst IsNumber (sym (if_false _ _ more)) (
        digits-AllDigits left (n / base) (digit_byte (n % base)) (c ∷ rest)
          (digit_byte-IsDigit (n % base) (mod-lt n (omega arith)), h))
  ]

  digits-IsNumber : (left n : ℕ) → IsNumber (digits base (suc left) n [])
  unfolding digits
  digits-IsNumber left n = elim (Bool-cases (ltb n base)) [
    | inl last ↦
        subst IsNumber (sym (if_true _ _ last)) (digit_byte-IsDigit n (ltb→lt n base last), tt)
    | inr more ↦ subst IsNumber (sym (if_false _ _ more)) (
        digits-AllDigits left (n / base) (digit_byte (n % base)) []
          (digit_byte-IsDigit (n % base) (mod-lt n (omega arith)), tt))
  ]

  from_str_radix-IsNumber : (s : Text) → IsNumber s → from_str_radix base s ≡ parse_digits base 0 s
  unfolding from_str_radix
  from_str_radix-IsNumber [] h = elim h [ ]
  from_str_radix-IsNumber (c ∷ []) h =
      let unsigned : (c == 43) ≡ false = ground arith in if_false _ _ unsigned
  from_str_radix-IsNumber (c ∷ d ∷ s) h =
      let unsigned : (c == 43) ≡ false = ground (arith, h.0.0) in if_false _ _ unsigned

  from_str_radix-digits : (n : ℕ) → n < 2 ^ 64 → from_str_radix base (digits base 64 n []) ≡ some n
  from_str_radix-digits n h =
      from_str_radix-IsNumber (digits base 64 n []) (digits-IsNumber 63 n)
      ∙ parse_digits-digits 64 n [] h h
      ∙ unfold parse_digits in refl

pub parse-decimal : (n : ℕ) → n < 2 ^ 64 → parse (decimal n) ≡ some n
unfolding parse decimal
parse-decimal n h = from_str_radix-digits 10 (omega arith) (omega arith) n h

-- Neither `0x` nor `0X` begins a number.
trim_start-AllDigits :
    (b : ℕ) (s : Text) → ((c : ℕ) → IsDigit c → c ≢ b) → AllDigits s → trim_start 48 b s ≡ s
unfolding trim_start
trim_start-AllDigits b [] apart h = refl
trim_start-AllDigits b (c ∷ []) apart h = refl
trim_start-AllDigits b (c ∷ d ∷ s) apart h =
    let other : (c == 48 && d == b) ≡ false = ground (arith, apart d h.1.0) in if_false _ _ other

pub IsNumber-AllDigits : (s : Text) → IsNumber s → AllDigits s
IsNumber-AllDigits [] h = tt
IsNumber-AllDigits (c ∷ s) h = h

pub parse_pointer-hexadecimal : (n : ℕ) → n < 2 ^ 64 → parse_pointer (hexadecimal n) ≡ some n
unfolding parse_pointer hexadecimal
parse_pointer-hexadecimal n h =
    let all =
      IsNumber-AllDigits (digits 16 64 n [])
        (digits-IsNumber 16 (omega arith) (omega arith) 63 n) in
    let one = trim_start-AllDigits 120 (digits 16 64 n []) (λ c d. omega arith) all in
    let two = trim_start-AllDigits 88 (digits 16 64 n []) (λ c d. d.2) all in
    let first : trim_start 48 120 (48 ∷ 120 ∷ digits 16 64 n []) ≡ digits 16 64 n [] =
      unfold trim_start in one in
    ap (λ (t : Text). from_str_radix 16 (trim_start 48 88 t)) first
    ∙ ap (from_str_radix 16) two
    ∙ from_str_radix-digits 16 (omega arith) (omega arith) n h

NoBlank-AllDigits : (s : Text) → AllDigits s → NoBlank s
NoBlank-AllDigits [] h = tt
NoBlank-AllDigits (c ∷ s) h = (ground (arith, h.0.0), NoBlank-AllDigits s h.1)

IsWord-IsNumber : (s : Text) → IsNumber s → IsWord s
IsWord-IsNumber [] h = h
IsWord-IsNumber (c ∷ s) h = NoBlank-AllDigits (c ∷ s) h

pub decimal-IsWord : (n : ℕ) → IsWord (decimal n)
unfolding decimal
decimal-IsWord n = IsWord-IsNumber _ (digits-IsNumber 10 (omega arith) (omega arith) 63 n)

pub hexadecimal-IsWord : (n : ℕ) → IsWord (hexadecimal n)
unfolding hexadecimal
hexadecimal-IsWord n = (
  refl,
  (
    refl,
    NoBlank-AllDigits _
        (IsNumber-AllDigits _ (digits-IsNumber 16 (omega arith) (omega arith) 63 n)),
  ),
)
