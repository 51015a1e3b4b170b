-- ===== src/Console/Typing.antt =====
-- `put_char` and `write_str` of src/console.rs.
use sill_os.Base.{
  ℕ, ◌≡◌, refl, sym, subst, ◌∙◌, false, some, List, [], ◌∷◌, ◌&&◌, leb, ◌==◌, if_true, if_false,
  Bool-cases, inl, inr,
}
use sill_os.Console.{Console, newline, write_cell, backspace, tab, put_char, write_str}
use sill_os.Console.Synced.{IsValid}
use sill_os.Console.Writing.{
  Succeeds, SameInput-trans, newline-Keeps, write_cell-Succeeds, backspace-Succeeds, tab-Keeps,
}

-- On a valid console put_char of any byte does not panic and leaves the console valid: the cursor
-- on the screen, and every pixel of the text area that of the cell buffer. The input line stays as
-- it is.
pub put_char-Succeeds :
    (c : Console) → IsValid c → (character : ℕ) → Succeeds c (put_char c character)
put_char-Succeeds c v character = elim (Bool-cases (character == 10)) [
  | inl is_newline ↦ (
    newline c,
    unfold put_char in if_true _ _ is_newline,
    (newline-Keeps c v.displays v.input).0,
    (newline-Keeps c v.displays v.input).1,
  )
  | inr not_newline ↦ elim (Bool-cases (character == 13)) [
    | inl is_return ↦ (
      record c { cursor_x = 0 },
      unfold put_char in if_false _ _ not_newline ∙ if_true _ _ is_return,
      record { displays = v.displays; column = λ h. h; row = v.row; input = v.input },
      (refl, refl, refl),
    )
    | inr not_return ↦ elim (Bool-cases (character == 9)) [
      | inl is_tab ↦ (
        tab c,
        unfold put_char in if_false _ _ not_newline ∙ if_false _ _ not_return ∙ if_true _ _ is_tab,
        (tab-Keeps c v).0,
        (tab-Keeps c v).1,
      )
      | inr not_tab ↦ elim (Bool-cases (character == 8)) [
        | inl is_back ↦
            let e : put_char c character ≡ backspace c =
              unfold put_char in
              if_false _ _ not_newline
              ∙ if_false _ _ not_return
              ∙ if_false _ _ not_tab
              ∙ if_true _ _ is_back in
            subst (Succeeds c) (sym e) (backspace-Succeeds c v)
        | inr not_back ↦ printable-Succeeds not_newline not_return not_tab not_back
      ]
    ]
  ]
]
  where
    printable-Succeeds :
        (character == 10) ≡ false
        → (character == 13) ≡ false
        → (character == 9) ≡ false
        → (character == 8) ≡ false
        → Succeeds c (put_char c character)
    printable-Succeeds n r t b = elim (Bool-cases (leb 32 character && leb character 126)) [
      | inl printable ↦
          let e : put_char c character ≡ write_cell c character =
            unfold put_char in
            if_false _ _ n
            ∙ if_false _ _ r
            ∙ if_false _ _ t
            ∙ if_false _ _ b
            ∙ if_true _ _ printable in
          subst (Succeeds c) (sym e) (write_cell-Succeeds c v character)
      | inr other ↦ (
        c,
        unfold put_char in
            if_false _ _ n ∙ if_false _ _ r ∙ if_false _ _ t ∙ if_false _ _ b ∙ if_false _ _ other,
        v,
        (refl, refl, refl),
      )
    ]

write_str-some :
    (c d : Console) (byte : ℕ) (bytes : List ℕ)
    → put_char c byte ≡ some d
    → write_str c (byte ∷ bytes) ≡ write_str d bytes
write_str-some c d byte bytes e = unfold write_str in rw (e, write_str)

-- So does `write_str` with any text.
pub write_str-Succeeds : (c : Console) → IsValid c → (text : List ℕ) → Succeeds c (write_str c text)
write_str-Succeeds c v [] = (c, unfold write_str in refl, v, (refl, refl, refl))
write_str-Succeeds c v (byte ∷ bytes) =
    let (d, e, w, p) = put_char-Succeeds c v byte in
    let (f, g, u, q) = write_str-Succeeds d w bytes in
    (f, write_str-some c d byte bytes e ∙ g, u, SameInput-trans c d f p q)
