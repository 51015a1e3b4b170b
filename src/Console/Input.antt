-- ===== src/Console/Input.antt =====
-- The keyboard side of src/console.rs: `receive_key`.
use sill_os.Base.{
  ℕ, ◌+◌, ◌-◌, ◌<◌, ◌≡◌, ap, sym, subst, ◌∙◌, Bool, true, false, Option, some, ◌&&◌, ◌||◌, ltb, leb,
  ◌==◌, if_true, if_false, Bool-cases, inl, inr, arith, update,
}
use sill_os.Console.{Console, input_size, put_char, receive_key, finish}
use sill_os.Console.Synced.{IsValid}
use sill_os.Console.Writing.{Succeeds}
use sill_os.Console.Typing.{put_char-Succeeds}

abbrev pub printable : ℕ → Bool
printable key = leb 32 key && ltb key 127

-- The state in which a key has been stored.
abbrev pub stored : Console → ℕ → Console
stored c key = record c { input = update c.input c.input_len key; input_len = c.input_len + 1 }

pub receive_key-printable :
    (c : Console) (key : ℕ)
    → printable key ≡ true
    → c.input_len < input_size
    → receive_key c key ≡ put_char (stored c key) key
receive_key-printable c key p room =
    let not_end : (key == 10 || key == 13) ≡ false = ground arith in
    let not_back : (key == 8 || key == 127) ≡ false = ground arith in
    let fits : ltb c.input_len 256 ≡ true = ground arith in
    unfold receive_key in
    if_false _ _ not_end ∙ if_false _ _ not_back ∙ if_true _ _ p ∙ if_true _ _ fits

pub receive_key-return :
    (c : Console) (key : ℕ)
    → (key == 10 || key == 13) ≡ true
    → receive_key c key ≡ finish (put_char c 10)
receive_key-return c key end = unfold receive_key in if_true _ _ end

pub stored-IsValid :
    (c : Console) (key : ℕ) → IsValid c → c.input_len < input_size → IsValid (stored c key)
stored-IsValid c key v room = record {
  displays = v.displays;
  column = v.column;
  row = v.row;
  input = omega arith;
}

-- Without a panic, and leaving the console valid.
abbrev pub Runs : Option Console → Type 0
Runs r = (d : Console) × (r ≡ some d) × IsValid d

runs : (c : Console) (r : Option Console) → Succeeds c r → Runs r
runs c r (d, e, v, same) = (d, e, v)

-- On a valid console receive_key of any key does not panic and leaves the console valid, its input
-- line within 256 bytes.
pub receive_key-Runs : (c : Console) → IsValid c → (key : ℕ) → Runs (receive_key c key)
receive_key-Runs c v key = elim (Bool-cases (key == 10 || key == 13)) [
  | inl end ↦
      let (d, e, w, same) = put_char-Succeeds c v 10 in
      (
        record d { line_ready = true },
        receive_key-return c key end ∙ ap finish e,
        record { displays = w.displays; column = w.column; row = w.row; input = w.input },
      )
  | inr not_end ↦ elim (Bool-cases (key == 8 || key == 127)) [
    | inl back ↦ elim (Bool-cases (ltb 0 c.input_len && ltb 2 c.cursor_x)) [
      | inl some_typed ↦
          let shorter : Console = record c { input_len = c.input_len - 1 } in
          let e : receive_key c key ≡ put_char shorter 8 =
            unfold receive_key in
            if_false _ _ not_end ∙ if_true _ _ back ∙ if_true _ _ some_typed in
          subst Runs (sym e) (
            runs shorter (put_char shorter 8) (
              put_char-Succeeds shorter
                (record {
                  displays = v.displays;
                  column = v.column;
                  row = v.row;
                  input = omega (arith, v.input);
                })
                8))
      | inr none_typed ↦ (
        c,
        unfold receive_key in if_false _ _ not_end ∙ if_true _ _ back ∙ if_false _ _ none_typed,
        v,
      )
    ]
    | inr not_back ↦ elim (Bool-cases (printable key)) [
      | inl p ↦ elim (Bool-cases (ltb c.input_len 256)) [
        | inl fits ↦
            let room : c.input_len < 256 = ground arith in
            subst Runs (sym (receive_key-printable c key p room)) (
              runs (stored c key) (put_char (stored c key) key)
                (put_char-Succeeds (stored c key) (stored-IsValid c key v room) key))
        | inr full ↦ (
          c,
          unfold receive_key in
              if_false _ _ not_end ∙ if_false _ _ not_back ∙ if_true _ _ p ∙ if_false _ _ full,
          v,
        )
      ]
      | inr other ↦ (
        c,
        unfold receive_key in if_false _ _ not_end ∙ if_false _ _ not_back ∙ if_false _ _ other,
        v,
      )
    ]
  ]
]
