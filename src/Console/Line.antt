-- ===== src/Console/Line.antt =====
-- Whole lines of src/console.rs: `receive_key` for key after key, then `read_line`.
use sill_os.Base.{
  ℕ, zero, suc, ◌+◌, ◌≤◌, ◌<◌, ◌≡◌, refl, ap, sym, ◌∙◌, true, Option, none, some, List, [], ◌∷◌,
  ltb, ◌==◌, if_true, if_false, arith, length, get_elem?, min, ==_refl,
}
use sill_os.Console.{Console, input_size, receive_key, finish, read_line}
use sill_os.Console.Synced.{SameInput, IsValid}
use sill_os.Console.Typing.{put_char-Succeeds}
use sill_os.Console.Input.{
  printable, stored, receive_key-printable, receive_key-return, stored-IsValid,
}

-- Keys in a row.
unfoldable pub receive_keys : Console → List ℕ → Option Console
receive_keys c [] = some c
receive_keys c (key ∷ keys) = elim (receive_key c key) [
  | none ↦ none
  | some d ↦ receive_keys d keys
]

abbrev pub AllPrintable : List ℕ → Type 0
AllPrintable [] = true ≡ true
AllPrintable (key ∷ keys) = (printable key ≡ true) × AllPrintable keys

-- From `c` to `d` the keys have been added to the line.
pub record Typed (c : Console) (keys : List ℕ) (d : Console) : Type 0 where
  pub valid : IsValid d
  pub len : d.input_len ≡ c.input_len + length keys
  pub ready : d.line_ready ≡ c.line_ready
  pub before : (i : ℕ) → i < c.input_len → d.input i ≡ c.input i
  pub bytes : (i : ℕ) → i < length keys → get_elem? keys i ≡ some (d.input (c.input_len + i))

receive_keys-some :
    (c d : Console) (key : ℕ) (keys : List ℕ)
    → receive_key c key ≡ some d
    → receive_keys c (key ∷ keys) ≡ receive_keys d keys
receive_keys-some c d key keys e = unfold receive_keys in rw (e, receive_keys)

stored-before : (c : Console) (key i : ℕ) → i < c.input_len → (stored c key).input i ≡ c.input i
stored-before c key i h = if_false {b = c.input_len == i} _ _ (ground arith)

Typed-first :
    (c d e : Console) (key : ℕ) (keys : List ℕ)
    → SameInput (stored c key) d
    → Typed d keys e
    → Typed c (key ∷ keys) e
Typed-first c d e key keys same t = record {
  valid = t.valid;
  len = omega (arith, t.len, same.1);
  ready = t.ready ∙ same.2;
  before =
      λ i h. t.before i (omega (arith, same.1)) ∙ ap (λ f. f i) same.0 ∙ stored-before c key i h;
  bytes = byte;
}
  where
    here : e.input c.input_len ≡ key
    here =
        t.before c.input_len (omega (arith, same.1))
        ∙ ap (λ f. f c.input_len) same.0
        ∙ if_true _ _ (==_refl c.input_len)

    byte :
        (i : ℕ)
        → i < suc (length keys)
        → get_elem? (key ∷ keys) i ≡ some (e.input (c.input_len + i))
    byte zero h = ap some (sym here ∙ ap e.input (omega arith))
    byte (suc i) h = t.bytes i (omega arith) ∙ ap (λ n. some (e.input n)) (omega (arith, same.1))

pub receive_keys-Typed :
    (c : Console) (keys : List ℕ)
    → IsValid c
    → AllPrintable keys
    → c.input_len + length keys ≤ input_size
    → (d : Console) × (receive_keys c keys ≡ some d) × Typed c keys d
receive_keys-Typed c [] v p fits = (
  c,
  unfold receive_keys in refl,
  record {
    valid = v;
    len = omega arith;
    ready = refl;
    before = λ i h. refl;
    bytes = λ i h. absurd (omega arith);
  },
)
receive_keys-Typed c (key ∷ keys) v p fits =
    let room : c.input_len < input_size = omega arith in
    let (d, wrote, w, same) = put_char-Succeeds (stored c key) (stored-IsValid c key v room) key in
    let (e, rest, t) = receive_keys-Typed d keys w p.1 (omega (arith, same.1)) in
    (
      e,
      receive_keys-some c d key keys (receive_key-printable c key p.0 room ∙ wrote) ∙ rest,
      Typed-first c d e key keys same t,
    )

-- What a caller of `read_line` with a buffer of `size` bytes gets, and the console after it.
pub record LineRead (keys : List ℕ) (size : ℕ) (r : Console × (ℕ → ℕ) × Option ℕ) : Type 0 where
  pub valid : IsValid r.0
  pub count : r.2 ≡ some (min (length keys) size)
  pub bytes : (i : ℕ) → i < min (length keys) size → get_elem? keys i ≡ some (r.1 i)
  pub emptied : r.0.input_len ≡ 0
  pub taken : (buffer : ℕ → ℕ) → (read_line r.0 buffer size).2 ≡ none

-- On a valid console whose line is empty, for printable keys, at most 256: typing the keys and then
-- the return key does not panic, read_line then gives the keys in their order, as many as fit in
-- the buffer of the given size, the console is valid and its line empty, and a second read_line
-- gives nothing.
pub type_line-LineRead :
    (c : Console) (keys : List ℕ) (buffer : ℕ → ℕ) (size : ℕ)
    → IsValid c
    → c.input_len ≡ 0
    → AllPrintable keys
    → length keys ≤ input_size
    → (d : Console) × (e : Console) × (receive_keys c keys ≡ some d)
      × (receive_key d 13 ≡ some e)
      × LineRead keys size (read_line e buffer size)
type_line-LineRead c keys buffer size v start p fits =
    let (d, typed, t) = receive_keys-Typed c keys v p (omega arith) in
    let (e, ended, w, same) = put_char-Succeeds d t.valid 10 in
    let len : e.input_len ≡ length keys = omega (arith, same.1, t.len) in
    (
      d,
      record e { line_ready = true },
      typed,
      receive_key-return d 13 refl ∙ ap finish ended,
      unfold read_line in
          record {
            valid = record {
              displays = w.displays;
              column = w.column;
              row = w.row;
              input = omega arith;
            };
            count = ap (λ n. some (min n size)) len;
            bytes = λ i h.
                let within : ltb i (min e.input_len size) ≡ true = ground (arith, len) in
                t.bytes i (omega arith)
                ∙ ap (λ n. some (d.input n)) (omega arith)
                ∙ ap (λ f. some (f i)) (sym same.0)
                ∙ ap some (sym (if_true _ _ within));
            emptied = refl;
            taken = λ b. refl;
          },
    )
