-- ===== src/Frame/Regions.antt =====
-- The frames of the memory map's regions, as src/kmem/frame.rs is to hand them out.
use sill_os.Base.{
  ℕ, zero, suc, ◌+◌, ◌-◌, ◌*◌, ◌/◌, ◌%◌, ◌^◌, ◌≤◌, ◌<◌, ◌≡◌, refl, ap, true, false, some, List, [],
  ◌∷◌, ◌++◌, ltb, ◌==◌, if◌then◌else◌, arith,
}
use sill_os.Base.Bits.{bit_and-high_mask}
use sill_os.Frame.{frame_size, Entry, align_up, align_down, checked_add}

-- The first frame boundary in a region, and the last one.
abbrev pub start_of : Entry → ℕ
start_of e = (e.base + 4095) / 4096 * 4096

abbrev pub end_of : Entry → ℕ
end_of e = (e.base + e.length) / 4096 * 4096

-- The region lies in the 52 bits of a physical address.
abbrev pub IsPhysical : Entry → Type 0
IsPhysical e = e.base + e.length < 2 ^ 52

abbrev pub AllPhysical : List Entry → Type 0
AllPhysical [] = Unit {0}
AllPhysical (e ∷ es) = IsPhysical e × AllPhysical es

unfoldable pub frames_from : ℕ → ℕ → List ℕ
frames_from a zero = []
frames_from a (suc n) = a ∷ frames_from (a + frame_size) n

-- The whole frames from `a` up to `b`.
abbrev pub frames_between : ℕ → ℕ → List ℕ
frames_between a b = frames_from a ((b - a) / 4096)

pub align_up-start : (e : Entry) → IsPhysical e → align_up e.base frame_size ≡ some (start_of e)
unfolding align_up
align_up-start e h =
    let small : ltb (e.base + 4096) (2 ^ 64) ≡ true = ground arith in
    rw small (
      ap some
        (omega (arith, bit_and-high_mask 12 64 (e.base + 4096 - 1) (omega arith) (omega arith))))

pub align_down-end :
    (e : Entry) → IsPhysical e → align_down (e.base + e.length) frame_size ≡ end_of e
unfolding align_down
align_down-end e h =
    omega (arith, bit_and-high_mask 12 64 (e.base + e.length) (omega arith) (omega arith))

pub checked_add-end :
    (e : Entry) → IsPhysical e → checked_add e.base e.length ≡ some (e.base + e.length)
unfolding checked_add
checked_add-end e h = ground arith

-- A region with a frame left begins with it.
pub frames_between-cons :
    (a b : ℕ)
    → a % 4096 ≡ 0
    → b % 4096 ≡ 0
    → a < b
    → frames_between a b ≡ a ∷ frames_between (a + frame_size) b
unfolding frames_from
frames_between-cons a b ha hb h =
    let e : (b - a) / 4096 ≡ suc ((b - (a + frame_size)) / 4096) = omega arith in rw e

pub frames_between-nil : (a b : ℕ) → b ≤ a → frames_between a b ≡ []
unfolding frames_from
frames_between-nil a b h = let e : (b - a) / 4096 ≡ 0 = omega arith in rw e

module _ (usable : ℕ) where
  unfoldable pub all_frames : List Entry → List ℕ
  all_frames [] = []
  all_frames (e ∷ es) =
      (if e.type_ == usable then frames_between (start_of e) (end_of e) else []) ++ all_frames es

  -- The frames of the regions `es`, where the first one has been used up to `next`.
  unfoldable pub remaining_in : List Entry → ℕ → List ℕ
  unfolding all_frames
  remaining_in [] next = []
  remaining_in (e ∷ es) next =
      (if e.type_ == usable
        then frames_between (if next == 0 then start_of e else next) (end_of e)
        else [])
      ++ all_frames es

  pub remaining_in-zero : (es : List Entry) → remaining_in es 0 ≡ all_frames es
  unfolding remaining_in
  remaining_in-zero [] = refl
  remaining_in-zero (e ∷ es) = refl

  pub remaining_in-unmarked :
      (e : Entry) (es : List Entry) (next : ℕ)
      → (e.type_ == usable) ≡ false
      → remaining_in (e ∷ es) next ≡ remaining_in es 0
  remaining_in-unmarked e es next h = unfold remaining_in in rw (h, remaining_in-zero es)

  pub remaining_in-marked :
      (e : Entry) (es : List Entry) (next : ℕ)
      → (e.type_ == usable) ≡ true
      → remaining_in (e ∷ es) next
        ≡ frames_between (if next == 0 then start_of e else next) (end_of e) ++ remaining_in es 0
  remaining_in-marked e es next h = unfold remaining_in in rw (h, remaining_in-zero es)
