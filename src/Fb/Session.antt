-- ===== src/Fb/Session.antt =====
-- A whole use of src/fb.rs: `init`, then any sequence of its operations.
use sill_os.Base.{
  ℕ, ◌*◌, ◌≤◌, ◌<◌, ◌≡◌, ◌≢◌, ◌⊎◌, ◌∙◌, true, false, none, some, List, [], ◌∷◌, ◌||◌, not, ltb,
  ◌==◌, arith, Bool-cases, if_true, if_false, inl, inr,
}
use sill_os.Fb.{
  Framebuffer, Info, Color, black, put_pixel, clear, draw_rect, copy_rect, scroll_up, present,
  present_full, init, mark_dirty, fill, color_to_u32, max_width, max_height,
}
use sill_os.Fb.Shown.{IsValid, whole-IsValid}
use sill_os.Fb.Draw.{put_pixel-IsValid, clear-IsValid, draw_rect-IsValid}
use sill_os.Fb.CopyRect.{copy_rect-IsValid}
use sill_os.Fb.Scroll.{scroll_up-IsValid}
use sill_os.Fb.Present.{Presented, present-Presented, Presented-IsValid}

-- The operations that change the framebuffer.
pub data Operation : Type 0 where
  draw_pixel : ℕ → ℕ → Color → Operation
  fill_screen : Color → Operation
  draw : ℕ → ℕ → ℕ → ℕ → Color → Operation
  move : ℕ → ℕ → ℕ → ℕ → ℕ → ℕ → Operation
  scroll : ℕ → Color → Operation
  show : Operation
  show_all : Operation

unfoldable pub perform : Operation → Framebuffer → Framebuffer
perform (draw_pixel x y color) s = put_pixel s x y color
perform (fill_screen color) s = clear s color
perform (draw x y width height color) s = draw_rect s x y width height color
perform (move sx sy dx dy width height) s = copy_rect s sx sy dx dy width height
perform (scroll pixels color) s = scroll_up s pixels color
perform show s = present s
perform show_all s = present_full s

unfoldable pub run : List Operation → Framebuffer → Framebuffer
unfolding perform
run [] s = s
run (operation ∷ operations) s = run operations (perform operation s)

present-IsValid : (s : Framebuffer) → IsValid s → IsValid (present s)
present-IsValid s v = Presented-IsValid s v (present s) (present-Presented s v)

perform-IsValid :
    (operation : Operation) (s : Framebuffer) → IsValid s → IsValid (perform operation s)
unfolding perform
perform-IsValid (draw_pixel x y color) s v = put_pixel-IsValid s v x y color
perform-IsValid (fill_screen color) s v = clear-IsValid s v color
perform-IsValid (draw x y width height color) s v = draw_rect-IsValid s v x y width height color
perform-IsValid (move sx sy dx dy width height) s v = copy_rect-IsValid s v sx sy dx dy width height
perform-IsValid (scroll pixels color) s v = scroll_up-IsValid s v pixels color
perform-IsValid show s v = present-IsValid s v
perform-IsValid show_all s v =
    unfold present_full in
    present-IsValid (mark_dirty s 0 0 s.info.width s.info.height) (
      whole-IsValid s
        (record {
          narrow = v.narrow;
          low = v.low;
          wide = v.wide;
          tall = v.tall;
          left = v.wide;
          top = v.tall;
        })
        v.pitch v.inside)

run-IsValid :
    (operations : List Operation) (s : Framebuffer) → IsValid s → IsValid (run operations s)
unfolding run
run-IsValid [] s v = v
run-IsValid (operation ∷ operations) s v =
    run-IsValid operations (perform operation s) (perform-IsValid operation s v)

module _ (info : Info) (bpp : ℕ) (back front : ℕ → ℕ) where
  blank : Framebuffer
  blank = record {
    info = info;
    back = back;
    front = front;
    dirty = false;
    dirty_min_x = 0;
    dirty_min_y = 0;
    dirty_max_x = 0;
    dirty_max_y = 0;
  }

  init-accepts :
      (not (bpp == 32)) ≡ false
      → (info.width == 0 || info.height == 0) ≡ false
      → (ltb max_width info.width || ltb max_height info.height) ≡ false
      → init info bpp back front ≡ some (present (clear blank black))
  init-accepts depth sized fits =
      unfold init blank in if_false _ _ depth ∙ if_false _ _ sized ∙ if_false _ _ fits

  -- What `init` asks of the framebuffer, and that the rows in the front buffer do not overlap.
  pub record Suitable : Type 0 where
    pub depth : bpp ≡ 32
    pub wide : 0 < info.width
    pub tall : 0 < info.height
    pub narrow : info.width ≤ max_width
    pub low : info.height ≤ max_height
    pub pitch : info.width * 4 ≤ info.front_pitch

  module _ (f : Suitable) where
    blank-cleared : IsValid (clear blank black)
    blank-cleared =
        unfold clear blank in
        whole-IsValid
          (record {
            info = info;
            back = fill back 0 (info.width * info.height) (color_to_u32 info black);
            front = front;
            dirty = false;
            dirty_min_x = 0;
            dirty_min_y = 0;
            dirty_max_x = 0;
            dirty_max_y = 0;
          })
          (record {
            narrow = f.narrow;
            low = f.low;
            wide = f.wide;
            tall = f.tall;
            left = f.wide;
            top = f.tall;
          })
          f.pitch (λ d. (omega arith, omega arith))

    -- On a framebuffer of 32 bits per pixel and of a size from 1 × 1 to 1920 × 1080 whose rows do
    -- not overlap, init succeeds; after it and any sequence of operations the front buffer agrees
    -- with the back buffer in all pixels that are not dirty, and one more present leaves nothing
    -- dirty, the back buffer as it is, and every pixel of it in the front buffer.
    pub session-shows :
        (operations : List Operation)
        → (s : Framebuffer) × (init info bpp back front ≡ some s)
          × IsValid (run operations s)
          × Presented (run operations s) (present (run operations s))
    session-shows operations =
        let s = present (clear blank black) in
        let v = run-IsValid operations s (present-IsValid (clear blank black) blank-cleared) in
        (
          s,
          init-accepts (ground (arith, f.depth)) (ground (arith, f.wide, f.tall))
              (ground (arith, f.narrow, f.low)),
          v,
          present-Presented (run operations s) v,
        )

  -- init panics on a framebuffer that has not 32 bits per pixel, has no column or row, or is larger
  -- than 1920 × 1080.
  pub init-refuses :
      (bpp ≢ 32)
        ⊎ (info.width ≡ 0)
        ⊎ (info.height ≡ 0)
        ⊎ (max_width < info.width)
        ⊎ (max_height < info.height)
      → init info bpp back front ≡ none
  init-refuses wrong = elim (Bool-cases (not (bpp == 32))) [
    | inl depth ↦ unfold init in if_true _ _ depth
    | inr right ↦ elim (Bool-cases (info.width == 0 || info.height == 0)) [
      | inl zero_ ↦ unfold init in if_false _ _ right ∙ if_true _ _ zero_
      | inr sized ↦
          let large : (ltb max_width info.width || ltb max_height info.height) ≡ true =
            ground arith in
          unfold init in if_false _ _ right ∙ if_false _ _ sized ∙ if_true _ _ large
    ]
  ]
