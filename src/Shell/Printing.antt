-- ===== src/Shell/Printing.antt =====
-- Printing by the macros of src/console.rs keeps the kernel valid.
use sill_os.Base.{
  ◌≡◌, ◌++◌, sym, subst, Bool, true, false, Option, List, [], ◌∷◌, Text, Bool-cases, inl, inr,
  if◌then◌else◌, if_true, if_false,
}
use sill_os.Buddy.Valid.{HeapValid}
use sill_os.Fb.{Color, present}
use sill_os.Console.{Console, write_str}
use sill_os.Console.Synced as Synced
use sill_os.Console.Input.{Runs}
use sill_os.Console.Typing.{write_str-Succeeds}
use sill_os.Console.Start.{present-IsValid}
use sill_os.TempFs.Tree as Tree
use sill_os.Shell.{
  Kernel, End, running, rebooting, exiting, and_then, shown, write_fmt, recolor, write_fmt_color,
  mirrored, console_print, console_println, console_println_color, print_lines, print_lines_color,
}

-- The console, the file system and the heap are valid.
pub record Sound (k : Kernel) : Type 0 where
  pub console : Synced.IsValid k.console
  pub files : Tree.IsValid k.files
  pub heap : HeapValid k.heap

-- The call returns in a valid state, or calls what does not return.
pub data Kept : End → Type 0 where
  runs : (k : Kernel) → Sound k → Kept (running k)
  reboots : (k : Kernel) → Kept (rebooting k)
  exits : (k : Kernel) → Kept (exiting k)

pub and_then-Kept :
    {e : End} (next : Kernel → End)
    → Kept e
    → ((k : Kernel) → Sound k → Kept (next k))
    → Kept (and_then e next)
and_then-Kept next (runs k v) h = h k v
and_then-Kept next (reboots k) h = reboots k
and_then-Kept next (exits k) h = exits k

pub if-Kept :
    (b : Bool) (x y : End) → (b ≡ true → Kept x) → (b ≡ false → Kept y) → Kept (if b then x else y)
if-Kept b x y h g = elim (Bool-cases b) [
  | inl e ↦ subst Kept (sym (if_true x y e)) (h e)
  | inr e ↦ subst Kept (sym (if_false x y e)) (g e)
]

module _ (k : Kernel) (v : Sound k) where
  pub with_console-Sound : (c : Console) → Synced.IsValid c → Sound (record k { console = c })
  with_console-Sound c w = record { console = w; files = v.files; heap = v.heap }

  pub shown-Kept : (r : Option Console) → Runs r → Kept (shown k r)
  unfolding shown
  shown-Kept r (d, e, w) =
      subst (λ o. Kept (shown k o)) (sym e)
        (runs (record k { console = record d { screen = present d.screen } })
          (with_console-Sound (record d { screen = present d.screen }) (present-IsValid d w)))

  pub write_fmt-Kept : (s : Text) → Kept (write_fmt k s)
  unfolding write_fmt
  write_fmt-Kept s =
      let (d, e, w, same) = write_str-Succeeds k.console v.console s in
      shown-Kept (write_str k.console s) (d, e, w)

  -- The colour of the text is not part of what the screen has to show.
  pub foreground-Sound :
      (color : Color) → Sound (record k { console = record k.console { foreground = color } })
  foreground-Sound color = record {
    console = record {
      displays = v.console.displays;
      column = v.console.column;
      row = v.console.row;
      input = v.console.input;
    };
    files = v.files;
    heap = v.heap;
  }

recolor-Kept : {e : End} (color : Color) → Kept e → Kept (recolor color e)
unfolding recolor
recolor-Kept color (runs k v) =
    let w = foreground-Sound k v color in
    runs _ (
      with_console-Sound k v
        (record k.console { foreground = color; screen = present k.console.screen })
        (present-IsValid (record k.console { foreground = color }) w.console))
recolor-Kept color (reboots k) = reboots k
recolor-Kept color (exits k) = exits k

mirrored-Kept : {e : End} (s : Text) → Kept e → Kept (mirrored s e)
unfolding mirrored
mirrored-Kept s (runs k v) = runs _ (elim (Bool-cases k.mirror) [
  | inl on ↦
      subst Sound (sym (if_true (record k { serial = k.serial ++ s }) k on))
        (record { console = v.console; files = v.files; heap = v.heap })
  | inr off ↦ subst Sound (sym (if_false (record k { serial = k.serial ++ s }) k off)) v
])
mirrored-Kept s (reboots k) = reboots k
mirrored-Kept s (exits k) = exits k

module _ (k : Kernel) (v : Sound k) where
  pub console_print-Kept : (s : Text) → Kept (console_print k s)
  unfolding console_print
  console_print-Kept s = mirrored-Kept s (write_fmt-Kept k v s)

  pub console_println-Kept : (s : Text) → Kept (console_println k s)
  unfolding console_println
  console_println-Kept s = console_print-Kept (s ++ 10 ∷ [])

  pub console_println_color-Kept :
      (color : Color) (s : Text) → Kept (console_println_color k color s)
  unfolding console_println_color write_fmt_color
  console_println_color-Kept color s = mirrored-Kept (s ++ 10 ∷ []) (
      recolor-Kept k.console.foreground (
        write_fmt-Kept (record k { console = record k.console { foreground = color } })
          (foreground-Sound k v color) (s ++ 10 ∷ [])))

pub print_lines-Kept : (lines : List Text) (k : Kernel) → Sound k → Kept (print_lines lines k)
unfolding print_lines
print_lines-Kept [] k v = runs k v
print_lines-Kept (line ∷ lines) k v =
    and_then-Kept (print_lines lines) (console_println-Kept k v line) (print_lines-Kept lines)

pub print_lines_color-Kept :
    (color : Color) (lines : List Text) (k : Kernel)
    → Sound k
    → Kept (print_lines_color color lines k)
unfolding print_lines_color
print_lines_color-Kept color [] k v = runs k v
print_lines_color-Kept color (line ∷ lines) k v =
    and_then-Kept (print_lines_color color lines) (console_println_color-Kept k v color line)
      (print_lines_color-Kept color lines)
