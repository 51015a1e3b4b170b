-- ===== src/Shell/Analyzed.antt =====
-- The command mem-analyze of src/shell.rs.
use sill_os.Base.{◌≡◌, ℕ, ◌^◌, ◌<◌, some, refl, ap, List, [], ◌∷◌, ◌++◌, Text, text, if◌then◌else◌}
use sill_os.Fb.{Color, present}
use sill_os.Fb.Named.{green}
use sill_os.Console.Start.{present-IsValid}
use sill_os.Console.Typing.{write_str-Succeeds}
use sill_os.Kmem.Figures.{Machine}
use sill_os.Frame.{Entry}
use sill_os.Kmem.Totals.{sum_lengths}
use sill_os.Kmem.Reported.{Tells, report-Tells}
use sill_os.Kmem.Analysis.{report}
use sill_os.Shell.{
  Kernel, shown, write_fmt, write_fmt_color, recolor, mirrored, console_println_color,
  print_lines_color,
}
use sill_os.Shell.Parsing.{split_whitespace}
use sill_os.Shell.Execute.{execute, execute_words, dispatch, mem_analyze_cmd}
use sill_os.Shell.Prints.{
  IsValid, with_console-IsValid, foreground-IsValid, Prints, mirrored-Printed, and_then-Prints,
  nothing-Prints,
}

-- Lines, each with a line end.
abbrev pub ended : List Text → Text
ended [] = []
ended (line ∷ lines) = (line ++ 10 ∷ []) ++ ended lines

pub console_println_color-Prints :
    (color : Color) (s : Text) (k : Kernel)
    → IsValid k
    → Prints (s ++ 10 ∷ []) k (console_println_color k color s)
unfolding console_println_color write_fmt_color write_fmt shown recolor mirrored
console_println_color-Prints color s k v =
    let colored = record k.console { foreground = color } in
    let w = foreground-IsValid k v color in
    let (d, e, u, same_input) = write_str-Succeeds colored w.console (s ++ 10 ∷ []) in
    let shown_once = record d { screen = present d.screen } in
    let kept =
      foreground-IsValid (record k { console = shown_once })
        (with_console-IsValid k v shown_once (present-IsValid d u)) k.console.foreground in
    let c = record shown_once {
      foreground = k.console.foreground;
      screen = present shown_once.screen;
    } in
    let m : Kernel = record k { console = c } in
    (
      if k.mirror then record m { serial = m.serial ++ (s ++ 10 ∷ []) } else m,
      ap
          (λ o.
            mirrored (s ++ 10 ∷ [])
              (recolor k.console.foreground (shown (record k { console = colored }) o)))
          e,
      mirrored-Printed k (s ++ 10 ∷ []) v m
          (with_console-IsValid k v c (
            present-IsValid (record shown_once { foreground = k.console.foreground }) kept.console))
          refl refl refl refl k.mirror refl,
    )

pub print_lines_color-Prints :
    (color : Color) (lines : List Text) (k : Kernel)
    → IsValid k
    → Prints (ended lines) k (print_lines_color color lines k)
unfolding print_lines_color
print_lines_color-Prints color [] k v = nothing-Prints k v
print_lines_color-Prints color (line ∷ lines) k v =
    and_then-Prints (line ++ 10 ∷ []) (ended lines) k (console_println_color k color line)
      (print_lines_color color lines) (console_println_color-Prints color line k v)
      (print_lines_color-Prints color lines)

-- On a kernel whose console and file system are valid, and a machine whose boot loader has answered
-- both requests, with a memory map of entries that together have at least one byte and fewer than 2
-- ^ 64: the command mem-analyze returns. It prints lines among which are the sum of the lengths in
-- KiB and MiB, that of the usable entries in MiB, their share in hundredths of a percent, rounded
-- down, the highest address and the span of the addresses, and for each entry a line with its
-- number, start, end, length and type. The console and the file system are left valid, the serial
-- port has received the lines, each with a line end, if the mirror is on and nothing otherwise, and
-- the mirror, the files and the heap are as before.
pub execute-mem_analyze :
    (stack_frame : Text) (machine : Machine) (offset : ℕ) (es : List Entry)
    → machine.offset ≡ some offset
    → machine.entries ≡ some es
    → sum_lengths es < 2 ^ 64
    → 0 < sum_lengths es
    → (k : Kernel) → IsValid k
    → (lines : List Text) × Tells machine.types es lines
      × Prints (ended lines) k (execute stack_frame machine k (text "mem-analyze"))
unfolding execute execute_words dispatch split_whitespace mem_analyze_cmd
execute-mem_analyze stack_frame machine offset es answered mapped fits some_byte k v = (
  report machine,
  report-Tells machine offset es answered mapped fits some_byte,
  print_lines_color-Prints green (report machine) k v,
)
