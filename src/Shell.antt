-- ===== src/Shell.antt =====
-- The shell, src/shell.rs, and the functions of src/console.rs that stand between the keyboard, the
-- console and it. The breakpoint's handler is that of src/int.rs.
pub mod Parsing
pub mod Commands
pub mod HeapCommands
pub mod Execute
pub mod Words
pub mod Numbers
pub mod Printing
pub mod Kept
pub mod HeapKept
pub mod Keys
pub mod Freed
pub mod Prints
pub mod Echoed
pub mod Analyzed
pub mod Tests
use sill_os.Base.{
  ℕ, zero, suc, ◌+◌, Bool, true, false, Option, none, some, List, [], ◌∷◌, ◌++◌, ◌||◌, not, ◌==◌,
  if◌then◌else◌, Text,
}
use sill_os.Buddy.{BuddyAllocator}
use sill_os.Fb.{Color, present}
use sill_os.Console.{Console, write_str}
use sill_os.TempFs.{TmpFs}

-- The console, SERIAL_MIRROR, what the serial port has sent, the file system FS and the heap. They are
-- apart: what FS itself takes from the heap, and may find used up, is left out.
pub record Kernel : Type 0 where
  pub console : Console
  pub mirror : Bool
  pub serial : Text
  pub files : TmpFs
  pub heap : BuddyAllocator

-- What a call ends in: it returns, it panics, or it calls `acpi::reboot` or `exit_qemu`, which do
-- not return.
pub data End : Type 0 where
  running : Kernel → End
  panicked : End
  rebooting : Kernel → End
  exiting : Kernel → End

-- One statement after another.
abbrev pub and_then : End → (Kernel → End) → End
and_then (running k) next = next k
and_then panicked next = panicked
and_then (rebooting k) next = rebooting k
and_then (exiting k) next = exiting k

-- A console after a call that may panic, shown.
unfoldable pub shown : Kernel → Option Console → End
shown k none = panicked
shown k (some c) = running (record k { console = record c { screen = present c.screen } })

unfoldable pub write_fmt : Kernel → Text → End
unfolding shown
write_fmt k s = shown k (write_str k.console s)

-- The foreground is set back, and the screen shown again.
unfoldable pub recolor : Color → End → End
recolor color (running k) = running (record k {
  console = record k.console { foreground = color; screen = present k.console.screen };
})
recolor color panicked = panicked
recolor color (rebooting k) = rebooting k
recolor color (exiting k) = exiting k

unfoldable pub write_fmt_color : Kernel → Color → Text → End
unfolding recolor write_fmt
write_fmt_color k color s =
    recolor k.console.foreground
      (write_fmt (record k { console = record k.console { foreground = color } }) s)

-- The text goes to the serial port too, if that is switched on.
unfoldable pub mirrored : Text → End → End
mirrored s (running k) = running (if k.mirror then record k { serial = k.serial ++ s } else k)
mirrored s panicked = panicked
mirrored s (rebooting k) = rebooting k
mirrored s (exiting k) = exiting k

-- The macros of the same names.
unfoldable pub console_print : Kernel → Text → End
unfolding mirrored write_fmt
console_print k s = mirrored s (write_fmt k s)

unfoldable pub console_println : Kernel → Text → End
unfolding console_print
console_println k s = console_print k (s ++ 10 ∷ [])

unfoldable pub console_println_color : Kernel → Color → Text → End
unfolding mirrored write_fmt_color
console_println_color k color s = mirrored (s ++ 10 ∷ []) (write_fmt_color k color (s ++ 10 ∷ []))

-- Lines, printed one after another.
unfoldable pub print_lines : List Text → Kernel → End
unfolding console_println
print_lines [] k = running k
print_lines (line ∷ lines) k = and_then (console_println k line) (print_lines lines)

unfoldable pub print_lines_color : Color → List Text → Kernel → End
unfolding console_println_color
print_lines_color color [] k = running k
print_lines_color color (line ∷ lines) k =
    and_then (console_println_color k color line) (print_lines_color color lines)
