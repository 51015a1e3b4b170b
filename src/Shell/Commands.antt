-- ===== src/Shell/Commands.antt =====
-- The commands of src/shell.rs, and `execute`.
use sill_os.Base.{none, some, List, [], ◌∷◌, ◌++◌, not, if◌then◌else◌, Text, text}
use sill_os.Fb.Named.{green, blue, from_name}
use sill_os.Console as Console
use sill_os.TempFs.{Entry, file, dir, Result, ok, err, Done, TmpFs, before, list_entries}
use sill_os.TempFs as TempFs
use sill_os.Shell.{
  Kernel, End, running, rebooting, exiting, shown, and_then, console_print, console_println,
  console_println_color, print_lines,
}
use sill_os.Shell.Parsing.{decimal}

help_lines : List Text
help_lines =
    text "Available commands:"
    ∷ text "  help       - Show this help"
    ∷ text "  clear      - Clear the screen"
    ∷ text "  echo       - Print text"
    ∷ text "  info       - Show system information"
    ∷ text "  panic      - Intentionally throws a kernel panic"
    ∷ text "  bp         - Sets and steps over a breakpoint"
    ∷ text "  reboot     - Reboots the machine."
    ∷ text "  shutdown   - Shuts the computer down."
    ∷ text "  exit       - Shuts the computer down."
    ∷ text "  setbg      - Sets the background color."
    ∷ text "  setfg      - Sets the foreground color."
    ∷ text "  tg-serial  - Toggles priting kTerm output to serial."
    ∷ text "  alloc!     - Allocate N bytes, prints a pointer"
    ∷ text "  dealloc!   - Free a pointer previously returned by alloc"
    ∷ text "  ls         - List directory contents"
    ∷ text "  mkdir      - Create a directory"
    ∷ text "  touch      - Create an empty file"
    ∷ []

unfoldable pub help : Kernel → End
unfolding help_lines
help k = print_lines help_lines k

abbrev pub name_of : Entry → Text
name_of (file name) = name
name_of (dir name) = name

-- `sort_by` on the names: stable, here by insertion.
unfoldable pub insert_entry : Entry → List Entry → List Entry
insert_entry e [] = e ∷ []
insert_entry e (f ∷ entries) =
    let later = f ∷ insert_entry e entries in
    if before (name_of f) (name_of e) then later else e ∷ f ∷ entries

unfoldable pub sort_entries : List Entry → List Entry
unfolding insert_entry
sort_entries [] = []
sort_entries (e ∷ entries) = insert_entry e (sort_entries entries)

unfoldable pub print_entry : Kernel → Entry → End
print_entry k (dir name) = console_println_color k blue (name ++ text "/")
print_entry k (file name) = console_println k name

-- The loop of `ls`.
unfoldable pub print_entries : List Entry → Kernel → End
unfolding print_entry
print_entries [] k = running k
print_entries (e ∷ entries) k = and_then (print_entry k e) (print_entries entries)

unfoldable pub ls_path : Kernel → Text → End
unfolding print_entries sort_entries
ls_path k path = elim (list_entries k.files path) [
  | ok entries ↦ print_entries (sort_entries entries) k
  | err e ↦ console_println k (text "ls: cannot access '" ++ path ++ text "': No such directory")
]

unfoldable pub ls : Kernel → List Text → End
unfolding ls_path
ls k [] = ls_path k (text "/")
ls k (path ∷ args) = ls_path k path

-- A change of the file system, with the message if it failed.
unfoldable pub changed : Kernel → TmpFs × Result Done → Text → End
changed k (files, ok d) message = running (record k { files = files })
changed k (files, err e) message = console_println (record k { files = files }) message

unfoldable pub mkdir : Kernel → List Text → End
unfolding changed
mkdir k [] = console_println k (text "Usage: mkdir <path>")
mkdir k (path ∷ args) =
    changed k (TempFs.mkdir k.files path) (
      text "mkdir: cannot create directory '" ++ path ++ text "': already exists or parent missing")

unfoldable pub touch : Kernel → List Text → End
unfolding changed
touch k [] = console_println k (text "Usage: touch <path>")
touch k (path ∷ args) =
    changed k (TempFs.touch k.files path)
      (text "touch: cannot create '" ++ path ++ text "': is a directory or parent missing")

unfoldable pub clearterm : Kernel → End
clearterm k = shown k (some (Console.clear k.console))

-- The loop of `echo`, after the first argument.
unfoldable pub echo_rest : List Text → Kernel → End
echo_rest [] k = running k
echo_rest (arg ∷ args) k =
    and_then (console_print k (text " ")) (λ j. and_then (console_print j arg) (echo_rest args))

unfoldable pub echo_args : List Text → Kernel → End
unfolding echo_rest
echo_args [] k = running k
echo_args (arg ∷ args) k = and_then (console_print k arg) (echo_rest args)

unfoldable pub echo : Kernel → List Text → End
unfolding echo_args
echo k args = and_then (echo_args args k) (λ j. console_println j [])

unfoldable pub toggle_serial : Kernel → End
toggle_serial k =
    console_println_color (record k { mirror = not k.mirror }) green
      (text "Toggled serial mirroring")

unfoldable pub info : Kernel → End
info k =
    print_lines
      (text "SillOS"
        ∷ text "Architecture: x86_64"
        ∷ text "Bootloader: Limine"
        ∷ (text "Framebuffer: "
            ++ decimal k.console.screen.info.width
            ++ text "x"
            ++ decimal k.console.screen.info.height)
        ∷ [])
      k

unfoldable pub sven : Kernel → End
sven k =
    and_then
      (print_lines
        (text "This command is dedicated to my friend bunny, sven!"
          ∷ text "Say bye bye to your pc :)"
          ∷ [])
        k)
      rebooting

unfoldable pub shutdown : Kernel → End
shutdown k =
    and_then
      (print_lines
        (text "There currently is no support for acpi shutdown."
          ∷ text "However, qemu will close normally."
          ∷ [])
        k)
      exiting

-- `setbg` and `setfg` clear the console with the new colour, and show it with the next prompt.
unfoldable pub cleared : Kernel → Console.Console → End
cleared k c = running (record k { console = Console.clear c })

unfoldable pub setbg : Kernel → List Text → End
unfolding cleared
setbg k [] = print_lines (text "Incorrect usage!" ∷ text "Usage: setbg <color>" ∷ []) k
setbg k (color_name ∷ args) = elim (from_name color_name) [
  | none ↦ console_println k (text "Unknown color: " ++ color_name)
  | some color ↦ cleared k (record k.console { background = color })
]

unfoldable pub setfg : Kernel → List Text → End
unfolding cleared
setfg k [] = print_lines (text "Incorrect usage!" ∷ text "Usage: setfg <color>" ∷ []) k
setfg k (color_name ∷ args) = elim (from_name color_name) [
  | none ↦ console_println k (text "Unknown color: " ++ color_name)
  | some color ↦ cleared k (record k.console { foreground = color })
]
