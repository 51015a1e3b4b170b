-- ===== src/Shell/Kept.antt =====
-- The commands of src/shell.rs keep the kernel valid.
use sill_os.Base.{◌≡◌, ◌++◌, refl, Option, none, some, List, [], ◌∷◌, Text, text, not}
use sill_os.Fb.{Color, black}
use sill_os.Fb.Named.{green, from_name}
use sill_os.Console.{Console}
use sill_os.Console as Console
use sill_os.Console.Synced as Synced
use sill_os.Console.Start.{clear-Clears}
use sill_os.TempFs.{Entry, file, dir, Result, ok, err, Done, TmpFs, list_entries}
use sill_os.TempFs.Tree as Tree
use sill_os.TempFs.Session.{mkdir-IsValid, touch-IsValid}
use sill_os.Shell.{Kernel, rebooting, exiting, console_println}
use sill_os.Shell.Commands.{
  help, ls, ls_path, print_entry, print_entries, sort_entries, changed, mkdir, touch, clearterm,
  echo, echo_args, echo_rest, toggle_serial, info, sven, shutdown, setbg, setfg, cleared,
}
use sill_os.Shell.Printing.{
  Sound, Kept, runs, reboots, exits, and_then-Kept, shown-Kept, with_console-Sound,
  foreground-Sound, console_print-Kept, console_println-Kept, console_println_color-Kept,
  print_lines-Kept,
}

-- Only the file system has changed.
files-Sound :
    (k : Kernel)
    → Sound k
    → (files : TmpFs) → Tree.IsValid files
    → Sound (record k { files = files })
files-Sound k v files w = record { console = v.console; files = w; heap = v.heap }

print_entry-Kept : (e : Entry) (k : Kernel) → Sound k → Kept (print_entry k e)
unfolding print_entry
print_entry-Kept (dir name) k v = console_println_color-Kept k v _ _
print_entry-Kept (file name) k v = console_println-Kept k v name

print_entries-Kept : (es : List Entry) (k : Kernel) → Sound k → Kept (print_entries es k)
unfolding print_entries
print_entries-Kept [] k v = runs k v
print_entries-Kept (e ∷ es) k v =
    and_then-Kept (print_entries es) (print_entry-Kept e k v) (print_entries-Kept es)

echo_rest-Kept : (args : List Text) (k : Kernel) → Sound k → Kept (echo_rest args k)
unfolding echo_rest
echo_rest-Kept [] k v = runs k v
echo_rest-Kept (arg ∷ args) k v =
    and_then-Kept _ (console_print-Kept k v (text " "))
      λ j w. and_then-Kept (echo_rest args) (console_print-Kept j w arg) (echo_rest-Kept args)

echo_args-Kept : (args : List Text) (k : Kernel) → Sound k → Kept (echo_args args k)
unfolding echo_args
echo_args-Kept [] k v = runs k v
echo_args-Kept (arg ∷ args) k v =
    and_then-Kept (echo_rest args) (console_print-Kept k v arg) (echo_rest-Kept args)

-- A colour for `setbg` that is not known, or black.
abbrev pub KeepsBlack : List Text → Type 0
KeepsBlack [] = Unit {0}
KeepsBlack (name ∷ args) = (color : Color) → from_name name ≡ some color → color ≡ black

module _ (k : Kernel) (v : Sound k) where
  pub help-Kept : Kept (help k)
  unfolding help
  help-Kept = print_lines-Kept _ k v

  ls_path-Kept : (path : Text) → Kept (ls_path k path)
  unfolding ls_path
  ls_path-Kept path =
      elim (list_entries k.files path)
        as (λ r. Kept (elim r [
          | ok entries ↦ print_entries (sort_entries entries) k
          | err e ↦
              console_println k (text "ls: cannot access '" ++ path ++ text "': No such directory")
        ])) [
          | ok entries ↦ print_entries-Kept (sort_entries entries) k v
          | err e ↦ console_println-Kept k v _
        ]

  pub ls-Kept : (args : List Text) → Kept (ls k args)
  unfolding ls
  ls-Kept [] = ls_path-Kept (text "/")
  ls-Kept (path ∷ args) = ls_path-Kept path

  changed-Kept :
      (r : TmpFs × Result Done) (message : Text) → Tree.IsValid r.0 → Kept (changed k r message)
  unfolding changed
  changed-Kept (files, ok d) message w = runs _ (files-Sound k v files w)
  changed-Kept (files, err e) message w =
      console_println-Kept (record k { files = files }) (files-Sound k v files w) message

  pub mkdir-Kept : (args : List Text) → Kept (mkdir k args)
  unfolding mkdir
  mkdir-Kept [] = console_println-Kept k v _
  mkdir-Kept (path ∷ args) = changed-Kept _ _ (mkdir-IsValid k.files v.files path)

  pub touch-Kept : (args : List Text) → Kept (touch k args)
  unfolding touch
  touch-Kept [] = console_println-Kept k v _
  touch-Kept (path ∷ args) = changed-Kept _ _ (touch-IsValid k.files v.files path)

  pub clearterm-Kept : Kept (clearterm k)
  unfolding clearterm
  clearterm-Kept =
      shown-Kept k v _ (Console.clear k.console, refl, (clear-Clears k.console v.console).0)

  pub echo-Kept : (args : List Text) → Kept (echo k args)
  unfolding echo
  echo-Kept args = and_then-Kept _ (echo_args-Kept args k v) λ j w. console_println-Kept j w []

  pub toggle_serial-Kept : Kept (toggle_serial k)
  unfolding toggle_serial
  toggle_serial-Kept =
      console_println_color-Kept (record k { mirror = not k.mirror })
        (record { console = v.console; files = v.files; heap = v.heap }) green _

  pub info-Kept : Kept (info k)
  unfolding info
  info-Kept = print_lines-Kept _ k v

  pub sven-Kept : Kept (sven k)
  unfolding sven
  sven-Kept = and_then-Kept rebooting (print_lines-Kept _ k v) λ j w. reboots j

  pub shutdown-Kept : Kept (shutdown k)
  unfolding shutdown
  shutdown-Kept = and_then-Kept exiting (print_lines-Kept _ k v) λ j w. exits j

  cleared-Kept : (c : Console) → Synced.IsValid c → Kept (cleared k c)
  unfolding cleared
  cleared-Kept c w = runs _ (with_console-Sound k v (Console.clear c) (clear-Clears c w).0)

  -- The console with another background, if that is black as well.
  background-IsValid :
      (color : Color) → color ≡ black → Synced.IsValid (record k.console { background = color })
  background-IsValid color e =
      let d = v.console.displays in
      record {
        displays = record {
          glyphs = d.glyphs;
          valid = d.valid;
          narrow = d.narrow;
          low = d.low;
          wide = d.wide;
          tall = d.tall;
          plain = e;
          shown = d.shown;
        };
        column = v.console.column;
        row = v.console.row;
        input = v.console.input;
      }

  pub setbg-Kept : (args : List Text) → KeepsBlack args → Kept (setbg k args)
  unfolding setbg
  setbg-Kept [] h = print_lines-Kept _ k v
  setbg-Kept (name ∷ args) h = chosen (from_name name) h
    where
      chosen :
          (o : Option Color)
          → ((color : Color) → o ≡ some color → color ≡ black)
          → Kept (elim o [
            | none ↦ console_println k (text "Unknown color: " ++ name)
            | some color ↦ cleared k (record k.console { background = color })
          ])
      chosen none p = console_println-Kept k v _
      chosen (some color) p = cleared-Kept _ (background-IsValid color (p color refl))

  pub setfg-Kept : (args : List Text) → Kept (setfg k args)
  unfolding setfg
  setfg-Kept [] = print_lines-Kept _ k v
  setfg-Kept (name ∷ args) = chosen (from_name name)
    where
      chosen :
          (o : Option Color)
          → Kept (elim o [
            | none ↦ console_println k (text "Unknown color: " ++ name)
            | some color ↦ cleared k (record k.console { foreground = color })
          ])
      chosen none = console_println-Kept k v _
      chosen (some color) = cleared-Kept _ (foreground-Sound k v color).console
