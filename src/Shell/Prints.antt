-- ===== src/Shell/Prints.antt =====
-- What the printing macros of src/console.rs print.
use mathlib.Core.List.{append-nil, append_assoc}
use sill_os.Base.{
  ◌≡◌, ◌∙◌, refl, sym, ap, subst, Bool, true, false, [], ◌∷◌, ◌++◌, Text, if_true, if_false,
  if◌then◌else◌,
}
use sill_os.Fb.{Color, present}
use sill_os.Console.Typing.{write_str-Succeeds}
use sill_os.Console.Start.{present-IsValid}
use sill_os.Shell.{
  Kernel, End, running, and_then, shown, write_fmt, mirrored, console_print, console_println,
}
use sill_os.TempFs.Tree as Tree
use sill_os.Console.{Console}
use sill_os.Console.Synced as Synced

-- The console and the file system are valid.
pub record IsValid (k : Kernel) : Type 0 where
  pub console : Synced.IsValid k.console
  pub files : Tree.IsValid k.files

module _ (k : Kernel) (v : IsValid k) where
  pub with_console-IsValid : (c : Console) → Synced.IsValid c → IsValid (record k { console = c })
  with_console-IsValid c w = record { console = w; files = v.files }

  -- The colour of the text is not part of what the screen has to show.
  pub foreground-IsValid :
      (color : Color) → IsValid (record k { console = record k.console { foreground = color } })
  foreground-IsValid color = record {
    console = record {
      displays = v.console.displays;
      column = v.console.column;
      row = v.console.row;
      input = v.console.input;
    };
    files = v.files;
  }

-- The text has gone to the console, and to the serial port if the mirror is on. Nothing else of the
-- kernel has changed.
pub record Printed (s : Text) (k j : Kernel) : Type 0 where
  pub valid : IsValid j
  pub mirror : j.mirror ≡ k.mirror
  pub serial : j.serial ≡ (if k.mirror then k.serial ++ s else k.serial)
  pub files : j.files ≡ k.files
  pub heap : j.heap ≡ k.heap

abbrev pub Prints : Text → Kernel → End → Type 0
Prints s k e = (j : Kernel) × (e ≡ running j) × Printed s k j

module _ (k : Kernel) (s : Text) (v : IsValid k) where
  pub mirrored-Printed :
      (m : Kernel)
      → IsValid m
      → m.mirror ≡ k.mirror
      → m.serial ≡ k.serial
      → m.files ≡ k.files
      → m.heap ≡ k.heap
      → (b : Bool) → k.mirror ≡ b
      → Printed s k (if b then record m { serial = m.serial ++ s } else m)
  mirrored-Printed m w mirror serial files heap true e = record {
    valid = record { console = w.console; files = w.files };
    mirror = mirror;
    serial = ap (λ (t : Text). t ++ s) serial ∙ sym (if_true _ _ e);
    files = files;
    heap = heap;
  }
  mirrored-Printed m w mirror serial files heap false e = record {
    valid = w;
    mirror = mirror;
    serial = serial ∙ sym (if_false _ _ e);
    files = files;
    heap = heap;
  }

  pub console_print-Prints : Prints s k (console_print k s)
  unfolding console_print mirrored write_fmt shown
  console_print-Prints =
      let (d, e, w, same_input) = write_str-Succeeds k.console v.console s in
      let c = record d { screen = present d.screen } in
      let m : Kernel = record k { console = c } in
      (
        if k.mirror then record m { serial = m.serial ++ s } else m,
        ap (λ o. mirrored s (shown k o)) e,
        mirrored-Printed m (with_console-IsValid k v c (present-IsValid d w)) refl refl refl refl
            k.mirror refl,
      )

pub console_println-Prints :
    (k : Kernel) (s : Text) → IsValid k → Prints (s ++ 10 ∷ []) k (console_println k s)
unfolding console_println
console_println-Prints k s v = console_print-Prints k (s ++ 10 ∷ []) v

serial_trans :
    (b : Bool) (s t first second third : Text)
    → second ≡ (if b then first ++ s else first)
    → third ≡ (if b then second ++ t else second)
    → third ≡ (if b then first ++ (s ++ t) else first)
serial_trans true s t first second third p q =
    q ∙ ap (λ (u : Text). u ++ t) p ∙ append_assoc first s t
serial_trans false s t first second third p q = q ∙ p

Printed-trans : (s t : Text) (k j i : Kernel) → Printed s k j → Printed t j i → Printed (s ++ t) k i
Printed-trans s t k j i p q = record {
  valid = q.valid;
  mirror = q.mirror ∙ p.mirror;
  serial =
      serial_trans k.mirror s t k.serial j.serial i.serial p.serial
        (subst (λ b. i.serial ≡ (if b then j.serial ++ t else j.serial)) p.mirror q.serial);
  files = q.files ∙ p.files;
  heap = q.heap ∙ p.heap;
}

pub and_then-Prints :
    (s t : Text) (k : Kernel) (e : End) (next : Kernel → End)
    → Prints s k e
    → ((j : Kernel) → IsValid j → Prints t j (next j))
    → Prints (s ++ t) k (and_then e next)
and_then-Prints s t k e next (j, finished, p) h =
    let (i, later, q) = h j p.valid in
    (i, ap (λ (r : End). and_then r next) finished ∙ later, Printed-trans s t k j i p q)

pub nothing-Prints : (k : Kernel) → IsValid k → Prints [] k (running k)
nothing-Prints k v = (
  k,
  refl,
  record {
    valid = v;
    mirror = refl;
    serial = unchanged k.mirror k.serial;
    files = refl;
    heap = refl;
  },
)
  where
    unchanged : (b : Bool) (t : Text) → t ≡ (if b then t ++ [] else t)
    unchanged true t = sym (append-nil t)
    unchanged false t = refl
