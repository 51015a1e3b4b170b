-- ===== src/Shell/Tests.antt =====
-- The shell on a console that has been started, an empty file system and an empty heap.
use native.Mathlib.Nat.{dvd_of_mod-eq-zero}
use sill_os.Base.{
  List, Text, ◌≡◌, refl, none, some, [], ◌∷◌, ◌++◌, text, arith, ◌==◌, if◌then◌else◌, true,
}
use sill_os.Buddy.Tests.{full, nothing, full-IsValid, first_line-fits, line-order}
use sill_os.Fb.{red}
use sill_os.Fb.Named.{from_name}
use sill_os.Fb.Tests.{screen, screen-IsValid}
use sill_os.Font.Tests.{blocks, blocks-HasGlyphs}
use sill_os.Console.{Console, empty, init}
use sill_os.Console.Synced as Synced
use sill_os.Console.Start.{init-Starts}
use sill_os.TempFs as TempFs
use sill_os.TempFs.{file, dir}
use sill_os.TempFs.Session.{session-IsValid, run}
use sill_os.ListAllocator.{is_power_of_two}
use sill_os.Shell.{Kernel}
use sill_os.Shell.Parsing.{split_whitespace, decimal, hexadecimal, padded, parse, from_str_radix}
use sill_os.Shell.Commands.{sort_entries}
use sill_os.Shell.Execute.{execute, unknown_command, receive_key, bytes_from}
use sill_os.Shell.HeapCommands.{free_arguments}
use sill_os.Shell.Printing.{Sound, Kept}
use sill_os.Shell.Keys.{Harmless, typed, receive_key-Kept}
use sill_os.Shell.Words.{join}
use sill_os.Shell.Analyzed.{ended, execute-mem_analyze}
use sill_os.Kmem.Figures.{Machine, percent}
use sill_os.Kmem.Analysis.{banner, region_lines, report}
use sill_os.Kmem.Reported.{Tells}
use sill_os.Kmem.Tests.{entries, types}
use sill_os.Shell.Freed.{Returned, execute-freed}
use sill_os.Shell.Prints.{IsValid, Prints}
use sill_os.Shell.Echoed.{execute-echo}

split-line : split_whitespace (text "  touch  /a ") ≡ text "touch" ∷ text "/a" ∷ []
unfolding split_whitespace
split-line = refl

decimal-number : decimal 4096 ≡ text "4096"
unfolding decimal
decimal-number = refl

hexadecimal-number : hexadecimal 0x444444440040 ≡ text "0x444444440040"
unfolding hexadecimal
hexadecimal-number = refl

parse-overflow : parse (text "18446744073709551616") ≡ none
unfolding parse
parse-overflow = refl

from_str_radix-sign : from_str_radix 16 (text "+fF") ≡ some 255
unfolding from_str_radix
from_str_radix-sign = refl

from_name-red : from_name (text "red") ≡ some red
unfolding from_name
from_name-red = refl

sort_entries-names :
    sort_entries (file (text "b") ∷ dir (text "c") ∷ file (text "a") ∷ [])
    ≡ file (text "a") ∷ file (text "b") ∷ dir (text "c") ∷ []
unfolding sort_entries
sort_entries-names = refl

pub console_started : (c : Console) × (init blocks screen (λ _. empty) ≡ some c) × Synced.IsValid c
console_started =
    let t = init-Starts blocks screen (λ _. empty) blocks-HasGlyphs screen-IsValid in
    (t.0, t.1, t.2)

-- A machine of three regions.
abbrev pub machine : Machine
machine = record {
  offset = some 0x1000;
  entries = some entries;
  types = types;
  cr3_physical = 0x2000;
  cr3_flags = text "Cr3Flags(0x0)";
}

report-not_available :
    report (record machine { offset = none }) ≡ banner ++ text "[HHDM] NOT AVAILABLE" ∷ []
unfolding report
report-not_available = refl

padded-number : padded 0x444444440000 ≡ text "0x0000444444440000"
unfolding padded
padded-number = refl

-- The figure of 505 hundredths has lost a zero.
percent-figure : percent 505 ≡ text "5.5%"
unfolding decimal
percent-figure = refl

region_lines-lines :
    region_lines 0 entries
    ≡ text "  #0: 0x0000000000001000 - 0x0000000000004000 | 12 KiB | type 0"
      ∷ text "  #1: 0x0000000000004000 - 0x0000000000005000 | 4 KiB | type 6"
      ∷ text "  #2: 0x0000000000005000 - 0x0000000000006770 | 5 KiB | type 0"
      ∷ []
unfolding region_lines decimal padded
region_lines-lines = refl

-- The line `ls` has been typed.
abbrev with_line : Console
with_line = record console_started.0 { input = λ i. if i == 0 then 108 else 115; input_len = 2 }

with_line-IsValid : Synced.IsValid with_line
with_line-IsValid =
    let v = console_started.2 in
    record { displays = v.displays; column = v.column; row = v.row; input = omega arith }

abbrev pub kernel : Kernel
kernel = record {
  console = with_line;
  mirror = true;
  serial = [];
  files = run [] TempFs.new;
  heap = full;
}

kernel-IsValid : IsValid kernel
kernel-IsValid = record { console = with_line-IsValid; files = session-IsValid [] }

pub kernel-Sound : Sound kernel
kernel-Sound = record {
  console = with_line-IsValid;
  files = session-IsValid [];
  heap = (16, nothing, full-IsValid);
}

pub ls-Harmless : Harmless (split_whitespace (typed with_line))
unfolding split_whitespace bytes_from
ls-Harmless = (refl, refl, λ e. absurd (cc))

receive_key-Kept_example : Kept (receive_key [] machine kernel 13)
receive_key-Kept_example = receive_key-Kept [] machine kernel kernel-Sound 13 ls-Harmless

execute-echo_example :
    Prints
      (join (text "a" ∷ text "bc" ∷ []) ++ 10 ∷ [])
      kernel
      (execute [] machine kernel (join (text "echo" ∷ text "a" ∷ text "bc" ∷ [])))
execute-echo_example =
    execute-echo [] machine (text "a" ∷ text "bc" ∷ []) kernel kernel-IsValid
      ((refl, tt), ((refl, (refl, tt)), tt))

eight : is_power_of_two 8 ≡ true
unfolding is_power_of_two
eight = refl

execute-freed_example :
    Returned kernel 16 nothing 65536 0
      (execute [] machine kernel (text "dealloc! " ++ free_arguments 65536 64 8))
    × (execute [] machine kernel (text "dealloc " ++ free_arguments 65536 64 8)
        ≡ unknown_command [] machine kernel (text "dealloc"))
execute-freed_example =
    execute-freed [] machine kernel kernel-IsValid 16 nothing full-IsValid 65536 0 64 8
      (omega arith) (dvd_of_mod-eq-zero 64 refl, first_line-fits) (omega arith) eight (omega arith)
      line-order

execute-mem_analyze_example :
    (lines : List Text) × Tells types entries lines
    × Prints (ended lines) kernel (execute [] machine kernel (text "mem-analyze"))
execute-mem_analyze_example =
    execute-mem_analyze [] machine 0x1000 entries refl refl (omega arith) (omega arith) kernel
      kernel-IsValid
