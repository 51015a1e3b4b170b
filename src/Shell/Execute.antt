-- ===== src/Shell/Execute.antt =====
-- `execute` of src/shell.rs, and `receive_key` of src/console.rs, which runs it on a line.
use sill_os.Base.{
  ℕ, zero, suc, ◌+◌, Option, none, some, List, [], ◌∷◌, ◌++◌, ◌||◌, ◌==◌, if◌then◌else◌, Text, text,
  same,
}
use sill_os.Fb.{red}
use sill_os.Fb.Named.{green}
use sill_os.Console as Console
use sill_os.Console.{Console, input_size, write_str, read_line}
use sill_os.Kmem.Figures.{Machine}
use sill_os.Kmem.Analysis.{report}
use sill_os.Shell.{
  Kernel, End, running, panicked, rebooting, and_then, shown, print_lines, print_lines_color,
}
use sill_os.Shell.Parsing.{split_whitespace}
use sill_os.Shell.Commands.{
  help, clearterm, echo, info, sven, shutdown, setbg, setfg, toggle_serial, ls, mkdir, touch,
}
use sill_os.Shell.HeapCommands.{alloc_cmd, dealloc_cmd}

-- The first `n` bytes of a buffer, from `i` on.
unfoldable pub bytes_from : (ℕ → ℕ) → ℕ → ℕ → Text
bytes_from buffer i zero = []
bytes_from buffer i (suc n) = buffer i ∷ bytes_from buffer (i + 1) n

-- The prompt after a command, and `present`.
unfoldable pub prompt : Kernel → End
prompt k = shown k (write_str k.console (text "> "))

-- `stack_frame` is the text in which the crate prints an interrupt's stack frame, and `machine` what
-- the boot loader and the processor say of this machine.
module _ (stack_frame : Text) (machine : Machine) where
  -- The breakpoint's handler, after which `bp` returns.
  unfoldable pub breakpoint_handler : Kernel → End
  breakpoint_handler k =
      print_lines_color red (text "EXCEPTION: BREAKPOINT" ∷ stack_frame ∷ []) (record k {
        serial = k.serial ++ (text "EXCEPTION: BREAKPOINT" ++ 10 ∷ (stack_frame ++ 10 ∷ []));
      })

  unfoldable pub mem_analyze_cmd : Kernel → End
  unfolding report
  mem_analyze_cmd k = print_lines_color green (report machine) k

  unfoldable pub unknown_command : Kernel → Text → End
  unknown_command k command =
      print_lines
        ((text "Unknown command: " ++ command) ∷ text "Type 'help' for a list of commands." ∷ []) k

  -- The `match` on the command.
  unfoldable pub dispatch : Kernel → Text → List Text → End
  unfolding breakpoint_handler mem_analyze_cmd unknown_command
  dispatch k command args =
      if same command (text "help")
      then help k
      else if same command (text "clear")
      then clearterm k
      else if same command (text "echo")
      then echo k args
      else if same command (text "info")
      then info k
      else if same command (text "panic")
      then panicked
      else if same command (text "bp")
      then breakpoint_handler k
      else if same command (text "sven")
      then sven k
      else if same command (text "reboot")
      then rebooting k
      else if same command (text "shutdown")
      then shutdown k
      else if same command (text "exit")
      then shutdown k
      else if same command (text "setbg")
      then setbg k args
      else if same command (text "setfg")
      then setfg k args
      else if same command (text "mem-analyze")
      then mem_analyze_cmd k
      else if same command (text "tg-serial")
      then toggle_serial k
      else if same command (text "alloc!")
      then alloc_cmd k args
      else if same command (text "dealloc!")
      then dealloc_cmd k args
      else if same command (text "ls")
      then ls k args
      else if same command (text "mkdir")
      then mkdir k args
      else if same command (text "touch")
      then touch k args
      else unknown_command k command

  unfoldable pub execute_words : Kernel → List Text → End
  unfolding dispatch
  execute_words k [] = running k
  execute_words k (command ∷ args) = dispatch k command args

  unfoldable pub execute : Kernel → Text → End
  unfolding execute_words
  execute k line = execute_words k (split_whitespace line)

  -- What `read_line` returns: the console, the buffer and the length of the line, if it is ready.
  unfoldable pub run_line : Kernel → Console × (ℕ → ℕ) × Option ℕ → End
  unfolding execute bytes_from prompt
  run_line k (c, buffer, none) = shown k (some c)
  run_line k (c, buffer, some length) =
      and_then (execute (record k { console = c }) (bytes_from buffer 0 length)) prompt

  unfoldable pub end_line : Kernel → Option Console → End
  unfolding run_line
  end_line k none = panicked
  end_line k (some c) = run_line k (read_line c (λ _. 0) input_size)

  unfoldable pub receive_key : Kernel → ℕ → End
  unfolding end_line
  receive_key k key =
      if key == 10 || key == 13
      then end_line k (Console.receive_key k.console key)
      else shown k (Console.receive_key k.console key)
