-- ===== src/Shell/Keys.antt =====
-- `receive_key` of src/console.rs with the shell behind it, for any key.
use sill_os.Base.{
  ℕ, zero, suc, ◌+◌, ◌≤◌, ◌<◌, ◌≡◌, ◌∙◌, refl, sym, subst, ap, Bool, true, false, some, List, [],
  ◌∷◌, Text, text, same, ◌||◌, ◌==◌, ltb, if_true, if_false, if◌then◌else◌, arith, min,
}
use sill_os.Console.{Console, input_size, put_char, finish, read_line, write_str}
use sill_os.Console as Console
use sill_os.Console.Synced as Synced
use sill_os.Console.Synced.{SameInput}
use sill_os.Console.Input.{receive_key-Runs, receive_key-return}
use sill_os.Console.Typing.{put_char-Succeeds, write_str-Succeeds}
use sill_os.Fb.Named.{green}
use sill_os.Kmem.Figures.{Machine}
use sill_os.Kmem.Analysis.{report}
use sill_os.Shell.{Kernel, End, panicked}
use sill_os.Shell.Commands.{setbg, setfg, toggle_serial, ls, mkdir, touch}
use sill_os.Shell.HeapCommands.{alloc_cmd, dealloc_cmd}
use sill_os.Shell.Parsing.{split_whitespace}
use sill_os.Shell.Execute.{
  breakpoint_handler, mem_analyze_cmd, unknown_command, dispatch, execute_words, execute,
  bytes_from, prompt, run_line, end_line, receive_key,
}
use sill_os.Shell.Printing.{
  Sound, Kept, runs, reboots, and_then-Kept, if-Kept, shown-Kept, with_console-Sound,
  print_lines-Kept, print_lines_color-Kept,
}
use sill_os.Shell.Kept.{
  KeepsBlack, help-Kept, clearterm-Kept, echo-Kept, info-Kept, sven-Kept, shutdown-Kept, setbg-Kept,
  setfg-Kept, toggle_serial-Kept, ls-Kept, mkdir-Kept, touch-Kept,
}
use sill_os.Shell.HeapKept.{alloc_cmd-Kept}

-- Neither `panic` nor `dealloc!`, nor a `setbg` that leaves black.
abbrev pub Harmless : List Text → Type 0
Harmless [] = Unit {0}
Harmless (command ∷ args) =
    (same command (text "panic") ≡ false)
    × (same command (text "dealloc!") ≡ false)
    × (same command (text "setbg") ≡ true → KeepsBlack args)

-- The line that has been typed.
abbrev pub typed : Console → Text
typed c = bytes_from c.input 0 c.input_len

either_Kept : (b : Bool) {x y : End} → Kept x → Kept y → Kept (if b then x else y)
either_Kept b p q = if-Kept b _ _ (λ e. p) (λ e. q)

other_Kept : (b : Bool) (x : End) {y : End} → b ≡ false → Kept y → Kept (if b then x else y)
other_Kept b x e q = subst Kept (sym (if_false x _ e)) q

prompt-Kept : (k : Kernel) → Sound k → Kept (prompt k)
unfolding prompt
prompt-Kept k v =
    let (d, e, w, same_input) = write_str-Succeeds k.console v.console (text "> ") in
    shown-Kept k v (write_str k.console (text "> ")) (d, e, w)

module _ (stack_frame : Text) (machine : Machine) where
  breakpoint_handler-Kept : (k : Kernel) → Sound k → Kept (breakpoint_handler stack_frame machine k)
  unfolding breakpoint_handler
  breakpoint_handler-Kept k v =
      print_lines_color-Kept _ _ _ (record { console = v.console; files = v.files; heap = v.heap })

  module _ (k : Kernel) (v : Sound k) (command : Text) (args : List Text) where
    later-Kept :
        same command (text "dealloc!") ≡ false
        → Kept (
            if same command (text "setfg")
            then setfg k args
            else if same command (text "mem-analyze")
            then mem_analyze_cmd stack_frame machine k
            else if same command (text "tg-serial")
            then toggle_serial k
            else if same command (text "alloc!")
            then alloc_cmd k args
            else if same command (text "dealloc!")
            then dealloc_cmd k args
            else if same command (text "ls")
            then ls k args
            else if same command (text "mkdir")
            then mkdir k args
            else if same command (text "touch")
            then touch k args
            else unknown_command stack_frame machine k command)
    unfolding mem_analyze_cmd unknown_command
    later-Kept frees_not = either_Kept (same command (text "setfg")) (setfg-Kept k v args) (
        either_Kept (same command (text "mem-analyze"))
          (print_lines_color-Kept green (report machine) k v)
          (either_Kept (same command (text "tg-serial")) (toggle_serial-Kept k v) (
            either_Kept (same command (text "alloc!")) (alloc_cmd-Kept k v args) (
              other_Kept (same command (text "dealloc!")) (dealloc_cmd k args) frees_not (
                either_Kept (same command (text "ls")) (ls-Kept k v args) (
                  either_Kept (same command (text "mkdir")) (mkdir-Kept k v args) (
                    either_Kept (same command (text "touch")) (touch-Kept k v args)
                      (print_lines-Kept _ k v))))))))

    dispatch-Kept : Harmless (command ∷ args) → Kept (dispatch stack_frame machine k command args)
    unfolding dispatch
    dispatch-Kept h = either_Kept (same command (text "help")) (help-Kept k v) (
        either_Kept (same command (text "clear")) (clearterm-Kept k v) (
          either_Kept (same command (text "echo")) (echo-Kept k v args) (
            either_Kept (same command (text "info")) (info-Kept k v) (
              other_Kept (same command (text "panic")) panicked h.0 (
                either_Kept (same command (text "bp")) (breakpoint_handler-Kept k v) (
                  either_Kept (same command (text "sven")) (sven-Kept k v) (
                    either_Kept (same command (text "reboot")) (reboots k) (
                      either_Kept (same command (text "shutdown")) (shutdown-Kept k v) (
                        either_Kept (same command (text "exit")) (shutdown-Kept k v) (
                          if-Kept (same command (text "setbg")) (setbg k args) _
                            (λ e. setbg-Kept k v args (h.2 e)) (λ e. later-Kept h.1)))))))))))

  execute_words-Kept :
      (k : Kernel)
      → Sound k
      → (words : List Text) → Harmless words
      → Kept (execute_words stack_frame machine k words)
  unfolding execute_words
  execute_words-Kept k v [] h = runs k v
  execute_words-Kept k v (command ∷ args) h = dispatch-Kept k v command args h

-- The buffer holds the line.
bytes_from-prefix :
    (a b : ℕ → ℕ) (i n limit : ℕ)
    → i + n ≤ limit
    → ((j : ℕ) → j < limit → a j ≡ b j)
    → bytes_from a i n ≡ bytes_from b i n
unfolding bytes_from
bytes_from-prefix a b i zero limit h same_below = refl
bytes_from-prefix a b i (suc n) limit h same_below =
    cc (same_below i (omega arith), bytes_from-prefix a b (i + 1) n limit (omega arith) same_below)

module _ (stack_frame : Text) (machine : Machine) (k : Kernel) (v : Sound k) where
  -- The console after the return key and `read_line`.
  module _ (d : Console) (w : Synced.IsValid d) (same_input : SameInput k.console d) where
    abbrev emptied : Console
    emptied = record d { input_len = 0; line_ready = false }

    emptied-IsValid : Synced.IsValid emptied
    emptied-IsValid = record {
      displays = w.displays;
      column = w.column;
      row = w.row;
      input = omega arith;
    }

    abbrev line : Text
    line =
        bytes_from (λ i. if ltb i (min d.input_len 256) then d.input i else 0) 0
          (min d.input_len 256)

    line-typed : line ≡ typed k.console
    line-typed =
        let full : min d.input_len 256 ≡ k.console.input_len =
          omega (arith, v.console.input, same_input.1) in
        ap (bytes_from _ 0) full
        ∙ bytes_from-prefix _ k.console.input 0 k.console.input_len k.console.input_len
            (omega arith)
            λ j h.
              let inside : ltb j (min d.input_len 256) ≡ true = ground (arith, full) in
              if_true _ _ inside ∙ ap (λ (f : ℕ → ℕ). f j) same_input.0

    end_line-Kept :
        Harmless (split_whitespace (typed k.console))
        → Kept (end_line stack_frame machine k (some (record d { line_ready = true })))
    unfolding end_line run_line execute read_line
    end_line-Kept h =
        and_then-Kept prompt
          (execute_words-Kept stack_frame machine (record k { console = emptied })
            (with_console-Sound k v emptied emptied-IsValid) (split_whitespace line)
            (subst (λ s. Harmless (split_whitespace s)) (sym line-typed) h))
          prompt-Kept

  -- On a kernel whose console, file system and heap are valid, for any key, and where the words of
  -- the line typed so far do not begin with panic, nor with dealloc!, which writes to any address
  -- it is given, nor with setbg and the name of a colour other than black: the handler of keys,
  -- which on the return key runs the line as a command, does not panic. It returns with the
  -- console, the file system and the heap valid, or ends in the calls that restart or leave the
  -- machine. The memory that the file system takes from the heap is not counted.
  pub receive_key-Kept :
      (key : ℕ)
      → Harmless (split_whitespace (typed k.console))
      → Kept (receive_key stack_frame machine k key)
  unfolding receive_key
  receive_key-Kept key h =
      if-Kept (key == 10 || key == 13) _ _
        (λ e.
          let (d, done, w, same_input) = put_char-Succeeds k.console v.console 10 in
          subst (λ r. Kept (end_line stack_frame machine k r))
            (sym (receive_key-return k.console key e ∙ ap finish done))
            (end_line-Kept d w same_input h))
        (λ e.
          shown-Kept k v (Console.receive_key k.console key)
            (receive_key-Runs k.console v.console key))
