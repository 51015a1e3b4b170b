-- ===== src/Shell/Echoed.antt =====
-- What `echo` of src/shell.rs prints.
use mathlib.Core.List.{append-nil}
use sill_os.Base.{◌≡◌, refl, sym, ap, subst, List, [], ◌∷◌, ◌++◌, Text, text}
use sill_os.Kmem.Figures.{Machine}
use sill_os.Shell.{Kernel, and_then, console_print}
use sill_os.Shell.Commands.{echo, echo_args, echo_rest}
use sill_os.Shell.Execute.{dispatch, execute_words, execute}
use sill_os.Shell.Words.{join, AllWords, split_whitespace-join}
use sill_os.Shell.Prints.{
  IsValid, Prints, console_print-Prints, console_println-Prints, and_then-Prints, nothing-Prints,
}

-- The words after the first one, each behind a blank.
abbrev behind_blanks : List Text → Text
behind_blanks [] = []
behind_blanks (word ∷ words) = 32 ∷ (word ++ behind_blanks words)

join-behind_blanks :
    (word : Text) (words : List Text) → join (word ∷ words) ≡ word ++ behind_blanks words
join-behind_blanks word [] = sym (append-nil word)
join-behind_blanks word (next ∷ words) =
    ap (λ (t : Text). word ++ 32 ∷ t) (join-behind_blanks next words)

echo_rest-Prints :
    (args : List Text) (k : Kernel) → IsValid k → Prints (behind_blanks args) k (echo_rest args k)
unfolding echo_rest
echo_rest-Prints [] k v = nothing-Prints k v
echo_rest-Prints (arg ∷ args) k v =
    and_then-Prints (text " ") (arg ++ behind_blanks args) k (console_print k (text " ")) _
      (console_print-Prints k (text " ") v)
      λ j w.
        and_then-Prints arg (behind_blanks args) j (console_print j arg) (echo_rest args)
          (console_print-Prints j arg w) (echo_rest-Prints args)

echo_args-Prints :
    (args : List Text) (k : Kernel) → IsValid k → Prints (join args) k (echo_args args k)
unfolding echo_args
echo_args-Prints [] k v = nothing-Prints k v
echo_args-Prints (arg ∷ args) k v =
    subst (λ t. Prints t k (and_then (console_print k arg) (echo_rest args)))
      (sym (join-behind_blanks arg args))
      (and_then-Prints arg (behind_blanks args) k (console_print k arg) (echo_rest args)
        (console_print-Prints k arg v) (echo_rest-Prints args))

echo-Prints :
    (args : List Text) (k : Kernel) → IsValid k → Prints (join args ++ 10 ∷ []) k (echo k args)
unfolding echo
echo-Prints args k v =
    and_then-Prints (join args) (10 ∷ []) k (echo_args args k) _ (echo_args-Prints args k v)
      λ j w. console_println-Prints j [] w

module _ (stack_frame : Text) (machine : Machine) where
  -- On a kernel whose console and file system are valid, for words without blanks: the command echo
  -- followed by the words, with one blank between them, returns; it leaves the console and the file
  -- system valid, the serial port has received the words with one blank between them and a line end
  -- if the mirror is on and nothing otherwise, and the mirror, the files and the heap are as
  -- before.
  pub execute-echo :
      (args : List Text) (k : Kernel)
      → IsValid k
      → AllWords args
      → Prints (join args ++ 10 ∷ []) k (execute stack_frame machine k (join (text "echo" ∷ args)))
  unfolding execute execute_words dispatch
  execute-echo args k v words =
      subst (λ ws. Prints (join args ++ 10 ∷ []) k (execute_words stack_frame machine k ws))
        (sym
          (split_whitespace-join (text "echo" ∷ args) ((refl, (refl, (refl, (refl, tt)))), words)))
        (echo-Prints args k v)
