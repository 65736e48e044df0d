-- ===== src/Shell/Tests.antt =====
-- Runs of the shell, and its theorems at inputs that meet their hypotheses.
use zonix_plus.Base.{List, [], arith, refl, same_text, some, true, ℕ, ◌++◌, ◌∷◌, ◌≡◌}
use zonix_plus.Shell.{
  Shell, ShellCommand, Action, call, parse_args, find_command, register_command, execute_command,
}
use zonix_plus.Shell.Words.{join}
use zonix_plus.Shell.Editing.{handle_chars, handle_chars-call}

abbrev echo_name : List ℕ
echo_name = b'e' ∷ b'c' ∷ b'h' ∷ b'o' ∷ []

abbrev hi : List ℕ
hi = b'h' ∷ b'i' ∷ []

abbrev echo_command : ShellCommand
echo_command = record { name = echo_name; desc = []; func = 7 }

abbrev started : Shell
started = record { line = []; commands = echo_command ∷ []; echoed = []; executed = [] }

-- Spaces around and between the words do not matter, here in " echo  hi ".
parses_spaces : parse_args (b' ' ∷ echo_name ++ b' ' ∷ b' ' ∷ hi ++ b' ' ∷ []) ≡ echo_name ∷ hi ∷ []
unfolding parse_args
parses_spaces = refl

unknown_command : execute_command hi (echo_command ∷ []) ≡ Action.unknown hi
unfolding execute_command same_text
unknown_command = refl

registers : (register_command (some hi) (some []) (some 8) (echo_command ∷ [])).0 ≡ true
unfolding register_command same_text
registers = refl

found : find_command echo_name (echo_command ∷ []) ≡ some echo_command
unfolding find_command same_text
found = refl

handle_chars-call_example :
    (let s' = handle_chars (join (echo_name ∷ hi ∷ []) ++ 13 ∷ []) started in
      (s'.executed ≡ call 7 (echo_name ∷ hi ∷ []) ∷ []) × (s'.line ≡ []))
unfolding join
handle_chars-call_example =
    handle_chars-call echo_name (hi ∷ []) echo_command started refl
      ((refl, (refl, (refl, (refl, tt)))), ((refl, (refl, tt)), tt)) (omega arith) (omega arith)
      (omega arith) found
