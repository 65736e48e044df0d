-- ===== src/Shell.antt =====
-- kernel/cons/shell.cpp: the console's line editor, its command parser and its table of commands. A
-- text is its list of bytes, without the NUL at its end; the line buffer is the list of the
-- characters before `cmd_pos_`. The characters of lib/cons_defs.h stand in the definitions.
pub mod Editing
pub mod Words
pub mod Commands
pub mod Tests
use zonix_plus.Base.{
  Bool, List, Option, [], false, if◌then◌else◌, is_none, leb, length, ltb, none, same_text, some,
  suc, true, zero, ℕ, ◌&&◌, ◌++◌, ◌-◌, ◌==◌, ◌||◌, ◌∷◌,
}

abbrev pub cmd_buf_size : ℕ
cmd_buf_size = 128

abbrev pub max_args : ℕ
max_args = 16

abbrev pub max_commands : ℕ
max_commands = 64

-- The copy of a command into `arg_buf_`
unfoldable pub copy_command : ℕ → List ℕ → List ℕ
copy_command zero cmd = []
copy_command (suc room) [] = []
copy_command (suc room) (c ∷ cmd) = c ∷ copy_command room cmd

-- A word is what stands before the next space; the pointer is then behind that space.
unfoldable pub take_word : List ℕ → List ℕ × List ℕ
take_word [] = ([], [])
take_word (c ∷ cs) = let (w, rest) = take_word cs in if c == b' ' then ([], cs) else (c ∷ w, rest)

unfoldable pub skip_spaces : List ℕ → List ℕ
skip_spaces [] = []
skip_spaces (c ∷ cs) = let rest = skip_spaces cs in if c == b' ' then rest else c ∷ cs

-- The loop of parse_args, with room for that many arguments: the arguments, as texts.
unfoldable pub parse_words : ℕ → List ℕ → List (List ℕ)
unfolding skip_spaces take_word
parse_words zero p = []
parse_words (suc room) p = elim (skip_spaces p) [
  | [] ↦ []
  | c ∷ cs ↦ (take_word (c ∷ cs)).0 ∷ parse_words room (take_word (c ∷ cs)).1
]

-- State::parse_args
unfoldable pub parse_args : List ℕ → List (List ℕ)
unfolding copy_command parse_words
parse_args cmd = parse_words max_args (copy_command (cmd_buf_size - 1) cmd)

-- A registered command; the callback is a name.
pub record ShellCommand : Type 0 where
  pub name : List ℕ
  pub desc : List ℕ
  pub func : ℕ

unfoldable pub find_command : List ℕ → List ShellCommand → Option ShellCommand
find_command name [] = none
find_command name (c ∷ cs) =
    let rest = find_command name cs in if same_text name c.name then some c else rest

-- shell::register_command, 0 or -1; the arguments may be null.
unfoldable pub register_command :
    Option (List ℕ) → Option (List ℕ) → Option ℕ → List ShellCommand → Bool × List ShellCommand
unfolding find_command
register_command (some name) (some desc) (some func) cs =
    if ltb (length cs) max_commands && is_none (find_command name cs)
    then (true, cs ++ record { name = name; desc = desc; func = func } ∷ [])
    else (false, cs)
register_command name desc func cs = (false, cs)

-- What a command line does: nothing, a callback with its arguments, or a message.
pub data Action : Type 0 where
  nothing : Action
  call : ℕ → List (List ℕ) → Action
  unknown : List ℕ → Action

-- State::execute_command
unfoldable pub execute_command : List ℕ → List ShellCommand → Action
unfolding skip_spaces parse_args find_command
execute_command cmd cs = elim (skip_spaces cmd) [
  | [] ↦ nothing
  | c ∷ rest ↦ elim (parse_args (c ∷ rest)) [
    | [] ↦ nothing
    | name ∷ args ↦ elim (find_command name cs) [
      | none ↦ unknown name
      | some command ↦ call command.func (name ∷ args)
    ]
  ]
]

-- State: the line so far, the commands, what was echoed to the console, and what was executed.
pub record Shell : Type 0 where
  pub line : List ℕ
  pub commands : List ShellCommand
  pub echoed : List ℕ
  pub executed : List Action

unfoldable pub drop_last : List ℕ → List ℕ
drop_last [] = []
drop_last (c ∷ []) = []
drop_last (c ∷ d ∷ cs) = c ∷ drop_last (d ∷ cs)

-- shell::handle_char. Bytes from 128 on are negative where `char` is signed, and not printable where
-- it is not: both ways nothing happens. The prompt behind a command is not part of the echo.
unfoldable pub handle_char : ℕ → Shell → Shell
unfolding drop_last execute_command
handle_char c s =
    if c == 0 || leb 128 c
    then s
    else if c == 10 || c == 13
    then record s {
      line = [];
      echoed = s.echoed ++ 10 ∷ [];
      executed = s.executed ++ execute_command s.line s.commands ∷ [];
    }
    else if c == 8
    then (if ltb 0 (length s.line)
        then record s { line = drop_last s.line; echoed = s.echoed ++ 8 ∷ [] }
        else s)
    else if c == 127
    then s
    else if ltb (length s.line) (cmd_buf_size - 1) && leb 32 c && ltb c 127
    then record s { line = s.line ++ c ∷ []; echoed = s.echoed ++ c ∷ [] }
    else s
