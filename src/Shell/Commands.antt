-- ===== src/Shell/Commands.antt =====
-- The table of commands.
use mathlib.Core.Bool.{true≢false}
use zonix_plus.Base.{
  Bool-cases, List, Option, [], arith, false, if◌then◌else◌, inl, inr, is_none, length,
  length-append, ltb, ltb→lt, none, refl, same_text, same_text-ne, same_text_refl, some, sym, true,
  ℕ, ◌++◌, ◌∙◌, ◌∷◌, ◌≡◌, ◌≢◌, ◌≤◌,
}
use zonix_plus.Shell.{ShellCommand, find_command, register_command, max_commands}

find_command-append :
    (name : List ℕ) (cs : List ShellCommand) (new : ShellCommand)
    → find_command name (cs ++ new ∷ []) ≡ (
        if is_none (find_command name cs)
        then (if same_text name new.name then some new else none)
        else find_command name cs)
unfolding find_command
find_command-append name [] new = refl
find_command-append name (c ∷ cs) new =
    let later = find_command-append name cs new in
    elim (Bool-cases (same_text name c.name)) [ inl e ↦ rw e refl | inr e ↦ rw e later ]

is_none-none : {A : Type 0} (o : Option A) → is_none o ≡ true → o ≡ none
is_none-none none h = refl
is_none-none (some a) h = cc

kept : {A : Type 0} (o : Option A) → (if is_none o then none else o) ≡ o
kept none = refl
kept (some a) = refl

registered :
    (name desc : List ℕ) (func : ℕ) (cs : List ShellCommand)
    → (register_command (some name) (some desc) (some func) cs).0 ≡ true
    → (ltb (length cs) max_commands ≡ true)
      × (is_none (find_command name cs) ≡ true)
      × ((register_command (some name) (some desc) (some func) cs).1
          ≡ cs ++ record { name = name; desc = desc; func = func } ∷ [])
unfolding register_command
registered name desc func cs h = elim (Bool-cases (ltb (length cs) max_commands)) [
  | inl r ↦ elim (Bool-cases (is_none (find_command name cs))) [
    | inl f ↦ (r, f, rw r (rw f refl))
    | inr f ↦
        let refused : (register_command (some name) (some desc) (some func) cs).0 ≡ false =
          rw r (rw f refl) in
        absurd (true≢false (sym h ∙ refused))
  ]
  | inr r ↦
      let refused : (register_command (some name) (some desc) (some func) cs).0 ≡ false =
        rw r refl in
      absurd (true≢false (sym h ∙ refused))
]

-- A command that was registered is found under its name, and every other name as before; there are at
-- most 64 commands, and a name is not registered twice.
pub find_command-register_command :
    (name desc : List ℕ) (func : ℕ) (cs : List ShellCommand)
    → (register_command (some name) (some desc) (some func) cs).0 ≡ true
    → (let cs' = (register_command (some name) (some desc) (some func) cs).1 in
        (find_command name cs ≡ none)
        × (length cs' ≤ max_commands)
        × (find_command name cs' ≡ some (record { name = name; desc = desc; func = func }))
        × ((other : List ℕ) → other ≢ name → find_command other cs' ≡ find_command other cs))
find_command-register_command name desc func cs h =
    let (room, free, e) = registered name desc func cs h in
    let new : ShellCommand = record { name = name; desc = desc; func = func } in
    let missing = is_none-none (find_command name cs) free in
    let size = length-append cs (new ∷ []) in
    let less = ltb→lt (length cs) max_commands room in
    rw e (
      missing,
      omega arith,
      find_command-append name cs new ∙ rw missing (rw (same_text_refl name) refl),
      (λ other n.
          let apart = same_text-ne other name n in
          find_command-append other cs new ∙ rw apart (kept (find_command other cs))),
    )
