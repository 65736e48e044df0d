-- ===== src/Shell/Editing.antt =====
-- The line editor.
use mathlib.Core.List.{append-nil, append_assoc}
use zonix_plus.Base.{
  All, All-append, Bool, List, Option, [], ap, arith, false, if◌then◌else◌, leb, length,
  length-append, ltb, none, refl, some, sym, true, ℕ, ◌&&◌, ◌++◌, ◌+◌, ◌-◌, ◌<◌, ◌==◌, ◌||◌, ◌∙◌,
  ◌∷◌, ◌≡◌, ◌≤◌,
}
use zonix_plus.Shell.{
  ShellCommand, call, parse_args, find_command, max_args, Shell, Action, cmd_buf_size, drop_last,
  execute_command, handle_char,
}
use zonix_plus.Shell.Words.{IsWord, join, skip_spaces-word, parse_args-join}

-- Characters one after the other.
unfoldable pub handle_chars : List ℕ → Shell → Shell
handle_chars [] s = s
handle_chars (c ∷ cs) s = handle_chars cs (handle_char c s)

-- The line leaves room for its NUL, and holds printable characters only.
pub record IsLine (line : List ℕ) : Type 0 where
  pub fits : length line ≤ cmd_buf_size - 1
  pub printable : All (λ c. (32 ≤ c) × (c < 127)) line

drop_last-length : (line : List ℕ) → length (drop_last line) ≤ length line
unfolding drop_last
drop_last-length [] = omega arith
drop_last-length (c ∷ []) = omega arith
drop_last-length (c ∷ d ∷ cs) = omega (arith, drop_last-length (d ∷ cs))

drop_last-All : (P : ℕ → Type 0) (line : List ℕ) → All P line → All P (drop_last line)
unfolding drop_last
drop_last-All P [] h = tt
drop_last-All P (c ∷ []) h = tt
drop_last-All P (c ∷ d ∷ cs) h = (h.0, drop_last-All P (d ∷ cs) h.1)

drop_last-IsLine : (line : List ℕ) → IsLine line → IsLine (drop_last line)
drop_last-IsLine line i = record {
  fits = omega (arith, drop_last-length line, i.fits);
  printable = drop_last-All (λ c. (32 ≤ c) × (c < 127)) line i.printable;
}

append-IsLine :
    (line : List ℕ) (c : ℕ)
    → IsLine line
    → length line < cmd_buf_size - 1
    → 32 ≤ c
    → c < 127
    → IsLine (line ++ c ∷ [])
append-IsLine line c i h k l = record {
  fits = omega (arith, length-append line (c ∷ []), h);
  printable = All-append (λ c. (32 ≤ c) × (c < 127)) line (c ∷ []) i.printable ((k, l), tt);
}

if-IsLine :
    (b : Bool) (s t : Shell)
    → (b ≡ true → IsLine s.line)
    → (b ≡ false → IsLine t.line)
    → IsLine (if b then s else t).line
if-IsLine true s t h k = h refl
if-IsLine false s t h k = k refl

-- Whatever is typed, the line stays within the buffer, with a byte left for its NUL, and holds
-- printable characters only.
pub handle_char-IsLine : (c : ℕ) (s : Shell) → IsLine s.line → IsLine (handle_char c s).line
unfolding handle_char
handle_char-IsLine c s i =
    if-IsLine (c == 0 || leb 128 c) _ _ (λ e. i)
      (λ e.
        if-IsLine (c == 10 || c == 13) _ _ (λ e. record { fits = omega arith; printable = tt })
          (λ e.
            if-IsLine (c == 8) _ _
              (λ e. if-IsLine (ltb 0 (length s.line)) _ _ (λ f. drop_last-IsLine s.line i) (λ f. i))
              (λ e.
                if-IsLine (c == 127) _ _ (λ f. i)
                  (λ f.
                    if-IsLine (ltb (length s.line) (cmd_buf_size - 1) && leb 32 c && ltb c 127) _ _
                      (λ g.
                        append-IsLine s.line c i (ground (arith, g)) (ground (arith, g))
                          (ground (arith, g)))
                      (λ g. i)))))

handle_char-printable :
    (c : ℕ) (s : Shell)
    → 32 ≤ c
    → c < 127
    → length s.line < cmd_buf_size - 1
    → handle_char c s ≡ record s { line = s.line ++ c ∷ []; echoed = s.echoed ++ c ∷ [] }
unfolding handle_char
handle_char-printable c s h k l =
    let a : (c == 0 || leb 128 c) ≡ false = ground arith in
    let b : (c == 10 || c == 13) ≡ false = ground arith in
    let d : (c == 8) ≡ false = ground arith in
    let e : (c == 127) ≡ false = ground arith in
    let f : (ltb (length s.line) (cmd_buf_size - 1) && leb 32 c && ltb c 127) ≡ true =
      ground arith in
    rw a (rw b (rw d (rw e (rw f refl))))

retyped :
    (s : Shell) {l l' e e' : List ℕ}
    → l ≡ l'
    → e ≡ e'
    → ◌≡◌ {A = Shell} (record s { line = l; echoed = e }) (record s { line = l'; echoed = e' })
retyped s p q = rw p (rw q refl)

handle_chars-printable :
    (t : List ℕ) (s : Shell)
    → All (λ c. (32 ≤ c) × (c < 127)) t
    → length s.line + length t ≤ cmd_buf_size - 1
    → handle_chars t s ≡ record s { line = s.line ++ t; echoed = s.echoed ++ t }
unfolding handle_chars
handle_chars-printable [] s h k = sym (retyped s (append-nil s.line) (append-nil s.echoed))
handle_chars-printable (c ∷ t) s h k =
    let size = length-append s.line (c ∷ []) in
    ap (handle_chars t) (handle_char-printable c s h.0.0 h.0.1 (omega arith))
    ∙ handle_chars-printable t _ h.1 (omega (arith, size))
    ∙ retyped s (append_assoc s.line (c ∷ []) t) (append_assoc s.echoed (c ∷ []) t)

handle_chars-append :
    (cs ds : List ℕ) (s : Shell) → handle_chars (cs ++ ds) s ≡ handle_chars ds (handle_chars cs s)
unfolding handle_chars
handle_chars-append [] ds s = refl
handle_chars-append (c ∷ cs) ds s = handle_chars-append cs ds (handle_char c s)

join-head :
    (c : ℕ) (w : List ℕ) (ws : List (List ℕ)) → (rest : List ℕ) × (join ((c ∷ w) ∷ ws) ≡ c ∷ rest)
unfolding join
join-head c w [] = (w, refl)
join-head c w (v ∷ ws) = (w ++ b' ' ∷ join (v ∷ ws), refl)

execute_command-found :
    (c : ℕ) (rest : List ℕ) (cs : List ShellCommand) (name : List ℕ) (args : List (List ℕ))
    (command : ShellCommand)
    → (c == b' ') ≡ false
    → parse_args (c ∷ rest) ≡ name ∷ args
    → find_command name cs ≡ some command
    → execute_command (c ∷ rest) cs ≡ call command.func (name ∷ args)
unfolding execute_command
execute_command-found c rest cs name args command h p f =
    ap
      (λ (line : List ℕ). elim line as (λ q. Action) [
        | [] ↦ Action.nothing
        | d ∷ ds ↦ elim (parse_args (d ∷ ds)) as (λ q. Action) [
          | [] ↦ Action.nothing
          | n ∷ ns ↦ elim (find_command n cs) as (λ q. Action) [
            | none ↦ Action.unknown n
            | some k ↦ call k.func (n ∷ ns)
          ]
        ]
      ])
      (skip_spaces-word c rest h)
    ∙ ap
        (λ (words : List (List ℕ)). elim words as (λ q. Action) [
          | [] ↦ Action.nothing
          | n ∷ ns ↦ elim (find_command n cs) as (λ q. Action) [
            | none ↦ Action.unknown n
            | some k ↦ call k.func (n ∷ ns)
          ]
        ])
        p
    ∙ ap
        (λ (o : Option ShellCommand). elim o as (λ q. Action) [
          | none ↦ Action.unknown name
          | some k ↦ call k.func (name ∷ args)
        ])
        f

execute_command-join :
    (name : List ℕ) (args : List (List ℕ)) (cs : List ShellCommand) (command : ShellCommand)
    → All IsWord (name ∷ args)
    → length (name ∷ args) ≤ max_args
    → length (join (name ∷ args)) ≤ cmd_buf_size - 1
    → find_command name cs ≡ some command
    → execute_command (join (name ∷ args)) cs ≡ call command.func (name ∷ args)
execute_command-join [] args cs command h k l f = elim h.0 [ ]
execute_command-join (c ∷ w) args cs command h k l f =
    let (rest, e) = join-head c w args in
    ap (λ (line : List ℕ). execute_command line cs) e
    ∙ execute_command-found c rest cs (c ∷ w) args command h.0.0
        (sym (ap parse_args e) ∙ parse_args-join ((c ∷ w) ∷ args) h k l) f

enter :
    (s : Shell) → (handle_char 13 s).executed ≡ s.executed ++ execute_command s.line s.commands ∷ []
unfolding handle_char
enter s = refl

enter-line : (s : Shell) → (handle_char 13 s).line ≡ []
unfolding handle_char
enter-line s = refl

-- From an empty line, typing the words of a registered command with a space between each two, 16 words
-- and 127 printable characters at most, and Enter runs its callback once, with these words as its
-- arguments, and leaves an empty line.
pub handle_chars-call :
    (name : List ℕ) (args : List (List ℕ)) (command : ShellCommand) (s : Shell)
    → s.line ≡ []
    → All IsWord (name ∷ args)
    → length (name ∷ args) ≤ max_args
    → All (λ c. (32 ≤ c) × (c < 127)) (join (name ∷ args))
    → length (join (name ∷ args)) ≤ cmd_buf_size - 1
    → find_command name s.commands ≡ some command
    → (let s' = handle_chars (join (name ∷ args) ++ 13 ∷ []) s in
        (s'.executed ≡ s.executed ++ call command.func (name ∷ args) ∷ []) × (s'.line ≡ []))
unfolding handle_chars
handle_chars-call name args command s empty h k p l f =
    let t : List ℕ = join (name ∷ args) in
    let none_yet = ap length empty in
    let typed = handle_chars-printable t s p (omega arith) in
    let after = handle_chars-append t (13 ∷ []) s ∙ ap (handle_char 13) typed in
    let line : s.line ++ t ≡ t = ap (λ (xs : List ℕ). xs ++ t) empty in
    (
      ap (λ (x : Shell). x.executed) after
          ∙ enter (record s { line = s.line ++ t; echoed = s.echoed ++ t })
          ∙ ap (λ (x : List ℕ). s.executed ++ execute_command x s.commands ∷ []) line
          ∙ ap (λ (x : Action). s.executed ++ x ∷ [])
              (execute_command-join name args s.commands command h k l f),
      ap (λ (x : Shell). x.line) after
          ∙ enter-line (record s { line = s.line ++ t; echoed = s.echoed ++ t }),
    )
