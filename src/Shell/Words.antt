-- ===== src/Shell/Words.antt =====
-- parse_args reads back the words that a command line is made of.
use zonix_plus.Base.{
  All, List, [], ap, arith, false, length, refl, suc, zero, ℕ, ◌++◌, ◌-◌, ◌==◌, ◌∙◌, ◌∷◌, ◌≡◌, ◌≤◌,
}
use zonix_plus.Shell.{
  cmd_buf_size, max_args, copy_command, take_word, skip_spaces, parse_words, parse_args,
}

-- A word is not empty and holds no space.
abbrev pub NoSpace : List ℕ → Type 0
NoSpace w = All (λ c. (c == b' ') ≡ false) w

abbrev pub IsWord : List ℕ → Type 0
IsWord [] = ⊥
IsWord (c ∷ cs) = NoSpace (c ∷ cs)

-- A command line: the words with a space between each two.
unfoldable pub join : List (List ℕ) → List ℕ
join [] = []
join (w ∷ []) = w
join (w ∷ v ∷ ws) = w ++ b' ' ∷ join (v ∷ ws)

copy_command-short : (n : ℕ) (cmd : List ℕ) → length cmd ≤ n → copy_command n cmd ≡ cmd
unfolding copy_command
copy_command-short zero [] h = refl
copy_command-short zero (c ∷ cmd) h = absurd (omega arith)
copy_command-short (suc n) [] h = refl
copy_command-short (suc n) (c ∷ cmd) h =
    ap (λ (cs : List ℕ). c ∷ cs) (copy_command-short n cmd (omega arith))

take_word-last : (w : List ℕ) → NoSpace w → take_word w ≡ (w, [])
unfolding take_word
take_word-last [] h = refl
take_word-last (c ∷ w) h = rw (h.0, take_word-last w h.1) refl

take_word-word : (w rest : List ℕ) → NoSpace w → take_word (w ++ b' ' ∷ rest) ≡ (w, rest)
unfolding take_word
take_word-word [] rest h = refl
take_word-word (c ∷ w) rest h = rw (h.0, take_word-word w rest h.1) refl

pub skip_spaces-word : (c : ℕ) (cs : List ℕ) → (c == b' ') ≡ false → skip_spaces (c ∷ cs) ≡ c ∷ cs
unfolding skip_spaces
skip_spaces-word c cs h = rw h refl

parse_words-step :
    (room c : ℕ) (cs : List ℕ)
    → (c == b' ') ≡ false
    → parse_words (suc room) (c ∷ cs)
      ≡ (take_word (c ∷ cs)).0 ∷ parse_words room (take_word (c ∷ cs)).1
unfolding parse_words
parse_words-step room c cs h =
    ap
      (λ (p : List ℕ). elim p as (λ q. List (List ℕ)) [
        | [] ↦ []
        | d ∷ ds ↦ (take_word (d ∷ ds)).0 ∷ parse_words room (take_word (d ∷ ds)).1
      ])
      (skip_spaces-word c cs h)

parse_words-nil : (room : ℕ) → parse_words room [] ≡ []
unfolding parse_words skip_spaces
parse_words-nil zero = refl
parse_words-nil (suc room) = refl

parse_words-join :
    (room : ℕ) (ws : List (List ℕ))
    → All IsWord ws
    → length ws ≤ room
    → parse_words room (join ws) ≡ ws
unfolding join
parse_words-join room [] h k = parse_words-nil room
parse_words-join room ([] ∷ ws) h k = elim h.0 [ ]
parse_words-join zero ((c ∷ w) ∷ ws) h k = absurd (omega arith)
parse_words-join (suc room) ((c ∷ w) ∷ []) h k =
    parse_words-step room c w h.0.0
    ∙ rw (take_word-last (c ∷ w) h.0)
        (ap (λ (xs : List (List ℕ)). (c ∷ w) ∷ xs) (parse_words-nil room))
parse_words-join (suc room) ((c ∷ w) ∷ v ∷ ws) h k =
    parse_words-step room c (w ++ b' ' ∷ join (v ∷ ws)) h.0.0
    ∙ rw (take_word-word (c ∷ w) (join (v ∷ ws)) h.0) (
        ap (λ (xs : List (List ℕ)). (c ∷ w) ∷ xs)
          (parse_words-join room (v ∷ ws) h.1 (omega arith)))

-- A command line of at most 16 words and 127 characters is parsed into its words.
pub parse_args-join :
    (ws : List (List ℕ))
    → All IsWord ws
    → length ws ≤ max_args
    → length (join ws) ≤ cmd_buf_size - 1
    → parse_args (join ws) ≡ ws
unfolding parse_args
parse_args-join ws h k l =
    ap (parse_words max_args) (copy_command-short (cmd_buf_size - 1) (join ws) l)
    ∙ parse_words-join max_args ws h k
