-- ===== src/Stdio.antt =====
-- kernel/cons/stdio.cpp: formatted output. A text is its list of bytes, without the NUL at its end.
-- A variadic argument is a 64-bit word or a text; an argument of the wrong kind or a missing one,
-- and a write behind the end of the digit buffer, give none. The sinks are told apart by their `put`.
-- The `int` that is returned is given as the count that it comes from.
pub mod Digits
pub mod Sinks
pub mod Buffers
pub mod Tests
use mathlib.Core.Option
use mathlib.Core.List.{reverse}
use zonix_plus.Base.{
  Bool, List, Option, [], false, if◌then◌else◌, leb, length, ltb, map, none, not, some, suc, true,
  update, zero, ℕ, ◌%◌, ◌&&◌, ◌*◌, ◌++◌, ◌+◌, ◌-◌, ◌/◌, ◌==◌, ◌^◌, ◌∷◌,
}

abbrev pub num_buf_size : ℕ
num_buf_size = 21

pub data Arg : Type 0 where
  word : ℕ → Arg
  text : List ℕ → Arg

-- The characters that vformat tells apart behind a `%`.
pub data Conversion : Type 0 where
  minus long pointer hex unsigned signed string char percent other : Conversion
  digit : ℕ → Conversion

unfoldable pub conversion : ℕ → Conversion
conversion c =
    if c == b'-'
    then minus
    else if leb b'0' c && leb c b'9'
    then digit (c - b'0')
    else if c == b'l'
    then long
    else if c == b'p'
    then pointer
    else if c == b'x'
    then hex
    else if c == b'u'
    then unsigned
    else if c == b'd'
    then signed
    else if c == b's'
    then string
    else if c == b'c'
    then char
    else if c == b'%'
    then percent
    else other

-- The locals of vformat; `in_spec` is the state FmtState::Spec.
pub record Spec : Type 0 where
  pub in_spec : Bool
  pub width : ℕ
  pub long_flag : Bool
  pub left_align : Bool
  pub pad_chr : ℕ

abbrev pub start_spec : Spec
start_spec = record {
  in_spec = true;
  width = 0;
  long_flag = false;
  left_align = false;
  pad_chr = b' ';
}

abbrev pub plain : Spec → Spec
plain p = record p { in_spec = false }

unfoldable pub digit_char : ℕ → ℕ
digit_char d = if ltb d 10 then b'0' + d else b'A' + d - 10

-- The digits of put_int, the lowest first, with room for `room` of them left in `buf`.
unfoldable pub digits_of : ℕ → ℕ → ℕ → Option (List ℕ)
unfolding digit_char
digits_of zero num base = if num == 0 then some [] else none
digits_of (suc room) num base =
    let rest = digits_of room (num / base) base in
    if num == 0
    then some []
    else elim rest [ none ↦ none | some ds ↦ some (digit_char (num % base) ∷ ds) ]

unfoldable pub digits : ℕ → ℕ → Option (List ℕ)
unfolding digits_of
digits num base = if num == 0 then some (b'0' ∷ []) else digits_of num_buf_size num base

-- va_arg of an unsigned number, and of a signed one with its sign.
unfoldable pub unsigned_arg : Bool → ℕ → ℕ
unsigned_arg long_flag n = if long_flag then n % 2 ^ 64 else n % 2 ^ 32

unfoldable pub signed_arg : Bool → ℕ → Bool × ℕ
signed_arg long_flag n =
    let range : ℕ = if long_flag then 2 ^ 64 else 2 ^ 32 in
    let v = n % range in if leb (range / 2) v then (true, range - v) else (false, v)

-- The rest of vformat's loop.
abbrev pub go_on :
    {S : Type 0} → Option (Spec × List Arg × S) → (Spec → List Arg → S → Option S) → Option S
go_on none rest = none
go_on (some (p, args, s)) rest = rest p args s

module _ {S : Type 0} (put : ℕ → S → S) where
  unfoldable pub put_pad : ℕ → ℕ → S → S
  put_pad c zero s = s
  put_pad c (suc n) s = put_pad c n (put c s)

  unfoldable pub put_all : List ℕ → S → S
  put_all [] s = s
  put_all (c ∷ cs) s = put_all cs (put c s)

  -- The end of put_int: the sign and the digits, the lowest of which stands first in `ds`.
  unfoldable pub put_digits : List ℕ → Bool → Spec → S → S
  unfolding put_pad put_all
  put_digits ds negative p s =
      let total = length ds + (if negative then 1 else 0) in
      let pad = p.width - total in
      let s₁ = if not p.left_align && p.pad_chr == b' ' then put_pad b' ' pad s else s in
      let s₂ = if negative then put b'-' s₁ else s₁ in
      let s₃ = if not p.left_align && p.pad_chr == b'0' then put_pad b'0' pad s₂ else s₂ in
      let s₄ = put_all (reverse ds) s₃ in if p.left_align then put_pad b' ' pad s₄ else s₄

  unfoldable pub put_int : ℕ → ℕ → Bool → Spec → S → Option S
  unfolding digits put_digits
  put_int num base negative p s = Option.map (λ ds. put_digits ds negative p s) (digits num base)

  unfoldable pub put_str : List ℕ → Spec → S → S
  unfolding put_pad put_all
  put_str t p s =
      let pad = p.width - length t in
      let s₁ = if not p.left_align then put_pad b' ' pad s else s in
      let s₂ = put_all t s₁ in if p.left_align then put_pad b' ' pad s₂ else s₂

  -- One character of the format: the rest of the arguments, the locals and the sink.
  unfoldable pub convert : Conversion → Spec → List Arg → S → Option (Spec × List Arg × S)
  unfolding put_int put_str unsigned_arg signed_arg
  convert minus p args s = some (record p { left_align = true }, args, s)
  convert (digit d) p args s = some (
    (if d == 0 && p.width == 0
        then record p { pad_chr = b'0' }
        else record p { width = p.width * 10 + d }),
    args,
    s,
  )
  convert long p args s = some (record p { long_flag = true }, args, s)
  convert pointer p (word n ∷ args) s =
      Option.map (λ s'. (plain p, args, s')) (put_int (n % 2 ^ 64) 16 false p s)
  convert hex p (word n ∷ args) s =
      Option.map (λ s'. (plain p, args, s')) (put_int (unsigned_arg p.long_flag n) 16 false p s)
  convert unsigned p (word n ∷ args) s =
      Option.map (λ s'. (plain p, args, s')) (put_int (unsigned_arg p.long_flag n) 10 false p s)
  convert signed p (word n ∷ args) s =
      let (negative, magnitude) = signed_arg p.long_flag n in
      Option.map (λ s'. (plain p, args, s')) (put_int magnitude 10 negative p s)
  convert string p (text t ∷ args) s = some (plain p, args, put_str t p s)
  convert char p (word n ∷ args) s = some (plain p, args, put (n % 256) s)
  convert percent p args s = some (plain p, args, put b'%' s)
  convert other p args s = some (plain p, args, s)
  convert c p args s = none

  -- One round of vformat's loop
  unfoldable pub format_char : ℕ → Spec → List Arg → S → Option (Spec × List Arg × S)
  unfolding convert conversion
  format_char c p args s =
      if p.in_spec
      then convert (conversion c) p args s
      else if c == b'%'
      then some (start_spec, args, s)
      else some (p, args, put c s)

  unfoldable pub vformat : List ℕ → Spec → List Arg → S → Option S
  unfolding format_char
  vformat [] p args s = some s
  vformat (c ∷ fmt) p args s = go_on (format_char c p args s) (vformat fmt)

-- ConsoleSink: what was written to the console.
unfoldable pub put_console : ℕ → List ℕ → List ℕ
put_console c out = out ++ c ∷ []

pub record Buffer : Type 0 where
  pub buf : ℕ → ℕ
  pub pos : ℕ
  pub size : ℕ

-- BufferSink::put
unfoldable pub put_buffer : ℕ → Buffer → Buffer
put_buffer c b = record b {
  buf = if not (b.size == 0) && ltb b.pos (b.size - 1) then update b.buf b.pos c else b.buf;
  pos = b.pos + 1;
}

-- cprintf: the text; its result is the text's length.
unfoldable pub cprintf : List ℕ → List Arg → Option (List ℕ)
unfolding vformat put_console
cprintf fmt args = vformat put_console fmt (plain start_spec) args []

-- vsnprintf and snprintf: the result and the buffer.
unfoldable pub vsnprintf : (ℕ → ℕ) → ℕ → List ℕ → List Arg → Option (ℕ × (ℕ → ℕ))
unfolding vformat put_buffer
vsnprintf buf size fmt args =
    elim (vformat put_buffer fmt (plain start_spec) args
      (record { buf = buf; pos = 0; size = size })) [
        | none ↦ none
        | some b ↦ some (
          b.pos,
          (if size == 0
              then b.buf
              else update b.buf (if ltb b.pos size then b.pos else size - 1) 0),
        )
      ]
