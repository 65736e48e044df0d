-- ===== src/Stdio/Buffers.antt =====
-- snprintf writes what cprintf prints, cut to the buffer.
use mathlib.Core.Option
use zonix_plus.Base.{
  ==_refl, List, Option-cases, [], ap, arith, false, get_elem?, if◌then◌else◌, inl, inr, length,
  ltb, min, none, refl, some, suc, sym, update, zero, ℕ, ◌++◌, ◌+◌, ◌-◌, ◌<◌, ◌==◌, ◌∙◌, ◌∷◌, ◌≡◌,
  ◌≢◌, ◌≤◌, ◌⊎◌,
}
use zonix_plus.Stdio.{
  Arg, start_spec, plain, put_all, put_console, Buffer, put_buffer, cprintf, vsnprintf,
}
use zonix_plus.Stdio.Sinks.{vformat-map, map-map}

put_all-append :
    (cs : List ℕ) (c : ℕ) (b : Buffer)
    → put_all put_buffer (cs ++ c ∷ []) b ≡ put_buffer c (put_all put_buffer cs b)
unfolding put_all
put_all-append [] c b = refl
put_all-append (d ∷ cs) c b = put_all-append cs c (put_buffer d b)

-- After the text `cs` the buffer holds, from `b.pos` on, as much of it as fits.
record IsFilled (cs : List ℕ) (b b' : Buffer) : Type 0 where
  counted : b'.pos ≡ b.pos + length cs
  same_size : b'.size ≡ b.size
  stored :
      (i : ℕ) → i < length cs → b.pos + i < b.size - 1 → some (b'.buf (b.pos + i)) ≡ get_elem? cs i
  before : (i : ℕ) → i < b.pos → b'.buf i ≡ b.buf i
  behind : (i : ℕ) → b.size - 1 ≤ i → b'.buf i ≡ b.buf i

put_buffer-fields :
    (c : ℕ) (b : Buffer)
    → ((put_buffer c b).pos ≡ b.pos + 1)
      × ((put_buffer c b).size ≡ b.size)
      × (b.pos < b.size - 1 → (put_buffer c b).buf b.pos ≡ c)
      × ((i : ℕ) → i ≢ b.pos → (put_buffer c b).buf i ≡ b.buf i)
      × ((i : ℕ) → b.size - 1 ≤ i → (put_buffer c b).buf i ≡ b.buf i)
unfolding put_buffer
put_buffer-fields c b =
    (refl, refl, (λ h. ground arith), (λ i n. ground arith), (λ i h. ground arith))

stored-cons :
    (c : ℕ) (cs : List ℕ) (b b' : Buffer)
    → IsFilled cs (put_buffer c b) b'
    → (i : ℕ) → i < length (c ∷ cs)
    → b.pos + i < b.size - 1
    → some (b'.buf (b.pos + i)) ≡ get_elem? (c ∷ cs) i
stored-cons c cs b b' rest zero h k =
    let (moved, size, here, kept, past) = put_buffer-fields c b in
    let start : b.pos + 0 ≡ b.pos = omega arith in
    ap some (ap b'.buf start ∙ rest.before b.pos (omega (arith, moved)) ∙ here (omega arith))
stored-cons c cs b b' rest (suc i) h k =
    let (moved, size, here, kept, past) = put_buffer-fields c b in
    let next : b.pos + suc i ≡ (put_buffer c b).pos + i = omega (arith, moved) in
    ap (λ (j : ℕ). some (b'.buf j)) next ∙ rest.stored i (omega arith) (omega (arith, moved, size))

put_all-IsFilled : (cs : List ℕ) (b : Buffer) → IsFilled cs b (put_all put_buffer cs b)
unfolding put_all
put_all-IsFilled [] b = record {
  counted = omega arith;
  same_size = refl;
  stored = λ i h k. absurd (omega arith);
  before = λ i h. refl;
  behind = λ i h. refl;
}
put_all-IsFilled (c ∷ cs) b =
    let rest = put_all-IsFilled cs (put_buffer c b) in
    let (moved, size, here, kept, past) = put_buffer-fields c b in
    record {
      counted = rest.counted ∙ omega (arith, moved);
      same_size = rest.same_size ∙ size;
      stored = stored-cons c cs b _ rest;
      before = λ i h. rest.before i (omega (arith, moved)) ∙ kept i (omega arith);
      behind = λ i h. rest.behind i (omega (arith, size)) ∙ past i h;
    }

-- The buffer that vsnprintf leaves for the text that cprintf prints.
pub record IsPrinted (text : List ℕ) (buf : ℕ → ℕ) (size : ℕ) (buf' : ℕ → ℕ) : Type 0 where
  pub printed : (i : ℕ) → i < length text → i < size - 1 → some (buf' i) ≡ get_elem? text i
  pub ended : 0 < size → buf' (min (length text) (size - 1)) ≡ 0
  pub inside : (i : ℕ) → size ≤ i → buf' i ≡ buf i

start_buffer : (ℕ → ℕ) → ℕ → Buffer
start_buffer buf size = record { buf = buf; pos = 0; size = size }

finished : Buffer → ℕ → ℕ → ℕ
finished b size =
    if size == 0 then b.buf else update b.buf (if ltb b.pos size then b.pos else size - 1) 0

vsnprintf-put_all :
    (buf : ℕ → ℕ) (size : ℕ) (fmt : List ℕ) (args : List Arg)
    → vsnprintf buf size fmt args
      ≡ Option.map
          (λ text.
            (let b = put_all put_buffer text (start_buffer buf size) in (b.pos, finished b size)))
          (cprintf fmt args)
unfolding vsnprintf cprintf put_console finished start_buffer put_all
vsnprintf-put_all buf size fmt args =
    let write : List ℕ → Buffer = λ text. put_all put_buffer text (start_buffer buf size) in
    let same =
      vformat-map put_console put_buffer write
        (λ c text. put_all-append text c (start_buffer buf size)) fmt (plain start_spec) args [] in
    ap (Option.map (λ (b : Buffer). (b.pos, finished b size))) (sym same)
    ∙ map-map write (λ (b : Buffer). (b.pos, finished b size)) (cprintf fmt args)

stop : Buffer → ℕ → ℕ
stop b size = if ltb b.pos size then b.pos else size - 1

finished-at :
    (b : Buffer) (size i : ℕ)
    → 0 < size
    → finished b size i ≡ (if stop b size == i then 0 else b.buf i)
unfolding finished stop
finished-at b size i h = let e : (size == 0) ≡ false = ground arith in rw e refl

finished-none : (b : Buffer) (i : ℕ) → finished b 0 i ≡ b.buf i
unfolding finished
finished-none b i = refl

stop-min : (b : Buffer) (size n : ℕ) → b.pos ≡ n → 0 < size → stop b size ≡ min n (size - 1)
unfolding stop
stop-min b size n e h = ground arith

stop-above :
    (b : Buffer) (size n i : ℕ) → b.pos ≡ n → i < n → i < size - 1 → (stop b size == i) ≡ false
unfolding stop
stop-above b size n i e h k = ground arith

stop-below : (b : Buffer) (size i : ℕ) → 0 < size → size ≤ i → (stop b size == i) ≡ false
unfolding stop
stop-below b size i h k = ground arith

finished-behind :
    (b : Buffer) (buf : ℕ → ℕ) (size i : ℕ) → size ≤ i → b.buf i ≡ buf i → finished b size i ≡ buf i
finished-behind b buf zero i h e = finished-none b i ∙ e
finished-behind b buf (suc n) i h e =
    finished-at b (suc n) i (omega arith) ∙ rw (stop-below b (suc n) i (omega arith) h) e

finished-IsPrinted :
    (text : List ℕ) (buf : ℕ → ℕ) (size : ℕ)
    → IsPrinted text buf size (finished (put_all put_buffer text (start_buffer buf size)) size)
unfolding start_buffer
finished-IsPrinted text buf size =
    let b = put_all put_buffer text (start_buffer buf size) in
    let f = put_all-IsFilled text (start_buffer buf size) in
    let counted : b.pos ≡ length text = f.counted ∙ omega arith in
    record {
      printed = λ i h k.
          (let from_start : 0 + i ≡ i = omega arith in
            let apart = stop-above b size (length text) i counted h k in
            ap some (finished-at b size i (omega arith) ∙ rw apart (ap b.buf (sym from_start)))
            ∙ f.stored i h (omega arith));
      ended = λ h.
          (let at = stop-min b size (length text) counted h in
            finished-at b size _ h ∙ rw at (rw (==_refl (min (length text) (size - 1))) refl));
      inside = λ i h. finished-behind b buf size i h (f.behind i (omega arith));
    }

-- snprintf and vsnprintf return what cprintf prints: the same count, and in the buffer as much of the
-- text as fits before a NUL, which stands behind it; no byte behind the buffer's size is written. They
-- succeed on the same formats and arguments.
pub vsnprintf-cprintf :
    (buf : ℕ → ℕ) (size : ℕ) (fmt : List ℕ) (args : List Arg)
    → ((cprintf fmt args ≡ none) × (vsnprintf buf size fmt args ≡ none))
      ⊎ ((text : List ℕ) × (buf' : ℕ → ℕ) × (cprintf fmt args ≡ some text)
          × (vsnprintf buf size fmt args ≡ some (length text, buf'))
          × IsPrinted text buf size buf')
unfolding start_buffer
vsnprintf-cprintf buf size fmt args =
    let same = vsnprintf-put_all buf size fmt args in
    elim (Option-cases (cprintf fmt args)) [
      | inl e ↦ inl (e, same ∙ rw e refl)
      | inr (text, e) ↦
          let b = put_all put_buffer text (start_buffer buf size) in
          let counted : b.pos ≡ length text =
            (put_all-IsFilled text (start_buffer buf size)).counted ∙ omega arith in
          inr (
            text,
            finished b size,
            e,
            same ∙ rw e (ap (λ (n : ℕ). some (n, finished b size)) counted),
            finished-IsPrinted text buf size,
          )
    ]
