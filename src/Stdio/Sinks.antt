-- ===== src/Stdio/Sinks.antt =====
-- vformat does the same to any two sinks that a map relates.
use mathlib.Core.Option
use mathlib.Core.List.{reverse}
use zonix_plus.Base.{
  Bool, List, Option, [], ap, false, if◌then◌else◌, length, none, not, refl, some, suc, sym, true,
  zero, ℕ, ◌%◌, ◌&&◌, ◌+◌, ◌-◌, ◌==◌, ◌^◌, ◌∙◌, ◌∷◌, ◌≡◌,
}
use zonix_plus.Stdio.{
  Arg, word, text, Conversion, conversion, Spec, plain, digits, unsigned_arg, signed_arg, put_pad,
  put_all, put_digits, put_int, put_str, convert, format_char, go_on, vformat,
}
use zonix_plus.Stdio.Conversion.{
  minus, long, pointer, hex, unsigned, signed, string, char, percent, other, digit,
}

pub map-map :
    {A B C : Type 0} (f : A → B) (g : B → C) (o : Option A)
    → Option.map g (Option.map f o) ≡ Option.map (λ a. g (f a)) o
map-map f g none = refl
map-map f g (some a) = refl

map-ext :
    {A B : Type 0} (f g : A → B) (o : Option A)
    → ((a : A) → f a ≡ g a)
    → Option.map f o ≡ Option.map g o
map-ext f g none e = refl
map-ext f g (some a) e = ap some (e a)

if-both :
    {A B : Type 0} (b : Bool) (f : A → B) {x y : A} {x' y' : B}
    → f x ≡ x'
    → f y ≡ y'
    → f (if b then x else y) ≡ (if b then x' else y')
if-both true f e e' = e
if-both false f e e' = e'

module _ {S T : Type 0} (put : ℕ → S → S) (put' : ℕ → T → T) (h : S → T)
    (agree : (c : ℕ) (s : S) → h (put c s) ≡ put' c (h s)) where
  put_pad-map : (c n : ℕ) (s : S) → h (put_pad put c n s) ≡ put_pad put' c n (h s)
  unfolding put_pad
  put_pad-map c zero s = refl
  put_pad-map c (suc n) s = put_pad-map c n (put c s) ∙ ap (put_pad put' c n) (agree c s)

  put_all-map : (cs : List ℕ) (s : S) → h (put_all put cs s) ≡ put_all put' cs (h s)
  unfolding put_all
  put_all-map [] s = refl
  put_all-map (c ∷ cs) s = put_all-map cs (put c s) ∙ ap (put_all put' cs) (agree c s)

  if-map :
      (b : Bool) (f : S → S) (g : T → T) (s : S) (t : T)
      → h s ≡ t
      → ((x : S) → h (f x) ≡ g (h x))
      → h (if b then f s else s) ≡ (if b then g t else t)
  if-map true f g s t e k = k s ∙ ap g e
  if-map false f g s t e k = e

  put_str-map : (t : List ℕ) (p : Spec) (s : S) → h (put_str put t p s) ≡ put_str put' t p (h s)
  unfolding put_str
  put_str-map t p s =
      let pad = p.width - length t in
      let pads = λ (x : S). put_pad-map b' ' pad x in
      if-map p.left_align (put_pad put b' ' pad) (put_pad put' b' ' pad) _ _
        (put_all-map t _
          ∙ ap (put_all put' t) (
              if-map (not p.left_align) (put_pad put b' ' pad) (put_pad put' b' ' pad) s (h s) refl
                pads))
        pads

  put_digits-map :
      (ds : List ℕ) (negative : Bool) (p : Spec) (s : S)
      → h (put_digits put ds negative p s) ≡ put_digits put' ds negative p (h s)
  unfolding put_digits
  put_digits-map ds negative p s =
      let pad = p.width - (length ds + (if negative then 1 else 0)) in
      let spaces = λ (x : S). put_pad-map b' ' pad x in
      let zeros = λ (x : S). put_pad-map b'0' pad x in
      if-map p.left_align (put_pad put b' ' pad) (put_pad put' b' ' pad) _ _
        (put_all-map (reverse ds) _
          ∙ ap (put_all put' (reverse ds)) (
              if-map (not p.left_align && p.pad_chr == b'0') (put_pad put b'0' pad)
                (put_pad put' b'0' pad) _ _
                (if-map negative (put b'-') (put' b'-') _ _
                  (if-map (not p.left_align && p.pad_chr == b' ') (put_pad put b' ' pad)
                    (put_pad put' b' ' pad) s (h s) refl spaces)
                  (agree b'-'))
                zeros))
        spaces

  put_int-map :
      (num base : ℕ) (negative : Bool) (p : Spec) (s : S)
      → Option.map h (put_int put num base negative p s) ≡ put_int put' num base negative p (h s)
  unfolding put_int
  put_int-map num base negative p s =
      map-map (λ ds. put_digits put ds negative p s) h (digits num base)
      ∙ map-ext _ _ (digits num base) (λ ds. put_digits-map ds negative p s)

  abbrev with_sink : Spec × List Arg × S → Spec × List Arg × T
  with_sink (p, args, s) = (p, args, h s)

  number-map :
      (p : Spec) (args : List Arg) (num base : ℕ) (negative : Bool) (q : Spec) (s : S)
      → Option.map with_sink (Option.map (λ s'. (p, args, s')) (put_int put num base negative q s))
        ≡ Option.map (λ t'. (p, args, t')) (put_int put' num base negative q (h s))
  number-map p args num base negative q s =
      map-map (λ s'. (p, args, s')) with_sink (put_int put num base negative q s)
      ∙ sym (map-map h (λ t'. (p, args, t')) (put_int put num base negative q s))
      ∙ ap (Option.map (λ t'. (p, args, t'))) (put_int-map num base negative q s)

  convert-map :
      (c : Conversion) (p : Spec) (args : List Arg) (s : S)
      → Option.map with_sink (convert put c p args s) ≡ convert put' c p args (h s)
  unfolding convert
  convert-map minus p args s = refl
  convert-map (digit d) p args s = refl
  convert-map long p args s = refl
  convert-map pointer p [] s = refl
  convert-map pointer p (word n ∷ args) s = number-map (plain p) args (n % 2 ^ 64) 16 false p s
  convert-map pointer p (text t ∷ args) s = refl
  convert-map hex p [] s = refl
  convert-map hex p (word n ∷ args) s =
      number-map (plain p) args (unsigned_arg p.long_flag n) 16 false p s
  convert-map hex p (text t ∷ args) s = refl
  convert-map unsigned p [] s = refl
  convert-map unsigned p (word n ∷ args) s =
      number-map (plain p) args (unsigned_arg p.long_flag n) 10 false p s
  convert-map unsigned p (text t ∷ args) s = refl
  convert-map signed p [] s = refl
  convert-map signed p (word n ∷ args) s =
      let v = signed_arg p.long_flag n in number-map (plain p) args v.1 10 v.0 p s
  convert-map signed p (text t ∷ args) s = refl
  convert-map string p [] s = refl
  convert-map string p (word n ∷ args) s = refl
  convert-map string p (text t ∷ args) s =
      ap (λ (x : T). some (plain p, args, x)) (put_str-map t p s)
  convert-map char p [] s = refl
  convert-map char p (word n ∷ args) s = ap (λ (x : T). some (plain p, args, x)) (agree (n % 256) s)
  convert-map char p (text t ∷ args) s = refl
  convert-map percent p args s = ap (λ (x : T). some (plain p, args, x)) (agree b'%' s)
  convert-map other p args s = refl

  format_char-map :
      (c : ℕ) (p : Spec) (args : List Arg) (s : S)
      → Option.map with_sink (format_char put c p args s) ≡ format_char put' c p args (h s)
  unfolding format_char
  format_char-map c p args s =
      if-both p.in_spec (Option.map with_sink) (convert-map (conversion c) p args s) (
        if-both (c == b'%') (Option.map with_sink) refl
          (ap (λ (x : T). some (p, args, x)) (agree c s)))

  go_on-map :
      (o : Option (Spec × List Arg × S)) (rest : Spec → List Arg → S → Option S)
      (rest' : Spec → List Arg → T → Option T)
      → ((p : Spec) (args : List Arg) (s : S) → Option.map h (rest p args s) ≡ rest' p args (h s))
      → Option.map h (go_on o rest) ≡ go_on (Option.map with_sink o) rest'
  go_on-map none rest rest' e = refl
  go_on-map (some (p, args, s)) rest rest' e = e p args s

  pub vformat-map :
      (fmt : List ℕ) (p : Spec) (args : List Arg) (s : S)
      → Option.map h (vformat put fmt p args s) ≡ vformat put' fmt p args (h s)
  unfolding vformat
  vformat-map [] p args s = refl
  vformat-map (c ∷ fmt) p args s =
      go_on-map (format_char put c p args s) (vformat put fmt) (vformat put' fmt)
        (λ p' args' s'. vformat-map fmt p' args' s')
      ∙ ap (λ (o : Option (Spec × List Arg × T)). go_on o (vformat put' fmt))
          (format_char-map c p args s)
