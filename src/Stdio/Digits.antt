-- ===== src/Stdio/Digits.antt =====
-- The digits that put_int writes.
use mathlib.Core.Option
use zonix_plus.Base.{
  ==→eq, Bool, Bool-cases, List, [], ap, arith, false, if◌then◌else◌, inl, inr, length, ltb, refl,
  some, suc, sym, true, zero, ℕ, ◌%◌, ◌*◌, ◌+◌, ◌-◌, ◌/◌, ◌<◌, ◌==◌, ◌^◌, ◌∙◌, ◌∷◌, ◌≡◌, ◌≤◌, ◌⊎◌,
}
use zonix_plus.Stdio.{digit_char, digits_of, digits, num_buf_size}

-- The value of a digit, and of a number written with its lowest digit first.
abbrev pub digit_value : ℕ → ℕ
digit_value c = if ltb c b'A' then c - b'0' else c - b'A' + 10

abbrev pub number : ℕ → List ℕ → ℕ
number base [] = 0
number base (c ∷ cs) = digit_value c + base * number base cs

digit_char-value : (d : ℕ) → d < 16 → digit_value (digit_char d) ≡ d
unfolding digit_char
digit_char-value d h = ground arith

-- `ds` is the number's digits, of which there are at most `room`.
record IsNumber (num base room : ℕ) (ds : List ℕ) : Type 0 where
  value : number base ds ≡ num
  short : length ds ≤ room

digits_of-suc :
    (room num base : ℕ)
    → digits_of (suc room) num base ≡ (
        if num == 0
        then some []
        else Option.map (λ ds. digit_char (num % base) ∷ ds) (digits_of room (num / base) base))
unfolding digits_of
digits_of-suc room num base = refl

digits_of-zero : (base : ℕ) → digits_of 0 0 base ≡ some []
unfolding digits_of
digits_of-zero base = refl

-- vformat prints to these bases.
abbrev pub IsBase : ℕ → Type 0
IsBase base = (base ≡ 10) ⊎ (base ≡ 16)

-- 10 to the power of `room`
abbrev bound : ℕ → ℕ
bound zero = 1
bound (suc room) = 10 * bound room

base_facts :
    (base num b : ℕ)
    → IsBase base
    → (num % base < 16)
      × (num < 10 * b → num / base < b)
      × ((v : ℕ) → v ≡ num / base → num % base + base * v ≡ num)
base_facts base num b (inl e) = rw e (omega arith, (λ h. omega arith), (λ v q. omega arith))
base_facts base num b (inr e) = rw e (omega arith, (λ h. omega arith), (λ v q. omega arith))

digits_of-IsNumber :
    (room num base : ℕ)
    → IsBase base
    → num < bound room
    → (ds : List ℕ) × (digits_of room num base ≡ some ds) × IsNumber num base room ds
digits_of-IsNumber zero num base b h =
    let none_left : num ≡ 0 = omega arith in
    (
      [],
      ap (λ (n : ℕ). digits_of 0 n base) none_left ∙ digits_of-zero base,
      record { value = sym none_left; short = omega arith },
    )
digits_of-IsNumber (suc room) num base b h =
    let (low, small, whole) = base_facts base num (bound room) b in
    let (ds, f, i) = digits_of-IsNumber room (num / base) base b (small h) in
    let step = digits_of-suc room num base in
    elim (Bool-cases (num == 0)) [
      | inl e ↦ ([], step ∙ rw e refl, record { value = sym (==→eq num 0 e); short = omega arith })
      | inr e ↦
          let d = digit_char-value (num % base) low in
          let all : List ℕ = digit_char (num % base) ∷ ds in
          let out : (if num == 0
                then some []
                else Option.map (λ cs. digit_char (num % base) ∷ cs)
                    (digits_of room (num / base) base))
              ≡ some all =
            rw e (rw f refl) in
          (
            all,
            step ∙ out,
            record {
              value = ap (λ (x : ℕ). x + base * number base ds) d ∙ whole (number base ds) i.value;
              short = omega (arith, i.short);
            },
          )
    ]

digits-zero : (num base : ℕ) → (num == 0) ≡ true → digits num base ≡ some (b'0' ∷ [])
unfolding digits
digits-zero num base e =
    ap (λ (z : Bool). if z then some (b'0' ∷ []) else digits_of num_buf_size num base) e

digits-some :
    (num base : ℕ) → (num == 0) ≡ false → digits num base ≡ digits_of num_buf_size num base
unfolding digits
digits-some num base e =
    ap (λ (z : Bool). if z then some (b'0' ∷ []) else digits_of num_buf_size num base) e

number-nonempty :
    (base num : ℕ) (ds : List ℕ) → (num == 0) ≡ false → number base ds ≡ num → 1 ≤ length ds
number-nonempty base num [] e v = ground arith
number-nonempty base num (d ∷ ds) e v = omega arith

-- The 64-bit numbers that vformat prints, to base 10 or 16, never write behind the 21 bytes of
-- put_int's buffer: there are at most 21 digits, at least one, and they are the number's.
pub digits-number :
    (num base : ℕ)
    → IsBase base
    → num < 2 ^ 64
    → (ds : List ℕ) × (digits num base ≡ some ds)
      × (number base ds ≡ num)
      × (1 ≤ length ds)
      × (length ds ≤ num_buf_size)
digits-number num base b h =
    let (ds, f, i) = digits_of-IsNumber num_buf_size num base b (omega arith) in
    elim (Bool-cases (num == 0)) [
      | inl e ↦ (
        b'0' ∷ [],
        digits-zero num base e,
        omega (arith, ==→eq num 0 e),
        omega arith,
        omega arith,
      )
      | inr e ↦
          (ds, digits-some num base e ∙ f, i.value, number-nonempty base num ds e i.value, i.short)
    ]
