-- ===== src/Blk/Registry.antt =====
-- The registry stays without repetition and within its array.
use mathlib.Core.List.{append-nil, append_assoc}
use zonix_plus.Base.{
  Apart, Apart-comm, Bool-cases, Distinct, Error, List, NotIn, Option, Result-cases, [], ap,
  append-Distinct, append-NotIn, arith, err, false, full, inl, inr, invalid, leb, leb→le, length,
  length-append, map, none, ok, refl, some, success, sym, true, ℕ, ◌++◌, ◌+◌, ◌-◌, ◌∙◌, ◌∷◌, ◌≡◌,
  ◌≢◌, ◌≤◌, ◌⊎◌,
}
use zonix_plus.Blk.{check_devices, is_registered, max_devices, register_devices}

pub record IsRegistry (ds : List ℕ) : Type 0 where
  pub few : length ds ≤ max_devices
  pub once : Distinct ds

is_registered-NotIn : (d : ℕ) (ds : List ℕ) → is_registered d ds ≡ false → NotIn d ds
is_registered-NotIn d [] h = tt
is_registered-NotIn d (e ∷ ds) h =
    ((λ p. ground (arith, h, p)), is_registered-NotIn d ds (ground (arith, h)))

Distinct-cons_last :
    (d : ℕ) (xs ys : List ℕ)
    → NotIn d xs
    → NotIn d ys
    → Distinct (xs ++ ys)
    → Distinct (xs ++ (ys ++ d ∷ []))
Distinct-cons_last d xs ys m n k =
    let apart : Apart (d ∷ []) (xs ++ ys) = (append-NotIn d xs ys m n, tt) in
    let all =
      append-Distinct (xs ++ ys) (d ∷ []) k (tt, tt) (Apart-comm (d ∷ []) (xs ++ ys) apart) in
    rw (sym (append_assoc xs ys (d ∷ []))) all

check_devices-Distinct :
    (ds : List (Option ℕ)) (before registered new : List ℕ)
    → check_devices ds before registered ≡ ok new
    → Distinct (registered ++ before)
    → Distinct (registered ++ new) × (length new ≡ length before + length ds)
unfolding check_devices
check_devices-Distinct [] before registered new e k =
    let same : before ≡ new = cc in (rw (sym same) k, omega (arith, ap length same))
check_devices-Distinct (none ∷ ds) before registered new e k = absurd cc
check_devices-Distinct (some d ∷ ds) before registered new e k =
    let a : is_registered d registered ≡ false = ground (arith, e) in
    let b : is_registered d before ≡ false = ground (arith, e) in
    let rest : check_devices ds (before ++ d ∷ []) registered ≡ ok new = ground (arith, e) in
    let k' =
      Distinct-cons_last d registered before (is_registered-NotIn d registered a)
        (is_registered-NotIn d before b) k in
    let (distinct, count) = check_devices-Distinct ds (before ++ d ∷ []) registered new rest k' in
    (distinct, omega (arith, count, length-append before (d ∷ [])))

-- The devices that pass are those of the request, in its order.
check_devices-all :
    (ds : List (Option ℕ)) (before registered new : List ℕ)
    → check_devices ds before registered ≡ ok new
    → (devs : List ℕ) × (new ≡ before ++ devs) × (ds ≡ map some devs)
unfolding check_devices
check_devices-all [] before registered new e =
    let same : before ≡ new = cc in ([], sym same ∙ sym (append-nil before), refl)
check_devices-all (none ∷ ds) before registered new e = absurd cc
check_devices-all (some d ∷ ds) before registered new e =
    let rest : check_devices ds (before ++ d ∷ []) registered ≡ ok new = ground (arith, e) in
    let (devs, p, q) = check_devices-all ds (before ++ d ∷ []) registered new rest in
    (d ∷ devs, p ∙ append_assoc before (d ∷ []) devs, ap (λ t. some d ∷ t) q)

-- A request that does not pass is answered with an error.
check_devices-fails :
    (ds : List (Option ℕ)) (before registered : List ℕ) (er : Error)
    → check_devices ds before registered ≡ err er
    → er ≢ success
unfolding check_devices
check_devices-fails [] before registered er e = absurd cc
check_devices-fails (none ∷ ds) before registered er e = λ p. ground (arith, e, p)
check_devices-fails (some d ∷ ds) before registered er e =
    elim (Bool-cases (is_registered d registered)) [
      | inl old ↦ λ p. ground (arith, e, p, old)
      | inr new ↦ elim (Bool-cases (is_registered d before)) [
        | inl twice ↦ λ p. ground (arith, e, p, new, twice)
        | inr once ↦
            check_devices-fails ds (before ++ d ∷ []) registered er (ground (arith, e, new, once))
      ]
    ]

register_devices-null :
    (registered : List ℕ) → register_devices none registered ≡ (invalid, registered)
unfolding register_devices
register_devices-null registered = refl

register_devices-ok :
    (ds : List (Option ℕ)) (registered new : List ℕ)
    → leb (length ds) (max_devices - length registered) ≡ true
    → check_devices ds [] registered ≡ ok new
    → register_devices (some ds) registered ≡ (success, registered ++ new)
unfolding register_devices
register_devices-ok ds registered new f e = rw (f, e, register_devices) refl

register_devices-err :
    (ds : List (Option ℕ)) (registered : List ℕ) (er : Error)
    → leb (length ds) (max_devices - length registered) ≡ true
    → check_devices ds [] registered ≡ err er
    → register_devices (some ds) registered ≡ (er, registered)
unfolding register_devices
register_devices-err ds registered er f e = rw (f, e, register_devices) refl

register_devices-full :
    (ds : List (Option ℕ)) (registered : List ℕ)
    → leb (length ds) (max_devices - length registered) ≡ false
    → register_devices (some ds) registered ≡ (full, registered)
unfolding register_devices
register_devices-full ds registered f = rw (f, register_devices) refl

added-IsRegistry :
    (ds : List (Option ℕ)) (registered new : List ℕ)
    → leb (length ds) (max_devices - length registered) ≡ true
    → check_devices ds [] registered ≡ ok new
    → IsRegistry registered
    → IsRegistry (registered ++ new)
added-IsRegistry ds registered new f e k =
    let start : Distinct (registered ++ []) = rw (append-nil registered) k.once in
    let (once, count) = check_devices-Distinct ds [] registered new e start in
    record {
      few = omega (arith, leb→le _ _ f, count, k.few, length-append registered new);
      once = once;
    }

-- A registration keeps the registry within its array and without repetition; it fails and leaves the
-- registry as it was, or succeeds and adds all the devices of the request behind the registered ones.
pub register_devices-IsRegistry :
    (request : Option (List (Option ℕ))) (registered : List ℕ)
    → IsRegistry registered
    → (e : Error) × (after : List ℕ) × (register_devices request registered ≡ (e, after))
      × IsRegistry after
      × (((e ≢ success) × (after ≡ registered))
          ⊎ ((e ≡ success)
              × ((new : List ℕ) × (request ≡ some (map some new)) × (after ≡ registered ++ new))))
register_devices-IsRegistry none registered k =
    (invalid, registered, register_devices-null registered, k, inl ((λ p. cc), refl))
register_devices-IsRegistry (some ds) registered k =
    elim (Bool-cases (leb (length ds) (max_devices - length registered))) [
      | inr f ↦ (full, registered, register_devices-full ds registered f, k, inl ((λ p. cc), refl))
      | inl f ↦ elim (Result-cases (check_devices ds [] registered)) [
        | inr (er, e) ↦ (
          er,
          registered,
          register_devices-err ds registered er f e,
          k,
          inl (check_devices-fails ds [] registered er e, refl),
        )
        | inl (new, e) ↦
            let (devs, p, q) = check_devices-all ds [] registered new e in
            let same = ap some q ∙ ap (λ t. some (map some t)) (sym p) in
            (
              success,
              registered ++ new,
              register_devices-ok ds registered new f e,
              added-IsRegistry ds registered new f e k,
              inr (refl, (new, same, refl)),
            )
      ]
    ]
