-- ===== src/Sync/Mutexes.antt =====
-- Tasks that share a mutex, interleaved in any order.
use mathlib.Core.Bool.{true≢false}
use zonix_plus.Base.{
  Bool, In, List, Option, [], ap, arith, false, length, length-append, none, refl, some, suc, sym,
  true, ℕ, ◌++◌, ◌+◌, ◌<◌, ◌∙◌, ◌∷◌, ◌≡◌, ◌≢◌,
}
use zonix_plus.Sync.{Mutex, let_go, lock_round, try_lock, unlink_entry, wakeup_one}

-- `active` are the tasks that run in lock, `holders` those that have come back from lock or
-- try_lock with the mutex, `wakers` counts the calls of unlock before their wakeup_one. The tasks
-- that sleep are those of the wait queue.
pub record System : Type 0 where
  pub mutex : Mutex
  pub active : List ℕ
  pub holders : List ℕ
  pub wakers : ℕ

pub data Step (s : System) : System → Type 0 where
  enter : (t : ℕ) → Step s (record s { active = t ∷ s.active })
  resume :
      (t : ℕ)
      → In t s.active
      → Step s (record s { mutex = record s.mutex { waitq = unlink_entry t s.mutex.waitq } })
  take :
      (t : ℕ) (xs ys : List ℕ) (m : Mutex)
      → s.active ≡ xs ++ t ∷ ys
      → lock_round t s.mutex ≡ (true, m)
      → Step s (record s { mutex = m; active = xs ++ ys; holders = t ∷ s.holders })
  block :
      (t : ℕ) (xs ys : List ℕ) (m : Mutex)
      → s.active ≡ xs ++ t ∷ ys
      → lock_round t s.mutex ≡ (false, m)
      → Step s (record s { mutex = m; active = xs ++ ys })
  try :
      (t : ℕ) (m : Mutex)
      → try_lock t s.mutex ≡ (true, m)
      → Step s (record s { mutex = m; holders = t ∷ s.holders })
  free :
      (t : ℕ) (xs ys : List ℕ) (m : Mutex)
      → s.holders ≡ xs ++ t ∷ ys
      → let_go t s.mutex ≡ some m
      → Step s (record s { mutex = m; holders = xs ++ ys; wakers = suc s.wakers })
  wake :
      (n t : ℕ) (ts : List ℕ)
      → s.wakers ≡ suc n
      → wakeup_one s.mutex.waitq ≡ (some t, ts)
      → Step s
          (record s { mutex = record s.mutex { waitq = ts }; active = t ∷ s.active; wakers = n })
  wake_none :
      (n : ℕ)
      → s.wakers ≡ suc n
      → wakeup_one s.mutex.waitq ≡ (none, [])
      → Step s (record s { wakers = n })

abbrev pub start_system : System
start_system = record {
  mutex = record { held = false; owner = none; waitq = [] };
  active = [];
  holders = [];
  wakers = 0;
}

pub data Reach : System → Type 0 where
  start : Reach start_system
  later : {s t : System} → Reach s → Step s t → Reach t

abbrev pub Owned : Option ℕ → Bool → List ℕ → Type 0
Owned none held holders = (held ≡ false) × (holders ≡ [])
Owned (some t) held holders = (held ≡ true) × (holders ≡ t ∷ [])

-- The holder is the owner and nobody else holds the mutex; while somebody sleeps and the mutex is
-- free, somebody is awake who will take it or wake a sleeper.
pub record IsExclusive (s : System) : Type 0 where
  pub owned : Owned s.mutex.owner s.mutex.held s.holders
  pub awake : s.mutex.held ≡ false → s.mutex.waitq ≢ [] → 0 < length s.active + s.wakers

lock_round-true :
    (t : ℕ) (m m' : Mutex)
    → lock_round t m ≡ (true, m')
    → (m.held ≡ false) × (m' ≡ record m { held = true; owner = some t })
unfolding lock_round
lock_round-true t m m' e = (ground arith, ground arith)

lock_round-false :
    (t : ℕ) (m m' : Mutex)
    → lock_round t m ≡ (false, m')
    → (m.held ≡ true) × (m' ≡ record m { waitq = m.waitq ++ t ∷ [] })
unfolding lock_round
lock_round-false t m m' e = (ground arith, ground arith)

try_lock-true :
    (t : ℕ) (m m' : Mutex)
    → try_lock t m ≡ (true, m')
    → (m.held ≡ false) × (m' ≡ record m { held = true; owner = some t })
unfolding try_lock
try_lock-true t m m' e = (ground arith, ground arith)

let_go-some :
    (t : ℕ) (m m' : Mutex)
    → let_go t m ≡ some m'
    → (m.held ≡ true) × (m' ≡ record m { held = false; owner = none })
unfolding let_go
let_go-some t m m' e = (ground arith, ground arith)

wakeup_one-none : (q : List ℕ) → wakeup_one q ≡ (none, []) → q ≡ []
wakeup_one-none [] e = refl
wakeup_one-none (t ∷ ts) e = absurd cc

Owned-none : (o : Option ℕ) (b : Bool) (hs : List ℕ) → b ≡ false → Owned o b hs → hs ≡ []
Owned-none none b hs e k = k.1
Owned-none (some t) b hs e k = absurd cc

one-middle :
    (t u : ℕ) (xs ys hs : List ℕ)
    → hs ≡ xs ++ t ∷ ys
    → hs ≡ u ∷ []
    → (xs ≡ []) × (ys ≡ []) × (u ≡ t)
one-middle t u [] ys hs e f = (refl, cc, cc)
one-middle t u (x ∷ xs) ys hs e f =
    absurd (omega (arith, length-append xs (t ∷ ys), ap length (sym e ∙ f)))

-- Whoever holds the mutex is its owner, and nobody else holds it.
Owned-middle :
    (o : Option ℕ) (b : Bool) (hs xs : List ℕ) (t : ℕ) (ys : List ℕ)
    → hs ≡ xs ++ t ∷ ys
    → Owned o b hs
    → (xs ≡ []) × (ys ≡ []) × (b ≡ true) × (o ≡ some t)
Owned-middle none b hs xs t ys e k =
    absurd (omega (arith, length-append xs (t ∷ ys), ap length (sym e ∙ k.1)))
Owned-middle (some u) b hs xs t ys e k =
    let (p, q, r) = one-middle t u xs ys hs e k.1 in (p, q, k.0, ap some r)

In-length : (t : ℕ) (xs : List ℕ) → In t xs → 0 < length xs
In-length t [] i = elim i [ ]
In-length t (x ∷ xs) i = omega arith

taken-IsExclusive :
    (t : ℕ) (s : System) (active : List ℕ)
    → s.mutex.held ≡ false
    → IsExclusive s
    → IsExclusive (record s {
      mutex = record s.mutex { held = true; owner = some t };
      active = active;
      holders = t ∷ s.holders;
    })
taken-IsExclusive t s active h k = record {
  owned = (refl, ap (λ ts. t ∷ ts) (Owned-none s.mutex.owner s.mutex.held s.holders h k.owned));
  awake = λ e n. absurd (true≢false e);
}

freed-IsExclusive :
    (t : ℕ) (s : System) (xs ys : List ℕ)
    → s.holders ≡ xs ++ t ∷ ys
    → IsExclusive s
    → IsExclusive (record s {
      mutex = record s.mutex { held = false; owner = none };
      holders = xs ++ ys;
      wakers = suc s.wakers;
    })
freed-IsExclusive t s xs ys e k =
    let (p, q, h, o) = Owned-middle s.mutex.owner s.mutex.held s.holders xs t ys e k.owned in
    record { owned = (refl, rw p q); awake = λ f n. omega arith }

Step-IsExclusive : (s s' : System) → Step s s' → IsExclusive s → IsExclusive s'
Step-IsExclusive s s' (enter t) k = record { owned = k.owned; awake = λ h n. omega arith }
Step-IsExclusive s s' (resume t i) k = record {
  owned = k.owned;
  awake = λ h n. omega (arith, In-length t s.active i);
}
Step-IsExclusive s s' (take t xs ys m e l) k =
    let (h, p) = lock_round-true t s.mutex m l in rw p (taken-IsExclusive t s (xs ++ ys) h k)
Step-IsExclusive s s' (block t xs ys m e l) k =
    let (h, p) = lock_round-false t s.mutex m l in
    rw p (record { owned = k.owned; awake = λ f n. absurd (true≢false (sym h ∙ f)) })
Step-IsExclusive s s' (try t m l) k =
    let (h, p) = try_lock-true t s.mutex m l in rw p (taken-IsExclusive t s s.active h k)
Step-IsExclusive s s' (free t xs ys m e l) k =
    let (h, p) = let_go-some t s.mutex m l in rw p (freed-IsExclusive t s xs ys e k)
Step-IsExclusive s s' (wake n t ts e l) k = record { owned = k.owned; awake = λ h m. omega arith }
Step-IsExclusive s s' (wake_none n e l) k = record {
  owned = k.owned;
  awake = λ h m. absurd (m (wakeup_one-none s.mutex.waitq l));
}

-- In every reachable state at most one task holds the mutex, and it is the owner; while the mutex is
-- free and a task sleeps on it, another task is awake that takes the mutex or wakes a sleeper.
pub Reach-IsExclusive : (s : System) → Reach s → IsExclusive s
Reach-IsExclusive s start = record { owned = (refl, refl); awake = λ h n. absurd (n refl) }
Reach-IsExclusive s (later {s = r} h st) = Step-IsExclusive r s st (Reach-IsExclusive r h)

-- A task that came back from lock or try_lock is the only one, and its unlock does not fail its
-- assertion.
pub holder-let_go :
    (s : System) (xs : List ℕ) (t : ℕ) (ys : List ℕ)
    → Reach s
    → s.holders ≡ xs ++ t ∷ ys
    → (s.holders ≡ t ∷ [])
      × (let_go t s.mutex ≡ some (record s.mutex { held = false; owner = none }))
unfolding let_go
holder-let_go s xs t ys h e =
    let k = (Reach-IsExclusive s h).owned in
    let (p, q, b, o) = Owned-middle s.mutex.owner s.mutex.held s.holders xs t ys e k in
    (e ∙ (rw p (rw q refl)), ground (arith, b, o))
