-- ===== src/Pmm/Alloc.antt =====
-- `alloc` takes the pages that it returns out of the free runs, and nothing else.
use zonix_plus.Base.{
  All, All-In, All-insert_after, All-mono, All-of_In, All-remove, Bool-cases, In, In-insert_after,
  List, NotIn, NotIn-of_not, Option-cases, [], ap, arith, false, fun_ext, if◌then◌else◌, inl, inr,
  insert_after, leb, ltb, ltb→lt, none, refl, remove, some, sum_of, sum_of-eq, sum_of-insert_after,
  sum_of-le_both, sum_of-le_self, sum_of-remove, sym, tests, true, ℕ, ◌&&◌, ◌++◌, ◌+◌, ◌-◌, ◌<◌,
  ◌==◌, ◌↔◌, ◌∷◌, ◌≡◌, ◌≢◌, ◌≤◌,
}
use zonix_plus.Pmm.{Page, Pmm, first_fit, split_run, take_run, alloc}
use zonix_plus.Pmm.Runs.{
  size, in_run, covers, cover, IsSound, in_run_self, in_run-inside, in_run-split,
}

-- The search returns a run of the list that is large enough.
first_fit-some :
    (n : ℕ) (page : ℕ → Page) (xs : List ℕ) (p : ℕ)
    → first_fit n page xs ≡ some p
    → In p xs × (n ≤ size page p)
unfolding first_fit
first_fit-some n page [] p h = cc
first_fit-some n page (x ∷ xs) p h = elim (Bool-cases (leb n (size page x))) [
  | inl e ↦ let q : x ≡ p = ground arith in (inl (sym q), rw (← q) (omega (tests, e)))
  | inr e ↦ let (i, m) = first_fit-some n page xs p (ground arith) in (inr i, m)
]

first_fit-none :
    (n : ℕ) (page : ℕ → Page) (xs : List ℕ)
    → first_fit n page xs ≡ none
    → All (λ p. size page p < n) xs
unfolding first_fit
first_fit-none n page [] h = tt
first_fit-none n page (x ∷ xs) h = elim (Bool-cases (leb n (size page x))) [
  | inl e ↦ absurd (ground arith)
  | inr e ↦ (ground arith, first_fit-none n page xs (ground arith))
]

first_fit-of_All :
    (n : ℕ) (page : ℕ → Page) (xs : List ℕ)
    → All (λ p. size page p < n) xs
    → first_fit n page xs ≡ none
unfolding first_fit
first_fit-of_All n page [] h = refl
first_fit-of_All n page (x ∷ xs) h = ground (arith, h.0, first_fit-of_All n page xs h.1)

-- The runs before the one that is found are too small.
first_fit-first :
    (n : ℕ) (page : ℕ → Page) (xs : List ℕ) (p : ℕ)
    → first_fit n page xs ≡ some p
    → (before : List ℕ) × (behind : List ℕ) × (xs ≡ before ++ p ∷ behind)
      × All (λ q. size page q < n) before
unfolding first_fit
first_fit-first n page [] p h = cc
first_fit-first n page (x ∷ xs) p h = elim (Bool-cases (leb n (size page x))) [
  | inl e ↦ let d : x ≡ p = ground arith in ([], xs, ap (λ t. t ∷ xs) d, tt)
  | inr e ↦
      let (before, behind, split, small) = first_fit-first n page xs p (ground arith) in
      (x ∷ before, behind, ap (◌∷◌ x) split, (ground arith, small))
]

module _ (s : Pmm) (sound : IsSound s) (p n : ℕ) (pos : 0 < n) (listed : In p s.free_list)
    (fits : n ≤ size s.page p) where
  -- The rest of the run does not head another run.
  rest-NotIn : n < size s.page p → NotIn (p + n) s.free_list
  rest-NotIn more = NotIn-of_not (p + n) s.free_list λ i. absurd (
      omega (
        arith,
        sum_of-le_both (covers s.page (p + n)) p (p + n) s.free_list listed i (omega arith),
        sound.disjoint (p + n),
        in_run-inside p (size s.page p) (p + n) (omega arith) (omega arith),
        in_run_self (p + n) (size s.page (p + n)) (All-In _ s.free_list (p + n) sound.nonempty i),
      ))

  size-take_run :
      (q : ℕ)
      → size (take_run p n s).page q
        ≡ (if ltb n (size s.page p) && (p + n == q) then size s.page p - n else size s.page q)
  unfolding take_run split_run
  size-take_run q = ground arith

  free_list-take_run : (take_run p n s).free_list ≡ (
      if ltb n (size s.page p)
      then remove p (insert_after p (p + n) s.free_list)
      else remove p s.free_list)
  unfolding take_run split_run
  free_list-take_run = ground arith

  -- For a measure of runs, what the list loses is the measure `a` of the pages that are taken.
  module _ (m : ℕ → ℕ → ℕ) (a : ℕ)
      (splits : m p (size s.page p)
        ≡ a + (if ltb n (size s.page p) then m (p + n) (size s.page p - n) else 0)) where
    abbrev before : ℕ → ℕ
    before q = m q (size s.page q)

    abbrev after : ℕ → ℕ
    after q = m q (size (take_run p n s).page q)

    after-eq : (q : ℕ) → p + n ≢ q → after q ≡ before q
    after-eq q ne = ap (m q) (ground (arith, size-take_run q))

    sum-split :
        ltb n (size s.page p) ≡ true
        → sum_of before s.free_list
          ≡ a + sum_of after (remove p (insert_after p (p + n) s.free_list))
    sum-split more =
        let tail : after (p + n) ≡ m (p + n) (size s.page p - n) =
          ap (m (p + n)) (ground (arith, size-take_run (p + n))) in
        let cut : before p ≡ a + m (p + n) (size s.page p - n) = ground (arith, splits) in
        omega (
          arith,
          sum_of-remove after p (insert_after p (p + n) s.free_list)
              (In-insert_after p (p + n) p s.free_list listed),
          sum_of-insert_after after p (p + n) s.free_list listed,
          sum_of-eq before after (p + n) s.free_list (rest-NotIn (ltb→lt _ _ more)) after-eq,
          after-eq p (omega arith),
          tail,
          cut,
        )

    sum-whole :
        ltb n (size s.page p) ≡ false
        → sum_of before s.free_list ≡ a + sum_of after (remove p s.free_list)
    sum-whole same =
        let sizes : (q : ℕ) → after q ≡ before q =
          λ q. ap (m q) (ground (arith, size-take_run q)) in
        let cut : before p ≡ a = ground (arith, splits) in
        rw (fun_ext sizes) (omega (arith, sum_of-remove before p s.free_list listed, cut))

    sum-take_run : sum_of before s.free_list ≡ a + sum_of after (take_run p n s).free_list
    sum-take_run = elim (Bool-cases (ltb n (size s.page p))) [
      | inl more ↦ rw free_list-take_run (rw more (sum-split more))
      | inr same ↦ rw free_list-take_run (rw same (sum-whole same))
    ]

  cover-take_run : (i : ℕ) → cover s i ≡ in_run p n i + cover (take_run p n s) i
  cover-take_run i =
      sum-take_run (λ q z. in_run q z i) (in_run p n i) (in_run-split p n (size s.page p) i fits)

  count-take_run :
      sum_of (size s.page) s.free_list
      ≡ n + sum_of (size (take_run p n s).page) (take_run p n s).free_list
  count-take_run = sum-take_run (λ q z. z) n (ground arith)

  nonempty-take_run : All (λ q. 0 < size (take_run p n s).page q) (take_run p n s).free_list
  nonempty-take_run =
      let keeps : (q : ℕ) → 0 < size s.page q → 0 < size (take_run p n s).page q =
        λ q h. ground (arith, size-take_run q) in
      let kept = All-mono _ _ s.free_list keeps sound.nonempty in
      elim (Bool-cases (ltb n (size s.page p))) [
        | inl more ↦ rw free_list-take_run (
            rw more (
              All-remove _ p _ (
                All-insert_after _ p (p + n) s.free_list kept
                  (ground (arith, size-take_run (p + n))))))
        | inr same ↦ rw free_list-take_run (rw same (All-remove _ p s.free_list kept))
      ]

  free_page_count-take_run : (take_run p n s).free_page_count ≡ s.free_page_count - n
  unfolding take_run split_run
  free_page_count-take_run = ground arith

  take_run-IsSound : IsSound (take_run p n s)
  take_run-IsSound = record {
    nonempty = nonempty-take_run;
    disjoint = λ i. omega (arith, cover-take_run i, sound.disjoint i);
    counted = omega (arith, free_page_count-take_run, count-take_run, sound.counted);
    bounded = omega (arith, free_page_count-take_run, sound.bounded);
  }

-- What a successful call did: the run was in the list, was large enough, and was taken.
pub alloc-some :
    (n : ℕ) (s s' : Pmm) (p : ℕ)
    → alloc n s ≡ (some p, s')
    → In p s.free_list × (n ≤ size s.page p) × (s' ≡ take_run p n s)
unfolding alloc
alloc-some n s s' p h = elim (Bool-cases (ltb s.free_page_count n)) [
  | inl short ↦ absurd (ground arith)
  | inr room ↦ elim (Option-cases (first_fit n s.page s.free_list)) [
    | inl e ↦ absurd (ground arith)
    | inr (q, e) ↦
        let (i, m) = first_fit-some n s.page s.free_list q e in
        let d : q ≡ p = ground arith in (rw (← d) i, rw (← d) m, ground arith)
  ]
]

-- From a sound state, an allocation of n > 0 pages that succeeds leaves a sound state, whose free
-- pages with the n pages from the returned one are the free pages from before, each as often, and
-- whose counter is n less.
pub alloc-cover :
    (n : ℕ) (s s' : Pmm) (p : ℕ)
    → IsSound s
    → 0 < n
    → alloc n s ≡ (some p, s')
    → IsSound s'
      × ((i : ℕ) → cover s i ≡ in_run p n i + cover s' i)
      × (s'.free_page_count + n ≡ s.free_page_count)
alloc-cover n s s' p sound pos h =
    let (i, m, e) = alloc-some n s s' p h in
    rw e (
      take_run-IsSound s sound p n pos i m,
      cover-take_run s sound p n pos i m,
      omega (
        arith,
        free_page_count-take_run s sound p n pos i m,
        sum_of-le_self (size s.page) p s.free_list i,
        sound.counted,
        m,
      ),
    )

alloc-ne-none :
    (n : ℕ) (s : Pmm) (p : ℕ)
    → ltb s.free_page_count n ≡ false
    → first_fit n s.page s.free_list ≡ some p
    → (alloc n s).0 ≢ none
unfolding alloc
alloc-ne-none n s p room e h = ground arith

alloc-eq-none : (n : ℕ) (s : Pmm) → first_fit n s.page s.free_list ≡ none → (alloc n s).0 ≡ none
unfolding alloc
alloc-eq-none n s e = ground arith

alloc-first_fit :
    (n : ℕ) (s s' : Pmm) (p : ℕ)
    → alloc n s ≡ (some p, s')
    → first_fit n s.page s.free_list ≡ some p
unfolding alloc
alloc-first_fit n s s' p h = ground arith

-- From a sound state, an allocation fails exactly when no free run is large enough, and then
-- changes nothing.
pub alloc-none :
    (n : ℕ) (s : Pmm)
    → IsSound s
    → (((alloc n s).0 ≡ none) ↔ All (λ p. size s.page p < n) s.free_list)
      × ((alloc n s).0 ≡ none → (alloc n s).1 ≡ s)
unfolding alloc
alloc-none n s sound = (
  (
    λ h. elim (Bool-cases (ltb s.free_page_count n)) [
      | inl short ↦
          All-of_In _ s.free_list
            λ p i. omega (tests, short, sum_of-le_self (size s.page) p s.free_list i, sound.counted)
      | inr room ↦ elim (Option-cases (first_fit n s.page s.free_list)) [
        | inl e ↦ first_fit-none n s.page s.free_list e
        | inr (p, e) ↦ absurd (alloc-ne-none n s p room e h)
      ]
    ],
    λ small. alloc-eq-none n s (first_fit-of_All n s.page s.free_list small),
  ),
  ground arith,
)

no_runs :
    (page : ℕ → Page) (i : ℕ) (ps : List ℕ)
    → All (λ p. 0 < size page p) ps
    → All (λ p. size page p < 1) ps
    → sum_of (covers page i) ps ≡ 0
no_runs page i [] pos small = refl
no_runs page i (p ∷ ps) pos small = absurd (omega (arith, pos.0, small.0))

-- From a sound state, an allocation of one page fails only if no page is free.
pub alloc-exhausted : (s : Pmm) → IsSound s → (alloc 1 s).0 ≡ none → (i : ℕ) → cover s i ≡ 0
alloc-exhausted s sound e i =
    no_runs s.page i s.free_list sound.nonempty ((alloc-none 1 s sound).0.0 e)

-- First fit: an allocation takes the first run of the free list that is large enough.
pub alloc-first :
    (n : ℕ) (s s' : Pmm) (p : ℕ)
    → alloc n s ≡ (some p, s')
    → (before : List ℕ) × (behind : List ℕ) × (s.free_list ≡ before ++ p ∷ behind)
      × All (λ q. size s.page q < n) before
      × (n ≤ size s.page p)
alloc-first n s s' p h =
    let (before, behind, split, small) =
      first_fit-first n s.page s.free_list p (alloc-first_fit n s s' p h) in
    (before, behind, split, small, (alloc-some n s s' p h).1)
