-- ===== src/Paging/Outcomes.antt =====
-- The three outcomes of page_insert, and what user_address finds before and after each.
use zonix_plus.Base.{
  Bool, Bool-cases, Option-cases, Result, ap, arith, dec_lt, err, exists_already, false, inl, inr,
  invalid, no_mem, none, ok, refl, some, sym, true, ℕ, ◌%◌, ◌*◌, ◌+◌, ◌-◌, ◌<◌, ◌∙◌, ◌≡◌, ◌≢◌, ◌≤◌,
  ◌⊎◌,
}
use zonix_plus.Paging.{
  Format, Machine, enter_page, get_pte, leaf_address, level_index, page_bytes, page_insert,
  page_to_phys, user_address, user_walk,
}
use zonix_plus.Paging.Descend.{Found-none, Found-some, IsKept, Stopped, get_pte-IsKept}
use zonix_plus.Paging.Enter.{
  entered-IsTree, entered-at, table_of-entered, user_walk-entered, user_walk-whole,
}
use zonix_plus.Paging.Formats.{IsFormat}
use zonix_plus.Paging.Link.{leaf_answer}
use zonix_plus.Paging.Trees.{Agree, IsOpen, IsShut, IsTree, table_of, table_of-root}

-- A walk that answers as before makes user_address answer as before.
pub user_address-same :
    (f : Format) (m m' : Machine) (root b : ℕ) (write : Bool)
    → (b < f.user_top
        → user_walk f f.levels 0 root b write m' ≡ user_walk f f.levels 0 root b write m)
    → user_address f root b write m' ≡ user_address f root b write m
unfolding user_address
user_address-same f m m' root b write same = ground (arith, same)

pub user_address-err :
    (f : Format) (m : Machine) (root b : ℕ) (write : Bool)
    → user_walk f f.levels 0 root b write m ≡ err invalid
    → user_address f root b write m ≡ err invalid
unfolding user_address
user_address-err f m root b write h = ground (arith, h)

-- The answer of the walk is given for addresses behind the first page and below the top.
pub user_address-ok :
    (f : Format) (m : Machine) (root b : ℕ) (write : Bool) (a : ℕ)
    → user_walk f f.levels 0 root b write m ≡ ok a
    → ((user_address f root b write m ≡ ok a) × (page_bytes ≤ b) × (b < f.user_top))
      ⊎ ((user_address f root b write m ≡ err invalid) × ((b < page_bytes) ⊎ (f.user_top ≤ b)))
unfolding user_address
user_address-ok f m root b write a h = elim (dec_lt b page_bytes) [
  | yes low ↦ inr (ground arith, inl low)
  | no up ↦ elim (dec_lt b f.user_top) [
    | yes inside ↦ inl (ground (arith, h), omega (arith, up), inside)
    | no above ↦ inr (ground arith, inr (omega (arith, above)))
  ]
]

pub leaf_answer-absent :
    (f : Format) (level e va : ℕ) (write : Bool)
    → f.present e ≡ false
    → leaf_answer f level e va write ≡ err invalid
leaf_answer-absent f level e va write absent = rw absent refl

-- The entry of a page leads into the page, if it lets the access through.
pub leaf_answer-page :
    (f : Format) (limit : ℕ) (law : IsFormat f limit) (page va perm : ℕ) (write : Bool)
    → page < limit
    → let entry = f.make_page (page_to_phys page) perm in
      let answer = leaf_answer f (f.levels - 1) entry va write in
      ((answer ≡ err invalid) × (f.user_accessible entry write ≡ false))
      ⊎ ((answer ≡ ok (page_to_phys page + va % page_bytes))
          × (f.user_accessible entry write ≡ true))
unfolding leaf_address page_to_phys
leaf_answer-page f limit law page va perm write low =
    let e = f.make_page (page * page_bytes) perm in
    elim (Bool-cases (f.user_accessible e write)) [
      | inl open_ ↦ inr (
        rw (law.page_present page perm low, open_, law.shift_last, law.page_addr page perm low)
            (ap ok (omega arith)),
        open_,
      )
      | inr shut ↦ inl (rw (law.page_present page perm low, shut) refl, shut)
    ]

-- The three ways of page_insert.
module _ (f : Format) (root page va perm : ℕ) (m : Machine) where
  pub page_insert-none :
      (get_pte f root va true m).0 ≡ none
      → page_insert f root page va perm m ≡ (err no_mem, (get_pte f root va true m).1)
  unfolding page_insert
  page_insert-none e = rw (e, page_insert) refl

  pub page_insert-present :
      (t i : ℕ)
      → (get_pte f root va true m).0 ≡ some (t, i)
      → f.present ((get_pte f root va true m).1.entry t i) ≡ true
      → page_insert f root page va perm m ≡ (err exists_already, (get_pte f root va true m).1)
  unfolding page_insert
  page_insert-present t i e there = rw (e, page_insert) (rw there refl)

  pub page_insert-absent :
      (t i : ℕ)
      → (get_pte f root va true m).0 ≡ some (t, i)
      → f.present ((get_pte f root va true m).1.entry t i) ≡ false
      → page_insert f root page va perm m
        ≡ (ok tt, enter_page f page perm t i (get_pte f root va true m).1)
  unfolding page_insert
  page_insert-absent t i e absent = rw (e, page_insert) (rw absent refl)

module _ (f : Format) (limit root : ℕ) (law : IsFormat f limit) (page va perm : ℕ) (m : Machine)
    (tree : IsTree f limit root m) where
  abbrev pub last : ℕ
  last = f.levels - 1

  -- The machine that get_pte leaves.
  abbrev pub walked : Machine
  walked = (get_pte f root va true m).1

  abbrev pub result : Result (Unit {0})
  result = (page_insert f root page va perm m).0

  abbrev pub inserted : Machine
  inserted = (page_insert f root page va perm m).1

  pub record IsEntered (t : ℕ) : Type 0 where
    pub returned : result ≡ ok tt
    pub reached : table_of f walked root last va ≡ some t
    pub absent : f.present (walked.entry t (level_index f va last)) ≡ false
    pub left : inserted ≡ enter_page f page perm t (level_index f va last) walked

  pub record IsRefused : Type 0 where
    pub left : inserted ≡ walked
    pub reason :
        ((result ≡ err no_mem) × Stopped f root va true walked)
        ⊎ ((result ≡ err exists_already)
            × ((t : ℕ) × (table_of f walked root last va ≡ some t)
                × (f.present (walked.entry t (level_index f va last)) ≡ true)))

  pub walked-IsKept : IsKept f limit root m walked
  walked-IsKept = (get_pte-IsKept f limit root law true va m tree).0

  pub page_insert-cases : ((t : ℕ) × IsEntered t) ⊎ IsRefused
  page_insert-cases =
      let found = (get_pte-IsKept f limit root law true va m tree).1 in
      elim (Option-cases (get_pte f root va true m).0) [
        | inl e ↦
            let ran = page_insert-none f root page va perm m e in
            inr (record {
              left = ap (λ x. x.1) ran;
              reason = inl (
                ap (λ x. x.0) ran,
                Found-none f root va true (get_pte f root va true m).0 walked e found,
              );
            })
        | inr ((t, i), e) ↦
            let (reached, at) =
              Found-some f root va true (get_pte f root va true m).0 walked t i e found in
            elim (Bool-cases (f.present (walked.entry t i))) [
              | inl there ↦
                  let ran = page_insert-present f root page va perm m t i e there in
                  inr (record {
                    left = ap (λ x. x.1) ran;
                    reason = inr (ap (λ x. x.0) ran, (t, reached, rw (← at) there));
                  })
              | inr absent ↦
                  let ran = page_insert-absent f root page va perm m t i e absent in
                  inl (
                    t,
                    record {
                      returned = ap (λ x. x.0) ran;
                      reached = reached;
                      absent = rw (← at) absent;
                      left = ap (λ x. x.1) ran ∙ rw at refl;
                    },
                  )
            ]
      ]

  pub page_insert-IsTree : IsTree f limit root inserted
  page_insert-IsTree = elim page_insert-cases [
    | inl (t, done) ↦
        rw done.left
          (entered-IsTree f limit root law walked walked-IsKept.tree page perm va t done.reached)
    | inr refused ↦ rw refused.left walked-IsKept.tree
  ]

  pub page_insert-user_walk :
      (b : ℕ) (write : Bool)
      → ¬ Agree f f.levels b va
      → user_walk f f.levels 0 root b write inserted ≡ user_walk f f.levels 0 root b write m
  page_insert-user_walk b write apart = elim page_insert-cases [
    | inl (t, done) ↦
        rw done.left (
          user_walk-entered f limit root law walked walked-IsKept.tree page perm va t done.reached
            f.levels 0 b root write (omega arith) (table_of-root f walked root b) apart)
        ∙ walked-IsKept.answers b write
    | inr refused ↦ rw refused.left (walked-IsKept.answers b write)
  ]

  -- What user_address finds of the address, before and after.
  module _ (t : ℕ) (done : IsEntered t) (low : page < limit) where
    pub some_level : f.levels ≢ 0
    some_level = omega (arith, law.depth)

    pub user_walk-before : (write : Bool) → user_walk f f.levels 0 root va write m ≡ err invalid
    user_walk-before write =
        sym (walked-IsKept.answers va write)
        ∙ elim (user_walk-whole f walked root va t write done.reached some_level) [
          | inl (e, shut) ↦ e
          | inr (e, passes) ↦ e ∙ leaf_answer-absent f last _ va write done.absent
        ]

    pub reached-after : table_of f inserted root last va ≡ some t
    reached-after = rw done.left (
        table_of-entered f limit root law walked walked-IsKept.tree page perm va t done.reached last
          va (omega (arith, law.depth))
        ∙ done.reached)

    pub entry-after :
        inserted.entry t (level_index f va last) ≡ f.make_page (page_to_phys page) perm
    entry-after =
        rw done.left
          (entered-at f limit root law walked walked-IsKept.tree page perm va t done.reached)

    abbrev pub page_entry : ℕ
    page_entry = f.make_page (page_to_phys page) perm

    pub user_walk-after :
        (write : Bool)
        → ((user_walk f f.levels 0 root va write inserted ≡ err invalid)
            × (IsShut f inserted root va write ⊎ (f.user_accessible page_entry write ≡ false)))
          ⊎ ((user_walk f f.levels 0 root va write inserted
                ≡ ok (page_to_phys page + va % page_bytes))
              × IsOpen f inserted root va write
              × (f.user_accessible page_entry write ≡ true))
    user_walk-after write =
        elim (user_walk-whole f inserted root va t write reached-after some_level) [
          | inl (e, shut) ↦ inl (e, inl shut)
          | inr (e, passes) ↦
              let there = e ∙ ap (λ x. leaf_answer f last x va write) entry-after in
              elim (leaf_answer-page f limit law page va perm write low) [
                | inl (refused, shut) ↦ inl (there ∙ refused, inr shut)
                | inr (found, open_) ↦ inr (there ∙ found, passes, open_)
              ]
        ]
