-- ===== src/Paging/Link.antt =====
-- One step of get_pte: a fresh page becomes the table at an entry that led to no table. The tree of
-- tables grows by that page, and what user_address answers stays.
use zonix_plus.Base.{
  Bool, Result, ap, arith, err, false, if◌then◌else◌, inl, inr, invalid, refl, some, suc, sym, true,
  zero, ℕ, ℕ_discrete, ◌*◌, ◌+◌, ◌/◌, ◌<◌, ◌∙◌, ◌≡◌, ◌≢◌, ◌≤◌, ◌⊎◌,
}
use zonix_plus.Pmm.Runs.{cover, IsSound}
use zonix_plus.Paging.{Format, Machine, leaf_address, level_index, page_bytes, user_walk}
use zonix_plus.Paging.Formats.{IsFormat}
use zonix_plus.Paging.Trees.{
  Agree, Agree-suc, IsTree, leads, table_of, table_of-root, table_of-step, table_of-suc,
}

abbrev pub leaf_answer : Format → ℕ → ℕ → ℕ → Bool → Result ℕ
leaf_answer f level e va write =
    if f.present e then leaf_address f level e va write else err invalid

-- From `m` to `m'`, the page `p` is taken and becomes the table at the entry for `va` of the table `t`
-- of that level.
pub record IsLinked (f : Format) (root : ℕ) (m m' : Machine) (level va t p : ℕ) (content : ℕ → ℕ)
    : Type 0 where
  pub deeper : suc level < f.levels
  pub reached : table_of f m root level va ≡ some t
  pub stops : leads f (m.entry t (level_index f va level)) ≡ false
  pub linked : m'.entry t (level_index f va level) ≡ f.make_table (p * page_bytes)
  pub filled : (k : ℕ) → k < 512 → m'.entry (p * page_bytes) k ≡ content k
  pub others :
      (s k : ℕ)
      → s ≢ p * page_bytes
      → (s ≢ t) ⊎ (k ≢ level_index f va level)
      → m'.entry s k ≡ m.entry s k
  pub was_free : 1 ≤ cover m.pmm p
  pub taken : cover m'.pmm p ≡ 0
  pub fewer : (q : ℕ) → cover m'.pmm q ≤ cover m.pmm q
  pub sound : IsSound m'.pmm
  pub dead : (k : ℕ) → k < 512 → suc (suc level) < f.levels → leads f (content k) ≡ false
  pub answers :
      (b : ℕ) (write : Bool)
      → leaf_answer f level (m.entry t (level_index f va level)) b write
        ≡ leaf_answer f (suc level) (content (level_index f b (suc level))) b write

-- One round of user_address: it goes on to the next table, or answers at this entry.
module _ (f : Format) (m : Machine) (n level t b : ℕ) (write : Bool) where
  pub user_walk-through :
      suc level < f.levels
      → leads f (m.entry t (level_index f b level)) ≡ true
      → f.table_accessible (m.entry t (level_index f b level)) write ≡ true
      → user_walk f (suc n) level t b write m
        ≡ user_walk f n (suc level) (f.addr (m.entry t (level_index f b level))) b write m
  unfolding user_walk
  user_walk-through deep goes open_ = ground arith

  pub user_walk-shut :
      leads f (m.entry t (level_index f b level)) ≡ true
      → f.table_accessible (m.entry t (level_index f b level)) write ≡ false
      → suc level < f.levels
      → user_walk f (suc n) level t b write m ≡ err invalid
  unfolding user_walk
  user_walk-shut goes shut deep = ground arith

  pub user_walk-leaf :
      level < f.levels
      → (suc level < f.levels → leads f (m.entry t (level_index f b level)) ≡ false)
      → user_walk f (suc n) level t b write m
        ≡ leaf_answer f level (m.entry t (level_index f b level)) b write
  unfolding user_walk
  user_walk-leaf deep stops = ground arith

pub user_walk-end :
    (f : Format) (m m' : Machine) (level t b : ℕ) (write : Bool)
    → user_walk f zero level t b write m ≡ user_walk f zero level t b write m'
unfolding user_walk
user_walk-end f m m' level t b write = refl

pub user_walk-same :
    (f : Format) (m m' : Machine) (n level t b : ℕ) (write : Bool)
    → m'.entry t (level_index f b level) ≡ m.entry t (level_index f b level)
    → (leads f (m.entry t (level_index f b level)) ≡ true
        → user_walk f n (suc level) (f.addr (m.entry t (level_index f b level))) b write m'
          ≡ user_walk f n (suc level) (f.addr (m.entry t (level_index f b level))) b write m)
    → user_walk f (suc n) level t b write m' ≡ user_walk f (suc n) level t b write m
unfolding user_walk
user_walk-same f m m' n level t b write entry rest = rw entry (ground (arith, rest))

pub same_place : (s k t i : ℕ) → ((s ≡ t) × (k ≡ i)) ⊎ ((s ≢ t) ⊎ (k ≢ i))
same_place s k t i = elim (ℕ_discrete s t) [
  | no ne ↦ inr (inl ne)
  | yes e ↦ elim (ℕ_discrete k i) [ no ne ↦ inr (inr ne) | yes e' ↦ inl (e, e') ]
]

pub level_index-lt : (f : Format) (va level : ℕ) → level_index f va level < 512
unfolding level_index
level_index-lt f va level = omega arith

module _ (f : Format) (limit root : ℕ) (law : IsFormat f limit) (m m' : Machine)
    (tree : IsTree f limit root m) (level va t p : ℕ) (content : ℕ → ℕ)
    (link : IsLinked f root m m' level va t p content) where
  room : p < limit
  room = tree.inside p link.was_free

  fresh_other : (l b s : ℕ) → l < f.levels → table_of f m root l b ≡ some s → s ≢ p * page_bytes
  fresh_other l b s lt h e =
      let held : cover m.pmm (s / page_bytes) ≡ 0 = tree.held l b s lt h in
      let at : s / page_bytes ≡ p = omega (arith, e) in
      let none_left : cover m.pmm p ≡ 0 = rw (← at) held in omega (arith, link.was_free, none_left)

  other_entry :
      (l b s : ℕ)
      → l < f.levels
      → table_of f m root l b ≡ some s
      → (s ≢ t) ⊎ (level_index f b l ≢ level_index f va level)
      → m'.entry s (level_index f b l) ≡ m.entry s (level_index f b l)
  other_entry l b s lt h ne = link.others s (level_index f b l) (fresh_other l b s lt h) ne

  -- The entry that changed is reached at its own level only.
  at_level :
      (l b : ℕ) → l < f.levels → table_of f m root l b ≡ some t → (l ≡ level) × Agree f l b va
  at_level l b lt h = tree.unique l b level va t lt (omega (arith, link.deeper)) h link.reached

  -- A table that is reached afterwards was reached before, or is the fresh one.
  table_of-linked :
      (l b s : ℕ)
      → l < f.levels
      → table_of f m' root l b ≡ some s
      → (table_of f m root l b ≡ some s)
        ⊎ ((s ≡ p * page_bytes) × (l ≡ suc level) × Agree f (suc level) b va)
  table_of-linked zero b s lt h =
      inl (table_of-root f m root b ∙ sym (table_of-root f m' root b) ∙ h)
  table_of-linked (suc l) b s lt h =
      let (u, e, goes, at) = table_of-suc f m' root l b s h in
      elim (table_of-linked l b u (omega (arith, lt)) e) [
        | inl old ↦ elim (same_place u (level_index f b l) t (level_index f va level)) [
          | inl (e₁, e₂) ↦
              let (same, agree) = at_level l b (omega (arith, lt)) (rw (← e₁) old) in
              let found : f.addr (f.make_table (p * page_bytes)) ≡ s =
                rw (← link.linked, ← e₁, ← e₂) at in
              inr (
                sym found ∙ law.table_addr p room,
                ap suc same,
                rw (← same) (Agree-suc f l b va agree (e₂ ∙ sym (ap (level_index f va) same))),
              )
          | inr ne ↦
              let entry = other_entry l b u (omega (arith, lt)) old ne in
              inl (table_of-step f m root l b u old (rw (← entry) goes) ∙ ap some (rw (← entry) at))
        ]
        | inr (e₁, e₂, agree) ↦
            let entry = link.filled (level_index f b l) (level_index-lt f b l) in
            let leading : leads f (content (level_index f b l)) ≡ true = rw (← entry, ← e₁) goes in
            absurd (
              ground (
                arith,
                leading,
                link.dead (level_index f b l) (level_index-lt f b l) (omega (arith, e₂, lt)),
              ))
      ]

  -- Down to the level of the change, the walk for `va` is as before.
  pub table_of-kept :
      (l s : ℕ) → l ≤ level → table_of f m root l va ≡ some s → table_of f m' root l va ≡ some s
  table_of-kept zero s le h = table_of-root f m' root va ∙ sym (table_of-root f m root va) ∙ h
  table_of-kept (suc l) s le h =
      let (u, e, goes, at) = table_of-suc f m root l va s h in
      let lt : l < f.levels = omega (arith, le, link.deeper) in
      let ne : u ≢ t = λ same. absurd (omega (arith, le, (at_level l va lt (rw (← same) e)).0)) in
      let entry = other_entry l va u lt e (inl ne) in
      table_of-step f m' root l va u (table_of-kept l u (omega (arith, le)) e) (rw entry goes)
      ∙ ap some (rw entry at)

  pub table_of-fresh : table_of f m' root (suc level) va ≡ some (p * page_bytes)
  table_of-fresh =
      table_of-step f m' root level va t (table_of-kept level t (omega arith) link.reached)
        (rw link.linked (ground (arith, law.table_present p room, law.table_is_block p room)))
      ∙ ap some (rw link.linked (law.table_addr p room))

  pub linked-IsTree : IsTree f limit root m'
  linked-IsTree = record {
    sound = link.sound;
    inside = λ q h. tree.inside q (omega (arith, h, link.fewer q));
    held = λ l b s lt h. elim (table_of-linked l b s lt h) [
      | inl old ↦ omega (arith, tree.held l b s lt old, link.fewer (s / page_bytes))
      | inr (e, same, agree) ↦ let at : s / page_bytes ≡ p = omega (arith, e) in rw at link.taken
    ];
    unique = λ l a k b s lt lt' h h'. elim (table_of-linked l a s lt h) [
      | inl old ↦ elim (table_of-linked k b s lt' h') [
        | inl old' ↦ tree.unique l a k b s lt lt' old old'
        | inr (e, at, agree) ↦ absurd (fresh_other l a s lt old e)
      ]
      | inr (e, at, agree) ↦ elim (table_of-linked k b s lt' h') [
        | inl old' ↦ absurd (fresh_other k b s lt' old' e)
        | inr (e', at', agree') ↦ (
          at ∙ sym at',
          λ j h. agree j (omega (arith, h, at)) ∙ sym (agree' j (omega (arith, h, at))),
        )
      ]
    ];
  }

  -- Below the changed entry, user_address answers what it answered at it.
  user_walk-changed :
      (n b : ℕ) (write : Bool)
      → level + suc n ≡ f.levels
      → level_index f b level ≡ level_index f va level
      → user_walk f (suc n) level t b write m' ≡ user_walk f (suc n) level t b write m
  user_walk-changed zero b write deep e = absurd (omega (arith, deep, link.deeper))
  user_walk-changed (suc n) b write deep e =
      let k = level_index f b (suc level) in
      let small = level_index-lt f b (suc level) in
      let pa = p * page_bytes in
      let entry : m'.entry t (level_index f b level) ≡ f.make_table pa = rw e link.linked in
      let old : leaf_answer f level (m.entry t (level_index f b level)) b write
          ≡ leaf_answer f (suc level) (m'.entry pa k) b write =
        rw (e, link.filled k small) (link.answers b write) in
      let down : user_walk f (suc (suc n)) level t b write m'
          ≡ user_walk f (suc n) (suc level) pa b write m' =
        user_walk-through f m' (suc n) level t b write link.deeper
          (rw entry (ground (arith, law.table_present p room, law.table_is_block p room)))
          (rw entry (law.table_open p write room))
        ∙ rw (entry, law.table_addr p room) refl in
      down
      ∙ user_walk-leaf f m' n (suc level) pa b write link.deeper
          (λ h. rw (link.filled k small) (link.dead k small h))
      ∙ sym old
      ∙ sym (
          user_walk-leaf f m (suc n) level t b write (omega (arith, link.deeper))
            (λ h. rw e link.stops))

  pub user_walk-linked :
      (n l b s : ℕ) (write : Bool)
      → l + n ≡ f.levels
      → table_of f m root l b ≡ some s
      → user_walk f n l s b write m' ≡ user_walk f n l s b write m
  user_walk-linked zero l b s write deep h = user_walk-end f m' m l s b write
  user_walk-linked (suc n) l b s write deep h =
      let lt : l < f.levels = omega (arith, deep) in
      elim (same_place s (level_index f b l) t (level_index f va level)) [
        | inl (e₁, e₂) ↦
            let (at, agree) = at_level l b lt (rw (← e₁) h) in
            let same : level_index f b level ≡ level_index f va level =
              ap (level_index f b) (sym at) ∙ e₂ in
            rw (at, e₁) (user_walk-changed n b write (omega (arith, deep, at)) same)
        | inr ne ↦
            let entry = other_entry l b s lt h ne in
            user_walk-same f m m' n l s b write entry λ goes.
              (user_walk-linked n (suc l) b (f.addr (m.entry s (level_index f b l))) write
                (omega (arith, deep)) (table_of-step f m root l b s h goes))
      ]
