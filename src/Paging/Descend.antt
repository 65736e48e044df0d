-- ===== src/Paging/Descend.antt =====
-- get_pte: every step either fails and changes nothing, follows a table, or links a fresh one.
use zonix_plus.Base.{
  Bool, Bool-cases, Option, Option-cases, ap, arith, false, inl, inr, none, refl, some, suc, true,
  zero, ℕ, ◌*◌, ◌+◌, ◌-◌, ◌<◌, ◌∙◌, ◌≡◌,
}
use zonix_plus.Pmm.Runs.{cover}
use zonix_plus.Paging.{
  Format, Machine, alloc_table_page, descend, descend_level, get_pte, level_index, page_bytes,
  split_entries, user_walk,
}
use zonix_plus.Paging.Fresh.{
  Fresh-none, Fresh-some, alloc_table_page-Fresh, empty-IsLinked, split-IsLinked,
}
use zonix_plus.Paging.Formats.{IsFormat}
use zonix_plus.Paging.Link.{IsLinked, linked-IsTree, table_of-fresh, user_walk-linked}
use zonix_plus.Paging.Trees.{
  IsTree, leads, table_of, table_of-root, table_of-above, table_of-step, table_of-suc,
}

-- What every step of get_pte keeps: the tables form a tree, and user_address answers as before.
pub record IsKept (f : Format) (limit root : ℕ) (m m' : Machine) : Type 0 where
  pub tree : IsTree f limit root m'
  pub answers :
      (b : ℕ) (write : Bool)
      → user_walk f f.levels 0 root b write m' ≡ user_walk f f.levels 0 root b write m

-- The walk for `va` stops above the last level, at an entry that leads to no table; and if tables may
-- be created, no page is free.
abbrev pub Stopped : Format → ℕ → ℕ → Bool → Machine → Type 0
Stopped f root va create m' =
    (l : ℕ) × (t : ℕ) × (suc l < f.levels)
    × (table_of f m' root l va ≡ some t)
    × (leads f (m'.entry t (level_index f va l)) ≡ false)
    × (create ≡ true → (p : ℕ) → cover m'.pmm p ≡ 0)

-- No entry, where the walk stops, or the one that the walk for `va` reaches at the last level.
abbrev pub Found : Format → ℕ → ℕ → Bool → Option (ℕ × ℕ) → Machine → Type 0
Found f root va create none m' = Stopped f root va create m'
Found f root va create (some (t, i)) m' =
    (table_of f m' root (f.levels - 1) va ≡ some t) × (i ≡ level_index f va (f.levels - 1))

pub Found-none :
    (f : Format) (root va : ℕ) (create : Bool) (r : Option (ℕ × ℕ)) (m : Machine)
    → r ≡ none
    → Found f root va create r m
    → Stopped f root va create m
Found-none f root va create none m e h = h
Found-none f root va create (some (s, j)) m e h = absurd (ground (arith, e))

pub Found-some :
    (f : Format) (root va : ℕ) (create : Bool) (r : Option (ℕ × ℕ)) (m : Machine) (t i : ℕ)
    → r ≡ some (t, i)
    → Found f root va create r m
    → (table_of f m root (f.levels - 1) va ≡ some t) × (i ≡ level_index f va (f.levels - 1))
Found-some f root va create none m t i e h = absurd (ground (arith, e))
Found-some f root va create (some (s, j)) m t i e (h, h') =
    (h ∙ ground (arith, e), ground (arith, e, h'))

-- A failed descent, or the table that the walk for `va` then reaches.
abbrev pub Descended : Format → ℕ → ℕ → ℕ → Bool → Option ℕ → Machine → Type 0
Descended f root level va create none m' = Stopped f root va create m'
Descended f root level va create (some t) m' = table_of f m' root level va ≡ some t

Descended-none :
    (f : Format) (root level va : ℕ) (create : Bool) (r : Option ℕ) (m : Machine)
    → r ≡ none
    → Descended f root level va create r m
    → Stopped f root va create m
Descended-none f root level va create none m e h = h
Descended-none f root level va create (some s) m e h = absurd (ground (arith, e))

Descended-some :
    (f : Format) (root level va : ℕ) (create : Bool) (r : Option ℕ) (m : Machine) (t : ℕ)
    → r ≡ some t
    → Descended f root level va create r m
    → table_of f m root level va ≡ some t
Descended-some f root level va create none m t e h = absurd (ground (arith, e))
Descended-some f root level va create (some s) m t e h = h ∙ e

IsKept-trans :
    (f : Format) (limit root : ℕ) (m m₁ m₂ : Machine)
    → IsKept f limit root m m₁
    → IsKept f limit root m₁ m₂
    → IsKept f limit root m m₂
IsKept-trans f limit root m m₁ m₂ h h' = record {
  tree = h'.tree;
  answers = λ b write. h'.answers b write ∙ h.answers b write;
}

module _ (f : Format) (limit root : ℕ) (law : IsFormat f limit) where
  linked-IsKept :
      (m m' : Machine) (level va t p : ℕ) (content : ℕ → ℕ)
      → IsTree f limit root m
      → IsLinked f root m m' level va t p content
      → IsKept f limit root m m' × (table_of f m' root (suc level) va ≡ some (p * page_bytes))
  linked-IsKept m m' level va t p content tree link = (
    record {
      tree = linked-IsTree f limit root law m m' tree level va t p content link;
      answers = λ b write.
          user_walk-linked f limit root law m m' tree level va t p content link f.levels 0 b root
            write (omega arith) (table_of-root f m root b);
    },
    table_of-fresh f limit root law m m' tree level va t p content link,
  )

  descend_level-IsKept :
      (create : Bool) (level va t : ℕ) (m : Machine)
      → IsTree f limit root m
      → suc level < f.levels
      → table_of f m root level va ≡ some t
      → let (r, m') = descend_level f t (level_index f va level) create level m in
        IsKept f limit root m m' × Descended f root (suc level) va create r m'
  unfolding descend_level
  descend_level-IsKept create level va t m tree deeper reached =
      let fresh = alloc_table_page-Fresh create m tree.sound in
      let (made, m₁) = alloc_table_page create m in
      let here = m.entry t (level_index f va level) in
      elim (Bool-cases (f.present here)) [
        | inl there ↦ elim (Bool-cases (f.is_block here)) [
          | inl block ↦ elim (Option-cases made) [
            | inl e ↦
                let (same, spent) = Fresh-none create m m₁ made e fresh in
                rw (there, block, e, same)
                  (
                    record { tree = tree; answers = λ b write. refl },
                    (level, t, deeper, reached, ground (arith, there, block), spent),
                  )
            | inr (pa, e) ↦
                let (p, at, new) = Fresh-some create m m₁ made pa e fresh in
                rw (there, block, e, at)
                  (linked-IsKept m _ level va t p (split_entries f level here) tree (
                    split-IsLinked f limit root law level va t m tree deeper reached m₁ p new there
                      block))
          ]
          | inr table ↦
              rw (there, table)
                (
                  record { tree = tree; answers = λ b write. refl },
                  table_of-step f m root level va t reached (ground (arith, there, table)),
                )
        ]
        | inr absent ↦ elim (Option-cases made) [
          | inl e ↦
              let (same, spent) = Fresh-none create m m₁ made e fresh in
              rw (absent, e, same)
                (
                  record { tree = tree; answers = λ b write. refl },
                  (level, t, deeper, reached, ground (arith, absent), spent),
                )
          | inr (pa, e) ↦
              let (p, at, new) = Fresh-some create m m₁ made pa e fresh in
              rw (absent, e, at)
                (linked-IsKept m _ level va t p (λ k. 0) tree
                  (empty-IsLinked f limit root law level va t m tree deeper reached m₁ p new
                    absent))
        ]
      ]

  descend-IsKept :
      (create : Bool) (n level va t : ℕ) (m : Machine)
      → IsTree f limit root m
      → level + suc n ≡ f.levels
      → table_of f m root level va ≡ some t
      → let (r, m') = descend f n level t va create m in
        IsKept f limit root m m' × Descended f root (f.levels - 1) va create r m'
  unfolding descend
  descend-IsKept create zero level va t m tree deep reached =
      let last : f.levels - 1 ≡ level = omega (arith, deep) in
      (record { tree = tree; answers = λ b write. refl }, rw last reached)
  descend-IsKept create (suc n) level va t m tree deep reached =
      let (r, m₁) = descend_level f t (level_index f va level) create level m in
      let (kept, found) =
        descend_level-IsKept create level va t m tree (omega (arith, deep)) reached in
      elim (Option-cases r) [
        | inl e ↦ rw (e, descend) (kept, Descended-none f root (suc level) va create r m₁ e found)
        | inr (s, e) ↦
            let at : table_of f m₁ root (suc level) va ≡ some s =
              Descended-some f root (suc level) va create r m₁ s e found in
            let (kept', found') =
              descend-IsKept create n (suc level) va s m₁ kept.tree (omega (arith, deep)) at in
            rw (e, descend) (IsKept-trans f limit root m m₁ _ kept kept', found')
      ]

  -- get_pte, with or without `create`, and whether it finds an entry or not, keeps the tree of tables
  -- and everything that user_address answers. The entry that it finds is the one that a walk for the
  -- address reaches at the last level; if it finds none, that walk stops above the last level at an
  -- entry that leads to no table and, with `create`, no page is free.
  pub get_pte-IsKept :
      (create : Bool) (va : ℕ) (m : Machine)
      → IsTree f limit root m
      → IsKept f limit root m (get_pte f root va create m).1
        × Found f root va create (get_pte f root va create m).0 (get_pte f root va create m).1
  unfolding get_pte
  get_pte-IsKept create va m tree =
      let deep : 0 + suc (f.levels - 1) ≡ f.levels = omega (arith, law.depth) in
      let (kept, found) =
        descend-IsKept create (f.levels - 1) 0 va root m tree deep (table_of-root f m root va) in
      let (r, m') = descend f (f.levels - 1) 0 root va create m in
      elim (Option-cases r) [
        | inl e ↦
            rw (e, get_pte) (kept, Descended-none f root (f.levels - 1) va create r m' e found)
        | inr (t, e) ↦
            rw (e, get_pte)
              (kept, (Descended-some f root (f.levels - 1) va create r m' t e found, refl))
      ]

  descend_level-finds :
      (level va t : ℕ) (m : Machine) (s : ℕ)
      → table_of f m root level va ≡ some t
      → table_of f m root (suc level) va ≡ some s
      → descend_level f t (level_index f va level) false level m ≡ (some s, m)
  unfolding descend_level
  descend_level-finds level va t m s h h' =
      let (u, e, goes, at) = table_of-suc f m root level va s h' in
      let same : u ≡ t = ground (arith, e, h) in
      let leading : leads f (m.entry t (level_index f va level)) ≡ true = rw (← same) goes in
      let to : f.addr (m.entry t (level_index f va level)) ≡ s = rw (← same) at in
      ground (arith, leading, to)

  descend-finds :
      (n level va t : ℕ) (m : Machine) (s : ℕ)
      → table_of f m root level va ≡ some t
      → table_of f m root (level + n) va ≡ some s
      → descend f n level t va false m ≡ (some s, m)
  unfolding descend
  descend-finds zero level va t m s h h' =
      let same : level + 0 ≡ level = omega arith in
      let at : table_of f m root level va ≡ some s = rw (← same) h' in
      let e : t ≡ s = ground (arith, h, at) in rw e refl
  descend-finds (suc n) level va t m s h h' =
      let same : level + suc n ≡ suc level + n = omega arith in
      let below : table_of f m root (suc level + n) va ≡ some s = rw (← same) h' in
      let (u, e) = table_of-above f m root n (suc level) va s below in
      let found = descend_level-finds level va t m u h e in
      rw (ap (λ x. x.0) found, ap (λ x. x.1) found, descend)
        (descend-finds n (suc level) va u m s e below)

  -- Without `create`, get_pte finds the last entry of a walk that reaches it, and changes nothing.
  pub get_pte-finds :
      (va t : ℕ) (m : Machine)
      → table_of f m root (f.levels - 1) va ≡ some t
      → get_pte f root va false m ≡ (some (t, level_index f va (f.levels - 1)), m)
  unfolding get_pte
  get_pte-finds va t m h =
      let same : 0 + (f.levels - 1) ≡ f.levels - 1 = omega arith in
      let found =
        descend-finds (f.levels - 1) 0 va root m t (table_of-root f m root va) (rw same h) in
      rw (ap (λ x. x.0) found, ap (λ x. x.1) found, get_pte) refl
