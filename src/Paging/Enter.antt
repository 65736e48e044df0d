-- ===== src/Paging/Enter.antt =====
-- The last step of page_insert changes one entry of the last level: what the walks to other pages
-- find stays.
use zonix_plus.Base.{
  Bool, Bool-cases, Option-cases, Result, ap, arith, err, inl, inr, invalid, refl, some, suc, sym,
  true, zero, ℕ, ℕ_discrete, ◌+◌, ◌-◌, ◌/◌, ◌<◌, ◌^◌, ◌∙◌, ◌≡◌, ◌≢◌, ◌≤◌, ◌⊎◌,
}
use zonix_plus.Paging.{
  Format, Machine, enter_page, level_index, page_bytes, page_to_phys, user_walk,
}
use zonix_plus.Paging.Formats.{IsFormat}
use zonix_plus.Paging.Fresh.{cover-described, described-IsSound}
use zonix_plus.Paging.Link.{
  leaf_answer, same_place, user_walk-end, user_walk-leaf, user_walk-same, user_walk-shut,
  user_walk-through,
}
use zonix_plus.Paging.Trees.{
  Agree, Agree-suc, IsOpen, IsShut, IsTree, leads, table_of, table_of-root, table_of-above,
  table_of-step, table_of-suc,
}

-- Two addresses of which the walks agree at every level lie in one page.
module _ (f : Format) (limit : ℕ) (law : IsFormat f limit) (a b : ℕ) (low : a < f.user_top)
    (low' : b < f.user_top) where
  Agree-prefix :
      (level : ℕ)
      → level < f.levels
      → Agree f (suc level) a b
      → a / 2 ^ f.shift level ≡ b / 2 ^ f.shift level
  unfolding level_index
  Agree-prefix zero lt h =
      omega (arith, h 0 (omega arith), law.shift_top a low, law.shift_top b low')
  Agree-prefix (suc level) lt h =
      let above = Agree-prefix level (omega (arith, lt)) (λ k l. h k (omega (arith, l))) in
      omega (
        arith,
        h (suc level) (omega arith),
        above,
        law.shift_next level a lt,
        law.shift_next level b lt,
      )

  pub Agree-page : Agree f f.levels a b → a / page_bytes ≡ b / page_bytes
  Agree-page h =
      let last : f.levels - 1 < f.levels = omega (arith, law.depth) in
      let prefix = Agree-prefix (f.levels - 1) last (λ k l. h k (omega (arith, l))) in
      rw (← law.shift_last) prefix

-- The last step of page_insert, at the entry that the walk for `va` reaches.
module _ (f : Format) (limit root : ℕ) (law : IsFormat f limit) (m : Machine)
    (tree : IsTree f limit root m) (page perm va t : ℕ)
    (reached : table_of f m root (f.levels - 1) va ≡ some t) where
  abbrev last : ℕ
  last = f.levels - 1

  abbrev entered : Machine
  entered = enter_page f page perm t (level_index f va last) m

  entered-other :
      (s k : ℕ) → (s ≢ t) ⊎ (k ≢ level_index f va last) → entered.entry s k ≡ m.entry s k
  entered-other s k ne = ground (arith, ne)

  pub entered-at : entered.entry t (level_index f va last) ≡ f.make_page (page_to_phys page) perm
  entered-at = ground arith

  -- The changed entry is reached at the last level only.
  at_last : (l b : ℕ) → l < f.levels → table_of f m root l b ≡ some t → (l ≡ last) × Agree f l b va
  at_last l b lt h = tree.unique l b last va t lt (omega (arith, lt)) h reached

  pub table_of-entered :
      (l b : ℕ) → l < f.levels → table_of f entered root l b ≡ table_of f m root l b
  unfolding table_of
  table_of-entered zero b lt = refl
  table_of-entered (suc l) b lt =
      let above = table_of-entered l b (omega (arith, lt)) in
      elim (Option-cases (table_of f m root l b)) [
        | inl e ↦ rw (above, e) refl
        | inr (s, e) ↦
            let entry = entered-other s (level_index f b l) (
              inl λ same.
                absurd (omega (arith, lt, (at_last l b (omega (arith, lt)) (rw (← same) e)).0))) in
            rw (above, e, entry) refl
      ]

  pub entered-IsTree : IsTree f limit root entered
  entered-IsTree =
      let d = record (m.pmm.page page) { ref_count = (m.pmm.page page).ref_count + 1 } in
      let same = cover-described m.pmm page d refl in
      record {
        sound = described-IsSound m.pmm page d refl tree.sound;
        inside = λ p h. tree.inside p (rw (← same p) h);
        held = λ l b s lt h.
            rw (same (s / page_bytes)) (tree.held l b s lt (sym (table_of-entered l b lt) ∙ h));
        unique = λ l a k b s lt lt' h h'.
            tree.unique l a k b s lt lt' (sym (table_of-entered l a lt) ∙ h)
              (sym (table_of-entered k b lt') ∙ h');
      }

  pub user_walk-entered :
      (n l b s : ℕ) (write : Bool)
      → l + n ≡ f.levels
      → table_of f m root l b ≡ some s
      → ¬ Agree f f.levels b va
      → user_walk f n l s b write entered ≡ user_walk f n l s b write m
  user_walk-entered zero l b s write deep h apart = user_walk-end f entered m l s b write
  user_walk-entered (suc n) l b s write deep h apart =
      let lt : l < f.levels = omega (arith, deep) in
      elim (same_place s (level_index f b l) t (level_index f va last)) [
        | inl (e₁, e₂) ↦
            let (at, agree) = at_last l b lt (rw (← e₁) h) in
            let whole : Agree f (suc l) b va =
              Agree-suc f l b va agree (e₂ ∙ sym (ap (level_index f va) at)) in
            let all : suc l ≡ f.levels = omega (arith, at, lt) in
            absurd (apart λ k h. whole k (omega (arith, h, all)))
        | inr ne ↦
            user_walk-same f m entered n l s b write (entered-other s (level_index f b l) ne)
              λ goes.
                user_walk-entered n (suc l) b (f.addr (m.entry s (level_index f b l))) write
                  (omega (arith, deep)) (table_of-step f m root l b s h goes) apart
      ]

-- The walk of user_address for `va` is stopped above the last level, or answers at its entry.
module _ (f : Format) (m : Machine) (root va t : ℕ) (write : Bool)
    (reached : table_of f m root (f.levels - 1) va ≡ some t) where
  abbrev pub last_answer : Result ℕ
  last_answer = leaf_answer f (f.levels - 1) (m.entry t (level_index f va (f.levels - 1))) va write

  -- The walk from level `l` on is refused at an entry above the last level, or passes them all.
  abbrev Reaches : ℕ → Result ℕ → Type 0
  Reaches l answer =
      ((answer ≡ err invalid) × IsShut f m root va write)
      ⊎ ((answer ≡ last_answer)
          × ((k s : ℕ)
              → l ≤ k
              → suc k < f.levels
              → table_of f m root k va ≡ some s
              → f.table_accessible (m.entry s (level_index f va k)) write ≡ true))

  user_walk-Reaches :
      (n l s : ℕ)
      → l + suc n ≡ f.levels
      → table_of f m root l va ≡ some s
      → Reaches l (user_walk f (suc n) l s va write m)
  user_walk-Reaches zero l s deep h =
      let at : l ≡ f.levels - 1 = omega (arith, deep) in
      let same : s ≡ t = ground (arith, sym h ∙ ap (λ k. table_of f m root k va) at ∙ reached) in
      inr (
        user_walk-leaf f m zero l s va write (omega (arith, deep))
              (λ more. absurd (omega (arith, deep, more)))
            ∙ rw (at, same) refl,
        λ k u le lt e. absurd (omega (arith, le, lt, deep)),
      )
  user_walk-Reaches (suc n) l s deep h =
      let e = m.entry s (level_index f va l) in
      let split : suc l + n ≡ f.levels - 1 = omega (arith, deep) in
      let (u, below) = table_of-above f m root n (suc l) va t (rw split reached) in
      let (v, above, goes, to) = table_of-suc f m root l va u below in
      let same : v ≡ s = ground (arith, above, h) in
      let leading : leads f e ≡ true = rw (← same) goes in
      let child : f.addr e ≡ u = rw (← same) to in
      elim (Bool-cases (f.table_accessible e write)) [
        | inl open_ ↦
            let down : user_walk f (suc (suc n)) l s va write m
                ≡ user_walk f (suc n) (suc l) u va write m =
              user_walk-through f m (suc n) l s va write (omega (arith, deep)) leading open_
              ∙ rw child refl in
            elim (user_walk-Reaches n (suc l) u (omega (arith, deep)) below) [
              | inl (e, shut) ↦ inl (down ∙ e, shut)
              | inr (e, passes) ↦ inr (
                down ∙ e,
                λ k x le lt at. elim (ℕ_discrete l k) [
                  | no deeper ↦ passes k x (omega (arith, le, deeper)) lt at
                  | yes here ↦
                      let found : s ≡ x =
                        ground (arith, sym h ∙ ap (λ j. table_of f m root j va) here ∙ at) in
                      rw (← here, ← found) open_
                ],
              )
            ]
        | inr shut ↦ inl (
          user_walk-shut f m (suc n) l s va write leading shut (omega (arith, deep)),
          (l, s, omega (arith, deep), h, shut),
        )
      ]

  -- The same of the whole walk.
  pub user_walk-whole :
      f.levels ≢ 0
      → ((user_walk f f.levels 0 root va write m ≡ err invalid) × IsShut f m root va write)
        ⊎ ((user_walk f f.levels 0 root va write m ≡ last_answer) × IsOpen f m root va write)
  user_walk-whole some_level =
      let deep : suc (f.levels - 1) ≡ f.levels = omega (arith, some_level) in
      let all = ap (λ n. user_walk f n 0 root va write m) deep in
      elim (user_walk-Reaches (f.levels - 1) 0 root (omega (arith, deep))
        (table_of-root f m root va)) [
          | inl (e, shut) ↦ inl (sym all ∙ e, shut)
          | inr (e, passes) ↦ inr (sym all ∙ e, λ k s lt h. passes k s (omega arith) lt h)
        ]
