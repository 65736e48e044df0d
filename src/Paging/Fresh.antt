-- ===== src/Paging/Fresh.antt =====
-- The fresh page that descend_level links, empty or with the parts of a block.
use zonix_plus.Base.{
  Bool, Option, Option-cases, ap, arith, false, fun_ext, inl, inr, none, refl, some, suc, sum_of,
  sym, true, update, ℕ, ◌%◌, ◌*◌, ◌+◌, ◌/◌, ◌<◌, ◌^◌, ◌∙◌, ◌≡◌, ◌≢◌, ◌≤◌,
}
use zonix_plus.Pmm.{Page, Pmm, alloc}
use zonix_plus.Pmm.Runs.{cover, in_run, in_run_self, IsSound, size}
use zonix_plus.Pmm.Alloc.{alloc-cover, alloc-exhausted, alloc-none}
use zonix_plus.Paging.{
  Format, Machine, alloc_table_page, block_base, fill_table, leaf_address, level_index, page_bytes,
  page_to_phys, set_entry, split_entries, take_table,
}
use zonix_plus.Paging.Formats.{IsFormat}
use zonix_plus.Paging.Link.{IsLinked, leaf_answer}
use zonix_plus.Paging.Trees.{IsTree, leads, table_of}

-- A descriptor that keeps its run length leaves the free runs as they are.
module _ (s : Pmm) (p : ℕ) (d : Page) (same : d.block_page_count ≡ size s.page p) where
  abbrev described : Pmm
  described = record s { page = update s.page p d }

  size-described : size described.page ≡ size s.page
  size-described = fun_ext λ q. ground (arith, same)

  pub cover-described : (i : ℕ) → cover described i ≡ cover s i
  cover-described i = ap (λ z. sum_of (λ q. in_run q (z q) i) s.free_list) size-described

  pub described-IsSound : IsSound s → IsSound described
  described-IsSound sound = record {
    nonempty = rw size-described sound.nonempty;
    disjoint = λ i. rw (cover-described i) (sound.disjoint i);
    counted = rw size-described sound.counted;
    bounded = sound.bounded;
  }

-- The page `p` is taken for a table, whose entries are 0.
pub record IsFresh (m m' : Machine) (p : ℕ) : Type 0 where
  pub was_free : 1 ≤ cover m.pmm p
  pub taken : cover m'.pmm p ≡ 0
  pub fewer : (q : ℕ) → cover m'.pmm q ≤ cover m.pmm q
  pub sound : IsSound m'.pmm
  pub zeroed : (k : ℕ) → k < 512 → m'.entry (p * page_bytes) k ≡ 0
  pub others : (t k : ℕ) → t ≢ p * page_bytes → m'.entry t k ≡ m.entry t k

pub take_table-IsFresh :
    (m : Machine) (p : ℕ) (s : Pmm)
    → IsSound m.pmm
    → alloc 1 m.pmm ≡ (some p, s)
    → IsFresh m (take_table p s m) p
unfolding page_to_phys
take_table-IsFresh m p s sound e =
    let (sound', covers', count) = alloc-cover 1 m.pmm s p sound (omega arith) e in
    let d = record (s.page p) { ref_count = 1; page_table = true } in
    let same : (i : ℕ) → cover (described s p d refl) i ≡ cover s i = cover-described s p d refl in
    record {
      was_free = omega (arith, covers' p, in_run_self p 1 (omega arith));
      taken = omega (arith, same p, covers' p, in_run_self p 1 (omega arith), sound.disjoint p);
      fewer = λ q. omega (arith, same q, covers' q);
      sound = described-IsSound s p d refl sound';
      zeroed = λ k h. ground arith;
      others = λ t k h. ground arith;
    }

-- No page, and then nothing has changed and, if one was asked for, none is free; or a fresh page.
abbrev pub Fresh : Bool → Machine → Option ℕ → Machine → Type 0
Fresh create m none m' = (m' ≡ m) × (create ≡ true → (p : ℕ) → cover m.pmm p ≡ 0)
Fresh create m (some pa) m' = (p : ℕ) × (pa ≡ p * page_bytes) × IsFresh m m' p

pub Fresh-none :
    (create : Bool) (m m' : Machine) (o : Option ℕ)
    → o ≡ none
    → Fresh create m o m'
    → (m' ≡ m) × (create ≡ true → (p : ℕ) → cover m.pmm p ≡ 0)
Fresh-none create m m' none e h = h
Fresh-none create m m' (some pa) e h = absurd (ground (arith, e))

pub Fresh-some :
    (create : Bool) (m m' : Machine) (o : Option ℕ) (pa : ℕ)
    → o ≡ some pa
    → Fresh create m o m'
    → Fresh create m (some pa) m'
Fresh-some create m m' none pa e h = absurd (ground (arith, e))
Fresh-some create m m' (some q) pa e (p, at, fresh) = (p, ground (arith, e, at), fresh)

pub alloc_table_page-Fresh :
    (create : Bool) (m : Machine)
    → IsSound m.pmm
    → Fresh create m (alloc_table_page create m).0 (alloc_table_page create m).1
unfolding alloc_table_page page_to_phys
alloc_table_page-Fresh false m sound = (refl, λ h p. absurd cc)
alloc_table_page-Fresh true m sound = elim (Option-cases (alloc 1 m.pmm).0) [
  | inl e ↦ rw e (
    ap (λ s. record m { pmm = s }) ((alloc-none 1 m.pmm sound).1 e),
    λ h p. alloc-exhausted m.pmm sound e p,
  )
  | inr (p, e) ↦
      let left = (alloc 1 m.pmm).1 in
      let both : alloc 1 m.pmm ≡ (some p, left) = λ i. (e i, left) in
      rw e (p, refl, take_table-IsFresh m p left sound both)
]

leaf_answer-eq :
    (f : Format) (l l' e e' b : ℕ) (write : Bool)
    → f.present e ≡ f.present e'
    → f.user_accessible e write ≡ f.user_accessible e' write
    → block_base f l e + b % 2 ^ f.shift l ≡ block_base f l' e' + b % 2 ^ f.shift l'
    → leaf_answer f l e b write ≡ leaf_answer f l' e' b write
unfolding leaf_address
leaf_answer-eq f l l' e e' b write h₁ h₂ h₃ = rw (h₁, h₂, h₃) refl

module _ (f : Format) (limit root : ℕ) (law : IsFormat f limit) (level va t : ℕ) (m : Machine)
    (tree : IsTree f limit root m) (deeper : suc level < f.levels)
    (reached : table_of f m root level va ≡ some t) where
  abbrev place : ℕ
  place = level_index f va level

  abbrev here : ℕ
  here = m.entry t place

  -- A fresh table with that content, when it is linked at the entry.
  link-IsLinked :
      (m₁ m₂ : Machine) (p : ℕ) (content : ℕ → ℕ)
      → IsFresh m m₁ p
      → m₂.pmm ≡ m₁.pmm
      → ((k : ℕ) → k < 512 → m₂.entry (p * page_bytes) k ≡ content k)
      → ((s k : ℕ) → s ≢ p * page_bytes → m₂.entry s k ≡ m₁.entry s k)
      → leads f here ≡ false
      → ((k : ℕ) → k < 512 → suc (suc level) < f.levels → leads f (content k) ≡ false)
      → ((b : ℕ) (write : Bool)
          → leaf_answer f level here b write
            ≡ leaf_answer f (suc level) (content (level_index f b (suc level))) b write)
      → IsLinked f root m
          (set_entry t place (f.make_table (p * page_bytes)) m₂)
          level
          va
          t
          p
          content
  link-IsLinked m₁ m₂ p content fresh same filled kept stops dead answers =
      let lower : level < f.levels = omega (arith, deeper) in
      let other : t ≢ p * page_bytes = λ e.
        let at : t / page_bytes ≡ p = omega (arith, e) in
        let held : cover m.pmm p ≡ 0 = rw (← at) (tree.held level va t lower reached) in
        absurd (omega (arith, held, fresh.was_free)) in
      record {
        deeper = deeper;
        reached = reached;
        stops = stops;
        linked = ground arith;
        filled = λ k h. ground (arith, filled k h, other);
        others = λ s k ne away. ground (arith, kept s k ne ∙ fresh.others s k ne, away);
        was_free = fresh.was_free;
        taken = rw same fresh.taken;
        fewer = λ q. rw same (fresh.fewer q);
        sound = rw same fresh.sound;
        dead = dead;
        answers = answers;
      }

  pub empty-IsLinked :
      (m₁ : Machine) (p : ℕ)
      → IsFresh m m₁ p
      → f.present here ≡ false
      → IsLinked f root m
          (set_entry t place (f.make_table (p * page_bytes)) m₁)
          level
          va
          t
          p
          (λ k. 0)
  empty-IsLinked m₁ p fresh absent =
      link-IsLinked m₁ m₁ p (λ k. 0) fresh refl fresh.zeroed (λ s k ne. refl)
        (ground (arith, absent)) (λ k h deep. ground (arith, law.zero_absent))
        λ b write. ground (arith, absent, law.zero_absent)

  -- A block's part answers as the block does.
  split-answers :
      (b : ℕ) (write : Bool)
      → f.present here ≡ true
      → f.is_block here ≡ true
      → leaf_answer f level here b write
        ≡ leaf_answer f
            (suc level)
            (split_entries f level here (level_index f b (suc level)))
            b
            write
  unfolding level_index
  split-answers b write there block =
      let k = b / 2 ^ f.shift (suc level) % 512 in
      let part = split_entries f level here k in
      let base : block_base f (suc level) part
          ≡ block_base f level here + k * 2 ^ f.shift (suc level) =
        law.split_base level here k deeper (omega arith) in
      leaf_answer-eq f level (suc level) here part b write
        (there ∙ sym (law.split_present level here k deeper (omega arith) there))
        (sym (law.split_accessible level here k write deeper (omega arith) there block))
        (omega (arith, base, law.shift_rest level b deeper))

  pub split-IsLinked :
      (m₁ : Machine) (p : ℕ)
      → IsFresh m m₁ p
      → f.present here ≡ true
      → f.is_block here ≡ true
      → IsLinked f root m
          (set_entry t place
            (f.make_table (p * page_bytes))
            (fill_table (p * page_bytes) (split_entries f level here) m₁))
          level
          va
          t
          p
          (split_entries f level here)
  split-IsLinked m₁ p fresh there block =
      link-IsLinked m₁ (fill_table (p * page_bytes) (split_entries f level here) m₁) p
        (split_entries f level here) fresh refl (λ k h. ground arith) (λ s k ne. ground arith)
        (ground (arith, block))
        (λ k h deep. ground (arith, law.split_is_block level here k deep h block))
        (λ b write. split-answers b write there block)
