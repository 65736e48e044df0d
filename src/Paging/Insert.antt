-- ===== src/Paging/Insert.antt =====
-- page_insert: the page appears at its address, no other page of the address space moves, and an
-- error changes nothing that user_address answers.
use zonix_plus.Base.{
  Bool, Error, arith, err, exists_already, false, inl, inr, invalid, no_mem, ok, refl, some, suc,
  true, ℕ, ◌%◌, ◌+◌, ◌-◌, ◌/◌, ◌<◌, ◌≡◌, ◌≢◌, ◌≤◌, ◌⊎◌,
}
use zonix_plus.Pmm.Runs.{cover}
use zonix_plus.Paging.{
  Format, Machine, get_pte, level_index, page_bytes, page_insert, page_to_phys, user_address,
}
use zonix_plus.Paging.Descend.{get_pte-finds}
use zonix_plus.Paging.Enter.{Agree-page}
use zonix_plus.Paging.Formats.{IsFormat}
use zonix_plus.Paging.Trees.{IsOpen, IsShut, IsTree, leads, table_of}
use zonix_plus.Paging.Outcomes.{
  entry-after, page_insert-IsTree, page_insert-cases, page_insert-user_walk, reached-after,
  user_address-err, user_address-ok, user_address-same, user_walk-after, user_walk-before,
  walked-IsKept,
}

-- page_insert at an address below the top of user space, whether it succeeds or fails, keeps the tree
-- of tables, and user_address answers for the addresses of every other page as before.
pub page_insert-others :
    (f : Format) (limit root page va perm : ℕ) (m : Machine)
    → IsFormat f limit
    → IsTree f limit root m
    → va < f.user_top
    → let (r, m') = page_insert f root page va perm m in
      IsTree f limit root m'
      × ((b : ℕ) (write : Bool)
          → b / page_bytes ≢ va / page_bytes
          → user_address f root b write m' ≡ user_address f root b write m)
page_insert-others f limit root page va perm m law tree low = (
  page_insert-IsTree f limit root law page va perm m tree,
  λ b write ne. user_address-same f m _ root b write λ low'.
      page_insert-user_walk f limit root law page va perm m tree b write
        λ agree. ne (Agree-page f limit law b va low' low agree),
)

-- A page_insert that fails leaves everything that user_address answers, for all addresses. It fails with
-- NoMem only if the walk for the address stops above the last level, at an entry that leads to no
-- table, and no page is free for one; and with Exists only if get_pte then finds an entry that is
-- present. It fails with no other error.
pub page_insert-error :
    (f : Format) (limit root page va perm : ℕ) (m : Machine) (e : Error)
    → IsFormat f limit
    → IsTree f limit root m
    → (page_insert f root page va perm m).0 ≡ err e
    → let (r, m') = page_insert f root page va perm m in
      ((b : ℕ) (write : Bool) → user_address f root b write m' ≡ user_address f root b write m)
      × (((e ≡ no_mem)
            × ((p : ℕ) → cover m'.pmm p ≡ 0)
            × ((level : ℕ) × (t : ℕ) × (suc level < f.levels)
                × (table_of f m' root level va ≡ some t)
                × (leads f (m'.entry t (level_index f va level)) ≡ false)))
          ⊎ ((e ≡ exists_already)
              × ((t : ℕ) × (i : ℕ) × (get_pte f root va false m' ≡ (some (t, i), m'))
                  × (f.present (m'.entry t i) ≡ true))))
page_insert-error f limit root page va perm m e law tree h =
    elim (page_insert-cases f limit root law page va perm m tree) [
      | inl (t, done) ↦ absurd (ground (arith, h, done.returned))
      | inr refused ↦ (
        λ b write. user_address-same f m _ root b write λ low.
            rw refused.left ((walked-IsKept f limit root law page va perm m tree).answers b write),
        elim refused.reason [
          | inl (short, (l, t, deeper, reached, stops, spent)) ↦ inl (
            ground (arith, h, short),
            rw refused.left (spent refl),
            rw refused.left (l, t, deeper, reached, stops),
          )
          | inr (there, (t, reached, present)) ↦ inr (
            ground (arith, h, there),
            (
              t,
              level_index f va (f.levels - 1),
              rw refused.left (get_pte-finds f limit root law va t _ reached),
              rw refused.left present,
            ),
          )
        ],
      )
    ]

-- After a page_insert that succeeds, a look-up finds an entry that maps the page with the permissions
-- that were asked for. The address had no mapping before. Now user_address answers its byte of the page
-- if the address lies behind the first page and below the top of user space, no entry on the walk
-- above the last level refuses the access, and the page's entry lets it through; and if one of these
-- fails, it answers Invalid.
pub page_insert-maps :
    (f : Format) (limit root page va perm : ℕ) (m : Machine)
    → IsFormat f limit
    → IsTree f limit root m
    → page < limit
    → (page_insert f root page va perm m).0 ≡ ok tt
    → let (r, m') = page_insert f root page va perm m in
      let entry = f.make_page (page_to_phys page) perm in
      ((t : ℕ) × (i : ℕ) × (get_pte f root va false m' ≡ (some (t, i), m'))
        × (m'.entry t i ≡ entry))
      × ((write : Bool)
          → (user_address f root va write m ≡ err invalid)
            × (((user_address f root va write m' ≡ ok (page_to_phys page + va % page_bytes))
                  × (page_bytes ≤ va)
                  × (va < f.user_top)
                  × IsOpen f m' root va write
                  × (f.user_accessible entry write ≡ true))
                ⊎ ((user_address f root va write m' ≡ err invalid)
                    × ((va < page_bytes)
                        ⊎ (f.user_top ≤ va)
                        ⊎ IsShut f m' root va write
                        ⊎ (f.user_accessible entry write ≡ false)))))
page_insert-maps f limit root page va perm m law tree low h =
    elim (page_insert-cases f limit root law page va perm m tree) [
      | inl (t, done) ↦ (
        (
          t,
          level_index f va (f.levels - 1),
          get_pte-finds f limit root law va t _
              (reached-after f limit root law page va perm m tree t done low),
          entry-after f limit root law page va perm m tree t done low,
        ),
        λ write. (
          user_address-err f m root va write
              (user_walk-before f limit root law page va perm m tree t done low write),
          elim (user_walk-after f limit root law page va perm m tree t done low write) [
            | inl (e, shut) ↦ inr (user_address-err f _ root va write e, inr (inr shut))
            | inr (e, passes, open_) ↦ elim (user_address-ok f _ root va write _ e) [
              | inl (found, up, below) ↦ inl (found, up, below, passes, open_)
              | inr (refused, outside) ↦
                  inr
                    (refused, elim outside [ inl below ↦ inl below | inr above ↦ inr (inl above) ])
            ]
          ],
        ),
      )
      | inr refused ↦ absurd (elim refused.reason [
        | inl (short, stopped) ↦ ground (arith, h, short)
        | inr (there, rest) ↦ ground (arith, h, there)
      ])
    ]
