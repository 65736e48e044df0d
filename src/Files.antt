-- ===== src/Files.antt =====
-- kernel/fs/fd.cpp and fd.h: a task's descriptor table. A FileHandle owns its file and closes it when
-- it is destroyed or replaced; `closed` lists the files that were closed, in that order. The type
-- of files is a parameter.
pub mod Open
pub mod Close
pub mod Tests
use zonix_plus.Base.{
  Bool, Error, List, Option, Result, [], err, false, full, if◌then◌else◌, invalid, leb, none,
  not_supported, ok, some, suc, success, true, update, zero, ℕ, ◌++◌, ◌+◌, ◌∷◌,
}

abbrev pub max_fd : ℕ
max_fd = 16

-- `int`: pos n is n and negsuc n is -(n + 1)
pub data ℤ : Type 0 where
  pos : ℕ → ℤ
  negsuc : ℕ → ℤ

pub data ForkPolicy : Type 0 where
  reset share : ForkPolicy
  unknown : ℕ → ForkPolicy

pub record Entry (F : Type 0) : Type 0 where
  pub file : Option F
  pub offset : ℕ
  pub used : Bool

pub record Table (F : Type 0) : Type 0 where
  pub entries : ℕ → Entry F
  pub closed : List F

module _ {F : Type 0} where
  -- The end of a handle's life.
  unfoldable pub drop : Option F → List F → List F
  drop none closed = closed
  drop (some f) closed = closed ++ f ∷ []

  abbrev pub no_entry : Entry F
  no_entry = record { file = none; offset = 0; used = false }

  -- Entry::reset of the entry `i`
  unfoldable pub reset_entry : ℕ → Table F → Table F
  unfolding drop
  reset_entry i t = record {
    entries = update t.entries i no_entry;
    closed = drop (t.entries i).file t.closed;
  }

  -- Entry::set of the entry `i`
  unfoldable pub set_entry : ℕ → F → ℕ → Bool → Table F → Table F
  unfolding drop
  set_entry i f offset used t = record {
    entries = update t.entries i (record { file = some f; offset = offset; used = used });
    closed = drop (t.entries i).file t.closed;
  }

  -- The loop of alloc from the entry `i`, with `n` entries left; the handle dies if none is free.
  unfoldable pub alloc_from : ℕ → ℕ → F → Table F → Result ℕ × Table F
  unfolding set_entry
  alloc_from i zero f t = (err full, record t { closed = drop (some f) t.closed })
  alloc_from i (suc n) f t =
      let rest = alloc_from (i + 1) n f t in
      if (t.entries i).used then rest else (ok i, set_entry i f 0 true t)

  unfoldable pub alloc : Option F → Table F → Result ℕ × Table F
  unfolding alloc_from
  alloc none t = (err invalid, t)
  alloc (some f) t = alloc_from 0 max_fd f t

  -- Table::get: the index of the entry, none is the null pointer.
  unfoldable pub get : ℤ → Table F → Option ℕ
  get (negsuc n) t = none
  get (pos i) t = if leb max_fd i then none else elim (t.entries i).file [
    | none ↦ none
    | some f ↦ if (t.entries i).used then some i else none
  ]

  unfoldable pub close : ℤ → Table F → Error × Table F
  unfolding get reset_entry
  close fd t = elim (get fd t) [ none ↦ (invalid, t) | some i ↦ (success, reset_entry i t) ]

  -- The loop of init and of close_all.
  unfoldable pub reset_from : ℕ → ℕ → Table F → Table F
  unfolding reset_entry
  reset_from i zero t = t
  reset_from i (suc n) t = reset_from (i + 1) n (reset_entry i t)

  unfoldable pub close_all : Table F → Table F
  unfolding reset_from
  close_all t = reset_from 0 max_fd t

  -- fork_from; the parent's table is not used by any policy.
  unfoldable pub fork_from : ForkPolicy → Table F → Error × Table F
  unfolding close_all
  fork_from ForkPolicy.reset t = (success, close_all t)
  fork_from ForkPolicy.share t = (not_supported, t)
  fork_from (ForkPolicy.unknown n) t = (invalid, t)
