-- ===== src/Fat/Dir/Entries.antt =====
-- A look-up in a list of directory entries, and what the scan of a sector says of it.
use zonix_plus.Base.{
  Bool, Bool-cases, List, Option, Option-cases, [], ap, arith, false, if◌then◌else◌, inl, inr, none,
  refl, same_text, some, suc, true, zero, ℕ, ◌&&◌, ◌++◌, ◌||◌, ◌∙◌, ◌∷◌, ◌≡◌,
}
use zonix_plus.Fat.Dir.{
  Entry, Seen, Stop, ended, entry_at, entry_count, entry_name, found, is_end, is_valid,
  scan_entries,
}
use zonix_plus.Fat.Dir.Sectors.{first_seen, first_seen-hit, first_seen-miss}
use zonix_plus.Fat.Table.{Sector}

abbrev pub matches : List ℕ → Entry → Bool
matches name e = is_valid e && same_text (entry_name e) name

-- The first live entry with the name, before the end mark.
unfoldable pub lookup : List ℕ → List Entry → Option Entry
lookup name [] = none
lookup name (e ∷ es) =
    let rest = lookup name es in if is_end e then none else if matches name e then some e else rest

-- Whether an end mark stands in the list.
unfoldable pub has_end : List Entry → Bool
has_end [] = false
has_end (e ∷ es) = is_end e || has_end es

-- The entries `j` to `j + n - 1` of a sector, and those of a list of blocks.
unfoldable pub sector_entries : ℕ → ℕ → Sector → List Entry
sector_entries zero j sector = []
sector_entries (suc n) j sector = entry_at sector j ∷ sector_entries n (suc j) sector

unfoldable pub entries_of : (ℕ → Sector) → List ℕ → List Entry
entries_of held [] = []
entries_of held (block ∷ blocks) =
    sector_entries entry_count 0 (held block) ++ entries_of held blocks

-- What a scan says of a look-up in the entries that it went over, and in those behind them.
abbrev Scanned : List ℕ → List Entry → List Entry → Sector → Option Seen → Type 0
Scanned name es rest sector none =
    (lookup name (es ++ rest) ≡ lookup name rest) × (has_end (es ++ rest) ≡ has_end rest)
Scanned name es rest sector (some ended) =
    (lookup name (es ++ rest) ≡ none) × (has_end (es ++ rest) ≡ true)
Scanned name es rest sector (some (found j)) = lookup name (es ++ rest) ≡ some (entry_at sector j)

Scanned-cons :
    (name : List ℕ) (e : Entry) (es rest : List Entry) (sector : Sector) (o : Option Seen)
    → is_end e ≡ false
    → matches name e ≡ false
    → Scanned name es rest sector o
    → Scanned name (e ∷ es) rest sector o
unfolding lookup has_end
Scanned-cons name e es rest sector none live other h = (rw (live, other) h.0, rw live h.1)
Scanned-cons name e es rest sector (some ended) live other h = (rw (live, other) h.0, rw live h.1)
Scanned-cons name e es rest sector (some (found j)) live other h = rw (live, other) h

Scanned-nothing :
    (name : List ℕ) (rest : List Entry) (sector : Sector) (j : ℕ)
    → Scanned name [] rest sector (scan_entries zero j name sector)
unfolding scan_entries
Scanned-nothing name rest sector j = (refl, refl)

module _ (n j : ℕ) (name : List ℕ) (sector : Sector) where
  scan_entries-end :
      is_end (entry_at sector j) ≡ true → scan_entries (suc n) j name sector ≡ some ended
  unfolding scan_entries
  scan_entries-end h = rw (h, scan_entries) refl

  scan_entries-hit :
      is_end (entry_at sector j) ≡ false
      → matches name (entry_at sector j) ≡ true
      → scan_entries (suc n) j name sector ≡ some (found j)
  unfolding scan_entries
  scan_entries-hit h k = ground (arith, h, k)

  scan_entries-miss :
      is_end (entry_at sector j) ≡ false
      → matches name (entry_at sector j) ≡ false
      → scan_entries (suc n) j name sector ≡ scan_entries n (suc j) name sector
  unfolding scan_entries
  scan_entries-miss h k = ground (arith, h, k)

module _ (name : List ℕ) (e : Entry) (es : List Entry) where
  lookup-end : is_end e ≡ true → (lookup name (e ∷ es) ≡ none) × (has_end (e ∷ es) ≡ true)
  unfolding lookup has_end
  lookup-end h = (ground (arith, h), ground (arith, h))

  lookup-hit : is_end e ≡ false → matches name e ≡ true → lookup name (e ∷ es) ≡ some e
  unfolding lookup
  lookup-hit h k = ground (arith, h, k)

scan_entries-Scanned :
    (n j : ℕ) (name : List ℕ) (sector : Sector) (rest : List Entry)
    → Scanned name (sector_entries n j sector) rest sector (scan_entries n j name sector)
unfolding sector_entries
scan_entries-Scanned zero j name sector rest = Scanned-nothing name rest sector j
scan_entries-Scanned (suc n) j name sector rest =
    let e = entry_at sector j in
    let es = sector_entries n (suc j) sector ++ rest in
    elim (Bool-cases (is_end e)) [
      | inl over ↦ rw (scan_entries-end n j name sector over) (lookup-end name e es over)
      | inr live ↦ elim (Bool-cases (matches name e)) [
        | inl hit ↦ rw (scan_entries-hit n j name sector live hit) (lookup-hit name e es live hit)
        | inr other ↦ rw (scan_entries-miss n j name sector live other) (
            Scanned-cons name e (sector_entries n (suc j) sector) rest sector
              (scan_entries n (suc j) name sector) live other
              (scan_entries-Scanned n (suc j) name sector rest))
      ]
    ]

-- What the first answer among the blocks says of a look-up in their entries.
abbrev pub Settled : List ℕ → List Entry → Option (Stop Seen) → Type 0
Settled name es none = lookup name es ≡ none
Settled name es (some (block, sector, ended)) = (lookup name es ≡ none) × (has_end es ≡ true)
Settled name es (some (block, sector, found j)) = lookup name es ≡ some (entry_at sector j)

Settled-nothing :
    (name : List ℕ) (held : ℕ → Sector)
    → Settled name [] (first_seen (scan_entries entry_count 0 name) held [])
unfolding first_seen lookup
Settled-nothing name held = refl

Scanned-none :
    (name : List ℕ) (es rest : List Entry) (sector : Sector) (o : Option Seen)
    → o ≡ none
    → Scanned name es rest sector o
    → (lookup name (es ++ rest) ≡ lookup name rest) × (has_end (es ++ rest) ≡ has_end rest)
Scanned-none name es rest sector none e h = h
Scanned-none name es rest sector (some a) e h = absurd (ground (arith, e))

Scanned-Settled :
    (name : List ℕ) (es rest : List Entry) (block : ℕ) (sector : Sector) (o : Option Seen)
    (a : Seen)
    → o ≡ some a
    → Scanned name es rest sector o
    → Settled name (es ++ rest) (some (block, sector, a))
Scanned-Settled name es rest block sector none a e h = absurd (ground (arith, e))
Scanned-Settled name es rest block sector (some ended) ended e h = h
Scanned-Settled name es rest block sector (some ended) (found j) e h = absurd (ground (arith, e))
Scanned-Settled name es rest block sector (some (found i)) ended e h = absurd (ground (arith, e))
Scanned-Settled name es rest block sector (some (found i)) (found j) e h =
    h ∙ ap (λ k. some (entry_at sector k)) (ground (arith, e))

Settled-carry :
    (name : List ℕ) (rest whole : List Entry) (x : Option (Stop Seen))
    → lookup name whole ≡ lookup name rest
    → has_end whole ≡ has_end rest
    → Settled name rest x
    → Settled name whole x
Settled-carry name rest whole none same marks h = same ∙ h
Settled-carry name rest whole (some (block, sector, ended)) same marks h = (same ∙ h.0, marks ∙ h.1)
Settled-carry name rest whole (some (block, sector, found j)) same marks h = same ∙ h

pub first_seen-Settled :
    (name : List ℕ) (held : ℕ → Sector) (blocks : List ℕ)
    → Settled name
        (entries_of held blocks)
        (first_seen (scan_entries entry_count 0 name) held blocks)
unfolding entries_of
first_seen-Settled name held [] = Settled-nothing name held
first_seen-Settled name held (b ∷ bs) =
    let look = scan_entries entry_count 0 name in
    let es = sector_entries entry_count 0 (held b) in
    let rest = entries_of held bs in
    let scanned = scan_entries-Scanned entry_count 0 name (held b) rest in
    elim (Option-cases (look (held b))) [
      | inl e ↦
          let (same, marks) = Scanned-none name es rest (held b) (look (held b)) e scanned in
          rw (first_seen-miss look held b bs e) (
            Settled-carry name rest (es ++ rest) (first_seen look held bs) same marks
              (first_seen-Settled name held bs))
      | inr (a, e) ↦
          rw (first_seen-hit look held b bs a e)
            (Scanned-Settled name es rest b (held b) (look (held b)) a e scanned)
    ]

pub Settled-eq :
    (name : List ℕ) (es : List Entry) (x y : Option (Stop Seen))
    → x ≡ y
    → Settled name es y
    → Settled name es x
Settled-eq name es x y e h = rw e h
