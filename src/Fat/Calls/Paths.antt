-- ===== src/Fat/Calls/Paths.antt =====
-- find_file finds what its path names: each part but the last is a directory, in which the next is
-- looked up.
use zonix_plus.Base.{
  Bool-cases, Error, List, Option, Option-cases, Result, [], ap, arith, err, false, inl, inr,
  invalid, none, not_found, ok, refl, some, sym, true, ℕ, ◌∙◌, ◌∷◌, ◌≡◌,
}
use zonix_plus.Fat.Calls.{find_file, find_parts, parts_of}
use zonix_plus.Fat.Dir.{Entry, cluster_of, find_entry, is_directory}
use zonix_plus.Fat.Dir.Entries.{lookup}
use zonix_plus.Fat.Dir.Lookup.{dir_entries, dir_entries-kept, find_entry-found}
use zonix_plus.Fat.Dir.Sectors.{IsKept}
use zonix_plus.Fat.Dir.Steps.{IsReal}
use zonix_plus.Fat.Table.{Device, Volume}
use zonix_plus.Fat.Table.Coherence.{IsCoherent, IsDisk}

module _ {D : Type 0} (dev : Device D) (disk : IsDisk dev) where
  -- From a cluster, the parts lead through directories on the disk to an entry.
  abbrev pub Leads : Volume D → ℕ → List (List ℕ) → Entry → Type 0
  Leads v cluster [] e = ⊥
  Leads v cluster (part ∷ []) e =
      (n : ℕ) × (lookup part (dir_entries dev disk v n cluster) ≡ some e)
  Leads v cluster (part ∷ next ∷ parts) e =
      (n : ℕ) × (d : Entry) × (lookup part (dir_entries dev disk v n cluster) ≡ some d)
      × (is_directory d ≡ true)
      × Leads v (cluster_of d) (next ∷ parts) e

  Leads-kept :
      (v w : Volume D) (cluster : ℕ) (parts : List (List ℕ)) (e : Entry)
      → IsKept dev disk v w
      → Leads w cluster parts e
      → Leads v cluster parts e
  Leads-kept v w cluster [] e kept leads = leads
  Leads-kept v w cluster (part ∷ []) e kept (n, found) =
      (n, ap (lookup part) (sym (dir_entries-kept dev disk v w n cluster kept)) ∙ found)
  Leads-kept v w cluster (part ∷ next ∷ parts) e kept (n, d, found, directory, rest) = (
    n,
    d,
    ap (lookup part) (sym (dir_entries-kept dev disk v w n cluster kept)) ∙ found,
    directory,
    Leads-kept v w (cluster_of d) (next ∷ parts) e kept rest,
  )

  module _ (fuel : ℕ) where
    -- One step of the loop of find_file.
    module _ (cluster : ℕ) (part next : List ℕ) (parts : List (List ℕ)) (v : Volume D) where
      abbrev looked : Option (Result Entry) × Volume D
      looked = find_entry dev fuel cluster part v

      abbrev all : List (List ℕ)
      all = part ∷ next ∷ parts

      find_parts-none : looked.0 ≡ none → (find_parts dev fuel cluster all v).0 ≡ none
      unfolding find_parts
      find_parts-none h = rw (h, find_parts) refl

      find_parts-err :
          (f : Error)
          → looked.0 ≡ some (err f)
          → (find_parts dev fuel cluster all v).0 ≡ some (err f)
      unfolding find_parts
      find_parts-err f h = rw (h, find_parts) refl

      find_parts-file :
          (d : Entry)
          → looked.0 ≡ some (ok d)
          → is_directory d ≡ false
          → (find_parts dev fuel cluster all v).0 ≡ some (err not_found)
      unfolding find_parts
      find_parts-file d h k = rw (h, find_parts) (rw k refl)

      find_parts-on :
          (d : Entry)
          → looked.0 ≡ some (ok d)
          → is_directory d ≡ true
          → (find_parts dev fuel cluster all v).0
            ≡ (find_parts dev fuel (cluster_of d) (next ∷ parts) looked.1).0
      unfolding find_parts
      find_parts-on d h k = rw (h, find_parts) (rw k refl)

    find_parts-last :
        (cluster : ℕ) (part : List ℕ) (v : Volume D)
        → find_parts dev fuel cluster (part ∷ []) v ≡ find_entry dev fuel cluster part v
    unfolding find_parts
    find_parts-last cluster part v = refl

    find_parts-empty :
        (cluster : ℕ) (v : Volume D) → find_parts dev fuel cluster [] v ≡ (some (err invalid), v)
    unfolding find_parts
    find_parts-empty cluster v = refl

    find_parts-Leads :
        (parts : List (List ℕ)) (cluster : ℕ) (v : Volume D) (e : Entry)
        → IsCoherent dev disk v
        → IsReal v.geometry
        → (find_parts dev fuel cluster parts v).0 ≡ some (ok e)
        → Leads v cluster parts e
    find_parts-Leads [] cluster v e coherent real h =
        absurd (ground (arith, h, ap (λ z. z.0) (find_parts-empty cluster v)))
    find_parts-Leads (part ∷ []) cluster v e coherent real h =
        (find_entry-found dev disk fuel cluster part v e coherent real
          (sym (ap (λ z. z.0) (find_parts-last cluster part v)) ∙ h)).0
    find_parts-Leads (part ∷ next ∷ parts) cluster v e coherent real h =
        elim (Option-cases (find_entry dev fuel cluster part v).0) [
          | inl e₀ ↦ absurd (ground (arith, h, find_parts-none cluster part next parts v e₀))
          | inr (err f, at) ↦
              absurd (ground (arith, h, find_parts-err cluster part next parts v f at))
          | inr (ok d, at) ↦
              let ((n, found), kept) =
                find_entry-found dev disk fuel cluster part v d coherent real at in
              let v₁ = (find_entry dev fuel cluster part v).1 in
              elim (Bool-cases (is_directory d)) [
                | inr file ↦
                    absurd (ground (arith, h, find_parts-file cluster part next parts v d at file))
                | inl directory ↦
                    let rest =
                      find_parts-Leads (next ∷ parts) (cluster_of d) v₁ e kept.coherent
                        (rw kept.geometry real)
                        (sym (find_parts-on cluster part next parts v d at directory) ∙ h) in
                    (
                      n,
                      d,
                      found,
                      directory,
                      Leads-kept v v₁ (cluster_of d) (next ∷ parts) e kept rest,
                    )
              ]
        ]

    find_file-ok :
        (filename : List ℕ) (v : Volume D) (e : Entry)
        → (find_file dev fuel filename v).0 ≡ some (ok e)
        → (parts : List (List ℕ)) × (parts_of fuel filename ≡ some (ok parts))
          × ((find_parts dev fuel v.geometry.root_cluster parts v).0 ≡ some (ok e))
    unfolding find_file
    find_file-ok filename v e h = elim (Option-cases (parts_of fuel filename)) [
      | inl at ↦ absurd (ground (arith, h, at))
      | inr (err f, at) ↦ absurd (ground (arith, h, at))
      | inr (ok parts, at) ↦ (parts, at, ground (arith, h, at))
    ]

    -- From a coherent cache, when find_file finds an entry, then the path has parts that lead to it from
    -- the root directory: each part but the last names a directory in the one before, on the disk as
    -- it was, and the last names the entry.
    pub find_file-Leads :
        (filename : List ℕ) (v : Volume D) (e : Entry)
        → IsCoherent dev disk v
        → IsReal v.geometry
        → (find_file dev fuel filename v).0 ≡ some (ok e)
        → (parts : List (List ℕ)) × (parts_of fuel filename ≡ some (ok parts))
          × Leads v v.geometry.root_cluster parts e
    find_file-Leads filename v e coherent real h =
        let (parts, cut, found) = find_file-ok filename v e h in
        (parts, cut, find_parts-Leads parts v.geometry.root_cluster v e coherent real found)
