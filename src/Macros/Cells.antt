-- ===== src/Macros/Cells.antt =====
-- src/macro_retrieval.cpp: what the cells of the macros hold.
use idadwarf.Prelude.{
  ℕ, zero, suc, ◌+◌, ◌-◌, ◌<◌, ◌≤◌, ◌≡◌, refl, Bool, true, false, Bool-cases, inl, inr, Option,
  none, some, List, [], ◌∷◌, ◌++◌, if◌then◌else◌, ◌==◌, ltb, drop, length, length-take, arith,
}
use idadwarf.Dwarf.{DwResult, ok, no_entry, error}
use idadwarf.Macros.{
  MacroEntry, MacroDetails, MacroSdk, dw_macinfo_define, add_entry, add_entries, details_of,
  next_offset, retrieve_macros, macro_cells,
}

module _ (S : MacroSdk) where
  -- The length of every name is at most MAXSTR.
  AllFit : List MacroDetails → Type 0
  AllFit [] = Unit
  AllFit (d ∷ ds) = (d.name_len ≤ S.maxstr) × AllFit ds

  append-AllFit : (xs ys : List MacroDetails) → AllFit xs → AllFit ys → AllFit (xs ++ ys)
  unfolding AllFit
  append-AllFit [] ys a b = b
  append-AllFit (x ∷ xs) ys (h, a) b = (h, append-AllFit xs ys a b)

  details_of-AllFit : (macro : List ℕ) (start : Option ℕ) → AllFit (details_of S macro start)
  unfolding AllFit details_of
  details_of-AllFit macro none = tt
  details_of-AllFit macro (some start) = elim (Bool-cases (ltb start S.maxstr)) [
    | inl below ↦ (ground arith, tt)
    | inr above ↦ (ground arith, tt)
  ]

  add_entry-AllFit : (dmd : MacroEntry) → AllFit (add_entry S dmd)
  unfolding AllFit add_entry
  add_entry-AllFit dmd = added (dmd.dmd_type == dw_macinfo_define) dmd.dmd_macro
    where
      added :
          (b : Bool) (m : Option (List ℕ))
          → AllFit (
              if b
              then elim m [ none ↦ [] | some macro ↦ details_of S macro (S.value_start macro) ]
              else [])
      added false m = tt
      added true none = tt
      added true (some macro) = details_of-AllFit macro (S.value_start macro)

  add_entries-AllFit : (maclist : List MacroEntry) → AllFit (add_entries S maclist)
  unfolding AllFit add_entries
  add_entries-AllFit [] = tt
  add_entries-AllFit (dmd ∷ maclist) =
      append-AllFit (add_entry S dmd) (add_entries S maclist) (add_entry-AllFit dmd)
        (add_entries-AllFit maclist)

  retrieve_macros-AllFit :
      (fuel offset : ℕ) (macros : List MacroDetails)
      → retrieve_macros S fuel offset ≡ some macros
      → AllFit macros
  unfolding retrieve_macros AllFit
  retrieve_macros-AllFit zero offset macros e = absurd (cc e)
  retrieve_macros-AllFit (suc fuel) offset macros e =
      by_details (S.get_macro_details offset) e (λ o ms h. retrieve_macros-AllFit fuel o ms h)
    where
      by_rest :
          (maclist : List MacroEntry) (r : Option (List MacroDetails))
          → (elim r [ none ↦ none | some ms ↦ some (add_entries S maclist ++ ms) ]) ≡ some macros
          → ((ms : List MacroDetails) → r ≡ some ms → AllFit ms)
          → AllFit macros
      by_rest maclist none h k = absurd (cc h)
      by_rest maclist (some ms) h k =
          let same : add_entries S maclist ++ ms ≡ macros = cc in
          rw (← same)
            (append-AllFit (add_entries S maclist) ms (add_entries-AllFit maclist) (k ms refl))

      by_details :
          (r : DwResult (List MacroEntry))
          → (elim r [
            | no_entry ↦ some []
            | error x ↦ some []
            | ok maclist ↦ elim (retrieve_macros S fuel (next_offset S offset maclist)) [
              | none ↦ none
              | some ms ↦ some (add_entries S maclist ++ ms)
            ]
          ])
            ≡ some macros
          → ((o : ℕ) (ms : List MacroDetails) → retrieve_macros S fuel o ≡ some ms → AllFit ms)
          → AllFit macros
      by_details no_entry h k = let same : [] ≡ macros = cc in rw (← same) tt
      by_details (error x) h k = let same : [] ≡ macros = cc in rw (← same) tt
      by_details (ok maclist) h k = by_rest maclist _ h (λ ms. k _ ms)

  copied_fits :
      (src : List ℕ) (size : ℕ)
      → size ≤ S.maxstr
      → 0 < S.maxstr
      → length (S.qstrncpy src size) < S.maxstr
  copied_fits src size h pos = let short = length-take (size - 1) src in rw S.copies (omega arith)

  -- Every macro has cells for its line, whose name and value have less than MAXSTR bytes.
  abbrev pub AllShown : List MacroDetails → Type 0
  AllShown [] = Unit
  AllShown (d ∷ ds) =
      ((name : List ℕ) × (value : List ℕ) × (macro_cells S (some d) ≡ some (name, value))
        × (length name < S.maxstr)
        × (length value < S.maxstr))
      × AllShown ds

  AllFit-AllShown : (ds : List MacroDetails) → 0 < S.maxstr → AllFit ds → AllShown ds
  unfolding AllFit macro_cells
  AllFit-AllShown [] pos a = tt
  AllFit-AllShown (d ∷ ds) pos (h, a) = (
    (
      _,
      _,
      refl,
      copied_fits d.macro d.name_len h pos,
      copied_fits (drop d.name_len d.macro) S.maxstr (omega arith) pos,
    ),
    AllFit-AllShown ds pos a,
  )

  -- libdwarf's entries advance: behind the last entry of an answer is a later offset, within the
  -- section.
  abbrev pub IsAdvancing : ℕ → Type 0
  IsAdvancing size =
      (offset : ℕ) (maclist : List MacroEntry)
      → S.get_macro_details offset ≡ ok maclist
      → (offset < next_offset S offset maclist) × (next_offset S offset maclist ≤ size)

  loop_ends :
      (size : ℕ)
      → IsAdvancing size
      → (fuel offset : ℕ) → offset ≤ size
      → size < offset + fuel
      → (macros : List MacroDetails) × (retrieve_macros S fuel offset ≡ some macros)
  unfolding retrieve_macros
  loop_ends size advances zero offset h enough = absurd (omega arith)
  loop_ends size advances (suc fuel) offset h enough =
      answered (S.get_macro_details offset) (λ maclist e. advances offset maclist e)
        (λ next later within. loop_ends size advances fuel next within (omega arith))
    where
      answered :
          (r : DwResult (List MacroEntry))
          → ((maclist : List MacroEntry)
              → r ≡ ok maclist
              → (offset < next_offset S offset maclist) × (next_offset S offset maclist ≤ size))
          → ((next : ℕ)
              → offset < next
              → next ≤ size
              → (ms : List MacroDetails) × (retrieve_macros S fuel next ≡ some ms))
          → (macros : List MacroDetails) × ((elim r [
            | no_entry ↦ some []
            | error x ↦ some []
            | ok maclist ↦ elim (retrieve_macros S fuel (next_offset S offset maclist)) [
              | none ↦ none
              | some ms ↦ some (add_entries S maclist ++ ms)
            ]
          ])
              ≡ some macros)
      answered no_entry k again = ([], refl)
      answered (error x) k again = ([], refl)
      answered (ok maclist) k again =
          let (later, within) = k maclist refl in
          let (ms, run) = again (next_offset S offset maclist) later within in
          (add_entries S maclist ++ ms, rw run refl)

  -- Where every answer of libdwarf leads to a later offset within a section of `size` bytes, the loop
  -- from offset 0 ends within `size + 1` rounds, and where MAXSTR is not 0, each macro it retrieved
  -- has cells, a name and a value of less than MAXSTR bytes each.
  pub retrieve_macros_ends :
      (fuel size : ℕ)
      → IsAdvancing size
      → size < fuel
      → 0 < S.maxstr
      → (macros : List MacroDetails) × (retrieve_macros S fuel 0 ≡ some macros) × AllShown macros
  retrieve_macros_ends fuel size advances enough pos =
      let (macros, run) = loop_ends size advances fuel 0 (omega arith) (omega arith) in
      (macros, run, AllFit-AllShown macros pos (retrieve_macros-AllFit fuel 0 macros run))
