-- ===== src/Macros/Lines.antt =====
-- src/macro_retrieval.cpp: the lines of macros that are shown.
use idadwarf.Prelude.{
  ℕ, zero, suc, ◌+◌, ◌-◌, ◌<◌, ◌≡◌, refl, ap, ◌∙◌, true, some, List, [], ◌∷◌, ◌++◌, ltb, drop, take,
  length, get_elem?, take_all, take-append, drop-append, get_elem?-append, arith,
}
use idadwarf.Macros.{
  MacroDetails, MacroSdk, dw_macinfo_define, add_entry, details_of, retrieve_macros, macro_cells,
  get_macro,
}
use idadwarf.Macros.Cells.{AllShown, IsAdvancing, retrieve_macros_ends}

module _ (S : MacroSdk) where
  shown_at :
      (ds : List MacroDetails) (n : ℕ)
      → AllShown S ds
      → n < length ds
      → (name : List ℕ) × (value : List ℕ) × (macro_cells S (get_elem? ds n) ≡ some (name, value))
        × (length name < S.maxstr)
        × (length value < S.maxstr)
  shown_at [] n a h = absurd (omega arith)
  shown_at (d ∷ ds) zero (at, a) h = at
  shown_at (d ∷ ds) (suc n) (at, a) h = shown_at ds n a (omega arith)

  line_lem :
      (macros : List MacroDetails) (n : ℕ)
      → get_macro S macros (n + 1) ≡ macro_cells S (get_elem? macros n)
  unfolding get_macro macro_cells
  line_lem macros n = let e : n + 1 ≡ suc n = omega arith in ap (get_macro S macros) e

  -- Where every answer of libdwarf leads to a later offset within a section of `size` bytes, and
  -- MAXSTR is not 0, the loop from offset 0 ends within `size + 1` rounds, and each line behind the
  -- headers, up to the number of macros, has a name and a value of less than MAXSTR bytes each, so
  -- that they fit with their ends into the MAXSTR bytes of a cell.
  pub get_macro_bounds :
      (fuel size : ℕ)
      → IsAdvancing S size
      → size < fuel
      → 0 < S.maxstr
      → (macros : List MacroDetails) × (retrieve_macros S fuel 0 ≡ some macros)
        × ((n : ℕ)
            → n < length macros
            → (name : List ℕ) × (value : List ℕ) × (get_macro S macros (n + 1) ≡ some (name, value))
              × (length name < S.maxstr)
              × (length value < S.maxstr))
  get_macro_bounds fuel size advances enough pos =
      let (macros, run, shown) = retrieve_macros_ends S fuel size advances enough pos in
      (
        macros,
        run,
        λ n h.
            let (name, value, cells, short, shorter) = shown_at macros n shown h in
            (name, value, line_lem macros n ∙ cells, short, shorter),
      )

  cells_eq :
      (name value : List ℕ)
      → length name + 1 < S.maxstr
      → length value < S.maxstr
      → macro_cells S (some (record { macro = name ++ b' ' ∷ value; name_len = length name + 1 }))
        ≡ some (name, value)
  unfolding macro_cells
  cells_eq name value h v =
      let less : length name + 1 - 1 ≡ length name = omega arith in
      let more : length name + 1 ≡ suc (length name) = omega arith in
      let first : S.qstrncpy (name ++ b' ' ∷ value) (length name + 1) ≡ name =
        S.copies _ (length name + 1)
        ∙ (ap (λ k. take k (name ++ b' ' ∷ value)) less ∙ take-append name (b' ' ∷ value)) in
      let second : S.qstrncpy (drop (length name + 1) (name ++ b' ' ∷ value)) S.maxstr ≡ value =
        ap (λ l. S.qstrncpy l S.maxstr)
          (ap (λ k. drop k (name ++ b' ' ∷ value)) more ∙ drop-append name b' ' value)
        ∙ (S.copies value S.maxstr ∙ take_all (S.maxstr - 1) value (omega arith)) in
      ap some (pair_eq first second)
    where
      pair_eq : {a b c d : List ℕ} → a ≡ b → c ≡ d → ◌≡◌ {A = List ℕ × List ℕ} (a, c) (b, d)
      pair_eq p q = cc

  -- A definition `name value`, of whose value libdwarf finds the start behind the space, is shown by
  -- its name and its value, where both are shorter than MAXSTR, whatever macros come before and
  -- after it.
  pub get_macro-add_entry :
      (before after : List MacroDetails) (name value : List ℕ) (offset : ℕ)
      → S.value_start (name ++ b' ' ∷ value) ≡ some (length name + 1)
      → length name + 1 < S.maxstr
      → length value < S.maxstr
      → get_macro S
          (before
            ++ (add_entry S (record {
              dmd_type = dw_macinfo_define;
              dmd_macro = some (name ++ b' ' ∷ value);
              dmd_offset = offset;
            })
                ++ after))
          (length before + 1)
        ≡ some (name, value)
  unfolding add_entry macro_cells
  get_macro-add_entry before after name value offset start h v =
      let macro = name ++ b' ' ∷ value in
      let d : MacroDetails = record { macro = macro; name_len = length name + 1 } in
      let below : ltb (length name + 1) S.maxstr ≡ true = ground arith in
      let added : details_of S macro (S.value_start macro) ≡ d ∷ [] =
        rw (start, details_of, below) refl in
      let joined : details_of S macro (S.value_start macro) ++ after ≡ d ∷ after =
        ap (λ l. l ++ after) added in
      line_lem (before ++ (details_of S macro (S.value_start macro) ++ after)) (length before)
      ∙ (ap (λ l. macro_cells S (get_elem? (before ++ l) (length before))) joined
          ∙ (ap (macro_cells S) (get_elem?-append before after d) ∙ cells_eq name value h v))
