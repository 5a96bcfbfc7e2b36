-- ===== src/Tests/MacroRuns.antt =====
-- The theorems about macros at concrete inputs.
use idadwarf.Prelude.{
  ℕ, zero, suc, ◌+◌, ◌-◌, ◌<◌, ◌≡◌, length, refl, some, List, [], ◌∷◌, if◌then◌else◌, ◌==◌, take,
  arith,
}
use idadwarf.Dwarf.{ok, no_entry}
use idadwarf.Macros.{
  MacroEntry, MacroDetails, MacroSdk, dw_macinfo_define, add_entry, retrieve_macros, get_macro,
  details_of, add_entries, next_offset,
}
use idadwarf.Macros.Cells.{IsAdvancing}
use idadwarf.Macros.Lines.{get_macro_bounds}

-- The index behind the first space, or the end.
abbrev start_from : ℕ → List ℕ → ℕ
start_from i [] = i
start_from i (c ∷ cs) = if c == b' ' then i + 1 else start_from (i + 1) cs

abbrev one_macro : MacroEntry
one_macro = record {
  dmd_type = dw_macinfo_define;
  dmd_macro = some (b'N' ∷ b' ' ∷ b'7' ∷ []);
  dmd_offset = 0;
}

abbrev pub small_macros : MacroSdk
small_macros = record {
  get_macro_details = λ offset. if offset == 0 then ok (one_macro ∷ []) else no_entry;
  value_start = λ macro. some (start_from 0 macro);
  qstrncpy = λ src size. take (size - 1) src;
  maxstr = 1024;
  copies = λ src size. refl;
}

abbrev n_details : MacroDetails
n_details = record { macro = b'N' ∷ b' ' ∷ b'7' ∷ []; name_len = 2 }

all_macros : retrieve_macros small_macros 2 0 ≡ some (n_details ∷ [])
unfolding retrieve_macros add_entries add_entry details_of next_offset
all_macros = refl

shown : get_macro small_macros (n_details ∷ []) 1 ≡ some (b'N' ∷ [], b'7' ∷ [])
unfolding get_macro
shown = refl

small-IsAdvancing : IsAdvancing small_macros 1
unfolding next_offset
small-IsAdvancing zero maclist e =
    let one : one_macro ∷ [] ≡ maclist = cc in rw (← one) (omega arith, omega arith)
small-IsAdvancing (suc offset) maclist e = absurd (ground arith)

get_macro_bounds_example :
    (macros : List MacroDetails) × (retrieve_macros small_macros 2 0 ≡ some macros)
    × ((n : ℕ)
        → n < length macros
        → (name : List ℕ) × (value : List ℕ) × (get_macro small_macros macros (n + 1)
            ≡ some (name, value))
          × (length name < small_macros.maxstr)
          × (length value < small_macros.maxstr))
get_macro_bounds_example =
    get_macro_bounds small_macros 2 1 small-IsAdvancing (omega arith) (omega arith)
