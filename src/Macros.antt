-- ===== src/Macros.antt =====
-- src/macro_retrieval.cpp: the macros of the debug information, and the cells in which they are
-- shown. The functions of libdwarf and of the SDK are parameters. Sizes have 32 bits, offsets 64.
use idadwarf.Prelude.{
  ℕ, zero, suc, ◌+◌, ◌-◌, ◌%◌, ◌^◌, ◌<◌, ◌≡◌, Option, none, some, List, [], ◌∷◌, ◌++◌,
  if◌then◌else◌, ◌==◌, ltb, drop, take, length, get_elem?,
}
use idadwarf.Dwarf.{DwResult, ok, no_entry, error}
pub mod Cells
pub mod Lines

-- Dwarf_Macro_Details; the macro may be NULL.
pub record MacroEntry : Type 0 where
  pub dmd_type : ℕ
  pub dmd_macro : Option (List ℕ)
  pub dmd_offset : ℕ

-- macro_details
pub record MacroDetails : Type 0 where
  pub macro : List ℕ
  pub name_len : ℕ

-- `value_start` is dwarf_find_macro_value_start, as an index; qstrncpy copies less than a size.
pub record MacroSdk : Type 0 where
  pub get_macro_details : ℕ → DwResult (List MacroEntry)
  pub value_start : List ℕ → Option ℕ
  pub qstrncpy : List ℕ → ℕ → List ℕ
  pub maxstr : ℕ
  pub copies : (src : List ℕ) (size : ℕ) → qstrncpy src size ≡ take (size - 1) src

abbrev pub dw_macinfo_define : ℕ
dw_macinfo_define = 1

-- macro_widths and macro_headers
abbrev pub name_width : ℕ
name_width = 24

abbrev pub value_width : ℕ
value_width = 32

abbrev pub name_header : List ℕ
name_header = b'N' ∷ b'a' ∷ b'm' ∷ b'e' ∷ []

abbrev pub value_header : List ℕ
value_header = b'V' ∷ b'a' ∷ b'l' ∷ b'u' ∷ b'e' ∷ []

module _ (S : MacroSdk) where
  unfoldable pub details_of : List ℕ → Option ℕ → List MacroDetails
  details_of macro none = []
  details_of macro (some start) =
      record { macro = macro; name_len = if ltb start S.maxstr then start else S.maxstr } ∷ []

  -- What an entry adds: nothing, unless it defines a macro.
  unfoldable pub add_entry : MacroEntry → List MacroDetails
  unfolding details_of
  add_entry dmd =
      if dmd.dmd_type == dw_macinfo_define
      then elim dmd.dmd_macro [ none ↦ [] | some macro ↦ details_of macro (S.value_start macro) ]
      else []

  unfoldable pub add_entries : List MacroEntry → List MacroDetails
  unfolding add_entry
  add_entries [] = []
  add_entries (dmd ∷ maclist) = add_entry dmd ++ add_entries maclist

  -- The offset behind the last entry; without one it stays.
  unfoldable pub next_offset : ℕ → List MacroEntry → ℕ
  next_offset offset [] = offset
  next_offset offset (dmd ∷ maclist) = next_offset ((dmd.dmd_offset + 1) % 2 ^ 64) maclist

  -- The loop of retrieve_macros; `none`: the fuel ran out.
  unfoldable pub retrieve_macros : (fuel offset : ℕ) → Option (List MacroDetails)
  unfolding add_entries next_offset
  retrieve_macros zero offset = none
  retrieve_macros (suc fuel) offset = elim (S.get_macro_details offset) [
    | no_entry ↦ some []
    | error e ↦ some []
    | ok maclist ↦ elim (retrieve_macros fuel (next_offset offset maclist)) [
      | none ↦ none
      | some macros ↦ some (add_entries maclist ++ macros)
    ]
  ]

  unfoldable pub macro_cells : Option MacroDetails → Option (List ℕ × List ℕ)
  macro_cells none = none
  macro_cells (some details) = some (
    S.qstrncpy details.macro details.name_len,
    S.qstrncpy (drop details.name_len details.macro) S.maxstr,
  )

  -- The cells of a line; line 0 has the headers. `none`: there is no such line, which is not
  -- defined.
  unfoldable pub get_macro : List MacroDetails → ℕ → Option (List ℕ × List ℕ)
  unfolding macro_cells
  get_macro macros zero =
      some (S.qstrncpy name_header name_width, S.qstrncpy value_header value_width)
  get_macro macros (suc n) = macro_cells (get_elem? macros n)

pub get_nb_macros : List MacroDetails → ℕ
get_nb_macros macros = length macros % 2 ^ 32
