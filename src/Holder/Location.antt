-- ===== src/Holder/Location.antt =====
-- src/die_utils.hpp and src/die_utils.cpp: location descriptions. Addresses and stack offsets have
-- 32 bits (ea_t and sval_t, as bit patterns); the operands of libdwarf have 64.
use idadwarf.Prelude.{
  ℕ, Bool, true, false, not, ◌&&◌, ◌||◌, Option, none, some, List, [], ◌∷◌, ◌++◌, if◌then◌else◌,
  ◌==◌, leb, ltb, badaddr, to_word,
}
use idadwarf.Dwarf.{Libdwarf, Loc, Locdesc}
use idadwarf.Dwarf.Checked.{Checked, returns, throws, ◌>>=◌, check_dwerr, check_found}
use idadwarf.Dwarf.Tags.{dw_op_breg4, dw_op_breg5, dw_op_addr, dw_op_plus_uconst}
pub mod Operand
pub mod Frame

-- OffsetArea: an area of addresses with the offset of the frame base in it.
pub record OffsetArea : Type 0 where
  pub start_ea : ℕ
  pub end_ea : ℕ
  pub offset : ℕ
  pub use_fp : Bool

-- OffsetAreas: the vector, the stack base, and the address from which the base applies.
pub record OffsetAreas : Type 0 where
  pub areas : List OffsetArea
  pub m_base : ℕ
  pub m_rel_addr : ℕ

abbrev pub no_areas : OffsetAreas
no_areas = record { areas = []; m_base = 0; m_rel_addr = badaddr }

pub set_stack_base : OffsetAreas → ℕ → ℕ → OffsetAreas
set_stack_base a base rel_addr = record a { m_base = base; m_rel_addr = rel_addr }

-- Whether a description is the one that get_operand looks for.
abbrev pub applies : ℕ → Bool → Locdesc → Bool
applies rel_addr only_locblock d =
    if not d.ld_from_loclist
    then true
    else not only_locblock && (leb d.ld_lopc rel_addr && ltb rel_addr d.ld_hipc)

-- The loop of get_operand: `locdesc` is the description of the last round, `found` whether some
-- description applied.
unfoldable pub scan : ℕ → Bool → List Locdesc → Bool → Option Locdesc → Bool × Option Locdesc
scan rel_addr only_locblock [] found locdesc = (found, locdesc)
scan rel_addr only_locblock (d ∷ ds) found locdesc =
    scan rel_addr only_locblock ds (found || applies rel_addr only_locblock d) (some d)

-- What get_operand does after the loop.
locs_operand : ℕ → List Loc → Checked (Option ℕ)
locs_operand atom [] = throws none
locs_operand atom (loc ∷ []) = returns (if loc.lr_atom == atom then some loc.lr_number else none)
locs_operand atom (_ ∷ _ ∷ _) = throws none

unfoldable pub operand_of : ℕ → Locdesc → Checked (Option ℕ)
unfolding locs_operand
operand_of atom d = locs_operand atom d.ld_s

unfoldable pub select_operand : ℕ → ℕ → Bool → List Locdesc → Checked (Option ℕ)
unfolding scan operand_of
select_operand rel_addr atom only_locblock ds =
    let (found, locdesc) = scan rel_addr only_locblock ds false none in
    if found then (do d ← check_found locdesc; operand_of atom d) else returns none

-- The loop of get_frame_base_offsets.
located_area : Locdesc → List Loc → List OffsetArea
located_area d [] = []
located_area d (loc ∷ []) =
    if loc.lr_atom == dw_op_breg4 || loc.lr_atom == dw_op_breg5
    then record {
      start_ea = if not d.ld_from_loclist then badaddr else to_word d.ld_lopc;
      end_ea = if not d.ld_from_loclist then badaddr else to_word d.ld_hipc;
      offset = to_word loc.lr_number;
      use_fp = loc.lr_atom == dw_op_breg5;
    }
      ∷ []
    else []
located_area d (_ ∷ _ ∷ _) = []

pub frame_base_area : Locdesc → List OffsetArea
unfolding located_area
frame_base_area d = located_area d d.ld_s

pub push_areas : List OffsetArea → List Locdesc → List OffsetArea
push_areas areas [] = areas
push_areas areas (d ∷ ds) = push_areas (areas ++ frame_base_area d) ds

module _ (D : Libdwarf) where
  open D use {Attribute}

  -- get_operand, on the attribute that was found; `none` is the result false.
  unfoldable pub operand_from : ℕ → ℕ → Bool → Option Attribute → Checked (Option ℕ)
  operand_from rel_addr atom only_locblock attrib = do
    a ← check_found attrib
    ds ← check_dwerr (D.loclist_n a)
    select_operand rel_addr atom only_locblock ds

  unfoldable pub member_offset_from : Option Attribute → Checked ℕ
  unfolding operand_from
  member_offset_from attrib = do
    offset ← operand_from 0 dw_op_plus_uconst true attrib
    check_found offset

  pub var_addr_from : Option Attribute → Checked (Option ℕ)
  unfolding operand_from
  var_addr_from attrib = operand_from 0 dw_op_addr true attrib

  pub frame_base_offsets_from : OffsetAreas → Option Attribute → Checked OffsetAreas
  unfolding push_areas
  frame_base_offsets_from areas attrib = do
    a ← check_found attrib
    ds ← check_dwerr (D.loclist_n a)
    returns (record areas { areas = push_areas areas.areas ds })
