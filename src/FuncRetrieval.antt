-- ===== src/FuncRetrieval.antt =====
-- src/func_retrieval.cpp: the kinds of variables by their location, and the place of a stack
-- variable in the frame. Offsets and addresses have 32 bits.
use idadwarf.Prelude.{
  ℕ, ◌+◌, ◌-◌, ◌^◌, Bool, not, ◌||◌, ◌&&◌, Option, none, some, List, [], ◌∷◌, if◌then◌else◌, ◌==◌,
  leb, ltb, badaddr, to_word,
}
use idadwarf.Cache.{VarType, var_useless, var_register, var_stack, var_func_static}
use idadwarf.Dwarf.Tags.{dw_op_breg4, dw_op_breg5, dw_op_fbreg, dw_op_addr}
use idadwarf.Dwarf.{Loc, Locdesc}
use idadwarf.Holder.Location.{OffsetArea, OffsetAreas}
use idadwarf.Registers.{dw_op_reg}
pub mod Kinds
pub mod StackVars
pub mod Sdk
pub mod Params
pub mod Frame
pub mod Operands
pub mod Variables
pub mod Subprograms
pub mod Callees
pub mod Growth
pub mod Arguments
pub mod Calls

-- The cases DW_OP_reg0 to DW_OP_reg8 of the switch.
abbrev pub is_reg : ℕ → Bool
is_reg atom =
    atom == dw_op_reg 0
    || atom == dw_op_reg 1
    || atom == dw_op_reg 2
    || atom == dw_op_reg 3
    || atom == dw_op_reg 4
    || atom == dw_op_reg 5
    || atom == dw_op_reg 6
    || atom == dw_op_reg 7
    || atom == dw_op_reg 8

pub get_var_type : ℕ → VarType
get_var_type atom =
    if is_reg atom
    then var_register
    else if atom == dw_op_breg4 || atom == dw_op_breg5 || atom == dw_op_fbreg
    then var_stack
    else if atom == dw_op_addr
    then var_func_static
    else var_useless

-- area_t of the SDK: its start and its end.
abbrev pub Area : Type 0
Area = ℕ × ℕ

abbrev pub area_of : OffsetArea → Area
area_of a = (a.start_ea, a.end_ea)

-- -funptr->fpd
abbrev negated : ℕ → ℕ
negated fpd = 2 ^ 32 - to_word fpd

-- `contains` is area_t::contains of the SDK; `fpd` is the frame's, and `loc` the only operation.
module _ (contains : Area → Area → Bool) (fpd : ℕ) (areas : OffsetAreas) (locdesc : Locdesc)
    (loc : Loc) where
  -- The offset in the frame by an area of the frame base.
  pub area_offset : OffsetArea → ℕ
  area_offset a =
      to_word (a.offset + loc.lr_number + (if a.use_fp then negated fpd else areas.m_base))

  -- Whether the area of a variable without a location list is that of the frame base.
  abbrev pub takes_area : OffsetArea → Bool
  takes_area a = a.use_fp || (not (areas.m_rel_addr == badaddr) && leb areas.m_rel_addr a.start_ea)

  -- The loop over the areas; `area` is kept from one round to the next.
  pub find_area : List OffsetArea → Area → Option ℕ
  unfolding area_offset
  find_area [] area = none
  find_area (a ∷ later) area =
      let area' = if not locdesc.ld_from_loclist && takes_area a then area_of a else area in
      let rest = find_area later area' in
      if not a.use_fp && (areas.m_rel_addr == badaddr || ltb area'.0 areas.m_rel_addr)
      then rest
      else if contains (area_of a) area'
      then some (area_offset a)
      else rest

  -- The offset at which process_stack_var adds a variable, if it finds one.
  pub stack_offset : Option ℕ
  unfolding find_area
  stack_offset =
      if loc.lr_atom == dw_op_breg5
      then some (to_word (loc.lr_number + negated fpd))
      else if loc.lr_atom == dw_op_breg4 && not (areas.m_rel_addr == badaddr)
      then some (to_word (loc.lr_number + areas.m_base))
      else if loc.lr_atom == dw_op_fbreg
      then find_area areas.areas (
          if locdesc.ld_from_loclist
          then (to_word locdesc.ld_lopc, to_word locdesc.ld_hipc)
          else (badaddr, badaddr))
      else none
