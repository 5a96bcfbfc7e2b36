-- ===== src/Tests/DieRuns.antt =====
-- Holders, location descriptions, the traversal and the iterators at concrete inputs.
use idadwarf.Prelude.{
  ℕ, ◌≡◌, Bool, ◌&&◌, leb, badaddr, List, true, false, none, some, [], ◌∷◌, ◌++◌, ◌↔◌, ◌≤◌, is_some,
  refl, arith, filterb, lookup,
}
use idadwarf.Dwarf.{Loc, Locdesc}
use idadwarf.Dwarf.Checked.{returns}
use idadwarf.Dwarf.Tags.{dw_op_breg4, dw_op_breg5, dw_op_fbreg, dw_at_type}
use idadwarf.Holder.{new_holder, get_attr}
use idadwarf.Holder.Reading.{attr_of, ref_from, get_child, get_sibling, get_tag}
use idadwarf.Holder.Memo.{IsFaithful, chain, ref_of, get_attr-Reads}
use idadwarf.Holder.Location.{OffsetArea, OffsetAreas, operand_of, push_areas, select_operand}
use idadwarf.Holder.Location.Operand.{select_operand_not_matching}
use idadwarf.Holder.Location.Frame.{AreasOf, push_areas-AreasOf}
use idadwarf.Traversal.{do_dies_traversal}
use idadwarf.Traversal.Preorder.{nothing, die, Units, no_unit, unit, do_dies_traversal-visit_all}
use idadwarf.Iterators.{children}
use idadwarf.Iterators.Children.{Siblings, last, then_sibling, items, wanted, children-filterb}
use idadwarf.Registers.{add_registers, dw_op_reg, get_name_from_atom}
use idadwarf.Registers.Agreement.{get_name_from_atom_iff}
use idadwarf.Cache.{var_register}
use idadwarf.FuncRetrieval.{get_var_type, find_area, Area}
use idadwarf.FuncRetrieval.StackVars.{first_offset, find_area-first_offset}
use idadwarf.FuncRetrieval.Kinds.{get_var_type-get_name_from_atom}
use idadwarf.Tests.Worlds.{small_dwarf}

pub new-IsFaithful : (d : ℕ) → IsFaithful small_dwarf (new_holder small_dwarf d)
unfolding new_holder lookup
new-IsFaithful d = record {
  names = λ n h. absurd (cc h);
  attrs = λ a x h. absurd (cc h);
  offsets = λ h. absurd (cc h);
}

get_attr-Reads_example :
    ((get_attr small_dwarf dw_at_type (new_holder small_dwarf 20)).0
      ≡ attr_of small_dwarf dw_at_type (chain small_dwarf (new_holder small_dwarf 20)))
    × IsFaithful small_dwarf (get_attr small_dwarf dw_at_type (new_holder small_dwarf 20)).1
    × (chain small_dwarf (get_attr small_dwarf dw_at_type (new_holder small_dwarf 20)).1
        ≡ chain small_dwarf (new_holder small_dwarf 20))
get_attr-Reads_example =
    get_attr-Reads small_dwarf dw_at_type (new_holder small_dwarf 20) (new-IsFaithful 20)

ref_run : ref_of small_dwarf dw_at_type (20 ∷ []) ≡ returns 30
unfolding attr_of ref_from lookup
ref_run = refl

-- A variable in two places: at one stack offset first, at another one later.
abbrev early : Locdesc
early = record {
  ld_lopc = 0;
  ld_hipc = 16;
  ld_s = record { lr_atom = dw_op_fbreg; lr_number = 8 } ∷ [];
  ld_from_loclist = true;
}

abbrev late : Locdesc
late = record {
  ld_lopc = 16;
  ld_hipc = 32;
  ld_s = record { lr_atom = dw_op_fbreg; lr_number = 12 } ∷ [];
  ld_from_loclist = true;
}

select_operand_not_matching_example :
    select_operand 4 dw_op_fbreg false (early ∷ [] ++ late ∷ []) ≡ operand_of dw_op_fbreg late
select_operand_not_matching_example =
    select_operand_not_matching 4 false dw_op_fbreg early [] late refl

-- The frame base is esp + 4, and later ebp + 8.
abbrev on_esp : Locdesc
on_esp = record early { ld_s = record { lr_atom = dw_op_breg4; lr_number = 4 } ∷ [] }

abbrev on_ebp : Locdesc
on_ebp = record late { ld_s = record { lr_atom = dw_op_breg5; lr_number = 8 } ∷ [] }

push_areas-AreasOf_example :
    (found : List OffsetArea) × (push_areas [] (on_esp ∷ late ∷ on_ebp ∷ []) ≡ [] ++ found)
    × AreasOf (on_esp ∷ late ∷ on_ebp ∷ []) found
push_areas-AreasOf_example = push_areas-AreasOf [] (on_esp ∷ late ∷ on_ebp ∷ [])

-- 11 has the children 20, 30 and 40, and 30 has the child 31.
small-Units : Units small_dwarf (11 ∷ []) (11 ∷ 20 ∷ 30 ∷ 31 ∷ 40 ∷ [])
unfolding get_child get_sibling lookup
small-Units =
    unit 11
      (die 11 (die 20 nothing (die 30 (die 31 nothing nothing) (die 40 nothing nothing))) nothing)
      no_unit

do_dies_traversal-visit_all_example :
    do_dies_traversal small_dwarf (λ d seen. d ∷ seen) 6 (11 ∷ []) []
    ≡ some (40 ∷ 31 ∷ 30 ∷ 20 ∷ 11 ∷ [])
do_dies_traversal-visit_all_example =
    do_dies_traversal-visit_all small_dwarf (λ d seen. d ∷ seen) 6 [] small-Units (omega arith)

small-Siblings : Siblings small_dwarf (some 20) ((20, 0x34) ∷ (30, 0x13) ∷ (40, 0x34) ∷ [])
unfolding get_tag get_sibling lookup
small-Siblings =
    then_sibling 20 0x34 (some 30) refl refl
      (then_sibling 30 0x13 (some 40) refl refl (then_sibling 40 0x34 none refl refl last))

children-filterb_example :
    children small_dwarf 5 0x34 11
    ≡ some (
        items small_dwarf
          (filterb (wanted small_dwarf 0x34) ((20, 0x34) ∷ (30, 0x13) ∷ (40, 0x34) ∷ [])))
children-filterb_example =
    children-filterb small_dwarf 5 0x34 11 {start = some 20} (unfold get_child lookup in refl)
      small-Siblings (omega arith)

get_name_from_atom_iff_example :
    (is_some (get_name_from_atom add_registers 0x58) ≡ true)
    ↔ ((dw_op_reg 0 ≤ 0x58) × (0x58 ≤ dw_op_reg 8))
get_name_from_atom_iff_example = get_name_from_atom_iff 0x58

get_var_type-get_name_from_atom_example :
    (get_var_type 0x53 ≡ var_register) ↔ (is_some (get_name_from_atom add_registers 0x53) ≡ true)
get_var_type-get_name_from_atom_example = get_var_type-get_name_from_atom 0x53

-- A variable 8 above the frame base, where the base is first esp and then ebp.
abbrev two_bases : List OffsetArea
two_bases =
    record { start_ea = 0; end_ea = 1; offset = 4; use_fp = false }
    ∷ record { start_ea = 1; end_ea = 9; offset = 8; use_fp = true }
    ∷ []

abbrev whole_areas : OffsetAreas
whole_areas = record { areas = two_bases; m_base = 0; m_rel_addr = badaddr }

abbrev whole_loc : Loc
whole_loc = record { lr_atom = dw_op_fbreg; lr_number = 8 }

abbrev whole_desc : Locdesc
whole_desc = record { ld_lopc = 0; ld_hipc = 0; ld_s = whole_loc ∷ []; ld_from_loclist = false }

abbrev within : Area → Area → Bool
within outer inner = leb outer.0 inner.0 && leb inner.1 outer.1

find_area-first_offset_example :
    find_area within 0 whole_areas whole_desc whole_loc two_bases (badaddr, badaddr)
    ≡ first_offset within 0 whole_areas whole_desc whole_loc two_bases
find_area-first_offset_example =
    find_area-first_offset within 0 whole_areas whole_desc whole_loc two_bases refl
      ((refl, λ _. refl), ((refl, λ e. absurd (cc)), tt))
