-- ===== src/Registers.antt =====
-- src/registers.hpp, src/registers.cpp and src/items/metapc.itm: the names of the x86 registers, by
-- IDA's number and by DWARF's location atom.
use Prim.Native.String.{String}
use idadwarf.Prelude.{ℕ, ◌+◌, Option, none, some, List, [], ◌∷◌, lookup, insert}
pub mod Agreement

-- metapc_reg: R_error is -1, the others are the numbers of the register file.
pub data MetapcReg : Type 0 where
  r_error : MetapcReg
  reg : ℕ → MetapcReg

-- DW_OP_reg0 and its successors, of the DWARF standard (dwarf.h).
abbrev pub dw_op_reg : ℕ → ℕ
dw_op_reg n = 0x50 + n

-- An ITEM: IDA's number, DWARF's operand, the name.
pub record Item : Type 0 where
  pub nb : ℕ
  pub reg_op : ℕ
  pub reg_name : String

abbrev item : ℕ → ℕ → String → Item
item nb reg_op reg_name = record { nb = nb; reg_op = reg_op; reg_name = reg_name }

-- src/items/metapc.itm
abbrev pub metapc_items : List Item
metapc_items =
    item 0 (dw_op_reg 0) "eax"
    ∷ item 1 (dw_op_reg 1) "ecx"
    ∷ item 2 (dw_op_reg 2) "edx"
    ∷ item 3 (dw_op_reg 3) "ebx"
    ∷ item 4 (dw_op_reg 4) "esp"
    ∷ item 5 (dw_op_reg 5) "ebp"
    ∷ item 6 (dw_op_reg 6) "esi"
    ∷ item 7 (dw_op_reg 7) "edi"
    ∷ item 28 (dw_op_reg 8) "eip"
    ∷ []

pub record RegNames : Type 0 where
  pub names : List (ℕ × String)
  pub atom_names : List (ℕ × (ℕ × String))

add_items : List Item → RegNames → RegNames
add_items [] r = r
add_items (i ∷ is) r = add_items is (record {
  names = insert i.nb i.reg_name r.names;
  atom_names = insert i.reg_op (i.nb, i.reg_name) r.atom_names;
})

pub add_registers : RegNames
unfolding add_items insert
add_registers = add_items metapc_items (record { names = []; atom_names = [] })

pub get_name : RegNames → MetapcReg → Option String
get_name r r_error = none
get_name r (reg nb) = lookup nb r.names

pub get_nb_from_atom : RegNames → ℕ → MetapcReg
get_nb_from_atom r atom = elim (lookup atom r.atom_names) [ none ↦ r_error | some (nb, _) ↦ reg nb ]

pub get_name_from_atom : RegNames → ℕ → Option String
get_name_from_atom r atom = elim (lookup atom r.atom_names) [
  | none ↦ none
  | some (_, name) ↦ some name
]
