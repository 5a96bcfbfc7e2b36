-- ===== src/Registers/Agreement.antt =====
-- src/registers.cpp: the two tables of register names agree.
use idadwarf.Prelude.{ℕ, ◌≤◌, ◌≡◌, ◌↔◌, lookup, arith, is_some, true}
use idadwarf.Registers.{dw_op_reg, add_registers, get_name, get_nb_from_atom, get_name_from_atom}

-- Exactly the atoms DW_OP_reg0 to DW_OP_reg8 name a register.
pub get_name_from_atom_iff :
    (atom : ℕ)
    → (is_some (get_name_from_atom add_registers atom) ≡ true)
      ↔ ((dw_op_reg 0 ≤ atom) × (atom ≤ dw_op_reg 8))
unfolding get_name_from_atom add_registers lookup
get_name_from_atom_iff atom = ground arith

-- The name of an atom is the name of its register.
pub get_name-get_nb_from_atom :
    (atom : ℕ)
    → get_name add_registers (get_nb_from_atom add_registers atom)
      ≡ get_name_from_atom add_registers atom
unfolding get_name get_nb_from_atom get_name_from_atom add_registers lookup
get_name-get_nb_from_atom atom = ground arith
