-- ===== src/FuncRetrieval/Kinds.antt =====
-- src/func_retrieval.cpp, get_var_type, against the table of registers of src/registers.cpp.
use idadwarf.Prelude.{refl, ℕ, ◌≡◌, ◌↔◌, ◌≤◌, Bool, true, false, arith, is_some}
use idadwarf.Cache.{
  VarType, var_useless, var_register, var_stack, var_func_static, var_static, var_global,
}
use idadwarf.Registers.{dw_op_reg, add_registers, get_name_from_atom}
use idadwarf.Registers.Agreement.{get_name_from_atom_iff}
use idadwarf.FuncRetrieval.{get_var_type}

abbrev is_register : VarType → Bool
is_register var_register = true
is_register _ = false

is_register_lem : (v : VarType) → (is_register v ≡ true) ↔ (v ≡ var_register)
is_register_lem var_useless = (λ h. absurd (cc h), λ h. absurd (cc h))
is_register_lem var_register = (λ h. refl, λ h. refl)
is_register_lem var_stack = (λ h. absurd (cc h), λ h. absurd (cc h))
is_register_lem var_func_static = (λ h. absurd (cc h), λ h. absurd (cc h))
is_register_lem var_static = (λ h. absurd (cc h), λ h. absurd (cc h))
is_register_lem var_global = (λ h. absurd (cc h), λ h. absurd (cc h))

register_atoms :
    (atom : ℕ)
    → (is_register (get_var_type atom) ≡ true) ↔ ((dw_op_reg 0 ≤ atom) × (atom ≤ dw_op_reg 8))
unfolding get_var_type
register_atoms atom = ground arith

-- A variable counts as one in a register exactly where the table of registers has a name for the
-- operation of its location.
pub get_var_type-get_name_from_atom :
    (atom : ℕ)
    → (get_var_type atom ≡ var_register) ↔ (is_some (get_name_from_atom add_registers atom) ≡ true)
get_var_type-get_name_from_atom atom = (
  λ h. (get_name_from_atom_iff atom).1 ((register_atoms atom).0 ((is_register_lem _).1 h)),
  λ h. (is_register_lem _).0 ((register_atoms atom).1 ((get_name_from_atom_iff atom).0 h)),
)
