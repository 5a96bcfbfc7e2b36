-- ===== src/FuncRetrieval/Operands.antt =====
-- src/func_retrieval.cpp: the operands of the instructions in which a variable is in a register.
use Prim.Native.String.{String}
use idadwarf.Prelude.{
  ℕ, zero, suc, ◌+◌, Bool, true, false, ◌||◌, ◌&&◌, not, Option, none, some, List, [], ◌∷◌,
  if◌then◌else◌, ◌==◌, badaddr, to_word, ltb,
}
use idadwarf.Cache.{get_cache_type_ordinal}
use idadwarf.Dwarf.Tags.{dw_at_type}
use idadwarf.FuncRetrieval.Sdk.{FuncSdk, Operand, o_void, o_imm, o_reg, o_phrase, o_displ, Insn}
use idadwarf.Ida.{types}
use idadwarf.IdaUtils.{or_empty, resolve_typedef_ordinal, resolve_typedef_name}
use idadwarf.Registers.{reg, add_registers, get_name}
use idadwarf.Session.{
  Host, Action, Void, pure, fueled, gets, update_fueled, ◌>>=◌, on_option, get_ref_from_attr,
}
use idadwarf.Til.{first_byte}
use idadwarf.TypeRetrieval.Lookup.{returned}
use idadwarf.TypeUtils.{badnode}

-- What a variable in a register refers to.
pub data Target : Type 0 where
  nothing : Target
  to_struc to_enum : ℕ → Target

unfoldable pub has_target : Target → Bool
has_target nothing = false
has_target _ = true

abbrev nn_cmp : ℕ
nn_cmp = 27

abbrev nn_mov : ℕ
nn_mov = 122

abbrev nn_test : ℕ
nn_test = 210

module _ (same : String → String → Bool) (reg_name : String) where
  -- The name of the operand's register is that of the variable's.
  unfoldable pub is_register : ℕ → Bool
  is_register r = elim (get_name add_registers (reg r)) [
    | none ↦ false
    | some name ↦ same name reg_name
  ]

  -- The offset of an operand that goes through the register.
  unfoldable pub register_offset : Operand → Option ℕ
  unfolding is_register
  register_offset (o_displ r addr) =
      if addr == badaddr then none else if is_register r then some addr else none
  register_offset (o_phrase r) = if is_register r then some 0 else none
  register_offset _ = none

  -- Whether an operand, up to the end of the operands, is the register.
  unfoldable pub uses_register : List Operand → Bool
  unfolding is_register
  uses_register [] = false
  uses_register (o_void ∷ ops) = false
  uses_register (o_reg r ∷ ops) = if is_register r then true else uses_register ops
  uses_register (_ ∷ ops) = uses_register ops

module _ {Db : Type 0} (I_best : Db → ℕ → ℕ → Option ℕ) (op_stroff : Db → ℕ → ℕ → ℕ × ℕ → Db) where
  unfoldable pub apply_member : Db → (addr nb_op sptr : ℕ) → Option ℕ → Db
  apply_member db addr nb_op sptr none = db
  apply_member db addr nb_op sptr (some reg_offset) = elim (I_best db sptr reg_offset) [
    | none ↦ db
    | some mptr ↦ op_stroff db addr nb_op (sptr, mptr)
  ]

module _ {Db : Type 0} (F : FuncSdk Db) where
  -- The loop over the operands of the instruction at the address, from an operand on.
  unfoldable pub strpath_operands : Db → (addr : ℕ) → String → (sptr nb_op : ℕ) → List Operand → Db
  unfolding apply_member register_offset
  strpath_operands db addr reg_name sptr nb_op [] = db
  strpath_operands db addr reg_name sptr nb_op (o_void ∷ ops) = db
  strpath_operands db addr reg_name sptr nb_op (op ∷ ops) =
      strpath_operands
        (apply_member F.get_best_fit_member F.op_stroff db addr nb_op sptr
          (register_offset F.same reg_name op))
        addr reg_name sptr (nb_op + 1) ops

  unfoldable pub set_register_var_strpath : Db → (addr : ℕ) → String → (sptr : ℕ) → Insn → Db
  unfolding strpath_operands
  set_register_var_strpath db addr reg_name sptr cmd =
      strpath_operands db addr reg_name sptr 0 cmd.operands

  unfoldable pub enum_operands : Db → (addr enum_id nb_op : ℕ) → List Operand → Db
  enum_operands db addr enum_id nb_op [] = db
  enum_operands db addr enum_id nb_op (o_void ∷ ops) = db
  enum_operands db addr enum_id nb_op (o_imm ∷ ops) =
      enum_operands (F.op_enum db addr nb_op enum_id) addr enum_id (nb_op + 1) ops
  enum_operands db addr enum_id nb_op (_ ∷ ops) = enum_operands db addr enum_id (nb_op + 1) ops

  unfoldable pub set_register_var_enum : Db → (addr : ℕ) → String → (enum_id : ℕ) → Insn → Db
  unfolding enum_operands uses_register
  set_register_var_enum db addr reg_name enum_id cmd =
      if (cmd.itype == nn_cmp || cmd.itype == nn_mov || cmd.itype == nn_test)
        && uses_register F.same reg_name cmd.operands
      then enum_operands db addr enum_id 0 cmd.operands
      else db

  unfoldable pub apply_target : Db → (addr : ℕ) → String → Target → Insn → Db
  unfolding set_register_var_strpath set_register_var_enum
  apply_target db addr reg_name nothing cmd = db
  apply_target db addr reg_name (to_struc sptr) cmd =
      set_register_var_strpath db addr reg_name sptr cmd
  apply_target db addr reg_name (to_enum enum_id) cmd =
      set_register_var_enum db addr reg_name enum_id cmd

  -- The loop over the instructions, which ends where there is none; `none`: the fuel ran out.
  pub apply_range : ℕ → Db → (current end_ea : ℕ) → String → Target → Option Db
  unfolding apply_target
  apply_range zero db current end_ea reg_name target = none
  apply_range (suc fuel) db current end_ea reg_name target =
      let cmd = F.ua_ana0 db current in
      let rest =
        apply_range fuel (apply_target db current reg_name target cmd)
          (to_word (current + cmd.size)) end_ea reg_name target in
      if not (ltb current end_ea) then some db else if cmd.size == 0 then some db else rest

unfoldable pub with_db : {Db : Type 0} → Option Db → Option (Unit {0} × Db)
with_db none = none
with_db (some db) = some (tt, db)

module _ {H : Host} (F : FuncSdk H.ida.Db) where
  -- A pointer to a structure, by the typedef behind the pointer.
  unfoldable pub struc_target : ℕ → List ℕ → Action H Target
  struc_target fuel type = on_option {H = H} (F.remove_type_pointer type) (pure nothing) (λ pointed.
      if H.ida.coding.is_type_typedef (first_byte pointed)
      then (do
        db ← gets {H = H} (λ w. w.db)
        name ←
            fueled {H = H}
              (returned (resolve_typedef_name H.ida.coding (types H.ida) fuel db pointed))
        on_option {H = H} name (pure nothing) (λ n. do
          struc_id ← gets {H = H} (λ w. H.ida.get_struc_id w.db n)
          sptr ← gets {H = H} (λ w. H.ida.struc_ordinal w.db struc_id)
          on_option {H = H} sptr (pure nothing)
              (λ _. pure (if struc_id == badnode then nothing else to_struc struc_id))))
      else pure nothing)

  -- BADNODE is no enum; the name NULL is taken as the empty one.
  unfoldable pub enum_target : ℕ → Action H Target
  enum_target ordinal = do
    name ← gets {H = H} (λ w. H.ida.get_numbered_type_name w.db ordinal)
    enum_id ← gets {H = H} (λ w. H.ida.get_enum w.db (or_empty name))
    pure (if enum_id == badnode then nothing else to_enum enum_id)

  unfoldable pub find_target : ℕ → ℕ → Action H Target
  unfolding struc_target enum_target
  find_target fuel ordinal = do
    db ← gets {H = H} (λ w. w.db)
    resolved ←
        fueled {H = H}
          (returned (resolve_typedef_ordinal H.ida.coding (types H.ida) fuel db ordinal))
    let found = if resolved == 0 then ordinal else resolved
    type ← gets {H = H} (λ w. H.ida.get_numbered_type w.db found)
    on_option {H = H} type (pure nothing) (λ t.
        if H.ida.coding.is_type_enum (first_byte t)
        then enum_target found
        else if H.ida.coding.is_type_ptr (first_byte t)
        then struc_target fuel t
        else pure nothing)

  unfoldable pub set_register_var_operand_type :
      ℕ → List H.dwarf.Die → String → (start_ea end_ea : ℕ) → Action H Void
  unfolding find_target has_target with_db
  set_register_var_operand_type fuel var reg_name start_ea end_ea = do
    offset ← get_ref_from_attr dw_at_type var
    ordinal ← gets {H = H} (λ w. get_cache_type_ordinal H.netnode w.node offset)
    target ← on_option {H = H} ordinal (pure nothing) (find_target fuel)
    if has_target target
        then update_fueled {H = H}
            (λ db. returned (with_db (apply_range F fuel db start_ea end_ea reg_name target)))
        else pure tt
