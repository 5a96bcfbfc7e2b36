-- ===== src/FuncRetrieval/Growth/Variables.antt =====
-- src/func_retrieval.cpp: a variable of a function takes nothing from the cache of DIEs.
use Prim.Native.String.{String}
use idadwarf.Prelude.{ℕ, zero, suc, Bool, Option, List, [], ◌∷◌}
use idadwarf.Cache.{
  VarType, var_useless, var_register, var_stack, var_func_static, var_static, var_global,
}
use idadwarf.Dwarf.{Loc, Locdesc}
use idadwarf.Ida.{FuncArg}
use idadwarf.Registers.{MetapcReg, r_error, reg}
use idadwarf.Session.{Host}
use idadwarf.Cache.Calls.{code_pass}
use idadwarf.Session.Keeps.{Keeps, keeps_rules}
use idadwarf.Globals.{apply_die_type}
use idadwarf.FuncRetrieval.Sdk.{FuncSdk}
use idadwarf.FuncRetrieval.Operands.{
  struc_target, enum_target, find_target, set_register_var_operand_type,
}
use idadwarf.FuncRetrieval.Variables.{
  add_register_parameter, set_register_var, process_register_var, process_func_static_var,
  process_var, process_locs, visit_func_var, visit_locdescs, retrieve_var, visit_parameter,
  visit_local, process_func_vars, Frame,
}
use idadwarf.FuncRetrieval.Growth.Frame.{
  Keeps-with_origin_of, Keeps-add_to_info, Keeps-process_stack_var, Keeps-get_type_comment,
}

module _ {H : Host} where
  pub Keeps-apply_die_type :
      (var : List H.dwarf.Die) (addr : ℕ)
      → Keeps {H = H} code_pass (apply_die_type {H = H} var addr)
  unfolding apply_die_type
  Keeps-apply_die_type var addr = search (keeps_rules) depth 20

module _ {H : Host} (F : FuncSdk H.ida.Db) where
  Keeps-struc_target :
      (fuel : ℕ) (type : List ℕ) → Keeps {H = H} code_pass (struc_target {H = H} F fuel type)
  unfolding struc_target
  Keeps-struc_target fuel type = search (keeps_rules) depth 20

  Keeps-enum_target : (o : ℕ) → Keeps {H = H} code_pass (enum_target {H = H} F o)
  unfolding enum_target
  Keeps-enum_target o = search (keeps_rules) depth 20

  Keeps-find_target : (fuel : ℕ) (o : ℕ) → Keeps {H = H} code_pass (find_target {H = H} F fuel o)
  unfolding find_target
  Keeps-find_target fuel o = search (Keeps-struc_target, Keeps-enum_target, keeps_rules) depth 20

  Keeps-set_register_var_operand_type :
      (fuel : ℕ) (var : List H.dwarf.Die) (reg_name : String) (s : ℕ) (e : ℕ)
      → Keeps {H = H} code_pass (set_register_var_operand_type {H = H} F fuel var reg_name s e)
  unfolding set_register_var_operand_type
  Keeps-set_register_var_operand_type fuel var reg_name s e =
      search (Keeps-find_target, keeps_rules) depth 20

  Keeps-add_register_parameter :
      (var : List H.dwarf.Die) (at_start : Bool) (r : MetapcReg) (info : Option (List FuncArg))
      → Keeps {H = H} code_pass (add_register_parameter {H = H} F var at_start r info)
  unfolding add_register_parameter
  Keeps-add_register_parameter var at_start r_error info = search keeps_rules
  Keeps-add_register_parameter var at_start (reg nb) info =
      search (Keeps-add_to_info {H = H} F, keeps_rules)

  Keeps-set_register_var :
      (fuel : ℕ) (var : List H.dwarf.Die) (d : Locdesc) (loc : Loc) (frame : Frame)
      (reg_name : String) (info : Option (List FuncArg))
      → Keeps {H = H} code_pass (set_register_var {H = H} F fuel var d loc frame reg_name info)
  unfolding set_register_var
  Keeps-set_register_var fuel var d loc frame reg_name info =
      search
        (
          Keeps-get_type_comment {H = H} F,
          Keeps-add_register_parameter,
          Keeps-set_register_var_operand_type,
          keeps_rules,
        )
        depth 20

  Keeps-process_register_var :
      (fuel : ℕ) (var : List H.dwarf.Die) (d : Locdesc) (loc : Loc) (frame : Frame)
      (info : Option (List FuncArg))
      → Keeps {H = H} code_pass (process_register_var {H = H} F fuel var d loc frame info)
  unfolding process_register_var
  Keeps-process_register_var fuel var d loc frame info =
      search (Keeps-set_register_var, keeps_rules) depth 20

  Keeps-process_func_static_var :
      (var : List H.dwarf.Die) (loc : Loc)
      → Keeps {H = H} code_pass (process_func_static_var {H = H} F var loc)
  unfolding process_func_static_var
  Keeps-process_func_static_var var loc = search (Keeps-apply_die_type, keeps_rules) depth 20

  Keeps-process_var :
      (fuel : ℕ) (var : List H.dwarf.Die) (d : Locdesc) (loc : Loc) (frame : Frame) (t : VarType)
      (info : Option (List FuncArg))
      → Keeps {H = H} code_pass (process_var {H = H} F fuel var d loc frame t info)
  unfolding process_var
  Keeps-process_var fuel var d loc frame var_register info =
      Keeps-process_register_var fuel var d loc frame info
  Keeps-process_var fuel var d loc frame var_stack info =
      search (Keeps-process_stack_var {H = H} F, keeps_rules)
  Keeps-process_var fuel var d loc frame var_func_static info =
      search (Keeps-process_func_static_var, keeps_rules)
  Keeps-process_var fuel var d loc frame var_useless info = search keeps_rules
  Keeps-process_var fuel var d loc frame var_static info = search keeps_rules
  Keeps-process_var fuel var d loc frame var_global info = search keeps_rules

  Keeps-process_locs :
      (fuel : ℕ) (var : List H.dwarf.Die) (d : Locdesc) (frame : Frame) (locs : List Loc)
      (info : Option (List FuncArg))
      → Keeps {H = H} code_pass (process_locs {H = H} F fuel var d frame locs info)
  unfolding process_locs
  Keeps-process_locs fuel var d frame [] info = search keeps_rules
  Keeps-process_locs fuel var d frame (loc ∷ []) info = search (Keeps-process_var, keeps_rules)
  Keeps-process_locs fuel var d frame (_ ∷ _ ∷ _) info = search keeps_rules

  Keeps-visit_func_var :
      (fuel : ℕ) (var : List H.dwarf.Die) (frame : Frame) (d : Locdesc)
      (info : Option (List FuncArg))
      → Keeps {H = H} code_pass (visit_func_var {H = H} F fuel var frame d info)
  unfolding visit_func_var
  Keeps-visit_func_var fuel var frame d info = search (Keeps-process_locs, keeps_rules) depth 20

  Keeps-visit_locdescs :
      (fuel : ℕ) (var : List H.dwarf.Die) (frame : Frame) (nb_args : ℕ) (ds : List Locdesc)
      (kept passed : Option (List FuncArg))
      → Keeps {H = H} code_pass (visit_locdescs {H = H} F fuel var frame nb_args ds kept passed)
  unfolding visit_locdescs
  Keeps-visit_locdescs fuel var frame nb_args [] kept passed = search keeps_rules
  Keeps-visit_locdescs fuel var frame nb_args (d ∷ ds) kept passed =
      search (Keeps-visit_locdescs fuel var frame nb_args ds, Keeps-visit_func_var, keeps_rules)

  Keeps-retrieve_var :
      (fuel : ℕ) (var : List H.dwarf.Die) (frame : Frame) (info : Option (List FuncArg))
      → Keeps {H = H} code_pass (retrieve_var {H = H} F fuel var frame info)
  unfolding retrieve_var
  Keeps-retrieve_var fuel var frame info = search (Keeps-visit_locdescs, keeps_rules) depth 20

  Keeps-visit_parameter :
      (fuel : ℕ) (frame : Frame) (info : Option (List FuncArg)) (die : H.dwarf.Die)
      → Keeps {H = H} code_pass (visit_parameter {H = H} F fuel frame info die)
  unfolding visit_parameter
  Keeps-visit_parameter fuel frame info die =
      search (Keeps-with_origin_of, Keeps-retrieve_var, keeps_rules) depth 20

  Keeps-visit_local :
      (fuel : ℕ) (frame : Frame) (die : H.dwarf.Die)
      → Keeps {H = H} code_pass (visit_local {H = H} F fuel frame die)
  unfolding visit_local
  Keeps-visit_local fuel frame die = search (Keeps-visit_parameter, keeps_rules) depth 20

  pub Keeps-process_func_vars :
      (depth fuel : ℕ) (die : H.dwarf.Die) (frame : Frame) (info : Option (List FuncArg))
      → Keeps {H = H} code_pass (process_func_vars {H = H} F depth fuel die frame info)
  unfolding process_func_vars
  Keeps-process_func_vars zero fuel die frame info = search keeps_rules
  Keeps-process_func_vars (suc depth) fuel die frame info =
      search
        (Keeps-process_func_vars depth fuel, Keeps-visit_parameter, Keeps-visit_local, keeps_rules)
        depth 20
