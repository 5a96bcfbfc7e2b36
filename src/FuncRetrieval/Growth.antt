-- ===== src/FuncRetrieval/Growth.antt =====
-- src/func_retrieval.cpp and src/global_retrieval.cpp: the cache of DIEs only grows.
pub mod Frame
pub mod Variables
use idadwarf.Prelude.{ℕ, Bool, List, ◌∷◌}
use idadwarf.Ida.{FuncArg, FuncInfo}
use idadwarf.Session.{Host}
use idadwarf.Cache.Calls.{code_pass}
use idadwarf.Session.Keeps.{Keeps, keeps_rules}
use idadwarf.Session.Loops.{keeps_loops}
use idadwarf.TypeRetrieval.Progress.{lookup_rules}
use idadwarf.Globals.{set_global_var, process_global_var, visit_global_die, retrieve_globals}
use idadwarf.FuncRetrieval.Sdk.{FuncSdk}
use idadwarf.FuncRetrieval.Subprograms.{
  addr_of, return_type_of, process_label, apply_finished, finish_with_type, finish_subprogram,
  stack_base, process_function, process_subprogram, visit_func_die,
}
use idadwarf.FuncRetrieval.Callees.{add_callee_types, retrieve_funcs}
use idadwarf.FuncRetrieval.Growth.Frame.{Keeps-with_origin_of}
use idadwarf.FuncRetrieval.Growth.Variables.{Keeps-process_func_vars, Keeps-apply_die_type}

module _ {H : Host} where
  Keeps-addr_of : (a : ℕ) (var : List H.dwarf.Die) → Keeps {H = H} code_pass (addr_of {H = H} a var)
  unfolding addr_of
  Keeps-addr_of a var = search (keeps_rules) depth 20

  Keeps-return_type_of : (die : H.dwarf.Die) → Keeps {H = H} code_pass (return_type_of {H = H} die)
  unfolding return_type_of
  Keeps-return_type_of die = search (lookup_rules) depth 20

  Keeps-process_label :
      (die : H.dwarf.Die) (set_name : H.ida.Db → ℕ → List ℕ → H.ida.Db)
      → Keeps {H = H} code_pass (process_label {H = H} die set_name)
  unfolding process_label
  Keeps-process_label die set_name =
      search (Keeps-with_origin_of, Keeps-addr_of, keeps_rules) depth 20

module _ {H : Host} (F : FuncSdk H.ida.Db) where
  Keeps-apply_finished :
      (fuel : ℕ) (f : ℕ) (type : List ℕ) (e : Bool) (args : List FuncArg) (info : FuncInfo)
      → Keeps {H = H} code_pass (apply_finished {H = H} F fuel f type e args info)
  unfolding apply_finished
  Keeps-apply_finished fuel f type e args info = search (keeps_rules) depth 20

  Keeps-finish_with_type :
      (fuel : ℕ) (die : H.dwarf.Die) (f : ℕ) (args : List FuncArg) (type : List ℕ)
      → Keeps {H = H} code_pass (finish_with_type {H = H} F fuel die f args type)
  unfolding finish_with_type
  Keeps-finish_with_type fuel die f args type = search (Keeps-apply_finished, keeps_rules) depth 20

  Keeps-finish_subprogram :
      (fuel : ℕ) (die : H.dwarf.Die) (f : ℕ) (args : List FuncArg)
      → Keeps {H = H} code_pass (finish_subprogram {H = H} F fuel die f args)
  unfolding finish_subprogram
  Keeps-finish_subprogram fuel die f args =
      search (Keeps-return_type_of, Keeps-finish_with_type, keeps_rules) depth 20

  Keeps-stack_base : (f : ℕ) (cu : ℕ) → Keeps {H = H} code_pass (stack_base {H = H} F f cu)
  unfolding stack_base
  Keeps-stack_base f cu = search (keeps_rules) depth 20

  Keeps-process_function :
      (depth : ℕ) (fuel : ℕ) (die : H.dwarf.Die) (f : ℕ)
      → Keeps {H = H} code_pass (process_function {H = H} F depth fuel die f)
  unfolding process_function
  Keeps-process_function depth fuel die f =
      search
        (
          Keeps-addr_of,
          Keeps-stack_base,
          Keeps-process_func_vars {H = H} F,
          Keeps-finish_subprogram,
          keeps_rules,
        )
        depth 40

  Keeps-process_subprogram :
      (depth : ℕ) (fuel : ℕ) (die : H.dwarf.Die)
      → Keeps {H = H} code_pass (process_subprogram {H = H} F depth fuel die)
  unfolding process_subprogram
  Keeps-process_subprogram depth fuel die =
      search (Keeps-addr_of, Keeps-process_function, keeps_rules) depth 20

  Keeps-visit_func_die :
      (depth : ℕ) (fuel : ℕ) (die : H.dwarf.Die)
      → Keeps {H = H} code_pass (visit_func_die {H = H} F depth fuel die)
  unfolding visit_func_die
  Keeps-visit_func_die depth fuel die =
      search (Keeps-process_subprogram, Keeps-process_label, keeps_rules) depth 20

  Keeps-add_callee_types : (fuel : ℕ) → Keeps {H = H} code_pass (add_callee_types {H = H} F fuel)
  unfolding add_callee_types
  Keeps-add_callee_types fuel = search (keeps_loops, keeps_rules) depth 20

  pub Keeps-retrieve_funcs :
      (depth : ℕ) (fuel : ℕ) (cus : List H.dwarf.Die)
      → Keeps {H = H} code_pass (retrieve_funcs {H = H} F depth fuel cus)
  unfolding retrieve_funcs
  Keeps-retrieve_funcs depth fuel cus =
      search (Keeps-visit_func_die, Keeps-add_callee_types, keeps_loops, keeps_rules) depth 20

  Keeps-set_global_var :
      (var : List H.dwarf.Die) (addr : ℕ)
      → Keeps {H = H} code_pass (set_global_var {H = H} F var addr)
  unfolding set_global_var
  Keeps-set_global_var var addr = search (Keeps-apply_die_type, keeps_rules) depth 20

  Keeps-process_global_var :
      (var : List H.dwarf.Die) → Keeps {H = H} code_pass (process_global_var {H = H} F var)
  unfolding process_global_var
  Keeps-process_global_var var = search (Keeps-set_global_var, keeps_rules) depth 20

  Keeps-visit_global_die :
      (die : H.dwarf.Die) → Keeps {H = H} code_pass (visit_global_die {H = H} F die)
  unfolding visit_global_die
  Keeps-visit_global_die die = search (Keeps-process_global_var, keeps_rules) depth 20

  pub Keeps-retrieve_globals :
      (fuel : ℕ) (cus : List H.dwarf.Die)
      → Keeps {H = H} code_pass (retrieve_globals {H = H} F fuel cus)
  unfolding retrieve_globals
  Keeps-retrieve_globals fuel cus =
      search (Keeps-visit_global_die, keeps_loops, keeps_rules) depth 20
