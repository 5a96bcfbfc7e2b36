-- ===== src/FuncRetrieval/Growth/Frame.antt =====
-- src/func_retrieval.cpp: a variable in the frame takes nothing from the cache of DIEs.
use idadwarf.Prelude.{ℕ, Option, none, some, List}
use idadwarf.Dwarf.{Loc, Locdesc}
use idadwarf.Holder.Location.{OffsetAreas}
use idadwarf.Ida.{FuncArg, TypeInfo, no_info, enum_info, struc_info}
use idadwarf.Session.{Host}
use idadwarf.Cache.Calls.{code_pass}
use idadwarf.Session.Keeps.{Keeps, keeps_rules}
use idadwarf.FuncRetrieval.Sdk.{FuncSdk}
use idadwarf.FuncRetrieval.Params.{
  with_origin_of, get_type_comment, add_func_parameter, add_to_info,
}
use idadwarf.FuncRetrieval.Frame.{
  member_of_name, guessed_tinfo, set_stack_var_complex_type, set_stack_var_type_cmt,
  set_simple_type, set_added_type, add_typed_var, add_untyped_var, set_stack_var, add_at_offset,
  process_stack_var,
}

module _ {H : Host} where
  pub Keeps-with_origin_of :
      (die : H.dwarf.Die) → Keeps {H = H} code_pass (with_origin_of {H = H} die)
  unfolding with_origin_of
  Keeps-with_origin_of die = search (keeps_rules) depth 20

module _ {H : Host} (F : FuncSdk H.ida.Db) where
  pub Keeps-get_type_comment :
      (var : List H.dwarf.Die) → Keeps {H = H} code_pass (get_type_comment {H = H} F var)
  unfolding get_type_comment
  Keeps-get_type_comment var = search (keeps_rules) depth 20

  Keeps-add_func_parameter :
      (var : List H.dwarf.Die) (loc : ℕ) (args : List FuncArg)
      → Keeps {H = H} code_pass (add_func_parameter {H = H} F var loc args)
  unfolding add_func_parameter
  Keeps-add_func_parameter var loc args = search (keeps_rules) depth 20

  pub Keeps-add_to_info :
      (var : List H.dwarf.Die) (loc : ℕ) (info : Option (List FuncArg))
      → Keeps {H = H} code_pass (add_to_info {H = H} F var loc info)
  unfolding add_to_info
  Keeps-add_to_info var loc none = search keeps_rules
  Keeps-add_to_info var loc (some args) = search (Keeps-add_func_parameter, keeps_rules) depth 20

  Keeps-member_of_name :
      (fptr : ℕ) (name : Option (List ℕ))
      → Keeps {H = H} code_pass (member_of_name {H = H} F fptr name)
  unfolding member_of_name
  Keeps-member_of_name fptr name = search (keeps_rules) depth 20

  Keeps-guessed_tinfo : (m : ℕ) → Keeps {H = H} code_pass (guessed_tinfo {H = H} F m)
  unfolding guessed_tinfo
  Keeps-guessed_tinfo m = search (keeps_rules) depth 20

  Keeps-set_stack_var_complex_type :
      (fptr : ℕ) (name : Option (List ℕ))
      → Keeps {H = H} code_pass (set_stack_var_complex_type {H = H} F fptr name)
  unfolding set_stack_var_complex_type
  Keeps-set_stack_var_complex_type fptr name =
      search (Keeps-member_of_name, Keeps-guessed_tinfo, keeps_rules) depth 20

  Keeps-set_stack_var_type_cmt :
      (fptr : ℕ) (name : Option (List ℕ))
      → Keeps {H = H} code_pass (set_stack_var_type_cmt {H = H} F fptr name)
  unfolding set_stack_var_type_cmt
  Keeps-set_stack_var_type_cmt fptr name =
      search (Keeps-member_of_name, Keeps-guessed_tinfo, keeps_rules) depth 20

  Keeps-set_simple_type :
      (fptr : ℕ) (name : Option (List ℕ)) (type : List ℕ)
      → Keeps {H = H} code_pass (set_simple_type {H = H} F fptr name type)
  unfolding set_simple_type
  Keeps-set_simple_type fptr name type = search (Keeps-member_of_name, keeps_rules) depth 20

  Keeps-set_added_type :
      (fptr : ℕ) (name : Option (List ℕ)) (info : TypeInfo) (type : List ℕ)
      → Keeps {H = H} code_pass (set_added_type {H = H} F fptr name info type)
  unfolding set_added_type
  Keeps-set_added_type fptr name no_info type = Keeps-set_simple_type fptr name type
  Keeps-set_added_type fptr name (enum_info tid serial) type =
      search (Keeps-set_stack_var_complex_type, keeps_rules)
  Keeps-set_added_type fptr name (struc_info tid) type =
      search (Keeps-set_stack_var_complex_type, keeps_rules)

  Keeps-add_typed_var :
      (f : ℕ) (fptr : ℕ) (name : Option (List ℕ)) (o : ℕ) (info : TypeInfo) (type : List ℕ)
      (size : ℕ)
      → Keeps {H = H} code_pass (add_typed_var {H = H} F f fptr name o info type size)
  unfolding add_typed_var
  Keeps-add_typed_var f fptr name o info type size =
      search (Keeps-set_added_type, Keeps-set_stack_var_type_cmt, keeps_rules) depth 20

  Keeps-add_untyped_var :
      (f : ℕ) (name : Option (List ℕ)) (o : ℕ)
      → Keeps {H = H} code_pass (add_untyped_var {H = H} F f name o)
  unfolding add_untyped_var
  Keeps-add_untyped_var f name o = search (keeps_rules) depth 20

  Keeps-set_stack_var :
      (var : List H.dwarf.Die) (f : ℕ) (fptr : ℕ) (o : ℕ)
      → Keeps {H = H} code_pass (set_stack_var {H = H} F var f fptr o)
  unfolding set_stack_var
  Keeps-set_stack_var var f fptr o =
      search (Keeps-add_typed_var, Keeps-add_untyped_var, keeps_rules) depth 20

  Keeps-add_at_offset :
      (var : List H.dwarf.Die) (f : ℕ) (fptr : ℕ) (o : ℕ) (info : Option (List FuncArg))
      → Keeps {H = H} code_pass (add_at_offset {H = H} F var f fptr o info)
  unfolding add_at_offset
  Keeps-add_at_offset var f fptr o info =
      search (Keeps-set_stack_var, Keeps-add_to_info, keeps_rules) depth 20

  pub Keeps-process_stack_var :
      (var : List H.dwarf.Die) (d : Locdesc) (loc : Loc) (f : ℕ) (areas : OffsetAreas)
      (info : Option (List FuncArg))
      → Keeps {H = H} code_pass (process_stack_var {H = H} F var d loc f areas info)
  unfolding process_stack_var
  Keeps-process_stack_var var d loc f areas info =
      search (Keeps-add_at_offset, Keeps-member_of_name, keeps_rules) depth 20
