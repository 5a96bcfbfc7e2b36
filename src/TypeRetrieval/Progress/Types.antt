-- ===== src/TypeRetrieval/Progress/Types.antt =====
-- src/type_retrieval.cpp, visit_type_die and retrieve_types: the cache of DIEs only grows.
use idadwarf.Prelude.{ℕ, zero, suc, Bool, List}
use idadwarf.Cache.{DieCache}
use idadwarf.Ida.{FuncArg, FuncInfo}
use idadwarf.Session.{Host, Action, Void}
use idadwarf.Cache.Calls.{types_pass}
use idadwarf.Session.Keeps.{Keeps, Keeps-try_visit}
use idadwarf.Session.Loops.{keeps_loops}
use idadwarf.TypeRetrieval.Visit.{process_type, visit_type, visit_type_die}
use idadwarf.TypeRetrieval.SecondPass.{
  second_member, second_process_structure, second_parameter, second_return, rebuild_type,
  replace_numbered_type, second_process_subroutine, second_process, second_visit, do_second_pass,
}
use idadwarf.TypeRetrieval.Pointers.{
  update_member, update_structure, update_structure_member, replace_pointer,
  update_function_pointer, update_ptr_type, update_ptr_types,
}
use idadwarf.TypeRetrieval.Passes.{try_visit_type_die, retrieve_types}
use idadwarf.TypeRetrieval.Progress.{
  lookup_rules, Keeps-process_enum, Keeps-process_base_type, Keeps-process_unspecified,
  Keeps-process_modifier, Keeps-process_typedef, Keeps-process_array,
}
use idadwarf.TypeRetrieval.Progress.Compound.{
  Keeps-add_structure_member, Keeps-add_subroutine_parameter, Keeps-add_subroutine_return,
  Keeps-process_structure, Keeps-process_subroutine,
}

module _ {H : Host} where
  Keeps-process_type :
      (visit : H.dwarf.Die → Action H Void)
      → ((d : H.dwarf.Die) → Keeps {H = H} types_pass (visit d))
      → (fuel : ℕ) (tag : ℕ) (die : H.dwarf.Die)
      → Keeps {H = H} types_pass (process_type {H = H} visit fuel tag die)
  unfolding process_type
  Keeps-process_type visit k fuel tag die =
      search
        (
          Keeps-process_enum,
          Keeps-process_base_type,
          Keeps-process_unspecified,
          Keeps-process_modifier visit k,
          Keeps-process_typedef visit k,
          Keeps-process_array visit k,
          Keeps-process_structure visit k,
          Keeps-process_subroutine visit k,
          lookup_rules,
        )
        depth 20

  Keeps-visit_type :
      (visit : H.dwarf.Die → Action H Void)
      → ((d : H.dwarf.Die) → Keeps {H = H} types_pass (visit d))
      → (fuel : ℕ) (die : H.dwarf.Die)
      → Keeps {H = H} types_pass (visit_type {H = H} visit fuel die)
  unfolding visit_type
  Keeps-visit_type visit k fuel die = search (Keeps-process_type visit k, lookup_rules) depth 20

  pub Keeps-visit_type_die :
      (depth fuel : ℕ) (die : H.dwarf.Die)
      → Keeps {H = H} types_pass (visit_type_die {H = H} depth fuel die)
  unfolding visit_type_die
  Keeps-visit_type_die zero fuel die = search lookup_rules
  Keeps-visit_type_die (suc depth) fuel die =
      Keeps-visit_type _ (λ d. Keeps-try_visit _ (Keeps-visit_type_die depth fuel d)) fuel die

  Keeps-second_member :
      (visit : H.dwarf.Die → Action H Void)
      → ((d : H.dwarf.Die) → Keeps {H = H} types_pass (visit d))
      → (sptr : ℕ) (b : Bool) (die : H.dwarf.Die)
      → Keeps {H = H} types_pass (second_member {H = H} visit sptr b die)
  unfolding second_member
  Keeps-second_member visit k sptr b die =
      search (Keeps-add_structure_member visit k, lookup_rules) depth 20

  Keeps-second_process_structure :
      (visit : H.dwarf.Die → Action H Void)
      → ((d : H.dwarf.Die) → Keeps {H = H} types_pass (visit d))
      → (fuel : ℕ) (die : H.dwarf.Die) (o : ℕ)
      → Keeps {H = H} types_pass (second_process_structure {H = H} visit fuel die o)
  unfolding second_process_structure
  Keeps-second_process_structure visit k fuel die o =
      search (Keeps-second_member visit k, lookup_rules) depth 20

  Keeps-second_parameter :
      (visit : H.dwarf.Die → Action H Void)
      → ((d : H.dwarf.Die) → Keeps {H = H} types_pass (visit d))
      → (info : List FuncArg) (p : ℕ × (List ℕ × Bool)) (die : H.dwarf.Die)
      → Keeps {H = H} types_pass (second_parameter {H = H} visit info p die)
  unfolding second_parameter
  Keeps-second_parameter visit k info p die =
      search (Keeps-add_subroutine_parameter visit k, lookup_rules) depth 20

  Keeps-second_return :
      (visit : H.dwarf.Die → Action H Void)
      → ((d : H.dwarf.Die) → Keeps {H = H} types_pass (visit d))
      → (info : FuncInfo) (die : H.dwarf.Die)
      → Keeps {H = H} types_pass (second_return {H = H} visit info die)
  unfolding second_return
  Keeps-second_return visit k info die =
      search (Keeps-add_subroutine_return visit k, lookup_rules) depth 20

  Keeps-rebuild_type :
      (visit : H.dwarf.Die → Action H Void)
      → ((d : H.dwarf.Die) → Keeps {H = H} types_pass (visit d))
      → (fuel : ℕ) (info : FuncInfo) (die : H.dwarf.Die)
      → Keeps {H = H} types_pass (rebuild_type {H = H} visit fuel info die)
  unfolding rebuild_type
  Keeps-rebuild_type visit k fuel info die =
      search (Keeps-second_return visit k, Keeps-second_parameter visit k, lookup_rules) depth 20

  Keeps-replace_numbered_type :
      (o : ℕ) (name : List ℕ) (type : List ℕ)
      → Keeps {H = H} types_pass (replace_numbered_type {H = H} o name type)
  unfolding replace_numbered_type
  Keeps-replace_numbered_type o name type = search (lookup_rules) depth 20

  Keeps-second_process_subroutine :
      (visit : H.dwarf.Die → Action H Void)
      → ((d : H.dwarf.Die) → Keeps {H = H} types_pass (visit d))
      → (fuel : ℕ) (die : H.dwarf.Die) (o : ℕ)
      → Keeps {H = H} types_pass (second_process_subroutine {H = H} visit fuel die o)
  unfolding second_process_subroutine
  Keeps-second_process_subroutine visit k fuel die o =
      search (Keeps-rebuild_type visit k, Keeps-replace_numbered_type, lookup_rules) depth 20

  Keeps-second_process :
      (visit : H.dwarf.Die → Action H Void)
      → ((d : H.dwarf.Die) → Keeps {H = H} types_pass (visit d))
      → (fuel : ℕ) (die : H.dwarf.Die) (c : DieCache)
      → Keeps {H = H} types_pass (second_process {H = H} visit fuel die c)
  unfolding second_process
  Keeps-second_process visit k fuel die c =
      search
        (
          Keeps-second_process_structure visit k,
          Keeps-second_process_subroutine visit k,
          lookup_rules,
        )
        depth 20

  Keeps-second_visit :
      (visit : H.dwarf.Die → Action H Void)
      → ((d : H.dwarf.Die) → Keeps {H = H} types_pass (visit d))
      → (fuel : ℕ) (die : H.dwarf.Die)
      → Keeps {H = H} types_pass (second_visit {H = H} visit fuel die)
  unfolding second_visit
  Keeps-second_visit visit k fuel die = search (Keeps-second_process visit k, lookup_rules) depth 20

  Keeps-do_second_pass :
      (visit : H.dwarf.Die → Action H Void)
      → ((d : H.dwarf.Die) → Keeps {H = H} types_pass (visit d))
      → (fuel : ℕ) → Keeps {H = H} types_pass (do_second_pass {H = H} visit fuel)
  unfolding do_second_pass
  Keeps-do_second_pass visit k fuel =
      search (Keeps-second_visit visit k, keeps_loops, lookup_rules) depth 20

  Keeps-update_member :
      (sptr : ℕ) (old : List ℕ) (new : List ℕ) (die : H.dwarf.Die)
      → Keeps {H = H} types_pass (update_member {H = H} sptr old new die)
  unfolding update_member
  Keeps-update_member sptr old new die = search (lookup_rules) depth 20

  Keeps-update_structure :
      (fuel : ℕ) (old : List ℕ) (new : List ℕ) (die : H.dwarf.Die)
      → Keeps {H = H} types_pass (update_structure {H = H} fuel old new die)
  unfolding update_structure
  Keeps-update_structure fuel old new die = search (Keeps-update_member, lookup_rules) depth 20

  Keeps-update_structure_member :
      (fuel : ℕ) (tag : ℕ) (old : List ℕ) (new : List ℕ)
      → Keeps {H = H} types_pass (update_structure_member {H = H} fuel tag old new)
  unfolding update_structure_member
  Keeps-update_structure_member fuel tag old new =
      search (Keeps-update_structure, keeps_loops, lookup_rules) depth 20

  Keeps-replace_pointer :
      (fuel : ℕ) (o : ℕ) (name : List ℕ) (old : List ℕ) (new : List ℕ)
      → Keeps {H = H} types_pass (replace_pointer {H = H} fuel o name old new)
  unfolding replace_pointer
  Keeps-replace_pointer fuel o name old new =
      search (Keeps-update_structure_member, Keeps-replace_numbered_type, lookup_rules) depth 20

  Keeps-update_function_pointer :
      (fuel : ℕ) (c : DieCache) (type : List ℕ) (func : List ℕ)
      → Keeps {H = H} types_pass (update_function_pointer {H = H} fuel c type func)
  unfolding update_function_pointer
  Keeps-update_function_pointer fuel c type func =
      search (Keeps-replace_pointer, lookup_rules) depth 20

  Keeps-update_ptr_type :
      (fuel : ℕ) (c : DieCache) → Keeps {H = H} types_pass (update_ptr_type {H = H} fuel c)
  unfolding update_ptr_type
  Keeps-update_ptr_type fuel c = search (Keeps-update_function_pointer, lookup_rules) depth 20

  Keeps-update_ptr_types : (fuel : ℕ) → Keeps {H = H} types_pass (update_ptr_types {H = H} fuel)
  unfolding update_ptr_types
  Keeps-update_ptr_types fuel = search (Keeps-update_ptr_type, keeps_loops, lookup_rules) depth 20

  Keeps-try_visit_type_die :
      (depth : ℕ) (fuel : ℕ) (die : H.dwarf.Die)
      → Keeps {H = H} types_pass (try_visit_type_die {H = H} depth fuel die)
  unfolding try_visit_type_die
  Keeps-try_visit_type_die depth fuel die = search (Keeps-visit_type_die, lookup_rules) depth 20

  pub Keeps-retrieve_types :
      (depth : ℕ) (fuel : ℕ) (cus : List H.dwarf.Die)
      → Keeps {H = H} types_pass (retrieve_types {H = H} depth fuel cus)
  unfolding retrieve_types
  Keeps-retrieve_types depth fuel cus =
      search
        (
          Keeps-do_second_pass _ (Keeps-try_visit_type_die depth fuel),
          Keeps-update_ptr_types,
          Keeps-try_visit_type_die,
          keeps_loops,
          lookup_rules,
        )
        depth 20
