-- ===== src/TypeRetrieval/Progress/Compound.antt =====
-- src/type_retrieval.cpp: structures and subroutines keep what is in the cache.
use idadwarf.Prelude.{ℕ, Bool, Option, List}
use idadwarf.Session.{Host, Action, Void}
use idadwarf.Cache.Calls.{types_pass}
use idadwarf.Session.Keeps.{Keeps}
use idadwarf.TypeRetrieval.Structures.{
  member_offset, add_structure_member, new_struc, other_offset_structure, same_name_structure,
  get_other_structure, add_members, final_ordinal, process_complete_structure, process_structure,
}
use idadwarf.TypeRetrieval.Subroutines.{
  referred_type, add_subroutine_parameter, add_subroutine_return, count_parameter,
  process_subroutine,
}
use idadwarf.TypeRetrieval.Progress.{lookup_rules, Keeps-visited_type}

module _ {H : Host} where
  Keeps-member_offset :
      (sptr : ℕ) (die : H.dwarf.Die) → Keeps {H = H} types_pass (member_offset {H = H} sptr die)
  unfolding member_offset
  Keeps-member_offset sptr die = search (lookup_rules) depth 20

  pub Keeps-add_structure_member :
      (visit : H.dwarf.Die → Action H Void)
      → ((d : H.dwarf.Die) → Keeps {H = H} types_pass (visit d))
      → (sptr : ℕ) (b : Bool) (die : H.dwarf.Die)
      → Keeps {H = H} types_pass (add_structure_member {H = H} visit sptr b die)
  unfolding add_structure_member
  Keeps-add_structure_member visit k sptr b die =
      search (Keeps-member_offset, Keeps-visited_type visit k, lookup_rules) depth 20

  Keeps-new_struc :
      (fuel : ℕ) (name : Option (List ℕ)) (die : H.dwarf.Die)
      → Keeps {H = H} types_pass (new_struc {H = H} fuel name die)
  unfolding new_struc
  Keeps-new_struc fuel name die = search (lookup_rules) depth 20

  Keeps-other_offset_structure :
      (fuel : ℕ) (name : Option (List ℕ)) (o : ℕ) (die : H.dwarf.Die)
      → Keeps {H = H} types_pass (other_offset_structure {H = H} fuel name o die)
  unfolding other_offset_structure
  Keeps-other_offset_structure fuel name o die = search (Keeps-new_struc, lookup_rules) depth 20

  Keeps-same_name_structure :
      (fuel : ℕ) (name : Option (List ℕ)) (o : ℕ) (die : H.dwarf.Die)
      → Keeps {H = H} types_pass (same_name_structure {H = H} fuel name o die)
  unfolding same_name_structure
  Keeps-same_name_structure fuel name o die =
      search (Keeps-other_offset_structure, lookup_rules) depth 20

  Keeps-get_other_structure :
      (fuel : ℕ) (name : Option (List ℕ)) (die : H.dwarf.Die)
      → Keeps {H = H} types_pass (get_other_structure {H = H} fuel name die)
  unfolding get_other_structure
  Keeps-get_other_structure fuel name die =
      search (Keeps-same_name_structure, Keeps-new_struc, lookup_rules) depth 20

  Keeps-add_members :
      (visit : H.dwarf.Die → Action H Void)
      → ((d : H.dwarf.Die) → Keeps {H = H} types_pass (visit d))
      → (fuel : ℕ) (sptr : ℕ) (die : H.dwarf.Die)
      → Keeps {H = H} types_pass (add_members {H = H} visit fuel sptr die)
  unfolding add_members
  Keeps-add_members visit k fuel sptr die =
      search (Keeps-add_structure_member visit k, lookup_rules) depth 20

  Keeps-final_ordinal :
      (id : ℕ) (declared : ℕ) → Keeps {H = H} types_pass (final_ordinal {H = H} id declared)
  unfolding final_ordinal
  Keeps-final_ordinal id declared = search (lookup_rules) depth 20

  Keeps-process_complete_structure :
      (visit : H.dwarf.Die → Action H Void)
      → ((d : H.dwarf.Die) → Keeps {H = H} types_pass (visit d))
      → (fuel : ℕ) (name : Option (List ℕ)) (die : H.dwarf.Die)
      → Keeps {H = H} types_pass (process_complete_structure {H = H} visit fuel name die)
  unfolding process_complete_structure
  Keeps-process_complete_structure visit k fuel name die =
      search
        (Keeps-get_other_structure, Keeps-add_members visit k, Keeps-final_ordinal, lookup_rules)
        depth 20

  pub Keeps-process_structure :
      (visit : H.dwarf.Die → Action H Void)
      → ((d : H.dwarf.Die) → Keeps {H = H} types_pass (visit d))
      → (fuel : ℕ) (die : H.dwarf.Die)
      → Keeps {H = H} types_pass (process_structure {H = H} visit fuel die)
  unfolding process_structure
  Keeps-process_structure visit k fuel die =
      search (Keeps-process_complete_structure visit k, lookup_rules) depth 20

  Keeps-referred_type :
      (visit : H.dwarf.Die → Action H Void)
      → ((d : H.dwarf.Die) → Keeps {H = H} types_pass (visit d))
      → (die : H.dwarf.Die) → Keeps {H = H} types_pass (referred_type {H = H} visit die)
  unfolding referred_type
  Keeps-referred_type visit k die = search (Keeps-visited_type visit k, lookup_rules) depth 20

  pub Keeps-add_subroutine_parameter :
      (visit : H.dwarf.Die → Action H Void)
      → ((d : H.dwarf.Die) → Keeps {H = H} types_pass (visit d))
      → (p : List ℕ × Bool) (die : H.dwarf.Die)
      → Keeps {H = H} types_pass (add_subroutine_parameter {H = H} visit p die)
  unfolding add_subroutine_parameter
  Keeps-add_subroutine_parameter visit k p die =
      search (Keeps-referred_type visit k, lookup_rules) depth 20

  pub Keeps-add_subroutine_return :
      (visit : H.dwarf.Die → Action H Void)
      → ((d : H.dwarf.Die) → Keeps {H = H} types_pass (visit d))
      → (p : List ℕ × Bool) (die : H.dwarf.Die)
      → Keeps {H = H} types_pass (add_subroutine_return {H = H} visit p die)
  unfolding add_subroutine_return
  Keeps-add_subroutine_return visit k p die =
      search (Keeps-referred_type visit k, lookup_rules) depth 20

  Keeps-count_parameter :
      (visit : H.dwarf.Die → Action H Void)
      → ((d : H.dwarf.Die) → Keeps {H = H} types_pass (visit d))
      → (p : ℕ × (List ℕ × Bool)) (die : H.dwarf.Die)
      → Keeps {H = H} types_pass (count_parameter {H = H} visit p die)
  unfolding count_parameter
  Keeps-count_parameter visit k p die =
      search (Keeps-add_subroutine_parameter visit k, lookup_rules) depth 20

  pub Keeps-process_subroutine :
      (visit : H.dwarf.Die → Action H Void)
      → ((d : H.dwarf.Die) → Keeps {H = H} types_pass (visit d))
      → (fuel : ℕ) (die : H.dwarf.Die)
      → Keeps {H = H} types_pass (process_subroutine {H = H} visit fuel die)
  unfolding process_subroutine
  Keeps-process_subroutine visit k fuel die =
      search (Keeps-add_subroutine_return visit k, Keeps-count_parameter visit k, lookup_rules)
        depth 20
