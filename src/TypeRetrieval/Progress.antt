-- ===== src/TypeRetrieval/Progress.antt =====
-- src/type_retrieval.cpp: what is in the cache of DIEs stays there, whatever type is processed.
pub mod Compound
pub mod Types
use idadwarf.Prelude.{ℕ, Option, List, [], ◌∷◌}
use idadwarf.Cache.{DieCache}
use idadwarf.Cache.Calls.{Pass, types_pass}
use idadwarf.Session.{Host, Action, Void}
use idadwarf.Session.Keeps.{Keeps, keeps_rules}
use idadwarf.TypeRetrieval.Lookup.{
  numbered_type, numbered_type_name, new_type_of, save_type, add_unspecified_type, visited_type,
  look_ref_type,
}
use idadwarf.TypeRetrieval.Simple.{
  enum_cmp, add_enumerator, add_new_enum, process_enum, save_base_type, process_base_type,
  process_unspecified, save_modifier, process_typed_modifier, process_modifier,
}
use idadwarf.TypeRetrieval.Typedefs.{
  rename_type, find_typedef, process_typed_typedef, process_typedef,
}
use idadwarf.TypeRetrieval.Arrays.{read_array_size, build_array, process_array}

module _ {H : Host} {p : Pass} where
  pub Keeps-numbered_type : (o : ℕ) → Keeps {H = H} p (numbered_type o)
  unfolding numbered_type
  Keeps-numbered_type o = search keeps_rules

  pub Keeps-numbered_type_name : (o : ℕ) → Keeps {H = H} p (numbered_type_name o)
  unfolding numbered_type_name
  Keeps-numbered_type_name o = search keeps_rules

  pub Keeps-new_type_of : (t : Option (List ℕ)) (o : ℕ) → Keeps {H = H} p (new_type_of t o)
  unfolding new_type_of
  Keeps-new_type_of t o = search keeps_rules

  pub Keeps-save_type :
      (fuel : ℕ) (name : Option (List ℕ)) (type : List ℕ) (o : ℕ)
      → Keeps {H = H} p (save_type fuel name type o)
  unfolding save_type
  Keeps-save_type fuel name type o = search keeps_rules

pub ruleset lookup_rules =
    (keeps_rules, Keeps-numbered_type, Keeps-numbered_type_name, Keeps-new_type_of, Keeps-save_type)

module _ {H : Host} where
  Keeps-enum_cmp :
      (fuel : ℕ) (name : Option (List ℕ)) (die : H.dwarf.Die)
      → Keeps {H = H} types_pass (enum_cmp {H = H} fuel name die)
  unfolding enum_cmp
  Keeps-enum_cmp fuel name die = search lookup_rules depth 20

  Keeps-add_enumerator :
      (id : ℕ) (child : H.dwarf.Die) → Keeps {H = H} types_pass (add_enumerator {H = H} id child)
  unfolding add_enumerator
  Keeps-add_enumerator id child = search lookup_rules depth 20

  Keeps-add_new_enum :
      (fuel : ℕ) (name : Option (List ℕ)) (die : H.dwarf.Die)
      → Keeps {H = H} types_pass (add_new_enum {H = H} fuel name die)
  unfolding add_new_enum
  Keeps-add_new_enum fuel name die = search (Keeps-add_enumerator, lookup_rules) depth 20

  pub Keeps-process_enum :
      (fuel : ℕ) (die : H.dwarf.Die) → Keeps {H = H} types_pass (process_enum {H = H} fuel die)
  unfolding process_enum
  Keeps-process_enum fuel die = search (Keeps-enum_cmp, Keeps-add_new_enum, lookup_rules) depth 20

  pub Keeps-save_base_type :
      (fuel : ℕ) (name : Option (List ℕ)) (type : List ℕ) (die : H.dwarf.Die)
      → Keeps {H = H} types_pass (save_base_type {H = H} fuel name type die)
  unfolding save_base_type
  Keeps-save_base_type fuel name [] die = search lookup_rules depth 20
  Keeps-save_base_type fuel name (b ∷ type) die = search lookup_rules depth 20

  pub Keeps-process_base_type :
      (fuel : ℕ) (die : H.dwarf.Die) → Keeps {H = H} types_pass (process_base_type {H = H} fuel die)
  unfolding process_base_type
  Keeps-process_base_type fuel die = search (Keeps-save_base_type, lookup_rules) depth 20

  Keeps-add_unspecified_type :
      (fuel : ℕ) → Keeps {H = H} types_pass (add_unspecified_type {H = H} fuel)
  unfolding add_unspecified_type
  Keeps-add_unspecified_type fuel = search (lookup_rules) depth 20

  pub Keeps-visited_type :
      (visit : H.dwarf.Die → Action H Void)
      → ((d : H.dwarf.Die) → Keeps {H = H} types_pass (visit d))
      → (die : H.dwarf.Die) → Keeps {H = H} types_pass (visited_type {H = H} visit die)
  unfolding visited_type
  Keeps-visited_type visit k die = search (k, lookup_rules) depth 20

  pub Keeps-look_ref_type :
      (visit : H.dwarf.Die → Action H Void)
      → ((d : H.dwarf.Die) → Keeps {H = H} types_pass (visit d))
      → (fuel : ℕ) (die : H.dwarf.Die)
      → Keeps {H = H} types_pass (look_ref_type {H = H} visit fuel die)
  unfolding look_ref_type
  Keeps-look_ref_type visit k fuel die =
      search (Keeps-visited_type visit k, Keeps-add_unspecified_type, lookup_rules) depth 20

  pub Keeps-process_unspecified :
      (fuel : ℕ) (die : H.dwarf.Die)
      → Keeps {H = H} types_pass (process_unspecified {H = H} fuel die)
  unfolding process_unspecified
  Keeps-process_unspecified fuel die = search (Keeps-add_unspecified_type, lookup_rules) depth 20

  Keeps-save_modifier :
      (fuel : ℕ) (base : ℕ) (type : List ℕ) (die : H.dwarf.Die)
      → Keeps {H = H} types_pass (save_modifier {H = H} fuel base type die)
  unfolding save_modifier
  Keeps-save_modifier fuel base type die = search (lookup_rules) depth 20

  Keeps-process_typed_modifier :
      (fuel : ℕ) (die : H.dwarf.Die) (c : DieCache)
      → Keeps {H = H} types_pass (process_typed_modifier {H = H} fuel die c)
  unfolding process_typed_modifier
  Keeps-process_typed_modifier fuel die c = search (Keeps-save_modifier, lookup_rules) depth 20

  pub Keeps-process_modifier :
      (visit : H.dwarf.Die → Action H Void)
      → ((d : H.dwarf.Die) → Keeps {H = H} types_pass (visit d))
      → (fuel : ℕ) (die : H.dwarf.Die)
      → Keeps {H = H} types_pass (process_modifier {H = H} visit fuel die)
  unfolding process_modifier
  Keeps-process_modifier visit k fuel die =
      search (Keeps-look_ref_type visit k, Keeps-process_typed_modifier, lookup_rules) depth 20

  Keeps-rename_type :
      (fuel : ℕ) (name : Option (List ℕ)) (o : ℕ)
      → Keeps {H = H} types_pass (rename_type {H = H} fuel name o)
  unfolding rename_type
  Keeps-rename_type fuel name o = search (lookup_rules) depth 20

  Keeps-find_typedef :
      (fuel : ℕ) (name : Option (List ℕ)) (die : H.dwarf.Die) (o : ℕ)
      → Keeps {H = H} types_pass (find_typedef {H = H} fuel name die o)
  unfolding find_typedef
  Keeps-find_typedef fuel name die o = search (lookup_rules) depth 20

  Keeps-process_typed_typedef :
      (fuel : ℕ) (die : H.dwarf.Die) (o : ℕ)
      → Keeps {H = H} types_pass (process_typed_typedef {H = H} fuel die o)
  unfolding process_typed_typedef
  Keeps-process_typed_typedef fuel die o =
      search (Keeps-rename_type, Keeps-find_typedef, lookup_rules) depth 20

  pub Keeps-process_typedef :
      (visit : H.dwarf.Die → Action H Void)
      → ((d : H.dwarf.Die) → Keeps {H = H} types_pass (visit d))
      → (fuel : ℕ) (die : H.dwarf.Die)
      → Keeps {H = H} types_pass (process_typedef {H = H} visit fuel die)
  unfolding process_typedef
  Keeps-process_typedef visit k fuel die =
      search (Keeps-look_ref_type visit k, Keeps-process_typed_typedef, lookup_rules) depth 20

  Keeps-read_array_size :
      (fuel : ℕ) (die : H.dwarf.Die) → Keeps {H = H} types_pass (read_array_size {H = H} fuel die)
  unfolding read_array_size
  Keeps-read_array_size fuel die = search (lookup_rules) depth 20

  Keeps-build_array :
      (fuel : ℕ) (die : H.dwarf.Die) (c : DieCache)
      → Keeps {H = H} types_pass (build_array {H = H} fuel die c)
  unfolding build_array
  Keeps-build_array fuel die c = search (Keeps-read_array_size, lookup_rules) depth 20

  pub Keeps-process_array :
      (visit : H.dwarf.Die → Action H Void)
      → ((d : H.dwarf.Die) → Keeps {H = H} types_pass (visit d))
      → (fuel : ℕ) (die : H.dwarf.Die)
      → Keeps {H = H} types_pass (process_array {H = H} visit fuel die)
  unfolding process_array
  Keeps-process_array visit k fuel die =
      search (Keeps-visited_type visit k, Keeps-build_array, lookup_rules) depth 20
