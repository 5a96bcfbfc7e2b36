-- ===== src/TypeRetrieval/Visit.antt =====
-- src/type_retrieval.cpp, visit_type_die. The recursion through try_visit_type_die takes a depth.
use idadwarf.Prelude.{ℕ, zero, suc, none, [], ◌∷◌, if◌then◌else◌, ◌==◌, ◌||◌}
use idadwarf.Dwarf.Tags.{
  dw_tag_enumeration_type, dw_tag_base_type, dw_tag_unspecified_type, dw_tag_volatile_type,
  dw_tag_const_type, dw_tag_pointer_type, dw_tag_typedef, dw_tag_array_type, dw_tag_structure_type,
  dw_tag_union_type, dw_tag_subroutine_type,
}
use idadwarf.Session.{Host, Action, Void, pure, fueled, ◌>>=◌, try_visit, get_tag, in_cache}
use idadwarf.TypeRetrieval.Simple.{
  process_enum, process_base_type, process_unspecified, process_modifier,
}
use idadwarf.TypeRetrieval.Typedefs.{process_typedef}
use idadwarf.TypeRetrieval.Arrays.{process_array}
use idadwarf.TypeRetrieval.Structures.{process_structure}
use idadwarf.TypeRetrieval.Subroutines.{process_subroutine}

module _ {H : Host} where
  -- The switch.
  unfoldable pub process_type : (H.dwarf.Die → Action H Void) → ℕ → ℕ → H.dwarf.Die → Action H Void
  process_type visit fuel tag die =
      if tag == dw_tag_enumeration_type
      then process_enum fuel die
      else if tag == dw_tag_base_type
      then process_base_type fuel die
      else if tag == dw_tag_unspecified_type
      then process_unspecified fuel die
      else if tag == dw_tag_volatile_type || tag == dw_tag_const_type || tag == dw_tag_pointer_type
      then process_modifier visit fuel die
      else if tag == dw_tag_typedef
      then process_typedef visit fuel die
      else if tag == dw_tag_array_type
      then process_array visit fuel die
      else if tag == dw_tag_structure_type || tag == dw_tag_union_type
      then process_structure visit fuel die
      else if tag == dw_tag_subroutine_type
      then process_subroutine visit fuel die
      else pure tt

  unfoldable pub visit_type : (H.dwarf.Die → Action H Void) → ℕ → H.dwarf.Die → Action H Void
  unfolding process_type
  visit_type visit fuel die = do
    cached ← in_cache (die ∷ [])
    if cached then pure tt else (do tag ← get_tag die; process_type visit fuel tag die)

  unfoldable pub visit_type_die : (depth fuel : ℕ) → H.dwarf.Die → Action H Void
  unfolding visit_type
  visit_type_die zero fuel die = fueled none
  visit_type_die (suc depth) fuel die =
      visit_type (λ d. try_visit (visit_type_die depth fuel d)) fuel die
