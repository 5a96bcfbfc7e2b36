-- ===== src/Tests/TypedefRuns.antt =====
-- The search for an equivalent typedef at a concrete input.
use mathlib.Core.List.{not-mem-nil}
use idadwarf.Prelude.{
  ℕ, ◌≡◌, true, false, Option, none, some, List, [], ◌∷◌, refl, arith, if◌then◌else◌, ◌==◌, filterb,
  lookup, badaddr,
}
use idadwarf.Cache.{get_type_offset, get_offset}
use idadwarf.Dwarf.Checked.{returns}
use idadwarf.Holder.Reading.{name_of, attr_of, get_tag, get_child, get_sibling}
use idadwarf.Holder.Location.{member_offset_from, operand_from, select_operand, scan, operand_of}
use idadwarf.Iterators.Children.{last, then_sibling, children-filterb}
use idadwarf.IdaUtils.{or_empty, get_typedef_name, get_typedef_ordinal, named_ordinal}
use idadwarf.TypeUtils.{
  StrucLibrary, member_of, struc_equal, struc_cmp_of_name, struc_cmp_of_id, add_all_members,
}
use idadwarf.TypeUtils.NameMap.{put}
use idadwarf.TypeUtils.Comparison.{none_left, one}
use idadwarf.TypeUtils.Comparison.Structures.{struc_equal_iff}
use idadwarf.TypeUtils.Equivalence.{
  get_equivalent_typedef_ordinal, typedef_matches, behind, struc_matches, cached_equal, Matches,
  get_equivalent_typedef_ordinal-Matches,
}
use idadwarf.Tests.Worlds.{Store, store_netnode, small_dwarf, same_bytes}
use idadwarf.Tests.TypeRuns.{Types, small_coding, small_library}
use idadwarf.Tests.CompareRuns.{small_enums}

-- One structure s, with the member x.
abbrev small_strucs : StrucLibrary
small_strucs = record {
  Db = Unit {0};
  get_struc_id = λ db name. if same_bytes (b's' ∷ []) name then 9 else badaddr;
  is_union = λ db id. false;
  members = λ db id. (some (b'x' ∷ []), 0) ∷ [];
  struc_ordinal = λ db id. some 7;
  add_struc = λ db name u. (badaddr, db);
}

-- The structure of the DIE 30 is type 5; the typedef a of type 7, the structure s, is type 6.
abbrev typedefs : Types
typedefs =
    (5, ([], 0x0d ∷ []))
    ∷ (6, (b'a' ∷ [], 0x3d ∷ 2 ∷ b'#' ∷ 7 ∷ []))
    ∷ (7, (b's' ∷ [], 0x0d ∷ []))
    ∷ []

abbrev one_die : Store
one_die = record { sup = λ i. none; alt = λ t i. if i == 5 then some 30 else none }

member_31 : member_of small_dwarf false 31 ≡ returns (some (b'x' ∷ []), 0)
unfolding member_of name_of attr_of member_offset_from operand_from select_operand scan operand_of
    lookup
member_31 = refl

equal_30 :
    struc_equal small_dwarf 5 (struc_cmp_of_name small_dwarf small_strucs tt (some (b's' ∷ []))) 30
    ≡ some (returns true)
unfolding filterb struc_cmp_of_name struc_cmp_of_id add_all_members put
equal_30 =
    (struc_equal_iff small_dwarf 5
        (struc_cmp_of_name small_dwarf small_strucs tt (some (b's' ∷ []))) 30 (λ e. absurd (cc))
        (λ e. absurd (cc)) (λ w h. not-mem-nil h, tt) 0x13 (unfold get_tag lookup in refl) refl
        (children-filterb small_dwarf 5 0x0d 30 {start = some 31} (unfold get_child lookup in refl)
          (then_sibling 31 0x0d none (unfold get_tag lookup in refl)
            (unfold get_sibling lookup in refl) last)
          (omega arith))
        (one 31 (b'x' ∷ []) 0 member_31 none_left)).1
      (λ c h. h)

found_6 :
    get_equivalent_typedef_ordinal small_coding small_library small_enums small_strucs store_netnode
      small_dwarf 5 typedefs [] tt one_die 20 5
    ≡ some (returns 6)
unfolding get_equivalent_typedef_ordinal typedef_matches behind struc_matches cached_equal
    get_typedef_name get_typedef_ordinal named_ordinal get_type_offset get_offset name_of lookup
found_6 =
    rw
      (
        get_equivalent_typedef_ordinal, typedef_matches, behind, struc_matches, cached_equal,
        equal_30,
      )
      refl

get_equivalent_typedef_ordinal-Matches_example :
    (typedef_name : Option (List ℕ)) × (type : List ℕ) × (found : ℕ × List ℕ) × (name_of small_dwarf
        (20 ∷ [])
      ≡ returns typedef_name)
    × (small_library.get_numbered_type typedefs 5 ≡ some type)
    × (small_library.get_named_type typedefs (or_empty typedef_name) ≡ some found)
    × (6 ≡ small_library.get_type_ordinal typedefs (or_empty typedef_name))
    × Matches small_coding small_library small_enums small_strucs store_netnode small_dwarf 5
        typedefs [] tt one_die 5 type found.1
get_equivalent_typedef_ordinal-Matches_example =
    get_equivalent_typedef_ordinal-Matches small_coding small_library small_enums small_strucs
      store_netnode small_dwarf 5 typedefs [] tt one_die 20 5 6 found_6 (λ e. absurd (cc))
