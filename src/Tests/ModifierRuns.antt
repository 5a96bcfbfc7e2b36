-- ===== src/Tests/ModifierRuns.antt =====
-- A visit of a pointer at a concrete input.
use idadwarf.Prelude.{
  ◌≡◌, refl, false, none, some, [], ◌∷◌, if◌then◌else◌, ◌==◌, insert, lookup, arith,
}
use idadwarf.Cache.{
  die_type, of_type, ordinal, base_ordinal, in_cache, get_cache, get_cache_type, get_type_offset,
  get_offset,
}
use idadwarf.Dwarf.{Libdwarf, ok, no_entry}
use idadwarf.Dwarf.Tags.{dw_tag_pointer_type}
use idadwarf.Holder.Reading.{attr_of, ref_from, get_tag}
use idadwarf.IdaUtils.{make_new_type, set_simple_die_type, save_loop, find_simple_type}
use idadwarf.Ida.{types}
use idadwarf.Session.{Host, done, World}
use idadwarf.TypeRetrieval.Bytes.{modifier_type}
use idadwarf.TypeRetrieval.Modifiers.{IsModifier, pointer_tag, founded_on, visit_type_die-modifier}
use idadwarf.TypeRetrieval.Visit.{visit_type_die}
use idadwarf.Tests.PassRuns.{small_host, int_store, known_int}
use idadwarf.Tests.TypeRuns.{Types}
use idadwarf.Tests.Worlds.{store_netnode, small_dwarf}

-- The DIE 63 is a pointer to `int`, the DIE 60.
abbrev pointer_dwarf : Libdwarf
pointer_dwarf = record small_dwarf {
  attr = λ d a. if d == 63 then (if a == 0x49 then ok 630 else no_entry) else no_entry;
  whatform = λ a. ok 0x13;
  formref = λ a. ok 49;
  tag = λ d. if d == 63 then ok 0x0f else no_entry;
}

abbrev pointer_host : Host
pointer_host = record small_host { dwarf = pointer_dwarf }

-- `int` has the ordinal 7.
abbrev int_types : Types
int_types = (7, (b'i' ∷ b'n' ∷ b't' ∷ [], 0x14 ∷ [])) ∷ []

abbrev typed_world : World pointer_host
typed_world = record { node = int_store; db = int_types }

abbrev with_pointer : Types
with_pointer = insert 2 ([], 10 ∷ 0x14 ∷ []) int_types

pointer-IsModifier : IsModifier pointer_dwarf 63 60 63 dw_tag_pointer_type 60
unfolding attr_of ref_from get_tag
pointer-IsModifier = record {
  offset_read = refl;
  tag_read = refl;
  modifies = pointer_tag;
  attrib = 630;
  ref = 60;
  typed = refl;
  refers = refl;
  found = refl;
  referred_read = refl;
}

pointer_saved :
    set_simple_die_type pointer_host.ida.coding
      (types pointer_host.ida)
      9
      int_types
      none
      (10 ∷ 0x14 ∷ [])
      0
    ≡ some (2, with_pointer)
unfolding set_simple_die_type save_loop find_simple_type
pointer_saved = refl

visit_type_die-modifier_example :
    (w' : World pointer_host) × (visit_type_die {H = pointer_host} 2 9 63 typed_world
      ≡ (done tt, w'))
    × (w'.db ≡ with_pointer)
    × (get_cache_type store_netnode w'.node 63
        ≡ some (record { type = die_type; members = of_type 2 false 7 }))
unfolding in_cache get_cache get_cache_type get_type_offset get_offset make_new_type modifier_type
    founded_on ordinal base_ordinal lookup
visit_type_die-modifier_example =
    visit_type_die-modifier 0 9 63 60 typed_world 63 dw_tag_pointer_type 60 known_int
      (b'i' ∷ b'n' ∷ b't' ∷ []) (0x14 ∷ []) (10 ∷ 0x14 ∷ []) 2 with_pointer pointer-IsModifier refl
      refl refl refl refl pointer_saved (omega arith) (omega arith) refl
