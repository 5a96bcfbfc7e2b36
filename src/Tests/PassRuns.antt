-- ===== src/Tests/PassRuns.antt =====
-- A host to run the passes in, and the theorems about the passes at concrete inputs. A database that
-- only holds types is enough.
use idadwarf.Prelude.{◌≡◌, refl, true, false, none, some, [], ◌∷◌, if◌then◌else◌, ◌==◌, arith}
use idadwarf.Cache
use idadwarf.Cache.Calls.{OnlyTypes, is_typed}
use idadwarf.Cache.{DieCache, get_cache, of_type, die_type}
use idadwarf.Cache.Progress.{IsRooted}
use idadwarf.Dwarf.{Libdwarf, ok, no_entry}
use idadwarf.Holder.Reading.{
  get_child, get_sibling, get_tag, get_bytesize, name_of, attr_of, small_val_from,
  get_small_encoding_value,
}
use idadwarf.Ida.{Ida, TypeBytes}
use idadwarf.Session
use idadwarf.Session.{
  Host, done, World, for_dies, ◌>>=◌, pure, lift, fueled, gets, try_visit, in_cache, get_offset,
}
use idadwarf.Session.Cached.{for_cached, for_entries, set_current_die, set_current_cache}
use idadwarf.Traversal.{do_dies_traversal}
use idadwarf.TypeRetrieval.SecondPass.{do_second_pass}
use idadwarf.TypeRetrieval.Pointers.{update_ptr_types}
use idadwarf.TypeRetrieval.Bytes.{base_type}
use idadwarf.TypeRetrieval.Growth.{get_cache-retrieve_types, visit_type_die-retrieve_types}
use idadwarf.TypeRetrieval.Leaves.{
  IsBaseType, BaseTypeVisited, visit_type_die-base_type, visit_type_die-unspecified_type,
}
use idadwarf.TypeRetrieval.Passes.{retrieve_types}
use idadwarf.TypeRetrieval.Visit.{visit_type_die}
use idadwarf.TypeUtils.{badnode}
use idadwarf.Tests.Worlds.{Store, empty_store, store_netnode, small_dwarf}
use idadwarf.Tests.CacheRuns.{empty_store-IsCoherent}
use idadwarf.Tests.TypeRuns.{small_coding, small_library, Types}

abbrev pub small_bytes : TypeBytes
small_bytes = record {
  bt_bool = 8;
  bt_float = 9;
  bt_int = 7;
  bt_int8 = 2;
  bt_int16 = 3;
  bt_int32 = 4;
  bt_int64 = 5;
  bt_int128 = 6;
  bt_unknown = 0;
  bt_func = 12;
  btmt_bool1 = 0x10;
  btmt_bool2 = 0x20;
  btmt_bool4 = 0x30;
  btmt_defbool = 0;
  btmt_signed = 0x10;
  btmt_usigned = 0x20;
  btmt_char = 0x30;
  btmt_specflt = 0x30;
  btmt_float = 0;
  btmt_double = 0x10;
  btmt_lngdbl = 0x20;
  btmt_defcall = 0;
  btm_const = 0x40;
  btm_volatile = 0x80;
  cm_unknown = 0;
  cm_m_nn = 0;
  cm_cc_voidarg = 0x20;
  cm_cc_ellipsis = 0x40;
  cm_cc_unknown = 0x10;
  is_type_array = λ b. b == 11;
  is_type_void = λ b. b == 1;
  is_type_unknown = λ b. b == 0;
  is_type_func = λ b. b == 12;
  array_header_length = λ t. 2;
  build_array_type = λ t n. some (11 ∷ n ∷ t);
  replace_subtype = λ t a b. t;
  get_flags_by_size = λ n. n;
  dwrdflag = 0x20;
}

abbrev pub small_ida : Ida
small_ida = record {
  coding = small_coding;
  bytes = small_bytes;
  Db = Types;
  get_numbered_type = small_library.get_numbered_type;
  get_numbered_type_name = small_library.get_numbered_type_name;
  get_named_type = small_library.get_named_type;
  get_type_ordinal = small_library.get_type_ordinal;
  alloc_type_ordinal = small_library.alloc_type_ordinal;
  set_numbered_type = small_library.set_numbered_type;
  del_numbered_type = small_library.del_numbered_type;
  apply_tinfo = small_library.apply_tinfo;
  set_type_alias = λ db o p. db;
  get_type_size0 = λ db t. 4;
  badsize = 0xffffffff;
  build_funcarg_info = λ db o. none;
  get_enum = λ db n. badnode;
  get_const_by_name = λ db n. badnode;
  get_const_enum = λ db c. badnode;
  consts = λ db e. [];
  add_enum = λ db n f. (badnode, db);
  add_const = λ db e n v. db;
  get_enum_type_ordinal = λ db e. 0;
  getn_enum = λ db o. badnode;
  get_enum_idx = λ db e. 0;
  get_struc_id = λ db n. badnode;
  is_union = λ db s. false;
  members = λ db s. [];
  struc_ordinal = λ db s. none;
  add_struc = λ db n u. (badnode, db);
  get_struc_size = λ db s. 0;
  get_member_by_name = λ db s n. none;
  add_struc_member = λ db s n o i z. db;
  get_member_tinfo = λ db m. none;
  set_member_tinfo = λ db s m t. db;
}

-- The DIE 60 is the base type `int` of 4 bytes, and 61 an unspecified type.
abbrev base_dwarf : Libdwarf
base_dwarf = record small_dwarf {
  diename = λ d. if d == 60 then ok (b'i' ∷ b'n' ∷ b't' ∷ []) else no_entry;
  attr = λ d a. if d == 60 then (if a == 0x3e then ok 600 else no_entry) else no_entry;
  formudata = λ a. if a == 600 then ok 5 else no_entry;
  tag = λ d. if d == 60 then ok 0x24 else if d == 61 then ok 0x3b else no_entry;
  child = λ d. no_entry;
  siblingof = λ d. if d == 60 then ok 61 else no_entry;
}

abbrev pub small_host : Host
small_host = record {
  dwarf = base_dwarf;
  ida = small_ida;
  netnode = store_netnode;
  get_first_offset = λ n. badnode;
  get_next_offset = λ n i. badnode;
}

-- The DIE 60 has the ordinal 7.
abbrev pub known_int : DieCache
known_int = record { type = die_type; members = of_type 7 false 0 }

abbrev pub int_store : Store
int_store = record {
  sup = λ i. if i == 60 then some known_int else none;
  alt = λ t r. if t == 1 then (if r == 7 then some 60 else none) else none;
}

abbrev pub empty_world : World small_host
empty_world = record { node = empty_store; db = [] }

abbrev pub int_world : World small_host
int_world = record { node = int_store; db = [] }

pub int-IsRooted : IsRooted store_netnode int_store
int-IsRooted t r o leads = let o60 : o ≡ 60 = ground arith in (known_int, rw o60 refl, refl)

int-IsBaseType : IsBaseType base_dwarf 60 60 (some (b'i' ∷ b'n' ∷ b't' ∷ [])) 4 5
unfolding get_tag get_bytesize name_of attr_of small_val_from get_small_encoding_value
int-IsBaseType = record {
  offset_read = refl;
  tag = refl;
  named = refl;
  size = refl;
  attrib = some 600;
  encoded = refl;
  value = refl;
}

-- The DIE 60 is known, and the DIE 62, which cannot be read, is skipped.
known_after :
    get_cache store_netnode (retrieve_types {H = small_host} 3 9 (62 ∷ []) int_world).1.node 60
    ≡ some known_int
unfolding get_cache retrieve_types do_second_pass update_ptr_types for_dies do_dies_traversal
    for_cached for_entries set_current_die set_current_cache ◌>>=◌ pure lift fueled gets
    visit_type_die try_visit in_cache get_offset Cache.in_cache get_child get_sibling get_tag
    Session.get_tag
known_after = refl

int-OnlyTypes : OnlyTypes store_netnode int_store
int-OnlyTypes o c at = ground arith

get_cache-retrieve_types_example : is_typed (known_int.type) ≡ true
get_cache-retrieve_types_example =
    get_cache-retrieve_types 3 9 (62 ∷ []) int_world 60 known_int int-OnlyTypes known_after

visit_type_die-retrieve_types_example :
    visit_type_die {H = small_host} 1 9 60
      (retrieve_types {H = small_host} 3 9 (60 ∷ []) int_world).1
    ≡ (done tt, (retrieve_types {H = small_host} 3 9 (60 ∷ []) int_world).1)
unfolding Cache.in_cache
visit_type_die-retrieve_types_example =
    visit_type_die-retrieve_types 3 9 (60 ∷ []) int_world 60 60 int-IsRooted refl refl 0

visit_type_die-base_type_example :
    BaseTypeVisited {H = small_host} 9 empty_world 60
      (some (b'i' ∷ b'n' ∷ b't' ∷ []))
      (base_type small_bytes 5 4)
      (visit_type_die {H = small_host} 1 9 60 empty_world)
unfolding Cache.in_cache
visit_type_die-base_type_example =
    visit_type_die-base_type 0 9 60 empty_world 60 4 5 (some (b'i' ∷ b'n' ∷ b't' ∷ []))
      int-IsBaseType (omega arith) empty_store-IsCoherent refl

visit_type_die-unspecified_type_example :
    (visit_type_die {H = small_host} 1 9 61 empty_world).1.node ≡ empty_store
unfolding get_tag
visit_type_die-unspecified_type_example = visit_type_die-unspecified_type 1 9 61 empty_world refl
