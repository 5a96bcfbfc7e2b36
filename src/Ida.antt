-- ===== src/Ida.antt =====
-- The IDA SDK, as far as the retrieval of types calls it: a parameter. One database holds the types,
-- the enums and the structures, so adding one of them may change what the others say.
use idadwarf.Prelude.{ℕ, Bool, Option, List}
use idadwarf.Til.{TypeCoding, TypeLibrary}
use idadwarf.TypeUtils.{EnumLibrary, StrucLibrary}

-- The bytes of types that the plugin writes or asks for (typeinf.hpp).
pub record TypeBytes : Type 0 where
  pub bt_bool : ℕ
  pub bt_float : ℕ
  pub bt_int : ℕ
  pub bt_int8 : ℕ
  pub bt_int16 : ℕ
  pub bt_int32 : ℕ
  pub bt_int64 : ℕ
  pub bt_int128 : ℕ
  pub bt_unknown : ℕ
  pub bt_func : ℕ
  pub btmt_bool1 : ℕ
  pub btmt_bool2 : ℕ
  pub btmt_bool4 : ℕ
  pub btmt_defbool : ℕ
  pub btmt_signed : ℕ
  pub btmt_usigned : ℕ
  pub btmt_char : ℕ
  pub btmt_specflt : ℕ
  pub btmt_float : ℕ
  pub btmt_double : ℕ
  pub btmt_lngdbl : ℕ
  pub btmt_defcall : ℕ
  pub btm_const : ℕ
  pub btm_volatile : ℕ
  pub cm_unknown : ℕ
  pub cm_m_nn : ℕ
  pub cm_cc_voidarg : ℕ
  pub cm_cc_ellipsis : ℕ
  pub cm_cc_unknown : ℕ
  pub is_type_array : ℕ → Bool
  pub is_type_void : ℕ → Bool
  pub is_type_unknown : ℕ → Bool
  pub is_type_func : ℕ → Bool
  -- skip_array_type_header, as the number of bytes that it skips
  pub array_header_length : List ℕ → ℕ
  pub build_array_type : List ℕ → ℕ → Option (List ℕ)
  -- replace_subtypes, with one pair
  pub replace_subtype : List ℕ → (old_subtype new_subtype : List ℕ) → List ℕ
  -- the flags of an enum, by its size
  pub get_flags_by_size : ℕ → ℕ
  pub dwrdflag : ℕ

-- funcarg_info_t and func_type_info_t
pub record FuncArg : Type 0 where
  pub argloc : ℕ
  pub name : Option (List ℕ)
  pub type : List ℕ
  pub fields : List ℕ

pub record FuncInfo : Type 0 where
  pub basetype : ℕ
  pub cc : ℕ
  pub rettype : List ℕ
  pub retloc : ℕ
  pub args : List FuncArg

-- typeinfo_t with its flags; `no_info` stands for the flags 0.
pub data TypeInfo : Type 0 where
  no_info : TypeInfo
  enum_info : (tid serial : ℕ) → TypeInfo
  struc_info : (tid : ℕ) → TypeInfo

pub record Ida : Type 1 where
  pub coding : TypeCoding
  pub bytes : TypeBytes
  pub Db : Type 0
  -- types
  pub get_numbered_type : Db → ℕ → Option (List ℕ)
  pub get_numbered_type_name : Db → ℕ → Option (List ℕ)
  pub get_named_type : Db → List ℕ → Option (ℕ × List ℕ)
  pub get_type_ordinal : Db → List ℕ → ℕ
  pub alloc_type_ordinal : Db → ℕ × Db
  pub set_numbered_type : Db → ℕ → Bool → List ℕ → List ℕ → Option Db
  pub del_numbered_type : Db → ℕ → Option Db
  pub set_type_alias : Db → ℕ → ℕ → Db
  pub apply_tinfo : Db → ℕ → List ℕ → Option Db
  pub get_type_size0 : Db → List ℕ → ℕ
  pub badsize : ℕ
  -- of a numbered type, with its fields
  pub build_funcarg_info : Db → ℕ → Option FuncInfo
  -- enums
  pub get_enum : Db → List ℕ → ℕ
  pub get_const_by_name : Db → Option (List ℕ) → ℕ
  pub get_const_enum : Db → ℕ → ℕ
  pub consts : Db → ℕ → List (Option (List ℕ) × ℕ)
  pub add_enum : Db → Option (List ℕ) → ℕ → ℕ × Db
  pub add_const : Db → ℕ → Option (List ℕ) → ℕ → Db
  pub get_enum_type_ordinal : Db → ℕ → ℕ
  pub getn_enum : Db → ℕ → ℕ
  pub get_enum_idx : Db → ℕ → ℕ
  -- structures; a `struc_t` and a `member_t` stand for their identifiers, NULL is `none`
  pub get_struc_id : Db → List ℕ → ℕ
  pub is_union : Db → ℕ → Bool
  pub members : Db → ℕ → List (Option (List ℕ) × ℕ)
  pub struc_ordinal : Db → ℕ → Option ℕ
  pub add_struc : Db → Option (List ℕ) → Bool → ℕ × Db
  pub get_struc_size : Db → ℕ → ℕ
  pub get_member_by_name : Db → ℕ → Option (List ℕ) → Option ℕ
  pub add_struc_member : Db → ℕ → Option (List ℕ) → ℕ → TypeInfo → ℕ → Db
  pub get_member_tinfo : Db → ℕ → Option (List ℕ)
  pub set_member_tinfo : Db → ℕ → Option ℕ → List ℕ → Db

module _ (I : Ida) where
  -- The parts of the database that the utilities work on.
  abbrev pub types : TypeLibrary
  types = record {
    Db = I.Db;
    get_numbered_type = I.get_numbered_type;
    get_numbered_type_name = I.get_numbered_type_name;
    get_named_type = I.get_named_type;
    get_type_ordinal = I.get_type_ordinal;
    alloc_type_ordinal = I.alloc_type_ordinal;
    set_numbered_type = I.set_numbered_type;
    del_numbered_type = I.del_numbered_type;
    apply_tinfo = I.apply_tinfo;
  }

  abbrev pub enums : EnumLibrary
  enums = record {
    Db = I.Db;
    get_enum = I.get_enum;
    get_const_by_name = I.get_const_by_name;
    get_const_enum = I.get_const_enum;
    consts = I.consts;
    add_enum = I.add_enum;
  }

  abbrev pub strucs : StrucLibrary
  strucs = record {
    Db = I.Db;
    get_struc_id = I.get_struc_id;
    is_union = I.is_union;
    members = I.members;
    struc_ordinal = I.struc_ordinal;
    add_struc = I.add_struc;
  }
