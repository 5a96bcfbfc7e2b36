-- ===== src/Members.antt =====
-- src/ida_utils.cpp, fill_typeinfo, and the size of a member or a stack variable by it, as
-- src/type_retrieval.cpp and src/func_retrieval.cpp ask for it.
use idadwarf.Prelude.{ℕ, Option, none, some, List, if◌then◌else◌}
use idadwarf.Ida.{Ida, TypeInfo, no_info, enum_info, struc_info}
use idadwarf.Til.{first_byte}

module _ (I : Ida) where
  info_of : I.Db → ℕ → List ℕ → List ℕ → TypeInfo
  info_of db ordinal type_name type =
      if I.coding.is_type_enum (first_byte type)
      then enum_info (I.getn_enum db ordinal) (I.get_enum_idx db ordinal)
      else if I.coding.is_type_struni (first_byte type)
      then struc_info (I.get_struc_id db type_name)
      else no_info

  -- The infos with their flags, and the type, which is found even where the name is not.
  unfoldable pub fill_typeinfo : I.Db → ℕ → TypeInfo × Option (List ℕ)
  unfolding info_of
  fill_typeinfo db ordinal = (
    elim (I.get_numbered_type_name db ordinal) [
      | none ↦ no_info
      | some type_name ↦ elim (I.get_numbered_type db ordinal) [
        | none ↦ no_info
        | some type ↦ info_of db ordinal type_name type
      ]
    ],
    I.get_numbered_type db ordinal,
  )

  -- The size of a structure is its own.
  unfoldable pub member_size : I.Db → TypeInfo → List ℕ → ℕ
  member_size db (struc_info tid) type = I.get_struc_size db tid
  member_size db no_info type = I.get_type_size0 db type
  member_size db (enum_info tid serial) type = I.get_type_size0 db type
