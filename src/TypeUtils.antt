-- ===== src/TypeUtils.antt =====
-- src/type_utils.hpp and src/type_utils.cpp: comparison of an enum or a structure of the database
-- with a DIE, and adding one under a name that may be taken. A child of a DIE whose name is NULL is
-- undefined behaviour in strcmp, where the map is not empty; here it is an exception.
use idadwarf.Prelude.{
  ℕ, Bool, true, false, not, ◌&&◌, ◌||◌, Option, none, some, List, [], ◌∷◌, ◌++◌, if◌then◌else◌,
  ◌==◌, badaddr, to_word,
}
use idadwarf.Dwarf.{Libdwarf}
use idadwarf.Dwarf.Checked.{Checked, returns, throws, ◌>>=◌}
use idadwarf.Dwarf.Tags.{
  dw_tag_enumerator, dw_tag_member, dw_tag_union_type, dw_at_const_value,
  dw_at_data_member_location,
}
use idadwarf.Holder.Reading.{name_of, attr_of, small_val_from, get_tag, get_child}
use idadwarf.Holder.Location.{member_offset_from}
use idadwarf.Iterators.{Seen, stop, failed, item, children, set_current_child}
pub mod NameMap
pub mod Comparison
pub mod Adding
pub mod Equivalence
use NameMap.{Names, put, take_entry}

-- The enums and structures of the database (enum.hpp and struct.hpp of the SDK): a parameter. The
-- identifier of what does not exist is BADNODE. A constant or a member stands with its name, which
-- cannot always be read, and its value or offset.
pub record EnumLibrary : Type 1 where
  pub Db : Type 0
  pub get_enum : Db → List ℕ → ℕ
  pub get_const_by_name : Db → Option (List ℕ) → ℕ
  pub get_const_enum : Db → ℕ → ℕ
  pub consts : Db → ℕ → List (Option (List ℕ) × ℕ)
  pub add_enum : Db → Option (List ℕ) → ℕ → ℕ × Db

pub record StrucLibrary : Type 1 where
  pub Db : Type 0
  pub get_struc_id : Db → List ℕ → ℕ
  pub is_union : Db → ℕ → Bool
  pub members : Db → ℕ → List (Option (List ℕ) × ℕ)
  pub struc_ordinal : Db → ℕ → Option ℕ
  pub add_struc : Db → Option (List ℕ) → Bool → ℕ × Db

abbrev pub badnode : ℕ
badnode = badaddr

pub record EnumCmp : Type 0 where
  pub m_consts : Names
  pub m_enum_id : ℕ

pub record StrucCmp : Type 0 where
  pub m_struc_id : ℕ
  pub m_is_union : Bool
  pub m_members : Names

abbrev pub is_empty : Names → Bool
is_empty [] = true
is_empty (_ ∷ _) = false

-- for_all_consts with visit_const, which stops where a name cannot be read.
unfoldable pub visit_consts : List (Option (List ℕ) × ℕ) → Names → Names
unfolding put
visit_consts [] m = m
visit_consts ((none, value) ∷ consts) m = m
visit_consts ((some name, value) ∷ consts) m = visit_consts consts (put name value m)

-- add_all_members, which skips them.
unfoldable pub add_all_members : Bool → List (Option (List ℕ) × ℕ) → Names → Names
unfolding put
add_all_members m_is_union [] m = m
add_all_members m_is_union ((none, soff) ∷ members) m = add_all_members m_is_union members m
add_all_members m_is_union ((some name, soff) ∷ members) m =
    add_all_members m_is_union members (put name (if m_is_union then 0 else soff) m)

-- EnumCmp::find: the map without the constant, if it was there.
unfoldable pub find : Names → Option (List ℕ) → ℕ → Checked (Option Names)
unfolding take_entry
find [] name value = returns none
find (_ ∷ _) none value = throws none
find (e ∷ m) (some name) value = returns (take_entry name value (e ∷ m))

-- StrucCmp::try_erase
unfoldable pub try_erase : Names → Option (List ℕ) → ℕ → Checked Names
unfolding find
try_erase m name offset = do
  found ← find m name offset
  returns (elim found [ none ↦ m | some m' ↦ m' ])

module _ (D : Libdwarf) where
  open D use {Die}

  -- The name and the value of an enumerator.
  unfoldable pub const_of : Die → Checked (Option (List ℕ) × ℕ)
  const_of d = do
    name ← name_of D (d ∷ [])
    attrib ← attr_of D dw_at_const_value (d ∷ [])
    value ← small_val_from D attrib
    returns (name, to_word value)

  unfoldable pub member_of : Bool → Die → Checked (Option (List ℕ) × ℕ)
  member_of m_is_union d = do
    name ← name_of D (d ∷ [])
    if m_is_union then returns (name, 0) else (do
      attrib ← attr_of D dw_at_data_member_location (d ∷ [])
      offset ← member_offset_from D attrib
      returns (name, to_word offset))

  -- The loop of EnumCmp::equal, which breaks at the first enumerator that is not found.
  unfoldable pub erase_consts : Seen D → Names → Checked Names
  unfolding find
  erase_consts stop m = returns m
  erase_consts (failed e) m = throws e
  erase_consts (item d ds) m = do
    (name, value) ← const_of d
    found ← find m name value
    elim found [ none ↦ returns m | some m' ↦ erase_consts ds m' ]

  -- The loop of StrucCmp::equal.
  pub erase_members : Bool → Seen D → Names → Checked Names
  unfolding try_erase
  erase_members m_is_union stop m = returns m
  erase_members m_is_union (failed e) m = throws e
  erase_members m_is_union (item d ds) m = do
    (name, offset) ← member_of m_is_union d
    m' ← try_erase m name offset
    erase_members m_is_union ds m'

  unfoldable pub enum_equal : ℕ → EnumCmp → Die → Option (Checked Bool)
  unfolding erase_consts
  enum_equal fuel cmp enumeration =
      if cmp.m_enum_id == badnode
      then some (returns false)
      else elim (children D fuel dw_tag_enumerator enumeration) [
        | none ↦ none
        | some ds ↦ some (do m ← erase_consts ds cmp.m_consts; returns (is_empty m))
      ]

  pub struc_equal : ℕ → StrucCmp → Die → Option (Checked Bool)
  unfolding erase_members
  struc_equal fuel cmp structure = elim (get_tag D structure) [
    | throws e ↦ some (throws e)
    | returns tag ↦
        let is_union = tag == dw_tag_union_type in
        let same_kind = if cmp.m_is_union then is_union else not is_union in
        if not (is_empty cmp.m_members) && (same_kind && not (cmp.m_struc_id == badnode))
        then elim (children D fuel dw_tag_member structure) [
          | none ↦ none
          | some ds ↦
              some (do m ← erase_members cmp.m_is_union ds cmp.m_members; returns (is_empty m))
        ]
        else some (returns false)
  ]

  module _ (E : EnumLibrary) where
    unfoldable pub enum_consts : E.Db → ℕ → Names
    unfolding visit_consts
    enum_consts db enum_id =
        if enum_id == badnode then [] else visit_consts (E.consts db enum_id) []

    -- EnumCmp(enum_t)
    unfoldable pub enum_cmp_of_id : E.Db → ℕ → EnumCmp
    unfolding enum_consts
    enum_cmp_of_id db enum_id = record { m_consts = enum_consts db enum_id; m_enum_id = enum_id }

    -- EnumCmp(char const *)
    unfoldable pub enum_cmp_of_name : E.Db → Option (List ℕ) → EnumCmp
    unfolding enum_cmp_of_id
    enum_cmp_of_name db none = record { m_consts = []; m_enum_id = badnode }
    enum_cmp_of_name db (some enum_name) = enum_cmp_of_id db (E.get_enum db enum_name)

    -- EnumCmp(DieHolder &): by the name of the first enumerator.
    pub enum_cmp_of_die : ℕ → E.Db → Die → Option (Checked EnumCmp)
    unfolding enum_cmp_of_id
    enum_cmp_of_die fuel db enumeration = elim (get_child D enumeration) [
      | throws e ↦ some (throws e)
      | returns child_die ↦ elim (set_current_child D fuel dw_tag_enumerator child_die) [
        | none ↦ none
        | some (throws e) ↦ some (throws e)
        | some (returns none) ↦ some (returns (record { m_consts = []; m_enum_id = badnode }))
        | some (returns (some const_die)) ↦ some (do
          name ← name_of D (const_die ∷ [])
          returns (enum_cmp_of_id db (E.get_const_enum db (E.get_const_by_name db name))))
      ]
    ]

  module _ (S : StrucLibrary) where
    -- StrucCmp(tid_t)
    unfoldable pub struc_cmp_of_id : S.Db → ℕ → StrucCmp
    unfolding add_all_members
    struc_cmp_of_id db struc_id =
        if struc_id == badnode
        then record { m_struc_id = struc_id; m_is_union = false; m_members = [] }
        else record {
          m_struc_id = struc_id;
          m_is_union = S.is_union db struc_id;
          m_members = add_all_members (S.is_union db struc_id) (S.members db struc_id) [];
        }

    -- StrucCmp(char const *)
    unfoldable pub struc_cmp_of_name : S.Db → Option (List ℕ) → StrucCmp
    unfolding struc_cmp_of_id
    struc_cmp_of_name db none = record { m_struc_id = badnode; m_is_union = false; m_members = [] }
    struc_cmp_of_name db (some struc_name) = struc_cmp_of_id db (S.get_struc_id db struc_name)

    -- StrucCmp::get_ordinal
    pub get_ordinal : S.Db → StrucCmp → ℕ
    get_ordinal db cmp = elim (S.struc_ordinal db cmp.m_struc_id) [ none ↦ 0 | some o ↦ o ]
