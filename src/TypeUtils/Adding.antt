-- ===== src/TypeUtils/Adding.antt =====
-- src/type_utils.cpp, add_dup_enum and add_dup_struc: an enum or a structure is added under its name
-- or, where that fails, under the name with some `_`. What fails leaves the database as it is.
use idadwarf.Prelude.{
  ℕ, zero, suc, Bool, Option, none, some, List, [], ◌∷◌, ◌++◌, if◌then◌else◌, ◌==◌,
}
use idadwarf.Dwarf.{Libdwarf}
use idadwarf.Dwarf.Checked.{Checked, returns, throws, ◌>>=◌}
use idadwarf.Dwarf.Tags.{dw_tag_union_type}
use idadwarf.Holder.Reading.{get_tag}
use idadwarf.IdaUtils.{or_empty}
use idadwarf.TypeUtils.{
  EnumLibrary, StrucLibrary, badnode, enum_equal, struc_equal, enum_cmp_of_name, struc_cmp_of_name,
  get_ordinal,
}
pub mod Rounds
pub mod Enums

module _ {R : Type 0} (attempt : List ℕ → Option (Checked (Option R))) where
  -- The loops of both functions: with one more `_` in each round.
  unfoldable pub dup_loop : ℕ → List ℕ → Option (Checked R)
  dup_loop zero new_name = none
  dup_loop (suc fuel) new_name =
      let longer = new_name ++ b'_' ∷ [] in
      let rest = dup_loop fuel longer in
      elim (attempt longer) [
        | none ↦ none
        | some (throws e) ↦ some (throws e)
        | some (returns (some r)) ↦ some (returns r)
        | some (returns none) ↦ rest
      ]

-- The identifier of what was added, with the database.
abbrev pub added : {Db : Type 0} → ℕ × Db → Option (ℕ × Db)
added (id, db) = if id == badnode then none else some (id, db)

module _ (D : Libdwarf) (E : EnumLibrary) where
  -- One round of add_dup_enum.
  unfoldable pub enum_attempt : ℕ → E.Db → D.Die → ℕ → List ℕ → Option (Checked (Option (ℕ × E.Db)))
  enum_attempt fuel db enumeration flag new_name =
      let enum_cmp = enum_cmp_of_name D E db (some new_name) in
      elim (enum_equal D fuel enum_cmp enumeration) [
        | none ↦ none
        | some r ↦ some (do
          equal ← r
          returns (
              if equal
              then added (enum_cmp.m_enum_id, db)
              else added (E.add_enum db (some new_name) flag)))
      ]

  unfoldable pub add_dup_enum :
      (fuel rounds : ℕ) → E.Db → D.Die → Option (List ℕ) → ℕ → Option (Checked (ℕ × E.Db))
  unfolding dup_loop enum_attempt
  add_dup_enum fuel rounds db enumeration name flag = elim (added (E.add_enum db name flag)) [
    | some r ↦ some (returns r)
    | none ↦ dup_loop (enum_attempt fuel db enumeration flag) rounds (or_empty name)
  ]

module _ (D : Libdwarf) (S : StrucLibrary) where
  -- One round of add_dup_struc; the ordinal is written where an equal structure is found.
  pub struc_attempt :
      ℕ → S.Db → D.Die → Bool → ℕ → List ℕ → Option (Checked (Option (ℕ × (ℕ × S.Db))))
  struc_attempt fuel db structure is_union ordinal new_name =
      let struc_cmp = struc_cmp_of_name D S db (some new_name) in
      elim (struc_equal D fuel struc_cmp structure) [
        | none ↦ none
        | some r ↦ some (do
          equal ← r
          returns (
              if equal
              then added (struc_cmp.m_struc_id, (get_ordinal D S db struc_cmp, db))
              else elim (added (S.add_struc db (some new_name) is_union)) [
                | none ↦ none
                | some (id, db') ↦ some (id, (ordinal, db'))
              ]))
      ]

  pub add_dup_struc :
      (fuel rounds : ℕ)
      → S.Db
      → D.Die
      → Option (List ℕ)
      → (ordinal : ℕ) → Option (Checked (ℕ × (ℕ × S.Db)))
  unfolding dup_loop struc_attempt
  add_dup_struc fuel rounds db structure name ordinal = elim (get_tag D structure) [
    | throws e ↦ some (throws e)
    | returns tag ↦
        let is_union = tag == dw_tag_union_type in
        elim (added (S.add_struc db name is_union)) [
          | some (id, db') ↦ some (returns (id, (ordinal, db')))
          | none ↦
              dup_loop (struc_attempt fuel db structure is_union ordinal) rounds (or_empty name)
        ]
  ]
