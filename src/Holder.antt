-- ===== src/Holder.antt =====
-- DieHolder of src/die_utils.hpp and src/die_utils.cpp: a DIE with what has been asked of it.
-- The deallocations have no counterpart here. A method is a function from the holder to its result,
-- or the exception that it throws, and the holder afterwards.
use idadwarf.Prelude.{
  ℕ, Bool, true, false, Option, none, some, List, [], ◌∷◌, if◌then◌else◌, lookup, insert,
}
use idadwarf.Dwarf.{Libdwarf, DwResult, ok, no_entry, error}
use idadwarf.Dwarf.Checked.{Checked, returns, throws, ◌>>=◌, check_dwerr}
use idadwarf.Dwarf.Tags.{dw_at_abstract_origin}
pub mod Reading
pub mod Location
pub mod Memo
pub mod Cached
use Reading.{ref_from}

-- The members of one holder, without its origin.
pub record Fields (D : Libdwarf) : Type 0 where
  pub m_die : D.Die
  pub m_offset : ℕ
  pub m_offset_used : Bool
  pub m_name : Option (List ℕ)
  pub m_attrs : List (ℕ × D.Attribute)

-- A holder has no origin until `enable_abstract_origin` gives it one.
pub data Holder (D : Libdwarf) : Type 0 where
  plain : Fields D → Holder D
  with_origin : Fields D → Holder D → Holder D

module _ (D : Libdwarf) where
  open D use {Die, Attribute}

  abbrev pub Method : Type 0 → Type 0
  Method A = Holder D → Checked A × Holder D

  -- init
  unfoldable pub new_holder : Die → Holder D
  new_holder die =
      plain
        (record { m_die = die; m_offset = 0; m_offset_used = false; m_name = none; m_attrs = [] })

  abbrev pub fields : Holder D → Fields D
  fields (plain m) = m
  fields (with_origin m _) = m

  abbrev pub with_fields : Holder D → Fields D → Holder D
  with_fields (plain _) m = plain m
  with_fields (with_origin _ o) m = with_origin m o

  -- The name is NULL where the DIE has none; it is asked for again then.
  keep_name : Fields D → DwResult (List ℕ) → Checked (Option (List ℕ)) × Fields D
  keep_name m (ok name) = (returns (some name), record m { m_name = some name })
  keep_name m no_entry = (returns none, m)
  keep_name m (error e) = (throws (some e), m)

  own_name : Fields D → Checked (Option (List ℕ)) × Fields D
  own_name m = elim m.m_name [
    | some name ↦ (returns (some name), m)
    | none ↦ keep_name m (D.diename m.m_die)
  ]

  -- What the DIE itself has not, its origin is asked for.
  or_origin :
      {A : Type 0}
      → Checked (Option A) × Fields D
      → Holder D
      → Checked (Option A) × Holder D
      → Checked (Option A) × Holder D
  or_origin (throws e, m) o _ = (throws e, with_origin m o)
  or_origin (returns (some x), m) o _ = (returns (some x), with_origin m o)
  or_origin (returns none, m) o (r, o') = (r, with_origin m o')

  pub get_name : Method (Option (List ℕ))
  get_name (plain m) = let (r, m') = own_name m in (r, plain m')
  get_name (with_origin m o) = or_origin (own_name m) o (get_name o)

  keep_attr : ℕ → Fields D → DwResult Attribute → Checked (Option Attribute) × Fields D
  unfolding insert
  keep_attr a m (ok attrib) =
      (returns (some attrib), record m { m_attrs = insert a attrib m.m_attrs })
  keep_attr a m no_entry = (returns none, m)
  keep_attr a m (error e) = (throws (some e), m)

  own_attr : ℕ → Fields D → Checked (Option Attribute) × Fields D
  unfolding lookup
  own_attr a m = elim (lookup a m.m_attrs) [
    | some attrib ↦ (returns (some attrib), m)
    | none ↦ keep_attr a m (D.attr m.m_die a)
  ]

  pub get_attr : ℕ → Method (Option Attribute)
  get_attr a (plain m) = let (r, m') = own_attr a m in (r, plain m')
  get_attr a (with_origin m o) = or_origin (own_attr a m) o (get_attr a o)

  keep_offset : Fields D → DwResult ℕ → Checked ℕ × Fields D
  keep_offset m (ok offset) = (returns offset, record m { m_offset = offset; m_offset_used = true })
  keep_offset m no_entry = (throws none, m)
  keep_offset m (error e) = (throws (some e), m)

  own_offset : Fields D → Checked ℕ × Fields D
  own_offset m =
      if m.m_offset_used then (returns m.m_offset, m) else keep_offset m (D.dieoffset m.m_die)

  pub get_offset : Method ℕ
  get_offset h = let (r, m) = own_offset (fields h) in (r, with_fields h m)

  pub get_ref_from_attr : ℕ → Method ℕ
  get_ref_from_attr a h =
      let (r, h') = get_attr a h in (do attrib ← r; ref_from D (fields h).m_die attrib, h')

  -- m_origin_holder.reset
  reset_origin : Holder D → Holder D → Holder D
  reset_origin (plain m) o = with_origin m o
  reset_origin (with_origin m _) o = with_origin m o

  -- The origin's holder, by the offset that the attribute refers to.
  attach_origin : Method (Unit {0})
  attach_origin h =
      let (r, h') = get_ref_from_attr dw_at_abstract_origin h in
      elim (do offset ← r; check_dwerr (D.offdie offset)) [
        | throws e ↦ (throws e, h')
        | returns die ↦ (returns tt, reset_origin h' (new_holder die))
      ]

  pub enable_abstract_origin : Method (Unit {0})
  enable_abstract_origin (with_origin m o) = (returns tt, with_origin m o)
  enable_abstract_origin (plain m) =
      let (r, h) = get_attr dw_at_abstract_origin (plain m) in
      elim r [
        | throws e ↦ (throws e, h)
        | returns none ↦ (returns tt, h)
        | returns (some _) ↦ attach_origin h
      ]
