-- ===== src/Holder/Reading.antt =====
-- src/die_utils.cpp: the readings of a DIE without the memory of its holder. A DIE stands with the
-- DIEs that are asked in its place: itself, then its abstract origin.
use idadwarf.Prelude.{
  ℕ, ◌+◌, ◌%◌, ◌^◌, Bool, false, ◌||◌, Option, none, some, List, [], ◌∷◌, if◌then◌else◌, ◌==◌,
}
use idadwarf.Dwarf.{Libdwarf, DwResult, ok, no_entry, error}
use idadwarf.Dwarf.Checked.{Checked, returns, throws, ◌>>=◌, check_dwerr, check_error, check_found}
use idadwarf.Dwarf.Tags.{
  dw_form_ref_addr, dw_form_ref1, dw_form_ref2, dw_form_ref4, dw_form_ref8, dw_form_ref_udata,
}

-- What is not NULL, or is thrown, stands.
abbrev pub or_else {ℓ} : {A : Type ℓ} → Checked (Option A) → Checked (Option A) → Checked (Option A)
or_else (throws e) _ = throws e
or_else (returns (some x)) _ = returns (some x)
or_else (returns none) r = r

module _ (D : Libdwarf) where
  open D use {Die, Attribute}

  unfoldable pub name_of : List Die → Checked (Option (List ℕ))
  name_of [] = returns none
  name_of (d ∷ ds) = or_else (check_error (D.diename d)) (name_of ds)

  unfoldable pub attr_of : ℕ → List Die → Checked (Option Attribute)
  attr_of a [] = returns none
  attr_of a (d ∷ ds) = or_else (check_error (D.attr d a)) (attr_of a ds)

  -- get_addr_from_attr, on the attribute that was found.
  unfoldable pub addr_from : Option Attribute → Checked ℕ
  addr_from attrib = do a ← check_found attrib; check_dwerr (D.formaddr a)

  -- The forms that refer to an offset within the compilation unit.
  abbrev pub is_cu_form : ℕ → Bool
  is_cu_form form =
      form == dw_form_ref1
      || form == dw_form_ref2
      || form == dw_form_ref4
      || form == dw_form_ref8
      || form == dw_form_ref_udata

  -- get_ref_from_attr, on the attribute that was found; Dwarf_Off has 64 bits.
  unfoldable pub ref_from : Die → Option Attribute → Checked ℕ
  ref_from die attrib = do
    a ← check_found attrib
    form ← check_dwerr (D.whatform a)
    if form == dw_form_ref_addr
        then check_dwerr (D.global_formref a)
        else if is_cu_form form
        then (do
          offset ← check_dwerr (D.formref a)
          cu_offset ← check_dwerr (D.die_cu_offset_range die)
          returns ((offset + cu_offset) % 2 ^ 64))
        else throws none

  -- get_small_encoding_value: unsigned if that is possible, else signed. The value is a bit
  -- pattern of 64 bits, as Dwarf_Signed holds it. Without a signed value `err` is still the error of
  -- the unsigned one, and that is what is thrown.
  unfoldable pub get_small_encoding_value : Attribute → DwResult ℕ
  get_small_encoding_value attrib = elim (D.formudata attrib) [
    | ok uval ↦ ok uval
    | no_entry ↦ D.formsdata attrib
    | error e ↦ elim (D.formsdata attrib) [
      | ok sval ↦ ok sval
      | no_entry ↦ error e
      | error e' ↦ error e'
    ]
  ]

  -- get_attr_small_val
  unfoldable pub small_val_from : Option Attribute → Checked ℕ
  unfolding get_small_encoding_value
  small_val_from attrib = do a ← check_found attrib; check_dwerr (get_small_encoding_value a)

  -- get_attr_flag: no attribute is no flag.
  unfoldable pub flag_from : Option Attribute → Checked Bool
  flag_from none = returns false
  flag_from (some a) = check_dwerr (D.formflag a)

  unfoldable pub get_bytesize : Die → Checked ℕ
  get_bytesize die = check_dwerr (D.bytesize die)

  unfoldable pub get_tag : Die → Checked ℕ
  get_tag die = check_dwerr (D.tag die)

  unfoldable pub get_child : Die → Checked (Option Die)
  get_child die = check_error (D.child die)

  unfoldable pub get_sibling : Die → Checked (Option Die)
  get_sibling die = check_error (D.siblingof die)

  pub get_cu_offset : Die → Checked ℕ
  get_cu_offset die = check_dwerr (D.cu_dieoffset_given_die die)

  pub get_nb_attrs : Die → Checked ℕ
  get_nb_attrs die = elim (D.attrlist die) [
    | ok nb_attrs ↦ returns nb_attrs
    | no_entry ↦ returns 0
    | error e ↦ throws (some e)
  ]
