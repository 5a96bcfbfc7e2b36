-- ===== src/Dwarf.antt =====
-- libdwarf, as far as the plugin calls it. It is not part of the repository, so it is a parameter:
-- functions of a DIE or an attribute, since the debug information does not change. The constants
-- are those of the DWARF 3 standard (dwarf.h).
use idadwarf.Prelude.{ℕ, Bool, List}
pub mod Checked
pub mod Tags

-- DW_DLV_OK, DW_DLV_NO_ENTRY and DW_DLV_ERROR.
pub data DwResult {ℓ} (A : Type ℓ) : Type ℓ where
  ok : A → DwResult A
  no_entry : DwResult A
  error : ℕ → DwResult A

-- Dwarf_Loc; the operand is unsigned, of 64 bits.
pub record Loc : Type 0 where
  pub lr_atom : ℕ
  pub lr_number : ℕ

-- Dwarf_Locdesc: `ld_s` has `ld_cents` entries.
pub record Locdesc : Type 0 where
  pub ld_lopc : ℕ
  pub ld_hipc : ℕ
  pub ld_s : List Loc
  pub ld_from_loclist : Bool

pub record Libdwarf : Type 1 where
  pub Die : Type 0
  pub Attribute : Type 0
  pub offdie : ℕ → DwResult Die
  pub diename : Die → DwResult (List ℕ)
  pub attr : Die → ℕ → DwResult Attribute
  pub attrlist : Die → DwResult ℕ
  pub formaddr : Attribute → DwResult ℕ
  pub whatform : Attribute → DwResult ℕ
  pub global_formref : Attribute → DwResult ℕ
  pub formref : Attribute → DwResult ℕ
  pub formudata : Attribute → DwResult ℕ
  pub formsdata : Attribute → DwResult ℕ
  pub formflag : Attribute → DwResult Bool
  pub loclist_n : Attribute → DwResult (List Locdesc)
  pub die_cu_offset_range : Die → DwResult ℕ
  pub cu_dieoffset_given_die : Die → DwResult ℕ
  pub bytesize : Die → DwResult ℕ
  pub dieoffset : Die → DwResult ℕ
  pub tag : Die → DwResult ℕ
  pub child : Die → DwResult Die
  pub siblingof : Die → DwResult Die
