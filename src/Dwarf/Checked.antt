-- ===== src/Dwarf/Checked.antt =====
-- src/die_utils.hpp: DieException and the macros that throw it, as values.
use idadwarf.Prelude.{ℕ, Option, none, some}
use idadwarf.Dwarf.{DwResult, ok, no_entry, error}

-- A result, or a DieException with its Dwarf_Error (`none` is NULL).
pub data Checked {ℓ} (A : Type ℓ) : Type ℓ where
  returns : A → Checked A
  throws : Option ℕ → Checked A

infixl 5 ◌>>=◌
abbrev pub ◌>>=◌ {ℓ κ} : {A : Type ℓ} {B : Type κ} → Checked A → (A → Checked B) → Checked B
returns a >>= f = f a
throws e >>= f = throws e

-- CHECK_DWERR: anything but DW_DLV_OK is thrown; without an entry there is no Dwarf_Error.
abbrev pub check_dwerr {ℓ} : {A : Type ℓ} → DwResult A → Checked A
check_dwerr (ok a) = returns a
check_dwerr no_entry = throws none
check_dwerr (error e) = throws (some e)

-- CHECK_DWERR2 on DW_DLV_ERROR: what has no entry stays NULL.
abbrev pub check_error {ℓ} : {A : Type ℓ} → DwResult A → Checked (Option A)
check_error (ok a) = returns (some a)
check_error no_entry = returns none
check_error (error e) = throws (some e)

-- CHECK_DWERR2 on a NULL pointer.
abbrev pub check_found {ℓ} : {A : Type ℓ} → Option A → Checked A
check_found none = throws none
check_found (some a) = returns a
