-- ===== src/Holder/Location/Operand.antt =====
-- src/die_utils.cpp, get_operand: which location description gives the operand.
use idadwarf.Prelude.{
  ℕ, ◌≡◌, Bool, true, false, ◌||◌, Option, none, some, List, [], ◌∷◌, ◌++◌, if◌then◌else◌, refl,
  arith,
}
use idadwarf.Dwarf.{Locdesc}
use idadwarf.Dwarf.Checked.{returns}
use idadwarf.Holder.Location.{applies, scan, operand_of, select_operand}

module _ (rel_addr : ℕ) (only_locblock : Bool) where
  abbrev pub any_applies : List Locdesc → Bool
  any_applies [] = false
  any_applies (d ∷ ds) = applies rel_addr only_locblock d || any_applies ds

  scan_lem :
      (ds : List Locdesc) (last : Locdesc) (found : Bool) (start : Option Locdesc)
      → scan rel_addr only_locblock (ds ++ last ∷ []) found start
        ≡ (found || any_applies (ds ++ last ∷ []), some last)
  unfolding scan
  scan_lem [] last found start = ground arith
  scan_lem (d ∷ ds) last found start =
      ground (arith, scan_lem ds last (found || applies rel_addr only_locblock d) (some d))

  -- The operand is read off the last description of the list, provided that any one of them
  -- applies; otherwise there is none.
  pub select_operand_last :
      (atom : ℕ) (ds : List Locdesc) (last : Locdesc)
      → select_operand rel_addr atom only_locblock (ds ++ last ∷ [])
        ≡ (if any_applies (ds ++ last ∷ []) then operand_of atom last else returns none)
  unfolding select_operand
  select_operand_last atom ds last = rw (scan_lem ds last false none) refl

  -- Where the first description of a list of two or more applies, the operand is that of the last one,
  -- though the last one need not apply.
  pub select_operand_not_matching :
      (atom : ℕ) (d : Locdesc) (ds : List Locdesc) (last : Locdesc)
      → applies rel_addr only_locblock d ≡ true
      → select_operand rel_addr atom only_locblock (d ∷ ds ++ last ∷ []) ≡ operand_of atom last
  select_operand_not_matching atom d ds last h = rw (select_operand_last atom (d ∷ ds) last, h) refl
