-- ===== src/Plugin/Cus.antt =====
-- src/idadwarf.cpp, retrieve_cus. The units stand for the headers that dwarf_next_cu_header goes
-- through, each with what dwarf_siblingof gives.
use idadwarf.Prelude.{ℕ, List, [], ◌∷◌, if◌then◌else◌, ◌==◌}
use idadwarf.Dwarf.{Libdwarf, DwResult, ok, no_entry, error}
use idadwarf.Dwarf.Checked.{Checked, returns, throws}
use idadwarf.Dwarf.Tags.{dw_tag_compile_unit}
use idadwarf.Holder.Reading.{get_tag}

module _ (D : Libdwarf) where
  open D use {Die}

  -- A DIE that is pushed, unless its tag is another one or cannot be read.
  unfoldable pub push_unit : Die → Checked ℕ → List Die → List Die
  push_unit cu_die (throws e) cus = cus
  push_unit cu_die (returns tag) cus = if tag == dw_tag_compile_unit then cu_die ∷ cus else cus

  unfoldable pub retrieve_cus : List (DwResult Die) → List Die
  unfolding push_unit
  retrieve_cus [] = []
  retrieve_cus (ok cu_die ∷ units) = push_unit cu_die (get_tag D cu_die) (retrieve_cus units)
  retrieve_cus (no_entry ∷ units) = retrieve_cus units
  retrieve_cus (error e ∷ units) = retrieve_cus units
