-- ===== src/Globals/Ends.antt =====
-- src/global_retrieval.cpp, retrieve_globals: it returns.
use idadwarf.Prelude.{ℕ, ◌<◌, ◌≡◌, List, length}
use idadwarf.FuncRetrieval.Sdk.{FuncSdk}
use idadwarf.Globals.{
  apply_die_type, set_global_var, process_global_var, visit_global_die, retrieve_globals,
}
use idadwarf.Session.{Host, done, World}
use idadwarf.Session.Ends.{Ends, ends_rules, try_visit_returns, for_dies_returns}
use idadwarf.Traversal.Preorder.{Units}

module _ {H : Host} (F : FuncSdk H.ida.Db) where
  Ends-apply_die_type :
      (chain : List H.dwarf.Die) (addr : ℕ) → Ends {H = H} (apply_die_type {H = H} chain addr)
  unfolding apply_die_type
  Ends-apply_die_type chain addr = search ends_rules depth 20

  Ends-set_global_var :
      (var : List H.dwarf.Die) (addr : ℕ) → Ends {H = H} (set_global_var {H = H} F var addr)
  unfolding set_global_var
  Ends-set_global_var var addr = search (Ends-apply_die_type, ends_rules) depth 20

  Ends-process_global_var :
      (var : List H.dwarf.Die) → Ends {H = H} (process_global_var {H = H} F var)
  unfolding process_global_var
  Ends-process_global_var var = search (Ends-set_global_var, ends_rules) depth 20

  Ends-visit_global_die : (die : H.dwarf.Die) → Ends {H = H} (visit_global_die {H = H} F die)
  unfolding visit_global_die
  Ends-visit_global_die die = search (Ends-process_global_var, ends_rules) depth 20

  -- Where the DIEs of the compilation units form finite trees, and the fuel is more than their
  -- number, the retrieval of global variables returns, whatever libdwarf and IDA answer: every
  -- exception is caught.
  pub retrieve_globals_returns :
      (fuel : ℕ) {cus ds : List H.dwarf.Die} (w : World H)
      → Units H.dwarf cus ds
      → length ds < fuel
      → (retrieve_globals {H = H} F fuel cus w).0 ≡ done tt
  unfolding retrieve_globals
  retrieve_globals_returns fuel w units enough =
      for_dies_returns fuel _
        (λ d. try_visit_returns (visit_global_die {H = H} F d) (Ends-visit_global_die d)) units
        enough w
