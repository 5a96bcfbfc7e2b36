-- ===== src/Plugin/Run/Again.antt =====
-- src/idadwarf.cpp, `run` with src/die_cache.cpp, DieCache::clean: a second run. The plugin stays
-- loaded, with a hotkey.
use idadwarf.Prelude.{ℕ, ◌≡◌, refl, Bool, Option, none, some, List}
use idadwarf.FuncRetrieval.Sdk.{FuncSdk}
use idadwarf.Macros.{MacroDetails, MacroSdk, retrieve_macros}
use idadwarf.Plugin.Files.{Machine, System, CUsHolder, open_dwarf_file}
use idadwarf.Plugin.Run.{
  returned, crashed, Process, show, finish, run_macros, run_passes, run_file, run,
}
use idadwarf.Session.{Host, Outcome, done, raised, exhausted, Void}

module _ {H : Host} (F : FuncSdk H.ida.Db) (M : Machine H.dwarf.Die) (macros : ℕ → MacroSdk) where
  show-returned :
      (cus : CUsHolder H.dwarf.Die) (r : Option (List MacroDetails)) (p : Process H)
      → (show F M macros cus r p).0 ≡ returned
      → (show F M macros cus r p).1.cache ≡ none
  unfolding show finish
  show-returned cus none p e = absurd (cc e)
  show-returned cus (some ms) p e = refl

  run_macros-returned :
      (fuel dbg : ℕ) (cus : CUsHolder H.dwarf.Die) (outcome : Outcome Void) (p : Process H)
      → (run_macros F M macros fuel dbg cus outcome p).0 ≡ returned
      → (run_macros F M macros fuel dbg cus outcome p).1.cache ≡ none
  unfolding run_macros
  run_macros-returned fuel dbg cus (done v) p e =
      show-returned cus (retrieve_macros (macros dbg) fuel 0) _ e
  run_macros-returned fuel dbg cus (raised x) p e = absurd (cc e)
  run_macros-returned fuel dbg cus exhausted p e = absurd (cc e)

  run_passes-returned :
      (depth fuel dbg : ℕ) (is_metapc : Bool) (cus : CUsHolder H.dwarf.Die)
      (cache : Option H.netnode.Node) (p : Process H)
      → (run_passes F M macros depth fuel dbg is_metapc cus cache p).0 ≡ returned
      → (run_passes F M macros depth fuel dbg is_metapc cus cache p).1.cache ≡ none
  unfolding run_passes
  run_passes-returned depth fuel dbg is_metapc cus none p e = absurd (cc e)
  run_passes-returned depth fuel dbg is_metapc cus (some node) p e =
      run_macros-returned fuel dbg cus _ _ e

  run_file-returned :
      (depth fuel : ℕ) (is_metapc : Bool) (r : Option (ℕ × ℕ) × System) (p : Process H)
      → (run_file F M macros depth fuel is_metapc r p).0 ≡ returned
      → (run_file F M macros depth fuel is_metapc r p).1.cache ≡ none
  unfolding run_file
  run_file-returned depth fuel is_metapc (none, s) p e = refl
  run_file-returned depth fuel is_metapc (some (fd, dbg), s) p e =
      run_passes-returned depth fuel dbg is_metapc _ p.cache _ e

  run_passes-crashed :
      (depth fuel dbg : ℕ) (is_metapc : Bool) (cus : CUsHolder H.dwarf.Die)
      (cache : Option H.netnode.Node) (p : Process H)
      → cache ≡ none
      → (run_passes F M macros depth fuel dbg is_metapc cus cache p).0 ≡ crashed
  unfolding run_passes
  run_passes-crashed depth fuel dbg is_metapc cus none p c = refl
  run_passes-crashed depth fuel dbg is_metapc cus (some node) p c = absurd (cc c)

  run_file-crashed :
      (depth fuel : ℕ) (is_metapc : Bool) (r : Option (ℕ × ℕ) × System) (p : Process H)
      (file : ℕ × ℕ)
      → p.cache ≡ none
      → r.0 ≡ some file
      → (run_file F M macros depth fuel is_metapc r p).0 ≡ crashed
  unfolding run_file
  run_file-crashed depth fuel is_metapc (none, s) p file c e = absurd (cc e)
  run_file-crashed depth fuel is_metapc (some (fd, dbg), s) p file c e =
      run_passes-crashed depth fuel dbg is_metapc _ p.cache _ c

  -- After a run that returned, the next run follows the NULL m_dies_node, which the first one left,
  -- as soon as the input file can be opened again.
  pub run-run_crashed :
      (depth fuel : ℕ) (is_metapc : Bool) (p : Process H) (file : ℕ × ℕ)
      → (run F M macros depth fuel is_metapc p).0 ≡ returned
      → (open_dwarf_file H.dwarf M
          (some M.input_file_path)
          (run F M macros depth fuel is_metapc p).1.system).0
        ≡ some file
      → (again more : ℕ)
      → (run F M macros again more is_metapc (run F M macros depth fuel is_metapc p).1).0 ≡ crashed
  unfolding run
  run-run_crashed depth fuel is_metapc p file e opens again more =
      run_file-crashed again more is_metapc _ _ file (run_file-returned depth fuel is_metapc _ p e)
        opens
