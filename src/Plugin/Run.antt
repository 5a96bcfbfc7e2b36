-- ===== src/Plugin/Run.antt =====
-- src/idadwarf.cpp, `init` and `run`: the callbacks of IDA, with the files, the passes over the units
-- and the macros.
use idadwarf.Prelude.{ℕ, ◌≡◌, Bool, Option, none, some, List, [], ◌∷◌, ◌++◌, if◌then◌else◌}
use idadwarf.Dwarf.{Libdwarf}
use idadwarf.FuncRetrieval.Sdk.{FuncSdk}
use idadwarf.Macros.{MacroDetails, MacroSdk, retrieve_macros}
use idadwarf.Plugin.{retrieve_all}
use idadwarf.Plugin.Files.{
  Machine, System, CUsHolder, use_debug, clean, open_dwarf_file, hold_cus, load_separate_dwarf_file,
}
use idadwarf.Session.{Host, Outcome, done, raised, exhausted, Void}
pub mod Ends
pub mod Again

pub data Loading : Type 0 where
  plugin_skip plugin_ok : Loading

-- Only for ELF files, and with a libelf that is not out of date.
pub init : (is_elf out_of_date : Bool) → Loading
init is_elf out_of_date =
    if is_elf then (if out_of_date then plugin_skip else plugin_ok) else plugin_skip

-- How `run` ends. `crashed` is that m_dies_node is NULL and is followed, which is not defined;
-- `stuck` is that the fuel of a loop ran out.
pub data Ending : Type 0 where
  returned : Ending
  thrown : Option ℕ → Ending
  crashed stuck : Ending

module _ (H : Host) where
  -- What is there before and after `run`; `cache` is m_dies_node, and `shown` are the windows of
  -- macros.
  pub record Process : Type 0 where
    pub system : System
    pub cache : Option H.netnode.Node
    pub db : H.ida.Db
    pub shown : List (List MacroDetails)

module _ (D : Libdwarf) (M : Machine D.Die) where
  -- The compilation units; without one, those of a file that is asked for.
  unfoldable pub find_cus : (fd dbg : ℕ) → System → CUsHolder D.Die × System
  unfolding hold_cus load_separate_dwarf_file
  find_cus fd dbg s =
      let (cus, s') = hold_cus D M (record { m_dbg = some dbg; m_fd = some fd; dies = [] }) s in
      elim cus.dies [ [] ↦ load_separate_dwarf_file D M cus s' | cu_die ∷ others ↦ (cus, s') ]

module _ {H : Host} (F : FuncSdk H.ida.Db) (M : Machine H.dwarf.Die) (macros : ℕ → MacroSdk) where
  -- The end of the holder's scope, and that of `run`, where the cache is cleaned.
  finish : CUsHolder H.dwarf.Die → Process H → Process H
  finish cus p = record p { system = (clean cus p.system).1; cache = none }

  show : CUsHolder H.dwarf.Die → Option (List MacroDetails) → Process H → Ending × Process H
  unfolding finish
  show cus none p = (stuck, p)
  show cus (some macros) p = (returned, finish cus (record p { shown = p.shown ++ macros ∷ [] }))

  -- After the retrievals: `dbg` is the Dwarf_Debug of the input file. An exception only ends the
  -- scope of the holder.
  unfoldable pub run_macros :
      (fuel dbg : ℕ) → CUsHolder H.dwarf.Die → Outcome Void → Process H → Ending × Process H
  unfolding show
  run_macros fuel dbg cus (done v) p =
      show cus (retrieve_macros (macros dbg) fuel 0)
        (record p { system = use_debug (some dbg) p.system })
  run_macros fuel dbg cus (raised e) p = (thrown e, record p { system = (clean cus p.system).1 })
  run_macros fuel dbg cus exhausted p = (stuck, p)

  -- The retrievals, which ask the cache at the start of the loop over the cached structures.
  unfoldable pub run_passes :
      (depth fuel dbg : ℕ) (is_metapc : Bool)
      → CUsHolder H.dwarf.Die
      → Option H.netnode.Node
      → Process H
      → Ending × Process H
  unfolding run_macros
  run_passes depth fuel dbg is_metapc cus none p = (crashed, p)
  run_passes depth fuel dbg is_metapc cus (some node) p =
      let (outcome, w) =
        retrieve_all {H = H} F depth fuel is_metapc cus.dies (record { node = node; db = p.db }) in
      run_macros fuel dbg cus outcome
        (record p { system = use_debug cus.m_dbg p.system; cache = some w.node; db = w.db })

  run_file :
      (depth fuel : ℕ) (is_metapc : Bool) → Option (ℕ × ℕ) × System → Process H → Ending × Process H
  unfolding find_cus run_passes
  run_file depth fuel is_metapc (none, s) p = (returned, record p { system = s; cache = none })
  run_file depth fuel is_metapc (some (fd, dbg), s) p =
      let (cus, s') = find_cus H.dwarf M fd dbg s in
      run_passes depth fuel dbg is_metapc cus p.cache (record p { system = s' })

  -- `is_metapc` is that the processor of the file is an x86.
  unfoldable pub run : (depth fuel : ℕ) (is_metapc : Bool) → Process H → Ending × Process H
  unfolding run_file open_dwarf_file
  run depth fuel is_metapc p =
      run_file depth fuel is_metapc (open_dwarf_file H.dwarf M (some M.input_file_path) p.system) p
