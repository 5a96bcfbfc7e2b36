-- ===== src/Plugin.antt =====
-- src/idadwarf.cpp: the compilation units (Cus), the files they come from (Files), and the callbacks
-- of IDA (Run); here, the retrievals of `run` that change the cache and the database.
use idadwarf.Prelude.{ℕ, Bool, List, if◌then◌else◌}
use idadwarf.FuncRetrieval.Callees.{retrieve_funcs}
use idadwarf.FuncRetrieval.Sdk.{FuncSdk}
use idadwarf.Globals.{retrieve_globals}
use idadwarf.Session.{Host, Action, Void, pure, ◌>>=◌, ◌>>◌}
use idadwarf.TypeRetrieval.Passes.{retrieve_types}
pub mod Cus
pub mod Files
pub mod Run
pub mod Units
pub mod Growth

module _ {H : Host} (F : FuncSdk H.ida.Db) where
  -- From retrieve_types to retrieve_globals; only x86 has functions.
  unfoldable pub retrieve_all :
      (depth fuel : ℕ) (is_metapc : Bool) → List H.dwarf.Die → Action H Void
  retrieve_all depth fuel is_metapc cus = do
    retrieve_types {H = H} depth fuel cus
    if is_metapc then retrieve_funcs {H = H} F depth fuel cus else pure tt
    retrieve_globals {H = H} F fuel cus
