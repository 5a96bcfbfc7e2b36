-- ===== src/Plugin/Growth.antt =====
-- src/idadwarf.cpp, `run` with src/die_cache.cpp: the retrievals one after the other, and the cache.
use idadwarf.Prelude.{ℕ, ◌≡◌, Bool, List}
use idadwarf.Cache.{get_type_offset}
use idadwarf.Cache.Calls.{
  types_pass, code_pass, whole_run, Calls, Calls-trans, Calls-whole_run, Calls-Grows,
  Calls-SameBack_types,
}
use idadwarf.Cache.Progress.{IsRooted, Grows}
use idadwarf.FuncRetrieval.Growth.{Keeps-retrieve_funcs, Keeps-retrieve_globals}
use idadwarf.FuncRetrieval.Sdk.{FuncSdk}
use idadwarf.Plugin.{retrieve_all}
use idadwarf.Session.{Host, World}
use idadwarf.Session.Keeps.{keeps_rules, bind-Calls}
use idadwarf.TypeRetrieval.Passes.{retrieve_types}
use idadwarf.TypeRetrieval.Progress.Types.{Keeps-retrieve_types}

module _ {H : Host} (F : FuncSdk H.ida.Db) where
  -- The retrievals do nothing else to the cache than calls of its setters, whether they return,
  -- throw or run out of fuel: first cache_type and cache_useless, up to the cache that
  -- `retrieve_types` leaves, and from there cache_func, cache_var and cache_useless.
  pub retrieve_all-Calls :
      (depth fuel : ℕ) (is_metapc : Bool) (cus : List H.dwarf.Die) (w : World H)
      → Calls H.netnode types_pass w.node (retrieve_types {H = H} depth fuel cus w).1.node
        × Calls H.netnode code_pass
            (retrieve_types {H = H} depth fuel cus w).1.node
            (retrieve_all {H = H} F depth fuel is_metapc cus w).1.node
  unfolding retrieve_all
  retrieve_all-Calls depth fuel is_metapc cus w = (
    (Keeps-retrieve_types depth fuel cus).at w,
    bind-Calls (retrieve_types {H = H} depth fuel cus) _
        (λ v.
          search (Keeps-retrieve_funcs {H = H} F, Keeps-retrieve_globals {H = H} F, keeps_rules))
        w,
  )

  -- Where every map back of the cache leads to an entry that is not useless, the cache grows from
  -- the start of the retrievals of types, functions and globals to their end, whether they return,
  -- throw or run out of fuel: the maps back still lead to entries that are not useless, no such
  -- entry becomes useless, and no DIE leaves the cache.
  pub retrieve_all-Grows :
      (depth fuel : ℕ) (is_metapc : Bool) (cus : List H.dwarf.Die) (w : World H)
      → IsRooted H.netnode w.node
      → Grows H.netnode w.node (retrieve_all {H = H} F depth fuel is_metapc cus w).1.node
  retrieve_all-Grows depth fuel is_metapc cus w =
      let (types, code) = retrieve_all-Calls depth fuel is_metapc cus w in
      Calls-Grows H.netnode whole_run w.node _ (
        Calls-trans H.netnode whole_run w.node _ _
          (Calls-whole_run H.netnode types_pass w.node _ types)
          (Calls-whole_run H.netnode code_pass _ _ code))

  -- An ordinal leads to the same DIE at the end of the retrievals as after the retrieval of types:
  -- functions and globals do not touch the maps back of the types.
  pub get_type_offset-retrieve_all :
      (depth fuel : ℕ) (is_metapc : Bool) (cus : List H.dwarf.Die) (w : World H) (ordinal : ℕ)
      → get_type_offset H.netnode (retrieve_all {H = H} F depth fuel is_metapc cus w).1.node ordinal
        ≡ get_type_offset H.netnode (retrieve_types {H = H} depth fuel cus w).1.node ordinal
  unfolding get_type_offset
  get_type_offset-retrieve_all depth fuel is_metapc cus w ordinal =
      Calls-SameBack_types H.netnode _ _ (retrieve_all-Calls depth fuel is_metapc cus w).1 ordinal
