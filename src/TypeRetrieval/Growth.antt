-- ===== src/TypeRetrieval/Growth.antt =====
-- src/type_retrieval.cpp, retrieve_types with src/die_cache.cpp: the run of all the passes and the
-- cache of DIEs.
use idadwarf.Prelude.{ℕ, suc, ◌≡◌, ◌∙◌, true, some, to_word, List, [], ◌∷◌}
use idadwarf.Cache.{DieCache, get_cache, in_cache}
use idadwarf.Cache.Calls.{types_pass, Calls-Grows, Calls-OnlyTypes, OnlyTypes, is_typed}
use idadwarf.Cache.Progress.{IsRooted, Grows}
use idadwarf.Dwarf.Checked.{returns}
use idadwarf.Holder.Memo.{offset_of}
use idadwarf.Session.{Host, done, World}
use idadwarf.Session.Runs.{bind_run, in_cache_run, pure_run}
use idadwarf.TypeRetrieval.Passes.{retrieve_types}
use idadwarf.TypeRetrieval.Progress.Types.{Keeps-retrieve_types}
use idadwarf.TypeRetrieval.Visit.{visit_type, visit_type_die}

module _ {H : Host} where
  -- Where every map back of the cache leads to an entry that is not useless, the cache grows from
  -- the start of `retrieve_types` to its end, whether it returns, throws or runs out of fuel: the
  -- maps back still lead to entries that are not useless, no such entry becomes useless, and no DIE
  -- leaves the cache.
  pub retrieve_types-Grows :
      (depth fuel : ℕ) (cus : List H.dwarf.Die) (w : World H)
      → IsRooted H.netnode w.node
      → Grows H.netnode w.node (retrieve_types depth fuel cus w).1.node
  retrieve_types-Grows depth fuel cus w h =
      Calls-Grows H.netnode types_pass w.node _ ((Keeps-retrieve_types depth fuel cus).at w) h

  pub visit_type_die_cached :
      (depth fuel : ℕ) (die : H.dwarf.Die) (w : World H) (offset : ℕ)
      → offset_of H.dwarf (die ∷ []) ≡ returns offset
      → in_cache H.netnode w.node offset ≡ true
      → visit_type_die (suc depth) fuel die w ≡ (done tt, w)
  unfolding visit_type_die visit_type
  visit_type_die_cached depth fuel die w offset o h =
      bind_run _ _ w w _ (in_cache_run (die ∷ []) w offset o) ∙ (rw h (pure_run tt w))

  -- A DIE with an offset that was in the cache before a run of `retrieve_types` is not processed
  -- after it, where the maps back led to entries that are not useless: the visit returns and leaves
  -- the cache and the database as they are.
  pub visit_type_die-retrieve_types :
      (depth fuel : ℕ) (cus : List H.dwarf.Die) (w : World H) (die : H.dwarf.Die) (offset : ℕ)
      → IsRooted H.netnode w.node
      → offset_of H.dwarf (die ∷ []) ≡ returns offset
      → in_cache H.netnode w.node offset ≡ true
      → (again : ℕ)
      → visit_type_die (suc again) fuel die (retrieve_types depth fuel cus w).1
        ≡ (done tt, (retrieve_types depth fuel cus w).1)
  unfolding in_cache
  visit_type_die-retrieve_types depth fuel cus w die offset h o cached again =
      visit_type_die_cached again fuel die _ offset o
        ((retrieve_types-Grows depth fuel cus w h).known _ cached)

  -- Where the cache holds nothing else than types and useless DIEs, each entry that is in it after a
  -- run of `retrieve_types` is one of a type or useless, whether that run returns, throws or runs out
  -- of fuel.
  pub get_cache-retrieve_types :
      (depth fuel : ℕ) (cus : List H.dwarf.Die) (w : World H) (offset : ℕ) (c : DieCache)
      → OnlyTypes H.netnode w.node
      → get_cache H.netnode (retrieve_types depth fuel cus w).1.node offset ≡ some c
      → is_typed c.type ≡ true
  unfolding get_cache
  get_cache-retrieve_types depth fuel cus w offset c h =
      Calls-OnlyTypes H.netnode w.node _ ((Keeps-retrieve_types depth fuel cus).at w) h
        (to_word offset) c
