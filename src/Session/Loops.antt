-- ===== src/Session/Loops.antt =====
-- The loops over the DIEs of the compilation units and over the cache keep what their bodies keep.
use idadwarf.Prelude.{ℕ, zero, suc, Option, none, some, List}
use idadwarf.Cache.{DieCache, DieType}
use idadwarf.Cache.Calls.{Pass, Calls, unchanged, Calls-trans}
use idadwarf.Traversal.Keeps.{IsKept, do_dies_traversal-IsKept}
use idadwarf.Session.{
  Host, Outcome, done, raised, exhausted, World, Action, Void, for_dies, visit_in, visited,
}
use idadwarf.Session.Cached.{
  set_current_die, see_cached, for_cached, current_cache, set_current_cache, see_entries,
  for_entries,
}
use idadwarf.Session.Keeps.{Keeps, keeps_rules}

module _ {H : Host} {p : Pass} where
  visit_in-Keeps :
      (visit : H.dwarf.Die → Action H Void)
      → ((d : H.dwarf.Die) → Keeps p (visit d))
      → (w : World H) (d : H.dwarf.Die) (r : Outcome Void × World H)
      → Calls H.netnode p w.node r.1.node
      → Calls H.netnode p w.node (visit_in visit d r).1.node
  unfolding visit_in
  visit_in-Keeps visit k w d (done tt, w') g =
      Calls-trans H.netnode p w.node w'.node _ g ((k d).at w')
  visit_in-Keeps visit k w d (raised e, w') g = g
  visit_in-Keeps visit k w d (exhausted, w') g = g

  pub Keeps-for_dies :
      (fuel : ℕ) (cus : List H.dwarf.Die) (visit : H.dwarf.Die → Action H Void)
      → ((d : H.dwarf.Die) → Keeps p (visit d))
      → Keeps p (for_dies fuel cus visit)
  unfolding for_dies visited IsKept
  Keeps-for_dies fuel cus visit k = record {
    at = λ w. ends w _ (
        do_dies_traversal-IsKept H.dwarf (visit_in visit) (λ r. Calls H.netnode p w.node r.1.node)
          (visit_in-Keeps visit k w) fuel cus (done tt, w) unchanged);
  }
    where
      ends :
          (w : World H) (o : Option (Outcome Void × World H))
          → IsKept H.dwarf
              (visit_in visit)
              (λ r. Calls H.netnode p w.node r.1.node)
              (visit_in-Keeps visit k w)
              o
          → Calls H.netnode p w.node (visited w o).1.node
      ends w none g = unchanged
      ends w (some r) g = g

  Keeps-set_current_die : (fuel tag idx : ℕ) → Keeps {H = H} p (set_current_die fuel tag idx)
  unfolding set_current_die
  Keeps-set_current_die zero tag idx = search keeps_rules
  Keeps-set_current_die (suc fuel) tag idx =
      search (Keeps-set_current_die fuel tag, keeps_rules) depth 12

  Keeps-see_cached :
      (rounds fuel tag : ℕ) (body : H.dwarf.Die → Action H Void)
      → ((d : H.dwarf.Die) → Keeps p (body d))
      → (current : Option (ℕ × H.dwarf.Die))
      → Keeps {H = H} p (see_cached {H = H} rounds fuel tag body current)
  unfolding see_cached
  Keeps-see_cached zero fuel tag body k current = search keeps_rules
  Keeps-see_cached (suc rounds) fuel tag body k none = search keeps_rules
  Keeps-see_cached (suc rounds) fuel tag body k (some (idx, die)) =
      search (Keeps-see_cached rounds fuel tag body k, Keeps-set_current_die, k, keeps_rules)

  pub Keeps-for_cached :
      (fuel tag : ℕ) (body : H.dwarf.Die → Action H Void)
      → ((d : H.dwarf.Die) → Keeps p (body d))
      → Keeps {H = H} p (for_cached {H = H} fuel tag body)
  unfolding for_cached
  Keeps-for_cached fuel tag body k = search (Keeps-see_cached, Keeps-set_current_die, keeps_rules)

  Keeps-current_cache :
      (stale : Option DieCache) (idx : ℕ) → Keeps {H = H} p (current_cache stale idx)
  unfolding current_cache
  Keeps-current_cache stale idx = search keeps_rules

  Keeps-set_current_cache :
      (fuel : ℕ) (t : DieType) (stale : Option DieCache) (idx : ℕ)
      → Keeps {H = H} p (set_current_cache fuel t stale idx)
  unfolding set_current_cache
  Keeps-set_current_cache zero t stale idx = search keeps_rules
  Keeps-set_current_cache (suc fuel) t stale idx =
      search (Keeps-set_current_cache fuel t, Keeps-current_cache, keeps_rules)

  Keeps-see_entries :
      (rounds fuel : ℕ) (t : DieType) (body : DieCache → Action H Void)
      → ((c : DieCache) → Keeps p (body c))
      → (current : Option (ℕ × DieCache)) → Keeps p (see_entries rounds fuel t body current)
  unfolding see_entries
  Keeps-see_entries zero fuel t body k current = search keeps_rules
  Keeps-see_entries (suc rounds) fuel t body k none = search keeps_rules
  Keeps-see_entries (suc rounds) fuel t body k (some (idx, cache)) =
      search (Keeps-see_entries rounds fuel t body k, Keeps-set_current_cache, k, keeps_rules)

  pub Keeps-for_entries :
      (fuel : ℕ) (t : DieType) (body : DieCache → Action H Void)
      → ((c : DieCache) → Keeps p (body c))
      → Keeps p (for_entries fuel t body)
  unfolding for_entries
  Keeps-for_entries fuel t body k = search (Keeps-see_entries, Keeps-set_current_cache, keeps_rules)

pub ruleset keeps_loops = (keeps_rules, Keeps-for_dies, Keeps-for_cached, Keeps-for_entries)
