-- ===== src/Tests/IteratorRuns.antt =====
-- A loop over the DIEs of the cache, at a concrete input.
use idadwarf.Prelude.{ℕ, ◌≡◌, refl, if◌then◌else◌, ◌==◌, filterb, insert, [], ◌∷◌, arith}
use idadwarf.Holder.Reading.{get_tag}
use idadwarf.Iterators.Children.{wanted}
use idadwarf.Session.{Host, World, Action, Void, update}
use idadwarf.Session.Runs.{update-SameNode}
use idadwarf.Session.Cached.{for_cached}
use idadwarf.Session.Cached.Order.{CachedDies, no_dies, cached_die, for_each, for_cached-filterb}
use idadwarf.TypeUtils.{badnode}
use idadwarf.Tests.PassRuns.{small_host}
use idadwarf.Tests.Worlds.{empty_store}

-- The cache has the DIEs 60, a base type, and 61, an unspecified type.
abbrev two_host : Host
two_host = record small_host {
  get_first_offset = λ n. 60;
  get_next_offset = λ n idx. if idx == 60 then 61 else badnode;
}

abbrev two_world : World two_host
two_world = record { node = empty_store; db = [] }

two_dies : CachedDies two_host empty_store 60 ((60, 0x24) ∷ (61, 0x3b) ∷ [])
unfolding get_tag
two_dies =
    cached_die 60 60 0x24 (omega arith) refl refl
      (cached_die 61 61 0x3b (omega arith) refl refl no_dies)

-- The body gives each DIE's number a name.
abbrev mark : ℕ → Action two_host Void
mark die = update {H = two_host} (λ db. (tt, insert die (b'm' ∷ [], []) db))

mark-SameNode : (die : ℕ) (w : World two_host) → (mark die w).1.node ≡ w.node
mark-SameNode die w = update-SameNode {H = two_host} _ w

for_cached-filterb_example :
    for_cached {H = two_host} 3 0x24 mark two_world
    ≡ for_each {H = two_host} mark
        (filterb (wanted (two_host.dwarf) 0x24) ((60, 0x24) ∷ (61, 0x3b) ∷ []))
        two_world
for_cached-filterb_example =
    for_cached-filterb 0x24 3 mark mark-SameNode two_world two_dies (omega arith)
