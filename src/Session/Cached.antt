-- ===== src/Session/Cached.antt =====
-- src/iterators.cpp, CachedDieIterator and CacheIterator: the loops over the DIEs and the entries in
-- the cache, which the body of a loop may change. Both recursions take fuel.
pub mod Ends
pub mod Objects
pub mod Order
use idadwarf.Prelude.{ℕ, zero, suc, Option, none, some, if◌then◌else◌, ◌==◌}
use idadwarf.Cache.{DieCache, DieType, tag_of, get_cache}
use idadwarf.Dwarf.Checked.{throws}
use idadwarf.Session.{
  Host, Action, Void, pure, lift, fueled, gets, ◌>>=◌, ◌>>◌, on_option, get_tag, new_die,
}
use idadwarf.TypeUtils.{badnode}

module _ {H : Host} where
  -- CachedDieIterator::set_current_die: the first DIE with the tag, from an index on.
  unfoldable pub set_current_die : (fuel m_tag idx : ℕ) → Action H (Option (ℕ × H.dwarf.Die))
  set_current_die zero m_tag idx = fueled none
  set_current_die (suc fuel) m_tag idx = if idx == badnode then pure none else (do
    die ← new_die idx
    if m_tag == 0 then pure (some (idx, die)) else (do
      tag ← get_tag die
      if tag == m_tag then pure (some (idx, die)) else (do
        next ← gets (λ w. H.get_next_offset w.node idx)
        set_current_die fuel m_tag next)))

  unfoldable pub see_cached :
      (rounds fuel m_tag : ℕ)
      → (H.dwarf.Die → Action H Void)
      → Option (ℕ × H.dwarf.Die)
      → Action H Void
  unfolding set_current_die
  see_cached zero fuel m_tag body current = fueled none
  see_cached (suc rounds) fuel m_tag body none = pure tt
  see_cached (suc rounds) fuel m_tag body (some (idx, die)) = do
    body die
    next ← gets (λ w. H.get_next_offset w.node idx)
    current ← set_current_die fuel m_tag next
    see_cached rounds fuel m_tag body current

  -- A loop over CachedDieIterator(dbg, tag); 0 is any tag.
  unfoldable pub for_cached : (fuel m_tag : ℕ) → (H.dwarf.Die → Action H Void) → Action H Void
  unfolding see_cached
  for_cached fuel m_tag body = do
    first ← gets (λ w. H.get_first_offset w.node)
    current ← set_current_die fuel m_tag first
    see_cached fuel fuel m_tag body current

  -- The current entry stays what it was where there is none at an index: a Boolean is compared
  -- with -1. To read the first one before it is set is not defined, and here an exception.
  unfoldable pub current_cache : Option DieCache → ℕ → Action H DieCache
  current_cache stale idx = do
    cache ← gets (λ w. get_cache H.netnode w.node idx)
    on_option cache (on_option stale (lift (throws none)) pure) pure

  -- CacheIterator::set_current_cache: the first entry of the type, from an index on.
  unfoldable pub set_current_cache :
      ℕ → DieType → Option DieCache → ℕ → Action H (Option (ℕ × DieCache))
  unfolding current_cache
  set_current_cache zero wanted stale idx = fueled none
  set_current_cache (suc fuel) wanted stale idx = if idx == badnode then pure none else (do
    cache ← current_cache stale idx
    if tag_of cache.type == tag_of wanted then pure (some (idx, cache)) else (do
      next ← gets (λ w. H.get_next_offset w.node idx)
      set_current_cache fuel wanted (some cache) next))

  unfoldable pub see_entries :
      (rounds fuel : ℕ) (wanted : DieType)
      → (DieCache → Action H Void)
      → Option (ℕ × DieCache)
      → Action H Void
  unfolding set_current_cache
  see_entries zero fuel wanted body current = fueled none
  see_entries (suc rounds) fuel wanted body none = pure tt
  see_entries (suc rounds) fuel wanted body (some (idx, cache)) = do
    body cache
    next ← gets (λ w. H.get_next_offset w.node idx)
    current ← set_current_cache fuel wanted (some cache) next
    see_entries rounds fuel wanted body current

  -- A loop over CacheIterator(wanted).
  unfoldable pub for_entries : ℕ → DieType → (DieCache → Action H Void) → Action H Void
  unfolding see_entries
  for_entries fuel wanted body = do
    first ← gets (λ w. H.get_first_offset w.node)
    current ← set_current_cache fuel wanted none first
    see_entries fuel fuel wanted body current
