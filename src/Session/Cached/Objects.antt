-- ===== src/Session/Cached/Objects.antt =====
-- src/iterators.hpp and src/iterators.cpp: the iterators over the cache as objects, with both
-- operators ++, and how the loops use them. A CacheIterator owns nothing, so a copy leaves it as it
-- is; at its end the entry that it read last cannot be seen, and is left out.
use idadwarf.Prelude.{
  ℕ, zero, suc, ◌≡◌, refl, ap, sym, ◌∙◌, Option, none, some, if◌then◌else◌, ◌==◌,
}
use idadwarf.Cache.{DieCache, DieType}
use idadwarf.Iterators.Objects.{CachedDieIterator, copy_cached_die}
use idadwarf.Session.{Host, Action, Void, pure, fueled, gets, ◌>>=◌, ◌>>◌}
use idadwarf.Session.Cached.{set_current_die, see_cached, for_cached, set_current_cache}
use idadwarf.Session.Runs.{bind_assoc}
use idadwarf.TypeUtils.{badnode}

pub record CacheIterator : Type 0 where
  pub m_die_type : DieType
  pub m_current_idx : ℕ
  pub m_current_cache : Option DieCache

-- operator*: the entry, or none at the end.
unfoldable pub entry_of : CacheIterator → Option DieCache
entry_of iter = if iter.m_current_idx == badnode then none else iter.m_current_cache

-- What set_current_die and set_current_cache leave in the iterator.
at_die : {Die : Type 0} → CachedDieIterator Die → Option (ℕ × Die) → CachedDieIterator Die
at_die iter none = record iter { m_current_idx = badnode; m_current_die = none }
at_die iter (some (idx, d)) = record iter {
  m_current_idx = idx;
  m_current_die = some (record { dbg = iter.m_dbg; die = d });
}

at_entry : CacheIterator → Option (ℕ × DieCache) → CacheIterator
at_entry iter none = record iter { m_current_idx = badnode; m_current_cache = none }
at_entry iter (some (idx, cache)) = record iter {
  m_current_idx = idx;
  m_current_cache = some cache;
}

module _ {H : Host} where
  open H use {dwarf}

  -- CachedDieIterator::operator++()
  unfoldable pub increment_cached :
      ℕ → CachedDieIterator H.dwarf.Die → Action H (CachedDieIterator H.dwarf.Die)
  unfolding at_die
  increment_cached fuel iter = elim iter.m_current_die [
    | none ↦ pure iter
    | some holder ↦ (do
      next ← gets {H = H} (λ w. H.get_next_offset w.node iter.m_current_idx)
      current ← set_current_die {H = H} fuel iter.m_tag next
      pure (at_die iter current))
  ]

  -- CachedDieIterator::operator++(int): the result, and what is left of the iterator.
  unfoldable pub post_increment_cached :
      ℕ
      → CachedDieIterator H.dwarf.Die
      → Action H (CachedDieIterator H.dwarf.Die) × CachedDieIterator H.dwarf.Die
  unfolding copy_cached_die
  post_increment_cached fuel iter =
      let (copy, left) = copy_cached_die iter in (increment_cached fuel copy, left)

  -- CacheIterator::operator++()
  unfoldable pub increment_entry : ℕ → CacheIterator → Action H CacheIterator
  unfolding at_entry
  increment_entry fuel iter = if iter.m_current_idx == badnode then pure {H = H} iter else (do
    next ← gets {H = H} (λ w. H.get_next_offset w.node iter.m_current_idx)
    current ← set_current_cache {H = H} fuel iter.m_die_type iter.m_current_cache next
    pure {H = H} (at_entry iter current))

  -- CacheIterator::operator++(int)
  unfoldable pub post_increment_entry : ℕ → CacheIterator → Action H CacheIterator × CacheIterator
  post_increment_entry fuel iter = (increment_entry fuel iter, iter)

  -- CachedDieIterator(dbg, tag)
  unfoldable pub new_cached : (fuel m_dbg m_tag : ℕ) → Action H (CachedDieIterator H.dwarf.Die)
  unfolding at_die
  new_cached fuel m_dbg m_tag = do
    first ← gets {H = H} (λ w. H.get_first_offset w.node)
    current ← set_current_die {H = H} fuel m_tag first
    pure (
        at_die
          (record { m_dbg = m_dbg; m_tag = m_tag; m_current_idx = first; m_current_die = none })
          current)

  -- for(iter; *iter != NULL; ++iter)
  unfoldable pub iterate :
      (rounds fuel : ℕ)
      → (H.dwarf.Die → Action H Void)
      → CachedDieIterator H.dwarf.Die
      → Action H Void
  unfolding increment_cached
  iterate zero fuel body iter = fueled none
  iterate (suc rounds) fuel body iter = elim iter.m_current_die [
    | none ↦ pure tt
    | some holder ↦ (do
      body holder.die
      next ← increment_cached fuel iter
      iterate rounds fuel body next)
  ]

  -- A round at a DIE, where the later rounds agree.
  round_lem :
      (rounds fuel : ℕ) (body : H.dwarf.Die → Action H Void) (iter : CachedDieIterator H.dwarf.Die)
      (idx : ℕ) (d : H.dwarf.Die)
      → ((current : Option (ℕ × H.dwarf.Die))
          → see_cached {H = H} rounds fuel iter.m_tag body current
            ≡ iterate rounds fuel body (at_die (at_die iter (some (idx, d))) current))
      → see_cached {H = H} (suc rounds) fuel iter.m_tag body (some (idx, d))
        ≡ iterate (suc rounds) fuel body (at_die iter (some (idx, d)))
  unfolding see_cached iterate increment_cached at_die pure ◌>>=◌
  round_lem rounds fuel body iter idx d later = ap (λ k. body d >>= k) (λ i _. step i)
    where
      here : CachedDieIterator H.dwarf.Die
      here = at_die iter (some (idx, d))

      next : Action H ℕ
      next = gets {H = H} (λ w. H.get_next_offset w.node idx)

      set : ℕ → Action H (Option (ℕ × H.dwarf.Die))
      set n = set_current_die {H = H} fuel iter.m_tag n

      moved_on : ℕ → Action H (CachedDieIterator H.dwarf.Die)
      moved_on n = set n >>= λ c. pure {H = H} (at_die here c)

      again : Option (ℕ × H.dwarf.Die) → Action H Void
      again = see_cached {H = H} rounds fuel iter.m_tag body

      rest : CachedDieIterator H.dwarf.Die → Action H Void
      rest = iterate rounds fuel body

      after : (n : ℕ) → (moved_on n >>= rest) ≡ (set n >>= again)
      after n =
          bind_assoc (set n) (λ c. pure {H = H} (at_die here c)) rest
          ∙ ap (λ k. set n >>= k) (λ i c. sym (later c) i)

      step : (next >>= λ n. set n >>= again) ≡ ((next >>= moved_on) >>= rest)
      step = ap (λ k. next >>= k) (λ i n. sym (after n) i) ∙ sym (bind_assoc next moved_on rest)

  see_cached_lem :
      (rounds fuel : ℕ) (body : H.dwarf.Die → Action H Void) (iter : CachedDieIterator H.dwarf.Die)
      (current : Option (ℕ × H.dwarf.Die))
      → see_cached {H = H} rounds fuel iter.m_tag body current
        ≡ iterate rounds fuel body (at_die iter current)
  unfolding see_cached iterate at_die
  see_cached_lem zero fuel body iter current = refl
  see_cached_lem (suc rounds) fuel body iter none = refl
  see_cached_lem (suc rounds) fuel body iter (some (idx, d)) =
      round_lem rounds fuel body iter idx d
        (λ current. see_cached_lem rounds fuel body (at_die iter (some (idx, d))) current)

  -- The loop over the DIEs of the cache does what the iterator does that is made, dereferenced and
  -- incremented, whatever the body of the loop does to the cache, and also where it throws or the
  -- fuel runs out.
  pub for_cached-iterate :
      (fuel m_dbg m_tag : ℕ) (body : H.dwarf.Die → Action H Void)
      → for_cached {H = H} fuel m_tag body
        ≡ (new_cached fuel m_dbg m_tag >>= iterate fuel fuel body)
  unfolding for_cached new_cached pure ◌>>=◌
  for_cached-iterate fuel m_dbg m_tag body =
      ap (λ k. first >>= k) (λ i n. each n i) ∙ sym (bind_assoc first made (iterate fuel fuel body))
    where
      first : Action H ℕ
      first = gets {H = H} (λ w. H.get_first_offset w.node)

      start : ℕ → CachedDieIterator H.dwarf.Die
      start n = record { m_dbg = m_dbg; m_tag = m_tag; m_current_idx = n; m_current_die = none }

      set : ℕ → Action H (Option (ℕ × H.dwarf.Die))
      set n = set_current_die {H = H} fuel m_tag n

      made : ℕ → Action H (CachedDieIterator H.dwarf.Die)
      made n = set n >>= λ c. pure {H = H} (at_die (start n) c)

      each :
          (n : ℕ)
          → (set n >>= see_cached {H = H} fuel fuel m_tag body)
            ≡ (made n >>= iterate fuel fuel body)
      each n =
          ap (λ k. set n >>= k) (λ i c. see_cached_lem fuel fuel body (start n) c i)
          ∙ sym
              (bind_assoc (set n) (λ c. pure {H = H} (at_die (start n) c)) (iterate fuel fuel body))
