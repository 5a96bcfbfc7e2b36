-- ===== src/Session/Cached/Ends.antt =====
-- src/iterators.cpp, CacheIterator: its loops end, since the netnode's indices go up.
use idadwarf.Prelude.{
  ℕ, zero, suc, ◌+◌, ◌<◌, ◌≤◌, Option, none, some, ◌==◌, Bool-cases, inl, inr, ne_of_==, arith,
}
use idadwarf.Cache.{DieCache, DieType}
use idadwarf.Session.{Host, Action, Void}
use idadwarf.Session.Cached.{current_cache, set_current_cache, see_entries, for_entries}
use idadwarf.Session.Ends.{
  Ends, EndsWith, ends_rules, EndsWith-bind, EndsWith-pure, EndsWith-gets, EndsWith-if, EndsWith-of,
  Ends-of, EndsWith-weaken,
}
use idadwarf.TypeUtils.{badnode}

-- The first index of a netnode and the ones after it are below BADNODE, or BADNODE at the end.
pub record IsForward (H : Host) : Type 0 where
  pub first : (n : H.netnode.Node) → H.get_first_offset n ≤ badnode
  pub next :
      (n : H.netnode.Node) (idx : ℕ)
      → idx < badnode
      → (idx < H.get_next_offset n idx) × (H.get_next_offset n idx ≤ badnode)

-- An entry at an index or behind it.
abbrev FoundFrom : ℕ → Option (ℕ × DieCache) → Type 0
FoundFrom idx none = Unit {0}
FoundFrom idx (some (i, c)) = (idx ≤ i) × (i < badnode)

-- The rounds are more than the indices that are left.
abbrev Within : (rounds : ℕ) → Option (ℕ × DieCache) → Type 0
Within rounds none = 0 < rounds
Within rounds (some (i, c)) = (badnode < i + rounds) × (i < badnode)

FoundFrom-later :
    (idx later : ℕ) (o : Option (ℕ × DieCache)) → idx < later → FoundFrom later o → FoundFrom idx o
FoundFrom-later idx later none h f = tt
FoundFrom-later idx later (some (i, c)) h f = omega arith

FoundFrom-Within :
    (idx later rounds : ℕ) (o : Option (ℕ × DieCache))
    → idx < badnode
    → idx < later
    → badnode < idx + suc rounds
    → FoundFrom later o
    → Within rounds o
FoundFrom-Within idx later rounds none a b h f = omega arith
FoundFrom-Within idx later rounds (some (i, c)) a b h f = omega arith

module _ {H : Host} (forward : IsForward H) where
  abbrev IsNext : ℕ → ℕ → Type 0
  IsNext idx n = (idx < n) × (n ≤ badnode)

  Ends-current_cache :
      (stale : Option DieCache) (idx : ℕ) → Ends {H = H} (current_cache {H = H} stale idx)
  unfolding current_cache
  Ends-current_cache stale idx = search ends_rules depth 20

  set_current_cache_found :
      (fuel : ℕ) (wanted : DieType) (stale : Option DieCache) (idx : ℕ)
      → idx ≤ badnode
      → badnode < idx + fuel
      → EndsWith {H = H} (FoundFrom idx) (set_current_cache {H = H} fuel wanted stale idx)
  unfolding set_current_cache
  set_current_cache_found zero wanted stale idx h enough = absurd (omega arith)
  set_current_cache_found (suc fuel) wanted stale idx h enough =
      elim (Bool-cases (idx == badnode)) [
        | inl e ↦ rw e (EndsWith-pure none tt)
        | inr e ↦
            let ne = ne_of_== idx badnode e in
            let below : idx < badnode = omega arith in
            rw e (
              EndsWith-bind (λ _. Unit {0}) (FoundFrom idx) _ _
                (EndsWith-of _ (Ends-current_cache stale idx))
                (λ c _. EndsWith-if _ _ _ (EndsWith-pure (some (idx, c)) (omega arith, below)) (
                  EndsWith-bind (IsNext idx) (FoundFrom idx) _ _
                    (EndsWith-gets _ (λ w. forward.next w.node idx below))
                    (λ n later.
                      EndsWith-weaken _ _ _ (λ o. FoundFrom-later idx n o later.0)
                        (set_current_cache_found fuel wanted (some c) n later.1 (omega arith))))))
      ]

  see_entries_end :
      (rounds fuel : ℕ) (wanted : DieType) (body : DieCache → Action H Void)
      → badnode < fuel
      → ((c : DieCache) → Ends {H = H} (body c))
      → (current : Option (ℕ × DieCache)) → Within rounds current
      → EndsWith {H = H} (λ _. Unit {0}) (see_entries {H = H} rounds fuel wanted body current)
  unfolding see_entries
  see_entries_end zero fuel wanted body enough k none h = absurd (omega arith)
  see_entries_end zero fuel wanted body enough k (some (i, c)) h = absurd (omega arith)
  see_entries_end (suc rounds) fuel wanted body enough k none h = EndsWith-pure tt tt
  see_entries_end (suc rounds) fuel wanted body enough k (some (i, c)) h =
      EndsWith-bind (λ _. Unit {0}) _ (body c) _ (EndsWith-of _ (k c))
        (λ _ _.
          EndsWith-bind (IsNext i) _ _ _ (EndsWith-gets _ (λ w. forward.next w.node i h.1))
            (λ n later.
              EndsWith-bind (FoundFrom n) _ _ _
                (set_current_cache_found fuel wanted (some c) n later.1 (omega arith))
                (λ o found.
                  see_entries_end rounds fuel wanted body enough k o
                    (FoundFrom-Within i n rounds o h.1 later.0 h.0 found))))

  -- A loop over the entries of a type runs as often as there are indices at most, where the body
  -- ends for each entry.
  pub Ends-for_entries :
      (fuel : ℕ) (wanted : DieType) (body : DieCache → Action H Void)
      → badnode < fuel
      → ((c : DieCache) → Ends {H = H} (body c))
      → Ends {H = H} (for_entries {H = H} fuel wanted body)
  unfolding for_entries
  Ends-for_entries fuel wanted body enough k = Ends-of _ (
      EndsWith-bind (λ n. n ≤ badnode) (λ _. Unit {0}) _ _
        (EndsWith-gets _ (λ w. forward.first w.node))
        (λ n low.
          EndsWith-bind (FoundFrom n) _ _ _
            (set_current_cache_found fuel wanted none n low (omega arith))
            (λ o found. see_entries_end fuel fuel wanted body enough k o (first_within n o found))))
    where
      first_within : (n : ℕ) (o : Option (ℕ × DieCache)) → FoundFrom n o → Within fuel o
      first_within n none f = omega arith
      first_within n (some (i, c)) f = omega arith
