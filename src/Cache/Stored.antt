-- ===== src/Cache/Stored.antt =====
-- src/die_cache.cpp: what a setter leaves at the DIE it is called for.
use idadwarf.Prelude.{
  ℕ, ◌≡◌, ◌≢◌, true, false, to_word, none, some, Option-cases, refl, inl, inr, badaddr, ==_ne,
  ==_refl,
}
use idadwarf.Netnode.{Netnode}
use idadwarf.Cache.{
  DieCache, tag_of, store_new, override_useless, cache_useful, is_type, in_cache, cache_type,
  get_cache, get_cache_type, get_type_offset, get_offset, die_type, of_type,
}

module _ (N : Netnode DieCache) where
  open N use {Node, supval, supset, altval, altset}

  pub get_cache_type-in_cache :
      (n : Node) (offset : ℕ) (c : DieCache)
      → get_cache_type N n offset ≡ some c
      → in_cache N n offset ≡ true
  unfolding get_cache_type get_cache in_cache
  get_cache_type-in_cache n offset c h = elim (Option-cases (supval n (to_word offset))) [
    | inl e ↦ absurd (cc (rw (e, get_cache_type, get_cache) at h))
    | inr (d, e) ↦ rw e refl
  ]

  get_cache_type-store_new :
      (n : Node) (offset reverse : ℕ) (c : DieCache)
      → is_type c.type ≡ true
      → get_cache_type N (store_new N n offset reverse c) offset ≡ some c
  unfolding store_new get_cache_type get_cache
  get_cache_type-store_new n offset reverse c t =
      let at : supval (store_new N n offset reverse c) (to_word offset) ≡ some c =
        rw (N.supval_altset, N.supval_supset, ==_refl (to_word offset)) refl in
      rw (get_cache_type, get_cache, at, t) refl

  cache_useful-new :
      (n : Node) (offset reverse : ℕ) (c : DieCache)
      → supval n (to_word offset) ≡ none
      → altval n (tag_of c.type) reverse ≡ none
      → cache_useful N n offset reverse c ≡ store_new N n offset reverse c
  unfolding cache_useful get_offset override_useless get_cache
  cache_useful-new n offset reverse c fresh first =
      rw (cache_useful, get_offset, first, override_useless, get_cache, fresh) refl

  -- A DIE that is not in the cache, with an ordinal that no DIE had before, gets the entry with which
  -- it is called.
  pub cache_type-new :
      (n : Node) (offset ordinal base : ℕ)
      → ordinal ≢ 0
      → ordinal ≢ badaddr
      → in_cache N n offset ≡ false
      → get_type_offset N n ordinal ≡ none
      → get_cache_type N (cache_type N n offset ordinal false base) offset
        ≡ some (record { type = die_type; members = of_type ordinal false base })
  unfolding in_cache get_type_offset get_offset cache_type
  cache_type-new n offset ordinal base nz nb fresh first =
      elim (Option-cases (supval n (to_word offset))) [
        | inr (d, e) ↦ absurd (cc (rw e at fresh))
        | inl e ↦
            rw
              (
                ==_ne ordinal 0 nz,
                ==_ne ordinal badaddr nb,
                cache_useful-new n offset ordinal
                    (record { type = die_type; members = of_type ordinal false base }) e first,
              )
              (get_cache_type-store_new n offset ordinal _ refl)
      ]
