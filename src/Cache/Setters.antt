-- ===== src/Cache/Setters.antt =====
-- src/die_cache.cpp: what each setter of the cache does.
use idadwarf.Prelude.{
  ℕ, ◌<◌, ◌≡◌, ◌≢◌, true, none, some, arith, word_mod, to_word_of_lt, Option-cases, refl, ◌⊎◌, inl,
  inr, ==_ne,
}
use mathlib.Core.Path.{subst₂}
use idadwarf.Netnode.{Netnode}
use idadwarf.Cache.{DieCache, tag_of, copy_existing, store_new, override_useless, cache_useful}
use idadwarf.Cache.Coherence.{
  fits, key_of, IsCoherent, IsOpen, HasBack, back_ne, copy-IsCoherent, store-IsCoherent,
  supval_supset_ne,
}

module _ (N : Netnode DieCache) where
  open N use {Node, supval, supset, altval, altset}

  module _ {n : Node} (coherent : IsCoherent N n) (offset : ℕ) (small : offset < word_mod)
      (open_here : IsOpen N n offset) (cache : DieCache)
      (fit : fits cache.type cache.members ≡ true) where
    abbrev pub store : Node
    store = altset (supset n offset cache) (tag_of cache.type) (key_of cache.members) offset

    abbrev pub result : Node
    result = cache_useful N n offset (key_of cache.members) cache

    override_eq : override_useless N n offset (key_of cache.members) cache ≡ store
    unfolding override_useless
    override_eq = elim (Option-cases (supval n offset)) [
      | inl e ↦
          rw
            (to_word_of_lt offset small, e, override_useless, store_new, to_word_of_lt offset small)
      | inr (c, e) ↦ rw (
        to_word_of_lt offset small,
        e,
        override_useless,
        open_here c e,
        store_new,
        to_word_of_lt offset small,
      )
    ]

    -- Either the key is new, and the entry is stored with its way back, or some other DIE has the
    -- key, and its entry is copied.
    pub cache_useful_cases :
        ((altval n (tag_of cache.type) (key_of cache.members) ≡ none) × (result ≡ store))
        ⊎ ((p : ℕ) × (e : DieCache) × HasBack N n e p
            × (tag_of e.type ≡ tag_of cache.type)
            × (key_of e.members ≡ key_of cache.members)
            × (fits e.type e.members ≡ true)
            × (result ≡ supset n offset e))
    unfolding cache_useful
    cache_useful_cases = elim (Option-cases (altval n (tag_of cache.type) (key_of cache.members))) [
      | inl fresh ↦ inl (fresh, rw (fresh, cache_useful) override_eq)
      | inr (p, known) ↦
          let (e, low, stored, tag, key, fit_e) = coherent.back _ _ p known in
          let other = back_ne N coherent offset open_here _ _ p known in
          inr (
            p,
            e,
            (rw (tag, key) known, stored),
            tag,
            key,
            fit_e,
            rw (
              known,
              cache_useful,
              ==_ne p offset other,
              to_word_of_lt p low,
              stored,
              copy_existing,
              to_word_of_lt offset small,
            ),
          )
    ]

    pub cache_useful-IsCoherent : IsCoherent N result
    cache_useful-IsCoherent = elim cache_useful_cases [
      | inl (fresh, e) ↦ rw e (store-IsCoherent N coherent offset open_here cache fit small fresh)
      | inr (p, c, known, _, _, _, e) ↦ rw e (copy-IsCoherent N coherent offset open_here c p known)
    ]

    -- The entry that the DIE has afterwards.
    pub cache_useful_entry :
        (c : DieCache) × (supval result offset ≡ some c)
        × (tag_of c.type ≡ tag_of cache.type)
        × (key_of c.members ≡ key_of cache.members)
        × (fits c.type c.members ≡ true)
    cache_useful_entry = elim cache_useful_cases [
      | inl (fresh, e) ↦ (
        cache,
        rw e (
            ground (
              arith,
              N.supval_altset (supset n offset cache) (tag_of cache.type) (key_of cache.members)
                  offset offset,
              N.supval_supset n offset offset cache,
            )),
        refl,
        refl,
        fit,
      )
      | inr (p, c, known, tag, key, fits_c, e) ↦
          (c, rw e (ground (arith, N.supval_supset n offset offset c)), tag, key, fits_c)
    ]

    pub cache_useful_frame : (q : ℕ) → q ≢ offset → supval result q ≡ supval n q
    cache_useful_frame q other = elim cache_useful_cases [
      | inl (fresh, e) ↦ rw e (
          ground (
            arith,
            N.supval_altset (supset n offset cache) (tag_of cache.type) (key_of cache.members)
                offset q,
            N.supval_supset n offset q cache,
          ))
      | inr (p, c, known, tag, key, fits_c, e) ↦ rw e (supval_supset_ne N n offset q c other)
    ]

    -- Where another DIE has the key, its entry is what is copied.
    pub cache_useful_known :
        (p : ℕ) (e : DieCache)
        → altval n (tag_of cache.type) (key_of cache.members) ≡ some p
        → supval n p ≡ some e
        → result ≡ supset n offset e
    cache_useful_known p e known stored = elim cache_useful_cases [
      | inl (fresh, _) ↦ absurd (cc)
      | inr (q, d, (leads, at), tag, key, _, same) ↦
          let leads' : altval n (tag_of cache.type) (key_of cache.members) ≡ some q =
            subst₂ (λ t k. altval n t k ≡ some q) tag key leads in
          let here : q ≡ p = cc in let d≡e : d ≡ e = cc in rw (← d≡e) same
    ]
