-- ===== src/Cache/Ordinals.antt =====
-- src/die_cache.cpp: what the getters read after a setter.
use idadwarf.Prelude.{
  ℕ, ◌<◌, ◌≡◌, ◌≢◌, Bool, true, some, arith, word_mod, badaddr, to_word_of_lt, Option-cases, refl,
  inl, inr, ==_ne, ◌∙◌,
}
use idadwarf.Netnode.{Netnode}
use idadwarf.Cache.{
  DieCache, DieType, die_type, die_var, Members, of_type, of_var, VarType, tag_of, get_cache,
  get_offset, get_cache_by_ordinal, get_type_offset, get_cache_type_ordinal, cache_type, cache_var,
}
use idadwarf.Cache.Coherence.{fits, key_of, IsCoherent, IsOpen}
use idadwarf.Cache.Setters.{result, cache_useful_entry, cache_useful_known}

members_of_type :
    (c : DieCache)
    → tag_of c.type ≡ 1
    → fits c.type c.members ≡ true
    → (second : Bool) × (base : ℕ) × (c
        ≡ record { type = die_type; members = of_type (key_of c.members) second base })
members_of_type c t f = go c.type c.members t f
  where
    go :
        (ty : DieType) (m : Members)
        → tag_of ty ≡ 1
        → fits ty m ≡ true
        → (second : Bool) × (base : ℕ) × (let c' : DieCache = record { type = ty; members = m } in
            c' ≡ record { type = die_type; members = of_type (key_of m) second base })
    go die_type (of_type o s b) _ _ = (s, b, refl)
    go die_type _ _ f = ground arith
    go _ _ t _ = ground arith

module _ (N : Netnode DieCache) {n : Netnode.Node N} (coherent : IsCoherent N n) where
  open N use {Node, supval, altval}

  -- An entry that is found by its ordinal is an entry of a type, with that ordinal, where the maps
  -- back and the entries agree.
  pub get_cache_by_ordinal_type :
      (o : ℕ) (c : DieCache)
      → get_cache_by_ordinal N n o ≡ some c
      → (second : Bool) × (base : ℕ) × (c
          ≡ record { type = die_type; members = of_type o second base })
  unfolding get_cache_by_ordinal get_cache
  get_cache_by_ordinal_type o c h = elim (Option-cases (altval n 1 o)) [
    | inl e ↦ absurd (cc (rw (e, get_cache_by_ordinal) at h))
    | inr (p, e) ↦
        let (d, small, stored, tag, key, fit) = coherent.back 1 o p e in
        let (second, base, shape) = members_of_type d tag fit in
        let found : supval n p ≡ some c =
          rw (e, get_cache_by_ordinal, get_cache, to_word_of_lt p small) at h in
        (second, base, cc)
  ]

  module _ (offset : ℕ) (small : offset < word_mod) (open_here : IsOpen N n offset) where
    abbrev type_cache : ℕ → Bool → ℕ → DieCache
    type_cache ordinal second base = record {
      type = die_type;
      members = of_type ordinal second base;
    }

    cache_type_eq :
        (ordinal base : ℕ) (second : Bool)
        → ordinal ≢ 0
        → ordinal ≢ badaddr
        → cache_type N n offset ordinal second base
          ≡ result N coherent offset small open_here (type_cache ordinal second base) refl
    unfolding cache_type
    cache_type_eq ordinal base second nz nb = rw (==_ne ordinal 0 nz, ==_ne ordinal badaddr nb)

    cache_type_known :
        (first ordinal base : ℕ) (second : Bool) (c : DieCache)
        → ordinal ≢ 0
        → ordinal ≢ badaddr
        → altval n 1 ordinal ≡ some first
        → supval n first ≡ some c
        → cache_type N n offset ordinal second base ≡ N.supset n offset c
    cache_type_known first ordinal base second c nz nb known stored =
        cache_type_eq ordinal base second nz nb
        ∙ cache_useful_known N coherent offset small open_here (type_cache ordinal second base) refl
            first c known stored

    -- What is stored for an ordinal is found by the DIE's offset, also where another DIE had the
    -- ordinal first. The maps back and the entries agree, the offset has 32 bits and no entry but a
    -- useless one, and the ordinal is neither 0 nor BADADDR.
    pub get_cache_type_ordinal-cache_type :
        (ordinal base : ℕ) (second : Bool)
        → ordinal ≢ 0
        → ordinal ≢ badaddr
        → get_cache_type_ordinal N (cache_type N n offset ordinal second base) offset ≡ some ordinal
    unfolding get_cache_type_ordinal
    get_cache_type_ordinal-cache_type ordinal base second nz nb =
        let (c, stored, tag, key, fit) =
          cache_useful_entry N coherent offset small open_here (type_cache ordinal second base)
            refl in
        let (s, b, shape) = members_of_type c tag fit in
        let stored' : supval (cache_type N n offset ordinal second base) offset
            ≡ some (type_cache ordinal s b) =
          rw (cache_type_eq ordinal base second nz nb, stored, shape, key) refl in
        rw (to_word_of_lt offset small, stored', get_cache_type_ordinal) refl

    -- The first DIE of an ordinal keeps the map back and its entry; a later one gets a copy of
    -- that entry, whatever it was called with. The maps back and the entries agree, the later DIE's
    -- offset has 32 bits and no entry but a useless one, and the ordinal is neither 0 nor BADADDR.
    pub cache_type-first_wins :
        (first ordinal base : ℕ) (second : Bool) (c : DieCache)
        → ordinal ≢ 0
        → ordinal ≢ badaddr
        → get_type_offset N n ordinal ≡ some first
        → get_cache N n first ≡ some c
        → (get_cache N (cache_type N n offset ordinal second base) offset ≡ some c)
          × (get_cache N (cache_type N n offset ordinal second base) first ≡ some c)
          × (get_type_offset N (cache_type N n offset ordinal second base) ordinal ≡ some first)
    unfolding get_type_offset get_cache
    cache_type-first_wins first ordinal base second c nz nb known stored =
        let (_, low, _, _, _, _) = coherent.back 1 ordinal first known in
        let stored' : supval n first ≡ some c = rw (get_cache, to_word_of_lt first low) at stored in
        rw
          (
            cache_type_known first ordinal base second c nz nb known stored',
            get_cache,
            to_word_of_lt offset small,
            to_word_of_lt first low,
          )
          (
            ground (arith, N.supval_supset n offset offset c),
            ground (arith, N.supval_supset n offset first c),
            N.altval_supset n offset c 1 ordinal ∙ known,
          )

    -- Whatever kind of variable is cached for a function that has one already, the new variable gets
    -- the kind of the function's first one. The maps back and the entries agree, and the new DIE's
    -- offset has 32 bits and no entry but a useless one.
    pub cache_var_takes_first_kind :
        (first startEA : ℕ) (kind first_kind : VarType)
        → get_offset N n startEA die_var ≡ some first
        → get_cache N n first
          ≡ some (record { type = die_var; members = of_var first_kind startEA })
        → get_cache N (cache_var N n offset kind startEA) offset
          ≡ some (record { type = die_var; members = of_var first_kind startEA })
    unfolding cache_var get_offset get_cache
    cache_var_takes_first_kind first startEA kind first_kind known stored =
        let (_, low, _, _, _, _) = coherent.back 3 startEA first known in
        let old : DieCache = record { type = die_var; members = of_var first_kind startEA } in
        let stored' : supval n first ≡ some old =
          rw (get_cache, to_word_of_lt first low) at stored in
        rw
          (
            cache_useful_known N coherent offset small open_here
                (record { type = die_var; members = of_var kind startEA }) refl first old known
                stored',
            get_cache,
            to_word_of_lt offset small,
          )
          (ground (arith, N.supval_supset n offset offset old))
