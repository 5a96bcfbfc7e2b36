-- ===== src/Cache/Outcome.antt =====
-- src/die_cache.cpp, cache_type: what becomes of a DIE that has no entry yet.
use idadwarf.Prelude.{
  ℕ, ◌<◌, ◌≡◌, ◌≢◌, Bool, false, none, some, arith, word_mod, to_word_of_lt, refl, Option-cases,
  Bool-cases, inl, inr, ◌⊎◌, badaddr, ◌==◌, eq_of_==, is_some, ap, sym, ◌∙◌,
}
use idadwarf.Netnode.{Netnode}
use idadwarf.Cache.{
  DieCache, die_useless, die_type, zeroed, of_type, in_cache, get_cache, get_cache_type, get_offset,
  get_type_offset, get_cache_by_ordinal, cache_useless, cache_type,
}
use idadwarf.Cache.Coherence.{IsCoherent, IsOpen}
use idadwarf.Cache.Ordinals.{get_cache_by_ordinal_type, cache_type-first_wins}
use idadwarf.Cache.Stored.{cache_type-new}

module _ (N : Netnode DieCache) where
  open N use {Node, supval, supset}

  -- The cache before and after a type with an ordinal is cached for a DIE: nothing happens for the
  -- ordinals 0 and BADADDR; the first DIE of an ordinal gets the new entry; and a later one gets the
  -- entry of the first, which is that of a type with the ordinal, too.
  pub data TypeCached (before after : Node) (offset ordinal : ℕ) : Type 0 where
    left_out :
        (ordinal ≡ 0) ⊎ (ordinal ≡ badaddr)
        → after ≡ before
        → TypeCached before after offset ordinal
    first_entry :
        get_type_offset N before ordinal ≡ none
        → get_cache_type N after offset
          ≡ some (record { type = die_type; members = of_type ordinal false 0 })
        → TypeCached before after offset ordinal
    later_entry :
        (first : ℕ) (second : Bool) (base : ℕ)
        → get_type_offset N before ordinal ≡ some first
        → get_cache N before first
          ≡ some (record { type = die_type; members = of_type ordinal second base })
        → get_cache N after offset ≡ get_cache N before first
        → TypeCached before after offset ordinal

  pub get_cache-cache_useless :
      (n : Node) (offset : ℕ)
      → in_cache N n offset ≡ false
      → get_cache N (cache_useless N n offset) offset
        ≡ some (record { type = die_useless; members = zeroed })
  unfolding cache_useless get_cache
  get_cache-cache_useless n offset fresh = rw (fresh, N.supval_supset) (ground arith)

  fresh-IsOpen :
      (n : Node) (offset : ℕ) → offset < word_mod → in_cache N n offset ≡ false → IsOpen N n offset
  unfolding in_cache
  fresh-IsOpen n offset small fresh c h =
      let h' : is_some (supval n offset) ≡ false = rw (to_word_of_lt offset small) at fresh in
      absurd (cc (rw h at h'))

  known-TypeCached :
      (n : Node) (offset ordinal first : ℕ)
      → IsCoherent N n
      → offset < word_mod
      → in_cache N n offset ≡ false
      → ordinal ≢ 0
      → ordinal ≢ badaddr
      → get_type_offset N n ordinal ≡ some first
      → TypeCached n (cache_type N n offset ordinal false 0) offset ordinal
  unfolding get_type_offset get_offset get_cache get_cache_by_ordinal
  known-TypeCached n offset ordinal first coherent small fresh nz nb known =
      let (c, low, stored, _, _, _) = coherent.back 1 ordinal first known in
      let at : get_cache N n first ≡ some c = rw (get_cache, to_word_of_lt first low) stored in
      let led : get_cache_by_ordinal N n ordinal ≡ some c =
        rw (get_cache_by_ordinal, get_type_offset, get_offset, known) at in
      let (second, base, shape) = get_cache_by_ordinal_type N coherent ordinal c led in
      let (here, _, _) =
        cache_type-first_wins N coherent offset small (fresh-IsOpen n offset small fresh) first
          ordinal 0 false c nz nb known at in
      later_entry first second base known (at ∙ ap some shape) (here ∙ sym at)

  pub cache_type-TypeCached :
      (n : Node) (offset ordinal : ℕ)
      → IsCoherent N n
      → offset < word_mod
      → in_cache N n offset ≡ false
      → TypeCached n (cache_type N n offset ordinal false 0) offset ordinal
  unfolding cache_type
  cache_type-TypeCached n offset ordinal coherent small fresh = elim (Bool-cases (ordinal == 0)) [
    | inl z ↦ left_out (inl (eq_of_== ordinal 0 z)) (rw (cache_type, z) refl)
    | inr nz ↦ elim (Bool-cases (ordinal == badaddr)) [
      | inl b ↦ left_out (inr (eq_of_== ordinal badaddr b)) (rw (cache_type, nz, b) refl)
      | inr nb ↦
          let nz' : ordinal ≢ 0 = ground arith in
          let nb' : ordinal ≢ badaddr = ground arith in
          elim (Option-cases (get_type_offset N n ordinal)) [
            | inl e ↦ first_entry e (cache_type-new N n offset ordinal 0 nz' nb' fresh e)
            | inr (first, e) ↦
                known-TypeCached n offset ordinal first coherent small fresh nz' nb' e
          ]
    ]
  ]
