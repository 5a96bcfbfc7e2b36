-- ===== src/Holder/Cached.antt =====
-- src/die_utils.cpp: the methods of DieHolder that ask the cache of DIEs about their DIE, or store in
-- it, by the DIE's offset.
use idadwarf.Prelude.{ℕ, ◌<◌, ◌≡◌, ◌≢◌, Bool, Option, none, some, badaddr, word_mod, ◌∙◌, ap}
use idadwarf.Netnode.{Netnode}
use idadwarf.Cache.{DieCache, get_cache_type_ordinal, VarType}
use idadwarf.Cache
use idadwarf.Cache.Coherence.{IsCoherent, IsOpen}
use idadwarf.Cache.Ordinals.{get_cache_type_ordinal-cache_type}
use idadwarf.Dwarf.{Libdwarf}
use idadwarf.Dwarf.Checked.{returns, throws, ◌>>=◌}
use idadwarf.Dwarf.Tags.{dw_at_type}
use idadwarf.Holder.{Holder, Method, get_attr, get_offset, get_ref_from_attr}
use idadwarf.Holder.Memo.{IsFaithful, chain, offset_of, get_offset-Reads}

module _ (D : Libdwarf) (N : Netnode DieCache) where
  open N use {Node}

  -- A function of the DIE's offset.
  at_offset : {A : Type 0} → (ℕ → A) → Method D A
  at_offset f h = let (r, h') = get_offset D h in (do offset ← r; returns (f offset), h')

  pub in_cache : Node → Method D Bool
  unfolding at_offset
  in_cache n = at_offset (Cache.in_cache N n)

  pub get_cache : Node → Method D (Option DieCache)
  unfolding at_offset
  get_cache n = at_offset (Cache.get_cache N n)

  pub get_cache_type : Node → Method D (Option DieCache)
  unfolding at_offset
  get_cache_type n = at_offset (Cache.get_cache_type N n)

  pub cache_useless : Node → Method D Node
  unfolding at_offset
  cache_useless n = at_offset (Cache.cache_useless N n)

  pub cache_type : Node → ℕ → Bool → ℕ → Method D Node
  cache_type n ordinal second_pass base_ordinal =
      at_offset (λ offset. Cache.cache_type N n offset ordinal second_pass base_ordinal)

  pub cache_func : Node → ℕ → Method D Node
  unfolding at_offset
  cache_func n startEA = at_offset (λ offset. Cache.cache_func N n offset startEA)

  pub cache_var : Node → VarType → ℕ → Method D Node
  unfolding at_offset
  cache_var n type func_startEA = at_offset (λ offset. Cache.cache_var N n offset type func_startEA)

  -- The ordinal of the DIE, if it is a cached type.
  pub get_ordinal : Node → Method D (Option ℕ)
  get_ordinal n = at_offset (get_cache_type_ordinal N n)

  -- The ordinal of the DIE's type.
  pub get_type_ordinal : Node → Method D (Option ℕ)
  get_type_ordinal n h =
      let (r, h1) = get_attr D dw_at_type h in
      elim r [
        | throws e ↦ (throws e, h1)
        | returns none ↦ (returns none, h1)
        | returns (some _) ↦
            let (type_offset, h2) = get_ref_from_attr D dw_at_type h1 in
            (do offset ← type_offset; returns (get_cache_type_ordinal N n offset), h2)
      ]

  at_offset_lem :
      {A : Type 0} (f : ℕ → A) (h : Holder D) (offset : ℕ)
      → IsFaithful D h
      → offset_of D (chain D h) ≡ returns offset
      → ((at_offset f h).0 ≡ returns (f offset))
        × IsFaithful D (at_offset f h).1
        × (offset_of D (chain D (at_offset f h).1) ≡ returns offset)
  unfolding at_offset
  at_offset_lem f h offset t e =
      let (r, t', c) = get_offset-Reads D h t in
      (rw (r, e) (λ i. returns (f offset)), t', ap (offset_of D) c ∙ e)

  -- What a holder stores as the ordinal of its DIE it reads again: `cache_type` returns, and
  -- `get_ordinal` on the holder and the cache afterwards returns that ordinal. The DIE has an offset
  -- of 32 bits, which nothing but a useless entry is stored for, the holder is faithful, the maps back
  -- and the entries of the cache agree, and the ordinal is neither 0 nor BADADDR.
  pub get_ordinal-cache_type :
      (h : Holder D) (n : Node) (offset ordinal base : ℕ) (second : Bool)
      → IsFaithful D h
      → offset_of D (chain D h) ≡ returns offset
      → IsCoherent N n
      → offset < word_mod
      → IsOpen N n offset
      → ordinal ≢ 0
      → ordinal ≢ badaddr
      → (n' : Node) × ((cache_type n ordinal second base h).0 ≡ returns n')
        × ((get_ordinal n' (cache_type n ordinal second base h).1).0 ≡ returns (some ordinal))
  unfolding cache_type get_ordinal
  get_ordinal-cache_type h n offset ordinal base second t e coherent small open_here nz nb =
      let store = λ (o : ℕ). Cache.cache_type N n o ordinal second base in
      let (r, t', e') = at_offset_lem store h offset t e in
      let (r', _, _) = at_offset_lem (get_cache_type_ordinal N (store offset)) _ offset t' e' in
      (
        store offset,
        r,
        r'
            ∙ ap returns (
                get_cache_type_ordinal-cache_type N coherent offset small open_here ordinal base
                  second nz nb),
      )
