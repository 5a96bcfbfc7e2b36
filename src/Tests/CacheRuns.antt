-- ===== src/Tests/CacheRuns.antt =====
-- The cache of DIEs at concrete inputs.
use idadwarf.Prelude.{ℕ, ◌≡◌, ◌↔◌, Bool, true, false, some, refl, arith}
use idadwarf.Cache.{
  DieCache, die_type, die_var, of_type, of_var, var_stack, var_register, get_cache, get_offset,
  get_cache_type_ordinal, get_cache_by_ordinal, get_type_offset, cache_type, cache_var,
  cache_useful,
}
use idadwarf.Cache.Coherence.{IsCoherent, IsOpen}
use idadwarf.Cache.Found.{empty-IsCoherent, get_cache_by_ordinal_iff}
use idadwarf.Cache.History.{Reach, here, next, type, var, set, Reach-IsCoherent, Reach-stable}
use idadwarf.Cache.Ordinals.{
  get_cache_type_ordinal-cache_type, cache_type-first_wins, cache_var_takes_first_kind,
}
use idadwarf.Dwarf.Checked.{returns}
use idadwarf.Holder.{new_holder}
use idadwarf.Holder.Cached.{cache_type as cache_die_type, get_ordinal, get_ordinal-cache_type}
use idadwarf.Tests.DieRuns.{new-IsFaithful}
use idadwarf.Tests.Worlds.{small_dwarf, Store, empty_store, store_netnode}

pub empty_store-IsCoherent : IsCoherent store_netnode empty_store
empty_store-IsCoherent = empty-IsCoherent store_netnode empty_store (λ i. refl) (λ t r. refl)

-- A type at offset 100, then a DIE at offset 200 with the same ordinal.
abbrev one_type : Store
one_type = set store_netnode empty_store (type 100 7 true 3)

one_type-Reach : Reach store_netnode empty_store one_type
one_type-Reach = next (type 100 7 true 3) here (omega arith) (λ c h. absurd (cc))

one_type-IsCoherent : IsCoherent store_netnode one_type
one_type-IsCoherent = Reach-IsCoherent store_netnode empty_store-IsCoherent one_type-Reach

abbrev type_entry : DieCache
type_entry = record { type = die_type; members = of_type 7 true 3 }

Reach-IsCoherent_example : IsCoherent store_netnode one_type
Reach-IsCoherent_example = Reach-IsCoherent store_netnode empty_store-IsCoherent one_type-Reach

IsOpen-200 : IsOpen store_netnode one_type 200
unfolding set cache_type cache_useful
IsOpen-200 c h = absurd (cc h)

abbrev two_types : Store
two_types = set store_netnode one_type (type 200 7 false 0)

two_types-Reach : Reach store_netnode one_type two_types
two_types-Reach = next (type 200 7 false 0) here (omega arith) IsOpen-200

stored_100 : store_netnode.supval one_type 100 ≡ some type_entry
unfolding set cache_type cache_useful
stored_100 = refl

Reach-stable_example : store_netnode.supval two_types 100 ≡ some type_entry
Reach-stable_example =
    Reach-stable store_netnode 100 type_entry one_type-IsCoherent two_types-Reach stored_100 refl

get_cache_by_ordinal_iff_example :
    (get_cache_by_ordinal store_netnode one_type 7 ≡ some type_entry) ↔ (
      (offset : ℕ) × (second : Bool) × (base : ℕ) × (get_cache store_netnode one_type offset
        ≡ some type_entry)
      × (type_entry ≡ record { type = die_type; members = of_type 7 second base }))
get_cache_by_ordinal_iff_example =
    get_cache_by_ordinal_iff store_netnode (λ i. refl) (λ t r. refl) one_type-Reach 7 type_entry

get_cache_type_ordinal-cache_type_example :
    get_cache_type_ordinal store_netnode (cache_type store_netnode one_type 200 7 false 0) 200
    ≡ some 7
get_cache_type_ordinal-cache_type_example =
    get_cache_type_ordinal-cache_type store_netnode one_type-IsCoherent 200 (omega arith) IsOpen-200
      7 0 false (omega arith) (omega arith)

cache_type-first_wins_example :
    (get_cache store_netnode (cache_type store_netnode one_type 200 7 false 0) 200
      ≡ some type_entry)
    × (get_cache store_netnode (cache_type store_netnode one_type 200 7 false 0) 100
        ≡ some type_entry)
    × (get_type_offset store_netnode (cache_type store_netnode one_type 200 7 false 0) 7 ≡ some 100)
cache_type-first_wins_example =
    cache_type-first_wins store_netnode one_type-IsCoherent 200 (omega arith) IsOpen-200 100 7 0
      false type_entry (omega arith) (omega arith) leads (unfold get_cache in stored_100)
  where
    leads : get_type_offset store_netnode one_type 7 ≡ some 100
    leads = unfold set cache_type cache_useful get_type_offset in refl

-- A stack variable of the function at 0x1000.
abbrev one_var : Store
one_var = set store_netnode empty_store (var 300 var_stack 0x1000)

one_var-IsCoherent : IsCoherent store_netnode one_var
one_var-IsCoherent =
    Reach-IsCoherent store_netnode empty_store-IsCoherent
      (next (var 300 var_stack 0x1000) here (omega arith) (λ c h. absurd (cc)))

IsOpen-310 : IsOpen store_netnode one_var 310
unfolding set cache_var cache_useful
IsOpen-310 c h = absurd (cc h)

abbrev stack_entry : DieCache
stack_entry = record { type = die_var; members = of_var var_stack 0x1000 }

-- A register variable of the same function is remembered as a stack variable.
cache_var_takes_first_kind_example :
    get_cache store_netnode (cache_var store_netnode one_var 310 var_register 0x1000) 310
    ≡ some stack_entry
cache_var_takes_first_kind_example =
    cache_var_takes_first_kind store_netnode one_var-IsCoherent 310 (omega arith) IsOpen-310 300
      0x1000 var_register var_stack leads stored
  where
    leads : get_offset store_netnode one_var 0x1000 die_var ≡ some 300
    leads = unfold set cache_var cache_useful get_offset in refl

    stored : get_cache store_netnode one_var 300 ≡ some stack_entry
    stored = unfold set cache_var cache_useful get_cache in refl

get_ordinal-cache_type_example :
    (n' : Store) × ((cache_die_type small_dwarf store_netnode one_type 7 false 0
        (new_holder small_dwarf 200)).0
      ≡ returns n')
    × ((get_ordinal small_dwarf store_netnode n'
          (cache_die_type small_dwarf store_netnode one_type 7 false 0
            (new_holder small_dwarf 200)).1).0
        ≡ returns (some 7))
get_ordinal-cache_type_example =
    get_ordinal-cache_type small_dwarf store_netnode (new_holder small_dwarf 200) one_type 200 7 0
      false (new-IsFaithful 200) (unfold new_holder in refl) one_type-IsCoherent (omega arith)
      IsOpen-200 (omega arith) (omega arith)
