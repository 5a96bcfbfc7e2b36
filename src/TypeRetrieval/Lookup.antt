-- ===== src/TypeRetrieval/Lookup.antt =====
-- src/type_retrieval.cpp: types in the database, and the types that other types refer to.
use idadwarf.Prelude.{ℕ, false, Option, none, some, List, [], ◌∷◌}
use idadwarf.Cache.{DieCache, die_useless, of_type}
use idadwarf.Dwarf.Checked.{Checked, returns}
use idadwarf.Dwarf.Tags.{dw_at_type}
use idadwarf.IdaUtils.{make_new_type, set_simple_die_type}
use idadwarf.Ida.{types}
use idadwarf.Session.{
  Host, Action, Void, pure, gets, update_fueled, ◌>>=◌, ◌>>◌, on_option, get_attr,
  get_ref_from_attr, new_die, get_cache_type,
}

unfoldable pub returned : {A : Type 0} → Option A → Option (Checked A)
returned none = none
returned (some a) = some (returns a)

module _ {H : Host} where
  unfoldable pub numbered_type : ℕ → Action H (Option (List ℕ))
  numbered_type ordinal = gets {H = H} (λ w. H.ida.get_numbered_type w.db ordinal)

  unfoldable pub numbered_type_name : ℕ → Action H (Option (List ℕ))
  numbered_type_name ordinal = gets {H = H} (λ w. H.ida.get_numbered_type_name w.db ordinal)

  -- make_new_type into an empty type
  unfoldable pub new_type_of : Option (List ℕ) → ℕ → Action H (List ℕ)
  new_type_of type ordinal =
      gets {H = H} (λ w. make_new_type H.ida.coding (types H.ida) w.db [] type ordinal)

  -- set_simple_die_type, which always saves the type where it returns.
  unfoldable pub save_type : ℕ → Option (List ℕ) → List ℕ → ℕ → Action H ℕ
  unfolding returned
  save_type fuel name type ordinal =
      update_fueled {H = H}
        (λ db. returned (set_simple_die_type H.ida.coding (types H.ida) fuel db name type ordinal))

  -- add_unspecified_type, with the cache that it fills.
  unfoldable pub add_unspecified_type : ℕ → Action H DieCache
  add_unspecified_type fuel = do
    ordinal ← save_type fuel (some (b'v' ∷ b'o' ∷ b'i' ∷ b'd' ∷ [])) (H.ida.coding.btf_void ∷ []) 0
    pure (record { type = die_useless; members = of_type ordinal false 0 })

  -- The cached type of another DIE, which is visited first, since it may not be in the cache.
  unfoldable pub visited_type :
      (H.dwarf.Die → Action H Void) → H.dwarf.Die → Action H (Option DieCache)
  visited_type visit die = visit die >> get_cache_type (die ∷ [])

  unfoldable pub look_ref_type :
      (H.dwarf.Die → Action H Void) → ℕ → H.dwarf.Die → Action H (Option DieCache)
  unfolding visited_type add_unspecified_type
  look_ref_type visit fuel modifier = do
    attrib ← get_attr dw_at_type (modifier ∷ [])
    on_option attrib (do cache ← add_unspecified_type fuel; pure (some cache))
        (λ _. do
          offset ← get_ref_from_attr dw_at_type (modifier ∷ [])
          die ← new_die offset
          visited_type visit die)
