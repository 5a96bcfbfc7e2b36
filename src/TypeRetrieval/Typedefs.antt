-- ===== src/TypeRetrieval/Typedefs.antt =====
-- src/type_retrieval.cpp: typedefs.
use idadwarf.Prelude.{ℕ, Bool, true, false, Option, none, some, List, [], ◌∷◌, if◌then◌else◌, ◌==◌}
use idadwarf.Cache.{ordinal}
use idadwarf.Ida.{types, enums, strucs}
use idadwarf.Session.{
  Host, Action, Void, pure, gets, update, query, ◌>>=◌, ◌>>◌, on_option, get_name, cache_useless,
  cache_type,
}
use idadwarf.TypeUtils.Equivalence.{get_equivalent_typedef_ordinal}
use idadwarf.TypeRetrieval.Lookup.{
  numbered_type, numbered_type_name, new_type_of, save_type, look_ref_type,
}

unfoldable pub is_unnamed : List ℕ → Bool
is_unnamed [] = true
is_unnamed (_ ∷ _) = false

module _ {H : Host} where
  -- A typedef for an anonymous type: the existing type is renamed, and what it was refers to it.
  unfoldable pub rename_type : ℕ → Option (List ℕ) → ℕ → Action H (Option ℕ)
  rename_type fuel name type_ordinal = do
    type ← numbered_type type_ordinal
    on_option type (pure none) (λ existing_type. do
      deleted ← update {H = H} (λ db. elim (H.ida.del_numbered_type db type_ordinal) [
        | none ↦ (false, db)
        | some db' ↦ (true, db')
      ])
      if deleted
          then (do
            ordinal ← save_type fuel name existing_type type_ordinal
            if type_ordinal == ordinal
                then pure tt
                else update {H = H} (λ db. (tt, H.ida.set_type_alias db type_ordinal ordinal))
            pure (some ordinal))
          else pure none)

  -- The ordinal of an equivalent typedef, or of a new one.
  unfoldable pub find_typedef : ℕ → Option (List ℕ) → H.dwarf.Die → ℕ → Action H (Option ℕ)
  find_typedef fuel name die type_ordinal = do
    node ← gets {H = H} (λ w. w.node)
    equivalent ← query {H = H} (λ db.
        get_equivalent_typedef_ordinal H.ida.coding (types H.ida) (enums H.ida) (strucs H.ida)
          H.netnode H.dwarf fuel db db db node die type_ordinal)
    if equivalent == 0
        then (do
          typedef_type ← new_type_of none type_ordinal
          ordinal ← save_type fuel name typedef_type 0
          pure (some ordinal))
        else pure (some equivalent)

  unfoldable pub process_typed_typedef : ℕ → H.dwarf.Die → ℕ → Action H Void
  unfolding rename_type find_typedef is_unnamed
  process_typed_typedef fuel die type_ordinal = do
    name ← get_name (die ∷ [])
    type_name ← numbered_type_name {H = H} type_ordinal
    found ← on_option {H = H} type_name (pure none) (λ existing_name.
        if is_unnamed existing_name
        then rename_type fuel name type_ordinal
        else find_typedef fuel name die type_ordinal)
    on_option {H = H} found (cache_useless {H = H} (die ∷ []))
        (λ ordinal. cache_type {H = H} ordinal false 0 (die ∷ []))

  unfoldable pub process_typedef : (H.dwarf.Die → Action H Void) → ℕ → H.dwarf.Die → Action H Void
  process_typedef visit fuel die = do
    cache ← look_ref_type {H = H} visit fuel die
    on_option {H = H} cache (pure tt) (λ c. process_typed_typedef fuel die (ordinal c))
