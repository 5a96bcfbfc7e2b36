-- ===== src/TypeRetrieval/Pointers.antt =====
-- src/type_retrieval.cpp, update_ptr_types and update_structure_member, and retrieve_types.
use idadwarf.Prelude.{ℕ, true, false, not, ◌&&◌, none, some, List, [], ◌∷◌, if◌then◌else◌, ◌==◌}
use idadwarf.Cache.{DieCache, die_type, ordinal, base_ordinal, second_pass, get_cache_by_ordinal}
use idadwarf.Dwarf.Tags.{dw_tag_member, dw_tag_structure_type, dw_tag_union_type}
use idadwarf.IdaUtils.{get_ptrs_base_type}
use idadwarf.Ida.{types}
use idadwarf.Til.{first_byte}
use idadwarf.Session.{
  Host, Action, Void, pure, fueled, gets, update, ◌>>=◌, ◌>>◌, on_option, for_children, get_name,
  get_cache_type,
}
use idadwarf.Session.Cached.{for_cached, for_entries}
use idadwarf.TypeRetrieval.Lookup.{returned, numbered_type, numbered_type_name}
use idadwarf.TypeRetrieval.SecondPass.{replace_numbered_type}
use idadwarf.TypeRetrieval.Structures.{struc_id_of}

module _ {H : Host} where
  -- A member whose type is the old one gets the new one.
  unfoldable pub update_member : ℕ → (old_type new_type : List ℕ) → H.dwarf.Die → Action H Void
  update_member sptr old_type new_type member = do
    member_name ← get_name (member ∷ [])
    mptr ← gets {H = H} (λ w. H.ida.get_member_by_name w.db sptr member_name)
    on_option mptr (pure tt) (λ m. do
      member_type ← gets {H = H} (λ w. H.ida.get_member_tinfo w.db m)
      on_option member_type (pure tt) (λ t.
          if H.ida.coding.typcmp old_type t
          then update {H = H} (λ db. (tt, H.ida.set_member_tinfo db sptr mptr new_type))
          else pure tt))

  unfoldable pub update_structure : ℕ → (old_type new_type : List ℕ) → H.dwarf.Die → Action H Void
  unfolding update_member
  update_structure fuel old_type new_type structure = do
    cache ← get_cache_type (structure ∷ [])
    on_option cache (pure tt) (λ c. do
      type_name ← numbered_type_name (ordinal c)
      on_option type_name (pure tt) (λ name. do
        struc_id ← gets {H = H} (λ w. struc_id_of H.ida w.db (some name))
        for_children fuel dw_tag_member structure (update_member struc_id old_type new_type)))

  unfoldable pub update_structure_member :
      (fuel tag : ℕ) → (old_type new_type : List ℕ) → Action H Void
  unfolding update_structure
  update_structure_member fuel tag old_type new_type =
      for_cached fuel tag (update_structure fuel old_type new_type)

  -- The new pointer type replaces the old one, in the database and in the aggregate types.
  unfoldable pub replace_pointer : ℕ → ℕ → (name old_type new_type : List ℕ) → Action H Void
  unfolding update_structure_member
  replace_pointer fuel ordinal name old_type new_type = do
    deleted ← update {H = H} (λ db. elim (H.ida.del_numbered_type db ordinal) [
      | none ↦ (false, db)
      | some db' ↦ (true, db')
    ])
    ok ← (if deleted then replace_numbered_type ordinal name new_type else pure false)
    if ok
        then update_structure_member fuel dw_tag_structure_type old_type new_type
          >> update_structure_member fuel dw_tag_union_type old_type new_type
        else pure tt

  -- A pointer to a function that had an unknown type.
  unfoldable pub update_function_pointer : ℕ → DieCache → (type func_type : List ℕ) → Action H Void
  unfolding replace_pointer
  update_function_pointer fuel cache type func_type = do
    type_name ← numbered_type_name (ordinal cache)
    func_cache ← gets {H = H} (λ w. get_cache_by_ordinal H.netnode w.node (base_ordinal cache))
    on_option func_cache (pure tt) (λ f. on_option type_name (pure tt) (λ name.
        if second_pass f
        then (do
          base_type ← fueled (returned (get_ptrs_base_type H.ida.coding (types H.ida) fuel type))
          replace_pointer fuel (ordinal cache) name type
              (H.ida.bytes.replace_subtype type base_type func_type))
        else pure tt))

  unfoldable pub update_ptr_type : ℕ → DieCache → Action H Void
  unfolding update_function_pointer
  update_ptr_type fuel cache = do
    type ← numbered_type (ordinal cache)
    on_option type (pure tt) (λ t.
        if H.ida.coding.is_type_ptr (first_byte t) && not (base_ordinal cache == 0)
        then (do
          func_type ← numbered_type (base_ordinal cache)
          on_option func_type (pure tt) (λ f.
              if H.ida.bytes.is_type_func (first_byte f)
              then update_function_pointer fuel cache t f
              else pure tt))
        else pure tt)

  unfoldable pub update_ptr_types : ℕ → Action H Void
  unfolding update_ptr_type
  update_ptr_types fuel = for_entries fuel die_type (update_ptr_type fuel)
