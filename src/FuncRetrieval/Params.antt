-- ===== src/FuncRetrieval/Params.antt =====
-- src/func_retrieval.cpp, add_func_parameter, with the origins and the comments of variables from
-- src/die_utils.cpp.
use idadwarf.Prelude.{ℕ, Option, none, some, List, [], ◌∷◌, ◌++◌}
use idadwarf.Dwarf.Checked.{throws}
use idadwarf.Dwarf.Tags.{dw_at_abstract_origin}
use idadwarf.FuncRetrieval.Sdk.{FuncSdk}
use idadwarf.Ida.{FuncArg}
use idadwarf.Session.{
  Host, Action, pure, lift, gets, ◌>>=◌, on_option, get_attr, get_name, get_ref_from_attr,
  get_type_ordinal, new_die,
}

module _ {H : Host} where
  -- The DIE with its origin, if it has one: enable_abstract_origin on a new holder.
  unfoldable pub with_origin_of : H.dwarf.Die → Action H (List H.dwarf.Die)
  with_origin_of die = do
    attrib ← get_attr dw_at_abstract_origin (die ∷ [])
    on_option {H = H} attrib (pure (die ∷ [])) (λ _. do
      offset ← get_ref_from_attr dw_at_abstract_origin (die ∷ [])
      origin ← new_die offset
      pure (die ∷ origin ∷ []))

  module _ (F : FuncSdk H.ida.Db) where
    -- The type that is printed; what is in the buffer where that fails is not defined, and here an
    -- exception.
    unfoldable pub get_type_comment : List H.dwarf.Die → Action H (Option (List ℕ))
    get_type_comment var = do
      ordinal ← get_type_ordinal var
      on_option {H = H} ordinal (pure none) (λ o. do
        type ← gets {H = H} (λ w. H.ida.get_numbered_type w.db o)
        on_option {H = H} type (pure none) (λ t. do
          name ← get_name var
          printed ←
              gets {H = H}
                (λ w. F.print_type_to_one_line w.db t name (F.get_numbered_fields w.db o))
          comment ← on_option {H = H} printed (lift (throws none)) pure
          pure (some comment)))

    -- The arguments, of which the new one is the last.
    unfoldable pub add_func_parameter :
        List H.dwarf.Die → (argloc : ℕ) → List FuncArg → Action H (List FuncArg)
    add_func_parameter var argloc info = do
      ordinal ← get_type_ordinal var
      on_option {H = H} ordinal (pure info) (λ o. do
        type ← gets {H = H} (λ w. H.ida.get_numbered_type w.db o)
        on_option {H = H} type (pure info) (λ t. do
          name ← get_name var
          fields ← gets {H = H} (λ w. F.get_numbered_fields w.db o)
          pure (info ++ record { argloc = argloc; name = name; type = t; fields = fields } ∷ [])))

    -- info may be NULL.
    unfoldable pub add_to_info :
        List H.dwarf.Die → (argloc : ℕ) → Option (List FuncArg) → Action H (Option (List FuncArg))
    add_to_info var argloc none = pure none
    add_to_info var argloc (some info) = do
      info' ← add_func_parameter var argloc info
      pure (some info')
