-- ===== src/Globals.antt =====
-- src/global_retrieval.cpp: the variables that are not in a function, with apply_die_type of
-- src/type_utils.cpp.
pub mod Ends
use idadwarf.Prelude.{
  ℕ, Bool, true, false, Option, none, some, List, [], ◌∷◌, if◌then◌else◌, ◌==◌, badaddr, to_word,
}
use idadwarf.Cache.{var_global}
use idadwarf.Dwarf.Tags.{dw_tag_variable, dw_at_location, dw_at_external}
use idadwarf.FuncRetrieval.Sdk.{FuncSdk}
use idadwarf.Holder.Location.{var_addr_from}
use idadwarf.Holder.Reading.{flag_from}
use idadwarf.Ida.{types}
use idadwarf.IdaUtils.{apply_type_ordinal}
use idadwarf.Session.{
  Host, Action, Void, pure, lift, update, ◌>>=◌, ◌>>◌, on_option, for_dies, try_visit, get_attr,
  get_name, get_tag, get_type_ordinal, in_cache, cache_useless, cache_var,
}

abbrev applied : {Db : Type 0} → Db → Option Db → Bool × Db
applied db none = (false, db)
applied db (some db') = (true, db')

module _ {H : Host} where
  unfoldable pub apply_die_type : List H.dwarf.Die → (addr : ℕ) → Action H Bool
  apply_die_type chain addr = do
    ordinal ← get_type_ordinal chain
    on_option {H = H} ordinal (pure false) (λ o.
        update {H = H} (λ db. applied db (apply_type_ordinal H.ida.coding (types H.ida) db addr o)))

  module _ (F : FuncSdk H.ida.Db) where
    -- A variable at an address.
    unfoldable pub set_global_var : List H.dwarf.Die → (addr : ℕ) → Action H Bool
    unfolding apply_die_type
    set_global_var var addr = do
      ok ← apply_die_type var addr
      if ok
          then (do
            attrib ← get_attr dw_at_external var
            is_global ← lift {H = H} (flag_from H.dwarf attrib)
            update {H = H} (λ db. (
              tt,
              F.add_long_cmt db addr (if is_global then "global variable" else "static variable"),
            ))
            cache_var var_global badaddr var
            pure true)
          else pure false

    -- The message about a failure asks for the name, which may throw.
    unfoldable pub process_global_var : List H.dwarf.Die → Action H Void
    unfolding set_global_var
    process_global_var var = do
      location ← get_attr dw_at_location var
      on_option {H = H} location (pure tt) (λ _. do
        addr ← lift {H = H} (var_addr_from H.dwarf location)
        ok ← on_option {H = H} addr (pure false) (λ a. set_global_var var (to_word a))
        if ok then pure tt else (get_name var >> cache_useless var))

    unfoldable pub visit_global_die : H.dwarf.Die → Action H Void
    unfolding process_global_var
    visit_global_die die = do
      cached ← in_cache (die ∷ [])
      if cached then pure tt else (do
        tag ← get_tag die
        if tag == dw_tag_variable then process_global_var (die ∷ []) else pure tt)

    unfoldable pub retrieve_globals : (fuel : ℕ) → List H.dwarf.Die → Action H Void
    unfolding visit_global_die
    retrieve_globals fuel cus =
        for_dies {H = H} fuel cus (λ d. try_visit {H = H} (visit_global_die d))
