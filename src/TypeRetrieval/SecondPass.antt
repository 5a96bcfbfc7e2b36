-- ===== src/TypeRetrieval/SecondPass.antt =====
-- src/type_retrieval.cpp: what was not found in the first pass is looked up again. An identifier
-- stands for its `struc_t`, BADNODE for NULL.
use idadwarf.Prelude.{
  ℕ, ◌+◌, Bool, true, false, ◌&&◌, ◌||◌, none, some, List, [], ◌∷◌, ◌++◌, if◌then◌else◌, ◌==◌,
}
use idadwarf.Prelude.{get_elem?, length}
use idadwarf.Cache.{DieCache, ordinal, second_pass, is_type}
use idadwarf.Dwarf.Checked.{throws}
use idadwarf.Dwarf.Tags.{
  dw_tag_formal_parameter, dw_tag_member, dw_tag_structure_type, dw_tag_subroutine_type,
  dw_tag_union_type,
}
use idadwarf.Ida.{FuncArg, FuncInfo}
use idadwarf.Til.{first_byte}
use idadwarf.Session.{
  Host, Action, Void, pure, lift, gets, update, ◌>>=◌, on_option, fold_children, get_name, get_tag,
  get_cache, cache_useless,
}
use idadwarf.Session.Cached.{for_cached}
use idadwarf.TypeRetrieval.Lookup.{numbered_type, numbered_type_name}
use idadwarf.TypeRetrieval.Structures.{struc_id_of, add_structure_member}
use idadwarf.TypeRetrieval.Subroutines.{add_subroutine_parameter, add_subroutine_return}

module _ {H : Host} where
  -- A member that the structure does not have yet; the flag is third_pass.
  unfoldable pub second_member :
      (H.dwarf.Die → Action H Void) → ℕ → Bool → H.dwarf.Die → Action H Bool
  second_member visit sptr third_pass member = do
    member_name ← get_name (member ∷ [])
    mptr ← gets {H = H} (λ w. H.ida.get_member_by_name w.db sptr member_name)
    on_option mptr (add_structure_member visit sptr third_pass member) (λ _. pure third_pass)

  unfoldable pub second_process_structure :
      (H.dwarf.Die → Action H Void) → ℕ → H.dwarf.Die → ℕ → Action H Void
  unfolding second_member
  second_process_structure visit fuel structure ordinal = do
    type_name ← numbered_type_name ordinal
    struc_id ← gets {H = H} (λ w. struc_id_of H.ida w.db type_name)
    third_pass ← fold_children fuel dw_tag_member structure (second_member visit struc_id) false
    if third_pass then cache_useless {H = H} (structure ∷ []) else pure tt

  -- A parameter of the type is looked up again where it is unknown; to index the arguments beyond
  -- the last one is not defined, and here an exception. The state is idx, the type and third_pass.
  unfoldable pub second_parameter :
      (H.dwarf.Die → Action H Void)
      → List FuncArg
      → ℕ × (List ℕ × Bool)
      → H.dwarf.Die
      → Action H (ℕ × (List ℕ × Bool))
  second_parameter visit info (idx, (func_type, third_pass)) param =
      on_option (get_elem? info idx) (lift (throws none)) (λ arg.
        if H.ida.bytes.is_type_unknown (first_byte arg.type)
        then (do
          found ← add_subroutine_parameter visit ([], third_pass) param
          let (param_type, third) = found
          pure (idx + 1, (func_type ++ param_type, third)))
        else pure (idx + 1, (func_type ++ arg.type, third_pass)))

  unfoldable pub second_return :
      (H.dwarf.Die → Action H Void) → FuncInfo → H.dwarf.Die → Action H (List ℕ × Bool)
  second_return visit info subroutine =
      let func_type = info.basetype ∷ info.cc ∷ [] in
      if H.ida.bytes.is_type_unknown (first_byte info.rettype)
      then add_subroutine_return visit (func_type, false) subroutine
      else pure (func_type ++ info.rettype, false)

  -- The number of arguments is left out where it is 0.
  unfoldable pub rebuild_type :
      (H.dwarf.Die → Action H Void) → ℕ → FuncInfo → H.dwarf.Die → Action H (List ℕ)
  unfolding second_parameter second_return
  rebuild_type visit fuel info subroutine = do
    returned ← second_return visit info subroutine
    let (func_type, third) = returned
    let nb_args = length info.args
    let header = if nb_args == 0 then func_type else H.ida.coding.append_dt func_type nb_args
    rebuilt ←
        fold_children fuel dw_tag_formal_parameter subroutine (second_parameter visit info.args)
          (0, (header, third))
    let (idx, (new_type, third_pass)) = rebuilt
    pure new_type

  unfoldable pub replace_numbered_type : ℕ → List ℕ → List ℕ → Action H Bool
  replace_numbered_type ordinal name type = update {H = H} (λ db.
      elim (H.ida.set_numbered_type db ordinal true name type) [
        | none ↦ (false, db)
        | some db' ↦ (true, db')
      ])

  unfoldable pub second_process_subroutine :
      (H.dwarf.Die → Action H Void) → ℕ → H.dwarf.Die → ℕ → Action H Void
  unfolding rebuild_type replace_numbered_type
  second_process_subroutine visit fuel subroutine ordinal = do
    type_name ← numbered_type_name ordinal
    type ← numbered_type ordinal
    info ← gets {H = H} (λ w. H.ida.build_funcarg_info w.db ordinal)
    on_option type_name (pure tt) (λ name. on_option type (pure tt) (λ _.
        on_option info (pure tt) (λ i. do
          func_type ← rebuild_type visit fuel i subroutine
          ok ← replace_numbered_type ordinal name func_type
          pure tt)))

  unfoldable pub second_process :
      (H.dwarf.Die → Action H Void) → ℕ → H.dwarf.Die → DieCache → Action H Void
  unfolding second_process_structure second_process_subroutine
  second_process visit fuel die cache =
      if is_type cache.type && second_pass cache
      then (do
        tag ← get_tag die
        if tag == dw_tag_structure_type || tag == dw_tag_union_type
            then second_process_structure visit fuel die (ordinal cache)
            else if tag == dw_tag_subroutine_type
            then second_process_subroutine visit fuel die (ordinal cache)
            else pure tt)
      else pure tt

  unfoldable pub second_visit : (H.dwarf.Die → Action H Void) → ℕ → H.dwarf.Die → Action H Void
  unfolding second_process
  second_visit visit fuel die = do
    cache ← get_cache (die ∷ [])
    on_option cache (pure tt) (second_process visit fuel die)

  unfoldable pub do_second_pass : (H.dwarf.Die → Action H Void) → ℕ → Action H Void
  unfolding second_visit
  do_second_pass visit fuel = for_cached fuel 0 (second_visit visit fuel)
