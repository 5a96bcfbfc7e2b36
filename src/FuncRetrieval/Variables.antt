-- ===== src/FuncRetrieval/Variables.antt =====
-- src/func_retrieval.cpp: the variables of a function, and retrieve_var of src/die_utils.cpp.
use Prim.Native.String.{String}
use idadwarf.Prelude.{
  ℕ, zero, suc, ◌+◌, Bool, true, false, Option, none, some, List, [], ◌∷◌, if◌then◌else◌, ◌==◌,
  length, to_word, is_some,
}
use idadwarf.Cache.{VarType, var_useless, var_register, var_stack, var_func_static}
use idadwarf.Dwarf.{Loc, Locdesc}
use idadwarf.Dwarf.Checked.{check_dwerr}
use idadwarf.Dwarf.Tags.{
  dw_tag_formal_parameter, dw_tag_variable, dw_tag_inlined_subroutine, dw_tag_lexical_block,
  dw_at_location,
}
use idadwarf.FuncRetrieval.{get_var_type}
use idadwarf.FuncRetrieval.Frame.{process_stack_var}
use idadwarf.FuncRetrieval.Operands.{set_register_var_operand_type}
use idadwarf.FuncRetrieval.Params.{with_origin_of, get_type_comment, add_to_info}
use idadwarf.FuncRetrieval.Sdk.{FuncSdk}
use idadwarf.Globals.{apply_die_type}
use idadwarf.Holder.Location.{OffsetAreas}
use idadwarf.Ida.{FuncArg}
use idadwarf.Registers.{
  MetapcReg, r_error, reg, add_registers, get_name_from_atom, get_nb_from_atom,
}
use idadwarf.Session.{
  Host, Action, Void, pure, lift, fueled, update, ◌>>=◌, ◌>>◌, on_option, for_children,
  fold_children, get_attr, get_name, cache_useless, cache_var,
}

-- A function with the address of its compilation unit and the areas of its frame base.
pub record Frame : Type 0 where
  pub start_ea : ℕ
  pub cu_low_pc : ℕ
  pub offset_areas : OffsetAreas

-- A parameter that was added is not added twice: NULL is passed on from there.
unfoldable pub seen_info : (nb_args : ℕ) → Option (List FuncArg) → Option (List FuncArg)
seen_info nb_args none = none
seen_info nb_args (some info) = if length info == nb_args then some info else none

unfoldable pub nb_of : Option (List FuncArg) → ℕ
nb_of none = 0
nb_of (some info) = length info

module _ {H : Host} (F : FuncSdk H.ida.Db) where
  -- The register as the place of a parameter, at the start of the function.
  unfoldable pub add_register_parameter :
      List H.dwarf.Die
      → (at_start : Bool) → MetapcReg
      → Option (List FuncArg)
      → Action H (Option (List FuncArg))
  add_register_parameter var at_start r_error info = pure info
  add_register_parameter var at_start (reg nb) info =
      if at_start then add_to_info {H = H} F var (F.make_argloc nb) info else pure info

  unfoldable pub set_register_var :
      ℕ
      → List H.dwarf.Die
      → Locdesc
      → Loc
      → Frame
      → String
      → Option (List FuncArg)
      → Action H (Bool × Option (List FuncArg))
  unfolding add_register_parameter
  set_register_var fuel var locdesc loc frame reg_name info = do
    var_name ← get_name var
    comment ← get_type_comment {H = H} F var
    let start_ea = to_word (locdesc.ld_lopc + frame.cu_low_pc)
    let end_ea = to_word (locdesc.ld_hipc + frame.cu_low_pc)
    ok ←
        update {H = H}
          (λ db. F.add_regvar db frame.start_ea (start_ea, end_ea) reg_name var_name comment)
    info' ←
        add_register_parameter var (frame.start_ea == start_ea)
          (get_nb_from_atom add_registers loc.lr_atom) info
    set_register_var_operand_type {H = H} F fuel var reg_name start_ea end_ea
    pure (ok, info')

  unfoldable pub process_register_var :
      ℕ
      → List H.dwarf.Die
      → Locdesc
      → Loc
      → Frame
      → Option (List FuncArg)
      → Action H (Bool × Option (List FuncArg))
  unfolding set_register_var
  process_register_var fuel var locdesc loc frame info =
      on_option {H = H} (get_name_from_atom add_registers loc.lr_atom) (pure (false, info))
        (λ reg_name.
          if locdesc.ld_from_loclist
          then set_register_var fuel var locdesc loc frame reg_name info
          else pure (false, info))

  unfoldable pub process_func_static_var : List H.dwarf.Die → Loc → Action H Bool
  process_func_static_var var loc = do
    let addr = to_word loc.lr_number
    ok ← apply_die_type var addr
    if ok
        then (do
          update {H = H} (λ db. (tt, F.add_long_cmt db addr "function static variable"))
          pure true)
        else pure false

  -- The switch on the kind of the variable.
  unfoldable pub process_var :
      ℕ
      → List H.dwarf.Die
      → Locdesc
      → Loc
      → Frame
      → VarType
      → Option (List FuncArg)
      → Action H (Bool × Option (List FuncArg))
  unfolding process_register_var process_func_static_var
  process_var fuel var locdesc loc frame var_register info =
      process_register_var fuel var locdesc loc frame info
  process_var fuel var locdesc loc frame var_stack info =
      process_stack_var {H = H} F var locdesc loc frame.start_ea frame.offset_areas info
  process_var fuel var locdesc loc frame var_func_static info = do
    ok ← process_func_static_var var loc
    pure (ok, info)
  process_var fuel var locdesc loc frame _ info = pure (false, info)

  -- Only one location in a location description is supported.
  unfoldable pub process_locs :
      ℕ
      → List H.dwarf.Die
      → Locdesc
      → Frame
      → List Loc
      → Option (List FuncArg)
      → Action H (VarType × (Bool × Option (List FuncArg)))
  unfolding process_var
  process_locs fuel var locdesc frame (loc ∷ []) info = do
    result ← process_var fuel var locdesc loc frame (get_var_type loc.lr_atom) info
    pure (get_var_type loc.lr_atom, result)
  process_locs fuel var locdesc frame _ info = pure (var_useless, (false, info))

  unfoldable pub visit_func_var :
      ℕ
      → List H.dwarf.Die
      → Frame
      → Locdesc
      → Option (List FuncArg)
      → Action H (Option (List FuncArg))
  unfolding process_locs
  visit_func_var fuel var frame locdesc info = do
    var_name ← get_name var
    found ←
        on_option {H = H} var_name (pure (var_useless, (false, info)))
          (λ _. process_locs fuel var locdesc frame locdesc.ld_s info)
    let (type, result) = found
    let (ok, info') = result
    if ok then cache_var type frame.start_ea var else cache_useless var
    pure info'

  -- The loop of retrieve_var. The first result is what `info` points to in the end.
  unfoldable pub visit_locdescs :
      ℕ
      → List H.dwarf.Die
      → Frame
      → (nb_args : ℕ) → List Locdesc
      → (kept passed : Option (List FuncArg)) → Action H (Option (List FuncArg))
  unfolding visit_func_var seen_info
  visit_locdescs fuel var frame nb_args [] kept passed = pure kept
  visit_locdescs fuel var frame nb_args (d ∷ ds) kept passed = do
    info ← visit_func_var fuel var frame d passed
    visit_locdescs fuel var frame nb_args ds (if is_some passed then info else kept)
        (seen_info nb_args info)

  unfoldable pub retrieve_var :
      ℕ → List H.dwarf.Die → Frame → Option (List FuncArg) → Action H (Option (List FuncArg))
  unfolding visit_locdescs nb_of
  retrieve_var fuel var frame info = do
    attrib ← get_attr dw_at_location var
    on_option {H = H} attrib (pure info) (λ a. do
      ds ← lift {H = H} (check_dwerr (H.dwarf.loclist_n a))
      visit_locdescs fuel var frame (nb_of info) ds info info)

  unfoldable pub visit_parameter :
      ℕ → Frame → Option (List FuncArg) → H.dwarf.Die → Action H (Option (List FuncArg))
  unfolding retrieve_var
  visit_parameter fuel frame info die = do
    var ← with_origin_of die
    retrieve_var fuel var frame info

  unfoldable pub visit_local : ℕ → Frame → H.dwarf.Die → Action H Void
  unfolding visit_parameter
  visit_local fuel frame die = do info ← visit_parameter fuel frame none die; pure tt

  -- The recursion goes into inlined subroutines and blocks, to a depth.
  unfoldable pub process_func_vars :
      (depth fuel : ℕ)
      → H.dwarf.Die
      → Frame
      → Option (List FuncArg)
      → Action H (Option (List FuncArg))
  unfolding visit_parameter visit_local
  process_func_vars zero fuel locals frame info = fueled {H = H} none
  process_func_vars (suc depth) fuel locals frame info = do
    let inner = λ (d : H.dwarf.Die). (do
      unused ← process_func_vars depth fuel d frame none
      pure {H = H} tt)
    info' ← fold_children fuel dw_tag_formal_parameter locals (visit_parameter fuel frame) info
    for_children fuel dw_tag_variable locals (visit_local fuel frame)
    for_children fuel dw_tag_inlined_subroutine locals inner
    for_children fuel dw_tag_lexical_block locals inner
    pure info'
