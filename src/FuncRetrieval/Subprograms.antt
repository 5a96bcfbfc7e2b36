-- ===== src/FuncRetrieval/Subprograms.antt =====
-- src/func_retrieval.cpp: subprograms and labels.
use idadwarf.Prelude.{
  ℕ, ◌+◌, ◌^◌, ◌-◌, Bool, true, false, not, ◌&&◌, Option, none, some, List, [], ◌∷◌, if◌then◌else◌,
  ◌==◌, ltb, length, is_some, badaddr, to_word,
}
use idadwarf.Dwarf.Tags.{
  dw_tag_subprogram, dw_tag_label, dw_tag_unspecified_parameters, dw_at_low_pc, dw_at_external,
  dw_at_type, dw_at_frame_base,
}
use idadwarf.FuncRetrieval.Params.{with_origin_of}
use idadwarf.FuncRetrieval.Sdk.{FuncSdk}
use idadwarf.FuncRetrieval.Variables.{process_func_vars}
use idadwarf.Holder.Location.{OffsetAreas, no_areas, set_stack_base, frame_base_offsets_from}
use idadwarf.Holder.Reading.{addr_from, flag_from, get_cu_offset}
use idadwarf.Ida.{FuncArg, FuncInfo, types}
use idadwarf.IdaUtils.{is_type_struni_rec}
use idadwarf.Session.{
  Host, Action, Void, pure, lift, fueled, gets, update, ◌>>=◌, ◌>>◌, on_option, first_child,
  get_attr, get_name, get_tag, get_type_ordinal, in_cache, new_die, cache_useless, cache_func,
}
use idadwarf.TypeRetrieval.Lookup.{returned, numbered_type, new_type_of}
use idadwarf.Til.{TypeCoding, first_byte}

-- The last element is taken away.
unfoldable pub pop_back : {A : Type 0} → List A → List A
pop_back [] = []
pop_back (x ∷ []) = []
pop_back (x ∷ y ∷ xs) = x ∷ pop_back (y ∷ xs)

-- ea - cu_low_pc, in 32 bits
abbrev relative : (ea cu_low_pc : ℕ) → ℕ
relative ea cu_low_pc = to_word (ea + (2 ^ 32 - to_word cu_low_pc))

module _ {Db : Type 0} (F : FuncSdk Db) (bt_ptr : ℕ) where
  -- handle_struni_return, where the return type is a structure or a union: a pointer to the result
  -- is the first parameter.
  unfoldable pub struni_return : List ℕ → FuncInfo → FuncInfo
  struni_return return_type info = record info {
    rettype = bt_ptr ∷ return_type;
    args =
        record {
          argloc = F.no_argloc;
          name = some (b'r' ∷ b'e' ∷ b's' ∷ b'u' ∷ b'l' ∷ b't' ∷ []);
          type = bt_ptr ∷ return_type;
          fields = [];
        }
        ∷ info.args;
  }

  -- The function type from the parameters that were found, some of which are in registers.
  unfoldable pub special_type : (struni is_void ellipsis : Bool) → List ℕ → List FuncArg → FuncInfo
  unfolding struni_return
  special_type struni is_void ellipsis return_type args =
      let info = record F.new_info { args = args; rettype = return_type; retloc = 0 } in
      let returned =
        if struni
        then struni_return return_type info
        else if is_void
        then info
        else record info { retloc = F.make_argloc 0 } in
      record returned { cc = if ellipsis then F.cm_cc_speciale else F.cm_cc_special }

  -- The function type that was guessed, with the return type; a parameter for the ellipsis goes.
  unfoldable pub guessed_type :
      (cm_cc_ellipsis : ℕ)
      → (struni ellipsis : Bool) → List ℕ
      → (nb_found : ℕ) → FuncInfo
      → FuncInfo
  unfolding struni_return pop_back
  guessed_type cm_cc_ellipsis struni ellipsis return_type nb_found old_info =
      let info = record old_info {
        rettype = return_type;
        cc = if ellipsis then cm_cc_ellipsis else old_info.cc;
      } in
      let returned = if struni then struni_return return_type info else info in
      if ellipsis && length old_info.args == nb_found + 1
      then record returned { args = pop_back returned.args }
      else returned

-- The new type of the function, from the guessed one.
unfoldable pub finished_type :
    {Db : Type 0}
    → FuncSdk Db
    → TypeCoding
    → (cm_cc_ellipsis : ℕ) → (ellipsis struni : Bool) → List ℕ
    → List FuncArg
    → FuncInfo
    → FuncInfo
unfolding special_type guessed_type
finished_type F T cm_cc_ellipsis ellipsis struni return_type info old_info =
    if ltb (length old_info.args) (length info)
    then special_type F T.bt_ptr struni (first_byte return_type == T.btf_void) ellipsis return_type
        info
    else guessed_type F T.bt_ptr cm_cc_ellipsis struni ellipsis return_type (length info) old_info

module _ {H : Host} where
  -- get_addr_from_attr
  unfoldable pub addr_of : ℕ → List H.dwarf.Die → Action H ℕ
  addr_of a chain = do
    attrib ← get_attr a chain
    addr ← lift {H = H} (addr_from H.dwarf attrib)
    pure (to_word addr)

  -- The return type, where it is known.
  unfoldable pub return_type_of : H.dwarf.Die → Action H (Option (List ℕ))
  return_type_of subprogram = do
    attrib ← get_attr dw_at_type (subprogram ∷ [])
    on_option {H = H} attrib (pure (some (H.ida.coding.btf_void ∷ []))) (λ _. do
      ordinal ← get_type_ordinal (subprogram ∷ [])
      on_option {H = H} ordinal (pure none) (λ o. do
        type ← numbered_type {H = H} o
        on_option {H = H} type (pure none)
            (λ t. do made ← new_type_of {H = H} (some t) o; pure (some made))))

  unfoldable pub process_label :
      H.dwarf.Die → (set_name : H.ida.Db → ℕ → List ℕ → H.ida.Db) → Action H Void
  unfolding addr_of
  process_label label set_name = do
    chain ← with_origin_of label
    name ← get_name chain
    attrib ← get_attr dw_at_low_pc chain
    on_option {H = H} name (pure tt) (λ n. on_option {H = H} attrib (pure tt) (λ _. do
      low_pc ← addr_of dw_at_low_pc chain
      update {H = H} (λ db. (tt, set_name db low_pc n))))
    cache_useless chain

  module _ (F : FuncSdk H.ida.Db) where
    unfoldable pub apply_finished :
        ℕ → (funptr : ℕ) → List ℕ → (ellipsis : Bool) → List FuncArg → FuncInfo → Action H Bool
    unfolding finished_type
    apply_finished fuel funptr return_type ellipsis info old_info = do
      db ← gets {H = H} (λ w. w.db)
      struni ←
          fueled {H = H}
            (returned (is_type_struni_rec H.ida.coding (types H.ida) fuel db return_type))
      on_option {H = H}
          (F.build_func_type (
            finished_type F H.ida.coding H.ida.bytes.cm_cc_ellipsis ellipsis struni return_type info
              old_info))
          (pure false) (λ t. update {H = H} (λ db. F.apply_tinfo db funptr t.0 t.1))

    unfoldable pub finish_with_type :
        ℕ → H.dwarf.Die → (funptr : ℕ) → List FuncArg → List ℕ → Action H Bool
    unfolding apply_finished
    finish_with_type fuel subprogram funptr info return_type = do
      ellipsis ← first_child fuel dw_tag_unspecified_parameters subprogram
      guessed ← gets {H = H} (λ w. F.guess_func_tinfo w.db funptr)
      on_option {H = H} guessed (pure false) (λ t. do
        old_info ← gets {H = H} (λ w. F.build_funcarg_info w.db t.0 t.1)
        on_option {H = H} old_info (pure false)
            (apply_finished fuel funptr return_type (is_some ellipsis) info))

    unfoldable pub finish_subprogram : ℕ → H.dwarf.Die → (funptr : ℕ) → List FuncArg → Action H Bool
    unfolding finish_with_type return_type_of
    finish_subprogram fuel subprogram funptr info = do
      return_type ← return_type_of subprogram
      on_option {H = H} return_type (pure false) (finish_with_type fuel subprogram funptr info)

    -- The stack base of a function without a frame pointer.
    unfoldable pub stack_base : (funptr cu_low_pc : ℕ) → Action H OffsetAreas
    stack_base funptr cu_low_pc = do
      framed ← gets {H = H} (λ w. F.has_frame w.db funptr)
      ea ← gets {H = H} (λ w. F.get_min_spd_ea w.db funptr)
      min_spd ← gets {H = H} (λ w. F.get_spd w.db funptr ea)
      pure (
          if framed
          then no_areas
          else if ea == badaddr
          then no_areas
          else set_stack_base no_areas min_spd (relative ea cu_low_pc))

    unfoldable pub process_function : (depth fuel : ℕ) → H.dwarf.Die → (funptr : ℕ) → Action H Bool
    unfolding addr_of stack_base
    process_function depth fuel subprogram funptr = do
      cu_offset ← lift {H = H} (get_cu_offset H.dwarf subprogram)
      cu ← new_die cu_offset
      cu_low_pc ← addr_of dw_at_low_pc (cu ∷ [])
      external ← get_attr dw_at_external (subprogram ∷ [])
      is_external ← lift {H = H} (flag_from H.dwarf external)
      update {H = H} (λ db. (tt, F.set_static db funptr (not is_external)))
      areas ← stack_base funptr cu_low_pc
      frame_base ← get_attr dw_at_frame_base (subprogram ∷ [])
      offset_areas ← lift {H = H} (frame_base_offsets_from H.dwarf areas frame_base)
      info ←
          process_func_vars {H = H} F depth fuel subprogram
            (record { start_ea = funptr; cu_low_pc = cu_low_pc; offset_areas = offset_areas })
            (some [])
      ok ← finish_subprogram fuel subprogram funptr (elim info [ none ↦ [] | some args ↦ args ])
      if ok then cache_func {H = H} funptr (subprogram ∷ []) >> pure true else pure false

    -- Functions that may be inlined are ignored, and addresses where no function starts.
    unfoldable pub process_subprogram : (depth fuel : ℕ) → H.dwarf.Die → Action H Void
    unfolding process_function addr_of
    process_subprogram depth fuel subprogram = do
      attrib ← get_attr dw_at_low_pc (subprogram ∷ [])
      ok ← on_option {H = H} attrib (pure false) (λ _. do
        low_pc ← addr_of dw_at_low_pc (subprogram ∷ [])
        funptr ← gets {H = H} (λ w. F.get_func w.db low_pc)
        on_option {H = H} funptr (pure false)
            (λ f. if f == low_pc then process_function depth fuel subprogram f else pure false))
      if ok then pure tt else cache_useless (subprogram ∷ [])

    unfoldable pub visit_func_die : (depth fuel : ℕ) → H.dwarf.Die → Action H Void
    unfolding process_subprogram process_label
    visit_func_die depth fuel die = do
      cached ← in_cache (die ∷ [])
      if cached then pure tt else (do
        tag ← get_tag die
        if tag == dw_tag_subprogram
            then process_subprogram depth fuel die
            else if tag == dw_tag_label
            then process_label die F.set_name
            else pure tt)
