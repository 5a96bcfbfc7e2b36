-- ===== src/FuncRetrieval/Frame.antt =====
-- src/func_retrieval.cpp: variables in the stack frame.
use idadwarf.Prelude.{ℕ, Bool, true, false, Option, List, [], if◌then◌else◌, ◌==◌}
use idadwarf.Dwarf.{Loc, Locdesc}
use idadwarf.FuncRetrieval.{stack_offset}
use idadwarf.FuncRetrieval.Params.{add_to_info}
use idadwarf.FuncRetrieval.Sdk.{FuncSdk}
use idadwarf.Holder.Location.{OffsetAreas}
use idadwarf.Ida.{FuncArg, TypeInfo, no_info, enum_info, struc_info}
use idadwarf.Members.{fill_typeinfo, member_size}
use idadwarf.Session.{
  Host, Action, Void, pure, gets, update, ◌>>=◌, ◌>>◌, on_option, get_name, get_type_ordinal,
}

module _ {H : Host} (F : FuncSdk H.ida.Db) where
  unfoldable pub member_of_name : (fptr : ℕ) → Option (List ℕ) → Action H (Option ℕ)
  member_of_name fptr var_name = gets {H = H} (λ w. H.ida.get_member_by_name w.db fptr var_name)

  unfoldable pub guessed_tinfo : ℕ → Action H (Option (List ℕ × List ℕ))
  guessed_tinfo mptr = gets {H = H} (λ w. F.get_or_guess_member_tinfo w.db mptr)

  unfoldable pub set_stack_var_complex_type : (fptr : ℕ) → Option (List ℕ) → Action H Void
  unfolding member_of_name guessed_tinfo
  set_stack_var_complex_type fptr var_name = do
    mptr ← member_of_name fptr var_name
    on_option {H = H} mptr (pure tt) (λ m. do
      guessed ← guessed_tinfo m
      on_option {H = H} guessed (pure tt)
          (λ t. do set ← update {H = H} (λ db. F.set_member_tinfo db fptr m t.0 t.1); pure tt))

  unfoldable pub set_stack_var_type_cmt : (fptr : ℕ) → Option (List ℕ) → Action H Void
  unfolding member_of_name guessed_tinfo
  set_stack_var_type_cmt fptr var_name = do
    mptr ← member_of_name fptr var_name
    on_option {H = H} mptr (pure tt) (λ m. do
      guessed ← guessed_tinfo m
      on_option {H = H} guessed (pure tt) (λ t. do
        printed ← gets {H = H} (λ w. F.print_type_to_one_line w.db t.0 var_name t.1)
        on_option {H = H} printed (pure tt)
            (λ comment. update {H = H} (λ db. (tt, F.set_struc_cmt db m comment)))))

  -- The type of a variable that was added, unless it is an enum, a structure or a union.
  unfoldable pub set_simple_type : (fptr : ℕ) → Option (List ℕ) → List ℕ → Action H Bool
  unfolding member_of_name
  set_simple_type fptr var_name type = do
    mptr ← member_of_name fptr var_name
    on_option {H = H} mptr (pure true)
        (λ m. update {H = H} (λ db. F.set_member_tinfo db fptr m type []))

  unfoldable pub set_added_type : (fptr : ℕ) → Option (List ℕ) → TypeInfo → List ℕ → Action H Bool
  unfolding set_simple_type set_stack_var_complex_type
  set_added_type fptr var_name no_info type = set_simple_type fptr var_name type
  set_added_type fptr var_name (enum_info tid serial) type = do
    set_stack_var_complex_type fptr var_name
    pure true
  set_added_type fptr var_name (struc_info tid) type = do
    set_stack_var_complex_type fptr var_name
    pure true

  unfoldable pub add_typed_var :
      (funptr fptr : ℕ)
      → Option (List ℕ)
      → (offset : ℕ) → TypeInfo
      → List ℕ
      → (size : ℕ) → Action H Bool
  unfolding set_added_type set_stack_var_type_cmt
  add_typed_var funptr fptr var_name offset info type size = do
    added ← update {H = H} (λ db. F.add_stkvar2 db funptr var_name offset info size)
    ok ← (if added then set_added_type fptr var_name info type else pure false)
    set_stack_var_type_cmt fptr var_name
    pure ok

  -- Without a type only the name is set.
  unfoldable pub add_untyped_var : (funptr : ℕ) → Option (List ℕ) → (offset : ℕ) → Action H Bool
  add_untyped_var funptr var_name offset =
      update {H = H} (λ db. F.add_stkvar2 db funptr var_name offset no_info 0)

  unfoldable pub set_stack_var : List H.dwarf.Die → (funptr fptr offset : ℕ) → Action H Bool
  unfolding add_typed_var add_untyped_var
  set_stack_var var funptr fptr offset = do
    var_name ← get_name var
    ordinal ← get_type_ordinal var
    on_option {H = H} ordinal (add_untyped_var funptr var_name offset) (λ o. do
      filled ← gets {H = H} (λ w. fill_typeinfo H.ida w.db o)
      on_option {H = H} filled.1 (add_untyped_var funptr var_name offset) (λ type. do
        size ← gets {H = H} (λ w. member_size H.ida w.db filled.0 type)
        if size == H.ida.badsize
            then add_untyped_var funptr var_name offset
            else add_typed_var funptr fptr var_name offset filled.0 type size))

  -- The offset that was found: whether the variable was added, and the arguments.
  unfoldable pub add_at_offset :
      List H.dwarf.Die
      → (funptr fptr offset : ℕ) → Option (List FuncArg)
      → Action H (Bool × Option (List FuncArg))
  unfolding set_stack_var
  add_at_offset var funptr fptr offset info = do
    ok ← set_stack_var var funptr fptr offset
    info' ← add_to_info {H = H} F var offset info
    pure (ok, info')

  -- No variable of the frame may have the name yet.
  unfoldable pub process_stack_var :
      List H.dwarf.Die
      → Locdesc
      → Loc
      → (funptr : ℕ) → OffsetAreas
      → Option (List FuncArg)
      → Action H (Bool × Option (List FuncArg))
  unfolding add_at_offset member_of_name
  process_stack_var var locdesc loc funptr offset_areas info = do
    var_name ← get_name var
    frame ← gets {H = H} (λ w. F.get_frame w.db funptr)
    on_option {H = H} frame (pure (false, info)) (λ fptr. do
      existing ← member_of_name fptr var_name
      fpd ← gets {H = H} (λ w. F.fpd w.db funptr)
      on_option {H = H} existing
          (on_option {H = H} (stack_offset F.contains fpd offset_areas locdesc loc)
            (pure (false, info)) (λ offset. add_at_offset var funptr fptr offset info))
          (λ _. pure (false, info)))
