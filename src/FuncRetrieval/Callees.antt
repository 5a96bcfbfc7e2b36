-- ===== src/FuncRetrieval/Callees.antt =====
-- src/func_retrieval.cpp: the arguments at the calls of a function, and retrieve_funcs.
use idadwarf.Prelude.{
  ℕ, zero, suc, ◌+◌, not, ◌||◌, Option, none, some, List, [], ◌∷◌, if◌then◌else◌, ◌==◌, ltb, length,
  badaddr, get_elem?,
}
use idadwarf.Cache.{die_func, ordinal}
use idadwarf.FuncRetrieval.Sdk.{FuncSdk, Operand, o_phrase, o_displ, Insn}
use idadwarf.FuncRetrieval.Subprograms.{visit_func_die}
use idadwarf.Ida.{FuncArg, FuncInfo}
use idadwarf.Session.{Host, Action, Void, update_fueled, ◌>>◌, try_visit, for_dies}
use idadwarf.Session.Cached.{for_entries}
use idadwarf.TypeRetrieval.Lookup.{returned}

abbrev pub nn_call : ℕ
nn_call = 16

abbrev nn_mov : ℕ
nn_mov = 122

-- The number of esp in the register file.
abbrev r_esp : ℕ
r_esp = 4

-- The offset from esp of the first operand.
unfoldable pub esp_offset : List Operand → Option ℕ
esp_offset (o_displ r addr ∷ ops) =
    if addr == badaddr then none else if r == r_esp then some addr else none
esp_offset (o_phrase r ∷ ops) = if r == r_esp then some 0 else none
esp_offset _ = none

-- The index of the first stack offset that is the offset.
unfoldable pub index_of : (offset idx : ℕ) → List ℕ → Option ℕ
index_of offset idx [] = none
index_of offset idx (o ∷ offsets) =
    if o == offset then some idx else index_of offset (idx + 1) offsets

module _ {Db : Type 0} (F : FuncSdk Db) where
  unfoldable pub stack_offsets : List FuncArg → List ℕ
  stack_offsets [] = []
  stack_offsets (arg ∷ args) =
      if F.is_stack_argloc arg.argloc then arg.argloc ∷ stack_offsets args else stack_offsets args

  unfoldable pub found_offsets : Option FuncInfo → List ℕ
  unfolding stack_offsets
  found_offsets none = []
  found_offsets (some finfo) = if F.is_cdecl finfo.cc then stack_offsets finfo.args else []

  -- The index among the stack offsets is taken as one among all the arguments.
  arg_name : List FuncArg → ℕ → Option (List ℕ)
  arg_name args idx = elim (get_elem? args idx) [ none ↦ none | some arg ↦ arg.name ]

  -- The comment for an instruction, and the number of arguments found until then.
  pub comment_insn : List FuncArg → List ℕ → (prev_addr : ℕ) → Insn → ℕ × Db → ℕ × Db
  unfolding esp_offset index_of arg_name
  comment_insn args offsets prev_addr cmd (args_found, db) =
      if cmd.itype == nn_mov
      then elim (esp_offset cmd.operands) [
        | none ↦ (args_found, db)
        | some stack_offset ↦ elim (index_of stack_offset 0 offsets) [
          | none ↦ (args_found, db)
          | some idx ↦ (args_found + 1, F.set_cmt db prev_addr (arg_name args idx))
        ]
      ]
      else (args_found, db)

  -- The do loop, backwards from the call; `none`: the fuel ran out.
  unfoldable pub comment_args :
      ℕ → (start_ea : ℕ) → List FuncArg → List ℕ → (addr : ℕ) → ℕ × Db → Option Db
  unfolding comment_insn
  comment_args zero start_ea args offsets addr (args_found, db) = none
  comment_args (suc fuel) start_ea args offsets addr (args_found, db) =
      elim (F.decode_prev_insn db addr) [
        | none ↦ some db
        | some (prev_addr, cmd) ↦
            let found = comment_insn args offsets prev_addr cmd (args_found, db) in
            let rest = comment_args fuel start_ea args offsets prev_addr found in
            if cmd.itype == nn_call
            then some db
            else if not (found.0 == length offsets) || ltb prev_addr start_ea
            then rest
            else some found.1
      ]

  unfoldable pub comment_call :
      ℕ → (start_ea : ℕ) → Option FuncInfo → (call_addr : ℕ) → Db → Option Db
  unfolding comment_args found_offsets
  comment_call fuel start_ea none call_addr db = some db
  comment_call fuel start_ea (some finfo) call_addr db =
      let offsets = found_offsets (some finfo) in
      if length offsets == 0
      then some db
      else comment_args fuel start_ea finfo.args offsets call_addr (0, db)

  unfoldable pub my_apply_callee_type : ℕ → Db → (funptr call_addr : ℕ) → Option Db
  unfolding comment_call
  my_apply_callee_type fuel db funptr call_addr = elim (F.guess_func_tinfo db funptr) [
    | none ↦ some db
    | some (type, fields) ↦
        comment_call fuel funptr (F.build_funcarg_info db type fields) call_addr db
  ]

  -- The loop over the calls.
  unfoldable pub apply_to_calls :
      ℕ → (funptr : ℕ) → (type fields : List ℕ) → List ℕ → Db → Option Db
  unfolding my_apply_callee_type
  apply_to_calls fuel funptr type fields [] db = some db
  apply_to_calls fuel funptr type fields (from ∷ calls) db =
      elim (my_apply_callee_type fuel (F.apply_callee_type db from type fields) funptr from) [
        | none ↦ none
        | some db' ↦ apply_to_calls fuel funptr type fields calls db'
      ]

  unfoldable pub callee_types : ℕ → (startEA : ℕ) → Db → Option (Unit {0} × Db)
  unfolding apply_to_calls
  callee_types fuel startEA db = elim (F.get_func db startEA) [
    | none ↦ some (tt, db)
    | some funptr ↦ elim (F.guess_func_tinfo db funptr) [
      | none ↦ some (tt, db)
      | some (type, fields) ↦
          elim (apply_to_calls fuel funptr type fields (F.calls_to db startEA) db) [
            | none ↦ none
            | some db' ↦ some (tt, db')
          ]
    ]
  ]

module _ {H : Host} (F : FuncSdk H.ida.Db) where
  unfoldable pub add_callee_types : ℕ → Action H Void
  add_callee_types fuel =
      for_entries {H = H} fuel die_func
        (λ cache. update_fueled {H = H} (λ db. returned (callee_types F fuel (ordinal cache) db)))

  unfoldable pub retrieve_funcs : (depth fuel : ℕ) → List H.dwarf.Die → Action H Void
  unfolding add_callee_types
  retrieve_funcs depth fuel cus = do
    for_dies {H = H} fuel cus (λ d. try_visit {H = H} (visit_func_die {H = H} F depth fuel d))
    add_callee_types fuel
