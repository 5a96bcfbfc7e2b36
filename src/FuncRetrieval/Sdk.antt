-- ===== src/FuncRetrieval/Sdk.antt =====
-- The IDA SDK, as far as the retrieval of functions and of global variables calls it: a parameter. A
-- `func_t` stands for its start address, a `struc_t` and a `member_t` for their identifiers.
use Prim.Native.String.{String}
use idadwarf.Prelude.{ℕ, Bool, Option, List}
use idadwarf.Ida.{FuncInfo, TypeInfo}

-- op_t, with the register of the operand and its displacement.
pub data Operand : Type 0 where
  o_void o_imm o_other : Operand
  o_reg o_phrase : ℕ → Operand
  o_displ : (reg addr : ℕ) → Operand

-- cmd, as ua_ana0 leaves it; the operands are the UA_MAXOP ones.
pub record Insn : Type 0 where
  pub size : ℕ
  pub itype : ℕ
  pub operands : List Operand

pub record FuncSdk (Db : Type 0) : Type 0 where
  -- functions
  pub get_func : Db → ℕ → Option ℕ
  pub fpd : Db → ℕ → ℕ
  -- flags & FUNC_FRAME, and the flag FUNC_STATIC
  pub has_frame : Db → ℕ → Bool
  pub set_static : Db → ℕ → Bool → Db
  pub get_min_spd_ea : Db → ℕ → ℕ
  pub get_spd : Db → ℕ → ℕ → ℕ
  pub contains : ℕ × ℕ → ℕ × ℕ → Bool
  -- frames and registers; every call of add_stkvar2 has the flags 0, and `no_info` is NULL
  pub get_frame : Db → ℕ → Option ℕ
  pub add_stkvar2 : Db → ℕ → Option (List ℕ) → ℕ → TypeInfo → ℕ → Bool × Db
  pub add_regvar : Db → ℕ → ℕ × ℕ → String → Option (List ℕ) → Option (List ℕ) → Bool × Db
  pub make_argloc : ℕ → ℕ
  -- members; the fields NULL are empty
  pub set_member_tinfo : Db → (sptr mptr : ℕ) → (type fields : List ℕ) → Bool × Db
  pub get_or_guess_member_tinfo : Db → ℕ → Option (List ℕ × List ℕ)
  pub get_best_fit_member : Db → ℕ → ℕ → Option ℕ
  pub set_struc_cmt : Db → ℕ → List ℕ → Db
  -- types with their fields
  pub get_numbered_fields : Db → ℕ → List ℕ
  pub print_type_to_one_line : Db → List ℕ → Option (List ℕ) → List ℕ → Option (List ℕ)
  pub remove_type_pointer : List ℕ → Option (List ℕ)
  pub guess_func_tinfo : Db → ℕ → Option (List ℕ × List ℕ)
  pub build_funcarg_info : Db → (type fields : List ℕ) → Option FuncInfo
  pub build_func_type : FuncInfo → Option (List ℕ × List ℕ)
  pub apply_tinfo : Db → ℕ → (type fields : List ℕ) → Bool × Db
  -- what the constructors of func_type_info_t and funcarg_info_t leave
  pub new_info : FuncInfo
  pub no_argloc : ℕ
  pub cm_cc_special : ℕ
  pub cm_cc_speciale : ℕ
  -- names, comments, instructions; `same` is that strcmp gives 0
  pub same : String → String → Bool
  pub set_name : Db → ℕ → List ℕ → Db
  pub add_long_cmt : Db → ℕ → String → Db
  pub ua_ana0 : Db → ℕ → Insn
  -- decode_prev_insn, with cmd; `none` is BADADDR
  pub decode_prev_insn : Db → ℕ → Option (ℕ × Insn)
  pub set_cmt : Db → ℕ → Option (List ℕ) → Db
  pub is_stack_argloc : ℕ → Bool
  -- get_cc(cc) == CM_CC_CDECL
  pub is_cdecl : ℕ → Bool
  -- the addresses of the near and far calls among the cross-references to an address
  pub calls_to : Db → ℕ → List ℕ
  pub apply_callee_type : Db → ℕ → (type fields : List ℕ) → Db
  pub op_stroff : Db → ℕ → ℕ → ℕ × ℕ → Db
  pub op_enum : Db → ℕ → ℕ → ℕ → Db
