-- ===== src/Tests/FuncRuns.antt =====
-- The theorems about functions, global variables and the whole run at concrete inputs.
use mathlib.Core.List.{Memᴰ}
use idadwarf.Prelude.{
  ℕ, zero, suc, ◌+◌, ◌≡◌, ◌≢◌, ◌↔◌, true, false, Option, none, some, [], ◌∷◌, length, arith,
}
use idadwarf.Cache.{get_type_offset}
use idadwarf.Cache.Calls.{types_pass, code_pass, Calls}
use idadwarf.Cache.Progress.{Grows}
use idadwarf.TypeRetrieval.Passes.{retrieve_types}
use idadwarf.Dwarf.{DwResult, ok, error}
use idadwarf.Dwarf.Checked.{returns}
use idadwarf.Dwarf.Tags.{dw_tag_compile_unit}
use idadwarf.FuncRetrieval.Arguments.{nb_params, length-finished_type}
use idadwarf.FuncRetrieval.Callees.{add_callee_types}
use idadwarf.FuncRetrieval.Calls.{GoesBack, AreAddresses, add_callee_types_ends}
use idadwarf.Globals.{retrieve_globals}
use idadwarf.Globals.Ends.{retrieve_globals_returns}
use idadwarf.Session.{Host, done, exhausted}
use idadwarf.Session.Cached.Ends.{IsForward}
use idadwarf.Traversal.Preorder.{Units, unit, no_unit, die, nothing}
use idadwarf.FuncRetrieval.Sdk.{FuncSdk, Insn}
use idadwarf.FuncRetrieval.Subprograms.{finished_type}
use idadwarf.Holder.Reading.{get_tag, get_child, get_sibling}
use idadwarf.Ida.{FuncArg, FuncInfo}
use idadwarf.Plugin.{retrieve_all}
use idadwarf.Plugin.Cus.{retrieve_cus}
use idadwarf.Plugin.Growth.{retrieve_all-Calls, retrieve_all-Grows, get_type_offset-retrieve_all}
use idadwarf.Plugin.Units.{retrieve_cus_iff}
use idadwarf.Tests.PassRuns.{small_host, int_store, int_world, empty_world, int-IsRooted}
use idadwarf.Tests.TypeRuns.{Types, small_coding}
use idadwarf.Tests.Worlds.{store_netnode, small_dwarf}

abbrev no_args : FuncInfo
no_args = record { basetype = 12; cc = 0; rettype = 1 ∷ []; retloc = 0; args = [] }

abbrev nop : Insn
nop = record { size = 0; itype = 0; operands = [] }

-- Every instruction has one byte.
abbrev back_one : ℕ → Option (ℕ × Insn)
back_one zero = none
back_one (suc a) = some (a, nop)

abbrev pub small_sdk : FuncSdk Types
small_sdk = record {
  get_func = λ db a. some a;
  fpd = λ db f. 0;
  has_frame = λ db f. true;
  set_static = λ db f b. db;
  get_min_spd_ea = λ db f. 0;
  get_spd = λ db f a. 0;
  contains = λ a b. true;
  get_frame = λ db f. none;
  add_stkvar2 = λ db f n o i z. (true, db);
  add_regvar = λ db f a r n c. (true, db);
  make_argloc = λ n. n;
  set_member_tinfo = λ db s m t f. (true, db);
  get_or_guess_member_tinfo = λ db m. none;
  get_best_fit_member = λ db s o. none;
  set_struc_cmt = λ db m c. db;
  get_numbered_fields = λ db o. [];
  print_type_to_one_line = λ db t n f. some t;
  remove_type_pointer = λ t. none;
  guess_func_tinfo = λ db f. none;
  build_funcarg_info = λ db t f. none;
  build_func_type = λ i. none;
  apply_tinfo = λ db a t f. (true, db);
  new_info = no_args;
  no_argloc = 0;
  cm_cc_special = 0xf0;
  cm_cc_speciale = 0xd0;
  same = λ a b. true;
  set_name = λ db a n. db;
  add_long_cmt = λ db a c. db;
  decode_prev_insn = λ db a. back_one a;
  set_cmt = λ db a n. db;
  is_stack_argloc = λ a. true;
  is_cdecl = λ c. true;
  calls_to = λ db a. 5 ∷ [];
  apply_callee_type = λ db a t f. db;
  ua_ana0 = λ db a. nop;
  op_stroff = λ db a n p. db;
  op_enum = λ db a n e. db;
}

small-GoesBack : GoesBack small_sdk
small-GoesBack db zero prev_addr cmd h = absurd (cc h)
small-GoesBack db (suc a) prev_addr cmd h = let e : a ≡ prev_addr = cc in omega arith

-- One entry is seen, at 60.
abbrev seen_host : Host
seen_host = record small_host { get_first_offset = λ n. 60 }

seen-IsForward : IsForward seen_host
seen-IsForward = record { first = λ n. omega arith; next = λ n idx h. (h, omega arith) }

small-AreAddresses : AreAddresses small_sdk
small-AreAddresses db startEA = (omega arith, tt)

add_callee_types_ends_example :
    (add_callee_types {H = seen_host} small_sdk 0x100000000
      (record { node = int_store; db = [] })).0
    ≢ exhausted
add_callee_types_ends_example =
    add_callee_types_ends {H = seen_host} small_sdk 0x100000000
      (record { node = int_store; db = [] }) seen-IsForward small-GoesBack small-AreAddresses
      (omega arith)

-- The DIE 60 has the sibling 61.
base-Units : Units (small_host.dwarf) (60 ∷ []) (60 ∷ 61 ∷ [])
unfolding get_child get_sibling
base-Units = unit 60 (die 60 nothing (die 61 nothing nothing)) no_unit

retrieve_globals_returns_example :
    (retrieve_globals {H = small_host} small_sdk 3 (60 ∷ []) empty_world).0 ≡ done tt
retrieve_globals_returns_example =
    retrieve_globals_returns {H = small_host} small_sdk 3 empty_world base-Units (omega arith)

abbrev one_arg : FuncArg
one_arg = record { argloc = 0; name = none; type = 4 ∷ []; fields = [] }

length-finished_type_example :
    length
      (finished_type small_sdk small_coding 0x40 true false
        (1 ∷ [])
        (one_arg ∷ [])
        (record no_args { args = one_arg ∷ one_arg ∷ [] })).args
    ≡ nb_params true 1 2 + 0
length-finished_type_example =
    length-finished_type small_sdk small_coding 0x40 (1 ∷ []) true false (one_arg ∷ [])
      (record no_args { args = one_arg ∷ one_arg ∷ [] })

retrieve_all-Calls_example :
    Calls store_netnode types_pass int_store
      (retrieve_types {H = small_host} 3 9 (60 ∷ []) int_world).1.node
    × Calls store_netnode code_pass
        (retrieve_types {H = small_host} 3 9 (60 ∷ []) int_world).1.node
        (retrieve_all {H = small_host} small_sdk 3 9 true (60 ∷ []) int_world).1.node
retrieve_all-Calls_example =
    retrieve_all-Calls {H = small_host} small_sdk 3 9 true (60 ∷ []) int_world

get_type_offset-retrieve_all_example :
    get_type_offset store_netnode
      (retrieve_all {H = small_host} small_sdk 3 9 true (60 ∷ []) int_world).1.node
      7
    ≡ get_type_offset store_netnode
        (retrieve_types {H = small_host} 3 9 (60 ∷ []) int_world).1.node
        7
get_type_offset-retrieve_all_example =
    get_type_offset-retrieve_all {H = small_host} small_sdk 3 9 true (60 ∷ []) int_world 7

retrieve_all-Grows_example :
    Grows store_netnode int_store
      (retrieve_all {H = small_host} small_sdk 3 9 true (60 ∷ []) int_world).1.node
retrieve_all-Grows_example =
    retrieve_all-Grows {H = small_host} small_sdk 3 9 true (60 ∷ []) int_world int-IsRooted

retrieve_cus_iff_example :
    Memᴰ {A = ℕ} 11 (retrieve_cus small_dwarf (ok 11 ∷ error 1 ∷ ok 20 ∷ [])) ↔ (
      Memᴰ {A = DwResult ℕ} (ok 11) (ok 11 ∷ error 1 ∷ ok 20 ∷ [])
      × (get_tag small_dwarf 11 ≡ returns dw_tag_compile_unit))
retrieve_cus_iff_example = retrieve_cus_iff small_dwarf (ok 11 ∷ error 1 ∷ ok 20 ∷ []) 11
