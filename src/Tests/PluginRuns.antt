-- ===== src/Tests/PluginRuns.antt =====
-- The theorems about whole runs, their files and the cache, at concrete inputs.
use idadwarf.Prelude.{
  ℕ, ◌+◌, ◌<◌, ◌≡◌, ◌≢◌, refl, sym, ◌∙◌, true, false, some, List, [], ◌∷◌, arith,
}
use idadwarf.Dwarf.{DwResult, ok}
use idadwarf.Plugin.{retrieve_all}
use idadwarf.TypeRetrieval.Passes.{retrieve_types}
use idadwarf.TypeRetrieval.SecondPass.{do_second_pass}
use idadwarf.TypeRetrieval.Pointers.{update_ptr_types}
use idadwarf.FuncRetrieval.Callees.{retrieve_funcs}
use idadwarf.Globals.{retrieve_globals}
use idadwarf.Session.{for_dies, ◌>>=◌, pure, lift, fueled, gets}
use idadwarf.Session.Cached.{for_cached, for_entries, set_current_die, set_current_cache}
use idadwarf.Traversal.{do_dies_traversal}
use idadwarf.Macros.{retrieve_macros}
use idadwarf.Plugin.Cus.{retrieve_cus}
use idadwarf.Plugin.Files.{
  use_debug, clean, hold_cus, dealloc_dies, dwarf_finish, Machine, dead_debug, open_dwarf_file,
  elem,
}
use idadwarf.Plugin.Run.{Ending, returned, crashed, stuck, Process, run}
use idadwarf.Plugin.Run.Ends.{run_leaves, faults_of, missed_in}
use idadwarf.Plugin.Run.Again.{run-run_crashed}
use idadwarf.Tests.FuncRuns.{small_sdk}
use idadwarf.Tests.MacroRuns.{small_macros}
use idadwarf.Tests.PassRuns.{small_host}
use idadwarf.Tests.Worlds.{empty_store}

-- A number that is not in a list.
abbrev sum : List ℕ → ℕ
sum [] = 0
sum (x ∷ xs) = x + sum xs

elem-above : (xs : List ℕ) (n : ℕ) → sum xs < n → elem n xs ≡ false
elem-above [] n h = refl
elem-above (x ∷ xs) n h = ground (arith, elem-above xs n)

elem-new : (xs : List ℕ) (fd : ℕ) → some (sum xs + 1) ≡ some fd → elem fd xs ≡ false
elem-new xs fd e = elem-above xs fd (ground arith)

elem-made :
    (xs : List ℕ) (dbg : ℕ) → ◌≡◌ {A = DwResult ℕ} (ok (sum xs + 1)) (ok dbg) → elem dbg xs ≡ false
elem-made xs dbg e = elem-above xs dbg (ground arith)

-- The input file has no compilation unit, and a separate file is asked for.
abbrev small_machine : Machine ℕ
small_machine = record {
  input_file_path = b'a' ∷ [];
  askfile_c = some (b'b' ∷ []);
  open_file = λ files path. some (sum files + 1);
  dwarf_init = λ debugs fd. ok (sum debugs + 1);
  units = λ dbg. [];
  new_file = λ files path fd e. elem-new files fd e;
  new_debug = λ debugs fd dbg e. elem-made debugs dbg e;
}

abbrev fresh_process : Process small_host
fresh_process = record {
  system = record { files = []; debugs = []; faults = [] };
  cache = some empty_store;
  db = [];
  shown = [];
}

abbrev small_run : Process small_host → Ending × Process small_host
small_run p = run small_sdk small_machine (λ dbg. small_macros) 3 9 true p

run_returns : (small_run fresh_process).0 ≡ returned
unfolding run retrieve_all retrieve_types do_second_pass update_ptr_types retrieve_funcs
    retrieve_globals for_dies do_dies_traversal for_cached for_entries set_current_die
    set_current_cache ◌>>=◌ pure lift fueled gets retrieve_macros retrieve_cus use_debug clean
    hold_cus dealloc_dies dwarf_finish
run_returns = refl

run_not_stuck : (small_run fresh_process).0 ≢ stuck
run_not_stuck e = let no : returned ≡ stuck = sym run_returns ∙ e in absurd (cc no)

run_leaves_example :
    (small_run fresh_process).1.system
    ≡ record { files = []; debugs = []; faults = dead_debug 1 ∷ [] }
unfolding run retrieve_all retrieve_types do_second_pass update_ptr_types retrieve_funcs
    retrieve_globals for_dies do_dies_traversal for_cached for_entries set_current_die
    set_current_cache ◌>>=◌ pure lift fueled gets retrieve_macros retrieve_cus use_debug clean
    hold_cus dealloc_dies dwarf_finish open_dwarf_file missed_in faults_of
run_leaves_example =
    run_leaves small_sdk small_machine (λ dbg. small_macros) 3 9 true fresh_process empty_store refl
      run_not_stuck

opens_again :
    (open_dwarf_file small_host.dwarf small_machine
      (some (b'a' ∷ []))
      (small_run fresh_process).1.system).0
    ≡ some (1, 1)
unfolding run retrieve_all retrieve_types do_second_pass update_ptr_types retrieve_funcs
    retrieve_globals for_dies do_dies_traversal for_cached for_entries set_current_die
    set_current_cache ◌>>=◌ pure lift fueled gets retrieve_macros retrieve_cus use_debug clean
    hold_cus dealloc_dies dwarf_finish open_dwarf_file
opens_again = refl

run-run_crashed_example : (small_run (small_run fresh_process).1).0 ≡ crashed
run-run_crashed_example =
    run-run_crashed small_sdk small_machine (λ dbg. small_macros) 3 9 true fresh_process (1, 1)
      run_returns opens_again 3 9
