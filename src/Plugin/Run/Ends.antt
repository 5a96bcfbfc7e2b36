-- ===== src/Plugin/Run/Ends.antt =====
-- src/idadwarf.cpp, `run`: what it leaves of the files that it opens, and of the cache.
use idadwarf.Prelude.{
  ℕ, ◌≡◌, ◌≢◌, refl, sym, ap, subst, ◌∙◌, Bool, false, Option, none, some, List, [], ◌∷◌, ◌++◌,
  arith,
}
use idadwarf.Dwarf.{Libdwarf}
use idadwarf.FuncRetrieval.Sdk.{FuncSdk}
use idadwarf.Macros.{MacroDetails, MacroSdk, retrieve_macros}
use idadwarf.Plugin.Cus.{retrieve_cus}
use idadwarf.Plugin.Files.{
  Machine, System, Fault, dead_debug, CUsHolder, use_debug, clean, open_dwarf_file,
  load_separate_dwarf_file, elem,
}
use idadwarf.Plugin.Files.Owned.{
  holding, holder, use_debug_live, use_debug_dead, head_elem, clean-holding, Opened, refused, taken,
  separate, loaded, hold_cus_live, load_separate_dwarf_file_lem, separate_new,
  open_dwarf_file-Opened,
}
use idadwarf.Plugin.Run.{
  Ending, returned, thrown, crashed, stuck, Process, find_cus, show, finish, run_macros, run_passes,
  run_file, run,
}
use idadwarf.Session.{Host, Outcome, done, raised, exhausted, Void}

-- The Dwarf_Debug of the input file is finished where another file has replaced it.
unfoldable pub missed : Option (ℕ × ℕ) → ℕ → List Fault
missed none dbg = []
missed (some file) dbg = dead_debug dbg ∷ []

module _ (D : Libdwarf) (M : Machine D.Die) where
  -- The separate file is only asked for where the input file has no compilation unit.
  abbrev pub replacement : (dbg : ℕ) → System → Option (ℕ × ℕ)
  replacement dbg s = elim (retrieve_cus D (M.units dbg)) [
    | [] ↦ separate D M s
    | cu_die ∷ others ↦ none
  ]

  abbrev pub units_found : (fd dbg : ℕ) → System → CUsHolder D.Die × System
  units_found fd dbg s =
      loaded D M fd dbg (retrieve_cus D (M.units dbg)) s (replacement dbg (holding fd dbg s))

  find_cus_lem :
      (fd dbg : ℕ) (s : System) → find_cus D M fd dbg (holding fd dbg s) ≡ units_found fd dbg s
  unfolding find_cus
  find_cus_lem fd dbg s =
      ap
        (λ (r : CUsHolder D.Die × System). elim r.0.dies [
          | [] ↦ load_separate_dwarf_file D M r.0 r.1
          | cu_die ∷ others ↦ (r.0, r.1)
        ])
        (hold_cus_live D M fd dbg s)
      ∙ by_units (retrieve_cus D (M.units dbg)) (retrieve_cus D (M.units dbg))
    where
      by_units :
          (cus dies : List D.Die)
          → (elim cus [
            | [] ↦ load_separate_dwarf_file D M (holder fd dbg dies) (holding fd dbg s)
            | cu_die ∷ others ↦ (holder fd dbg dies, holding fd dbg s)
          ])
            ≡ loaded D M fd dbg dies s
                (elim cus [ [] ↦ separate D M (holding fd dbg s) | cu_die ∷ others ↦ none ])
      by_units [] dies = load_separate_dwarf_file_lem D M fd dbg dies s
      by_units (cu_die ∷ others) dies = refl

  replacement_new :
      (dbg fd' dbg' : ℕ) (s : System)
      → replacement dbg s ≡ some (fd', dbg')
      → elem dbg' s.debugs ≡ false
  replacement_new dbg fd' dbg' s = by_units (retrieve_cus D (M.units dbg))
    where
      by_units :
          (cus : List D.Die)
          → (elim cus [ [] ↦ separate D M s | cu_die ∷ others ↦ none ]) ≡ some (fd', dbg')
          → elem dbg' s.debugs ≡ false
      by_units [] h = separate_new D M s fd' dbg' h
      by_units (cu_die ∷ others) h = absurd (cc h)

  -- The use of the Dwarf_Debug of the input file, once the units are found.
  used_after :
      (fd dbg : ℕ) (dies : List D.Die) (s : System) (r : Option (ℕ × ℕ))
      → elem dbg s.debugs ≡ false
      → ((fd' dbg' : ℕ) → r ≡ some (fd', dbg') → elem dbg' (dbg ∷ s.debugs) ≡ false)
      → use_debug (some dbg) (loaded D M fd dbg dies s r).1
        ≡ record (loaded D M fd dbg dies s r).1 { faults = missed r dbg ++ s.faults }
  unfolding missed
  used_after fd dbg dies s none old new =
      use_debug_live dbg (holding fd dbg s) (head_elem dbg s.debugs)
  used_after fd dbg dies s (some (fd', dbg')) old new =
      let other = new fd' dbg' refl in
      use_debug_dead dbg (holding fd' dbg' s) (dead dbg dbg' s.debugs old other)
    where
      dead :
          (x y : ℕ) (xs : List ℕ)
          → elem x xs ≡ false
          → elem y (x ∷ xs) ≡ false
          → elem x (y ∷ xs) ≡ false
      dead x y xs h k = ground arith

  -- The use of a finished Dwarf_Debug that a run makes once it asks for macros.
  unfoldable pub missed_in : Option (ℕ × ℕ) × System → List Fault
  unfolding missed
  missed_in (none, s) = []
  missed_in (some (fd, dbg), s) = missed (replacement dbg s) dbg

-- Only a run that returns has asked for macros.
unfoldable pub faults_of : Ending → List Fault → List Fault
faults_of returned fs = fs
faults_of (thrown e) fs = []
faults_of crashed fs = []
faults_of stuck fs = []

module _ {H : Host} (F : FuncSdk H.ida.Db) (M : Machine H.dwarf.Die) (macros : ℕ → MacroSdk) where
  show_ends :
      (fd' dbg' : ℕ) (dies : List H.dwarf.Die) (r : Option (List MacroDetails)) (p : Process H)
      (s : System) (fs : List Fault)
      → p.system ≡ record (holding fd' dbg' s) { faults = fs ++ s.faults }
      → (show F M macros (holder fd' dbg' dies) r p).0 ≢ stuck
      → (show F M macros (holder fd' dbg' dies) r p).1.system ≡ record s {
        faults = faults_of (show F M macros (holder fd' dbg' dies) r p).0 fs ++ s.faults;
      }
  unfolding show finish faults_of
  show_ends fd' dbg' dies none p s fs own ns = absurd (ns refl)
  show_ends fd' dbg' dies (some ms) p s fs own ns =
      ap (λ t. (clean (holder fd' dbg' dies) t).1) own
      ∙ clean-holding fd' dbg' dies (record s { faults = fs ++ s.faults })

  run_macros_ends :
      (fuel dbg fd' dbg' : ℕ) (dies : List H.dwarf.Die) (outcome : Outcome Void) (p : Process H)
      (s : System) (fs : List Fault)
      → p.system ≡ holding fd' dbg' s
      → use_debug (some dbg) (holding fd' dbg' s)
        ≡ record (holding fd' dbg' s) { faults = fs ++ s.faults }
      → (run_macros F M macros fuel dbg (holder fd' dbg' dies) outcome p).0 ≢ stuck
      → (run_macros F M macros fuel dbg (holder fd' dbg' dies) outcome p).1.system ≡ record s {
        faults =
            faults_of (run_macros F M macros fuel dbg (holder fd' dbg' dies) outcome p).0 fs
            ++ s.faults;
      }
  unfolding run_macros faults_of
  run_macros_ends fuel dbg fd' dbg' dies (done v) p s fs own used ns =
      show_ends fd' dbg' dies (retrieve_macros (macros dbg) fuel 0) _ s fs
        (ap (use_debug (some dbg)) own ∙ used) ns
  run_macros_ends fuel dbg fd' dbg' dies (raised e) p s fs own used ns =
      ap (λ t. (clean (holder fd' dbg' dies) t).1) own ∙ clean-holding fd' dbg' dies s
  run_macros_ends fuel dbg fd' dbg' dies exhausted p s fs own used ns = absurd (ns refl)

  run_passes_ends :
      (depth fuel dbg fd' dbg' : ℕ) (is_metapc : Bool) (dies : List H.dwarf.Die)
      (node : H.netnode.Node) (p : Process H) (s : System) (fs : List Fault)
      → p.system ≡ holding fd' dbg' s
      → use_debug (some dbg) (holding fd' dbg' s)
        ≡ record (holding fd' dbg' s) { faults = fs ++ s.faults }
      → (run_passes F M macros depth fuel dbg is_metapc (holder fd' dbg' dies) (some node) p).0
        ≢ stuck
      → (run_passes F M macros depth fuel dbg is_metapc
          (holder fd' dbg' dies)
          (some node)
          p).1.system
        ≡ record s {
          faults =
              faults_of
                (run_passes F M macros depth fuel dbg is_metapc
                  (holder fd' dbg' dies)
                  (some node)
                  p).0
                fs
              ++ s.faults;
        }
  unfolding run_passes
  run_passes_ends depth fuel dbg fd' dbg' is_metapc dies node p s fs own used ns =
      run_macros_ends fuel dbg fd' dbg' dies _ _ s fs
        (ap (use_debug (some dbg')) own
          ∙ use_debug_live dbg' (holding fd' dbg' s) (head_elem dbg' s.debugs))
        used ns

  -- What is left after the retrievals over some units, where `fs` are the faults of a run that
  -- returns.
  abbrev Leaves :
      (depth fuel dbg : ℕ) (is_metapc : Bool) (p : Process H) (s : System) (fs : List Fault)
      → CUsHolder H.dwarf.Die × System
      → Option H.netnode.Node
      → Type 0
  Leaves depth fuel dbg is_metapc p s fs x cache =
      let (ending, left) =
        run_passes F M macros depth fuel dbg is_metapc x.0 cache (record p { system = x.1 }) in
      ending ≢ stuck → left.system ≡ record s { faults = faults_of ending fs ++ s.faults }

  loaded-Leaves :
      (depth fuel fd dbg : ℕ) (is_metapc : Bool) (p : Process H) (s : System)
      (dies : List H.dwarf.Die) (node : H.netnode.Node) (r : Option (ℕ × ℕ))
      → elem dbg s.debugs ≡ false
      → ((fd' dbg' : ℕ) → r ≡ some (fd', dbg') → elem dbg' (dbg ∷ s.debugs) ≡ false)
      → Leaves depth fuel dbg is_metapc p s
          (missed r dbg)
          (loaded H.dwarf M fd dbg dies s r)
          (some node)
  loaded-Leaves depth fuel fd dbg is_metapc p s dies node none old new =
      run_passes_ends depth fuel dbg fd dbg is_metapc dies node _ s (missed none dbg) refl
        (used_after H.dwarf M fd dbg dies s none old new)
  loaded-Leaves depth fuel fd dbg is_metapc p s dies node (some (fd', dbg')) old new =
      run_passes_ends depth fuel dbg fd' dbg' is_metapc _ node _ s (missed (some (fd', dbg')) dbg)
        refl (used_after H.dwarf M fd dbg dies s (some (fd', dbg')) old new)

  run_file_ends :
      (depth fuel : ℕ) (is_metapc : Bool) (p : Process H) (s : System) (node : H.netnode.Node)
      (r : Option (ℕ × ℕ) × System)
      → Opened H.dwarf M s r
      → p.cache ≡ some node
      → (run_file F M macros depth fuel is_metapc r p).0 ≢ stuck
      → (run_file F M macros depth fuel is_metapc r p).1.system ≡ record s {
        faults =
            faults_of (run_file F M macros depth fuel is_metapc r p).0 (missed_in H.dwarf M r)
            ++ s.faults;
      }
  unfolding run_file faults_of missed_in
  run_file_ends depth fuel is_metapc p s node r refused c = λ ns. refl
  run_file_ends depth fuel is_metapc p s node r (taken fd dbg f d) c =
      let fs = missed (replacement H.dwarf M dbg (holding fd dbg s)) dbg in
      subst (λ x. Leaves depth fuel dbg is_metapc p s fs x p.cache)
        (sym (find_cus_lem H.dwarf M fd dbg s))
        (subst (Leaves depth fuel dbg is_metapc p s fs (units_found H.dwarf M fd dbg s)) (sym c) (
          loaded-Leaves depth fuel fd dbg is_metapc p s _ node _ d
            (λ fd' dbg' e. replacement_new H.dwarf M dbg fd' dbg' (holding fd dbg s) e)))

  -- Where the cache is there, a run that returns or throws has closed every file that it opened and
  -- finished every Dwarf_Debug that it made, and no other, with no call that is not defined but one:
  -- a run that returns has asked the Dwarf_Debug of the input file for its macros after it was
  -- finished, where that file has no compilation unit and a separate file was opened in its place.
  pub run_leaves :
      (depth fuel : ℕ) (is_metapc : Bool) (p : Process H) (node : H.netnode.Node)
      → p.cache ≡ some node
      → (run F M macros depth fuel is_metapc p).0 ≢ stuck
      → (run F M macros depth fuel is_metapc p).1.system ≡ record (p.system) {
        faults =
            faults_of
              (run F M macros depth fuel is_metapc p).0
              (missed_in H.dwarf M (open_dwarf_file H.dwarf M (some M.input_file_path) p.system))
            ++ p.system.faults;
      }
  unfolding run
  run_leaves depth fuel is_metapc p node =
      run_file_ends depth fuel is_metapc p p.system node
        (open_dwarf_file H.dwarf M (some M.input_file_path) p.system)
        (open_dwarf_file-Opened H.dwarf M (some M.input_file_path) p.system)
