-- ===== src/Plugin/Files/Owned.antt =====
-- src/die_utils.cpp, CUsHolder, and src/idadwarf.cpp, open_dwarf_file: what is taken and given back.
use idadwarf.Prelude.{
  ℕ, ◌≡◌, refl, sym, ap, subst, ◌∙◌, inl, inr, true, false, Option, none, some, List, [], ◌∷◌,
  ==_refl, Option-cases, arith,
}
use idadwarf.Dwarf.{Libdwarf, DwResult, ok, no_entry, error}
use idadwarf.Plugin.Cus.{retrieve_cus}
use idadwarf.Plugin.Files.{
  Machine, System, dead_debug, CUsHolder, use_debug, clean, reset, dealloc_dies, dwarf_finish,
  close, close_file, open_dwarf_file, opened, inited, units_of, hold_cus, load_opened,
  load_separate_dwarf_file, elem, remove, fault,
}

-- A system with one more file, and a Dwarf_Debug for it.
abbrev pub holding : (fd dbg : ℕ) → System → System
holding fd dbg s = record s { files = fd ∷ s.files; debugs = dbg ∷ s.debugs }

abbrev pub holder : {Die : Type 0} → (fd dbg : ℕ) → List Die → CUsHolder Die
holder fd dbg dies = record { m_dbg = some dbg; m_fd = some fd; dies = dies }

pub use_debug_live : (dbg : ℕ) (s : System) → elem dbg s.debugs ≡ true → use_debug (some dbg) s ≡ s
unfolding use_debug
use_debug_live dbg s h = rw h refl

pub use_debug_dead :
    (dbg : ℕ) (s : System)
    → elem dbg s.debugs ≡ false
    → use_debug (some dbg) s ≡ record s { faults = dead_debug dbg ∷ s.faults }
unfolding use_debug fault
use_debug_dead dbg s h = rw h refl

dealloc_dies_live :
    {Die : Type 0} (dbg : ℕ) (dies : List Die) (s : System)
    → elem dbg s.debugs ≡ true
    → dealloc_dies (some dbg) dies s ≡ s
unfolding dealloc_dies
dealloc_dies_live dbg [] s h = refl
dealloc_dies_live dbg (d ∷ dies) s h =
    ap (dealloc_dies (some dbg) dies) (use_debug_live dbg s h) ∙ dealloc_dies_live dbg dies s h

clean_live :
    {Die : Type 0} (fd dbg : ℕ) (dies : List Die) (s : System)
    → elem dbg s.debugs ≡ true
    → elem fd s.files ≡ true
    → (clean (holder fd dbg dies) s).1
      ≡ record s { files = remove fd s.files; debugs = remove dbg s.debugs }
unfolding clean dwarf_finish close_file close
clean_live fd dbg dies s d f = rw (dealloc_dies_live dbg dies s d, d, f) refl

pub head_elem : (x : ℕ) (xs : List ℕ) → elem x (x ∷ xs) ≡ true
head_elem x xs = rw (==_refl x) refl

remove_head : (x : ℕ) (xs : List ℕ) → remove x (x ∷ xs) ≡ xs
remove_head x xs = rw (==_refl x) refl

-- The holder of the only new file gives back all that was taken.
pub clean-holding :
    {Die : Type 0} (fd dbg : ℕ) (dies : List Die) (s : System)
    → (clean (holder fd dbg dies) (holding fd dbg s)).1 ≡ s
clean-holding fd dbg dies s =
    clean_live fd dbg dies (holding fd dbg s) (head_elem dbg s.debugs) (head_elem fd s.files)
    ∙ (rw (remove_head fd s.files, remove_head dbg s.debugs) refl)

close-open : (fd : ℕ) (s : System) → close fd (record s { files = fd ∷ s.files }) ≡ s
unfolding close
close-open fd s = rw (head_elem fd s.files, remove_head fd s.files) refl

second_elem : (x y : ℕ) (xs : List ℕ) → elem y (x ∷ xs) ≡ false → elem x (y ∷ x ∷ xs) ≡ true
second_elem x y xs h = ground arith

remove_second : (x y : ℕ) (xs : List ℕ) → elem y (x ∷ xs) ≡ false → remove x (y ∷ x ∷ xs) ≡ y ∷ xs
remove_second x y xs h = ground arith

-- The first holder gives its file back when the second one is taken.
clean-second :
    {Die : Type 0} (fd dbg fd' dbg' : ℕ) (dies : List Die) (s : System)
    → elem fd' (fd ∷ s.files) ≡ false
    → elem dbg' (dbg ∷ s.debugs) ≡ false
    → (clean (holder fd dbg dies) (holding fd' dbg' (holding fd dbg s))).1 ≡ holding fd' dbg' s
clean-second fd dbg fd' dbg' dies s f d =
    clean_live fd dbg dies (holding fd' dbg' (holding fd dbg s)) (second_elem dbg dbg' s.debugs d)
      (second_elem fd fd' s.files f)
    ∙ (rw (remove_second fd fd' s.files f, remove_second dbg dbg' s.debugs d) refl)

module _ (D : Libdwarf) (M : Machine D.Die) where
  -- A file that was not opened leaves nothing, and one that was opened is new.
  pub data Opened (s : System) : Option (ℕ × ℕ) × System → Type 0 where
    refused : Opened s (none, s)
    taken :
        (fd dbg : ℕ)
        → elem fd s.files ≡ false
        → elem dbg s.debugs ≡ false
        → Opened s (some (fd, dbg), holding fd dbg s)

  inited-Opened :
      (s : System) (fd : ℕ)
      → elem fd s.files ≡ false
      → (r : DwResult ℕ) → M.dwarf_init s.debugs fd ≡ r
      → Opened s (inited D M fd r (record s { files = fd ∷ s.files }))
  unfolding inited
  inited-Opened s fd f (ok dbg) e = taken fd dbg f (M.new_debug s.debugs fd dbg e)
  inited-Opened s fd f no_entry e = subst (λ t. Opened s (none, t)) (sym (close-open fd s)) refused
  inited-Opened s fd f (error x) e = subst (λ t. Opened s (none, t)) (sym (close-open fd s)) refused

  opened-Opened :
      (s : System) (elf_path : List ℕ)
      → (r : Option ℕ) → M.open_file s.files elf_path ≡ r
      → Opened s (opened D M r s)
  unfolding opened
  opened-Opened s elf_path none e = refused
  opened-Opened s elf_path (some fd) e =
      inited-Opened s fd (M.new_file s.files elf_path fd e) (M.dwarf_init s.debugs fd) refl

  pub open_dwarf_file-Opened :
      (elf_path : Option (List ℕ)) (s : System) → Opened s (open_dwarf_file D M elf_path s)
  unfolding open_dwarf_file
  open_dwarf_file-Opened none s = refused
  open_dwarf_file-Opened (some elf_path) s =
      opened-Opened s elf_path (M.open_file s.files elf_path) refl

  -- The file that is asked for, if it is opened.
  abbrev pub separate : System → Option (ℕ × ℕ)
  separate s = elim M.askfile_c [ none ↦ none | some res ↦ (open_dwarf_file D M (some res) s).0 ]

  pub hold_cus_live :
      (fd dbg : ℕ) (s : System)
      → hold_cus D M (holder fd dbg []) (holding fd dbg s)
        ≡ (holder fd dbg (retrieve_cus D (M.units dbg)), holding fd dbg s)
  unfolding hold_cus units_of
  hold_cus_live fd dbg s = rw (use_debug_live dbg (holding fd dbg s) (head_elem dbg s.debugs)) refl

  abbrev pub loaded : (fd dbg : ℕ) → List D.Die → System → Option (ℕ × ℕ) → CUsHolder D.Die × System
  loaded fd dbg dies s none = (holder fd dbg dies, holding fd dbg s)
  loaded fd dbg dies s (some (fd', dbg')) =
      (holder fd' dbg' (retrieve_cus D (M.units dbg')), holding fd' dbg' s)

  load_opened_lem :
      (fd dbg : ℕ) (dies : List D.Die) (s : System) (r : Option (ℕ × ℕ) × System)
      → Opened (holding fd dbg s) r
      → load_opened D M (holder fd dbg dies) r.0 r.1 ≡ loaded fd dbg dies s r.0
  unfolding load_opened reset clean
  load_opened_lem fd dbg dies s r refused = refl
  load_opened_lem fd dbg dies s r (taken fd' dbg' f d) =
      ap (hold_cus D M (holder fd' dbg' [])) (clean-second fd dbg fd' dbg' dies s f d)
      ∙ hold_cus_live fd' dbg' s

  pub load_separate_dwarf_file_lem :
      (fd dbg : ℕ) (dies : List D.Die) (s : System)
      → load_separate_dwarf_file D M (holder fd dbg dies) (holding fd dbg s)
        ≡ loaded fd dbg dies s (separate (holding fd dbg s))
  unfolding load_separate_dwarf_file
  load_separate_dwarf_file_lem fd dbg dies s = elim (Option-cases M.askfile_c) [
    | inl e ↦ rw e refl
    | inr (res, e) ↦ rw e (
        load_opened_lem fd dbg dies s (open_dwarf_file D M (some res) (holding fd dbg s))
          (open_dwarf_file-Opened (some res) (holding fd dbg s)))
  ]

  -- What was opened with a Dwarf_Debug in use has another one.
  pub separate_new :
      (s : System) (fd dbg : ℕ) → separate s ≡ some (fd, dbg) → elem dbg s.debugs ≡ false
  separate_new s fd dbg = answered M.askfile_c
    where
      new_of :
          (r : Option (ℕ × ℕ) × System)
          → Opened s r
          → r.0 ≡ some (fd, dbg)
          → elem dbg s.debugs ≡ false
      new_of r refused h = absurd (cc h)
      new_of r (taken fd' dbg' f d) h =
          let same : dbg' ≡ dbg = ap (λ o. elim o [ none ↦ dbg | some q ↦ q.1 ]) h in rw (← same) d

      answered :
          (asked : Option (List ℕ))
          → (elim asked [ none ↦ none | some res ↦ (open_dwarf_file D M (some res) s).0 ])
            ≡ some (fd, dbg)
          → elem dbg s.debugs ≡ false
      answered none h = absurd (cc h)
      answered (some res) h =
          new_of (open_dwarf_file D M (some res) s) (open_dwarf_file-Opened (some res) s) h
