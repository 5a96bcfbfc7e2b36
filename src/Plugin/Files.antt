-- ===== src/Plugin/Files.antt =====
-- src/idadwarf.cpp and src/die_utils.cpp: the files with debug information, and CUsHolder, the holder
-- of the compilation units, which owns an open file. The operating system and libdwarf are
-- parameters; what they hold for the plugin is a state, with the calls that are not defined.
use idadwarf.Prelude.{
  ℕ, ◌≡◌, Bool, true, false, Option, none, some, List, [], ◌∷◌, ◌++◌, if◌then◌else◌, ◌==◌,
}
use idadwarf.Dwarf.{Libdwarf, DwResult, ok, no_entry, error}
use idadwarf.Plugin.Cus.{retrieve_cus}
pub mod Owned

abbrev pub elem : ℕ → List ℕ → Bool
elem x [] = false
elem x (y ∷ ys) = if x == y then true else elem x ys

abbrev pub remove : ℕ → List ℕ → List ℕ
remove x [] = []
remove x (y ∷ ys) = if x == y then ys else y ∷ remove x ys

-- A call that is not defined: close of a descriptor that is not open, and a use of a Dwarf_Debug that
-- is finished or NULL.
pub data Fault : Type 0 where
  bad_close dead_debug : ℕ → Fault
  null_debug : Fault

-- The open descriptors, the Dwarf_Debugs between dwarf_init and dwarf_finish, and the faults so far,
-- the last one first.
pub record System : Type 0 where
  pub files : List ℕ
  pub debugs : List ℕ
  pub faults : List Fault

-- What IDA, the operating system and libdwarf answer. A new descriptor is not open, and a new
-- Dwarf_Debug is not in use.
pub record Machine (Die : Type 0) : Type 0 where
  pub input_file_path : List ℕ
  pub askfile_c : Option (List ℕ)
  pub open_file : List ℕ → List ℕ → Option ℕ
  pub dwarf_init : List ℕ → ℕ → DwResult ℕ
  pub units : ℕ → List (DwResult Die)
  pub new_file :
      (files path : List ℕ) (fd : ℕ) → open_file files path ≡ some fd → elem fd files ≡ false
  pub new_debug :
      (debugs : List ℕ) (fd dbg : ℕ) → dwarf_init debugs fd ≡ ok dbg → elem dbg debugs ≡ false

fault : Fault → System → System
fault f s = record s { faults = f ∷ s.faults }

unfoldable pub close : ℕ → System → System
unfolding fault
close fd s =
    if elem fd s.files then record s { files = remove fd s.files } else fault (bad_close fd) s

-- A call of libdwarf with a Dwarf_Debug.
unfoldable pub use_debug : Option ℕ → System → System
unfolding fault
use_debug none s = fault null_debug s
use_debug (some dbg) s = if elem dbg s.debugs then s else fault (dead_debug dbg) s

unfoldable pub dwarf_finish : Option ℕ → System → System
unfolding fault
dwarf_finish none s = fault null_debug s
dwarf_finish (some dbg) s =
    if elem dbg s.debugs
    then record s { debugs = remove dbg s.debugs }
    else fault (dead_debug dbg) s

-- dwarf_dealloc of each DIE
unfoldable pub dealloc_dies : {Die : Type 0} → Option ℕ → List Die → System → System
unfolding use_debug
dealloc_dies m_dbg [] s = s
dealloc_dies m_dbg (die ∷ dies) s = dealloc_dies m_dbg dies (use_debug m_dbg s)

close_file : Option ℕ → System → System
unfolding close
close_file none s = s
close_file (some fd) s = close fd s

-- CUsHolder; `none` is NULL, and -1 for the descriptor.
pub record CUsHolder (Die : Type 0) : Type 0 where
  pub m_dbg : Option ℕ
  pub m_fd : Option ℕ
  pub dies : List Die

module _ {Die : Type 0} where
  unfoldable pub clean : CUsHolder Die → System → CUsHolder Die × System
  unfolding dealloc_dies dwarf_finish close_file
  clean cus s = (
    record { m_dbg = none; m_fd = none; dies = [] },
    close_file cus.m_fd (dwarf_finish cus.m_dbg (dealloc_dies cus.m_dbg cus.dies s)),
  )

  unfoldable pub reset : (dbg fd : ℕ) → CUsHolder Die → System → CUsHolder Die × System
  unfolding clean
  reset dbg fd cus s =
      let (cleaned, s') = clean cus s in (record cleaned { m_dbg = some dbg; m_fd = some fd }, s')

module _ (D : Libdwarf) (M : Machine D.Die) where
  open D use {Die}

  inited : ℕ → DwResult ℕ → System → Option (ℕ × ℕ) × System
  unfolding close
  inited fd (ok dbg) s = (some (fd, dbg), record s { debugs = dbg ∷ s.debugs })
  inited fd no_entry s = (none, close fd s)
  inited fd (error e) s = (none, close fd s)

  opened : Option ℕ → System → Option (ℕ × ℕ) × System
  unfolding inited
  opened none s = (none, s)
  opened (some fd) s = inited fd (M.dwarf_init s.debugs fd) (record s { files = fd ∷ s.files })

  -- The descriptor and the Dwarf_Debug; `none` is a descriptor of -1.
  unfoldable pub open_dwarf_file : Option (List ℕ) → System → Option (ℕ × ℕ) × System
  unfolding opened
  open_dwarf_file none s = (none, s)
  open_dwarf_file (some elf_path) s = opened (M.open_file s.files elf_path) s

  units_of : Option ℕ → List (DwResult Die)
  units_of none = []
  units_of (some dbg) = M.units dbg

  -- retrieve_cus on a holder: what is found is added.
  unfoldable pub hold_cus : CUsHolder Die → System → CUsHolder Die × System
  unfolding units_of use_debug
  hold_cus cus s =
      (record cus { dies = cus.dies ++ retrieve_cus D (units_of cus.m_dbg) }, use_debug cus.m_dbg s)

  load_opened : CUsHolder Die → Option (ℕ × ℕ) → System → CUsHolder Die × System
  unfolding reset hold_cus
  load_opened cus none s = (cus, s)
  load_opened cus (some (fd, dbg)) s = let (cus', s') = reset dbg fd cus s in hold_cus cus' s'

  unfoldable pub load_separate_dwarf_file : CUsHolder Die → System → CUsHolder Die × System
  unfolding open_dwarf_file load_opened
  load_separate_dwarf_file cus s = elim M.askfile_c [
    | none ↦ (cus, s)
    | some res ↦ let (file, s') = open_dwarf_file (some res) s in load_opened cus file s'
  ]
