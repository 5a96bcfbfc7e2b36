-- ===== src/Tests/Worlds.antt =====
-- Small stand-ins for the SDK's netnode and for libdwarf, to run the model on.
use idadwarf.Prelude.{
  false, Bool, true, ◌&&◌, ℕ, Option, none, some, List, [], ◌∷◌, if◌then◌else◌, ◌==◌, refl, lookup,
}
use idadwarf.Netnode.{Netnode}
use idadwarf.Cache.{DieCache}
use idadwarf.Dwarf.{Libdwarf, Locdesc, DwResult, ok, no_entry}

-- Two sparse arrays as functions.
pub record Store : Type 0 where
  pub sup : ℕ → Option DieCache
  pub alt : ℕ → ℕ → Option ℕ

abbrev pub empty_store : Store
empty_store = record { sup = λ _. none; alt = λ _ _. none }

abbrev supset : Store → ℕ → DieCache → Store
supset n i e = record n { sup = λ j. if i == j then some e else n.sup j }

abbrev altset : Store → ℕ → ℕ → ℕ → Store
altset n t i x = record n {
  alt = λ u j. if t == u then (if i == j then some x else n.alt u j) else n.alt u j;
}

abbrev pub store_netnode : Netnode DieCache
store_netnode = record {
  Node = Store;
  supval = λ n i. n.sup i;
  supset = supset;
  altval = λ n t i. n.alt t i;
  altset = altset;
  supval_supset = λ n i j e. refl;
  supval_altset = λ n t i x j. refl;
  altval_supset = λ n i e t j. refl;
  altval_altset = λ n t u i x j. refl;
}

-- DIEs are their offsets: 11 is a compilation unit with the children 20, 30 and 40, and 30 has the
-- child 31. The enumeration 50 has the children 51 and 52. Attributes are numbers; 490 is the type
-- of 20, an offset within the unit.
abbrev entry {ℓ} : {A : Type ℓ} → List (ℕ × A) → ℕ → DwResult A
entry table d = elim (lookup d table) [ none ↦ no_entry | some x ↦ ok x ]

abbrev first_byte_loc : Locdesc
first_byte_loc = record {
  ld_lopc = 0;
  ld_hipc = 0;
  ld_s = record { lr_atom = 0x23; lr_number = 0 } ∷ [];
  ld_from_loclist = false;
}

abbrev pub small_dwarf : Libdwarf
small_dwarf = record {
  Die = ℕ;
  Attribute = ℕ;
  offdie = λ o. ok o;
  diename = entry ((20, b'a' ∷ []) ∷ (31, b'x' ∷ []) ∷ (51, b'A' ∷ []) ∷ (52, b'B' ∷ []) ∷ []);
  attr = λ d a.
      if a == 0x49
      then entry ((20, 490) ∷ []) d
      else if a == 0x1c
      then entry ((51, 510) ∷ (52, 520) ∷ []) d
      else if a == 0x38
      then entry ((31, 310) ∷ []) d
      else no_entry;
  attrlist = λ d. if d == 20 then ok 2 else no_entry;
  formaddr = λ a. no_entry;
  whatform = λ a. if a == 490 then ok 0x13 else no_entry;
  global_formref = λ a. no_entry;
  formref = λ a. if a == 490 then ok 19 else no_entry;
  formudata = entry ((510, 1) ∷ (520, 2) ∷ []);
  formsdata = λ a. no_entry;
  formflag = λ a. no_entry;
  loclist_n = entry ((310, first_byte_loc ∷ []) ∷ []);
  die_cu_offset_range = λ d. ok 11;
  cu_dieoffset_given_die = λ d. ok 11;
  bytesize = λ d. ok 4;
  dieoffset = λ d. ok d;
  tag = entry (
      (11, 0x11)
      ∷ (20, 0x34)
      ∷ (30, 0x13)
      ∷ (31, 0x0d)
      ∷ (40, 0x34)
      ∷ (50, 0x04)
      ∷ (51, 0x28)
      ∷ (52, 0x28)
      ∷ []);
  child = entry ((11, 20) ∷ (30, 31) ∷ (50, 51) ∷ []);
  siblingof = entry ((20, 30) ∷ (30, 40) ∷ (51, 52) ∷ []);
}

abbrev pub same_bytes : List ℕ → List ℕ → Bool
same_bytes [] [] = true
same_bytes (x ∷ xs) (y ∷ ys) = (x == y) && same_bytes xs ys
same_bytes _ _ = false
