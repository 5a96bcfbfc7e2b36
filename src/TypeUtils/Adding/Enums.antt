-- ===== src/TypeUtils/Adding/Enums.antt =====
-- src/type_utils.cpp, add_dup_enum: what a call has done, and that it ends.
use idadwarf.Prelude.{
  ℕ, suc, ◌+◌, ◌≤◌, ◌<◌, ◌≡◌, ◌≢◌, Bool, true, false, Option, none, some, List, refl, arith, length,
  if◌then◌else◌, ◌==◌, ==_ne, Bool-cases, Option-cases, ◌⊎◌, inl, inr, ◌∙◌, sym, ap,
}
use idadwarf.Dwarf.{Libdwarf}
use idadwarf.Dwarf.Checked.{Checked, returns, throws}
use idadwarf.IdaUtils.{or_empty}
use idadwarf.IdaUtils.Naming.{suffixed}
use idadwarf.TypeUtils.{EnumCmp, EnumLibrary, badnode, enum_equal, enum_cmp_of_name}
use idadwarf.TypeUtils.Adding.{added, enum_attempt, add_dup_enum}
use idadwarf.TypeUtils.Adding.Rounds.{dup_loop_attempt, dup_loop_ends, added_cases}

module _ (D : Libdwarf) (E : EnumLibrary) where
  -- The enum of a name in the database is the one of the identifier, and counts as equal to the DIE.
  abbrev pub IsEqualEnum : ℕ → E.Db → D.Die → List ℕ → ℕ → Type 0
  IsEqualEnum fuel db enumeration name id =
      ((enum_cmp_of_name D E db (some name)).m_enum_id ≡ id)
      × (enum_equal D fuel (enum_cmp_of_name D E db (some name)) enumeration ≡ some (returns true))

  enum_attempt_cases :
      (fuel : ℕ) (db : E.Db) (enumeration : D.Die) (flag : ℕ) (name : List ℕ) (id : ℕ) (db' : E.Db)
      → enum_attempt D E fuel db enumeration flag name ≡ some (returns (some (id, db')))
      → (id ≢ badnode)
        × ((E.add_enum db (some name) flag ≡ (id, db'))
            ⊎ (IsEqualEnum fuel db enumeration name id × (db' ≡ db)))
  unfolding enum_attempt
  enum_attempt_cases fuel db enumeration flag name id db' h =
      by_value (enum_equal D fuel (enum_cmp_of_name D E db (some name)) enumeration) refl
    where
      by_value :
          (o : Option (Checked Bool))
          → enum_equal D fuel (enum_cmp_of_name D E db (some name)) enumeration ≡ o
          → (id ≢ badnode)
            × ((E.add_enum db (some name) flag ≡ (id, db'))
                ⊎ (IsEqualEnum fuel db enumeration name id × (db' ≡ db)))
      by_value none e =
          let h' : none ≡ some (returns (some (id, db'))) = rw (e, enum_attempt) at h in
          absurd (cc h')
      by_value (some (throws x)) e =
          let h' : some (throws x) ≡ some (returns (some (id, db'))) = rw (e, enum_attempt) at h in
          absurd (cc h')
      by_value (some (returns false)) e =
          let h' : some (returns (added (E.add_enum db (some name) flag)))
              ≡ some (returns (some (id, db'))) =
            rw (e, enum_attempt) at h in
          let (good, p) = added_cases (E.add_enum db (some name) flag) (id, db') (cc) in
          (good, inl p)
      by_value (some (returns true)) e =
          let h' : some (returns (added ((enum_cmp_of_name D E db (some name)).m_enum_id, db)))
              ≡ some (returns (some (id, db'))) =
            rw (e, enum_attempt) at h in
          let (good, p) =
            added_cases ((enum_cmp_of_name D E db (some name)).m_enum_id, db) (id, db') (cc) in
          (good, inr ((cc, e), cc))

  enum_attempt_eq :
      (fuel : ℕ) (db : E.Db) (enumeration : D.Die) (flag : ℕ) (n : List ℕ) (equal : Bool)
      → enum_equal D fuel (enum_cmp_of_name D E db (some n)) enumeration ≡ some (returns equal)
      → enum_attempt D E fuel db enumeration flag n
        ≡ some (
            returns (
              if equal
              then added ((enum_cmp_of_name D E db (some n)).m_enum_id, db)
              else added (E.add_enum db (some n) flag)))
  unfolding enum_attempt
  enum_attempt_eq fuel db enumeration flag n equal c = rw (c, enum_attempt) refl

  -- Only an enum that exists counts as equal.
  enum_equal_exists :
      (fuel : ℕ) (cmp : EnumCmp) (enumeration : D.Die)
      → enum_equal D fuel cmp enumeration ≡ some (returns true)
      → (cmp.m_enum_id == badnode) ≡ false
  unfolding enum_equal
  enum_equal_exists fuel cmp enumeration h = elim (Bool-cases (cmp.m_enum_id == badnode)) [
    | inl e ↦
        let h' : some (returns false) ≡ some (returns true) = rw (e, enum_equal) at h in
        absurd (cc h')
    | inr e ↦ e
  ]

  enum_attempt-some :
      (fuel : ℕ) (db : E.Db) (enumeration : D.Die) (flag : ℕ) (n : List ℕ) (equal : Bool)
      → enum_equal D fuel (enum_cmp_of_name D E db (some n)) enumeration ≡ some (returns equal)
      → (E.add_enum db (some n) flag).0 ≢ badnode
      → enum_attempt D E fuel db enumeration flag n ≢ some (returns none)
  enum_attempt-some fuel db enumeration flag n false c good h =
      let e = sym (enum_attempt_eq fuel db enumeration flag n false c) ∙ h in
      let e' : some (returns (some (E.add_enum db (some n) flag))) ≡ some (returns none) =
        rw (==_ne _ badnode good) at e in
      absurd (cc e')
  enum_attempt-some fuel db enumeration flag n true c good h =
      let e = sym (enum_attempt_eq fuel db enumeration flag n true c) ∙ h in
      let e' : some (returns (some ((enum_cmp_of_name D E db (some n)).m_enum_id, db)))
          ≡ some (returns none) =
        rw (enum_equal_exists fuel _ enumeration c) at e in
      absurd (cc e')

  -- An enum that was added has an identifier, and stands under its name or under its name with some
  -- `_`, which the database then took as new; or an enum of such a longer name already counts as
  -- equal to the DIE, and the database is as it was. It is so whenever the call returns.
  pub add_dup_enum_outcome :
      (fuel rounds : ℕ) (db : E.Db) (enumeration : D.Die) (name : Option (List ℕ)) (flag : ℕ)
      (id : ℕ) (db' : E.Db)
      → add_dup_enum D E fuel rounds db enumeration name flag ≡ some (returns (id, db'))
      → (id ≢ badnode)
        × ((E.add_enum db name flag ≡ (id, db'))
            ⊎ ((k : ℕ) × ((E.add_enum db (some (suffixed (or_empty name) (suc k))) flag ≡ (id, db'))
                  ⊎ (IsEqualEnum fuel db enumeration (suffixed (or_empty name) (suc k)) id
                      × (db' ≡ db)))))
  unfolding add_dup_enum
  add_dup_enum_outcome fuel rounds db enumeration name flag id db' h =
      elim (Option-cases (added (E.add_enum db name flag))) [
        | inl e ↦
            let (k, found) =
              dup_loop_attempt (enum_attempt D E fuel db enumeration flag) rounds (or_empty name)
                (id, db') (rw (e, add_dup_enum) at h) in
            let (good, how) =
              enum_attempt_cases fuel db enumeration flag (suffixed (or_empty name) (suc k)) id db'
                found in
            (good, inr (k, how))
        | inr (r, e) ↦
            let h' : some (returns r) ≡ some (returns (id, db')) = rw (e, add_dup_enum) at h in
            let er : r ≡ (id, db') = cc in
            let (good, p) = added_cases (E.add_enum db name flag) (id, db') (e ∙ ap some er) in
            (good, inl p)
      ]

  -- A call returns, where each comparison with the DIE does, and each name longer than the bound is
  -- accepted: one round more than the bound is enough.
  pub add_dup_enum_ends :
      (fuel bound rounds : ℕ) (db : E.Db) (enumeration : D.Die) (name : Option (List ℕ)) (flag : ℕ)
      → ((n : List ℕ)
          → (equal : Bool) × (enum_equal D fuel (enum_cmp_of_name D E db (some n)) enumeration
              ≡ some (returns equal)))
      → ((n : List ℕ) → bound < length n → (E.add_enum db (some n) flag).0 ≢ badnode)
      → bound + 1 ≤ rounds
      → (r : ℕ × E.Db) × (add_dup_enum D E fuel rounds db enumeration name flag ≡ some (returns r))
  unfolding add_dup_enum
  add_dup_enum_ends fuel bound rounds db enumeration name flag compares accepts enough =
      elim (Option-cases (added (E.add_enum db name flag))) [
        | inl e ↦
            let (r, run) =
              dup_loop_ends (enum_attempt D E fuel db enumeration flag) bound answers long rounds
                (or_empty name) (omega arith) (omega arith) in
            (r, rw (e, add_dup_enum) run)
        | inr (r, e) ↦ (r, rw (e, add_dup_enum) refl)
      ]
    where
      answers :
          (n : List ℕ)
          → (o : Option (ℕ × E.Db)) × (enum_attempt D E fuel db enumeration flag n
              ≡ some (returns o))
      answers n =
          let (equal, c) = compares n in (_, enum_attempt_eq fuel db enumeration flag n equal c)

      long :
          (n : List ℕ)
          → bound < length n
          → enum_attempt D E fuel db enumeration flag n ≢ some (returns none)
      long n b h =
          let (equal, c) = compares n in
          enum_attempt-some fuel db enumeration flag n equal c (accepts n b) h
