-- ===== src/TypeUtils/Equivalence.antt =====
-- src/type_utils.cpp, get_equivalent_typedef_ordinal: a typedef of the database with the name of a
-- typedef DIE, and with an equal structure, union or enum behind it. A typedef DIE without a name is
-- looked up by the empty one.
use idadwarf.Prelude.{
  ℕ, ◌≡◌, ◌≢◌, Bool, true, false, Option, none, some, List, [], ◌∷◌, refl, if◌then◌else◌, ◌==◌,
  ne_of_==, Bool-cases, Option-cases, ◌⊎◌, inl, inr,
}
use idadwarf.Netnode.{Netnode}
use idadwarf.Cache.{DieCache, get_type_offset}
use idadwarf.Dwarf.{Libdwarf}
use idadwarf.Dwarf.Checked.{Checked, returns, throws, ◌>>=◌, check_dwerr}
use idadwarf.Holder.Reading.{name_of}
use idadwarf.Til.{TypeCoding, TypeLibrary, first_byte}
use idadwarf.IdaUtils.{or_empty, get_typedef_name}
use idadwarf.TypeUtils.{
  EnumLibrary, StrucLibrary, badnode, enum_equal, struc_equal, enum_cmp_of_name, struc_cmp_of_name,
}

-- What the function reads: the type library, the enums, the structures, and the cache of DIEs.
module _ (T : TypeCoding) (L : TypeLibrary) (E : EnumLibrary) (S : StrucLibrary)
    (N : Netnode DieCache) (D : Libdwarf) (fuel : ℕ) (types : L.Db) (enums : E.Db) (strucs : S.Db)
    (cache : N.Node) where
  open L use {get_numbered_type, get_named_type, get_type_ordinal}

  -- The DIE of the type's ordinal, compared.
  unfoldable pub cached_equal : (D.Die → Option (Checked Bool)) → ℕ → Option (Checked Bool)
  cached_equal compare_die type_ordinal = elim (get_type_offset N cache type_ordinal) [
    | none ↦ some (returns false)
    | some offset ↦ elim (check_dwerr (D.offdie offset)) [
      | throws e ↦ some (throws e)
      | returns die ↦ compare_die die
    ]
  ]

  -- The comparison with the structure or union, or with the enum, of a name.
  unfoldable pub struc_matches : ℕ → List ℕ → Option (Checked Bool)
  struc_matches type_ordinal name =
      if S.get_struc_id strucs name == badnode
      then some (returns false)
      else cached_equal (struc_equal D fuel (struc_cmp_of_name D S strucs (some name))) type_ordinal

  unfoldable pub enum_matches : ℕ → List ℕ → Option (Checked Bool)
  enum_matches type_ordinal name =
      if E.get_enum enums name == badnode
      then some (returns false)
      else cached_equal (enum_equal D fuel (enum_cmp_of_name D E enums (some name))) type_ordinal

  -- The name behind the existing typedef; without one, nothing is found.
  unfoldable pub behind : (List ℕ → Option (Checked Bool)) → List ℕ → Option (Checked Bool)
  behind matches existing_type = elim (get_typedef_name T L types existing_type) [
    | none ↦ some (returns false)
    | some name ↦ matches name
  ]

  unfoldable pub typedef_matches : ℕ → List ℕ → List ℕ → Option (Checked Bool)
  typedef_matches type_ordinal type existing_type =
      if T.is_type_typedef (first_byte existing_type)
      then (if T.is_type_struni (first_byte type)
          then behind (struc_matches type_ordinal) existing_type
          else if T.is_type_enum (first_byte type)
          then behind (enum_matches type_ordinal) existing_type
          else some (returns false))
      else some (returns false)

  -- The ordinal of the existing typedef, 0 if there is none.
  unfoldable pub get_equivalent_typedef_ordinal : D.Die → ℕ → Option (Checked ℕ)
  get_equivalent_typedef_ordinal typedef_die type_ordinal = elim (name_of D (typedef_die ∷ [])) [
    | throws e ↦ some (throws e)
    | returns typedef_name ↦ elim (get_numbered_type types type_ordinal) [
      | none ↦ some (returns 0)
      | some type ↦ elim (get_named_type types (or_empty typedef_name)) [
        | none ↦ some (returns 0)
        | some (_, existing_type) ↦ elim (typedef_matches type_ordinal type existing_type) [
          | none ↦ none
          | some r ↦ some (do
            same ← r
            returns (if same then get_type_ordinal types (or_empty typedef_name) else 0))
        ]
      ]
    ]
  ]

  -- A DIE of the type's ordinal, in the cache, with a property.
  abbrev pub Cached : ℕ → (D.Die → Type 0) → Type 0
  Cached type_ordinal P =
      (offset : ℕ) × (die : D.Die) × (get_type_offset N cache type_ordinal ≡ some offset)
      × (check_dwerr (D.offdie offset) ≡ returns die)
      × P die

  cached_equal-Cached :
      (compare_die : D.Die → Option (Checked Bool)) (type_ordinal : ℕ)
      → cached_equal compare_die type_ordinal ≡ some (returns true)
      → Cached type_ordinal (λ die. compare_die die ≡ some (returns true))
  unfolding cached_equal
  cached_equal-Cached compare_die type_ordinal h =
      elim (Option-cases (get_type_offset N cache type_ordinal)) [
        | inl e ↦
            let h' : some (returns false) ≡ some (returns true) = rw (e, cached_equal) at h in
            absurd (cc h')
        | inr (offset, e) ↦ by_die offset e (check_dwerr (D.offdie offset)) refl
      ]
    where
      by_die :
          (offset : ℕ)
          → get_type_offset N cache type_ordinal ≡ some offset
          → (r : Checked D.Die) → check_dwerr (D.offdie offset) ≡ r
          → Cached type_ordinal (λ die. compare_die die ≡ some (returns true))
      by_die offset e (throws x) f =
          let h' : some (throws x) ≡ some (returns true) = rw (e, f, cached_equal) at h in
          absurd (cc h')
      by_die offset e (returns die) f = (offset, die, e, f, rw (e, f, cached_equal) at h)

  -- The named structure or union exists, and counts as equal to the cached DIE of the type.
  abbrev pub StrucEqual : ℕ → List ℕ → Type 0
  StrucEqual type_ordinal name =
      (S.get_struc_id strucs name ≢ badnode)
      × Cached type_ordinal (λ die.
        struc_equal D fuel (struc_cmp_of_name D S strucs (some name)) die ≡ some (returns true))

  abbrev pub EnumEqual : ℕ → List ℕ → Type 0
  EnumEqual type_ordinal name =
      (E.get_enum enums name ≢ badnode)
      × Cached type_ordinal (λ die.
        enum_equal D fuel (enum_cmp_of_name D E enums (some name)) die ≡ some (returns true))

  struc_matches-StrucEqual :
      (type_ordinal : ℕ) (name : List ℕ)
      → struc_matches type_ordinal name ≡ some (returns true)
      → StrucEqual type_ordinal name
  unfolding struc_matches
  struc_matches-StrucEqual type_ordinal name h =
      elim (Bool-cases (S.get_struc_id strucs name == badnode)) [
        | inl e ↦
            let h' : some (returns false) ≡ some (returns true) = rw (e, struc_matches) at h in
            absurd (cc h')
        | inr e ↦ (ne_of_== _ _ e, cached_equal-Cached _ type_ordinal (rw (e, struc_matches) at h))
      ]

  enum_matches-EnumEqual :
      (type_ordinal : ℕ) (name : List ℕ)
      → enum_matches type_ordinal name ≡ some (returns true)
      → EnumEqual type_ordinal name
  unfolding enum_matches
  enum_matches-EnumEqual type_ordinal name h =
      elim (Bool-cases (E.get_enum enums name == badnode)) [
        | inl e ↦
            let h' : some (returns false) ≡ some (returns true) = rw (e, enum_matches) at h in
            absurd (cc h')
        | inr e ↦ (ne_of_== _ _ e, cached_equal-Cached _ type_ordinal (rw (e, enum_matches) at h))
      ]

  behind_name :
      (matches : List ℕ → Option (Checked Bool)) (existing_type : List ℕ)
      → behind matches existing_type ≡ some (returns true)
      → (name : List ℕ) × (get_typedef_name T L types existing_type ≡ some name)
        × (matches name ≡ some (returns true))
  unfolding behind
  behind_name matches existing_type h =
      elim (Option-cases (get_typedef_name T L types existing_type)) [
        | inl e ↦
            let h' : some (returns false) ≡ some (returns true) = rw (e, behind) at h in
            absurd (cc h')
        | inr (name, e) ↦ (name, e, rw (e, behind) at h)
      ]

  -- The existing type is a typedef of something that is equal to the DIE of the type.
  abbrev pub Matches : ℕ → List ℕ → List ℕ → Type 0
  Matches type_ordinal type existing_type =
      (T.is_type_typedef (first_byte existing_type) ≡ true)
      × (name : List ℕ) × (get_typedef_name T L types existing_type ≡ some name)
      × (((T.is_type_struni (first_byte type) ≡ true) × StrucEqual type_ordinal name)
          ⊎ ((T.is_type_enum (first_byte type) ≡ true) × EnumEqual type_ordinal name))

  typedef_matches-Matches :
      (type_ordinal : ℕ) (type existing_type : List ℕ)
      → typedef_matches type_ordinal type existing_type ≡ some (returns true)
      → Matches type_ordinal type existing_type
  unfolding typedef_matches
  typedef_matches-Matches type_ordinal type existing_type h =
      elim (Bool-cases (T.is_type_typedef (first_byte existing_type))) [
        | inr e ↦
            let h' : some (returns false) ≡ some (returns true) = rw (e, typedef_matches) at h in
            absurd (cc h')
        | inl e ↦ elim (Bool-cases (T.is_type_struni (first_byte type))) [
          | inl s ↦
              let (name, known, m) =
                behind_name (struc_matches type_ordinal) existing_type
                  (rw (e, s, typedef_matches) at h) in
              (e, name, known, inl (s, struc_matches-StrucEqual type_ordinal name m))
          | inr s ↦ elim (Bool-cases (T.is_type_enum (first_byte type))) [
            | inl u ↦
                let (name, known, m) =
                  behind_name (enum_matches type_ordinal) existing_type
                    (rw (e, s, u, typedef_matches) at h) in
                (e, name, known, inr (u, enum_matches-EnumEqual type_ordinal name m))
            | inr u ↦
                let h' : some (returns false) ≡ some (returns true) =
                  rw (e, s, u, typedef_matches) at h in
                absurd (cc h')
          ]
        ]
      ]

  -- What was found by the name, where the comparison has a result.
  typedef_found :
      (typedef_die : D.Die) (type_ordinal ordinal : ℕ)
      → get_equivalent_typedef_ordinal typedef_die type_ordinal ≡ some (returns ordinal)
      → ordinal ≢ 0
      → (nm : Option (List ℕ)) (type : List ℕ) (found : ℕ × List ℕ)
      → name_of D (typedef_die ∷ []) ≡ returns nm
      → get_numbered_type types type_ordinal ≡ some type
      → get_named_type types (or_empty nm) ≡ some found
      → (r : Option (Checked Bool)) → typedef_matches type_ordinal type found.1 ≡ r
      → (ordinal ≡ get_type_ordinal types (or_empty nm)) × Matches type_ordinal type found.1
  unfolding get_equivalent_typedef_ordinal
  typedef_found typedef_die type_ordinal ordinal h nz nm type found e f g none m =
      let h' : none ≡ some (returns ordinal) =
        rw (e, f, g, m, get_equivalent_typedef_ordinal) at h in
      absurd (cc h')
  typedef_found typedef_die type_ordinal ordinal h nz nm type found e f g (some (throws x)) m =
      let h' : some (throws x) ≡ some (returns ordinal) =
        rw (e, f, g, m, get_equivalent_typedef_ordinal) at h in
      absurd (cc h')
  typedef_found typedef_die type_ordinal ordinal h nz nm type found e f g (some (returns false)) m =
      let h' : some (returns 0) ≡ some (returns ordinal) =
        rw (e, f, g, m, get_equivalent_typedef_ordinal) at h in
      absurd (nz (cc))
  typedef_found typedef_die type_ordinal ordinal h nz nm type found e f g (some (returns true)) m =
      let h' : some (returns (get_type_ordinal types (or_empty nm))) ≡ some (returns ordinal) =
        rw (e, f, g, m, get_equivalent_typedef_ordinal) at h in
      (cc, typedef_matches-Matches type_ordinal type found.1 m)

  -- Where an ordinal is returned for a typedef DIE, and it is not 0, it is that of a type with the
  -- DIE's name; this type is a typedef, and what it names, a structure, union or enum of the
  -- database, counts as equal to the DIE that the cache has for the other type.
  pub get_equivalent_typedef_ordinal-Matches :
      (typedef_die : D.Die) (type_ordinal ordinal : ℕ)
      → get_equivalent_typedef_ordinal typedef_die type_ordinal ≡ some (returns ordinal)
      → ordinal ≢ 0
      → (typedef_name : Option (List ℕ)) × (type : List ℕ) × (found : ℕ × List ℕ) × (name_of D
            (typedef_die ∷ [])
          ≡ returns typedef_name)
        × (get_numbered_type types type_ordinal ≡ some type)
        × (get_named_type types (or_empty typedef_name) ≡ some found)
        × (ordinal ≡ get_type_ordinal types (or_empty typedef_name))
        × Matches type_ordinal type found.1
  unfolding get_equivalent_typedef_ordinal
  get_equivalent_typedef_ordinal-Matches typedef_die type_ordinal ordinal h nz =
      by_name (name_of D (typedef_die ∷ [])) refl
    where
      zero_not : some (returns 0) ≡ some (returns ordinal) → ⊥
      zero_not e = nz (cc)

      by_name :
          (r : Checked (Option (List ℕ)))
          → name_of D (typedef_die ∷ []) ≡ r
          → (typedef_name : Option (List ℕ)) × (type : List ℕ) × (found : ℕ × List ℕ) × (name_of D
                (typedef_die ∷ [])
              ≡ returns typedef_name)
            × (get_numbered_type types type_ordinal ≡ some type)
            × (get_named_type types (or_empty typedef_name) ≡ some found)
            × (ordinal ≡ get_type_ordinal types (or_empty typedef_name))
            × Matches type_ordinal type found.1
      by_name (throws x) e =
          let h' : some (throws x) ≡ some (returns ordinal) =
            rw (e, get_equivalent_typedef_ordinal) at h in
          absurd (cc h')
      by_name (returns nm) e = elim (Option-cases (get_numbered_type types type_ordinal)) [
        | inl f ↦ absurd (zero_not (rw (e, f, get_equivalent_typedef_ordinal) at h))
        | inr (type, f) ↦ elim (Option-cases (get_named_type types (or_empty nm))) [
          | inl g ↦ absurd (zero_not (rw (e, f, g, get_equivalent_typedef_ordinal) at h))
          | inr (found, g) ↦
              let (o, m) =
                typedef_found typedef_die type_ordinal ordinal h nz nm type found e f g
                  (typedef_matches type_ordinal type found.1) refl in
              (nm, type, found, e, f, g, o, m)
        ]
      ]
