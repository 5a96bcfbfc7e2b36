-- ===== src/IdaUtils/Naming.antt =====
-- src/ida_utils.cpp, set_simple_die_type: under which name a type is saved, and that it is.
use mathlib.Core.List.{append_assoc, append-nil}
use idadwarf.Prelude.{
  ℕ, zero, suc, ◌+◌, ◌≤◌, ◌≡◌, ◌≢◌, Bool, true, false, none, some, List, [], ◌∷◌, ◌++◌, refl, arith,
  replicate, length, length-append, Bool-cases, Option-cases, ◌⊎◌, inl, inr,
}
use idadwarf.Til.{TypeCoding, TypeLibrary}
use idadwarf.IdaUtils.{absent, other, same, find_simple_type, save_loop}

-- The name with that many `_` behind it.
abbrev pub suffixed : List ℕ → ℕ → List ℕ
suffixed name k = name ++ replicate k b'_'

module _ (T : TypeCoding) (L : TypeLibrary) where
  open L use {Db, get_named_type, alloc_type_ordinal, set_numbered_type}

  -- No type of the library has the name; the empty one is that of anonymous types.
  abbrev pub IsUnused : Db → List ℕ → Type 0
  IsUnused db name = (name ≡ []) ⊎ (get_named_type db name ≡ none)

  -- What a call may have done, from the name on: it found the type under the name with some `_`, or
  -- it saved the type under such a name, which no type had.
  pub data Saved (db : Db) (alloced : ℕ) (replace : Bool) (name ida_type : List ℕ) (ordinal : ℕ)
      (db' : Db) : Type 0 where
    reused :
        (k : ℕ) (type : List ℕ)
        → get_named_type db (suffixed name k) ≡ some (ordinal, type)
        → T.typcmp type ida_type ≡ true
        → db' ≡ db
        → Saved db alloced replace name ida_type ordinal db'
    saved :
        (k : ℕ)
        → IsUnused db (suffixed name k)
        → set_numbered_type db alloced replace (suffixed name k) ida_type ≡ some db'
        → ordinal ≡ alloced
        → Saved db alloced replace name ida_type ordinal db'

  module _ (db : Db) (alloced : ℕ) (replace : Bool) (ida_type : List ℕ) where
    suffixed-suc : (name : List ℕ) (k : ℕ) → suffixed (name ++ b'_' ∷ []) k ≡ suffixed name (suc k)
    suffixed-suc name k = append_assoc name (b'_' ∷ []) (replicate k b'_')

    -- What holds from the longer name on holds from the name on.
    Saved-longer :
        {name : List ℕ} {o : ℕ} {db' : Db}
        → Saved db alloced replace (name ++ b'_' ∷ []) ida_type o db'
        → Saved db alloced replace name ida_type o db'
    Saved-longer {name} (reused k type h c e) =
        reused (suc k) type (rw (← suffixed-suc name k) h) c e
    Saved-longer {name} (saved k h c e) =
        saved (suc k) (rw (← suffixed-suc name k) h) (rw (← suffixed-suc name k) c) e

    -- The three uses of a name.
    pub find_cases :
        (name : List ℕ)
        → ((find_simple_type T L db (some name) ida_type ≡ absent)
            × (get_named_type db name ≡ none))
          ⊎ ((find_simple_type T L db (some name) ida_type ≡ other)
              × (get_named_type db name ≢ none))
          ⊎ ((o : ℕ) × (type : List ℕ) × (find_simple_type T L db (some name) ida_type ≡ same o)
              × (get_named_type db name ≡ some (o, type))
              × (T.typcmp type ida_type ≡ true))
    unfolding find_simple_type
    find_cases name = elim (Option-cases (get_named_type db name)) [
      | inl e ↦ inl (rw (e, find_simple_type) refl, e)
      | inr ((o, type), e) ↦ elim (Bool-cases (T.typcmp type ida_type)) [
        | inl c ↦ inr (inr (o, type, rw (e, find_simple_type, c) refl, e, c))
        | inr c ↦ inr (inl (rw (e, find_simple_type, c) refl, λ n. cc))
      ]
    ]

    -- Under a taken name the loop is that of the longer name.
    longer-Saved :
        (fuel : ℕ) (name : List ℕ) (o : ℕ) (db' : Db)
        → ((found : Bool)
            → (found ≡ false → IsUnused db (name ++ b'_' ∷ []))
            → save_loop T L fuel db found replace alloced (name ++ b'_' ∷ []) ida_type
              ≡ some (o, db')
            → Saved db alloced replace (name ++ b'_' ∷ []) ida_type o db')
        → save_loop T L (suc fuel) db true replace alloced name ida_type ≡ some (o, db')
        → Saved db alloced replace name ida_type o db'
    unfolding save_loop
    longer-Saved fuel name o db' ih h = elim (find_cases (name ++ b'_' ∷ [])) [
      | inl (e, unused) ↦ Saved-longer (ih false (λ _. inr unused) (rw (e, save_loop) at h))
      | inr (inl (e, _)) ↦ Saved-longer (ih true (λ c. absurd (cc)) (rw (e, save_loop) at h))
      | inr (inr (existing, type, e, known, c)) ↦
          let h' : some (existing, db) ≡ some (o, db') = rw (e, save_loop) at h in
          let eo : existing ≡ o = cc in
          Saved-longer (reused 0 type (rw (← eo, append-nil (name ++ b'_' ∷ [])) known) c (cc))
    ]

    pub save_loop-Saved :
        (fuel : ℕ) (found : Bool) (name : List ℕ) (o : ℕ) (db' : Db)
        → (found ≡ false → IsUnused db name)
        → save_loop T L fuel db found replace alloced name ida_type ≡ some (o, db')
        → Saved db alloced replace name ida_type o db'
    unfolding save_loop
    save_loop-Saved zero found name o db' u h = absurd (cc h)
    save_loop-Saved (suc fuel) true name o db' u h =
        longer-Saved fuel name o db' (λ found. save_loop-Saved fuel found (name ++ b'_' ∷ []) o db')
          h
    save_loop-Saved (suc fuel) false name o db' u h =
        elim (Option-cases (set_numbered_type db alloced replace name ida_type)) [
          | inl e ↦
              longer-Saved fuel name o db'
                (λ found. save_loop-Saved fuel found (name ++ b'_' ∷ []) o db')
                (rw (e, save_loop) at h)
          | inr (stored, e) ↦
              let h' : some (alloced, stored) ≡ some (o, db') = rw (e, save_loop) at h in
              let ed : stored ≡ db' = cc in
              saved 0 (rw (append-nil name) (u refl)) (rw (append-nil name, e, ed) refl) (cc)
        ]

    -- Unused names are accepted, and those in use are no longer than the bound.
    abbrev pub IsAccepting : Type 0
    IsAccepting =
        (name : List ℕ)
        → name ≢ []
        → get_named_type db name ≡ none
        → set_numbered_type db alloced replace name ida_type ≢ none

    abbrev pub IsBound : ℕ → Type 0
    IsBound bound = (name : List ℕ) → get_named_type db name ≢ none → length name ≤ bound

    module _ (bound : ℕ) (accepting : IsAccepting) (bounded : IsBound bound) where
      length_longer : (name : List ℕ) → length (name ++ b'_' ∷ []) ≡ suc (length name)
      length_longer name = omega (arith, length-append name (b'_' ∷ []))

      unused_is_empty :
          (name : List ℕ)
          → IsUnused db name
          → set_numbered_type db alloced replace name ida_type ≡ none
          → length name ≤ bound
      unused_is_empty name (inl e) refused = rw e (omega arith)
      unused_is_empty [] (inr unused) refused = omega arith
      unused_is_empty (b ∷ name) (inr unused) refused =
          absurd (accepting (b ∷ name) (λ e. cc) unused refused)

      longer_ends :
          (fuel : ℕ) (name : List ℕ)
          → ((found : Bool)
              → (found ≡ true → length (name ++ b'_' ∷ []) ≤ bound)
              → (found ≡ false → IsUnused db (name ++ b'_' ∷ []))
              → (r : ℕ × Db) × (save_loop T L fuel db found replace alloced
                    (name ++ b'_' ∷ [])
                    ida_type
                  ≡ some r))
          → (r : ℕ × Db) × (save_loop T L (suc fuel) db true replace alloced name ida_type ≡ some r)
      unfolding save_loop
      longer_ends fuel name ih = elim (find_cases (name ++ b'_' ∷ [])) [
        | inl (e, unused) ↦
            let (r, run) = ih false (λ c. absurd (cc)) (λ _. inr unused) in
            (r, rw (e, save_loop) run)
        | inr (inl (e, used)) ↦
            let (r, run) = ih true (λ _. bounded _ used) (λ c. absurd (cc)) in
            (r, rw (e, save_loop) run)
        | inr (inr (existing, _, e, _, _)) ↦ ((existing, db), rw (e, save_loop) refl)
      ]

      pub save_loop_ends :
          (fuel : ℕ) (found : Bool) (name : List ℕ)
          → 1 ≤ fuel
          → bound + 2 ≤ fuel + length name
          → (found ≡ true → length name ≤ bound)
          → (found ≡ false → IsUnused db name)
          → (r : ℕ × Db) × (save_loop T L fuel db found replace alloced name ida_type ≡ some r)
      unfolding save_loop
      save_loop_ends zero found name some_fuel enough used u = absurd (omega arith)
      save_loop_ends (suc fuel) true name some_fuel enough used u = longer_ends fuel name (λ found.
          save_loop_ends fuel found (name ++ b'_' ∷ []) (omega (arith, used refl))
            (omega (arith, used refl, length_longer name)))
      save_loop_ends (suc fuel) false name some_fuel enough used u =
          elim (Option-cases (set_numbered_type db alloced replace name ida_type)) [
            | inl e ↦
                let short = unused_is_empty name (u refl) e in
                let (r, run) = longer_ends fuel name (λ found.
                  save_loop_ends fuel found (name ++ b'_' ∷ []) (omega arith)
                    (omega (arith, length_longer name))) in
                (r, rw (e, save_loop) run)
            | inr (stored, e) ↦ ((alloced, stored), rw (e, save_loop) refl)
          ]
