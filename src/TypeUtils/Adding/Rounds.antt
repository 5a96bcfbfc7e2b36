-- ===== src/TypeUtils/Adding/Rounds.antt =====
-- src/type_utils.cpp: the loops of add_dup_enum and add_dup_struc.
use mathlib.Core.List.{append_assoc}
use idadwarf.Prelude.{
  ℕ, zero, suc, ◌+◌, ◌≤◌, ◌<◌, ◌≡◌, ◌≢◌, Option, none, some, List, [], ◌∷◌, ◌++◌, refl, arith,
  length, length-append, replicate, ◌==◌, ne_of_==, eq_of_==, Bool-cases, ◌⊎◌, inl, inr, ◌∙◌, sym,
}
use idadwarf.Dwarf.Checked.{Checked, returns, throws}
use idadwarf.IdaUtils.Naming.{suffixed}
use idadwarf.TypeUtils.{badnode}
use idadwarf.TypeUtils.Adding.{dup_loop, added}

module _ {R : Type 0} (attempt : List ℕ → Option (Checked (Option R))) where
  -- The four outcomes of an attempt.
  attempt_cases :
      (name : List ℕ)
      → (attempt name ≡ none)
        ⊎ ((e : Option ℕ) × (attempt name ≡ some (throws e)))
        ⊎ ((r : R) × (attempt name ≡ some (returns (some r))))
        ⊎ (attempt name ≡ some (returns none))
  attempt_cases name = by_value (attempt name) refl
    where
      by_value :
          (o : Option (Checked (Option R)))
          → attempt name ≡ o
          → (attempt name ≡ none)
            ⊎ ((e : Option ℕ) × (attempt name ≡ some (throws e)))
            ⊎ ((r : R) × (attempt name ≡ some (returns (some r))))
            ⊎ (attempt name ≡ some (returns none))
      by_value none e = inl e
      by_value (some (throws x)) e = inr (inl (x, e))
      by_value (some (returns (some r))) e = inr (inr (inl (r, e)))
      by_value (some (returns none)) e = inr (inr (inr e))

  -- What the loop returns is the result of an attempt at a longer name.
  pub dup_loop_attempt :
      (rounds : ℕ) (name : List ℕ) (r : R)
      → dup_loop attempt rounds name ≡ some (returns r)
      → (k : ℕ) × (attempt (suffixed name (suc k)) ≡ some (returns (some r)))
  unfolding dup_loop
  dup_loop_attempt zero name r h = absurd (cc h)
  dup_loop_attempt (suc rounds) name r h = elim (attempt_cases (name ++ b'_' ∷ [])) [
    | inl e ↦ let h' : none ≡ some (returns r) = rw (e, dup_loop) at h in absurd (cc h')
    | inr (inl (x, e)) ↦
        let h' : some (throws x) ≡ some (returns r) = rw (e, dup_loop) at h in absurd (cc h')
    | inr (inr (inl (r', e))) ↦
        let h' : some (returns r') ≡ some (returns r) = rw (e, dup_loop) at h in
        let er : r' ≡ r = cc in (0, rw e (rw er refl))
    | inr (inr (inr e)) ↦
        let (k, found) = dup_loop_attempt rounds (name ++ b'_' ∷ []) r (rw (e, dup_loop) at h) in
        (suc k, rw (← append_assoc name (b'_' ∷ []) (replicate (suc k) b'_')) found)
  ]

  -- Attempts that all answer, and that succeed at names longer than the bound.
  pub dup_loop_ends :
      (bound : ℕ)
      → ((name : List ℕ) → (o : Option R) × (attempt name ≡ some (returns o)))
      → ((name : List ℕ) → bound < length name → attempt name ≢ some (returns none))
      → (rounds : ℕ) (name : List ℕ) → 1 ≤ rounds
      → bound + 1 ≤ rounds + length name
      → (r : R) × (dup_loop attempt rounds name ≡ some (returns r))
  unfolding dup_loop
  dup_loop_ends bound answers long zero name some_round enough = absurd (omega arith)
  dup_loop_ends bound answers long (suc rounds) name some_round enough =
      elim (attempt_cases (name ++ b'_' ∷ [])) [
        | inl e ↦ absurd (fails_not e)
        | inr (inl (x, e)) ↦ absurd (throws_not x e)
        | inr (inr (inl (r, e))) ↦ (r, rw (e, dup_loop) refl)
        | inr (inr (inr e)) ↦ elim (Bool-cases (rounds == 0)) [
          | inl z ↦
              let last = eq_of_== rounds 0 z in
              absurd
                (long (name ++ b'_' ∷ []) (omega (arith, last, length-append name (b'_' ∷ []))) e)
          | inr z ↦
              let (r, run) =
                dup_loop_ends bound answers long rounds (name ++ b'_' ∷ [])
                  (omega (arith, ne_of_== rounds 0 z))
                  (omega (arith, length-append name (b'_' ∷ []))) in
              (r, rw (e, dup_loop) run)
        ]
      ]
    where
      fails_not : attempt (name ++ b'_' ∷ []) ≢ none
      fails_not e = let (o, a) = answers (name ++ b'_' ∷ []) in let u = sym a ∙ e in absurd (cc u)

      throws_not : (x : Option ℕ) → attempt (name ++ b'_' ∷ []) ≢ some (throws x)
      throws_not x e =
          let (o, a) = answers (name ++ b'_' ∷ []) in let u = sym a ∙ e in absurd (cc u)

pub added_cases :
    {Db : Type 0} (x : ℕ × Db) (r : ℕ × Db) → added x ≡ some r → (r.0 ≢ badnode) × (x ≡ r)
added_cases (id, db) (id', db') h = elim (Bool-cases (id == badnode)) [
  | inl e ↦ let h' : none ≡ some (id', db') = rw e at h in absurd (cc h')
  | inr e ↦
      let h' : some (id, db) ≡ some (id', db') = rw e at h in
      let p : (id, db) ≡ (id', db') = cc in
      let q : id ≡ id' = cc in (rw (← q) (ne_of_== id badnode e), p)
]
