-- ===== src/Cache/Coherence.antt =====
-- src/die_cache.cpp: when the entries and the maps back from ordinals and addresses agree.
use idadwarf.Prelude.{
  ℕ, Bool, ◌<◌, ◌≡◌, ◌≢◌, true, false, none, some, if◌then◌else◌, ◌==◌, arith, word_mod, refl, ◌⊎◌,
  inl, inr, ◌∙◌, sym, subst,
}
use native.Mathlib.Decide.{ℕ_discrete}
use idadwarf.Netnode.{Netnode}
use idadwarf.Cache.{
  DieCache, DieType, die_useless, die_type, die_func, die_var, Members, zeroed, of_type, of_func,
  of_var, tag_of, is_useless,
}

-- What the reverse mapping of an entry leads from: its ordinal, or its address.
abbrev pub key_of : Members → ℕ
key_of zeroed = 0
key_of (of_type ordinal _ _) = ordinal
key_of (of_func startEA) = startEA
key_of (of_var _ func_startEA) = func_startEA

-- The members that were written are those of the kind.
abbrev pub fits : DieType → Members → Bool
fits die_type (of_type _ _ _) = true
fits die_func (of_func _) = true
fits die_var (of_var _ _) = true
fits _ _ = false

pub useful_of_fits : (t : DieType) (m : Members) → fits t m ≡ true → is_useless t ≡ false
useful_of_fits die_useless m h = cc
useful_of_fits _ m h = refl

module _ (N : Netnode DieCache) where
  open N use {Node, supval, supset, altval, altset}

  -- The map back from the entry's kind and key leads to a DIE with the same entry.
  abbrev pub HasBack : Node → DieCache → ℕ → Type 0
  HasBack n c p = (altval n (tag_of c.type) (key_of c.members) ≡ some p) × (supval n p ≡ some c)

  -- A map back leads to a DIE whose entry has the kind and the key; and an entry that is not
  -- useless is, bit for bit, that of the DIE to which the map leads back.
  pub record IsCoherent (n : Node) : Type 0 where
    pub back :
        (t r o : ℕ)
        → altval n t r ≡ some o
        → (c : DieCache) × (o < word_mod)
          × (supval n o ≡ some c)
          × (tag_of c.type ≡ t)
          × (key_of c.members ≡ r)
          × (fits c.type c.members ≡ true)
    pub forth :
        (o : ℕ) (c : DieCache)
        → supval n o ≡ some c
        → is_useless c.type ≡ false
        → (p : ℕ) × HasBack n c p

  -- The DIE has no entry, or a useless one.
  abbrev pub IsOpen : Node → ℕ → Type 0
  IsOpen n offset = (c : DieCache) → supval n offset ≡ some c → is_useless c.type ≡ true

  supval_supset_eq :
      (n : Node) (i : ℕ) (e : DieCache) {c : DieCache} → supval (supset n i e) i ≡ some c → c ≡ e
  supval_supset_eq n i e h = ground (arith, N.supval_supset n i i e)

  pub supval_supset_ne :
      (n : Node) (i j : ℕ) (e : DieCache) → j ≢ i → supval (supset n i e) j ≡ supval n j
  supval_supset_ne n i j e h = ground (arith, N.supval_supset n i j e)

  module _ {n : Node} (coherent : IsCoherent n) (offset : ℕ) (open_here : IsOpen n offset) where
    -- Where a map leads back to, there is no open DIE.
    pub back_ne : (t r o : ℕ) → altval n t r ≡ some o → o ≢ offset
    back_ne t r o e h =
        let (c, _, stored, _, _, fit) = coherent.back t r o e in
        cc (open_here c (rw (← h) stored), useful_of_fits c.type c.members fit)

    HasBack-supset : (e c : DieCache) (p : ℕ) → HasBack n c p → HasBack (supset n offset e) c p
    HasBack-supset e c p (leads, stored) = (
      N.altval_supset n offset e _ _ ∙ leads,
      supval_supset_ne n offset p e (back_ne _ _ p leads) ∙ stored,
    )

    pub copy-IsCoherent : (e : DieCache) (p : ℕ) → HasBack n e p → IsCoherent (supset n offset e)
    copy-IsCoherent e p known = record {
      back = λ t r o h.
          let h' : altval n t r ≡ some o = rw (← N.altval_supset n offset e t r) h in
          let (c, small, at, tag, key, useful) = coherent.back t r o h' in
          (c, small, supval_supset_ne n offset o e (back_ne t r o h') ∙ at, tag, key, useful);
      forth = λ o c h useful. elim (ℕ_discrete o offset) [
        | yes here ↦
            let same : c ≡ e =
              supval_supset_eq n offset e
                (subst (λ i. supval (supset n offset e) i ≡ some c) here h) in
            (p, HasBack-supset e c p (subst (λ x. HasBack n x p) (sym same) known))
        | no there ↦
            let (q, has) =
              coherent.forth o c (sym (supval_supset_ne n offset o e there) ∙ h) useful in
            (q, HasBack-supset e c q has)
      ];
    }

    pub useless-IsCoherent :
        (e : DieCache) → is_useless e.type ≡ true → IsCoherent (supset n offset e)
    useless-IsCoherent e useless = record {
      back = λ t r o h.
          let h' : altval n t r ≡ some o = rw (← N.altval_supset n offset e t r) h in
          let (c, small, at, tag, key, fit) = coherent.back t r o h' in
          (c, small, supval_supset_ne n offset o e (back_ne t r o h') ∙ at, tag, key, fit);
      forth = λ o c h useful. elim (ℕ_discrete o offset) [
        | yes here ↦
            let same : c ≡ e =
              supval_supset_eq n offset e
                (subst (λ i. supval (supset n offset e) i ≡ some c) here h) in
            absurd (cc same)
        | no there ↦
            let (q, has) =
              coherent.forth o c (sym (supval_supset_ne n offset o e there) ∙ h) useful in
            (q, HasBack-supset e c q has)
      ];
    }

    module _ (cache : DieCache) (fit : fits cache.type cache.members ≡ true)
        (small : offset < word_mod)
        (fresh : altval n (tag_of cache.type) (key_of cache.members) ≡ none) where
      abbrev pub after : Node
      after = altset (supset n offset cache) (tag_of cache.type) (key_of cache.members) offset

      -- The entry is new, and so is the way back to it.
      back_after :
          (t r o : ℕ)
          → altval after t r ≡ some o
          → ((tag_of cache.type ≡ t) × (key_of cache.members ≡ r) × (o ≡ offset))
            ⊎ (altval n t r ≡ some o)
      back_after t r o h = ground (
        arith,
        N.altval_altset (supset n offset cache) (tag_of cache.type) t (key_of cache.members) offset
            r,
        N.altval_supset n offset cache t r,
      )

      pub supval_after : (o : ℕ) → supval after o ≡ (if offset == o then some cache else supval n o)
      supval_after o =
          N.supval_altset (supset n offset cache) _ _ offset o ∙ N.supval_supset n offset o cache

      altval_after :
          (t r : ℕ)
          → altval after t r ≡ (
              if tag_of cache.type == t
              then (if key_of cache.members == r then some offset else altval n t r)
              else altval n t r)
      altval_after t r = rw (N.altval_altset, N.altval_supset) refl

      HasBack-after : (c : DieCache) (q : ℕ) → HasBack n c q → HasBack after c q
      HasBack-after c q (leads, at) = (
        ground (arith, altval_after (tag_of c.type) (key_of c.members)),
        ground (arith, supval_after q, back_ne _ _ q leads),
      )

      HasBack-self : (c : DieCache) → c ≡ cache → HasBack after c offset
      HasBack-self c e =
          subst (λ x. HasBack after x offset) (sym e)
            (
              ground (arith, altval_after (tag_of cache.type) (key_of cache.members)),
              ground (arith, supval_after offset),
            )

      pub store-IsCoherent : IsCoherent after
      store-IsCoherent = record {
        back = λ t r o h. elim (back_after t r o h) [
          | inl (tag, key, here) ↦
              (cache, omega arith, ground (arith, supval_after o), tag, key, fit)
          | inr old ↦
              let (c, low, at, tag, key, u) = coherent.back t r o old in
              (c, low, ground (arith, supval_after o, back_ne t r o old), tag, key, u)
        ];
        forth = λ o c h u. elim (ℕ_discrete o offset) [
          | yes here ↦ (offset, HasBack-self c (ground (arith, supval_after o)))
          | no there ↦
              let (q, has) = coherent.forth o c (ground (arith, supval_after o)) u in
              (q, HasBack-after c q has)
        ];
      }
