-- ===== src/Cache/Progress.antt =====
-- src/die_cache.cpp: what no call of a setter takes away, whichever DIE it is called for.
use idadwarf.Prelude.{
  ℕ, ◌≡◌, Bool, true, false, none, some, arith, to_word, Option-cases, Bool-cases, refl, inl, inr,
  ◌∙◌, sym, if◌then◌else◌, ◌==◌, eq_of_==, is_some, badaddr,
}
use idadwarf.Netnode.{Netnode}
use idadwarf.Cache.{
  DieCache, VarType, is_useless, die_useless, zeroed, tag_of, copy_existing, store_new,
  override_useless, cache_useless, cache_useful, cache_type, cache_func, cache_var,
}

module _ (N : Netnode DieCache) where
  open N use {Node, supval, supset, altval, altset}

  -- The entry at the index is not useless.
  abbrev pub IsUseful : Node → ℕ → Type 0
  IsUseful n o = (c : DieCache) × (supval n o ≡ some c) × (is_useless c.type ≡ false)

  -- Every map back leads to an entry that is not useless.
  abbrev pub IsRooted : Node → Type 0
  IsRooted n = (t r o : ℕ) → altval n t r ≡ some o → IsUseful n (to_word o)

  -- From one cache to a later one.
  pub record Grows (n m : Node) : Type 0 where
    pub rooted : IsRooted m
    pub useful : (o : ℕ) → IsUseful n o → IsUseful m o
    pub known : (o : ℕ) → is_some (supval n o) ≡ true → is_some (supval m o) ≡ true

  pub Grows-refl : (n : Node) → IsRooted n → Grows n n
  Grows-refl n h = record { rooted = h; useful = λ o u. u; known = λ o k. k }

  -- An entry is written over a useless one, or it is not useless itself.
  supset_IsUseful :
      (n : Node) (i : ℕ) (e : DieCache)
      → is_useless e.type ≡ false
      → (o : ℕ) → IsUseful n o
      → IsUseful (supset n i e) o
  supset_IsUseful n i e fine o (c, at, u) = elim (Bool-cases (i == o)) [
    | inl h ↦ (e, rw (N.supval_supset, h) refl, fine)
    | inr h ↦ (c, rw (N.supval_supset, h) at, u)
  ]

  supset_known :
      (n : Node) (i : ℕ) (e : DieCache) (o : ℕ)
      → is_some (supval n o) ≡ true
      → is_some (supval (supset n i e) o) ≡ true
  supset_known n i e o k = elim (Bool-cases (i == o)) [
    | inl h ↦ rw (N.supval_supset, h) refl
    | inr h ↦ rw (N.supval_supset, h) k
  ]

  supset_IsRooted :
      (n : Node) (i : ℕ) (e : DieCache)
      → is_useless e.type ≡ false
      → IsRooted n
      → IsRooted (supset n i e)
  supset_IsRooted n i e fine h t r o leads =
      supset_IsUseful n i e fine (to_word o) (h t r o (rw N.altval_supset at leads))

  supset-Grows :
      (n : Node) (i : ℕ) (e : DieCache)
      → is_useless e.type ≡ false
      → IsRooted n
      → Grows n (supset n i e)
  supset-Grows n i e fine h = record {
    rooted = supset_IsRooted n i e fine h;
    useful = supset_IsUseful n i e fine;
    known = supset_known n i e;
  }

  -- A map back to an entry that is not useless.
  altset-Grows :
      (n : Node) (t r i : ℕ) → i ≡ to_word i → IsUseful n i → IsRooted n → Grows n (altset n t r i)
  altset-Grows n t r i small u h = record {
    rooted = λ t' r' o leads. kept (to_word o) (source t' r' o leads);
    useful = kept;
    known = λ o k. rw N.supval_altset k;
  }
    where
      kept : (o : ℕ) → IsUseful n o → IsUseful (altset n t r i) o
      kept o (c, at, v) = (c, rw N.supval_altset at, v)

      source : (t' r' o : ℕ) → altval (altset n t r i) t' r' ≡ some o → IsUseful n (to_word o)
      source t' r' o leads = elim (Bool-cases (t == t')) [
        | inl a ↦ elim (Bool-cases (r == r')) [
          | inl b ↦
              let leads' : some i ≡ some o = rw (N.altval_altset, a, b) at leads in
              let e : i ≡ o = cc in rw (← e) (rw (← small) u)
          | inr b ↦ h t' r' o (rw (N.altval_altset, a, b) at leads)
        ]
        | inr a ↦ h t' r' o (rw (N.altval_altset, a) at leads)
      ]

  pub Grows-trans : (a b c : Node) → Grows a b → Grows b c → Grows a c
  Grows-trans a b c f g = record {
    rooted = g.rooted;
    useful = λ o u. g.useful o (f.useful o u);
    known = λ o k. g.known o (f.known o k);
  }

  store_new-Grows :
      (n : Node) (offset reverse : ℕ) (cache : DieCache)
      → is_useless cache.type ≡ false
      → IsRooted n
      → Grows n (store_new N n offset reverse cache)
  unfolding store_new
  store_new-Grows n offset reverse cache fine h =
      let first = supset-Grows n (to_word offset) cache fine h in
      Grows-trans n (supset n (to_word offset) cache) _ first (
        altset-Grows (supset n (to_word offset) cache) (tag_of cache.type) reverse (to_word offset)
          (omega arith)
          (cache, ground (arith, N.supval_supset n (to_word offset) (to_word offset) cache), fine)
          first.rooted)

  override-Grows :
      (n : Node) (offset reverse : ℕ) (cache : DieCache)
      → is_useless cache.type ≡ false
      → IsRooted n
      → Grows n (override_useless N n offset reverse cache)
  unfolding override_useless
  override-Grows n offset reverse cache fine h = elim (Option-cases (supval n (to_word offset))) [
    | inl e ↦ rw (e, override_useless) (store_new-Grows n offset reverse cache fine h)
    | inr (c, e) ↦ elim (Bool-cases (is_useless c.type)) [
      | inl u ↦ rw (e, override_useless, u) (store_new-Grows n offset reverse cache fine h)
      | inr u ↦ rw (e, override_useless, u) (Grows-refl n h)
    ]
  ]

  cache_useful-Grows :
      (n : Node) (offset reverse : ℕ) (cache : DieCache)
      → is_useless cache.type ≡ false
      → IsRooted n
      → Grows n (cache_useful N n offset reverse cache)
  unfolding cache_useful copy_existing
  cache_useful-Grows n offset reverse cache fine h =
      elim (Option-cases (altval n (tag_of cache.type) reverse)) [
        | inl e ↦ rw (e, cache_useful) (override-Grows n offset reverse cache fine h)
        | inr (p, e) ↦ elim (Bool-cases (p == offset)) [
          | inl same ↦ rw (e, cache_useful, same) (override-Grows n offset reverse cache fine h)
          | inr other ↦
              let (c, at, u) = h (tag_of cache.type) reverse p e in
              rw (e, cache_useful, other, copy_existing, at) (supset-Grows n (to_word offset) c u h)
        ]
      ]

  pub cache_useless-Grows :
      (n : Node) (offset : ℕ) → IsRooted n → Grows n (cache_useless N n offset)
  unfolding cache_useless
  cache_useless-Grows n offset h = elim (Option-cases (supval n (to_word offset))) [
    | inr (c, e) ↦ rw (e, cache_useless) (Grows-refl n h)
    | inl e ↦
        rw (e, cache_useless)
          (record {
            rooted = λ t r o leads. kept e (to_word o) (h t r o (rw N.altval_supset at leads));
            useful = kept e;
            known = supset_known n (to_word offset) _;
          })
  ]
    where
      kept :
          supval n (to_word offset) ≡ none
          → (o : ℕ) → IsUseful n o
          → IsUseful (supset n (to_word offset) (record { type = die_useless; members = zeroed })) o
      kept e o (c, at, u) = elim (Bool-cases (to_word offset == o)) [
        | inl same ↦
            let i : to_word offset ≡ o = eq_of_== _ _ same in
            let clash : none ≡ some c = sym e ∙ (rw i at) in absurd (cc clash)
        | inr other ↦ (c, rw (N.supval_supset, other) at, u)
      ]

  pub cache_type-Grows :
      (n : Node) (offset ordinal base : ℕ) (second : Bool)
      → IsRooted n
      → Grows n (cache_type N n offset ordinal second base)
  unfolding cache_type
  cache_type-Grows n offset ordinal base second h =
      if_Grows _ (cache_useful N n offset ordinal _) n
        (cache_useful-Grows n offset ordinal _ refl h) (Grows-refl n h)
    where
      if_Grows : (b : Bool) (x y : Node) → Grows n x → Grows n y → Grows n (if b then x else y)
      if_Grows true x y f g = f
      if_Grows false x y f g = g

  pub cache_func-Grows :
      (n : Node) (offset startEA : ℕ) → IsRooted n → Grows n (cache_func N n offset startEA)
  unfolding cache_func
  cache_func-Grows n offset startEA h = elim (Bool-cases (startEA == badaddr)) [
    | inl e ↦ rw (e, cache_func) (Grows-refl n h)
    | inr e ↦ rw (e, cache_func) (cache_useful-Grows n offset startEA _ refl h)
  ]

  pub cache_var-Grows :
      (n : Node) (offset startEA : ℕ) (vtype : VarType)
      → IsRooted n
      → Grows n (cache_var N n offset vtype startEA)
  unfolding cache_var
  cache_var-Grows n offset startEA vtype h = cache_useful-Grows n offset startEA _ refl h
