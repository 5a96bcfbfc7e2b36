-- ===== src/Cache/Calls.antt =====
-- src/die_cache.cpp: the cache after any calls of its setters, whichever DIEs they are called for, and
-- the setters that a retrieval calls.
use idadwarf.Prelude.{
  ℕ, ◌≡◌, ◌≢◌, refl, ◌∙◌, Bool, true, false, not, badaddr, some, arith, to_word, Option-cases,
  Bool-cases, inl, inr, if◌then◌else◌, ◌==◌, ◌&&◌, ==_ne,
}
use idadwarf.Netnode.{Netnode}
use idadwarf.Cache.{
  DieCache, DieType, die_useless, die_type, die_func, die_var, tag_of, is_useless, copy_existing,
  store_new, override_useless, cache_useless, cache_useful, cache_type, cache_func, cache_var,
  in_cache,
}
use idadwarf.Cache.History.{Setter, useless, type, func, var, set}
use idadwarf.Cache.Progress.{
  IsRooted, Grows, Grows-refl, Grows-trans, cache_useless-Grows, cache_type-Grows, cache_func-Grows,
  cache_var-Grows,
}

-- The retrieval of types, those of functions and globals, and a whole run.
pub data Pass : Type 0 where
  types_pass code_pass whole_run : Pass

-- Types are cached by the first one, functions and variables by the others.
abbrev pub Allows : Pass → Setter → Type 0
Allows types_pass (useless _) = Unit {0}
Allows types_pass (type _ _ _ _) = Unit {0}
Allows types_pass (func _ _) = ⊥
Allows types_pass (var _ _ _) = ⊥
Allows code_pass (useless _) = Unit {0}
Allows code_pass (type _ _ _ _) = ⊥
Allows code_pass (func _ _) = Unit {0}
Allows code_pass (var _ _ _) = Unit {0}
Allows whole_run s = Unit {0}

-- An entry of a type, or a useless one.
abbrev pub is_typed : DieType → Bool
is_typed die_useless = true
is_typed die_type = true
is_typed die_func = false
is_typed die_var = false

module _ (N : Netnode DieCache) where
  open N use {Node, supval, supset, altval, altset}

  -- From a cache to a later one, by calls of setters.
  pub data Calls (p : Pass) (n : Node) : Node → Type 0 where
    unchanged : Calls p n n
    call : {m : Node} (s : Setter) → Allows p s → Calls p n m → Calls p n (set N m s)

  pub Calls-trans : (p : Pass) (a b c : Node) → Calls p a b → Calls p b c → Calls p a c
  Calls-trans p a b c f unchanged = f
  Calls-trans p a b c f (call {m} s h g) = call s h (Calls-trans p a b m f g)

  pub Calls-whole_run : (p : Pass) (a b : Node) → Calls p a b → Calls whole_run a b
  Calls-whole_run p a b unchanged = unchanged
  Calls-whole_run p a b (call {m} s h g) = call s tt (Calls-whole_run p a m g)

  set-Grows : (n : Node) (s : Setter) → IsRooted N n → Grows N n (set N n s)
  unfolding set
  set-Grows n (useless o) h = cache_useless-Grows N n o h
  set-Grows n (type o ordinal second base) h = cache_type-Grows N n o ordinal base second h
  set-Grows n (func o startEA) h = cache_func-Grows N n o startEA h
  set-Grows n (var o vtype startEA) h = cache_var-Grows N n o startEA vtype h

  pub Calls-Grows : (p : Pass) (a b : Node) → Calls p a b → IsRooted N a → Grows N a b
  Calls-Grows p a b unchanged h = Grows-refl N a h
  Calls-Grows p a b (call {m} s k g) h =
      let before = Calls-Grows p a m g h in Grows-trans N a m b before (set-Grows m s before.rooted)

  -- The maps back of one kind are the same.
  abbrev pub SameBack : (tag : ℕ) → Node → Node → Type 0
  SameBack tag n m = (r : ℕ) → altval m tag r ≡ altval n tag r

  store_new-SameBack :
      (tag : ℕ) (n : Node) (offset reverse : ℕ) (cache : DieCache)
      → tag_of cache.type ≢ tag
      → SameBack tag n (store_new N n offset reverse cache)
  unfolding store_new
  store_new-SameBack tag n offset reverse cache other r =
      rw (N.altval_altset, ==_ne _ _ other, N.altval_supset) refl

  override-SameBack :
      (tag : ℕ) (n : Node) (offset reverse : ℕ) (cache : DieCache)
      → tag_of cache.type ≢ tag
      → SameBack tag n (override_useless N n offset reverse cache)
  unfolding override_useless
  override-SameBack tag n offset reverse cache other r =
      elim (Option-cases (supval n (to_word offset))) [
        | inl e ↦ rw (e, override_useless) (store_new-SameBack tag n offset reverse cache other r)
        | inr (c, e) ↦ elim (Bool-cases (is_useless c.type)) [
          | inl u ↦
              rw (e, override_useless, u) (store_new-SameBack tag n offset reverse cache other r)
          | inr u ↦ rw (e, override_useless, u) refl
        ]
      ]

  copy-SameBack : (tag : ℕ) (n : Node) (offset p : ℕ) → SameBack tag n (copy_existing N n offset p)
  unfolding copy_existing
  copy-SameBack tag n offset p r = elim (Option-cases (supval n (to_word p))) [
    | inl e ↦ rw (e, copy_existing) refl
    | inr (c, e) ↦ rw (e, copy_existing, N.altval_supset) refl
  ]

  cache_useful-SameBack :
      (tag : ℕ) (n : Node) (offset reverse : ℕ) (cache : DieCache)
      → tag_of cache.type ≢ tag
      → SameBack tag n (cache_useful N n offset reverse cache)
  unfolding cache_useful
  cache_useful-SameBack tag n offset reverse cache other r =
      elim (Option-cases (altval n (tag_of cache.type) reverse)) [
        | inl e ↦ rw (e, cache_useful) (override-SameBack tag n offset reverse cache other r)
        | inr (p, e) ↦ elim (Bool-cases (p == offset)) [
          | inl same ↦
              rw (e, cache_useful, same) (override-SameBack tag n offset reverse cache other r)
          | inr away ↦ rw (e, cache_useful, away) (copy-SameBack tag n offset p r)
        ]
      ]

  if-SameBack :
      (tag : ℕ) (n m : Node) (b : Bool) → SameBack tag n m → SameBack tag n (if b then m else n)
  if-SameBack tag n m true h = h
  if-SameBack tag n m false h = λ r. refl

  cache_useless-SameBack :
      (tag : ℕ) (n : Node) (offset : ℕ) → SameBack tag n (cache_useless N n offset)
  unfolding cache_useless
  cache_useless-SameBack tag n offset =
      if-SameBack tag n _ (not (in_cache N n offset)) (λ r. N.altval_supset _ _ _ _ _)

  -- Functions and variables have other maps back than types.
  set-SameBack_types :
      (n : Node) (s : Setter) → Allows code_pass s → SameBack (tag_of die_type) n (set N n s)
  unfolding set cache_func cache_var
  set-SameBack_types n (useless o) h = cache_useless-SameBack (tag_of die_type) n o
  set-SameBack_types n (type o ordinal second base) h = elim h [ ]
  set-SameBack_types n (func o startEA) h =
      if-SameBack (tag_of die_type) n _ (not (startEA == badaddr))
        (cache_useful-SameBack (tag_of die_type) n o startEA _ (omega arith))
  set-SameBack_types n (var o vtype startEA) h =
      cache_useful-SameBack (tag_of die_type) n o startEA _ (omega arith)

  -- The retrievals of functions and globals leave the maps back of the types as they are.
  pub Calls-SameBack_types : (a b : Node) → Calls code_pass a b → SameBack (tag_of die_type) a b
  Calls-SameBack_types a b unchanged r = refl
  Calls-SameBack_types a b (call {m} s k g) r =
      set-SameBack_types m s k r ∙ Calls-SameBack_types a m g r

  -- No other entries than of types, and useless ones.
  abbrev pub OnlyTypes : Node → Type 0
  OnlyTypes n = (o : ℕ) (c : DieCache) → supval n o ≡ some c → is_typed c.type ≡ true

  supset-OnlyTypes :
      (n : Node) (i : ℕ) (e : DieCache)
      → is_typed e.type ≡ true
      → OnlyTypes n
      → OnlyTypes (supset n i e)
  supset-OnlyTypes n i e fine h o c at = elim (Bool-cases (i == o)) [
    | inl same ↦
        let there : some e ≡ some c = rw (N.supval_supset, same) at at in
        let eq : e ≡ c = cc in rw (← eq) fine
    | inr other ↦ h o c (rw (N.supval_supset, other) at at)
  ]

  override-OnlyTypes :
      (n : Node) (offset reverse : ℕ) (cache : DieCache)
      → is_typed cache.type ≡ true
      → OnlyTypes n
      → OnlyTypes (override_useless N n offset reverse cache)
  unfolding override_useless store_new
  override-OnlyTypes n offset reverse cache fine h o c at =
      elim (Option-cases (supval n (to_word offset))) [
        | inl e ↦ new (rw (e, override_useless, store_new, N.supval_altset) at at)
        | inr (d, e) ↦ elim (Bool-cases (is_useless d.type)) [
          | inl u ↦ new (rw (e, override_useless, u, store_new, N.supval_altset) at at)
          | inr u ↦ h o c (rw (e, override_useless, u) at at)
        ]
      ]
    where
      new : supval (supset n (to_word offset) cache) o ≡ some c → is_typed c.type ≡ true
      new there = supset-OnlyTypes n (to_word offset) cache fine h o c there

  copy-OnlyTypes : (n : Node) (offset p : ℕ) → OnlyTypes n → OnlyTypes (copy_existing N n offset p)
  unfolding copy_existing
  copy-OnlyTypes n offset p h o c at = elim (Option-cases (supval n (to_word p))) [
    | inl e ↦ h o c (rw (e, copy_existing) at at)
    | inr (d, e) ↦
        supset-OnlyTypes n (to_word offset) d (h (to_word p) d e) h o c
          (rw (e, copy_existing) at at)
  ]

  cache_useful-OnlyTypes :
      (n : Node) (offset reverse : ℕ) (cache : DieCache)
      → is_typed cache.type ≡ true
      → OnlyTypes n
      → OnlyTypes (cache_useful N n offset reverse cache)
  unfolding cache_useful
  cache_useful-OnlyTypes n offset reverse cache fine h o c at =
      elim (Option-cases (altval n (tag_of cache.type) reverse)) [
        | inl e ↦ override-OnlyTypes n offset reverse cache fine h o c (rw (e, cache_useful) at at)
        | inr (p, e) ↦ elim (Bool-cases (p == offset)) [
          | inl same ↦
              override-OnlyTypes n offset reverse cache fine h o c
                (rw (e, cache_useful, same) at at)
          | inr away ↦ copy-OnlyTypes n offset p h o c (rw (e, cache_useful, away) at at)
        ]
      ]

  if-OnlyTypes :
      (b : Bool) (n m : Node) → OnlyTypes m → OnlyTypes n → OnlyTypes (if b then m else n)
  if-OnlyTypes true n m f g = f
  if-OnlyTypes false n m f g = g

  set-OnlyTypes :
      (n : Node) (s : Setter) → Allows types_pass s → OnlyTypes n → OnlyTypes (set N n s)
  unfolding set cache_useless cache_type
  set-OnlyTypes n (useless o) k h =
      if-OnlyTypes (not (in_cache N n o)) n _ (supset-OnlyTypes n (to_word o) _ refl h) h
  set-OnlyTypes n (type o ordinal second base) k h =
      if-OnlyTypes (not (ordinal == 0) && not (ordinal == badaddr)) n _
        (cache_useful-OnlyTypes n o ordinal _ refl h) h
  set-OnlyTypes n (func o startEA) k h = elim k [ ]
  set-OnlyTypes n (var o vtype startEA) k h = elim k [ ]

  -- The retrieval of types puts nothing else into the cache than types and useless DIEs.
  pub Calls-OnlyTypes : (a b : Node) → Calls types_pass a b → OnlyTypes a → OnlyTypes b
  Calls-OnlyTypes a b unchanged h = h
  Calls-OnlyTypes a b (call {m} s k g) h = set-OnlyTypes m s k (Calls-OnlyTypes a m g h)
