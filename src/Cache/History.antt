-- ===== src/Cache/History.antt =====
-- src/die_cache.cpp: the cache after any sequence of calls of its setters.
use idadwarf.Prelude.{
  ℕ, ◌<◌, ◌≡◌, ◌≢◌, Bool, false, some, arith, word_mod, to_word_of_lt, Option-cases, refl, inl, inr,
  ◌∙◌,
}
use idadwarf.Netnode.{Netnode}
use idadwarf.Cache.{
  DieCache, die_type, die_func, die_var, of_type, of_func, of_var, VarType, is_useless,
  cache_useless, cache_type, cache_func, cache_var,
}
use idadwarf.Cache.Coherence.{IsCoherent, IsOpen, useless-IsCoherent, supval_supset_ne}
use idadwarf.Cache.Setters.{cache_useful-IsCoherent, cache_useful_frame}

-- A call of a setter, with its arguments.
pub data Setter : Type 0 where
  useless : ℕ → Setter
  type : ℕ → ℕ → Bool → ℕ → Setter
  func : ℕ → ℕ → Setter
  var : ℕ → VarType → ℕ → Setter

abbrev pub offset_of : Setter → ℕ
offset_of (useless offset) = offset
offset_of (type offset _ _ _) = offset
offset_of (func offset _) = offset
offset_of (var offset _ _) = offset

module _ (N : Netnode DieCache) where
  open N use {Node, supval, altval}

  unfoldable pub set : Node → Setter → Node
  set n (useless offset) = cache_useless N n offset
  set n (type offset ordinal second base) = cache_type N n offset ordinal second base
  set n (func offset startEA) = cache_func N n offset startEA
  set n (var offset vtype startEA) = cache_var N n offset vtype startEA

  -- Every DIE that is set has an offset of 32 bits, and no entry yet or a useless one.
  pub data Reach (n : Node) : Node → Type 0 where
    here : Reach n n
    next :
        {m : Node} (s : Setter)
        → Reach n m
        → offset_of s < word_mod
        → IsOpen N m (offset_of s)
        → Reach n (set m s)

  module _ {n : Node} (offset : ℕ) (small : offset < word_mod) where
    cache_useless-IsCoherent :
        IsCoherent N n → IsOpen N n offset → IsCoherent N (cache_useless N n offset)
    unfolding cache_useless
    cache_useless-IsCoherent coherent open_here = elim (Option-cases (supval n offset)) [
      | inl e ↦
          rw (to_word_of_lt offset small, e) (useless-IsCoherent N coherent offset open_here _ refl)
      | inr (c, e) ↦ rw (to_word_of_lt offset small, e) coherent
    ]

    cache_useless_frame : (q : ℕ) → q ≢ offset → supval (cache_useless N n offset) q ≡ supval n q
    unfolding cache_useless
    cache_useless_frame q other = elim (Option-cases (supval n offset)) [
      | inl e ↦ rw (to_word_of_lt offset small, e) (supval_supset_ne N n offset q _ other)
      | inr (c, e) ↦ rw (to_word_of_lt offset small, e) refl
    ]

  set-IsCoherent :
      {n : Node} (s : Setter)
      → IsCoherent N n
      → offset_of s < word_mod
      → IsOpen N n (offset_of s)
      → IsCoherent N (set n s)
  unfolding set cache_type cache_func cache_var
  set-IsCoherent (useless offset) v small o = cache_useless-IsCoherent offset small v o
  set-IsCoherent (type offset ordinal second base) v small o = ground (
    arith,
    cache_useful-IsCoherent N v offset small o
        (record { type = die_type; members = of_type ordinal second base }) refl,
  )
  set-IsCoherent (func offset startEA) v small o = ground (
    arith,
    cache_useful-IsCoherent N v offset small o
        (record { type = die_func; members = of_func startEA }) refl,
  )
  set-IsCoherent (var offset vtype startEA) v small o =
      cache_useful-IsCoherent N v offset small o
        (record { type = die_var; members = of_var vtype startEA }) refl

  set_frame :
      {n : Node} (s : Setter)
      → IsCoherent N n
      → offset_of s < word_mod
      → IsOpen N n (offset_of s)
      → (q : ℕ) → q ≢ offset_of s
      → supval (set n s) q ≡ supval n q
  unfolding set cache_type cache_func cache_var
  set_frame (useless offset) v small o q h = cache_useless_frame offset small q h
  set_frame (type offset ordinal second base) v small o q h = ground (
    arith,
    cache_useful_frame N v offset small o
        (record { type = die_type; members = of_type ordinal second base }) refl q,
  )
  set_frame (func offset startEA) v small o q h = ground (
    arith,
    cache_useful_frame N v offset small o (record { type = die_func; members = of_func startEA })
        refl q,
  )
  set_frame (var offset vtype startEA) v small o q h =
      cache_useful_frame N v offset small o
        (record { type = die_var; members = of_var vtype startEA }) refl q h

  -- The maps back and the entries agree after every history of setter calls, if they did before. In
  -- a history the offsets have 32 bits, and a setter is only called for a DIE that has no entry yet or
  -- a useless one.
  pub Reach-IsCoherent : {n m : Node} → IsCoherent N n → Reach n m → IsCoherent N m
  Reach-IsCoherent v here = v
  Reach-IsCoherent v (next s r small o) = set-IsCoherent s (Reach-IsCoherent v r) small o

  -- No such history changes an entry that is not useless, where the maps back and the entries agree at
  -- its start: of offsets with 32 bits, each of a DIE that has no entry yet or a useless one.
  pub Reach-stable :
      {n m : Node} (q : ℕ) (c : DieCache)
      → IsCoherent N n
      → Reach n m
      → supval n q ≡ some c
      → is_useless c.type ≡ false
      → supval m q ≡ some c
  Reach-stable q c v here h u = h
  Reach-stable q c v (next {m} s r small o) h u =
      let before = Reach-stable q c v r h u in
      set_frame s (Reach-IsCoherent v r) small o q (λ e. cc (o c (rw (← e) before))) ∙ before
