-- ===== src/Session/Cached/Order.antt =====
-- src/iterators.cpp, CachedDieIterator: which DIEs a loop over the cache sees.
use idadwarf.Prelude.{
  ℕ, zero, suc, ◌<◌, ◌≡◌, ◌≢◌, refl, ap, ◌∙◌, some, List, [], ◌∷◌, ◌==◌, ==_ne, if◌then◌else◌,
  Bool-cases, inl, inr, length, filterb, arith,
}
use idadwarf.Dwarf.Checked.{returns, check_dwerr}
use idadwarf.Holder.Reading.{get_tag as tag_of_die}
use idadwarf.Iterators.Children.{wanted}
use idadwarf.Session.{
  Host, Outcome, done, raised, exhausted, World, Action, Void, pure, gets, continue, ◌>>=◌, ◌>>◌,
}
use idadwarf.Session.Cached.{set_current_die, see_cached, for_cached}
use idadwarf.Session.Runs.{new_die_run, get_tag_run}
use idadwarf.TypeUtils.{badnode}

module _ (H : Host) where
  -- The DIEs of the cache from an index on, with their tags, where they can be read.
  pub data CachedDies (node : H.netnode.Node) : ℕ → List (H.dwarf.Die × ℕ) → Type 0 where
    no_dies : CachedDies node badnode []
    cached_die :
        (idx : ℕ) (die : H.dwarf.Die) (tag : ℕ) {ds : List (H.dwarf.Die × ℕ)}
        → idx ≢ badnode
        → check_dwerr (H.dwarf.offdie idx) ≡ returns die
        → tag_of_die H.dwarf die ≡ returns tag
        → CachedDies node (H.get_next_offset node idx) ds
        → CachedDies node idx ((die, tag) ∷ ds)

module _ {H : Host} where
  -- The body for each of some DIEs, in their order, up to one where it does not return.
  pub for_each : (H.dwarf.Die → Action H Void) → List (H.dwarf.Die × ℕ) → Action H Void
  for_each body [] = pure tt
  for_each body ((die, tag) ∷ ds) = body die >> for_each body ds

  -- What set_current_die does at a DIE.
  at_lem :
      (fuel m_tag idx tag : ℕ) (die : H.dwarf.Die) (w : World H)
      → idx ≢ badnode
      → check_dwerr (H.dwarf.offdie idx) ≡ returns die
      → tag_of_die H.dwarf die ≡ returns tag
      → set_current_die {H = H} (suc fuel) m_tag idx w ≡ (
          if wanted H.dwarf m_tag (die, tag)
          then (done (some (idx, die)), w)
          else set_current_die {H = H} fuel m_tag (H.get_next_offset w.node idx) w)
  unfolding set_current_die pure gets ◌>>=◌
  at_lem fuel m_tag idx tag die w nb d t = elim (Bool-cases (m_tag == 0)) [
    | inl any ↦ rw (==_ne idx badnode nb, new_die_run idx w die d, any) refl
    | inr some_tag ↦
        rw (==_ne idx badnode nb, new_die_run idx w die d, some_tag, get_tag_run die w tag t)
          (elim (Bool-cases (tag == m_tag)) [ inl same ↦ rw same refl | inr other ↦ rw other refl ])
  ]

  continue_eq :
      (f g : Void → Action H Void) (r : Outcome Void) (w : World H)
      → f tt w ≡ g tt w
      → continue r f w ≡ continue r g w
  continue_eq f g (done tt) w e = e
  continue_eq f g (raised x) w e = refl
  continue_eq f g exhausted w e = refl

  module _ (m_tag fuel : ℕ) (body : H.dwarf.Die → Action H Void)
      (keeps : (d : H.dwarf.Die) (w : World H) → (body d w).1.node ≡ w.node) where
    -- The rounds of the loop from an index on.
    rounds_from : (rounds first idx : ℕ) → Action H Void
    rounds_from rounds first idx =
        set_current_die {H = H} first m_tag idx >>= see_cached {H = H} rounds fuel m_tag body

    round_lem :
        (rounds idx : ℕ) (die : H.dwarf.Die) (n : H.netnode.Node) (then_each : Action H Void)
        → ((w : World H)
            → w.node ≡ n
            → rounds_from rounds fuel (H.get_next_offset n idx) w ≡ then_each w)
        → (w : World H) → w.node ≡ n
        → see_cached {H = H} (suc rounds) fuel m_tag body (some (idx, die)) w
          ≡ (body die >> then_each) w
    unfolding see_cached rounds_from gets ◌>>=◌
    round_lem rounds idx die n then_each later w e =
        let e' : (body die w).1.node ≡ n = keeps die w ∙ e in
        continue_eq _ (λ _. then_each) (body die w).0 (body die w).1
          (ap (λ m. rounds_from rounds fuel (H.get_next_offset m idx) (body die w).1) e'
            ∙ later (body die w).1 e')

    from_lem :
        (rounds first idx : ℕ) {ds : List (H.dwarf.Die × ℕ)} (n : H.netnode.Node)
        → CachedDies H n idx ds
        → (w : World H) → w.node ≡ n
        → length ds < rounds
        → length ds < first
        → length ds < fuel
        → rounds_from rounds first idx w ≡ for_each body (filterb (wanted H.dwarf m_tag) ds) w
    unfolding rounds_from for_each filterb set_current_die see_cached ◌>>=◌ pure
    from_lem zero first idx n s w e r f h = absurd (omega arith)
    from_lem (suc rounds) zero idx n s w e r f h = absurd (omega arith)
    from_lem (suc rounds) (suc first) idx n no_dies w e r f h = refl
    from_lem (suc rounds) (suc first) _ n (cached_die idx die tag {ds} nb d t s) w e r f h =
        elim (Bool-cases (wanted H.dwarf m_tag (die, tag))) [
          | inl hit ↦
              rw (at_lem first m_tag idx tag die w nb d t, hit)
                (round_lem rounds idx die n (for_each body (filterb (wanted H.dwarf m_tag) ds))
                  (λ w' e'.
                    from_lem rounds fuel _ n s w' e' (omega arith) (omega arith) (omega arith))
                  w e)
          | inr miss ↦
              rw (at_lem first m_tag idx tag die w nb d t, miss)
                (ap (λ m. rounds_from (suc rounds) first (H.get_next_offset m idx) w) e
                  ∙ from_lem (suc rounds) first _ n s w e (omega arith) (omega arith) (omega arith))
        ]

    -- A loop over the DIEs of the cache, whose body leaves the cache as it is, does its body for the
    -- DIEs with the tag (for all of them with the tag 0), in the order of the cache, and for no other;
    -- it ends, or stops where the body does. The DIEs of the cache can be read.
    pub for_cached-filterb :
        (w : World H) {ds : List (H.dwarf.Die × ℕ)}
        → CachedDies H w.node (H.get_first_offset w.node) ds
        → length ds < fuel
        → for_cached {H = H} fuel m_tag body w ≡ for_each body (filterb (wanted H.dwarf m_tag) ds) w
    unfolding for_cached rounds_from gets ◌>>=◌
    for_cached-filterb w s h = from_lem fuel fuel _ w.node s w refl h h h
