-- ===== src/Iterators/Comparison.antt =====
-- src/iterators.cpp: what operator== of the iterators says, and what a post-increment leaves.
use idadwarf.Prelude.{
  ℕ, ◌≡◌, refl, ap, sym, ◌∙◌, Bool, true, false, ◌&&◌, Option, none, some, if◌then◌else◌, ◌==◌,
  eq_of_==, ==_refl, ◌↔◌,
}
use idadwarf.Dwarf.{Libdwarf}
use idadwarf.Dwarf.Checked.{returns}
use idadwarf.Iterators.Objects.{
  Held, DieChildIterator, same_holder, child_eq, increment, post_increment,
}

module _ {Die : Type 0} (same : Die → Die → Bool)
    (same_iff : (x y : Die) → (same x y ≡ true) ↔ (x ≡ y)) where
  and_true : (a b : Bool) → (a && b) ≡ true → (a ≡ true) × (b ≡ true)
  and_true true true e = (refl, refl)
  and_true true false e = absurd (cc e)
  and_true false b e = absurd (cc e)

  of_same : (x y : Option (Held Die)) → same_holder same x y ≡ true → x ≡ y
  unfolding same_holder
  of_same none none e = refl
  of_same none (some y) e = absurd (cc e)
  of_same (some x) none e = absurd (cc e)
  of_same (some x) (some y) e =
      let (dbgs, dies) = and_true (x.dbg == y.dbg) (same x.die y.die) e in
      let dbg_eq = eq_of_== x.dbg y.dbg dbgs in
      let die_eq = (same_iff x.die y.die).0 dies in
      let eq : x ≡ y = λ i. record { dbg = dbg_eq i; die = die_eq i } in ap some eq

  same_refl : (x : Option (Held Die)) → same_holder same x x ≡ true
  unfolding same_holder
  same_refl none = refl
  same_refl (some x) = rw (==_refl x.dbg, (same_iff x.die x.die).1 refl) refl

  of_if : (b c : Bool) → (if b then c else false) ≡ true → (b ≡ true) × (c ≡ true)
  of_if true c e = (refl, e)
  of_if false c e = absurd (cc e)

  -- Where pointers to DIEs are compared by identity, two iterators over children are equal exactly
  -- where they have the same tag and the same holder's contents, or none on both sides.
  pub child_eq_iff : (a b : DieChildIterator Die) → (child_eq same a b ≡ true) ↔ (a ≡ b)
  unfolding child_eq
  child_eq_iff a b = (
    λ e.
        let (tags, holders) = of_if (a.m_tag == b.m_tag) _ e in
        let tag_eq = eq_of_== a.m_tag b.m_tag tags in
        let child_eq' = of_same a.m_current_child b.m_current_child holders in
        λ i. record { m_tag = tag_eq i; m_current_child = child_eq' i },
    λ e. ap (child_eq same a) (sym e) ∙ (rw (==_refl a.m_tag) (same_refl a.m_current_child)),
  )

module _ (D : Libdwarf) where
  -- The result of a post-increment is the iterator after the step, not the one before it, and the
  -- iterator itself is at its end, where it stays.
  post_increment_lem :
      (fuel : ℕ) (iter : DieChildIterator D.Die)
      → ((post_increment D fuel iter).0 ≡ increment D fuel iter)
        × ((post_increment D fuel iter).1.m_current_child ≡ none)
        × (increment D fuel (post_increment D fuel iter).1
            ≡ some (returns (post_increment D fuel iter).1))
  unfolding post_increment increment
  post_increment_lem fuel iter = (refl, refl, refl)
