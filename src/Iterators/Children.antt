-- ===== src/Iterators/Children.antt =====
-- src/iterators.cpp, DieChildIterator: a loop over the iterator sees the children with the tag.
use idadwarf.Prelude.{
  ℕ, zero, suc, ◌<◌, ◌≡◌, Bool, ◌||◌, Option, none, some, List, [], ◌∷◌, arith, refl, length,
  filterb, if◌then◌else◌, ◌==◌, Bool-cases, inl, inr,
}
use idadwarf.Dwarf.{Libdwarf}
use idadwarf.Dwarf.Checked.{returns}
use idadwarf.Holder.Reading.{get_child, get_sibling, get_tag}
use idadwarf.Iterators.{
  Seen, stop, item, has_tag, set_current_child, next_child, see_children, children,
}

module _ (D : Libdwarf) where
  open D use {Die}

  -- The DIEs from one DIE on along the siblings, with their tags.
  pub data Siblings : Option Die → List (Die × ℕ) → Type 0 where
    last : Siblings none []
    then_sibling :
        (d : Die) (tag : ℕ) (next : Option Die) {ds : List (Die × ℕ)}
        → get_tag D d ≡ returns tag
        → get_sibling D d ≡ returns next
        → Siblings next ds
        → Siblings (some d) ((d, tag) ∷ ds)

  abbrev pub wanted : ℕ → Die × ℕ → Bool
  wanted m_tag (_, tag) = m_tag == 0 || tag == m_tag

  abbrev pub items : List (Die × ℕ) → Seen D
  items [] = stop
  items ((d, _) ∷ ds) = item d (items ds)

  has_tag_lem :
      (m_tag tag : ℕ) (d : Die)
      → get_tag D d ≡ returns tag
      → has_tag D m_tag d ≡ returns (wanted m_tag (d, tag))
  unfolding has_tag
  has_tag_lem m_tag tag d e = elim (Bool-cases (m_tag == 0)) [
    | inl h ↦ rw h refl
    | inr h ↦ rw (h, e) refl
  ]

  set_current_child_lem :
      (first m_tag tag : ℕ) (d : Die) (next : Option Die)
      → get_tag D d ≡ returns tag
      → get_sibling D d ≡ returns next
      → set_current_child D (suc first) m_tag (some d) ≡ (
          if wanted m_tag (d, tag)
          then some (returns (some d))
          else set_current_child D first m_tag next)
  unfolding set_current_child
  set_current_child_lem first m_tag tag d next t sib = elim (Bool-cases (wanted m_tag (d, tag))) [
    | inl hit ↦ rw (has_tag_lem m_tag tag d t, set_current_child, hit) refl
    | inr miss ↦ rw (has_tag_lem m_tag tag d t, set_current_child, miss, sib) refl
  ]

  -- What set_current_child finds, and what is left after it.
  see_lem :
      (fuel m_tag : ℕ) {start : Option Die} {ds : List (Die × ℕ)}
      → Siblings start ds
      → (rounds first : ℕ) → length ds < rounds
      → length ds < fuel
      → length ds < first
      → see_children D rounds fuel m_tag (set_current_child D first m_tag start)
        ≡ some (items (filterb (wanted m_tag) ds))
  unfolding see_children next_child filterb
  see_lem fuel m_tag s zero first r f h = absurd (omega arith)
  see_lem fuel m_tag s (suc rounds) zero r f h = absurd (omega arith)
  see_lem fuel m_tag last (suc rounds) (suc first) r f h = unfold set_current_child in refl
  see_lem fuel m_tag (then_sibling d tag next {ds} t sib s) (suc rounds) (suc first) r f h =
      elim (Bool-cases (wanted m_tag (d, tag))) [
        | inl hit ↦
            rw
              (
                set_current_child_lem first m_tag tag d next t sib,
                hit,
                see_children,
                next_child,
                sib,
                see_lem fuel m_tag {start = next} {ds = ds} s rounds fuel (omega arith)
                    (omega arith) (omega arith),
              )
              refl
        | inr miss ↦
            rw (set_current_child_lem first m_tag tag d next t sib, miss)
              (see_lem fuel m_tag {start = next} {ds = ds} s (suc rounds) first (omega arith)
                (omega arith) (omega arith))
      ]

  -- Where the children can be read, the loop sees those with the tag (all of them for the tag 0),
  -- in order, and ends.
  pub children-filterb :
      (fuel m_tag : ℕ) (die : Die) {start : Option Die} {ds : List (Die × ℕ)}
      → get_child D die ≡ returns start
      → Siblings start ds
      → length ds < fuel
      → children D fuel m_tag die ≡ some (items (filterb (wanted m_tag) ds))
  unfolding children
  children-filterb fuel m_tag die c s h = rw (c, children) (see_lem fuel m_tag s fuel fuel h h h)
