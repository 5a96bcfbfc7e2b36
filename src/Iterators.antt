-- ===== src/Iterators.antt =====
-- src/iterators.hpp and src/iterators.cpp. The iterators are exhausted where they hold NULL; the
-- loops over the links of DIEs and of netnode indices take fuel, and `none` is that it ran out.
use idadwarf.Prelude.{ℕ, zero, suc, Bool, true, false, Option, none, some, if◌then◌else◌, ◌==◌}
use idadwarf.Dwarf.{Libdwarf}
use idadwarf.Dwarf.Checked.{Checked, returns, throws, ◌>>=◌}
use idadwarf.Holder.Reading.{get_child, get_sibling, get_tag}
pub mod Children
pub mod Objects
pub mod Comparison

module _ (D : Libdwarf) where
  open D use {Die}

  -- m_tag == 0 || child_holder->get_tag() == m_tag
  has_tag : ℕ → Die → Checked Bool
  has_tag m_tag child_die =
      if m_tag == 0 then returns true else (do tag ← get_tag D child_die; returns (tag == m_tag))

  -- set_current_child: the first DIE with the tag, from a DIE on along its siblings.
  pub set_current_child : ℕ → ℕ → Option Die → Option (Checked (Option Die))
  set_current_child zero m_tag child_die = none
  set_current_child (suc fuel) m_tag none = some (returns none)
  set_current_child (suc fuel) m_tag (some child_die) = elim (has_tag m_tag child_die) [
    | throws e ↦ some (throws e)
    | returns true ↦ some (returns (some child_die))
    | returns false ↦ elim (get_sibling D child_die) [
      | throws e ↦ some (throws e)
      | returns sibling ↦ set_current_child fuel m_tag sibling
    ]
  ]

  -- operator++
  pub next_child : ℕ → ℕ → Die → Option (Checked (Option Die))
  next_child fuel m_tag current_child = elim (get_sibling D current_child) [
    | throws e ↦ some (throws e)
    | returns sibling_die ↦ set_current_child fuel m_tag sibling_die
  ]

  -- What a loop `for(; *iter != NULL; ++iter)` sees: the DIEs, up to the end or to an exception.
  pub data Seen : Type 0 where
    stop : Seen
    failed : Option ℕ → Seen
    item : Die → Seen → Seen

  see_children : ℕ → ℕ → ℕ → Option (Checked (Option Die)) → Option Seen
  see_children zero fuel m_tag r = none
  see_children (suc rounds) fuel m_tag none = none
  see_children (suc rounds) fuel m_tag (some (throws e)) = some (failed e)
  see_children (suc rounds) fuel m_tag (some (returns none)) = some stop
  see_children (suc rounds) fuel m_tag (some (returns (some d))) =
      elim (see_children rounds fuel m_tag (next_child fuel m_tag d)) [
        | none ↦ none
        | some seen ↦ some (item d seen)
      ]

  -- A loop over DieChildIterator(die_holder, tag).
  pub children : ℕ → ℕ → Die → Option Seen
  children fuel m_tag die = elim (get_child D die) [
    | throws e ↦ some (failed e)
    | returns child_die ↦ see_children fuel fuel m_tag (set_current_child fuel m_tag child_die)
  ]
