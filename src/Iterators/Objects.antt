-- ===== src/Iterators/Objects.antt =====
-- src/iterators.hpp and src/iterators.cpp: the iterators as objects, with their comparison, their
-- copies and both operators ++. A holder is owned by an auto_ptr, so a copy takes it away from the
-- iterator that is copied.
use idadwarf.Prelude.{ℕ, Bool, true, false, ◌&&◌, Option, none, some, if◌then◌else◌, ◌==◌}
use idadwarf.Dwarf.{Libdwarf}
use idadwarf.Dwarf.Checked.{Checked, returns, throws}
use idadwarf.Iterators.{next_child}

-- What an iterator compares of a holder, which it may not have.
pub record Held (Die : Type 0) : Type 0 where
  pub dbg : ℕ
  pub die : Die

pub record DieChildIterator (Die : Type 0) : Type 0 where
  pub m_tag : ℕ
  pub m_current_child : Option (Held Die)

pub record CachedDieIterator (Die : Type 0) : Type 0 where
  pub m_dbg : ℕ
  pub m_tag : ℕ
  pub m_current_idx : ℕ
  pub m_current_die : Option (Held Die)

module _ {Die : Type 0} (same : Die → Die → Bool) where
  -- The same holder, or none on both sides.
  unfoldable pub same_holder : Option (Held Die) → Option (Held Die) → Bool
  same_holder (some current) (some other) = current.dbg == other.dbg && same current.die other.die
  same_holder none none = true
  same_holder (some current) none = false
  same_holder none (some other) = false

  unfoldable pub child_eq : DieChildIterator Die → DieChildIterator Die → Bool
  unfolding same_holder
  child_eq current other =
      if current.m_tag == other.m_tag
      then same_holder current.m_current_child other.m_current_child
      else false

  -- The tags and the Dwarf_Debugs of the iterators are not compared.
  pub cached_die_eq : CachedDieIterator Die → CachedDieIterator Die → Bool
  unfolding same_holder
  cached_die_eq current other =
      if current.m_current_idx == other.m_current_idx
      then same_holder current.m_current_die other.m_current_die
      else false

module _ {Die : Type 0} where
  -- The copy, and what is left of the iterator.
  unfoldable pub copy_child : DieChildIterator Die → DieChildIterator Die × DieChildIterator Die
  copy_child other = (other, record other { m_current_child = none })

  unfoldable pub copy_cached_die :
      CachedDieIterator Die → CachedDieIterator Die × CachedDieIterator Die
  copy_cached_die other = (other, record other { m_current_die = none })

module _ (D : Libdwarf) where
  open D use {Die}

  moved : DieChildIterator Die → ℕ → Checked (Option Die) → Checked (DieChildIterator Die)
  moved iter dbg (throws e) = throws e
  moved iter dbg (returns none) = returns (record iter { m_current_child = none })
  moved iter dbg (returns (some d)) =
      returns (record iter { m_current_child = some (record { dbg = dbg; die = d }) })

  -- operator++(); `none`: the fuel ran out.
  unfoldable pub increment : ℕ → DieChildIterator Die → Option (Checked (DieChildIterator Die))
  unfolding moved
  increment fuel iter = elim iter.m_current_child [
    | none ↦ some (returns iter)
    | some holder ↦ elim (next_child D fuel iter.m_tag holder.die) [
      | none ↦ none
      | some r ↦ some (moved iter holder.dbg r)
    ]
  ]

  -- operator++(int): the result, and what is left of the iterator.
  unfoldable pub post_increment :
      ℕ → DieChildIterator Die → Option (Checked (DieChildIterator Die)) × DieChildIterator Die
  unfolding copy_child
  post_increment fuel iter = let (copy, left) = copy_child iter in (increment fuel copy, left)
