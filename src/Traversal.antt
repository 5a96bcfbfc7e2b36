-- ===== src/Traversal.antt =====
-- src/die_utils.cpp, do_dies_traversal: all the DIEs of the compilation units, by an explicit stack.
-- `visit` is an exception-safe visitor, a function of the state W of the plugin.
use idadwarf.Prelude.{ℕ, zero, suc, Option, none, some, List, [], ◌∷◌}
use idadwarf.Dwarf.{Libdwarf}
use idadwarf.Dwarf.Checked.{Checked, returns, throws}
use idadwarf.Holder.Reading.{get_child, get_sibling}
pub mod Preorder
pub mod Keeps

module _ (D : Libdwarf) where
  open D use {Die}

  -- Where the exception is caught, there is nothing to push.
  abbrev pub or_null : Checked (Option Die) → Option Die
  or_null (returns d) = d
  or_null (throws e) = none

  abbrev pub push : Option Die → List Die → List Die
  push none stack = stack
  push (some d) stack = d ∷ stack

  module _ {W : Type 0} (visit : Die → W → W) where
    -- The inner loop; the top of the stack is the head of the list. `none`: the fuel ran out.
    pub traverse : ℕ → List Die → W → Option W
    traverse zero stack w = none
    traverse (suc fuel) [] w = some w
    traverse (suc fuel) (current ∷ stack) w =
        traverse fuel
          (push (or_null (get_child D current)) (push (or_null (get_sibling D current)) stack))
          (visit current w)

    -- The outer loop, over the DIEs of the compilation units.
    unfoldable pub do_dies_traversal : ℕ → List Die → W → Option W
    unfolding traverse
    do_dies_traversal fuel [] w = some w
    do_dies_traversal fuel (cu_die ∷ cus) w = elim (traverse fuel (cu_die ∷ []) w) [
      | none ↦ none
      | some w' ↦ do_dies_traversal fuel cus w'
    ]
