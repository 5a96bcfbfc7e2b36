-- ===== src/Traversal/Preorder.antt =====
-- src/die_utils.cpp, do_dies_traversal: the order of the visits, against a recursive description.
use idadwarf.Prelude.{
  ℕ, zero, suc, ◌+◌, ◌-◌, ◌<◌, ◌≡◌, Option, none, some, List, [], ◌∷◌, ◌++◌, arith, refl, length,
  length-append, ap, sym, ◌∙◌,
}
use mathlib.Core.List.{foldl, foldl-append}
use idadwarf.Dwarf.{Libdwarf}
use idadwarf.Holder.Reading.{get_child, get_sibling}
use idadwarf.Traversal.{or_null, push, traverse, do_dies_traversal}

module _ (D : Libdwarf) where
  open D use {Die}

  -- The DIEs from one DIE on, in the order of the document: the DIE, those below it, and then its
  -- next sibling with those below and after that one. A derivation exists where the links of the
  -- DIEs are those of a finite tree.
  pub data Preorder : Option Die → List Die → Type 0 where
    nothing : Preorder none []
    die :
        (d : Die) {below after : List Die}
        → Preorder (or_null D (get_child D d)) below
        → Preorder (or_null D (get_sibling D d)) after
        → Preorder (some d) (d ∷ (below ++ after))

  -- For all compilation units.
  pub data Units : List Die → List Die → Type 0 where
    no_unit : Units [] []
    unit :
        (cu : Die) {cus ds rest : List Die}
        → Preorder (some cu) ds
        → Units cus rest
        → Units (cu ∷ cus) (ds ++ rest)

  module _ {W : Type 0} (visit : Die → W → W) where
    abbrev pub visit_all : W → List Die → W
    visit_all = foldl (λ w d. visit d w)

    -- A subtree on the stack is used up in as many rounds as it has DIEs.
    traverse_subtree :
        {from : Option Die} {ds : List Die}
        → Preorder from ds
        → (total fuel : ℕ) (stack : List Die) (w : W) → total ≡ length ds + fuel
        → traverse D visit total (push D from stack) w
          ≡ traverse D visit fuel stack (visit_all w ds)
    unfolding traverse
    traverse_subtree nothing total fuel stack w e =
        ap (λ t. traverse D visit t stack w) (omega arith)
    traverse_subtree (die d {below} {after} b a) zero fuel stack w e = absurd (omega arith)
    traverse_subtree (die d {below} {after} b a) (suc total) fuel stack w e =
        traverse_subtree b total (length after + fuel) _ (visit d w)
          (omega (arith, length-append below after))
        ∙ traverse_subtree a (length after + fuel) fuel stack _ refl
        ∙ ap (traverse D visit fuel stack) (sym (foldl-append _ _ below after))

    unit_lem :
        {cu : Die} {ds : List Die} (fuel : ℕ) (w : W)
        → Preorder (some cu) ds
        → length ds < fuel
        → traverse D visit fuel (cu ∷ []) w ≡ some (visit_all w ds)
    unfolding traverse
    unit_lem {ds = ds} fuel w p h =
        traverse_subtree p fuel (suc (fuel - length ds - 1)) [] w (omega arith)

    -- Where the DIEs of the compilation units form finite trees, with a link that cannot be read as one
    -- to nothing, and the fuel is more than the number of DIEs, the loops end, and every DIE is visited
    -- exactly once, in the order of the document.
    pub do_dies_traversal-visit_all :
        (fuel : ℕ) {cus ds : List Die} (w : W)
        → Units cus ds
        → length ds < fuel
        → do_dies_traversal D visit fuel cus w ≡ some (visit_all w ds)
    unfolding do_dies_traversal
    do_dies_traversal-visit_all fuel w no_unit h = refl
    do_dies_traversal-visit_all fuel w (unit cu {cus} {ds} {rest} p us) h =
        let both = length-append ds rest in
        rw
          (
            unit_lem fuel w p (omega arith),
            do_dies_traversal,
            foldl-append (λ w d. visit d w) w ds rest,
          )
          (do_dies_traversal-visit_all fuel _ us (omega arith))
