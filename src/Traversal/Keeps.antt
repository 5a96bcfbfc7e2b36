-- ===== src/Traversal/Keeps.antt =====
-- src/die_utils.cpp, do_dies_traversal: what its visitor keeps.
use idadwarf.Prelude.{ℕ, zero, suc, Option, none, some, List, [], ◌∷◌}
use idadwarf.Dwarf.{Libdwarf}
use idadwarf.Traversal.{traverse, do_dies_traversal}

-- What a visitor keeps, a traversal keeps.
module _ (D : Libdwarf) {W : Type 0} (visit : D.Die → W → W) (P : W → Type 0)
    (keeps : (d : D.Die) (w : W) → P w → P (visit d w)) where
  unfoldable pub IsKept : Option W → Type 0
  IsKept none = Unit
  IsKept (some w) = P w

  traverse-IsKept :
      (fuel : ℕ) (stack : List D.Die) (w : W) → P w → IsKept (traverse D visit fuel stack w)
  unfolding traverse IsKept
  traverse-IsKept zero stack w p = tt
  traverse-IsKept (suc fuel) [] w p = p
  traverse-IsKept (suc fuel) (d ∷ stack) w p = traverse-IsKept fuel _ (visit d w) (keeps d w p)

  pub do_dies_traversal-IsKept :
      (fuel : ℕ) (cus : List D.Die) (w : W) → P w → IsKept (do_dies_traversal D visit fuel cus w)
  unfolding do_dies_traversal IsKept
  do_dies_traversal-IsKept fuel [] w p = p
  do_dies_traversal-IsKept fuel (d ∷ cus) w p =
      rest (traverse D visit fuel (d ∷ []) w) (traverse-IsKept fuel (d ∷ []) w p)
        (λ w' k. do_dies_traversal-IsKept fuel cus w' k)
    where
      rest :
          (r : Option W)
          → IsKept r
          → ((w' : W) → P w' → IsKept (do_dies_traversal D visit fuel cus w'))
          → IsKept (elim r [ none ↦ none | some w' ↦ do_dies_traversal D visit fuel cus w' ])
      rest none k next = tt
      rest (some w') k next = next w' k
