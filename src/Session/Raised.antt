-- ===== src/Session/Raised.antt =====
-- src/die_utils.hpp and src/die_utils.cpp: the exceptions that do not come out of a traversal.
use idadwarf.Prelude.{ℕ, ◌≢◌, Option, none, some, List}
use idadwarf.Session.{
  Host, Outcome, done, raised, exhausted, World, Action, Void, handled, try_visit, visit_in,
  visited, for_dies,
}
use idadwarf.Traversal.Keeps.{IsKept, do_dies_traversal-IsKept}

module _ {H : Host} where
  -- An exception never comes out of what is visited behind the wrapper.
  pub try_visit_not_raised :
      (m : Action H Void) (w : World H) (e : Option ℕ) → (try_visit m w).0 ≢ raised e
  unfolding try_visit handled
  try_visit_not_raised m w e = caught (m w).0
    where
      caught : (r : Outcome Void) → handled r ≢ raised e
      caught (done v) h = cc
      caught (raised e2) h = cc
      caught exhausted h = cc

  visit_in_not_raised :
      (visit : H.dwarf.Die → Action H Void)
      → ((d : H.dwarf.Die) (w : World H) (e : Option ℕ) → (visit d w).0 ≢ raised e)
      → (d : H.dwarf.Die) (r : Outcome Void × World H) → ((e : Option ℕ) → r.0 ≢ raised e)
      → (e : Option ℕ) → (visit_in visit d r).0 ≢ raised e
  unfolding visit_in
  visit_in_not_raised visit k d (done tt, w) h = k d w
  visit_in_not_raised visit k d (raised e, w) h = h
  visit_in_not_raised visit k d (exhausted, w) h = h

  -- A traversal throws nothing that its visitor does not throw.
  pub for_dies_not_raised :
      (fuel : ℕ) (cus : List H.dwarf.Die) (visit : H.dwarf.Die → Action H Void)
      → ((d : H.dwarf.Die) (w : World H) (e : Option ℕ) → (visit d w).0 ≢ raised e)
      → (w : World H) (e : Option ℕ) → (for_dies fuel cus visit w).0 ≢ raised e
  unfolding for_dies visited IsKept
  for_dies_not_raised fuel cus visit k w e = ends _ (
      do_dies_traversal-IsKept H.dwarf (visit_in visit) (λ r. (e : Option ℕ) → r.0 ≢ raised e)
        (visit_in_not_raised visit k) fuel cus (done tt, w) (λ e h. cc))
    where
      ends :
          (o : Option (Outcome Void × World H))
          → IsKept H.dwarf
              (visit_in visit)
              (λ r. (e : Option ℕ) → r.0 ≢ raised e)
              (visit_in_not_raised visit k)
              o
          → (visited w o).0 ≢ raised e
      ends none k' h = cc
      ends (some r) k' h = k' e h
