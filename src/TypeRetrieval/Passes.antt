-- ===== src/TypeRetrieval/Passes.antt =====
-- src/type_retrieval.cpp, retrieve_types: the three passes.
use idadwarf.Prelude.{ℕ, List}
use idadwarf.Session.{Host, Action, Void, ◌>>◌, try_visit, for_dies}
use idadwarf.TypeRetrieval.Pointers.{update_ptr_types}
use idadwarf.TypeRetrieval.SecondPass.{do_second_pass}
use idadwarf.TypeRetrieval.Visit.{visit_type_die}

module _ {H : Host} where
  -- try_visit_type_die
  unfoldable pub try_visit_type_die : (depth fuel : ℕ) → H.dwarf.Die → Action H Void
  try_visit_type_die depth fuel die = try_visit {H = H} (visit_type_die {H = H} depth fuel die)

  -- The DIEs `cus` are those of the compilation units.
  unfoldable pub retrieve_types : (depth fuel : ℕ) → List H.dwarf.Die → Action H Void
  unfolding try_visit_type_die
  retrieve_types depth fuel cus = do
    for_dies {H = H} fuel cus (try_visit_type_die depth fuel)
    do_second_pass {H = H} (try_visit_type_die depth fuel) fuel
    update_ptr_types {H = H} fuel
