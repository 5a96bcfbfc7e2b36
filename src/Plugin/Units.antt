-- ===== src/Plugin/Units.antt =====
-- src/idadwarf.cpp, retrieve_cus: which DIEs are compilation units.
use mathlib.Core.List.{Memᴰ}
use mathlib.Core.List.Memᴰ.{head, tail}
use idadwarf.Prelude.{
  ◌≡◌, refl, ◌∙◌, ◌⊎◌, inl, inr, List, [], ◌∷◌, ◌==◌, Bool-cases, eq_of_==, ℕ, ap, ◌↔◌,
}
use idadwarf.Dwarf.{Libdwarf, DwResult, ok, no_entry, error}
use idadwarf.Dwarf.Checked.{Checked, returns, throws}
use idadwarf.Dwarf.Tags.{dw_tag_compile_unit}
use idadwarf.Holder.Reading.{get_tag}
use idadwarf.Plugin.Cus.{push_unit, retrieve_cus}

module _ (D : Libdwarf) where
  open D use {Die}

  push_unit_from :
      (cu : Die) (r : Checked ℕ) (cus : List Die) (d : Die)
      → Memᴰ d (push_unit D cu r cus)
      → ((d ≡ cu) × (r ≡ returns dw_tag_compile_unit)) ⊎ Memᴰ d cus
  unfolding push_unit
  push_unit_from cu (throws e) cus d m = inr m
  push_unit_from cu (returns tag) cus d m = elim (Bool-cases (tag == dw_tag_compile_unit)) [
    | inr other ↦ inr (rw other at m)
    | inl same ↦ pushed (eq_of_== _ _ same) (rw same at m)
  ]
    where
      pushed :
          tag ≡ dw_tag_compile_unit
          → Memᴰ d (cu ∷ cus)
          → ((d ≡ cu) × (returns tag ≡ returns dw_tag_compile_unit)) ⊎ Memᴰ d cus
      pushed t (head e) = inl (e, ap returns t)
      pushed t (tail m') = inr m'

  push_unit_keeps :
      (cu : Die) (r : Checked ℕ) (cus : List Die) (d : Die)
      → Memᴰ d cus
      → Memᴰ d (push_unit D cu r cus)
  unfolding push_unit
  push_unit_keeps cu (throws e) cus d m = m
  push_unit_keeps cu (returns tag) cus d m = elim (Bool-cases (tag == dw_tag_compile_unit)) [
    | inr other ↦ rw other m
    | inl same ↦ rw same (tail m)
  ]

  from_units :
      (units : List (DwResult Die)) (d : Die)
      → Memᴰ d (retrieve_cus D units)
      → Memᴰ (ok d) units × (get_tag D d ≡ returns dw_tag_compile_unit)
  unfolding retrieve_cus
  from_units [] d m = elim m [ ]
  from_units (no_entry ∷ units) d m = let (u, t) = from_units units d m in (tail u, t)
  from_units (error e ∷ units) d m = let (u, t) = from_units units d m in (tail u, t)
  from_units (ok cu ∷ units) d m =
      elim (push_unit_from cu (get_tag D cu) (retrieve_cus D units) d m) [
        | inl (e, t) ↦ (head (ap ok e), ap (get_tag D) e ∙ t)
        | inr m' ↦ let (u, t) = from_units units d m' in (tail u, t)
      ]

  to_cus :
      (units : List (DwResult Die)) (d : Die)
      → Memᴰ (ok d) units
      → get_tag D d ≡ returns dw_tag_compile_unit
      → Memᴰ d (retrieve_cus D units)
  unfolding retrieve_cus push_unit
  to_cus [] d u t = elim u [ ]
  to_cus (no_entry ∷ units) d (tail u) t = to_cus units d u t
  to_cus (no_entry ∷ units) d (head e) t = absurd (cc e)
  to_cus (error x ∷ units) d (tail u) t = to_cus units d u t
  to_cus (error x ∷ units) d (head e) t = absurd (cc e)
  to_cus (ok cu ∷ units) d (tail u) t =
      push_unit_keeps cu (get_tag D cu) (retrieve_cus D units) d (to_cus units d u t)
  to_cus (ok cu ∷ units) d (head e) t = let e' : d ≡ cu = cc in rw (← e', t) (head refl)

  -- The compilation units are the DIEs that were read for the units and whose tag can be read and is
  -- DW_TAG_compile_unit.
  pub retrieve_cus_iff :
      (units : List (DwResult Die)) (d : Die)
      → Memᴰ d (retrieve_cus D units)
        ↔ (Memᴰ (ok d) units × (get_tag D d ≡ returns dw_tag_compile_unit))
  retrieve_cus_iff units d = (from_units units d, λ (u, t). to_cus units d u t)
