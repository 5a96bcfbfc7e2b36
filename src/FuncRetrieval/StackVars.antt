-- ===== src/FuncRetrieval/StackVars.antt =====
-- src/func_retrieval.cpp, process_stack_var: which area of the frame base places a variable.
use idadwarf.Prelude.{
  ℕ, ◌≡◌, Bool, true, false, not, ◌||◌, ◌&&◌, Option, none, some, List, [], ◌∷◌, refl, arith,
  if◌then◌else◌, ◌==◌, leb, ltb, badaddr, All, Bool-cases, inl, inr, ◌∙◌,
}
use idadwarf.Dwarf.{Loc, Locdesc}
use idadwarf.Holder.Location.{OffsetArea, OffsetAreas}
use idadwarf.FuncRetrieval.{Area, area_of, area_offset, takes_area, find_area}

either_way {ℓ} : {A : Type ℓ} (b : Bool) (x : A) → (if b then x else x) ≡ x
either_way true x = refl
either_way false x = refl

module _ (contains : Area → Area → Bool) (fpd : ℕ) (areas : OffsetAreas) (locdesc : Locdesc)
    (loc : Loc) where
  abbrev pub takes : OffsetArea → Bool
  takes = takes_area contains fpd areas locdesc loc

  -- The offset by the first area that can be used.
  pub first_offset : List OffsetArea → Option ℕ
  first_offset [] = none
  first_offset (a ∷ later) =
      let rest = first_offset later in
      if takes a then some (area_offset contains fpd areas locdesc loc a) else rest

  find_area_skip :
      (a : OffsetArea) (later : List OffsetArea)
      → locdesc.ld_from_loclist ≡ false
      → contains (area_of a) (badaddr, badaddr) ≡ false
      → takes a ≡ false
      → find_area contains fpd areas locdesc loc (a ∷ later) (badaddr, badaddr)
        ≡ find_area contains fpd areas locdesc loc later (badaddr, badaddr)
  unfolding find_area
  find_area_skip a later whole outside skip = rw (whole, skip, find_area, outside) (either_way _ _)

  -- An area that can be used is not skipped.
  takes_stays :
      (a : OffsetArea)
      → takes a ≡ true
      → (not a.use_fp && (areas.m_rel_addr == badaddr || ltb a.start_ea areas.m_rel_addr)) ≡ false
  takes_stays a t = by_flag a.use_fp t
    where
      by_flag :
          (u : Bool)
          → (u || (not (areas.m_rel_addr == badaddr) && leb areas.m_rel_addr a.start_ea)) ≡ true
          → (not u && (areas.m_rel_addr == badaddr || ltb a.start_ea areas.m_rel_addr)) ≡ false
      by_flag true h = refl
      by_flag false h = ground arith

  find_area_stop :
      (a : OffsetArea) (later : List OffsetArea)
      → locdesc.ld_from_loclist ≡ false
      → contains (area_of a) (area_of a) ≡ true
      → takes a ≡ true
      → find_area contains fpd areas locdesc loc (a ∷ later) (badaddr, badaddr)
        ≡ some (area_offset contains fpd areas locdesc loc a)
  unfolding find_area
  find_area_stop a later whole inside t = rw (whole, t, find_area, takes_stays a t, inside) refl

  -- A variable of the whole function, with a frame base operation, is placed by the first area of
  -- the frame base that can be used: by one that is based on the frame pointer, or that does not
  -- start before the address from which the stack base holds. An area contains itself, and one that
  -- cannot be used does not contain the area at BADADDR.
  pub find_area-first_offset :
      (list : List OffsetArea)
      → locdesc.ld_from_loclist ≡ false
      → All
          (λ a.
            (contains (area_of a) (area_of a) ≡ true)
            × (takes a ≡ false → contains (area_of a) (badaddr, badaddr) ≡ false))
          list
      → find_area contains fpd areas locdesc loc list (badaddr, badaddr) ≡ first_offset list
  unfolding first_offset find_area
  find_area-first_offset [] whole h = refl
  find_area-first_offset (a ∷ later) whole h = elim (Bool-cases (takes a)) [
    | inl t ↦ find_area_stop a later whole h.0.0 t ∙ taken t
    | inr t ↦
        find_area_skip a later whole (h.0.1 t) t
        ∙ find_area-first_offset later whole h.1
        ∙ skipped t
  ]
    where
      skipped : takes a ≡ false → first_offset later ≡ first_offset (a ∷ later)
      skipped t = rw (t, first_offset) refl

      taken :
          takes a ≡ true
          → some (area_offset contains fpd areas locdesc loc a) ≡ first_offset (a ∷ later)
      taken t = rw (t, first_offset) refl
