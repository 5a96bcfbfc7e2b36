-- ===== src/Holder/Location/Frame.antt =====
-- src/die_utils.cpp, get_frame_base_offsets: the areas that are collected.
use idadwarf.Prelude.{
  ◌≡◌, true, false, ◌||◌, List, [], ◌∷◌, ◌++◌, refl, arith, Bool-cases, inl, inr, ◌==◌, ◌⊎◌,
  badaddr, to_word, ◌∙◌, sym, not, if◌then◌else◌, ap,
}
use mathlib.Core.List.{append_assoc, append-nil}
use idadwarf.Dwarf.{Loc, Locdesc}
use idadwarf.Dwarf.Tags.{dw_op_breg4, dw_op_breg5}
use idadwarf.Holder.Location.{OffsetArea, located_area, frame_base_area, push_areas}

-- The area of a description: it has a single location, based on esp or ebp, whose number is the
-- offset; the range is that of the description in a list, and none in a location block.
pub record IsAreaOf (d : Locdesc) (a : OffsetArea) : Type 0 where
  pub loc : Loc
  pub single : d.ld_s ≡ loc ∷ []
  pub based :
      (loc.lr_atom ≡ dw_op_breg4) × (a.use_fp ≡ false)
      ⊎ (loc.lr_atom ≡ dw_op_breg5) × (a.use_fp ≡ true)
  pub offset : a.offset ≡ to_word loc.lr_number
  pub range :
      (d.ld_from_loclist ≡ false) × (a.start_ea ≡ badaddr) × (a.end_ea ≡ badaddr)
      ⊎ (d.ld_from_loclist ≡ true)
        × (a.start_ea ≡ to_word d.ld_lopc)
        × (a.end_ea ≡ to_word d.ld_hipc)

-- The areas of some descriptions, in their order, where those without an area are left out.
pub data AreasOf : List Locdesc → List OffsetArea → Type 0 where
  no_more : AreasOf [] []
  with_area :
      (d : Locdesc) (a : OffsetArea) {ds : List Locdesc} {found : List OffsetArea}
      → IsAreaOf d a
      → AreasOf ds found
      → AreasOf (d ∷ ds) (a ∷ found)
  without :
      (d : Locdesc) {ds : List Locdesc} {found : List OffsetArea}
      → ((a : OffsetArea) → ¬ IsAreaOf d a)
      → AreasOf ds found
      → AreasOf (d ∷ ds) found

range_lem :
    (d : Locdesc)
    → (d.ld_from_loclist ≡ false)
        × ((if not d.ld_from_loclist then badaddr else to_word d.ld_lopc) ≡ badaddr)
        × ((if not d.ld_from_loclist then badaddr else to_word d.ld_hipc) ≡ badaddr)
      ⊎ (d.ld_from_loclist ≡ true)
        × ((if not d.ld_from_loclist then badaddr else to_word d.ld_lopc) ≡ to_word d.ld_lopc)
        × ((if not d.ld_from_loclist then badaddr else to_word d.ld_hipc) ≡ to_word d.ld_hipc)
range_lem d = elim (Bool-cases d.ld_from_loclist) [
  | inl e ↦ inr (e, rw e refl, rw e refl)
  | inr e ↦ inl (e, rw e refl, rw e refl)
]

-- A description has an area, which is pushed, or none, and then none is pushed.
HasArea : Locdesc → List OffsetArea → Type 0
HasArea d pushed =
    ((a : OffsetArea) × (pushed ≡ a ∷ []) × IsAreaOf d a)
    ⊎ (pushed ≡ []) × ((a : OffsetArea) → ¬ IsAreaOf d a)

located_area-HasArea : (d : Locdesc) (ls : List Loc) → d.ld_s ≡ ls → HasArea d (located_area d ls)
unfolding located_area HasArea
located_area-HasArea d [] e =
    inr (refl, λ a h. let e' : [] ≡ h.loc ∷ [] = sym e ∙ h.single in absurd (cc e'))
located_area-HasArea d (loc ∷ []) e =
    elim (Bool-cases (loc.lr_atom == dw_op_breg4 || loc.lr_atom == dw_op_breg5)) [
      | inl based ↦ rw based (
          inl (
            _,
            refl,
            record {
              loc = loc;
              single = e;
              based = ground arith;
              offset = refl;
              range = range_lem d;
            },
          ))
      | inr other ↦ rw other (
          inr (
            refl,
            λ a h.
                let e' : h.loc ∷ [] ≡ loc ∷ [] = sym h.single ∙ e in
                let same : h.loc ≡ loc = cc in
                let atoms : h.loc.lr_atom ≡ loc.lr_atom = ap (λ l. l.lr_atom) same in
                elim h.based [
                  | inl (b, _) ↦ let b' : loc.lr_atom ≡ dw_op_breg4 = sym atoms ∙ b in ground arith
                  | inr (b, _) ↦ let b' : loc.lr_atom ≡ dw_op_breg5 = sym atoms ∙ b in ground arith
                ],
          ))
    ]
located_area-HasArea d (x ∷ y ∷ ls) e =
    inr (refl, λ a h. let e' : x ∷ y ∷ ls ≡ h.loc ∷ [] = sym e ∙ h.single in absurd (cc e'))

-- The areas of the descriptions, and nothing else, are put behind the areas that are there, in the
-- order of the descriptions.
pub push_areas-AreasOf :
    (areas : List OffsetArea) (ds : List Locdesc)
    → (found : List OffsetArea) × (push_areas areas ds ≡ areas ++ found) × AreasOf ds found
unfolding push_areas frame_base_area HasArea
push_areas-AreasOf areas [] = ([], sym (append-nil areas), no_more)
push_areas-AreasOf areas (d ∷ ds) =
    let (found, pushed, shown) = push_areas-AreasOf (areas ++ frame_base_area d) ds in
    elim (located_area-HasArea d d.ld_s refl) [
      | inl (a, one, is) ↦ (
        a ∷ found,
        pushed ∙ (append_assoc areas _ _ ∙ ap (λ l. areas ++ (l ++ found)) one),
        with_area d a is shown,
      )
      | inr (nothing, lacks) ↦ (
        found,
        pushed ∙ (append_assoc areas _ _ ∙ ap (λ l. areas ++ (l ++ found)) nothing),
        without d lacks shown,
      )
    ]
