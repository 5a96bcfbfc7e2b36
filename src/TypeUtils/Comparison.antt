-- ===== src/TypeUtils/Comparison.antt =====
-- src/type_utils.cpp, EnumCmp and StrucCmp: what the comparisons read, and when an enumeration counts
-- as equal.
pub mod Structures
use mathlib.Core.List.{Perm, perm-cons, mem-cons_self}
use mathlib.Core.List.Perm.{rfl, cons, trans, symm, mem_iff, nil-eq}
use idadwarf.Prelude.{
  ℕ, ◌≡◌, ◌≢◌, ◌↔◌, Bool, true, Option, none, some, List, [], ◌∷◌, ◌++◌, refl, if◌then◌else◌, ◌==◌,
  ==_ne, Option-cases, inl, inr, ap, ◌∙◌,
}
use idadwarf.Dwarf.{Libdwarf}
use idadwarf.Dwarf.Checked.{Checked, returns, throws, ◌>>=◌}
use idadwarf.Dwarf.Tags.{dw_tag_enumerator}
use idadwarf.Iterators.{children, Seen, stop, item}
use idadwarf.TypeUtils.{
  badnode, is_empty, EnumCmp, visit_consts, add_all_members, find, const_of, erase_consts,
  enum_equal,
}
use idadwarf.TypeUtils.NameMap.{
  Names, put, take_entry, take_entry-Perm, IsMap, take_entry-some, take_entry-IsMap, put-IsMap,
}

-- The map that a comparison starts from has each name once.
pub visit_consts-IsMap :
    (consts : List (Option (List ℕ) × ℕ)) (m : Names) → IsMap m → IsMap (visit_consts consts m)
unfolding visit_consts
visit_consts-IsMap [] m f = f
visit_consts-IsMap ((none, value) ∷ consts) m f = f
visit_consts-IsMap ((some name, value) ∷ consts) m f =
    visit_consts-IsMap consts (put name value m) (put-IsMap name value m f)

pub add_all_members-IsMap :
    (u : Bool) (members : List (Option (List ℕ) × ℕ)) (m : Names)
    → IsMap m
    → IsMap (add_all_members u members m)
unfolding add_all_members
add_all_members-IsMap u [] m f = f
add_all_members-IsMap u ((none, soff) ∷ members) m f = add_all_members-IsMap u members m f
add_all_members-IsMap u ((some name, soff) ∷ members) m f =
    add_all_members-IsMap u members _ (put-IsMap name _ m f)

find_lem : (m : Names) (n : List ℕ) (v : ℕ) → find m (some n) v ≡ returns (take_entry n v m)
unfolding find take_entry
find_lem [] n v = refl
find_lem (e ∷ m) n v = refl

pub is_empty_iff :
    (c : Checked Names) → ((do m ← c; returns (is_empty m)) ≡ returns true) ↔ (c ≡ returns [])
is_empty_iff (returns []) = (λ _. refl, λ _. refl)
is_empty_iff (returns (e ∷ m)) = (λ h. absurd (cc h), λ h. absurd (cc h))
is_empty_iff (throws e) = (λ h. absurd (cc h), λ h. absurd (cc h))

-- Some first children are the entries of the map, in some order.
abbrev pub StartsWith : List (List ℕ × ℕ) → Names → Type 0
StartsWith cs m = (front rest : List (List ℕ × ℕ)) × (cs ≡ front ++ rest) × Perm front m

module _ (D : Libdwarf) where
  -- The children that a loop sees can be read, as these names and numbers.
  pub data Readable (read : D.Die → Checked (Option (List ℕ) × ℕ))
      : Seen D → List (List ℕ × ℕ) → Type 0 where
    none_left : Readable read stop []
    one :
        (d : D.Die) (n : List ℕ) (v : ℕ) {ds : Seen D} {cs : List (List ℕ × ℕ)}
        → read d ≡ returns (some n, v)
        → Readable read ds cs
        → Readable read (item d ds) ((n, v) ∷ cs)

  erase_consts-StartsWith :
      {ds : Seen D} {cs : List (List ℕ × ℕ)}
      → Readable (const_of D) ds cs
      → (m : Names) → erase_consts D ds m ≡ returns []
      → StartsWith cs m
  unfolding erase_consts find
  erase_consts-StartsWith none_left [] h = ([], [], refl, rfl)
  erase_consts-StartsWith none_left (e ∷ m) h = absurd (cc h)
  erase_consts-StartsWith (one d n v {ds} {cs} r s) [] h = ([], (n, v) ∷ cs, refl, rfl)
  erase_consts-StartsWith (one d n v {ds} {cs} r s) (e ∷ m) h =
      elim (Option-cases (take_entry n v (e ∷ m))) [
        | inl missing ↦
            let h' : returns (e ∷ m) ≡ returns [] = rw (r, missing, erase_consts, find) at h in
            absurd (cc h')
        | inr (m', found) ↦
            let h' : erase_consts D ds m' ≡ returns [] = rw (r, found, erase_consts, find) at h in
            let (front, rest, split, perm) = erase_consts-StartsWith {ds = ds} {cs = cs} s m' h' in
            (
              (n, v) ∷ front,
              rest,
              rw split refl,
              trans (cons (n, v) perm) (take_entry-Perm n v (e ∷ m) m' found),
            )
      ]

  erase_consts-nil :
      {ds : Seen D} {cs : List (List ℕ × ℕ)}
      → Readable (const_of D) ds cs
      → erase_consts D ds [] ≡ returns []
  unfolding erase_consts find
  erase_consts-nil none_left = refl
  erase_consts-nil (one d n v r s) = rw (r, erase_consts, find) refl

  StartsWith-erase_consts :
      {ds : Seen D} {cs : List (List ℕ × ℕ)}
      → Readable (const_of D) ds cs
      → (m : Names) → IsMap m
      → (front rest : List (List ℕ × ℕ)) → cs ≡ front ++ rest
      → Perm front m
      → erase_consts D ds m ≡ returns []
  unfolding erase_consts find
  StartsWith-erase_consts {ds} {cs} s m f [] rest split perm =
      rw (← nil-eq perm) (erase_consts-nil {ds = ds} {cs = cs} s)
  StartsWith-erase_consts none_left m f (c ∷ front) rest split perm = absurd (cc split)
  StartsWith-erase_consts (one d n v {ds} {cs} r s) m f (c ∷ front) rest split perm =
      let head : (n, v) ≡ c = cc in
      let tail : cs ≡ front ++ rest = cc in
      let perm' : Perm ((n, v) ∷ front) m = rw head perm in
      let (m', found) = take_entry-some n v m f ((mem_iff perm').0 mem-cons_self) in
      rw (r, erase_consts, find_lem m n v, found)
        (StartsWith-erase_consts {ds = ds} {cs = cs} s m' (take_entry-IsMap n v m m' found f).0
          front rest tail
          ((perm-cons (n, v)).0 (trans perm' (symm (take_entry-Perm n v m m' found)))))

  -- An enumeration counts as equal to an enum of the database exactly where its first enumerators
  -- are the constants of the enum, in some order; the enumerators after them are not looked at. The
  -- enum exists, and the enumerators can be read.
  pub enum_equal_iff :
      (fuel : ℕ) (cmp : EnumCmp) (die : D.Die) {ds : Seen D} {cs : List (List ℕ × ℕ)}
      → cmp.m_enum_id ≢ badnode
      → IsMap cmp.m_consts
      → children D fuel dw_tag_enumerator die ≡ some ds
      → Readable (const_of D) ds cs
      → (enum_equal D fuel cmp die ≡ some (returns true)) ↔ StartsWith cs cmp.m_consts
  unfolding enum_equal
  enum_equal_iff fuel cmp die {ds} {cs} exists f seen s = (
    λ h. erase_consts-StartsWith {ds = ds} {cs = cs} s cmp.m_consts (emptied.0 (shown h)),
    λ (front, rest, split, perm).
        rw (==_ne _ _ exists, seen, enum_equal)
          (ap some (
            emptied.1 (
              StartsWith-erase_consts {ds = ds} {cs = cs} s cmp.m_consts f front rest split perm))),
  )
    where
      emptied :
          ((do m ← erase_consts D ds cmp.m_consts; returns (is_empty m)) ≡ returns true)
          ↔ (erase_consts D ds cmp.m_consts ≡ returns [])
      emptied = is_empty_iff (erase_consts D ds cmp.m_consts)

      shown :
          enum_equal D fuel cmp die ≡ some (returns true)
          → (do m ← erase_consts D ds cmp.m_consts; returns (is_empty m)) ≡ returns true
      shown h =
          let h' : some (do m ← erase_consts D ds cmp.m_consts; returns (is_empty m))
              ≡ some (returns true) =
            rw (==_ne _ _ exists, seen, enum_equal) at h in
          cc
