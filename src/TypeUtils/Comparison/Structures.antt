-- ===== src/TypeUtils/Comparison/Structures.antt =====
-- src/type_utils.cpp, StrucCmp: when a structure or union counts as equal.
use mathlib.Core.List.{Subset, mem-cons_self, not-mem-nil, mem_of_ne_of_mem, mem-cons_of_mem}
use mathlib.Core.List.Perm.{mem_iff}
use idadwarf.Prelude.{
  ℕ, ◌≡◌, ◌≢◌, ◌↔◌, Bool, true, false, not, some, List, [], ◌∷◌, refl, if◌then◌else◌, ◌==◌, ==_ne,
  Option-cases, inl, inr, ap, sym, ◌∙◌,
}
use idadwarf.Dwarf.{Libdwarf}
use idadwarf.Dwarf.Checked.{returns, ◌>>=◌}
use idadwarf.Dwarf.Tags.{dw_tag_member, dw_tag_union_type}
use idadwarf.Holder.Reading.{get_tag}
use idadwarf.Iterators.{children, Seen}
use idadwarf.TypeUtils.{
  badnode, is_empty, StrucCmp, find, try_erase, member_of, erase_members, struc_equal,
}
use idadwarf.TypeUtils.NameMap.{
  Names, take_entry, take_entry-Perm, IsMap, take_entry_complete, take_entry-IsMap, mem-cons_mono,
}
use idadwarf.TypeUtils.Comparison.{Readable, none_left, one, is_empty_iff}

module _ (D : Libdwarf) where
  -- Every entry of the map is among the children.
  erase_members-Subset :
      (u : Bool) {ds : Seen D} {cs : List (List ℕ × ℕ)}
      → Readable D (member_of D u) ds cs
      → (m : Names) → erase_members D u ds m ≡ returns []
      → Subset m cs
  unfolding erase_members try_erase find
  erase_members-Subset u none_left [] h = λ c hc. hc
  erase_members-Subset u none_left (e ∷ m) h = absurd (cc h)
  erase_members-Subset u (one d n v {ds} {cs} r s) [] h = λ c hc. absurd (not-mem-nil hc)
  erase_members-Subset u (one d n v {ds} {cs} r s) (e ∷ m) h = λ c hc.
      elim (Option-cases (take_entry n v (e ∷ m))) [
        | inl missing ↦
            mem-cons_of_mem (n, v)
              (erase_members-Subset u {ds = ds} {cs = cs} s (e ∷ m)
                (rw (r, missing, erase_members, try_erase, find) at h) c hc)
        | inr (m', found) ↦
            mem-cons_mono m' cs
              (erase_members-Subset u {ds = ds} {cs = cs} s m'
                (rw (r, found, erase_members, try_erase, find) at h) c)
              ((mem_iff (take_entry-Perm n v (e ∷ m) m' found)).1 hc)
      ]

  Subset-erase_members :
      (u : Bool) {ds : Seen D} {cs : List (List ℕ × ℕ)}
      → Readable D (member_of D u) ds cs
      → (m : Names) → IsMap m
      → Subset m cs
      → erase_members D u ds m ≡ returns []
  unfolding erase_members try_erase find
  Subset-erase_members u none_left [] f h = refl
  Subset-erase_members u none_left (e ∷ m) f h = absurd (not-mem-nil (h e mem-cons_self))
  Subset-erase_members u (one d n v {ds} {cs} r s) [] f h =
      rw (r, erase_members, try_erase, find)
        (Subset-erase_members u {ds = ds} {cs = cs} s [] f (λ c hc. absurd (not-mem-nil hc)))
  Subset-erase_members u (one d n v {ds} {cs} r s) (e ∷ m) f h =
      elim (Option-cases (take_entry n v (e ∷ m))) [
        | inl missing ↦
            rw (r, missing, erase_members, try_erase, find)
              (Subset-erase_members u {ds = ds} {cs = cs} s (e ∷ m) f (λ c hc.
                mem_of_ne_of_mem (λ p. take_entry_complete n v (e ∷ m) f (rw (← p) hc) missing)
                  (h c hc)))
        | inr (m', found) ↦
            rw (r, found, erase_members, try_erase, find)
              (Subset-erase_members u {ds = ds} {cs = cs} s m'
                (take_entry-IsMap n v (e ∷ m) m' found f).0
                (λ c hc.
                  mem_of_ne_of_mem
                    (λ p. (take_entry-IsMap n v (e ∷ m) m' found f).1 v (rw (← p) hc))
                    (h c (
                      (mem_iff (take_entry-Perm n v (e ∷ m) m' found)).0
                        (mem-cons_of_mem (n, v) hc)))))
      ]

  -- A structure or union counts as equal to one of the database, of the same kind and with members,
  -- exactly where each member of the database has a member of the DIE with its name and offset (the
  -- offset 0 in unions); the DIE may have more. The members can be read.
  pub struc_equal_iff :
      (fuel : ℕ) (cmp : StrucCmp) (die : D.Die) {ds : Seen D} {cs : List (List ℕ × ℕ)}
      → cmp.m_struc_id ≢ badnode
      → cmp.m_members ≢ []
      → IsMap cmp.m_members
      → (tag : ℕ) → get_tag D die ≡ returns tag
      → cmp.m_is_union ≡ (tag == dw_tag_union_type)
      → children D fuel dw_tag_member die ≡ some ds
      → Readable D (member_of D cmp.m_is_union) ds cs
      → (struc_equal D fuel cmp die ≡ some (returns true)) ↔ Subset cmp.m_members cs
  unfolding struc_equal
  struc_equal_iff fuel cmp die {ds} {cs} exists filled f tag t kind seen s = (
    λ h.
        erase_members-Subset cmp.m_is_union {ds = ds} {cs = cs} s cmp.m_members
          (emptied.0 (shown h)),
    λ h.
        reach
        ∙ ap some (
            emptied.1
              (Subset-erase_members cmp.m_is_union {ds = ds} {cs = cs} s cmp.m_members f h)),
  )
    where
      same_kind : (a b : Bool) → a ≡ b → (if a then b else not b) ≡ true
      same_kind true b e = sym e
      same_kind false b e = rw (← e) refl

      not_empty : (m : Names) → m ≢ [] → is_empty m ≡ false
      not_empty [] g = absurd (g refl)
      not_empty (_ ∷ _) g = refl

      emptied :
          ((do m ← erase_members D cmp.m_is_union ds cmp.m_members; returns (is_empty m))
            ≡ returns true)
          ↔ (erase_members D cmp.m_is_union ds cmp.m_members ≡ returns [])
      emptied = is_empty_iff (erase_members D cmp.m_is_union ds cmp.m_members)

      reach :
          struc_equal D fuel cmp die
          ≡ some (do m ← erase_members D cmp.m_is_union ds cmp.m_members; returns (is_empty m))
      reach =
          rw
            (
              t,
              struc_equal,
              not_empty cmp.m_members filled,
              same_kind cmp.m_is_union (tag == dw_tag_union_type) kind,
              ==_ne _ _ exists,
              seen,
            )
            refl

      shown :
          struc_equal D fuel cmp die ≡ some (returns true)
          → (do m ← erase_members D cmp.m_is_union ds cmp.m_members; returns (is_empty m))
            ≡ returns true
      shown h = let h' = sym reach ∙ h in cc
