-- ===== src/Tests/CompareRuns.antt =====
-- The comparison of enums and structures, and the adding of enums, at concrete inputs.
use mathlib.Core.List.{Subset, not-mem-nil}
use idadwarf.Prelude.{
  ℕ, suc, ◌+◌, ◌<◌, ◌≡◌, ◌≢◌, ◌↔◌, ◌⊎◌, inl, inr, Bool, Bool-cases, true, false, none, some, List,
  [], ◌∷◌, refl, arith, if◌then◌else◌, ◌==◌, filterb, lookup, length, badaddr,
}
use idadwarf.Dwarf.Checked.{returns}
use idadwarf.Holder.Reading.{
  name_of, attr_of, small_val_from, get_small_encoding_value, get_tag, get_child, get_sibling,
}
use idadwarf.Holder.Location.{member_offset_from, operand_from, select_operand, scan, operand_of}
use idadwarf.Iterators.{children}
use idadwarf.Iterators.Children.{Siblings, last, then_sibling, items, children-filterb}
use idadwarf.TypeUtils.{
  EnumCmp, StrucCmp, EnumLibrary, badnode, const_of, member_of, enum_equal, struc_equal,
  enum_cmp_of_name, enum_cmp_of_id, enum_consts, erase_consts, find, visit_consts,
}
use idadwarf.IdaUtils.Naming.{suffixed}
use idadwarf.TypeUtils.NameMap.{put, take_entry, same_name}
use idadwarf.TypeUtils.Comparison.{none_left, one, StartsWith, enum_equal_iff}
use idadwarf.TypeUtils.Comparison.Structures.{struc_equal_iff}
use idadwarf.TypeUtils.Adding.{dup_loop, enum_attempt, add_dup_enum}
use idadwarf.TypeUtils.Adding.Enums.{IsEqualEnum, add_dup_enum_outcome, add_dup_enum_ends}
use idadwarf.Tests.Worlds.{small_dwarf, same_bytes}

-- An enum with the one constant A.
abbrev one_const : EnumCmp
one_const = record { m_consts = (b'A' ∷ [], 1) ∷ []; m_enum_id = 7 }

enumerators : Siblings small_dwarf (some 51) ((51, 0x28) ∷ (52, 0x28) ∷ [])
unfolding get_tag get_sibling lookup
enumerators = then_sibling 51 0x28 (some 52) refl refl (then_sibling 52 0x28 none refl refl last)

seen_50 : children small_dwarf 5 0x28 50 ≡ some (items small_dwarf ((51, 0x28) ∷ (52, 0x28) ∷ []))
unfolding filterb
seen_50 =
    children-filterb small_dwarf 5 0x28 50 {start = some 51} (unfold get_child lookup in refl)
      enumerators (omega arith)

read_51 : const_of small_dwarf 51 ≡ returns (some (b'A' ∷ []), 1)
unfolding const_of name_of attr_of small_val_from get_small_encoding_value lookup
read_51 = refl

read_52 : const_of small_dwarf 52 ≡ returns (some (b'B' ∷ []), 2)
unfolding const_of name_of attr_of small_val_from get_small_encoding_value lookup
read_52 = refl

enum_equal_iff_example :
    (enum_equal small_dwarf 5 one_const 50 ≡ some (returns true))
    ↔ StartsWith ((b'A' ∷ [], 1) ∷ (b'B' ∷ [], 2) ∷ []) one_const.m_consts
enum_equal_iff_example =
    enum_equal_iff small_dwarf 5 one_const 50 (λ e. absurd (cc)) (λ w h. not-mem-nil h, tt) seen_50
      (one 51 (b'A' ∷ []) 1 read_51 (one 52 (b'B' ∷ []) 2 read_52 none_left))

-- A structure with the member x.
abbrev pub one_member : StrucCmp
one_member = record { m_struc_id = 9; m_is_union = false; m_members = (b'x' ∷ [], 0) ∷ [] }

struc_equal_iff_example :
    (struc_equal small_dwarf 5 one_member 30 ≡ some (returns true))
    ↔ Subset one_member.m_members ((b'x' ∷ [], 0) ∷ [])
unfolding filterb
struc_equal_iff_example =
    struc_equal_iff small_dwarf 5 one_member 30 (λ e. absurd (cc)) (λ e. absurd (cc))
      (λ w h. not-mem-nil h, tt) 0x13 (unfold get_tag lookup in refl) refl
      (children-filterb small_dwarf 5 0x0d 30 {start = some 31} (unfold get_child lookup in refl)
        (then_sibling 31 0x0d none (unfold get_tag lookup in refl)
          (unfold get_sibling lookup in refl) last)
        (omega arith))
      (one 31 (b'x' ∷ []) 0 read_31 none_left)
  where
    read_31 : member_of small_dwarf false 31 ≡ returns (some (b'x' ∷ []), 0)
    read_31 =
        unfold member_of name_of attr_of member_offset_from operand_from select_operand scan
          operand_of lookup in
        refl

-- The enums of a database as their names and identifiers; each has the constant B.
abbrev pub Enums : Type 0
Enums = List (List ℕ × ℕ)

abbrev pub id_of : Enums → List ℕ → ℕ
id_of [] name = badaddr
id_of (e ∷ db) name = if same_bytes e.0 name then e.1 else id_of db name

abbrev pub small_enums : EnumLibrary
small_enums = record {
  Db = Enums;
  get_enum = id_of;
  get_const_by_name = λ db name. badaddr;
  get_const_enum = λ db id. badaddr;
  consts = λ db id. (some (b'B' ∷ []), 2) ∷ [];
  add_enum = λ db name flag. elim name [
    | none ↦ (length db + 7, ([], length db + 7) ∷ db)
    | some n ↦
        if id_of db n == badaddr then (length db + 7, (n, length db + 7) ∷ db) else (badaddr, db)
  ];
}

abbrev one_enum : Enums
one_enum = (b'e' ∷ [], 7) ∷ []

abbrev two_enums : Enums
two_enums = (b'e' ∷ b'_' ∷ [], 8) ∷ one_enum

added_as :
    add_dup_enum small_dwarf small_enums 5 3 one_enum 50 (some (b'e' ∷ [])) 0
    ≡ some (returns (8, two_enums))
unfolding add_dup_enum dup_loop enum_attempt enum_equal enum_cmp_of_name enum_cmp_of_id enum_consts
added_as = refl

add_dup_enum_outcome_example :
    (8 ≢ badnode)
    × ((small_enums.add_enum one_enum (some (b'e' ∷ [])) 0 ≡ (8, two_enums))
        ⊎ ((k : ℕ) × ((small_enums.add_enum one_enum (some (suffixed (b'e' ∷ []) (suc k))) 0
                ≡ (8, two_enums))
              ⊎ (IsEqualEnum small_dwarf small_enums 5 one_enum 50 (suffixed (b'e' ∷ []) (suc k)) 8
                  × (two_enums ≡ one_enum)))))
add_dup_enum_outcome_example =
    add_dup_enum_outcome small_dwarf small_enums 5 3 one_enum 50 (some (b'e' ∷ [])) 0 8 two_enums
      added_as

abbrev with_b : EnumCmp
with_b = record { m_consts = (b'B' ∷ [], 2) ∷ []; m_enum_id = 7 }

has_b :
    (n : List ℕ)
    → same_bytes (b'e' ∷ []) n ≡ true
    → enum_cmp_of_name small_dwarf small_enums one_enum (some n) ≡ with_b
unfolding enum_cmp_of_name enum_cmp_of_id enum_consts visit_consts put
has_b n e = rw e refl

known_differs : enum_equal small_dwarf 5 with_b 50 ≡ some (returns false)
unfolding enum_equal erase_consts find take_entry same_name
known_differs = rw (seen_50, enum_equal, read_51) refl

taken_differs :
    (n : List ℕ)
    → same_bytes (b'e' ∷ []) n ≡ true
    → enum_equal small_dwarf 5 (enum_cmp_of_name small_dwarf small_enums one_enum (some n)) 50
      ≡ some (returns false)
taken_differs n e = rw (has_b n e) known_differs

one_enum_compares :
    (n : List ℕ)
    → (equal : Bool) × (enum_equal small_dwarf 5
          (enum_cmp_of_name small_dwarf small_enums one_enum (some n))
          50
        ≡ some (returns equal))
unfolding enum_equal enum_cmp_of_name enum_cmp_of_id enum_consts
one_enum_compares n = elim (Bool-cases (same_bytes (b'e' ∷ []) n)) [
  | inl e ↦ (false, taken_differs n e)
  | inr e ↦ (false, rw e refl)
]

one_enum_accepts :
    (n : List ℕ) → 1 < length n → (small_enums.add_enum one_enum (some n) 0).0 ≢ badnode
one_enum_accepts [] long e = absurd (omega arith)
one_enum_accepts (b ∷ []) long e = absurd (omega arith)
one_enum_accepts (b ∷ c ∷ n) long e = elim (Bool-cases (b'e' == b)) [
  | inl h ↦ let e' : 8 ≡ badnode = rw h at e in absurd (cc e')
  | inr h ↦ let e' : 8 ≡ badnode = rw h at e in absurd (cc e')
]

add_dup_enum_ends_example :
    (r : ℕ × Enums) × (add_dup_enum small_dwarf small_enums 5 2 one_enum 50 (some (b'e' ∷ [])) 0
      ≡ some (returns r))
add_dup_enum_ends_example =
    add_dup_enum_ends small_dwarf small_enums 5 1 2 one_enum 50 (some (b'e' ∷ [])) 0
      one_enum_compares one_enum_accepts (omega arith)
