-- ===== src/Tests/TypeRuns.antt =====
-- A small type library, and the theorems about the types of the database at concrete inputs.
use idadwarf.Prelude.{
  ℕ, ◌+◌, ◌≤◌, ◌≡◌, ◌≢◌, Bool-cases, inl, inr, ◌↔◌, true, Option, none, some, List, [], ◌∷◌, ◌++◌,
  refl, arith, if◌then◌else◌, ◌==◌, drop, length, lookup, insert,
}
use idadwarf.Til.{TypeCoding, TypeLibrary, Decodes}
use idadwarf.IdaUtils.{
  make_new_type, get_typedef_ordinal, resolve_typedef_type, set_simple_die_type, save_loop,
  find_simple_type,
}
use idadwarf.Tests.Worlds.{same_bytes}
use idadwarf.IdaUtils.Typedefs.{get_typedef_ordinal-make_new_type, Ends, resolve_typedef_type_iff}
use idadwarf.IdaUtils.Saving.{slot, Settled, set_simple_die_type-Settled, set_simple_die_type_ends}

abbrev pub rest_of : List ℕ → Option (List ℕ)
rest_of [] = none
rest_of (_ ∷ bytes) = some bytes

abbrev pub head_of : List ℕ → Option ℕ
head_of [] = none
head_of (o ∷ _) = some o

-- A number is one byte, and a name has its length before it.
abbrev pub small_coding : TypeCoding
small_coding = record {
  btf_typedef = 0x3d;
  btf_void = 1;
  bt_ptr = 10;
  is_type_typedef = λ b. b == 0x3d;
  is_type_struni = λ b. b == 0x0d;
  is_type_enum = λ b. b == 0x2d;
  is_type_complex = λ b. if b == 0x3d then true else if b == 0x0d then true else b == 0x2d;
  is_type_ptr = λ b. b == 10;
  skip_ptr_type_header = drop 1;
  append_de = λ s o. s ++ o ∷ [];
  append_dt = λ s o. s ++ o ∷ [];
  append_name = λ s n. s ++ length n ∷ n;
  get_de = head_of;
  extract_name = rest_of;
  typcmp = same_bytes;
}

small-Decodes : Decodes small_coding
small-Decodes = record {
  typedef_byte = refl;
  name_of = λ n. refl;
  de_of = λ o. refl;
  name_appends = λ s n. refl;
  de_appends = λ s o. refl;
}

abbrev pub Types : Type 0
Types = List (ℕ × (List ℕ × List ℕ))

abbrev pub by_name : Types → List ℕ → Option (ℕ × List ℕ)
by_name [] name = none
by_name (entry ∷ entries) name =
    if same_bytes entry.1.0 name then some (entry.0, entry.1.1) else by_name entries name

abbrev pub small_library : TypeLibrary
small_library = record {
  Db = Types;
  get_numbered_type = λ db o. elim (lookup o db) [ none ↦ none | some entry ↦ some entry.1 ];
  get_numbered_type_name = λ db o. elim (lookup o db) [ none ↦ none | some entry ↦ some entry.0 ];
  get_named_type = by_name;
  get_type_ordinal = λ db name. elim (by_name db name) [ none ↦ 0 | some entry ↦ entry.0 ];
  alloc_type_ordinal = λ db. (length db + 1, db);
  set_numbered_type = λ db o replace name type. some (insert o (name, type) db);
  del_numbered_type = λ db o. some (insert o ([], []) db);
  apply_tinfo = λ db addr type. some db;
}

-- Type 1 is `t`, and type 2 a typedef of it.
abbrev two_types : Types
two_types = (1, (b't' ∷ [], 7 ∷ [])) ∷ (2, ([], 0x3d ∷ 2 ∷ b'#' ∷ 1 ∷ [])) ∷ []

get_typedef_ordinal-make_new_type_example :
    get_typedef_ordinal small_coding small_library two_types
      (make_new_type small_coding small_library two_types [] none 2)
    ≡ 2
get_typedef_ordinal-make_new_type_example =
    get_typedef_ordinal-make_new_type small_coding small_library small-Decodes two_types 2

resolve_typedef_type_iff_example :
    ((fuel : ℕ) × (resolve_typedef_type small_coding small_library fuel two_types
          (0x3d ∷ 2 ∷ b'#' ∷ 2 ∷ [])
        ≡ some 1))
    ↔ Ends small_coding small_library two_types 1
        (get_typedef_ordinal small_coding small_library two_types (0x3d ∷ 2 ∷ b'#' ∷ 2 ∷ []))
resolve_typedef_type_iff_example =
    resolve_typedef_type_iff small_coding small_library two_types (0x3d ∷ 2 ∷ b'#' ∷ 2 ∷ []) 1

-- Another type of the name `t` becomes `t_`.
abbrev three_types : Types
three_types = insert 3 (b't' ∷ b'_' ∷ [], 8 ∷ []) two_types

renamed :
    set_simple_die_type small_coding small_library 9 two_types (some (b't' ∷ [])) (8 ∷ []) 0
    ≡ some (3, three_types)
unfolding set_simple_die_type save_loop find_simple_type insert
renamed = refl

set_simple_die_type-Settled_example :
    Settled small_coding small_library two_types (some (b't' ∷ [])) (8 ∷ []) 0 3 three_types
set_simple_die_type-Settled_example =
    set_simple_die_type-Settled small_coding small_library two_types (λ n. refl) (some (b't' ∷ []))
      (8 ∷ []) 0 9 3 three_types renamed

one_byte_names : (name : List ℕ) → by_name two_types name ≢ none → length name ≤ 2
one_byte_names [] used = omega arith
one_byte_names (b ∷ []) used = omega arith
one_byte_names (b ∷ c ∷ name) used = elim (Bool-cases (b't' == b)) [
  | inl e ↦ absurd (used (rw e refl))
  | inr e ↦ absurd (used (rw e refl))
]

set_simple_die_type_ends_example :
    (r : ℕ × Types) × (set_simple_die_type small_coding small_library 4 two_types
        (some (b't' ∷ []))
        (8 ∷ [])
        0
      ≡ some r)
unfolding slot
set_simple_die_type_ends_example =
    set_simple_die_type_ends small_coding small_library two_types (λ n. refl) (some (b't' ∷ []))
      (8 ∷ []) 0 4 2 (λ name filled unused e. absurd (cc)) one_byte_names (omega arith)
