-- ===== src/IdaUtils.antt =====
-- src/ida_utils.cpp: types as byte strings, their names and ordinals. `none` for NULL, or for fuel
-- that ran out in a loop.
use idadwarf.Prelude.{
  ℕ, zero, suc, Bool, true, false, not, ◌&&◌, ◌||◌, Option, none, some, List, [], ◌∷◌, ◌++◌,
  if◌then◌else◌, ◌==◌, drop,
}
use idadwarf.Til.{TypeCoding, TypeLibrary, first_byte}
pub mod Naming
pub mod Saving
pub mod Typedefs

-- qstring(name): NULL is the empty string.
abbrev pub or_empty : Option (List ℕ) → List ℕ
or_empty none = []
or_empty (some name) = name

-- Where the type is no typedef, the ordinal is final.
abbrev resolve_next : (ℕ → Option ℕ) → ℕ → ℕ → Option ℕ
resolve_next again ordinal type_ordinal =
    let rest = again type_ordinal in if type_ordinal == 0 then some ordinal else rest

module _ (T : TypeCoding) (L : TypeLibrary) where
  open T use {
    btf_typedef, is_type_typedef, is_type_struni, is_type_complex, is_type_ptr, append_de,
    append_dt, append_name, get_de, extract_name, typcmp, skip_ptr_type_header,
  }
  open L use {
    Db, get_numbered_type, get_numbered_type_name, get_named_type, get_type_ordinal,
    alloc_type_ordinal, set_numbered_type, apply_tinfo,
  }

  pub get_ptrs_base_type : ℕ → List ℕ → Option (List ℕ)
  get_ptrs_base_type zero base_type = none
  get_ptrs_base_type (suc fuel) base_type =
      let rest = get_ptrs_base_type fuel (skip_ptr_type_header base_type) in
      if is_type_ptr (first_byte base_type) then rest else some base_type

  append_ordinal_name : List ℕ → ℕ → List ℕ
  append_ordinal_name type ordinal = append_de (type ++ b'#' ∷ []) ordinal

  pub append_complex_type : List ℕ → ℕ → List ℕ
  unfolding append_ordinal_name
  append_complex_type new_type ordinal = append_name new_type (append_ordinal_name [] ordinal)

  -- type_name[0] == '\0'; an ordinal in use has a name, which may be empty.
  abbrev is_anonymous : Option (List ℕ) → Bool
  is_anonymous (some []) = true
  is_anonymous _ = false

  unfoldable pub make_new_type : Db → List ℕ → Option (List ℕ) → ℕ → List ℕ
  unfolding append_complex_type
  make_new_type db new_type none ordinal =
      append_complex_type (new_type ++ btf_typedef ∷ []) ordinal
  make_new_type db new_type (some type) ordinal =
      let header = first_byte type in
      if not (is_type_complex header)
        || (is_type_typedef header && is_anonymous (get_numbered_type_name db ordinal))
      then type
      else append_complex_type
          (if not (is_type_typedef header)
            then append_dt (new_type ++ header ∷ []) 0
            else new_type ++ header ∷ [])
          ordinal

  -- find_simple_type: no type of the name, one of another content, or the type, by its ordinal.
  pub data NameUse : Type 0 where
    absent other : NameUse
    same : ℕ → NameUse

  unfoldable pub find_simple_type : Db → Option (List ℕ) → List ℕ → NameUse
  find_simple_type db none ida_type = absent
  find_simple_type db (some name) ida_type = elim (get_named_type db name) [
    | none ↦ absent
    | some (existing_ordinal, type) ↦ if typcmp type ida_type then same existing_ordinal else other
  ]

  -- The loop of set_simple_die_type. Where the name is taken or is refused, it gets longer by `_`.
  -- The result is the ordinal that the type has in the end.
  unfoldable pub save_loop :
      ℕ
      → Db
      → (found : Bool) → (replace : Bool) → (alloced_ordinal : ℕ) → (new_name ida_type : List ℕ)
      → Option (ℕ × Db)
  save_loop zero db found replace alloced new_name ida_type = none
  save_loop (suc fuel) db found replace alloced new_name ida_type =
      let longer = new_name ++ b'_' ∷ [] in
      let next = elim (find_simple_type db (some longer) ida_type) as (λ _. Option (ℕ × Db)) [
        | absent ↦ save_loop fuel db false replace alloced longer ida_type
        | other ↦ save_loop fuel db true replace alloced longer ida_type
        | same existing_ordinal ↦ some (existing_ordinal, db)
      ] in
      if found then next else elim (set_numbered_type db alloced replace new_name ida_type) [
        | none ↦ next
        | some db' ↦ some (alloced, db')
      ]

  -- The new type is saved under the ordinal, or under a fresh one if it is 0.
  unfoldable pub set_simple_die_type : ℕ → Db → Option (List ℕ) → List ℕ → ℕ → Option (ℕ × Db)
  unfolding save_loop
  set_simple_die_type fuel db name ida_type ordinal =
      let new_name = or_empty name in
      let replace = not (ordinal == 0) in
      let save = λ (found : Bool).
        if replace
        then save_loop fuel db found replace ordinal new_name ida_type
        else save_loop fuel (alloc_type_ordinal db).1 found replace (alloc_type_ordinal db).0
            new_name ida_type in
      elim (find_simple_type db name ida_type) [
        | same existing_ordinal ↦ some (existing_ordinal, db)
        | absent ↦ save false
        | other ↦ save true
      ]

  pub apply_type_ordinal : Db → ℕ → ℕ → Option Db
  unfolding make_new_type
  apply_type_ordinal db addr ordinal = elim (get_numbered_type db ordinal) [
    | none ↦ none
    | some type ↦ apply_tinfo db addr (make_new_type db [] (some type) ordinal)
  ]

  -- The name of a typedef's type: an ordinal behind `#`, or a name of the library.
  unfoldable pub named_ordinal : Db → Option (List ℕ) → ℕ
  named_ordinal db none = 0
  named_ordinal db (some buf) =
      if first_byte buf == b'#'
      then elim (get_de (drop 1 buf)) [ none ↦ 0 | some ordinal ↦ ordinal ]
      else get_type_ordinal db buf

  -- The ordinal of the type inside a typedef, 0 if there is none.
  unfoldable pub get_typedef_ordinal : Db → List ℕ → ℕ
  unfolding named_ordinal
  get_typedef_ordinal db typedef_type =
      if is_type_typedef (first_byte typedef_type)
      then named_ordinal db (extract_name (drop 1 typedef_type))
      else 0

  unfoldable pub get_typedef_name : Db → List ℕ → Option (List ℕ)
  get_typedef_name db typedef_type =
      let ordinal = get_typedef_ordinal db typedef_type in
      if ordinal == 0 then none else get_numbered_type_name db ordinal

  -- The loop of resolve_typedef_ordinal.
  resolve_loop : ℕ → Db → ℕ → Option ℕ
  resolve_loop zero db ordinal = none
  resolve_loop (suc fuel) db ordinal =
      if ordinal == 0 then some 0 else elim (get_numbered_type db ordinal) [
        | none ↦ some 0
        | some type ↦ resolve_next (resolve_loop fuel db) ordinal (get_typedef_ordinal db type)
      ]

  pub resolve_typedef_type : ℕ → Db → List ℕ → Option ℕ
  resolve_typedef_type fuel db typedef_type =
      resolve_loop fuel db (get_typedef_ordinal db typedef_type)

  pub resolve_typedef_ordinal : ℕ → Db → ℕ → Option ℕ
  resolve_typedef_ordinal fuel db typedef_ordinal = elim (get_numbered_type db typedef_ordinal) [
    | none ↦ some 0
    | some typedef_type ↦ resolve_typedef_type fuel db typedef_type
  ]

  pub resolve_typedef_name : ℕ → Db → List ℕ → Option (Option (List ℕ))
  resolve_typedef_name fuel db typedef_type = elim (resolve_typedef_type fuel db typedef_type) [
    | none ↦ none
    | some ordinal ↦ some (if ordinal == 0 then none else get_numbered_type_name db ordinal)
  ]

  -- A type that cannot be found is no structure or union.
  resolved_is_struni : Db → List ℕ → ℕ → Bool
  resolved_is_struni db type ordinal =
      if ordinal == 0
      then is_type_struni (first_byte type)
      else elim (get_numbered_type db ordinal) [
        | none ↦ false
        | some resolved ↦ is_type_struni (first_byte resolved)
      ]

  pub is_type_struni_rec : ℕ → Db → List ℕ → Option Bool
  unfolding resolved_is_struni
  is_type_struni_rec fuel db type = elim (resolve_typedef_type fuel db type) [
    | none ↦ none
    | some ordinal ↦ some (resolved_is_struni db type ordinal)
  ]
