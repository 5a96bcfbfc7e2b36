-- ===== src/TypeRetrieval/Simple.antt =====
-- src/type_retrieval.cpp: enums, base types and modifiers.
use idadwarf.Prelude.{ℕ, false, Option, none, some, List, [], ◌∷◌, if◌then◌else◌, ◌==◌, to_word}
use idadwarf.Cache.{DieCache, ordinal, base_ordinal}
use idadwarf.Dwarf.Tags.{dw_tag_enumerator, dw_at_const_value, dw_at_encoding}
use idadwarf.Ida.{enums}
use idadwarf.Session.{
  Host, Action, Void, pure, gets, update, update_fueled, query, ◌>>=◌, ◌>>◌, on_option,
  for_children, get_name, get_tag, get_bytesize, get_attr_small_val, cache_useless, cache_type,
}
use idadwarf.TypeUtils.{badnode, EnumCmp, enum_equal, enum_cmp_of_name, enum_cmp_of_die}
use idadwarf.TypeUtils.Adding.{add_dup_enum}
use idadwarf.TypeRetrieval.Bytes.{base_type, get_enum_size, modifier_type}
use idadwarf.TypeRetrieval.Lookup.{
  numbered_type, numbered_type_name, new_type_of, save_type, add_unspecified_type, look_ref_type,
}

module _ {H : Host} where
  -- EnumCmp(name), or EnumCmp(enumeration_holder) for an anonymous enum.
  unfoldable pub enum_cmp : ℕ → Option (List ℕ) → H.dwarf.Die → Action H EnumCmp
  enum_cmp fuel name die =
      on_option name (query {H = H} (λ db. enum_cmp_of_die H.dwarf (enums H.ida) fuel db die))
        (λ _. gets {H = H} (λ w. enum_cmp_of_name H.dwarf (enums H.ida) w.db name))

  unfoldable pub add_enumerator : ℕ → H.dwarf.Die → Action H Void
  add_enumerator enum_id child = do
    child_name ← get_name (child ∷ [])
    value ← get_attr_small_val dw_at_const_value (child ∷ [])
    update {H = H} (λ db. (tt, H.ida.add_const db enum_id child_name (to_word value)))
    cache_useless {H = H} (child ∷ [])

  unfoldable pub add_new_enum : ℕ → Option (List ℕ) → H.dwarf.Die → Action H ℕ
  unfolding add_enumerator
  add_new_enum fuel name die = do
    byte_size ← get_bytesize die
    enum_id ← update_fueled {H = H} (λ db.
        add_dup_enum H.dwarf (enums H.ida) fuel fuel db die name
          (get_enum_size H.ida.bytes byte_size))
    for_children fuel dw_tag_enumerator die (add_enumerator enum_id)
    pure enum_id

  unfoldable pub process_enum : ℕ → H.dwarf.Die → Action H Void
  unfolding enum_cmp add_new_enum
  process_enum fuel die = do
    name ← get_name (die ∷ [])
    cmp ← enum_cmp fuel name die
    equal ← query {H = H} (λ _. enum_equal H.dwarf fuel cmp die)
    let existing = if equal then cmp.m_enum_id else badnode
    enum_id ← if existing == badnode then add_new_enum fuel name die else pure existing
    ordinal ← gets {H = H} (λ w. H.ida.get_enum_type_ordinal w.db enum_id)
    cache_type {H = H} ordinal false 0 (die ∷ [])

  unfoldable pub save_base_type : ℕ → Option (List ℕ) → List ℕ → H.dwarf.Die → Action H Void
  save_base_type fuel name [] die = cache_useless {H = H} (die ∷ [])
  save_base_type fuel name (b ∷ ida_type) die = do
    ordinal ← save_type fuel name (b ∷ ida_type) 0
    cache_type {H = H} ordinal false 0 (die ∷ [])

  unfoldable pub process_base_type : ℕ → H.dwarf.Die → Action H Void
  unfolding save_base_type
  process_base_type fuel die = do
    name ← get_name (die ∷ [])
    byte_size ← get_bytesize die
    encoding ← get_attr_small_val dw_at_encoding (die ∷ [])
    save_base_type fuel name (base_type H.ida.bytes encoding byte_size) die

  unfoldable pub process_unspecified : ℕ → H.dwarf.Die → Action H Void
  process_unspecified fuel die = do cache ← add_unspecified_type fuel; pure tt

  -- The new type is saved without a name.
  unfoldable pub save_modifier : ℕ → ℕ → List ℕ → H.dwarf.Die → Action H Void
  save_modifier fuel base new_type die = do
    ordinal ← save_type fuel none new_type 0
    cache_type {H = H} ordinal false base (die ∷ [])

  unfoldable pub process_typed_modifier : ℕ → H.dwarf.Die → DieCache → Action H Void
  unfolding save_modifier
  process_typed_modifier fuel die cache = do
    let base = if base_ordinal cache == 0 then ordinal cache else base_ordinal cache
    type_name ← numbered_type_name (ordinal cache)
    type ← numbered_type (ordinal cache)
    on_option type_name (cache_useless {H = H} (die ∷ [])) (λ _.
        on_option type (cache_useless {H = H} (die ∷ [])) (λ t. do
          tag ← get_tag die
          made ← new_type_of (some t) base
          on_option (modifier_type H.ida.bytes H.ida.coding.bt_ptr tag t made)
              (cache_useless {H = H} (die ∷ []))
              (λ new_type. save_modifier fuel base new_type die)))

  unfoldable pub process_modifier : (H.dwarf.Die → Action H Void) → ℕ → H.dwarf.Die → Action H Void
  process_modifier visit fuel die = do
    cache ← look_ref_type {H = H} visit fuel die
    on_option {H = H} cache (pure tt) (process_typed_modifier fuel die)
