-- ===== src/TypeRetrieval/Arrays.antt =====
-- src/type_retrieval.cpp: arrays.
use idadwarf.Prelude.{ℕ, ◌+◌, ◌%◌, ◌^◌, false, Option, none, some, [], ◌∷◌, to_word}
use idadwarf.Cache.{DieCache, ordinal}
use idadwarf.Dwarf.{Libdwarf}
use idadwarf.Dwarf.Checked.{Checked, returns, throws}
use idadwarf.Dwarf.Tags.{dw_tag_subrange_type, dw_at_type, dw_at_upper_bound}
use idadwarf.Holder.Reading.{attr_of, small_val_from}
use idadwarf.Session.{
  Host, Action, Void, pure, lift, ◌>>=◌, on_option, first_child, get_ref_from_attr, new_die,
  cache_useless, cache_type,
}
use idadwarf.TypeRetrieval.Lookup.{
  numbered_type, numbered_type_name, new_type_of, save_type, visited_type,
}

-- The array size, from the upper bound; without a bound, or without a Dwarf_Error, there is none.
unfoldable pub array_size : Checked ℕ → Checked ℕ
array_size (returns bound) = returns ((bound + 1) % 2 ^ 64)
array_size (throws none) = returns 0
array_size (throws (some e)) = throws (some e)

unfoldable pub upper_bound_of : (D : Libdwarf) → D.Die → Checked ℕ
upper_bound_of D d = elim (attr_of D dw_at_upper_bound (d ∷ [])) [
  | throws e ↦ throws e
  | returns a ↦ small_val_from D a
]

module _ {H : Host} where
  unfoldable pub read_array_size : ℕ → H.dwarf.Die → Action H ℕ
  unfolding upper_bound_of
  read_array_size fuel die = do
    subrange ← first_child fuel dw_tag_subrange_type die
    on_option subrange (pure 0) (λ d. lift (array_size (upper_bound_of H.dwarf d)))

  -- The array of a cached type.
  unfoldable pub build_array : ℕ → H.dwarf.Die → DieCache → Action H (Option ℕ)
  unfolding read_array_size
  build_array fuel die cache = do
    type_name ← numbered_type_name (ordinal cache)
    type ← numbered_type (ordinal cache)
    on_option type_name (pure none) (λ _. on_option type (pure none) (λ t. do
      size ← read_array_size fuel die
      elem_type ← new_type_of (some t) (ordinal cache)
      on_option (H.ida.bytes.build_array_type elem_type (to_word size)) (pure none)
          (λ array_type. do ordinal ← save_type fuel none array_type 0; pure (some ordinal))))

  unfoldable pub process_array : (H.dwarf.Die → Action H Void) → ℕ → H.dwarf.Die → Action H Void
  unfolding build_array
  process_array visit fuel die = do
    offset ← get_ref_from_attr dw_at_type (die ∷ [])
    element ← new_die offset
    cache ← visited_type {H = H} visit element
    built ← on_option {H = H} cache (pure none) (build_array fuel die)
    on_option {H = H} built (cache_useless {H = H} (die ∷ []))
        (λ ordinal. cache_type {H = H} ordinal false 0 (die ∷ []))
