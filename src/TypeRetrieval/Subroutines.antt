-- ===== src/TypeRetrieval/Subroutines.antt =====
-- src/type_retrieval.cpp: the types of subroutines.
use Prim.Native.Nat.{bit_or}
use idadwarf.Prelude.{
  ℕ, ◌+◌, Bool, true, false, Option, none, some, List, [], ◌∷◌, ◌++◌, if◌then◌else◌, ◌==◌, is_some,
}
use idadwarf.Cache.{ordinal}
use idadwarf.Dwarf.Tags.{dw_tag_formal_parameter, dw_tag_unspecified_parameters, dw_at_type}
use idadwarf.Ida.{TypeBytes}
use idadwarf.Session.{
  Host, Action, Void, pure, ◌>>=◌, on_option, fold_children, first_child, get_attr,
  get_ref_from_attr, new_die, cache_type,
}
use idadwarf.TypeRetrieval.Bytes.{set_bits}
use idadwarf.TypeRetrieval.Lookup.{numbered_type, new_type_of, save_type, visited_type}

-- BT_FUNC | BTMT_DEFCALL, and CM_UNKNOWN | CM_M_NN
abbrev func_header : TypeBytes → List ℕ
func_header B = bit_or B.bt_func B.btmt_defcall ∷ bit_or B.cm_unknown B.cm_m_nn ∷ []

-- The calling convention and the parameters, after the return type: `params` are their number and
-- their types, `ellipsis` is that there is a `...`.
unfoldable pub finish_type : TypeBytes → (List ℕ → ℕ → List ℕ) → Bool → List ℕ → ℕ × List ℕ → List ℕ
unfolding set_bits
finish_type B append_dt ellipsis func_type (nb_params, params_type) =
    if ellipsis
    then append_dt (set_bits 1 B.cm_cc_ellipsis func_type) nb_params ++ params_type
    else if nb_params == 0
    then set_bits 1 B.cm_cc_voidarg func_type
    else append_dt (set_bits 1 B.cm_cc_unknown func_type) nb_params ++ params_type

-- An unknown type is for the second pass.
unfoldable pub or_unknown : TypeBytes → Bool → Option (List ℕ) → List ℕ × Bool
or_unknown B second_pass none = (B.bt_unknown ∷ [], true)
or_unknown B second_pass (some type) = (type, second_pass)

module _ {H : Host} where
  -- The new type for the type that a DIE refers to, where it can be found.
  unfoldable pub referred_type :
      (H.dwarf.Die → Action H Void) → H.dwarf.Die → Action H (Option (List ℕ))
  referred_type visit holder = do
    offset ← get_ref_from_attr dw_at_type (holder ∷ [])
    die ← new_die offset
    cache ← visited_type visit die
    on_option cache (pure none) (λ c. do
      type ← numbered_type (ordinal c)
      on_option type (pure none)
          (λ t. do made ← new_type_of (some t) (ordinal c); pure (some made)))

  -- The type of the parameter is appended; the results are the string and *second_pass.
  unfoldable pub add_subroutine_parameter :
      (H.dwarf.Die → Action H Void) → List ℕ × Bool → H.dwarf.Die → Action H (List ℕ × Bool)
  unfolding referred_type or_unknown
  add_subroutine_parameter visit (params_type, second_pass) param = do
    type ← referred_type visit param
    let (new_type, second) = or_unknown H.ida.bytes second_pass type
    pure (params_type ++ new_type, second)

  -- No return type is void.
  unfoldable pub add_subroutine_return :
      (H.dwarf.Die → Action H Void) → List ℕ × Bool → H.dwarf.Die → Action H (List ℕ × Bool)
  unfolding referred_type or_unknown
  add_subroutine_return visit (func_type, second_pass) subroutine = do
    attrib ← get_attr dw_at_type (subroutine ∷ [])
    on_option attrib (pure (func_type ++ H.ida.coding.btf_void ∷ [], second_pass)) (λ _. do
      type ← referred_type visit subroutine
      let (new_type, second) = or_unknown H.ida.bytes second_pass type
      pure (func_type ++ new_type, second))

  -- nb_params is an int; it counts as many children as there are.
  unfoldable pub count_parameter :
      (H.dwarf.Die → Action H Void)
      → ℕ × (List ℕ × Bool)
      → H.dwarf.Die
      → Action H (ℕ × (List ℕ × Bool))
  count_parameter visit (nb_params, params) param = do
    params' ← add_subroutine_parameter visit params param
    pure (nb_params + 1, params')

  unfoldable pub process_subroutine :
      (H.dwarf.Die → Action H Void) → ℕ → H.dwarf.Die → Action H Void
  unfolding count_parameter finish_type
  process_subroutine visit fuel subroutine = do
    ellipsis ← first_child fuel dw_tag_unspecified_parameters subroutine
    returned ← add_subroutine_return visit (func_header H.ida.bytes, false) subroutine
    let (func_type, second) = returned
    counted ←
        fold_children fuel dw_tag_formal_parameter subroutine (count_parameter visit)
          (0, ([], second))
    let (nb_params, (params_type, second_pass)) = counted
    ordinal ←
        save_type fuel none
          (finish_type H.ida.bytes H.ida.coding.append_dt (is_some ellipsis) func_type
            (nb_params, params_type))
          0
    cache_type {H = H} ordinal second_pass 0 (subroutine ∷ [])
