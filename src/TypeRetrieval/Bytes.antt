-- ===== src/TypeRetrieval/Bytes.antt =====
-- src/type_retrieval.cpp: the bytes of types that are built without looking into the database.
use Prim.Native.Nat.{bit_or}
use idadwarf.Prelude.{ℕ, zero, suc, Option, none, some, List, [], ◌∷◌, if◌then◌else◌, ◌==◌, to_word}
use idadwarf.Ida.{TypeBytes}
use idadwarf.Til.{first_byte}
use idadwarf.Dwarf.Tags.{
  dw_ate_boolean, dw_ate_float, dw_ate_signed, dw_ate_signed_char, dw_ate_unsigned,
  dw_ate_unsigned_char, dw_tag_const_type, dw_tag_volatile_type, dw_tag_pointer_type,
}

-- type[i] |= bits
unfoldable pub set_bits : ℕ → ℕ → List ℕ → List ℕ
set_bits i bits [] = []
set_bits zero bits (b ∷ type) = bit_or b bits ∷ type
set_bits (suc i) bits (b ∷ type) = b ∷ set_bits i bits type

module _ (B : TypeBytes) where
  unfoldable pub bool_bits : ℕ → ℕ
  bool_bits byte_size =
      if byte_size == 1
      then B.btmt_bool1
      else if byte_size == 2
      then B.btmt_bool2
      else if byte_size == 4
      then B.btmt_bool4
      else B.btmt_defbool

  -- A float of another size has no bits: `|= 0`.
  unfoldable pub float_bits : ℕ → ℕ
  float_bits byte_size =
      if byte_size == 2
      then B.btmt_specflt
      else if byte_size == 4
      then B.btmt_float
      else if byte_size == 8
      then B.btmt_double
      else if byte_size == 10
      then B.btmt_lngdbl
      else 0

  unfoldable pub int_bits : ℕ → ℕ
  int_bits byte_size =
      if byte_size == 1
      then B.bt_int8
      else if byte_size == 2
      then B.bt_int16
      else if byte_size == 4
      then B.bt_int32
      else if byte_size == 8
      then B.bt_int64
      else if byte_size == 16
      then B.bt_int128
      else B.bt_int

  -- The switch of process_base_type; empty where there is no type for the encoding.
  unfoldable pub base_type : (encoding byte_size : ℕ) → List ℕ
  unfolding bool_bits float_bits int_bits
  base_type encoding byte_size =
      if encoding == dw_ate_boolean
      then bit_or B.bt_bool (bool_bits byte_size) ∷ []
      else if encoding == dw_ate_float
      then bit_or B.bt_float (float_bits byte_size) ∷ []
      else if encoding == dw_ate_signed
      then bit_or B.btmt_signed (int_bits byte_size) ∷ []
      else if encoding == dw_ate_unsigned
      then bit_or B.btmt_usigned (int_bits byte_size) ∷ []
      else if encoding == dw_ate_unsigned_char
      then bit_or B.btmt_usigned (bit_or B.bt_int8 B.btmt_char) ∷ []
      else if encoding == dw_ate_signed_char
      then bit_or B.btmt_signed (bit_or B.bt_int8 B.btmt_char) ∷ []
      else []

  -- size_t has 32 bits; the size itself is tested with 64.
  unfoldable pub get_enum_size : ℕ → ℕ
  get_enum_size size = if size == 0 then B.dwrdflag else B.get_flags_by_size (to_word size)

  -- The modifier of a type, by its tag: process_typed_modifier before the arrays.
  modified : (bt_ptr tag : ℕ) → List ℕ → Option (List ℕ)
  unfolding set_bits
  modified bt_ptr tag new_type =
      if tag == dw_tag_const_type
      then some (set_bits 0 B.btm_const new_type)
      else if tag == dw_tag_volatile_type
      then some (set_bits 0 B.btm_volatile new_type)
      else if tag == dw_tag_pointer_type
      then some (bt_ptr ∷ new_type)
      else none

  -- The elements of const and volatile arrays have the same modifiers.
  modify_elements : ℕ → List ℕ → List ℕ
  unfolding set_bits
  modify_elements tag new_type =
      if tag == dw_tag_const_type
      then set_bits (B.array_header_length new_type) B.btm_const new_type
      else if tag == dw_tag_volatile_type
      then set_bits (B.array_header_length new_type) B.btm_volatile new_type
      else new_type

  -- `type` is the original type, and `new_type` what make_new_type has made of it.
  unfoldable pub modifier_type : (bt_ptr tag : ℕ) → (type new_type : List ℕ) → Option (List ℕ)
  unfolding modified modify_elements
  modifier_type bt_ptr tag type new_type = elim (modified bt_ptr tag new_type) [
    | none ↦ none
    | some changed ↦
        some (if B.is_type_array (first_byte type) then modify_elements tag changed else changed)
  ]
