-- ===== src/Dwarf/Tags.antt =====
-- Tags, attributes, forms, operations and encodings of DWARF that src/ names, with the standard's values.
use idadwarf.Prelude.{ℕ}

abbrev pub dw_tag_array_type : ℕ
dw_tag_array_type = 0x01

abbrev pub dw_tag_enumeration_type : ℕ
dw_tag_enumeration_type = 0x04

abbrev pub dw_tag_formal_parameter : ℕ
dw_tag_formal_parameter = 0x05

abbrev pub dw_tag_label : ℕ
dw_tag_label = 0x0a

abbrev pub dw_tag_lexical_block : ℕ
dw_tag_lexical_block = 0x0b

abbrev pub dw_tag_member : ℕ
dw_tag_member = 0x0d

abbrev pub dw_tag_pointer_type : ℕ
dw_tag_pointer_type = 0x0f

abbrev pub dw_tag_compile_unit : ℕ
dw_tag_compile_unit = 0x11

abbrev pub dw_tag_structure_type : ℕ
dw_tag_structure_type = 0x13

abbrev pub dw_tag_subroutine_type : ℕ
dw_tag_subroutine_type = 0x15

abbrev pub dw_tag_typedef : ℕ
dw_tag_typedef = 0x16

abbrev pub dw_tag_union_type : ℕ
dw_tag_union_type = 0x17

abbrev pub dw_tag_unspecified_parameters : ℕ
dw_tag_unspecified_parameters = 0x18

abbrev pub dw_tag_inlined_subroutine : ℕ
dw_tag_inlined_subroutine = 0x1d

abbrev pub dw_tag_subrange_type : ℕ
dw_tag_subrange_type = 0x21

abbrev pub dw_tag_base_type : ℕ
dw_tag_base_type = 0x24

abbrev pub dw_tag_const_type : ℕ
dw_tag_const_type = 0x26

abbrev pub dw_tag_enumerator : ℕ
dw_tag_enumerator = 0x28

abbrev pub dw_tag_subprogram : ℕ
dw_tag_subprogram = 0x2e

abbrev pub dw_tag_variable : ℕ
dw_tag_variable = 0x34

abbrev pub dw_tag_volatile_type : ℕ
dw_tag_volatile_type = 0x35

abbrev pub dw_tag_unspecified_type : ℕ
dw_tag_unspecified_type = 0x3b

abbrev pub dw_tag_partial_unit : ℕ
dw_tag_partial_unit = 0x3c

abbrev pub dw_at_location : ℕ
dw_at_location = 0x02

abbrev pub dw_at_low_pc : ℕ
dw_at_low_pc = 0x11

abbrev pub dw_at_const_value : ℕ
dw_at_const_value = 0x1c

abbrev pub dw_at_upper_bound : ℕ
dw_at_upper_bound = 0x2f

abbrev pub dw_at_abstract_origin : ℕ
dw_at_abstract_origin = 0x31

abbrev pub dw_at_data_member_location : ℕ
dw_at_data_member_location = 0x38

abbrev pub dw_at_declaration : ℕ
dw_at_declaration = 0x3c

abbrev pub dw_at_encoding : ℕ
dw_at_encoding = 0x3e

abbrev pub dw_at_external : ℕ
dw_at_external = 0x3f

abbrev pub dw_at_frame_base : ℕ
dw_at_frame_base = 0x40

abbrev pub dw_at_type : ℕ
dw_at_type = 0x49

abbrev pub dw_form_ref_addr : ℕ
dw_form_ref_addr = 0x10

abbrev pub dw_form_ref1 : ℕ
dw_form_ref1 = 0x11

abbrev pub dw_form_ref2 : ℕ
dw_form_ref2 = 0x12

abbrev pub dw_form_ref4 : ℕ
dw_form_ref4 = 0x13

abbrev pub dw_form_ref8 : ℕ
dw_form_ref8 = 0x14

abbrev pub dw_form_ref_udata : ℕ
dw_form_ref_udata = 0x15

abbrev pub dw_op_addr : ℕ
dw_op_addr = 0x03

abbrev pub dw_op_plus_uconst : ℕ
dw_op_plus_uconst = 0x23

abbrev pub dw_op_breg4 : ℕ
dw_op_breg4 = 0x74

abbrev pub dw_op_breg5 : ℕ
dw_op_breg5 = 0x75

abbrev pub dw_op_fbreg : ℕ
dw_op_fbreg = 0x91

abbrev pub dw_ate_address : ℕ
dw_ate_address = 0x01

abbrev pub dw_ate_boolean : ℕ
dw_ate_boolean = 0x02

abbrev pub dw_ate_complex_float : ℕ
dw_ate_complex_float = 0x03

abbrev pub dw_ate_float : ℕ
dw_ate_float = 0x04

abbrev pub dw_ate_signed : ℕ
dw_ate_signed = 0x05

abbrev pub dw_ate_signed_char : ℕ
dw_ate_signed_char = 0x06

abbrev pub dw_ate_unsigned : ℕ
dw_ate_unsigned = 0x07

abbrev pub dw_ate_unsigned_char : ℕ
dw_ate_unsigned_char = 0x08
