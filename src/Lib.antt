-- ===== src/Lib.antt =====
-- idadwarf: an IDA plugin that reads the DWARF debugging symbols of an ELF file into the database
-- of the disassembler: types, functions with their variables, globals and macros.
--
-- The parts. A traversal (do_dies_traversal) visits all DIEs, the entries of the debug information,
-- once for each pass: types, functions, globals. A DIE is read through a holder (DieHolder) that
-- remembers what libdwarf said. What became of a DIE is kept in the cache of DIEs (DieCache), by the
-- DIE's offset, with maps back from type ordinals and addresses.
--
-- Prelude: numbers, tests, lists, the 32-bit words of the plugin's build.
-- Netnode: the SDK's sparse arrays, a parameter with laws. Cache: src/die_cache.hpp and
--   src/die_cache.cpp; Cache/Coherence, Cache/Setters and Cache/History are about what the setters
--   keep, Cache/Ordinals, Cache/Found, Cache/Stored and Cache/Outcome about what the getters read
--   afterwards, Cache/Progress and Cache/Calls about any calls of the setters.
-- Registers: src/registers.hpp, src/registers.cpp, src/items/metapc.itm.
-- Dwarf: libdwarf as a parameter, the exceptions of src/die_utils.hpp as values, DWARF's constants.
-- Holder: DieHolder of src/die_utils.cpp. Holder/Reading has the readings without memory,
--   Holder/Memo the proof that the memory is transparent,
--   Holder/Cached the methods that ask the cache, Holder/Location the location descriptions
--   (get_operand, get_frame_base_offsets).
-- Traversal: do_dies_traversal of src/die_utils.cpp. Iterators: src/iterators.hpp and
--   src/iterators.cpp; Iterators/Objects has their comparison and copies.
-- Til: the type library of the SDK, a parameter. IdaUtils: src/ida_utils.cpp; IdaUtils/Naming and
--   IdaUtils/Saving are about set_simple_die_type, IdaUtils/Typedefs about typedefs of ordinals.
-- TypeUtils: src/type_utils.hpp and src/type_utils.cpp; TypeUtils/Comparison is about the
--   comparators, TypeUtils/Adding about the names under which enums and structures are added,
--   and TypeUtils/Equivalence has get_equivalent_typedef_ordinal.
-- FuncRetrieval: src/func_retrieval.cpp. Sdk is what it calls of IDA, a parameter; Params, Frame,
--   Operands and Variables process a variable, Subprograms a function or a label, and Callees the
--   calls of a function. Kinds, StackVars, Arguments, Calls and Growth have the proofs.
-- Globals: src/global_retrieval.cpp. Plugin: src/idadwarf.cpp; Cus has
--   retrieve_cus, Files the files and CUsHolder of src/die_utils.hpp, Run the callbacks `init` and
--   `run`. Units, Growth, Files/Owned, Run/Ends and Run/Again have the proofs.
-- Macros: src/macro_retrieval.cpp, with libdwarf's macro details and the SDK's copy of strings as a
--   parameter; Macros/Cells and Macros/Lines are about what is shown.
-- Ida: the SDK, as far as the passes call it, a parameter. Members: fill_typeinfo of
--   src/ida_utils.cpp. Session: actions on the cache and the database of IDA, which may throw or run
--   out of fuel. Session/Cached has the iterators over the cache as loops, Session/Cached/Objects as
--   objects, and Session/Cached/Order is about what the loops see; Session/Keeps and Session/Loops
--   are the rules for the setters that an action calls, Session/Ends those for actions that end,
--   Session/Runs says what single actions do, and Session/Raised which exceptions stay inside.
-- TypeRetrieval: src/type_retrieval.cpp. Bytes builds types as bytes, Lookup asks for types; Simple,
--   Typedefs, Arrays, Structures and Subroutines process a DIE each, Visit is visit_type_die,
--   SecondPass and Pointers are the later passes, and Passes is retrieve_types. Progress, Growth,
--   Leaves and Modifiers prove what the passes do to the cache.
-- Tests: runs, and the theorems at concrete inputs.
--
-- State is passed explicitly: the cache is a netnode, a holder's method returns the holder
-- afterwards. Exceptions are values; NULL is `none`. Addresses, ordinals and node indices have 32
-- bits, offsets of DIEs and operands 64. Loops over the links of DIEs take fuel, and `none` is that
-- it ran out; the number of DIEs is enough fuel, as the theorems about them show. The recursion of
-- visit_type_die goes along the references of DIEs and has a depth of its own, which bounds it; it
-- ends in the program because the database then knows the structure that is being processed. The loop
-- that looks for a free type name ends two rounds after the longest name in use.
--
-- Not modelled: memory management but for the DIEs of compilation units, messages, what src/ calls
-- of IDA and libdwarf, and the window of src/macro_retrieval.cpp. What is undefined behaviour in the
-- source (a NULL struc_t that is followed, an argument beyond the last, a buffer that was not
-- written) is an exception of the model.
pub mod Prelude
pub mod Netnode
pub mod Cache
pub mod Registers
pub mod Dwarf
pub mod Holder
pub mod Traversal
pub mod Iterators
pub mod Til
pub mod IdaUtils
pub mod TypeUtils
pub mod Ida
pub mod Members
pub mod Session
pub mod TypeRetrieval
pub mod Globals
pub mod Macros
pub mod Plugin
pub mod FuncRetrieval
pub mod Tests
