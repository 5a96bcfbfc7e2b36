-- ===== src/TypeRetrieval.antt =====
-- src/type_retrieval.hpp and src/type_retrieval.cpp: the types of the debug information.
pub mod Bytes
pub mod Lookup
pub mod Simple
pub mod Typedefs
pub mod Arrays
pub mod Structures
pub mod Subroutines
pub mod Visit
pub mod SecondPass
pub mod Pointers
pub mod Passes
pub mod Progress
pub mod Growth
pub mod Leaves
pub mod Modifiers
