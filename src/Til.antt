-- ===== src/Til.antt =====
-- The type library of the IDA SDK (typeinf.hpp), as far as the plugin calls it: a parameter. A type
-- is a string of bytes (type_t, qtype), and so is a name; the terminating zero is left out.
use idadwarf.Prelude.{ℕ, ◌≡◌, Bool, true, Option, some, List, [], ◌∷◌, ◌++◌}

-- The bytes and the codings of types.
pub record TypeCoding : Type 0 where
  pub btf_typedef : ℕ
  pub btf_void : ℕ
  pub bt_ptr : ℕ
  pub is_type_typedef : ℕ → Bool
  pub is_type_struni : ℕ → Bool
  pub is_type_enum : ℕ → Bool
  pub is_type_complex : ℕ → Bool
  pub is_type_ptr : ℕ → Bool
  pub skip_ptr_type_header : List ℕ → List ℕ
  pub append_de : List ℕ → ℕ → List ℕ
  pub append_dt : List ℕ → ℕ → List ℕ
  pub append_name : List ℕ → List ℕ → List ℕ
  pub get_de : List ℕ → Option ℕ
  pub extract_name : List ℕ → Option (List ℕ)
  pub typcmp : List ℕ → List ℕ → Bool

-- The database of numbered and named types. What fails leaves the database as it is, and gives
-- `none`. The lookups by name are those with NTF_TYPE | NTF_NOBASE; `replace` is NTF_REPLACE.
pub record TypeLibrary : Type 1 where
  pub Db : Type 0
  pub get_numbered_type : Db → ℕ → Option (List ℕ)
  pub get_numbered_type_name : Db → ℕ → Option (List ℕ)
  pub get_named_type : Db → List ℕ → Option (ℕ × List ℕ)
  pub get_type_ordinal : Db → List ℕ → ℕ
  pub alloc_type_ordinal : Db → ℕ × Db
  pub set_numbered_type : Db → ℕ → Bool → List ℕ → List ℕ → Option Db
  pub del_numbered_type : Db → ℕ → Option Db
  pub apply_tinfo : Db → ℕ → List ℕ → Option Db

-- type[0]: of the empty string it is the terminating zero.
abbrev pub first_byte : List ℕ → ℕ
first_byte [] = 0
first_byte (b ∷ _) = b

-- What is read back of a coding is what was coded.
pub record Decodes (T : TypeCoding) : Type 0 where
  pub typedef_byte : T.is_type_typedef T.btf_typedef ≡ true
  pub name_of : (n : List ℕ) → T.extract_name (T.append_name [] n) ≡ some n
  pub de_of : (o : ℕ) → T.get_de (T.append_de [] o) ≡ some o
  pub name_appends : (s n : List ℕ) → T.append_name s n ≡ s ++ T.append_name [] n
  pub de_appends : (s : List ℕ) (o : ℕ) → T.append_de s o ≡ s ++ T.append_de [] o
