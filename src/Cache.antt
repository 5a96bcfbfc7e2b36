-- ===== src/Cache.antt =====
-- src/die_cache.hpp and src/die_cache.cpp: what the plugin remembers about the DIEs it has seen.
-- An entry is stored at the DIE's offset; a second map, for each kind of DIE, leads from an ordinal
-- or an address back to the first offset that was stored for it.
pub mod Coherence
pub mod Setters
pub mod History
pub mod Ordinals
pub mod Found
pub mod Outcome
pub mod Progress
pub mod Stored
pub mod Calls
use idadwarf.Prelude.{
  ℕ, Bool, true, false, not, ◌&&◌, Option, none, some, if◌then◌else◌, ◌==◌, is_some, badaddr,
  to_word,
}
use idadwarf.Netnode.{Netnode}

pub data DieType : Type 0 where
  die_useless die_type die_func die_var : DieType

pub data VarType : Type 0 where
  var_useless var_register var_stack var_func_static var_static var_global : VarType

-- The members of the union: `zeroed` is the initialiser `{ 0 }`.
pub data Members : Type 0 where
  zeroed : Members
  of_type : ℕ → Bool → ℕ → Members
  of_func : ℕ → Members
  of_var : VarType → ℕ → Members

pub record DieCache : Type 0 where
  pub type : DieType
  pub members : Members

-- The enumerators' values, which are the tags of the maps back.
abbrev pub tag_of : DieType → ℕ
tag_of die_useless = 0
tag_of die_type = 1
tag_of die_func = 2
tag_of die_var = 3

-- type == DIE_TYPE and the like.
abbrev pub is_useless : DieType → Bool
is_useless die_useless = true
is_useless _ = false

abbrev pub is_type : DieType → Bool
is_type die_type = true
is_type _ = false

abbrev pub is_func : DieType → Bool
is_func die_func = true
is_func _ = false

abbrev var_code : VarType → ℕ
var_code var_useless = 0
var_code var_register = 1
var_code var_stack = 2
var_code var_func_static = 3
var_code var_static = 4
var_code var_global = 5

-- cache.ordinal: the first word of the union, whichever member was written.
unfoldable pub ordinal : DieCache → ℕ
ordinal c = elim c.members [
  | zeroed ↦ 0
  | of_type o _ _ ↦ o
  | of_func ea ↦ ea
  | of_var v _ ↦ var_code v
]

pub second_pass : DieCache → Bool
second_pass c = elim c.members [ of_type _ s _ ↦ s | _ ↦ false ]

unfoldable pub base_ordinal : DieCache → ℕ
base_ordinal c = elim c.members [ of_type _ _ b ↦ b | _ ↦ 0 ]

module _ (N : Netnode DieCache) where
  open N use {Node, supval, supset, altval, altset}

  unfoldable pub get_cache : Node → ℕ → Option DieCache
  get_cache n offset = supval n (to_word offset)

  unfoldable pub in_cache : Node → ℕ → Bool
  in_cache n offset = is_some (supval n (to_word offset))

  unfoldable pub get_cache_type : Node → ℕ → Option DieCache
  unfolding get_cache
  get_cache_type n offset = elim (get_cache n offset) [
    | none ↦ none
    | some cache ↦ if not (is_type cache.type) then none else some cache
  ]

  unfoldable pub get_cache_type_ordinal : Node → ℕ → Option ℕ
  unfolding get_cache_type ordinal
  get_cache_type_ordinal n offset = elim (get_cache_type n offset) [
    | none ↦ none
    | some cache ↦ some (ordinal cache)
  ]

  unfoldable pub get_offset : Node → ℕ → DieType → Option ℕ
  get_offset n reverse type = altval n (tag_of type) reverse

  unfoldable pub get_type_offset : Node → ℕ → Option ℕ
  unfolding get_offset
  get_type_offset n ordinal = get_offset n ordinal die_type

  unfoldable pub get_cache_by_ordinal : Node → ℕ → Option DieCache
  unfolding get_type_offset get_cache
  get_cache_by_ordinal n ordinal = elim (get_type_offset n ordinal) [
    | none ↦ none
    | some offset ↦ get_cache n offset
  ]

  unfoldable pub cache_useless : Node → ℕ → Node
  unfolding in_cache
  cache_useless n offset =
      if not (in_cache n offset)
      then supset n (to_word offset) (record { type = die_useless; members = zeroed })
      else n

  -- The DIE with the same reverse mapping came first: its infos are set for this DIE too.
  copy_existing : Node → ℕ → ℕ → Node
  unfolding get_cache
  copy_existing n offset orig_offset = elim (get_cache n orig_offset) [
    | none ↦ n
    | some existing_cache ↦ supset n (to_word offset) existing_cache
  ]

  -- A new entry and its reverse mapping, but no override of an entry that is not useless.
  store_new : Node → ℕ → ℕ → DieCache → Node
  store_new n offset reverse cache =
      altset (supset n (to_word offset) cache) (tag_of cache.type) reverse (to_word offset)

  override_useless : Node → ℕ → ℕ → DieCache → Node
  unfolding get_cache store_new
  override_useless n offset reverse cache = elim (get_cache n offset) [
    | none ↦ store_new n offset reverse cache
    | some existing_cache ↦
        if not (is_useless existing_cache.type) then n else store_new n offset reverse cache
  ]

  unfoldable pub cache_useful : Node → ℕ → ℕ → DieCache → Node
  unfolding get_offset copy_existing override_useless
  cache_useful n offset reverse cache = elim (get_offset n reverse cache.type) [
    | none ↦ override_useless n offset reverse cache
    | some orig_offset ↦
        if not (orig_offset == offset)
        then copy_existing n offset orig_offset
        else override_useless n offset reverse cache
  ]

  unfoldable pub cache_type : Node → ℕ → ℕ → Bool → ℕ → Node
  cache_type n offset ordinal second_pass base_ordinal =
      if not (ordinal == 0) && not (ordinal == badaddr)
      then cache_useful n offset ordinal
          (record { type = die_type; members = of_type ordinal second_pass base_ordinal })
      else n

  unfoldable pub cache_func : Node → ℕ → ℕ → Node
  cache_func n offset startEA =
      if not (startEA == badaddr)
      then cache_useful n offset startEA (record { type = die_func; members = of_func startEA })
      else n

  unfoldable pub cache_var : Node → ℕ → VarType → ℕ → Node
  cache_var n offset type func_startEA =
      cache_useful n offset func_startEA
        (record { type = die_var; members = of_var type func_startEA })
