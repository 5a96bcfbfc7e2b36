-- ===== src/Session.antt =====
-- A pass of the plugin: actions that change the cache of DIEs (src/die_cache.cpp) and the database of
-- IDA, and that may throw a DieException. What was changed before an exception stays changed. A DIE
-- stands for its holder, since the memory of a holder cannot be seen; it is read with the DIEs that
-- are asked in its place, as in Holder/Reading.
use idadwarf.Prelude.{ℕ, Bool, Option, none, some, List, ◌∷◌, if◌then◌else◌}
use idadwarf.Netnode.{Netnode}
use idadwarf.Cache.{DieCache, VarType, get_cache_type_ordinal}
use idadwarf.Cache
use idadwarf.Dwarf.{Libdwarf}
use idadwarf.Dwarf.Checked.{Checked, returns, throws, check_dwerr}
use idadwarf.Dwarf.Tags.{dw_at_type}
use idadwarf.Holder.Reading.{
  name_of, attr_of, small_val_from, get_child, get_tag as tag_of_die,
  get_bytesize as bytesize_of_die,
}
use idadwarf.Holder.Memo.{offset_of, ref_of}
use idadwarf.Ida.{Ida}
use idadwarf.Traversal.{do_dies_traversal}
use idadwarf.Iterators.{Seen, stop, failed, item, children, set_current_child}
pub mod Keeps
pub mod Cached
pub mod Loops
pub mod Runs
pub mod Raised
pub mod Ends

-- What the plugin runs in: libdwarf with the debug information, IDA, and netnodes. The offsets in
-- the cache are found by sup1st and supnxt, which end with BADNODE.
pub record Host : Type 1 where
  pub dwarf : Libdwarf
  pub ida : Ida
  pub netnode : Netnode DieCache
  pub get_first_offset : netnode.Node → ℕ
  pub get_next_offset : netnode.Node → ℕ → ℕ

-- `exhausted` is that the fuel of a loop or of a recursion ran out.
pub data Outcome (A : Type 0) : Type 0 where
  done : A → Outcome A
  raised : Option ℕ → Outcome A
  exhausted : Outcome A

abbrev pub Void : Type 0
Void = Unit {0}

handled : Outcome Void → Outcome Void
handled (done v) = done v
handled (raised e) = done tt
handled exhausted = exhausted

fetched : {A : Type 0} → Option A → Option (Checked A)
fetched none = none
fetched (some ds) = some (returns ds)

kept : {A B : Type 0} → B → Option (Checked A) → Option (Checked (A × B))
kept db none = none
kept db (some (throws e)) = some (throws e)
kept db (some (returns a)) = some (returns (a, db))

module _ (H : Host) where
  pub record World : Type 0 where
    pub node : H.netnode.Node
    pub db : H.ida.Db

  abbrev pub Action : Type 0 → Type 0
  Action A = World → Outcome A × World

module _ {H : Host} {A : Type 0} where
  unfoldable pub pure : A → Action H A
  pure a w = (done a, w)

  unfoldable pub lift : Checked A → Action H A
  lift (returns a) w = (done a, w)
  lift (throws e) w = (raised e, w)

  -- A loop's result, `none` where its fuel ran out.
  unfoldable pub fueled : Option (Checked A) → Action H A
  unfolding lift
  fueled none w = (exhausted, w)
  fueled (some r) w = lift r w

  unfoldable pub gets : (World H → A) → Action H A
  gets f w = (done (f w), w)

  -- A call of IDA that changes its database, and one whose loop may run out of fuel.
  pub update : (H.ida.Db → A × H.ida.Db) → Action H A
  update f w = let (a, db) = f w.db in (done a, record w { db = db })

  store_result : Option (Checked (A × H.ida.Db)) → Action H A
  store_result none w = (exhausted, w)
  store_result (some (throws e)) w = (raised e, w)
  store_result (some (returns (a, db))) w = (done a, record w { db = db })

  pub update_fueled : (H.ida.Db → Option (Checked (A × H.ida.Db))) → Action H A
  unfolding store_result
  update_fueled f w = store_result (f w.db) w

module _ {H : Host} {A B : Type 0} where
  abbrev continue : Outcome A → (A → Action H B) → Action H B
  continue (done a) f w = f a w
  continue (raised e) f w = (raised e, w)
  continue exhausted f w = (exhausted, w)

  infixl 10 ◌>>=◌ ◌>>◌
  unfoldable pub ◌>>=◌ : Action H A → (A → Action H B) → Action H B
  ◌>>=◌ m f w = let (r, w') = m w in continue r f w'

  abbrev pub ◌>>◌ : Action H A → Action H B → Action H B
  m >> n = m >>= λ _. n

  -- What depends on a pointer that may be NULL.
  unfoldable pub on_option : Option A → Action H B → (A → Action H B) → Action H B
  on_option none m f = m
  on_option (some a) m f = f a

module _ {H : Host} where
  -- The wrapper of TRY_VISIT_DIE: an exception is caught, and what was done until then stays done.
  unfoldable pub try_visit : Action H Void → Action H Void
  unfolding handled
  try_visit m w = let (r, w') = m w in (handled r, w')

  -- The body of a loop for each DIE that it sees.
  pub for_seen : Seen H.dwarf → (H.dwarf.Die → Action H Void) → Action H Void
  for_seen stop body = pure tt
  for_seen (failed e) body = lift (throws e)
  for_seen (item d ds) body = body d >> for_seen ds body

  -- A loop over DieChildIterator(die, tag).
  pub for_children : ℕ → ℕ → H.dwarf.Die → (H.dwarf.Die → Action H Void) → Action H Void
  unfolding for_seen fetched
  for_children fuel tag die body =
      fueled (fetched (children H.dwarf fuel tag die)) >>= λ ds. for_seen ds body

  -- A loop that also carries a value.
  pub fold_seen : {S : Type 0} → Seen H.dwarf → (S → H.dwarf.Die → Action H S) → S → Action H S
  fold_seen stop body s = pure s
  fold_seen (failed e) body s = lift (throws e)
  fold_seen (item d ds) body s = body s d >>= λ s'. fold_seen ds body s'

  pub fold_children :
      {S : Type 0} → ℕ → ℕ → H.dwarf.Die → (S → H.dwarf.Die → Action H S) → S → Action H S
  unfolding fold_seen fetched
  fold_children fuel tag die body s =
      fueled (fetched (children H.dwarf fuel tag die)) >>= λ ds. fold_seen ds body s

  -- The first DIE that DieChildIterator(die, tag) sees.
  pub first_child : ℕ → ℕ → H.dwarf.Die → Action H (Option H.dwarf.Die)
  first_child fuel tag die = do
    child_die ← lift (get_child H.dwarf die)
    fueled (set_current_child H.dwarf fuel tag child_die)

  -- do_dies_traversal with a visitor; what does not return stops it.
  visit_in :
      (H.dwarf.Die → Action H Void) → H.dwarf.Die → Outcome Void × World H → Outcome Void × World H
  visit_in visit die (r, w) = continue r (λ _. visit die) w

  visited : World H → Option (Outcome Void × World H) → Outcome Void × World H
  visited w none = (exhausted, w)
  visited w (some r) = r

  unfoldable pub for_dies : ℕ → List H.dwarf.Die → (H.dwarf.Die → Action H Void) → Action H Void
  unfolding visit_in visited
  for_dies fuel cus visit w =
      visited w (do_dies_traversal H.dwarf (visit_in visit) fuel cus (done tt, w))

  -- The reading of attributes, on a DIE with those that are asked in its place.
  pub get_attr : ℕ → List H.dwarf.Die → Action H (Option H.dwarf.Attribute)
  get_attr a chain = lift (attr_of H.dwarf a chain)

  pub get_ref_from_attr : ℕ → List H.dwarf.Die → Action H ℕ
  get_ref_from_attr a chain = lift (ref_of H.dwarf a chain)

  pub get_name : List H.dwarf.Die → Action H (Option (List ℕ))
  get_name chain = lift (name_of H.dwarf chain)

  unfoldable pub get_tag : H.dwarf.Die → Action H ℕ
  get_tag die = lift (tag_of_die H.dwarf die)

  pub get_bytesize : H.dwarf.Die → Action H ℕ
  get_bytesize die = lift (bytesize_of_die H.dwarf die)

  pub get_attr_small_val : ℕ → List H.dwarf.Die → Action H ℕ
  get_attr_small_val a chain = do attrib ← get_attr a chain; lift (small_val_from H.dwarf attrib)

  unfoldable pub get_offset : List H.dwarf.Die → Action H ℕ
  get_offset chain = lift (offset_of H.dwarf chain)

  -- The DIE at an offset.
  unfoldable pub new_die : ℕ → Action H H.dwarf.Die
  new_die offset = lift (check_dwerr (H.dwarf.offdie offset))

  -- What is read off the database, by a loop that may run out of fuel.
  pub query : {A : Type 0} → (H.ida.Db → Option (Checked A)) → Action H A
  unfolding kept
  query f = update_fueled (λ db. kept db (f db))

  -- The cache, by the offset of the DIE.
  unfoldable pub in_cache : List H.dwarf.Die → Action H Bool
  in_cache chain = do offset ← get_offset chain; gets (λ w. Cache.in_cache H.netnode w.node offset)

  pub get_cache : List H.dwarf.Die → Action H (Option DieCache)
  get_cache chain = do
    offset ← get_offset chain
    gets (λ w. Cache.get_cache H.netnode w.node offset)

  pub get_cache_type : List H.dwarf.Die → Action H (Option DieCache)
  get_cache_type chain = do
    offset ← get_offset chain
    gets (λ w. Cache.get_cache_type H.netnode w.node offset)

  set_useless : ℕ → Action H Void
  set_useless offset w = (done tt, record w { node = Cache.cache_useless H.netnode w.node offset })

  set_type : ℕ → Bool → ℕ → ℕ → Action H Void
  set_type ordinal second_pass base_ordinal offset w = (
    done tt,
    record w { node = Cache.cache_type H.netnode w.node offset ordinal second_pass base_ordinal },
  )

  set_func : ℕ → ℕ → Action H Void
  set_func startEA offset w =
      (done tt, record w { node = Cache.cache_func H.netnode w.node offset startEA })

  set_var : VarType → ℕ → ℕ → Action H Void
  set_var type func_startEA offset w =
      (done tt, record w { node = Cache.cache_var H.netnode w.node offset type func_startEA })

  pub cache_useless : List H.dwarf.Die → Action H Void
  cache_useless chain = get_offset chain >>= set_useless

  pub cache_type : ℕ → Bool → ℕ → List H.dwarf.Die → Action H Void
  cache_type ordinal second_pass base_ordinal chain =
      get_offset chain >>= set_type ordinal second_pass base_ordinal

  pub cache_func : ℕ → List H.dwarf.Die → Action H Void
  cache_func startEA chain = get_offset chain >>= set_func startEA

  pub cache_var : VarType → ℕ → List H.dwarf.Die → Action H Void
  cache_var type func_startEA chain = get_offset chain >>= set_var type func_startEA

  pub get_type_ordinal : List H.dwarf.Die → Action H (Option ℕ)
  get_type_ordinal chain = do
    attrib ← get_attr dw_at_type chain
    on_option attrib (pure none) (λ _. do
      offset ← get_ref_from_attr dw_at_type chain
      gets (λ w. get_cache_type_ordinal H.netnode w.node offset))
