-- ===== src/TypeRetrieval/Modifiers.antt =====
-- src/type_retrieval.cpp: what a visit does to a const, volatile or pointer type whose type is in the
-- cache.
use idadwarf.Prelude.{
  ℕ, suc, ◌≡◌, ◌≢◌, refl, ◌∙◌, ap, false, none, some, List, [], ◌∷◌, if◌then◌else◌, ◌==◌, badaddr,
}
use idadwarf.Cache.{
  DieCache, die_type, of_type, ordinal, base_ordinal, get_cache_type, in_cache, get_type_offset,
}
use idadwarf.Cache
use idadwarf.Cache.Stored.{get_cache_type-in_cache, cache_type-new}
use idadwarf.Dwarf.{Libdwarf}
use idadwarf.Dwarf.Checked.{returns, check_dwerr}
use idadwarf.Dwarf.Tags.{dw_tag_const_type, dw_tag_volatile_type, dw_tag_pointer_type, dw_at_type}
use idadwarf.Holder.Memo.{offset_of, ref_of}
use idadwarf.Holder.Reading.{attr_of, get_tag as tag_of_die}
use idadwarf.IdaUtils.{make_new_type, set_simple_die_type}
use idadwarf.Ida.{types}
use idadwarf.Session.{Host, done, World, Action, Void, try_visit, on_option, cache_useless}
use idadwarf.Session.Runs.{
  bind_run, gets_run, get_attr_run, get_ref_from_attr_run, new_die_run, get_cache_type_run,
  get_tag_run, cache_type_run, try_visit_run,
}
use idadwarf.TypeRetrieval.Growth.{visit_type_die_cached}
use idadwarf.TypeRetrieval.Leaves.{visit_uncached, save_type_run}
use idadwarf.TypeRetrieval.Lookup.{
  look_ref_type, visited_type, numbered_type, numbered_type_name, new_type_of,
}
use idadwarf.TypeRetrieval.Simple.{process_modifier, process_typed_modifier, save_modifier}
use idadwarf.TypeRetrieval.Bytes.{modifier_type}
use idadwarf.TypeRetrieval.Visit.{process_type, visit_type_die}

-- The tags that share a branch of the switch.
pub data IsModifierTag : ℕ → Type 0 where
  const_tag : IsModifierTag dw_tag_const_type
  volatile_tag : IsModifierTag dw_tag_volatile_type
  pointer_tag : IsModifierTag dw_tag_pointer_type

-- The DIE of a modifier, as far as it is read, with the DIE of the type that it refers to.
pub record IsModifier (D : Libdwarf) (die referred : D.Die) (offset tag referred_offset : ℕ)
    : Type 0 where
  pub offset_read : offset_of D (die ∷ []) ≡ returns offset
  pub tag_read : tag_of_die D die ≡ returns tag
  pub modifies : IsModifierTag tag
  pub attrib : D.Attribute
  pub ref : ℕ
  pub typed : attr_of D dw_at_type (die ∷ []) ≡ returns (some attrib)
  pub refers : ref_of D dw_at_type (die ∷ []) ≡ returns ref
  pub found : check_dwerr (D.offdie ref) ≡ returns referred
  pub referred_read : offset_of D (referred ∷ []) ≡ returns referred_offset

-- What is under the modifiers: the type itself, or what it is founded on.
unfoldable pub founded_on : DieCache → ℕ
founded_on cache = if base_ordinal cache == 0 then ordinal cache else base_ordinal cache

module _ {H : Host} where
  process_type_of_modifier :
      (visit : H.dwarf.Die → Action H Void) (fuel tag : ℕ) (die : H.dwarf.Die)
      → IsModifierTag tag
      → process_type visit fuel tag die ≡ process_modifier visit fuel die
  unfolding process_type
  process_type_of_modifier visit fuel _ die const_tag = refl
  process_type_of_modifier visit fuel _ die volatile_tag = refl
  process_type_of_modifier visit fuel _ die pointer_tag = refl

  look_ref_type_run :
      (visit : H.dwarf.Die → Action H Void) (fuel : ℕ) (die referred : H.dwarf.Die) (w : World H)
      (offset tag referred_offset : ℕ)
      → IsModifier H.dwarf die referred offset tag referred_offset
      → visit referred w ≡ (done tt, w)
      → look_ref_type visit fuel die w
        ≡ (done (Cache.get_cache_type H.netnode w.node referred_offset), w)
  unfolding look_ref_type visited_type on_option
  look_ref_type_run visit fuel die referred w offset tag referred_offset d seen =
      bind_run _ _ w w _ (get_attr_run dw_at_type (die ∷ []) w _ d.typed)
      ∙ (bind_run _ _ w w _ (get_ref_from_attr_run dw_at_type (die ∷ []) w _ d.refers)
          ∙ (bind_run _ _ w w _ (new_die_run d.ref w referred d.found)
              ∙ (bind_run _ _ w w tt seen
                  ∙ get_cache_type_run (referred ∷ []) w referred_offset d.referred_read)))

  process_typed_modifier_run :
      (fuel : ℕ) (die referred : H.dwarf.Die) (w : World H) (offset tag referred_offset : ℕ)
      (cache : DieCache) (name type new_type : List ℕ) (ordinal : ℕ) (db : H.ida.Db)
      → IsModifier H.dwarf die referred offset tag referred_offset
      → H.ida.get_numbered_type_name w.db (Cache.ordinal cache) ≡ some name
      → H.ida.get_numbered_type w.db (Cache.ordinal cache) ≡ some type
      → modifier_type H.ida.bytes H.ida.coding.bt_ptr tag type
          (make_new_type H.ida.coding (types H.ida) w.db [] (some type) (founded_on cache))
        ≡ some new_type
      → set_simple_die_type H.ida.coding (types H.ida) fuel w.db none new_type 0
        ≡ some (ordinal, db)
      → process_typed_modifier {H = H} fuel die cache w ≡ (
        done tt,
        record {
          node = Cache.cache_type H.netnode w.node offset ordinal false (founded_on cache);
          db = db;
        },
      )
  unfolding process_typed_modifier save_modifier numbered_type numbered_type_name new_type_of
      on_option founded_on
  process_typed_modifier_run fuel die referred w offset tag referred_offset cache name type new_type
        ordinal db d named typed made saved =
      bind_run _ _ w w (some name) (gets_run _ w _ named)
      ∙ (bind_run _ _ w w (some type) (gets_run _ w _ typed)
          ∙ (bind_run _ _ w w tag (get_tag_run die w tag d.tag_read)
              ∙ (bind_run _ _ w w _ (gets_run _ w _ refl)
                  ∙ (ap
                        (λ m.
                          on_option m (cache_useless {H = H} (die ∷ []))
                            (λ t. save_modifier fuel (founded_on cache) t die) w)
                        made
                      ∙ (bind_run _ _ w _ ordinal
                            (save_type_run fuel none new_type 0 w ordinal db saved)
                          ∙ cache_type_run (die ∷ []) _ offset ordinal (founded_on cache) false
                              d.offset_read)))))

  -- A const, volatile or pointer type that is not in the cache, and whose type is in it as a type that
  -- the database has with a name, is visited: where the modified type, without a name, is saved under
  -- an ordinal that is neither 0 nor BADADDR and that no DIE had before, the visit returns, the
  -- database is that with the saved type, and the entry of the DIE has this ordinal, no second pass,
  -- and the base ordinal of what it refers to, or the ordinal of that where it has no base.
  pub visit_type_die-modifier :
      (depth fuel : ℕ) (die referred : H.dwarf.Die) (w : World H) (offset tag referred_offset : ℕ)
      (cache : DieCache) (name type new_type : List ℕ) (ordinal : ℕ) (db : H.ida.Db)
      → IsModifier H.dwarf die referred offset tag referred_offset
      → in_cache H.netnode w.node offset ≡ false
      → get_cache_type H.netnode w.node referred_offset ≡ some cache
      → H.ida.get_numbered_type_name w.db (Cache.ordinal cache) ≡ some name
      → H.ida.get_numbered_type w.db (Cache.ordinal cache) ≡ some type
      → modifier_type H.ida.bytes H.ida.coding.bt_ptr tag type
          (make_new_type H.ida.coding (types H.ida) w.db [] (some type) (founded_on cache))
        ≡ some new_type
      → set_simple_die_type H.ida.coding (types H.ida) fuel w.db none new_type 0
        ≡ some (ordinal, db)
      → ordinal ≢ 0
      → ordinal ≢ badaddr
      → get_type_offset H.netnode w.node ordinal ≡ none
      → (w' : World H) × (visit_type_die (suc (suc depth)) fuel die w ≡ (done tt, w'))
        × (w'.db ≡ db)
        × (get_cache_type H.netnode w'.node offset
            ≡ some (record { type = die_type; members = of_type ordinal false (founded_on cache) }))
  unfolding visit_type_die process_modifier on_option
  visit_type_die-modifier depth fuel die referred w offset tag referred_offset cache name type
        new_type ordinal db d fresh known named typed made saved nz nb first =
      (
        record {
          node = Cache.cache_type H.netnode w.node offset ordinal false (founded_on cache);
          db = db;
        },
        visit_uncached fuel die w offset tag d.offset_read fresh d.tag_read visit
            ∙ (ap (λ m. m w) (process_type_of_modifier visit fuel tag die d.modifies)
                ∙ (bind_run _ _ w w (some cache) (
                      look_ref_type_run visit fuel die referred w offset tag referred_offset d seen
                      ∙ ap (λ c. (done c, w)) known)
                    ∙ process_typed_modifier_run fuel die referred w offset tag referred_offset
                        cache name type new_type ordinal db d named typed made saved)),
        refl,
        cache_type-new H.netnode w.node offset ordinal (founded_on cache) nz nb fresh first,
      )
    where
      visit : H.dwarf.Die → Action H Void
      visit d = try_visit (visit_type_die (suc depth) fuel d)

      seen : visit referred w ≡ (done tt, w)
      seen = try_visit_run _ w w (
          visit_type_die_cached depth fuel referred w referred_offset d.referred_read
            (get_cache_type-in_cache H.netnode w.node referred_offset cache known))
