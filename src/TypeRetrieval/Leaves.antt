-- ===== src/TypeRetrieval/Leaves.antt =====
-- src/type_retrieval.cpp: what a visit does to DIEs without children, base types and unspecified
-- types.
use idadwarf.Prelude.{
  ℕ, zero, suc, ◌≡◌, ◌≢◌, ◌<◌, refl, ◌∙◌, ap, sym, subst, Option-cases, inl, inr, Bool, true, false,
  Option, none, some, List, [], ◌∷◌, if◌then◌else◌, word_mod,
}
use idadwarf.Cache
use idadwarf.Cache.{die_useless, zeroed, get_cache}
use idadwarf.Cache.Coherence.{IsCoherent}
use idadwarf.Cache.Outcome.{TypeCached, get_cache-cache_useless, cache_type-TypeCached}
use idadwarf.Dwarf.{Libdwarf}
use idadwarf.Dwarf.Checked.{returns}
use idadwarf.Dwarf.Tags.{dw_tag_base_type, dw_tag_unspecified_type, dw_at_encoding}
use idadwarf.Holder.Memo.{offset_of}
use idadwarf.Holder.Reading.{
  name_of, attr_of, small_val_from, get_tag as tag_of_die, get_bytesize as bytesize_of_die,
}
use idadwarf.IdaUtils.{set_simple_die_type}
use idadwarf.Ida.{types}
use idadwarf.Session.{
  Host, Outcome, exhausted, cache_type, done, World, Action, Void, ◌>>=◌, pure, try_visit, get_tag,
}
use idadwarf.Session.Runs.{
  bind_run, bind_not_run, update_fueled_not_run, cache_useless_run, in_cache_run, get_tag_run,
  get_name_run, get_bytesize_run, get_attr_small_val_run, update_fueled_run, cache_type_run,
  pure_run, no_fuel_run, bind-SameNode, in_cache-SameNode, update_fueled-SameNode,
}
use idadwarf.TypeRetrieval.Bytes.{base_type}
use idadwarf.TypeRetrieval.Lookup.{returned, save_type, add_unspecified_type}
use idadwarf.TypeRetrieval.Simple.{process_base_type, save_base_type, process_unspecified}
use idadwarf.TypeRetrieval.Visit.{process_type, visit_type, visit_type_die}

-- The DIE of a base type, as far as it is read.
pub record IsBaseType (D : Libdwarf) (die : D.Die) (offset : ℕ) (name : Option (List ℕ))
    (byte_size encoding : ℕ) : Type 0 where
  pub offset_read : offset_of D (die ∷ []) ≡ returns offset
  pub tag : tag_of_die D die ≡ returns dw_tag_base_type
  pub named : name_of D (die ∷ []) ≡ returns name
  pub size : bytesize_of_die D die ≡ returns byte_size
  pub attrib : Option D.Attribute
  pub encoded : attr_of D dw_at_encoding (die ∷ []) ≡ returns attrib
  pub value : small_val_from D attrib ≡ returns encoding

module _ {H : Host} where
  pub save_type_run :
      (fuel : ℕ) (name : Option (List ℕ)) (type : List ℕ) (o : ℕ) (w : World H) (ordinal : ℕ)
      (db : H.ida.Db)
      → set_simple_die_type H.ida.coding (types H.ida) fuel w.db name type o ≡ some (ordinal, db)
      → save_type fuel name type o w ≡ (done ordinal, record w { db = db })
  unfolding save_type returned
  save_type_run fuel name type o w ordinal db h = update_fueled_run _ w ordinal db (rw h refl)

  save_type_not_run :
      (fuel : ℕ) (name : Option (List ℕ)) (type : List ℕ) (o : ℕ) (w : World H)
      → set_simple_die_type H.ida.coding (types H.ida) fuel w.db name type o ≡ none
      → save_type fuel name type o w ≡ (exhausted, w)
  unfolding save_type returned
  save_type_not_run fuel name type o w h = update_fueled_not_run _ w (rw h refl)

  -- What a visit of a base type does: the DIE is useless where there is no type for its encoding; else
  -- its type is saved under the name, if the fuel of that loop is enough, and cached with the ordinal.
  pub data BaseTypeVisited (fuel : ℕ) (w : World H) (offset : ℕ) (name : Option (List ℕ))
      (type : List ℕ) : Outcome Void × World H → Type 0 where
    no_type :
        (w' : World H)
        → type ≡ []
        → w'.db ≡ w.db
        → get_cache H.netnode w'.node offset
          ≡ some (record { type = die_useless; members = zeroed })
        → BaseTypeVisited fuel w offset name type (done tt, w')
    no_fuel :
        type ≢ []
        → set_simple_die_type H.ida.coding (types H.ida) fuel w.db name type 0 ≡ none
        → BaseTypeVisited fuel w offset name type (exhausted, w)
    typed :
        (w' : World H) (ordinal : ℕ)
        → type ≢ []
        → set_simple_die_type H.ida.coding (types H.ida) fuel w.db name type 0
          ≡ some (ordinal, w'.db)
        → TypeCached H.netnode w.node w'.node offset ordinal
        → BaseTypeVisited fuel w offset name type (done tt, w')

  save_base_type-BaseTypeVisited :
      (fuel : ℕ) (name : Option (List ℕ)) (type : List ℕ) (die : H.dwarf.Die) (w : World H)
      (offset : ℕ)
      → offset_of H.dwarf (die ∷ []) ≡ returns offset
      → offset < word_mod
      → IsCoherent H.netnode w.node
      → Cache.in_cache H.netnode w.node offset ≡ false
      → BaseTypeVisited fuel w offset name type (save_base_type fuel name type die w)
  unfolding save_base_type
  save_base_type-BaseTypeVisited fuel name [] die w offset o small coherent fresh =
      rw (cache_useless_run (die ∷ []) w offset o)
        (no_type _ refl refl (get_cache-cache_useless H.netnode w.node offset fresh))
  save_base_type-BaseTypeVisited fuel name (b ∷ type) die w offset o small coherent fresh =
      elim (Option-cases
        (set_simple_die_type H.ida.coding (types H.ida) fuel w.db name (b ∷ type) 0)) [
          | inl e ↦
              rw
                (bind_not_run (save_type fuel name (b ∷ type) 0)
                  (λ ordinal. cache_type {H = H} ordinal false 0 (die ∷ [])) w w
                  (save_type_not_run fuel name (b ∷ type) 0 w e))
                (no_fuel (λ h. absurd (cc h)) e)
          | inr ((ordinal, db), e) ↦
              rw
                (
                  bind_run (save_type fuel name (b ∷ type) 0)
                      (λ ordinal. cache_type {H = H} ordinal false 0 (die ∷ [])) w _ ordinal
                      (save_type_run fuel name (b ∷ type) 0 w ordinal db e),
                  cache_type_run (die ∷ []) (record w { db = db }) offset ordinal 0 false o,
                )
                (typed _ ordinal (λ h. absurd (cc h)) e
                  (cache_type-TypeCached H.netnode w.node offset ordinal coherent small fresh))
        ]

  process_type_of_base_type :
      (visit : H.dwarf.Die → Action H Void) (fuel : ℕ) (die : H.dwarf.Die)
      → process_type visit fuel dw_tag_base_type die ≡ process_base_type fuel die
  unfolding process_type
  process_type_of_base_type visit fuel die = refl

  pub visit_uncached :
      (fuel : ℕ) (die : H.dwarf.Die) (w : World H) (offset tag : ℕ)
      → offset_of H.dwarf (die ∷ []) ≡ returns offset
      → Cache.in_cache H.netnode w.node offset ≡ false
      → tag_of_die H.dwarf die ≡ returns tag
      → (visit : H.dwarf.Die → Action H Void)
      → visit_type visit fuel die w ≡ process_type visit fuel tag die w
  unfolding visit_type
  visit_uncached fuel die w offset tag o fresh t visit =
      bind_run _ _ w w _ (in_cache_run (die ∷ []) w offset o)
      ∙ (rw fresh (bind_run _ _ w w tag (get_tag_run die w tag t)))

  -- A visit of a base type that is not in the cache and whose attributes can be read, with any
  -- encoding: where `base_type` has no type for the encoding and the size, it returns, the DIE is
  -- useless, and the database stays; else the type is given to `set_simple_die_type`, with the DIE's
  -- name and for a new ordinal. Where this runs out of fuel, so does the visit, and nothing has
  -- changed. Where it gives an ordinal, the visit returns, with the database that it left. An ordinal
  -- that is 0 or BADADDR is not cached; the first DIE of an ordinal gets the entry of a type with this
  -- ordinal, without a second pass and a base; and a later one gets the entry of the first, which is
  -- that of a type with the ordinal. The maps back and the entries agree before the visit, and the
  -- offset has 32 bits.
  pub visit_type_die-base_type :
      (depth fuel : ℕ) (die : H.dwarf.Die) (w : World H) (offset byte_size encoding : ℕ)
      (name : Option (List ℕ))
      → IsBaseType H.dwarf die offset name byte_size encoding
      → offset < word_mod
      → IsCoherent H.netnode w.node
      → Cache.in_cache H.netnode w.node offset ≡ false
      → BaseTypeVisited fuel w offset name
          (base_type H.ida.bytes encoding byte_size)
          (visit_type_die (suc depth) fuel die w)
  unfolding visit_type_die process_base_type
  visit_type_die-base_type depth fuel die w offset byte_size encoding name d small coherent fresh =
      subst (BaseTypeVisited fuel w offset name (base_type H.ida.bytes encoding byte_size))
        (sym run)
        (save_base_type-BaseTypeVisited fuel name _ die w offset d.offset_read small coherent fresh)
    where
      visit : H.dwarf.Die → Action H Void
      visit d = try_visit (visit_type_die depth fuel d)

      run :
          visit_type visit fuel die w
          ≡ save_base_type fuel name (base_type H.ida.bytes encoding byte_size) die w
      run =
          visit_uncached fuel die w offset dw_tag_base_type d.offset_read fresh d.tag visit
          ∙ (ap (λ m. m w) (process_type_of_base_type visit fuel die)
              ∙ (bind_run _ _ w w name (get_name_run (die ∷ []) w name d.named)
                  ∙ (bind_run _ _ w w byte_size (get_bytesize_run die w byte_size d.size)
                      ∙ bind_run _ _ w w encoding (
                          get_attr_small_val_run dw_at_encoding (die ∷ []) w d.attrib encoding
                            d.encoded d.value))))

  process_unspecified-SameNode :
      (fuel : ℕ) (die : H.dwarf.Die) (w : World H)
      → (process_unspecified {H = H} fuel die w).1.node ≡ w.node
  unfolding process_unspecified add_unspecified_type save_type
  process_unspecified-SameNode fuel die w =
      bind-SameNode _ _
        (bind-SameNode _ _ (update_fueled-SameNode _) (λ o w'. ap (λ r. r.1.node) (pure_run _ w')))
        (λ c w'. ap (λ r. r.1.node) (pure_run tt w')) w

  process_type_of_unspecified :
      (visit : H.dwarf.Die → Action H Void) (fuel : ℕ) (die : H.dwarf.Die)
      → process_type visit fuel dw_tag_unspecified_type die ≡ process_unspecified fuel die
  unfolding process_type
  process_type_of_unspecified visit fuel die = refl

  visit_if_uncached :
      (visit : H.dwarf.Die → Action H Void) (fuel : ℕ) (die : H.dwarf.Die) (cached : Bool)
      (w : World H)
      → tag_of_die H.dwarf die ≡ returns dw_tag_unspecified_type
      → ((if cached then pure tt else (get_tag die >>= λ tag. process_type visit fuel tag die))
          w).1.node
        ≡ w.node
  visit_if_uncached visit fuel die true w t = ap (λ r. r.1.node) (pure_run tt w)
  visit_if_uncached visit fuel die false w t =
      ap (λ r. r.1.node)
        (bind_run _ _ w w dw_tag_unspecified_type (get_tag_run die w _ t)
          ∙ ap (λ m. m w) (process_type_of_unspecified visit fuel die))
      ∙ process_unspecified-SameNode fuel die w

  -- A visit of an unspecified type leaves the cache as it is, whatever it does to the database: the
  -- DIE is not put into the cache, not even as useless.
  pub visit_type_die-unspecified_type :
      (depth fuel : ℕ) (die : H.dwarf.Die) (w : World H)
      → tag_of_die H.dwarf die ≡ returns dw_tag_unspecified_type
      → (visit_type_die depth fuel die w).1.node ≡ w.node
  unfolding visit_type_die visit_type
  visit_type_die-unspecified_type zero fuel die w t = ap (λ r. r.1.node) (no_fuel_run w)
  visit_type_die-unspecified_type (suc depth) fuel die w t =
      bind-SameNode _ _ (in_cache-SameNode (die ∷ []))
        (λ cached w'. visit_if_uncached _ fuel die cached w' t) w
