-- ===== src/Session/Runs.antt =====
-- What the actions do where the debug information can be read, and what leaves the cache alone.
use idadwarf.Prelude.{ℕ, ◌≡◌, refl, ◌∙◌, Bool, Option, none, some, List}
use idadwarf.Cache
use idadwarf.Dwarf.Checked.{Checked, returns, throws, check_dwerr}
use idadwarf.Holder.Memo.{offset_of, ref_of}
use idadwarf.Holder.Reading.{
  name_of, attr_of, small_val_from, get_tag as tag_of_die, get_bytesize as bytesize_of_die,
}
use idadwarf.Session.{
  Host, Outcome, done, raised, exhausted, World, Action, Void, pure, lift, fueled, gets, update,
  store_result, update_fueled, continue, ◌>>=◌, handled, try_visit, get_attr, get_name, get_tag,
  get_bytesize, get_attr_small_val, get_ref_from_attr, new_die, get_cache_type, get_offset,
  in_cache, set_type, cache_type, set_useless, cache_useless,
}

module _ {H : Host} {A : Type 0} where
  pub pure_run : (a : A) (w : World H) → pure {H = H} a w ≡ (done a, w)
  unfolding pure
  pure_run a w = refl

  pub no_fuel_run : (w : World H) → fueled {H = H} {A = A} none w ≡ (exhausted, w)
  unfolding fueled
  no_fuel_run w = refl

  pub lift_run :
      (r : Checked A) (w : World H) (a : A) → r ≡ returns a → lift {H = H} r w ≡ (done a, w)
  unfolding lift
  lift_run r w a h = rw (h, lift) refl

  pub gets_run : (f : World H → A) (w : World H) (a : A) → f w ≡ a → gets f w ≡ (done a, w)
  unfolding gets
  gets_run f w a h = rw h refl

  pub update_fueled_run :
      (f : H.ida.Db → Option (Checked (A × H.ida.Db))) (w : World H) (a : A) (db : H.ida.Db)
      → f w.db ≡ some (returns (a, db))
      → update_fueled {H = H} f w ≡ (done a, record w { db = db })
  unfolding update_fueled store_result
  update_fueled_run f w a db h = rw (h, store_result) refl

  pub update_fueled_not_run :
      (f : H.ida.Db → Option (Checked (A × H.ida.Db))) (w : World H)
      → f w.db ≡ none
      → update_fueled {H = H} f w ≡ (exhausted, w)
  unfolding update_fueled store_result
  update_fueled_not_run f w h = rw (h, store_result) refl

module _ {H : Host} {A B : Type 0} where
  pub bind_run :
      (m : Action H A) (f : A → Action H B) (w w' : World H) (a : A)
      → m w ≡ (done a, w')
      → (m >>= f) w ≡ f a w'
  unfolding ◌>>=◌
  bind_run m f w w' a h = rw h refl

  pub bind_not_run :
      (m : Action H A) (f : A → Action H B) (w w' : World H)
      → m w ≡ (exhausted, w')
      → (m >>= f) w ≡ (exhausted, w')
  unfolding ◌>>=◌
  bind_not_run m f w w' h = rw h refl

  pub bind_assoc :
      {C : Type 0} (m : Action H A) (f : A → Action H B) (g : B → Action H C)
      → ((m >>= f) >>= g) ≡ (m >>= λ a. f a >>= g)
  unfolding ◌>>=◌
  bind_assoc m f g = λ i w. passed_on (m w).0 (m w).1 i
    where
      passed_on :
          (r : Outcome A) (w' : World H)
          → (let (r2, w2) = continue r f w' in continue r2 g w2) ≡ continue r (λ a. f a >>= g) w'
      passed_on (done a) w' = refl
      passed_on (raised e) w' = refl
      passed_on exhausted w' = refl

  -- What leaves the cache as it is, one after the other.
  pub bind-SameNode :
      (m : Action H A) (f : A → Action H B)
      → ((w : World H) → (m w).1.node ≡ w.node)
      → ((a : A) (w : World H) → (f a w).1.node ≡ w.node)
      → (w : World H) → ((m >>= f) w).1.node ≡ w.node
  unfolding ◌>>=◌
  bind-SameNode m f hm hf w = rest (m w).0 (m w).1 (hm w)
    where
      rest : (r : Outcome A) (w' : World H) → w'.node ≡ w.node → (continue r f w').1.node ≡ w.node
      rest (done a) w' h = hf a w' ∙ h
      rest (raised e) w' h = h
      rest exhausted w' h = h

module _ {H : Host} {A : Type 0} where
  pub lift-SameNode : (r : Checked A) (w : World H) → (lift {H = H} r w).1.node ≡ w.node
  unfolding lift
  lift-SameNode (returns a) w = refl
  lift-SameNode (throws e) w = refl

  pub gets-SameNode : (f : World H → A) (w : World H) → (gets f w).1.node ≡ w.node
  unfolding gets
  gets-SameNode f w = refl

  pub update-SameNode :
      (f : H.ida.Db → A × H.ida.Db) (w : World H) → (update {H = H} f w).1.node ≡ w.node
  unfolding update
  update-SameNode f w = refl

  pub update_fueled-SameNode :
      (f : H.ida.Db → Option (Checked (A × H.ida.Db))) (w : World H)
      → (update_fueled {H = H} f w).1.node ≡ w.node
  unfolding update_fueled
  update_fueled-SameNode f w = stored (f w.db)
    where
      stored : (r : Option (Checked (A × H.ida.Db))) → (store_result {H = H} r w).1.node ≡ w.node
      stored none = refl
      stored (some (throws e)) = refl
      stored (some (returns (a, db))) = refl

module _ {H : Host} where
  pub in_cache-SameNode :
      (chain : List H.dwarf.Die) (w : World H) → (in_cache chain w).1.node ≡ w.node
  unfolding in_cache get_offset
  in_cache-SameNode chain w = bind-SameNode _ _ (lift-SameNode _) (λ o. gets-SameNode _) w

  pub in_cache_run :
      (chain : List H.dwarf.Die) (w : World H) (o : ℕ)
      → offset_of H.dwarf chain ≡ returns o
      → in_cache chain w ≡ (done (Cache.in_cache H.netnode w.node o), w)
  unfolding in_cache get_offset gets
  in_cache_run chain w o h = bind_run _ _ w w o (lift_run _ w o h)

  pub cache_type_run :
      (chain : List H.dwarf.Die) (w : World H) (o ordinal base : ℕ) (second : Bool)
      → offset_of H.dwarf chain ≡ returns o
      → cache_type ordinal second base chain w
        ≡ (done tt, record w { node = Cache.cache_type H.netnode w.node o ordinal second base })
  unfolding cache_type get_offset set_type
  cache_type_run chain w o ordinal base second h = bind_run _ _ w w o (lift_run _ w o h)

  pub cache_useless_run :
      (chain : List H.dwarf.Die) (w : World H) (o : ℕ)
      → offset_of H.dwarf chain ≡ returns o
      → cache_useless chain w
        ≡ (done tt, record w { node = Cache.cache_useless H.netnode w.node o })
  unfolding cache_useless get_offset set_useless
  cache_useless_run chain w o h = bind_run _ _ w w o (lift_run _ w o h)

  pub get_tag_run :
      (die : H.dwarf.Die) (w : World H) (tag : ℕ)
      → tag_of_die H.dwarf die ≡ returns tag
      → get_tag die w ≡ (done tag, w)
  unfolding get_tag
  get_tag_run die w tag h = lift_run _ w tag h

  pub get_attr_run :
      (a : ℕ) (chain : List H.dwarf.Die) (w : World H) (attrib : Option H.dwarf.Attribute)
      → attr_of H.dwarf a chain ≡ returns attrib
      → get_attr a chain w ≡ (done attrib, w)
  unfolding get_attr
  get_attr_run a chain w attrib h = lift_run _ w attrib h

  pub get_ref_from_attr_run :
      (a : ℕ) (chain : List H.dwarf.Die) (w : World H) (ref : ℕ)
      → ref_of H.dwarf a chain ≡ returns ref
      → get_ref_from_attr a chain w ≡ (done ref, w)
  unfolding get_ref_from_attr
  get_ref_from_attr_run a chain w ref h = lift_run _ w ref h

  pub new_die_run :
      (offset : ℕ) (w : World H) (die : H.dwarf.Die)
      → check_dwerr (H.dwarf.offdie offset) ≡ returns die
      → new_die offset w ≡ (done die, w)
  unfolding new_die
  new_die_run offset w die h = lift_run _ w die h

  pub get_cache_type_run :
      (chain : List H.dwarf.Die) (w : World H) (o : ℕ)
      → offset_of H.dwarf chain ≡ returns o
      → get_cache_type chain w ≡ (done (Cache.get_cache_type H.netnode w.node o), w)
  unfolding get_cache_type get_offset gets
  get_cache_type_run chain w o h = bind_run _ _ w w o (lift_run _ w o h)

  pub try_visit_run :
      (m : Action H Void) (w w' : World H) → m w ≡ (done tt, w') → try_visit m w ≡ (done tt, w')
  unfolding try_visit handled
  try_visit_run m w w' h = rw h refl

  pub get_name_run :
      (chain : List H.dwarf.Die) (w : World H) (name : Option (List ℕ))
      → name_of H.dwarf chain ≡ returns name
      → get_name chain w ≡ (done name, w)
  unfolding get_name
  get_name_run chain w name h = lift_run _ w name h

  pub get_bytesize_run :
      (die : H.dwarf.Die) (w : World H) (size : ℕ)
      → bytesize_of_die H.dwarf die ≡ returns size
      → get_bytesize die w ≡ (done size, w)
  unfolding get_bytesize
  get_bytesize_run die w size h = lift_run _ w size h

  pub get_attr_small_val_run :
      (a : ℕ) (chain : List H.dwarf.Die) (w : World H) (attrib : Option H.dwarf.Attribute) (val : ℕ)
      → attr_of H.dwarf a chain ≡ returns attrib
      → small_val_from H.dwarf attrib ≡ returns val
      → get_attr_small_val a chain w ≡ (done val, w)
  unfolding get_attr_small_val
  get_attr_small_val_run a chain w attrib val h v =
      bind_run _ _ w w attrib (get_attr_run a chain w attrib h) ∙ lift_run _ w val v
