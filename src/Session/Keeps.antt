-- ===== src/Session/Keeps.antt =====
-- What actions do to the cache of DIEs: a rule for each way to build an action.
use idadwarf.Prelude.{
  ◌≡◌, refl, sym, subst, ℕ, Bool, true, false, Option, none, some, List, if◌then◌else◌,
}
use idadwarf.Cache.{VarType}
use idadwarf.Cache.Calls.{
  Pass, types_pass, code_pass, whole_run, Allows, Calls, unchanged, call, Calls-trans,
}
use idadwarf.Cache.History.{Setter, useless, type, func, var, set}
use idadwarf.Dwarf.Checked.{Checked, returns, throws}
use idadwarf.Iterators.{Seen, stop, failed, item, children}
use idadwarf.Session.{
  Host, Outcome, done, raised, exhausted, World, Action, Void, pure, lift, fueled, gets, update,
  store_result, update_fueled, continue, ◌>>=◌, on_option, try_visit, for_seen, for_children,
  fetched, get_attr, get_ref_from_attr, get_offset, new_die, in_cache, get_cache, get_cache_type,
  set_useless, set_type, set_func, set_var, cache_useless, cache_type, cache_func, cache_var,
  get_type_ordinal, fold_seen, fold_children, first_child, get_name, get_tag, get_bytesize,
  get_attr_small_val, query,
}

-- Whether it returns, throws, or runs out of fuel, the action keeps to the setters of a pass: what it
-- does to the cache are calls of these.
pub record Keeps {H : Host} {A : Type 0} (p : Pass) (m : Action H A) : Type 0 where
  pub at : (w : World H) → Calls H.netnode p w.node (m w).1.node

module _ {H : Host} {A : Type 0} {p : Pass} where
  pub Keeps-pure : (a : A) → Keeps {H = H} p (pure a)
  unfolding pure
  Keeps-pure a = record { at = λ w. unchanged }

  pub Keeps-lift : (r : Checked A) → Keeps {H = H} p (lift r)
  unfolding lift
  Keeps-lift (returns a) = record { at = λ w. unchanged }
  Keeps-lift (throws e) = record { at = λ w. unchanged }

  pub Keeps-fueled : (r : Option (Checked A)) → Keeps {H = H} p (fueled r)
  unfolding fueled lift
  Keeps-fueled none = record { at = λ w. unchanged }
  Keeps-fueled (some (returns a)) = record { at = λ w. unchanged }
  Keeps-fueled (some (throws e)) = record { at = λ w. unchanged }

  pub Keeps-gets : (f : World H → A) → Keeps {H = H} p (gets f)
  unfolding gets
  Keeps-gets f = record { at = λ w. unchanged }

  pub Keeps-update : (f : H.ida.Db → A × H.ida.Db) → Keeps {H = H} p (update f)
  unfolding update
  Keeps-update f = record { at = λ w. unchanged }

  stored :
      (r : Option (Checked (A × H.ida.Db))) (w : World H)
      → Calls H.netnode p w.node (store_result r w).1.node
  unfolding store_result
  stored none w = unchanged
  stored (some (throws e)) w = unchanged
  stored (some (returns (a, db))) w = unchanged

  pub Keeps-update_fueled :
      (f : H.ida.Db → Option (Checked (A × H.ida.Db))) → Keeps {H = H} p (update_fueled f)
  unfolding update_fueled
  Keeps-update_fueled f = record { at = λ w. stored (f w.db) w }

  pub Keeps-if :
      (b : Bool) (m n : Action H A) → Keeps p m → Keeps p n → Keeps p (if b then m else n)
  Keeps-if true m n km kn = km
  Keeps-if false m n km kn = kn

module _ {H : Host} {A B : Type 0} {p : Pass} where
  -- What is done after an action, to the cache that it leaves.
  pub bind-Calls :
      (m : Action H A) (f : A → Action H B)
      → ((a : A) → Keeps p (f a))
      → (w : World H) → Calls H.netnode p (m w).1.node ((m >>= f) w).1.node
  unfolding ◌>>=◌
  bind-Calls m f kf w = let (r, w') = m w in rest r w'
    where
      rest : (r : Outcome A) (w' : World H) → Calls H.netnode p w'.node (continue r f w').1.node
      rest (done a) w' = (kf a).at w'
      rest (raised e) w' = unchanged
      rest exhausted w' = unchanged

  pub Keeps-bind :
      (m : Action H A) (f : A → Action H B)
      → Keeps p m
      → ((a : A) → Keeps p (f a))
      → Keeps p (m >>= f)
  Keeps-bind m f km kf = record {
    at = λ w. Calls-trans H.netnode p w.node (m w).1.node _ (km.at w) (bind-Calls m f kf w);
  }

  pub Keeps-on_option :
      (o : Option A) (m : Action H B) (f : A → Action H B)
      → Keeps p m
      → ((a : A) → Keeps p (f a))
      → Keeps p (on_option o m f)
  unfolding on_option
  Keeps-on_option none m f km kf = km
  Keeps-on_option (some a) m f km kf = kf a

module _ {H : Host} {p : Pass} where
  pub Keeps-try_visit : (m : Action H Void) → Keeps p m → Keeps p (try_visit m)
  unfolding try_visit
  Keeps-try_visit m km = record { at = km.at }

  pub Keeps-for_seen :
      (ds : Seen H.dwarf) (body : H.dwarf.Die → Action H Void)
      → ((d : H.dwarf.Die) → Keeps p (body d))
      → Keeps {H = H} p (for_seen {H = H} ds body)
  unfolding for_seen
  Keeps-for_seen stop body k = Keeps-pure tt
  Keeps-for_seen (failed e) body k = Keeps-lift (throws e)
  Keeps-for_seen (item d ds) body k =
      Keeps-bind (body d) (λ _. for_seen ds body) (k d) (λ _. Keeps-for_seen ds body k)

  pub Keeps-for_children :
      (fuel tag : ℕ) (die : H.dwarf.Die) (body : H.dwarf.Die → Action H Void)
      → ((d : H.dwarf.Die) → Keeps p (body d))
      → Keeps {H = H} p (for_children {H = H} fuel tag die body)
  unfolding for_children
  Keeps-for_children fuel tag die body k =
      Keeps-bind _ (λ ds. for_seen ds body) (Keeps-fueled (fetched (children H.dwarf fuel tag die)))
        (λ ds. Keeps-for_seen ds body k)

  pub Keeps-fold_seen :
      {S : Type 0} (ds : Seen H.dwarf) (body : S → H.dwarf.Die → Action H S)
      → ((s : S) (d : H.dwarf.Die) → Keeps p (body s d))
      → (s : S) → Keeps {H = H} p (fold_seen {H = H} ds body s)
  unfolding fold_seen
  Keeps-fold_seen stop body k s = Keeps-pure s
  Keeps-fold_seen (failed e) body k s = Keeps-lift (throws e)
  Keeps-fold_seen (item d ds) body k s =
      Keeps-bind (body s d) (λ s'. fold_seen ds body s') (k s d)
        (λ s'. Keeps-fold_seen ds body k s')

  pub Keeps-fold_children :
      {S : Type 0} (fuel tag : ℕ) (die : H.dwarf.Die) (body : S → H.dwarf.Die → Action H S)
      → ((s : S) (d : H.dwarf.Die) → Keeps p (body s d))
      → (s : S) → Keeps {H = H} p (fold_children {H = H} fuel tag die body s)
  unfolding fold_children
  Keeps-fold_children fuel tag die body k s =
      Keeps-bind _ (λ ds. fold_seen ds body s)
        (Keeps-fueled (fetched (children H.dwarf fuel tag die))) (λ ds. Keeps-fold_seen ds body k s)

  pub Keeps-get_attr : (a : ℕ) (chain : List H.dwarf.Die) → Keeps {H = H} p (get_attr a chain)
  unfolding get_attr
  Keeps-get_attr a chain = Keeps-lift _

  pub Keeps-get_ref_from_attr :
      (a : ℕ) (chain : List H.dwarf.Die) → Keeps {H = H} p (get_ref_from_attr a chain)
  unfolding get_ref_from_attr
  Keeps-get_ref_from_attr a chain = Keeps-lift _

  pub Keeps-get_offset : (chain : List H.dwarf.Die) → Keeps {H = H} p (get_offset chain)
  unfolding get_offset
  Keeps-get_offset chain = Keeps-lift _

  pub Keeps-new_die : (offset : ℕ) → Keeps {H = H} p (new_die offset)
  unfolding new_die
  Keeps-new_die offset = Keeps-lift _

  pub Keeps-get_name : (chain : List H.dwarf.Die) → Keeps {H = H} p (get_name chain)
  unfolding get_name
  Keeps-get_name chain = Keeps-lift _

  pub Keeps-get_tag : (die : H.dwarf.Die) → Keeps {H = H} p (get_tag die)
  unfolding get_tag
  Keeps-get_tag die = Keeps-lift _

  pub Keeps-get_bytesize : (die : H.dwarf.Die) → Keeps {H = H} p (get_bytesize die)
  unfolding get_bytesize
  Keeps-get_bytesize die = Keeps-lift _

  pub Keeps-query : {A : Type 0} (f : H.ida.Db → Option (Checked A)) → Keeps {H = H} p (query f)
  unfolding query
  Keeps-query f = Keeps-update_fueled _

  ruleset basic = (
    Keeps-fueled, Keeps-get_name, Keeps-pure, Keeps-lift, Keeps-gets, Keeps-get_attr,
    Keeps-get_ref_from_attr, Keeps-get_offset, Keeps-new_die, Keeps-if, Keeps-bind, Keeps-on_option,
  )

  pub Keeps-in_cache : (chain : List H.dwarf.Die) → Keeps {H = H} p (in_cache chain)
  unfolding in_cache
  Keeps-in_cache chain = search basic

  pub Keeps-get_attr_small_val :
      (a : ℕ) (chain : List H.dwarf.Die) → Keeps {H = H} p (get_attr_small_val a chain)
  unfolding get_attr_small_val
  Keeps-get_attr_small_val a chain = search basic

  pub Keeps-first_child :
      (fuel tag : ℕ) (die : H.dwarf.Die) → Keeps {H = H} p (first_child fuel tag die)
  unfolding first_child
  Keeps-first_child fuel tag die = search basic

  pub Keeps-get_cache : (chain : List H.dwarf.Die) → Keeps {H = H} p (get_cache chain)
  unfolding get_cache
  Keeps-get_cache chain = search basic

  pub Keeps-get_cache_type : (chain : List H.dwarf.Die) → Keeps {H = H} p (get_cache_type chain)
  unfolding get_cache_type
  Keeps-get_cache_type chain = search basic

  pub Keeps-get_type_ordinal : (chain : List H.dwarf.Die) → Keeps {H = H} p (get_type_ordinal chain)
  unfolding get_type_ordinal
  Keeps-get_type_ordinal chain = search basic

  -- A setter at the offset of a DIE.
  Keeps-setter :
      (s : ℕ → Setter) (m : ℕ → Action H Void) (chain : List H.dwarf.Die)
      → ((o : ℕ) → Allows p (s o))
      → ((o : ℕ) (w : World H) → (m o w).1.node ≡ set H.netnode w.node (s o))
      → Keeps {H = H} p (get_offset chain >>= m)
  Keeps-setter s m chain allowed run =
      Keeps-bind (get_offset chain) m (Keeps-get_offset chain) (λ o. record {
        at = λ w.
            subst (Calls H.netnode p w.node) (sym (run o w)) (call (s o) (allowed o) unchanged);
      })

useless_allowed : (p : Pass) (o : ℕ) → Allows p (useless o)
useless_allowed types_pass o = tt
useless_allowed code_pass o = tt
useless_allowed whole_run o = tt

module _ {H : Host} where
  pub Keeps-cache_useless :
      {p : Pass} (chain : List H.dwarf.Die) → Keeps {H = H} p (cache_useless chain)
  unfolding cache_useless set_useless set
  Keeps-cache_useless {p} chain = Keeps-setter useless _ chain (useless_allowed p) (λ o w. refl)

  pub Keeps-cache_type :
      (ordinal : ℕ) (second : Bool) (base : ℕ) (chain : List H.dwarf.Die)
      → Keeps {H = H} types_pass (cache_type ordinal second base chain)
  unfolding cache_type set_type set
  Keeps-cache_type ordinal second base chain =
      Keeps-setter (λ o. type o ordinal second base) _ chain (λ o. tt) (λ o w. refl)

  pub Keeps-cache_func :
      (startEA : ℕ) (chain : List H.dwarf.Die) → Keeps {H = H} code_pass (cache_func startEA chain)
  unfolding cache_func set_func set
  Keeps-cache_func startEA chain =
      Keeps-setter (λ o. func o startEA) _ chain (λ o. tt) (λ o w. refl)

  pub Keeps-cache_var :
      (vtype : VarType) (startEA : ℕ) (chain : List H.dwarf.Die)
      → Keeps {H = H} code_pass (cache_var vtype startEA chain)
  unfolding cache_var set_var set
  Keeps-cache_var vtype startEA chain =
      Keeps-setter (λ o. var o vtype startEA) _ chain (λ o. tt) (λ o w. refl)

pub ruleset keeps_rules = (
  Keeps-pure, Keeps-lift, Keeps-fueled, Keeps-gets, Keeps-update, Keeps-update_fueled, Keeps-if,
  Keeps-bind, Keeps-on_option, Keeps-try_visit, Keeps-for_children, Keeps-get_attr,
  Keeps-get_ref_from_attr, Keeps-get_offset, Keeps-new_die, Keeps-in_cache, Keeps-get_cache,
  Keeps-get_cache_type, Keeps-get_type_ordinal, Keeps-cache_useless, Keeps-cache_type,
  Keeps-cache_func, Keeps-cache_var, Keeps-fold_children, Keeps-get_name, Keeps-get_tag,
  Keeps-get_bytesize, Keeps-query, Keeps-get_attr_small_val, Keeps-first_child,
)
