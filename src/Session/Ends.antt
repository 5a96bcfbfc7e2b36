-- ===== src/Session/Ends.antt =====
-- Actions that do not run out of fuel: a rule for each way to build one.
use idadwarf.Prelude.{
  ℕ, ◌≡◌, ◌≢◌, refl, ap, ◌∙◌, ◌<◌, length, [], ◌∷◌, Bool, true, false, Option, none, some, List,
  if◌then◌else◌,
}
use idadwarf.Cache.{VarType}
use idadwarf.Dwarf.Checked.{Checked, returns, throws}
use idadwarf.Session.{
  Host, Outcome, done, raised, exhausted, World, Action, Void, pure, lift, gets, update,
  update_fueled, store_result, continue, ◌>>=◌, on_option, try_visit, handled, get_attr,
  get_ref_from_attr, get_offset, get_name, get_tag, in_cache, cache_useless, cache_var, set_useless,
  set_var, get_type_ordinal, for_dies, visit_in, visited,
}
use idadwarf.Traversal.Preorder.{Units, visit_all, do_dies_traversal-visit_all}

-- The action returns a value with the property, or throws.
abbrev pub Ended : {A : Type 0} → (A → Type 0) → Outcome A → Type 0
Ended P (done a) = P a
Ended P (raised e) = Unit {0}
Ended P exhausted = ⊥

pub record EndsWith {H : Host} {A : Type 0} (P : A → Type 0) (m : Action H A) : Type 0 where
  pub at : (w : World H) → Ended P (m w).0

pub record Ends {H : Host} {A : Type 0} (m : Action H A) : Type 0 where
  pub at : (w : World H) → (m w).0 ≢ exhausted

module _ {H : Host} {A : Type 0} where
  pub Ends-pure : (a : A) → Ends {H = H} (pure a)
  unfolding pure
  Ends-pure a = record { at = λ w e. cc }

  pub Ends-lift : (r : Checked A) → Ends {H = H} (lift r)
  unfolding lift
  Ends-lift (returns a) = record { at = λ w e. cc }
  Ends-lift (throws x) = record { at = λ w e. cc }

  pub Ends-gets : (f : World H → A) → Ends {H = H} (gets f)
  unfolding gets
  Ends-gets f = record { at = λ w e. cc }

  pub Ends-update : (f : H.ida.Db → A × H.ida.Db) → Ends {H = H} (update f)
  unfolding update
  Ends-update f = record { at = λ w e. cc }

  pub Ends-update_fueled :
      (f : H.ida.Db → Option (Checked (A × H.ida.Db)))
      → ((db : H.ida.Db) → f db ≢ none)
      → Ends {H = H} (update_fueled f)
  unfolding update_fueled store_result
  Ends-update_fueled f some_result = record { at = λ w. stored w (f w.db) (some_result w.db) }
    where
      stored :
          (w : World H) (r : Option (Checked (A × H.ida.Db)))
          → r ≢ none
          → (store_result {H = H} r w).0 ≢ exhausted
      stored w none h e = h refl
      stored w (some (throws x)) h e = cc
      stored w (some (returns (a, db))) h e = cc

  pub Ends-if : (b : Bool) (m n : Action H A) → Ends m → Ends n → Ends (if b then m else n)
  Ends-if true m n km kn = km
  Ends-if false m n km kn = kn

  pub EndsWith-pure : {P : A → Type 0} (a : A) → P a → EndsWith {H = H} P (pure a)
  unfolding pure
  EndsWith-pure a h = record { at = λ w. h }

  pub EndsWith-gets :
      {P : A → Type 0} (f : World H → A) → ((w : World H) → P (f w)) → EndsWith {H = H} P (gets f)
  unfolding gets
  EndsWith-gets f h = record { at = h }

  pub EndsWith-if :
      {P : A → Type 0} (b : Bool) (m n : Action H A)
      → EndsWith P m
      → EndsWith P n
      → EndsWith P (if b then m else n)
  EndsWith-if true m n km kn = km
  EndsWith-if false m n km kn = kn

  pub EndsWith-weaken :
      (P Q : A → Type 0) (m : Action H A) → ((a : A) → P a → Q a) → EndsWith P m → EndsWith Q m
  EndsWith-weaken P Q m f km = record { at = λ w. weaker (m w).0 (km.at w) }
    where
      weaker : (r : Outcome A) → Ended P r → Ended Q r
      weaker (done a) h = f a h
      weaker (raised e) h = tt
      weaker exhausted h = h

  pub EndsWith-of : (m : Action H A) → Ends m → EndsWith (λ _. Unit {0}) m
  EndsWith-of m km = record { at = λ w. ended (m w).0 (km.at w) }
    where
      ended : (r : Outcome A) → r ≢ exhausted → Ended (λ _. Unit {0}) r
      ended (done a) h = tt
      ended (raised e) h = tt
      ended exhausted h = absurd (h refl)

  pub Ends-of : {P : A → Type 0} (m : Action H A) → EndsWith P m → Ends m
  Ends-of {P} m km = record { at = λ w. not_exhausted (m w).0 (km.at w) }
    where
      not_exhausted : (r : Outcome A) → Ended P r → r ≢ exhausted
      not_exhausted (done a) h e = cc
      not_exhausted (raised x) h e = cc
      not_exhausted exhausted h e = h

module _ {H : Host} {A B : Type 0} where
  pub Ends-bind :
      (m : Action H A) (f : A → Action H B) → Ends m → ((a : A) → Ends (f a)) → Ends (m >>= f)
  unfolding ◌>>=◌
  Ends-bind m f km kf = record { at = λ w. let (r, w') = m w in rest r w' (km.at w) }
    where
      rest : (r : Outcome A) (w' : World H) → r ≢ exhausted → (continue r f w').0 ≢ exhausted
      rest (done a) w' h e = (kf a).at w' e
      rest (raised x) w' h e = cc
      rest exhausted w' h e = h refl

  pub EndsWith-bind :
      (P : A → Type 0) (Q : B → Type 0) (m : Action H A) (f : A → Action H B)
      → EndsWith P m
      → ((a : A) → P a → EndsWith Q (f a))
      → EndsWith Q (m >>= f)
  unfolding ◌>>=◌
  EndsWith-bind P Q m f km kf = record { at = λ w. let (r, w') = m w in rest r w' (km.at w) }
    where
      rest : (r : Outcome A) (w' : World H) → Ended P r → Ended Q (continue r f w').0
      rest (done a) w' h = (kf a h).at w'
      rest (raised x) w' h = tt
      rest exhausted w' h = h

  pub Ends-on_option :
      (o : Option A) (m : Action H B) (f : A → Action H B)
      → Ends m
      → ((a : A) → Ends (f a))
      → Ends (on_option o m f)
  unfolding on_option
  Ends-on_option none m f km kf = km
  Ends-on_option (some a) m f km kf = kf a

module _ {H : Host} where
  pub Ends-get_attr : (a : ℕ) (chain : List H.dwarf.Die) → Ends {H = H} (get_attr a chain)
  unfolding get_attr
  Ends-get_attr a chain = Ends-lift _

  pub Ends-get_ref_from_attr :
      (a : ℕ) (chain : List H.dwarf.Die) → Ends {H = H} (get_ref_from_attr a chain)
  unfolding get_ref_from_attr
  Ends-get_ref_from_attr a chain = Ends-lift _

  pub Ends-get_offset : (chain : List H.dwarf.Die) → Ends {H = H} (get_offset chain)
  unfolding get_offset
  Ends-get_offset chain = Ends-lift _

  pub Ends-get_tag : (die : H.dwarf.Die) → Ends {H = H} (get_tag die)
  unfolding get_tag
  Ends-get_tag die = Ends-lift _

  pub Ends-get_name : (chain : List H.dwarf.Die) → Ends {H = H} (get_name chain)
  unfolding get_name
  Ends-get_name chain = Ends-lift _

  ruleset basic = (
    Ends-pure, Ends-lift, Ends-gets, Ends-get_attr, Ends-get_ref_from_attr, Ends-get_offset,
    Ends-if, Ends-bind, Ends-on_option,
  )

  pub Ends-in_cache : (chain : List H.dwarf.Die) → Ends {H = H} (in_cache chain)
  unfolding in_cache
  Ends-in_cache chain = search basic

  pub Ends-get_type_ordinal : (chain : List H.dwarf.Die) → Ends {H = H} (get_type_ordinal chain)
  unfolding get_type_ordinal
  Ends-get_type_ordinal chain = search basic

  pub Ends-cache_useless : (chain : List H.dwarf.Die) → Ends {H = H} (cache_useless chain)
  unfolding cache_useless set_useless
  Ends-cache_useless chain =
      Ends-bind (get_offset chain) _ (Ends-get_offset chain) (λ o. record { at = λ w e. cc })

  pub Ends-cache_var :
      (vtype : VarType) (startEA : ℕ) (chain : List H.dwarf.Die)
      → Ends {H = H} (cache_var vtype startEA chain)
  unfolding cache_var set_var
  Ends-cache_var vtype startEA chain =
      Ends-bind (get_offset chain) _ (Ends-get_offset chain) (λ o. record { at = λ w e. cc })

  -- Behind the wrapper an action that does not run out of fuel returns.
  pub try_visit_returns : (m : Action H Void) → Ends m → (w : World H) → (try_visit m w).0 ≡ done tt
  unfolding try_visit handled
  try_visit_returns m km w = caught (m w).0 (km.at w)
    where
      caught : (r : Outcome Void) → r ≢ exhausted → handled r ≡ done tt
      caught (done tt) h = refl
      caught (raised x) h = refl
      caught exhausted h = absurd (h refl)

  visits_return :
      (visit : H.dwarf.Die → Action H Void)
      → ((d : H.dwarf.Die) (w : World H) → (visit d w).0 ≡ done tt)
      → (ds : List H.dwarf.Die) (r : Outcome Void × World H) → r.0 ≡ done tt
      → (visit_all H.dwarf (visit_in visit) r ds).0 ≡ done tt
  unfolding visit_in
  visits_return visit k [] r h = h
  visits_return visit k (d ∷ ds) (done tt, w) h = visits_return visit k ds (visit d w) (k d w)
  visits_return visit k (d ∷ ds) (raised e, w) h = absurd (cc h)
  visits_return visit k (d ∷ ds) (exhausted, w) h = absurd (cc h)

  -- A traversal of finitely many DIEs returns, where the visits do.
  pub for_dies_returns :
      (fuel : ℕ) {cus ds : List H.dwarf.Die} (visit : H.dwarf.Die → Action H Void)
      → ((d : H.dwarf.Die) (w : World H) → (visit d w).0 ≡ done tt)
      → Units H.dwarf cus ds
      → length ds < fuel
      → (w : World H) → (for_dies fuel cus visit w).0 ≡ done tt
  unfolding for_dies visited
  for_dies_returns fuel {cus} {ds} visit k units enough w =
      ap (λ o. (visited w o).0)
        (do_dies_traversal-visit_all H.dwarf (visit_in visit) fuel (done tt, w) units enough)
      ∙ visits_return visit k ds (done tt, w) refl

pub ruleset ends_rules = (
  Ends-pure, Ends-lift, Ends-gets, Ends-update, Ends-if, Ends-bind, Ends-on_option, Ends-get_attr,
  Ends-get_ref_from_attr, Ends-get_offset, Ends-get_tag, Ends-get_name, Ends-in_cache,
  Ends-get_type_ordinal, Ends-cache_useless, Ends-cache_var,
)
