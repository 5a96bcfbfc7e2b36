-- ===== src/IdaUtils/Typedefs.antt =====
-- src/ida_utils.cpp: typedefs of ordinals, and the loop that follows them.
use idadwarf.Prelude.{
  ℕ, zero, suc, ◌≡◌, ◌≢◌, ◌↔◌, none, some, List, [], refl, ◌==◌, ==_ne, ne_of_==, eq_of_==,
  Bool-cases, Option-cases, inl, inr,
}
use idadwarf.Til.{TypeCoding, TypeLibrary, Decodes}
use idadwarf.IdaUtils.{
  make_new_type, append_complex_type, append_ordinal_name, named_ordinal, get_typedef_ordinal,
  resolve_loop, resolve_typedef_type,
}

module _ (T : TypeCoding) (L : TypeLibrary) where
  open L use {Db, get_numbered_type}

  -- The typedef that is made for an ordinal leads to that ordinal, where the codings of names and
  -- numbers are read back as they were written.
  pub get_typedef_ordinal-make_new_type :
      (coded : Decodes T) (db : Db) (ordinal : ℕ)
      → get_typedef_ordinal T L db (make_new_type T L db [] none ordinal) ≡ ordinal
  unfolding get_typedef_ordinal make_new_type append_complex_type append_ordinal_name named_ordinal
  get_typedef_ordinal-make_new_type coded db ordinal =
      rw (coded.name_appends, coded.de_appends, coded.typedef_byte, coded.name_of, coded.de_of) refl

  -- Where the typedefs from an ordinal on end: at 0 where one leads to no type, else at the first
  -- ordinal whose type is no typedef.
  pub data Ends (db : Db) (r : ℕ) : ℕ → Type 0 where
    at_zero : {o : ℕ} → o ≡ 0 → r ≡ 0 → Ends db r o
    missing : {o : ℕ} → o ≢ 0 → get_numbered_type db o ≡ none → r ≡ 0 → Ends db r o
    final :
        {o : ℕ} (type : List ℕ)
        → o ≢ 0
        → get_numbered_type db o ≡ some type
        → get_typedef_ordinal T L db type ≡ 0
        → r ≡ o
        → Ends db r o
    follow :
        {o : ℕ} (type : List ℕ) (next : ℕ)
        → o ≢ 0
        → get_numbered_type db o ≡ some type
        → get_typedef_ordinal T L db type ≡ next
        → next ≢ 0
        → Ends db r next
        → Ends db r o

  resolve_loop-Ends :
      (fuel : ℕ) (db : Db) (o r : ℕ) → resolve_loop T L fuel db o ≡ some r → Ends db r o
  unfolding resolve_loop
  resolve_loop-Ends zero db o r h = absurd (cc h)
  resolve_loop-Ends (suc fuel) db o r h = elim (Bool-cases (o == 0)) [
    | inl e ↦ let h' : some 0 ≡ some r = rw (e, resolve_loop) at h in at_zero (eq_of_== o 0 e) (cc)
    | inr e ↦ elim (Option-cases (get_numbered_type db o)) [
      | inl m ↦
          let h' : some 0 ≡ some r = rw (e, m, resolve_loop) at h in missing (ne_of_== o 0 e) m (cc)
      | inr (type, known) ↦ elim (Bool-cases (get_typedef_ordinal T L db type == 0)) [
        | inl last ↦
            let h' : some o ≡ some r = rw (e, known, last, resolve_loop) at h in
            final type (ne_of_== o 0 e) known (eq_of_== _ 0 last) (cc)
        | inr more ↦
            let h' : resolve_loop T L fuel db (get_typedef_ordinal T L db type) ≡ some r =
              rw (e, known, more, resolve_loop) at h in
            follow type _ (ne_of_== o 0 e) known refl (ne_of_== _ 0 more)
              (resolve_loop-Ends fuel db (get_typedef_ordinal T L db type) r h')
      ]
    ]
  ]

  Ends-resolve_loop :
      (db : Db) (r : ℕ) {o : ℕ} → Ends db r o → (fuel : ℕ) × (resolve_loop T L fuel db o ≡ some r)
  unfolding resolve_loop
  Ends-resolve_loop db r {o} (at_zero e z) = (1, rw (e, z) refl)
  Ends-resolve_loop db r {o} (missing nz m z) = (1, rw (==_ne o 0 nz, m, z) refl)
  Ends-resolve_loop db r {o} (final type nz known last z) =
      (1, rw (==_ne o 0 nz, known, last, z) refl)
  Ends-resolve_loop db r {o} (follow type next nz known leads more rest) =
      let (fuel, run) = Ends-resolve_loop db r {o = next} rest in
      (suc fuel, rw (==_ne o 0 nz, known, leads, ==_ne next 0 more) run)

  -- The loop that resolves a typedef returns an ordinal, given enough rounds, exactly where the
  -- typedefs end at that ordinal.
  pub resolve_typedef_type_iff :
      (db : Db) (typedef_type : List ℕ) (r : ℕ)
      → ((fuel : ℕ) × (resolve_typedef_type T L fuel db typedef_type ≡ some r))
        ↔ Ends db r (get_typedef_ordinal T L db typedef_type)
  unfolding resolve_typedef_type
  resolve_typedef_type_iff db typedef_type r =
      (λ (fuel, run). resolve_loop-Ends fuel db _ r run, λ ends. Ends-resolve_loop db r ends)
