-- ===== src/Cache/Found.antt =====
-- src/die_cache.cpp: what is found by an ordinal in a cache that was empty at first.
use idadwarf.Prelude.{
  ℕ, ◌≡◌, ◌↔◌, some, none, to_word, to_word_of_lt, refl, ◌∙◌, sym, Bool, Option-cases, inl, inr,
}
use idadwarf.Netnode.{Netnode}
use idadwarf.Cache.{
  DieCache, die_type, of_type, get_cache, get_type_offset, get_offset, get_cache_by_ordinal,
}
use idadwarf.Cache.Coherence.{IsCoherent}
use idadwarf.Cache.History.{Reach, Reach-IsCoherent}
use idadwarf.Cache.Ordinals.{get_cache_by_ordinal_type}

module _ (N : Netnode DieCache) where
  open N use {Node, supval, altval}

  pub empty-IsCoherent :
      (n : Node)
      → ((i : ℕ) → supval n i ≡ none)
      → ((t r : ℕ) → altval n t r ≡ none)
      → IsCoherent N n
  empty-IsCoherent n no_entry no_back = record {
    back = λ t r o h. let h' : none ≡ some o = sym (no_back t r) ∙ h in absurd (cc h');
    forth = λ o c h useful. let h' : none ≡ some c = sym (no_entry o) ∙ h in absurd (cc h');
  }

  -- In a cache that was empty at first, after any history of setter calls, an entry is found by an
  -- ordinal exactly where it is stored for some DIE as that of a type with the ordinal. In a history
  -- the offsets have 32 bits, and a setter is only called for a DIE that has no entry yet or a useless
  -- one.
  pub get_cache_by_ordinal_iff :
      {first last : Node}
      → ((i : ℕ) → supval first i ≡ none)
      → ((t r : ℕ) → altval first t r ≡ none)
      → Reach N first last
      → (o : ℕ) (c : DieCache)
      → (get_cache_by_ordinal N last o ≡ some c) ↔ (
          (offset : ℕ) × (second : Bool) × (base : ℕ) × (get_cache N last offset ≡ some c)
          × (c ≡ record { type = die_type; members = of_type o second base }))
  unfolding get_cache_by_ordinal get_cache get_type_offset get_offset
  get_cache_by_ordinal_iff {first} {last} no_entry no_back history o c = (
    λ h.
        let (second, base, shape) = get_cache_by_ordinal_type N coherent o c h in
        let (offset, at) = stored h in (offset, second, base, at, shape),
    λ w. found w,
  )
    where
      coherent : IsCoherent N last
      coherent = Reach-IsCoherent N (empty-IsCoherent first no_entry no_back) history

      stored :
          get_cache_by_ordinal N last o ≡ some c → (offset : ℕ) × (get_cache N last offset ≡ some c)
      stored h = elim (Option-cases (altval last 1 o)) [
        | inl e ↦ absurd (cc (rw (e, get_cache_by_ordinal) at h))
        | inr (p, e) ↦ (p, rw (e, get_cache_by_ordinal) at h)
      ]

      found :
          (offset : ℕ) × (second : Bool) × (base : ℕ) × (get_cache N last offset ≡ some c)
            × (c ≡ record { type = die_type; members = of_type o second base })
          → get_cache_by_ordinal N last o ≡ some c
      found (offset, second, base, at, shape) =
          let at' : supval last (to_word offset)
              ≡ some (record { type = die_type; members = of_type o second base }) =
            rw (← shape) at in
          let (p, (leads, there)) = coherent.forth (to_word offset) _ at' refl in
          let (_, small, _, _, _, _) = coherent.back 1 o p leads in
          rw (leads, get_cache_by_ordinal, get_cache, to_word_of_lt p small, there, shape) refl
