-- ===== src/IdaUtils/Saving.antt =====
-- src/ida_utils.cpp, set_simple_die_type as a whole: the allocation of an ordinal, then the loop.
use idadwarf.Prelude.{
  ℕ, ◌+◌, ◌≤◌, ◌≡◌, ◌≢◌, Bool, true, false, not, Option, none, some, List, [], refl, arith, ◌∙◌,
  sym, if◌then◌else◌, ◌==◌, Bool-cases, ◌⊎◌, inl, inr,
}
use idadwarf.Til.{TypeCoding, TypeLibrary}
use idadwarf.IdaUtils.{find_simple_type, save_loop, set_simple_die_type, or_empty}
use idadwarf.IdaUtils.Naming.{
  IsUnused, Saved, find_cases, save_loop-Saved, IsAccepting, IsBound, save_loop_ends,
}

module _ (T : TypeCoding) (L : TypeLibrary) where
  open L use {Db, get_named_type, alloc_type_ordinal}

  -- The ordinal to save under, and the library then: the one asked for, or a fresh one for 0.
  abbrev pub Slot : Type 0
  Slot = ℕ × Db

  unfoldable pub slot : Db → ℕ → Slot
  slot db ordinal = if ordinal == 0 then alloc_type_ordinal db else (ordinal, db)

  -- An allocation takes no name and gives no name.
  abbrev pub KeepsNames : Db → Type 0
  KeepsNames db = (n : List ℕ) → get_named_type (alloc_type_ordinal db).1 n ≡ get_named_type db n

  -- What a call has done: it found the type under the very name, or it did as the loop does.
  abbrev pub Settled : Db → Option (List ℕ) → List ℕ → ℕ → ℕ → Db → Type 0
  Settled db name ida_type ordinal o db' =
      ((type : List ℕ) × (get_named_type db (or_empty name) ≡ some (o, type))
        × (T.typcmp type ida_type ≡ true)
        × (db' ≡ db))
      ⊎ Saved T L (slot db ordinal).1 (slot db ordinal).0 (not (ordinal == 0)) (or_empty name)
          ida_type o db'

  module _ (db : Db) (keeps : KeepsNames db) (ordinal : ℕ) where
    get_named_type-slot : (n : List ℕ) → get_named_type (slot db ordinal).1 n ≡ get_named_type db n
    unfolding slot
    get_named_type-slot n = elim (Bool-cases (ordinal == 0)) [
      | inl e ↦ rw (e, slot) (keeps n)
      | inr e ↦ rw (e, slot) refl
    ]

    -- The loop that the call runs.
    abbrev pub looped : ℕ → Bool → List ℕ → List ℕ → Option (ℕ × Db)
    looped fuel found name ida_type =
        save_loop T L fuel (slot db ordinal).1 found (not (ordinal == 0)) (slot db ordinal).0 name
          ida_type

    save_is_looped :
        (fuel : ℕ) (found : Bool) (name ida_type : List ℕ)
        → (if not (ordinal == 0)
            then save_loop T L fuel db found (not (ordinal == 0)) ordinal name ida_type
            else save_loop T L fuel
                (alloc_type_ordinal db).1
                found
                (not (ordinal == 0))
                (alloc_type_ordinal db).0
                name
                ida_type)
          ≡ looped fuel found name ida_type
    unfolding slot
    save_is_looped fuel found name ida_type = elim (Bool-cases (ordinal == 0)) [
      | inl e ↦ rw (e, slot) refl
      | inr e ↦ rw (e, slot) refl
    ]

    -- The three ways of a call.
    call_cases :
        (fuel : ℕ) (name : Option (List ℕ)) (ida_type : List ℕ)
        → (IsUnused T L (slot db ordinal).1 (or_empty name)
            × (set_simple_die_type T L fuel db name ida_type ordinal
                ≡ looped fuel false (or_empty name) ida_type))
          ⊎ ((get_named_type (slot db ordinal).1 (or_empty name) ≢ none)
              × (set_simple_die_type T L fuel db name ida_type ordinal
                  ≡ looped fuel true (or_empty name) ida_type))
          ⊎ ((o : ℕ) × (type : List ℕ) × (get_named_type db (or_empty name) ≡ some (o, type))
              × (T.typcmp type ida_type ≡ true)
              × (set_simple_die_type T L fuel db name ida_type ordinal ≡ some (o, db)))
    unfolding set_simple_die_type find_simple_type
    call_cases fuel none ida_type = inl (inl refl, save_is_looped fuel false [] ida_type)
    call_cases fuel (some name) ida_type = elim (find_cases T L db 0 false ida_type name) [
      | inl (e, unused) ↦ inl (
        inr (get_named_type-slot name ∙ unused),
        rw (e, set_simple_die_type) (save_is_looped fuel false name ida_type),
      )
      | inr (inl (e, used)) ↦ inr (
          inl (
            λ n. used (sym (get_named_type-slot name) ∙ n),
            rw (e, set_simple_die_type) (save_is_looped fuel true name ida_type),
          ))
      | inr (inr (o, type, e, known, c)) ↦
          inr (inr (o, type, known, c, rw (e, set_simple_die_type) refl))
    ]

  -- Whatever name a new type is given: where the call returns, with any fuel, an equal type had the
  -- very name, the result is its ordinal, and the library is as before; or an equal type had the name
  -- with some `_`, the result is its ordinal, and the library is that after the allocation of an
  -- ordinal, if one was needed; or the type was saved under the ordinal asked for, or allocated,
  -- with the name with some `_`, which is empty or which no type had. Allocations must not touch
  -- names. Of a type that had the ordinal already nothing is said.
  pub set_simple_die_type-Settled :
      (db : Db) (keeps : KeepsNames db) (name : Option (List ℕ)) (ida_type : List ℕ)
      (ordinal fuel o : ℕ) (db' : Db)
      → set_simple_die_type T L fuel db name ida_type ordinal ≡ some (o, db')
      → Settled db name ida_type ordinal o db'
  set_simple_die_type-Settled db keeps name ida_type ordinal fuel o db' h =
      elim (call_cases db keeps ordinal fuel name ida_type) [
        | inl (unused, e) ↦
            inr (save_loop-Saved T L _ _ _ ida_type fuel false _ o db' (λ _. unused) (sym e ∙ h))
        | inr (inl (_, e)) ↦
            inr
              (save_loop-Saved T L _ _ _ ida_type fuel true _ o db' (λ c. absurd (cc)) (sym e ∙ h))
        | inr (inr (existing, type, known, c, e)) ↦
            let e' : some (existing, db) ≡ some (o, db') = sym e ∙ h in
            let eo : existing ≡ o = cc in inl (type, rw (← eo) known, c, cc)
      ]

  -- A call returns: two rounds more than the longest name in use has bytes are enough, where the
  -- library accepts the new type under every name that is not in use.
  pub set_simple_die_type_ends :
      (db : Db) (keeps : KeepsNames db) (name : Option (List ℕ)) (ida_type : List ℕ)
      (ordinal fuel bound : ℕ)
      → IsAccepting T L (slot db ordinal).1 (slot db ordinal).0 (not (ordinal == 0)) ida_type
      → IsBound T L (slot db ordinal).1 (slot db ordinal).0 (not (ordinal == 0)) ida_type bound
      → bound + 2 ≤ fuel
      → (r : ℕ × Db) × (set_simple_die_type T L fuel db name ida_type ordinal ≡ some r)
  set_simple_die_type_ends db keeps name ida_type ordinal fuel bound accepting bounded enough =
      elim (call_cases db keeps ordinal fuel name ida_type) [
        | inl (unused, e) ↦
            let (r, run) =
              save_loop_ends T L _ _ _ ida_type bound accepting bounded fuel false (or_empty name)
                (omega arith) (omega arith) (λ c. absurd (cc)) (λ _. unused) in
            (r, e ∙ run)
        | inr (inl (used, e)) ↦
            let (r, run) =
              save_loop_ends T L _ _ _ ida_type bound accepting bounded fuel true (or_empty name)
                (omega arith) (omega arith) (λ _. bounded _ used) (λ c. absurd (cc)) in
            (r, e ∙ run)
        | inr (inr (o, _, _, _, e)) ↦ ((o, db), e)
      ]
