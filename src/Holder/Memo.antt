-- ===== src/Holder/Memo.antt =====
-- src/die_utils.cpp: the memory of a holder is transparent. A method returns what a reading of the
-- debug information without memory gives, whatever was asked before.
use idadwarf.Prelude.{
  ℕ, ◌≡◌, Bool, true, false, Option, none, some, List, [], ◌∷◌, if◌then◌else◌, lookup,
  lookup-insert, arith, refl, Option-cases, inl, inr, ap, ◌∙◌,
}
use idadwarf.Dwarf.{Libdwarf, DwResult, ok, no_entry, error}
use idadwarf.Dwarf.Checked.{Checked, returns, throws, ◌>>=◌, check_dwerr, check_error}
use idadwarf.Holder.{
  Fields, Holder, plain, with_origin, Method, keep_name, keep_attr, keep_offset, own_offset,
  get_ref_from_attr, or_origin, own_name, own_attr, get_name, get_attr, get_offset,
}
use idadwarf.Holder.Reading.{or_else, name_of, attr_of, ref_from}

or_else-none {ℓ} : {A : Type ℓ} (r : Checked (Option A)) → r ≡ or_else r (returns none)
or_else-none (throws e) = refl
or_else-none (returns (some x)) = refl
or_else-none (returns none) = refl

module _ (D : Libdwarf) where
  open D use {Die, Attribute}

  -- The DIE, and the DIEs that are asked where it has no answer.
  abbrev pub chain : Holder D → List Die
  chain (plain m) = m.m_die ∷ []
  chain (with_origin m o) = m.m_die ∷ chain o

  pub record IsTrue (m : Fields D) : Type 0 where
    pub names : (name : List ℕ) → m.m_name ≡ some name → D.diename m.m_die ≡ ok name
    pub attrs : (a : ℕ) (x : Attribute) → lookup a m.m_attrs ≡ some x → D.attr m.m_die a ≡ ok x
    pub offsets : m.m_offset_used ≡ true → D.dieoffset m.m_die ≡ ok m.m_offset

  -- All that the holder remembers is what libdwarf says.
  abbrev pub IsFaithful : Holder D → Type 0
  IsFaithful (plain m) = IsTrue m
  IsFaithful (with_origin m o) = IsTrue m × IsFaithful o

  -- A method reads `spec` off the chain, and keeps the holder faithful and about the same DIEs.
  abbrev pub Reads : {A : Type 0} → Method D A → (List Die → Checked A) → Type 0
  Reads method spec =
      (h : Holder D)
      → IsFaithful h
      → ((method h).0 ≡ spec (chain h)) × IsFaithful (method h).1 × (chain (method h).1 ≡ chain h)

  -- The holder itself, without its origin.
  abbrev ReadsOwn : {A : Type 0} → Fields D → Checked A × Fields D → Checked A → Type 0
  ReadsOwn m (r, m') spec = (r ≡ spec) × IsTrue m' × (m'.m_die ≡ m.m_die)

  keep_name_lem :
      (m : Fields D) (r : DwResult (List ℕ))
      → IsTrue m
      → D.diename m.m_die ≡ r
      → ReadsOwn m (keep_name D m r) (check_error r)
  unfolding keep_name
  keep_name_lem m (ok name) t e =
      (refl, record { names = λ n h. ground arith; attrs = t.attrs; offsets = t.offsets }, refl)
  keep_name_lem m no_entry t e = (refl, t, refl)
  keep_name_lem m (error _) t e = (refl, t, refl)

  own_name_lem :
      (m : Fields D) → IsTrue m → ReadsOwn m (own_name D m) (check_error (D.diename m.m_die))
  unfolding own_name
  own_name_lem m t = elim (Option-cases m.m_name) [
    | inl e ↦ rw (e, own_name) (keep_name_lem m (D.diename m.m_die) t refl)
    | inr (name, e) ↦ rw (e, own_name, t.names name e) (refl, t, refl)
  ]

  keep_attr_lem :
      (a : ℕ) (m : Fields D) (r : DwResult Attribute)
      → IsTrue m
      → D.attr m.m_die a ≡ r
      → ReadsOwn m (keep_attr D a m r) (check_error r)
  unfolding keep_attr
  keep_attr_lem a m (ok x) t e = (
    refl,
    record {
      names = t.names;
      attrs = λ b y h. ground (arith, lookup-insert a b x m.m_attrs, t.attrs b y);
      offsets = t.offsets;
    },
    refl,
  )
  keep_attr_lem a m no_entry t e = (refl, t, refl)
  keep_attr_lem a m (error _) t e = (refl, t, refl)

  own_attr_lem :
      (a : ℕ) (m : Fields D)
      → IsTrue m
      → ReadsOwn m (own_attr D a m) (check_error (D.attr m.m_die a))
  unfolding own_attr
  own_attr_lem a m t = elim (Option-cases (lookup a m.m_attrs)) [
    | inl e ↦ rw (e, own_attr) (keep_attr_lem a m (D.attr m.m_die a) t refl)
    | inr (x, e) ↦ rw (e, own_attr, t.attrs a x e) (refl, t, refl)
  ]

  or_origin_lem :
      {A : Type 0} (m : Fields D) (own : Checked (Option A) × Fields D) (o : Holder D)
      (rest : Checked (Option A) × Holder D) (s : Checked (Option A)) (s' : Checked (Option A))
      → ReadsOwn m own s
      → IsFaithful o
      → (rest.0 ≡ s') × IsFaithful rest.1 × (chain rest.1 ≡ chain o)
      → ((or_origin D own o rest).0 ≡ or_else s s')
        × IsFaithful (or_origin D own o rest).1
        × (chain (or_origin D own o rest).1 ≡ m.m_die ∷ chain o)
  unfolding or_origin
  or_origin_lem m (throws e, m') o rest s s' (eq, t, d) f _ =
      (rw (← eq) refl, (t, f), ap (λ x. x ∷ chain o) d)
  or_origin_lem m (returns (some x), m') o rest s s' (eq, t, d) f _ =
      (rw (← eq) refl, (t, f), ap (λ x. x ∷ chain o) d)
  or_origin_lem m (returns none, m') o (r, o') s s' (eq, t, d) f (eq', f', c') =
      (rw (← eq) eq', (t, f'), cc)

  -- On a faithful holder `get_name` returns, or throws, what libdwarf gives for the first DIE of the
  -- chain that has a name; the holder stays faithful and about the same DIEs.
  pub get_name-Reads : Reads (get_name D) (name_of D)
  unfolding get_name name_of
  get_name-Reads (plain m) t =
      let (r, t', d) = own_name_lem m t in (r ∙ or_else-none _, t', ap (λ x. x ∷ []) d)
  get_name-Reads (with_origin m o) (t, f) =
      or_origin_lem m (own_name D m) o (get_name D o) (check_error (D.diename m.m_die))
        (name_of D (chain o)) (own_name_lem m t) f (get_name-Reads o f)

  -- On a faithful holder `get_attr` returns, or throws, what libdwarf gives for the first DIE of the
  -- chain that has the attribute; the holder stays faithful and about the same DIEs.
  pub get_attr-Reads : (a : ℕ) → Reads (get_attr D a) (attr_of D a)
  unfolding get_attr attr_of
  get_attr-Reads a (plain m) t =
      let (r, t', d) = own_attr_lem a m t in (r ∙ or_else-none _, t', ap (λ x. x ∷ []) d)
  get_attr-Reads a (with_origin m o) (t, f) =
      or_origin_lem m (own_attr D a m) o (get_attr D a o) (check_error (D.attr m.m_die a))
        (attr_of D a (chain o)) (own_attr_lem a m t) f (get_attr-Reads a o f)

  keep_offset_lem :
      (m : Fields D) (r : DwResult ℕ)
      → IsTrue m
      → D.dieoffset m.m_die ≡ r
      → ReadsOwn m (keep_offset D m r) (check_dwerr r)
  unfolding keep_offset
  keep_offset_lem m (ok o) t e =
      (refl, record { names = t.names; attrs = t.attrs; offsets = λ _. e }, refl)
  keep_offset_lem m no_entry t e = (refl, t, refl)
  keep_offset_lem m (error _) t e = (refl, t, refl)

  own_offset_lem :
      (m : Fields D) → IsTrue m → ReadsOwn m (own_offset D m) (check_dwerr (D.dieoffset m.m_die))
  unfolding own_offset
  own_offset_lem m t = go m.m_offset_used refl
    where
      go :
          (used : Bool)
          → m.m_offset_used ≡ used
          → ReadsOwn m
              (if used then (returns m.m_offset, m) else keep_offset D m (D.dieoffset m.m_die))
              (check_dwerr (D.dieoffset m.m_die))
      go true e = (rw (t.offsets e) refl, t, refl)
      go false e = keep_offset_lem m (D.dieoffset m.m_die) t refl

  -- The offset is the DIE's own.
  abbrev pub offset_of : List Die → Checked ℕ
  offset_of [] = throws none
  offset_of (d ∷ _) = check_dwerr (D.dieoffset d)

  -- On a faithful holder `get_offset` returns, or throws, what libdwarf gives for the DIE itself, not
  -- its origin; the holder stays faithful and about the same DIEs.
  pub get_offset-Reads : Reads (get_offset D) offset_of
  unfolding get_offset
  get_offset-Reads (plain m) t = let (r, t', d) = own_offset_lem m t in (r, t', ap (λ x. x ∷ []) d)
  get_offset-Reads (with_origin m o) (t, f) =
      let (r, t', d) = own_offset_lem m t in (r, (t', f), ap (λ x. x ∷ chain o) d)

  abbrev pub ref_of : ℕ → List Die → Checked ℕ
  ref_of a [] = throws none
  ref_of a (d ∷ ds) = do attrib ← attr_of D a (d ∷ ds); ref_from D d attrib

  -- On a faithful holder `get_ref_from_attr` returns, or throws, the reference that is read off the
  -- first DIE of the chain with the attribute, taken from the unit of the DIE itself; the holder
  -- stays faithful and about the same DIEs.
  pub get_ref_from_attr-Reads : (a : ℕ) → Reads (get_ref_from_attr D a) (ref_of a)
  unfolding get_ref_from_attr
  get_ref_from_attr-Reads a (plain m) t =
      let (r, t', d) = get_attr-Reads a (plain m) t in (rw r refl, t', d)
  get_ref_from_attr-Reads a (with_origin m o) t =
      let (r, t', d) = get_attr-Reads a (with_origin m o) t in (rw r refl, t', d)
