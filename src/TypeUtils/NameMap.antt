-- ===== src/TypeUtils/NameMap.antt =====
-- src/type_utils.hpp: the maps from names to numbers (MapConsts, MapMembers), ordered by strcmp, as
-- lists of entries.
use mathlib.Core.List.{
  Mem, Perm, mem-cons_of_mem, not-mem-nil, mem_of_ne_of_mem, mem-cons, Mem-prop,
}
use mathlib.Core.Logic.Or
use mathlib.Core.List.Perm.{rfl, cons, swap, trans, mem_iff}
use idadwarf.Prelude.{
  ℕ, ◌≡◌, ◌≢◌, Bool, true, false, ◌&&◌, Option, none, some, List, [], ◌∷◌, refl, ne_of_==, ◌∙◌, sym,
  if◌then◌else◌, ◌==◌, ==_refl, eq_of_==, Bool-cases, Option-cases, inl, inr, ap,
}

abbrev pub Names : Type 0
Names = List (List ℕ × ℕ)

-- strcmp(s1, s2) == 0
unfoldable pub same_name : List ℕ → List ℕ → Bool
same_name [] [] = true
same_name (a ∷ s) (b ∷ t) = (a == b) && same_name s t
same_name [] (_ ∷ _) = false
same_name (_ ∷ _) [] = false

-- m[name] = value
unfoldable pub put : List ℕ → ℕ → Names → Names
unfolding same_name
put name value [] = (name, value) ∷ []
put name value (entry ∷ entries) =
    let kept = entry ∷ put name value entries in
    if same_name name entry.0 then (name, value) ∷ entries else kept

-- The entry of the name is erased if it has that value; `none` where there is no such entry.
unfoldable pub take_entry : List ℕ → ℕ → Names → Option Names
unfolding same_name
take_entry name value [] = none
take_entry name value (entry ∷ entries) =
    let rest = take_entry name value entries in
    if same_name name entry.0
    then (if entry.1 == value then some entries else none)
    else elim rest [ none ↦ none | some entries' ↦ some (entry ∷ entries') ]

same_name_refl : (a : List ℕ) → same_name a a ≡ true
unfolding same_name
same_name_refl [] = refl
same_name_refl (x ∷ a) = rw (==_refl x, same_name_refl a) refl

eq_of_same_name : (a b : List ℕ) → same_name a b ≡ true → a ≡ b
unfolding same_name
eq_of_same_name [] [] h = refl
eq_of_same_name [] (y ∷ b) h = absurd (cc h)
eq_of_same_name (x ∷ a) [] h = absurd (cc h)
eq_of_same_name (x ∷ a) (y ∷ b) h = elim (Bool-cases (x == y)) [
  | inl e ↦
      let h' : same_name a b ≡ true = rw e at h in rw (eq_of_== x y e, eq_of_same_name a b h') refl
  | inr e ↦ let h' : false ≡ true = rw e at h in absurd (cc h')
]

-- What is taken out of the map was in it, once more than in what is left.
pub take_entry-Perm :
    (n : List ℕ) (v : ℕ) (m m' : Names) → take_entry n v m ≡ some m' → Perm ((n, v) ∷ m') m
unfolding take_entry
take_entry-Perm n v [] m' h = absurd (cc h)
take_entry-Perm n v ((k, w) ∷ m) m' h = elim (Bool-cases (same_name n k)) [
  | inl e ↦ elim (Bool-cases (w == v)) [
    | inl f ↦
        let h' : some m ≡ some m' = rw (e, f) at h in
        let tail : m ≡ m' = cc in rw (eq_of_same_name n k e, eq_of_== w v f, tail) rfl
    | inr f ↦ let h' : none ≡ some m' = rw (e, f) at h in absurd (cc h')
  ]
  | inr e ↦ elim (Option-cases (take_entry n v m)) [
    | inl f ↦ let h' : none ≡ some m' = rw (e, f, take_entry) at h in absurd (cc h')
    | inr (rest, f) ↦
        let h' : some ((k, w) ∷ rest) ≡ some m' = rw (e, f, take_entry) at h in
        let shape : (k, w) ∷ rest ≡ m' = cc in
        rw (← shape) (trans (swap (k, w) (n, v) rest) (cons (k, w) (take_entry-Perm n v m rest f)))
  ]
]

-- No name is in the map twice.
abbrev pub IsMap : Names → Type 0
IsMap [] = Unit
IsMap ((n, _) ∷ m) = ((w : ℕ) → ¬ Mem (n, w) m) × IsMap m

clash : (n k : List ℕ) → same_name n k ≡ false → n ≢ k
clash n k differ p =
    let t : same_name n k ≡ true = rw (← p) (same_name_refl n) in
    let u : true ≡ false = sym t ∙ differ in absurd (cc u)

-- What is of another name is in the rest.
mem_other :
    (n k : List ℕ) (v w : ℕ) (m : Names)
    → same_name n k ≡ false
    → Mem (n, v) ((k, w) ∷ m)
    → Mem (n, v) m
mem_other n k v w m differ h =
    mem_of_ne_of_mem (λ p. clash n k differ (ap (λ (x : List ℕ × ℕ). x.0) p)) h

-- What is in the map is found there.
pub take_entry_complete :
    (n : List ℕ) (v : ℕ) (m : Names) → IsMap m → Mem (n, v) m → take_entry n v m ≢ none
unfolding take_entry
take_entry_complete n v [] f h e = not-mem-nil h
take_entry_complete n v ((k, w) ∷ m) f h e = elim (Bool-cases (same_name n k)) [
  | inl same ↦ elim (Bool-cases (w == v)) [
    | inl value ↦ let e' : some m ≡ none = rw (same, value) at e in absurd (cc e')
    | inr other ↦ f.0 v (
        rw (← eq_of_same_name n k same)
          (mem_of_ne_of_mem (λ p. ne_of_== w v other (sym (ap (λ (x : List ℕ × ℕ). x.1) p))) h))
  ]
  | inr differ ↦ elim (Option-cases (take_entry n v m)) [
    | inl missing ↦ take_entry_complete n v m f.1 (mem_other n k v w m differ h) missing
    | inr (rest, found) ↦
        let e' : some ((k, w) ∷ rest) ≡ none = rw (differ, found, take_entry) at e in absurd (cc e')
  ]
]

pub take_entry-some :
    (n : List ℕ) (v : ℕ) (m : Names)
    → IsMap m
    → Mem (n, v) m
    → (m' : Names) × (take_entry n v m ≡ some m')
take_entry-some n v m f h = elim (Option-cases (take_entry n v m)) [
  | inl e ↦ absurd (take_entry_complete n v m f h e)
  | inr found ↦ found
]

-- Taking an entry out leaves a map without the name.
pub take_entry-IsMap :
    (n : List ℕ) (v : ℕ) (m m' : Names)
    → take_entry n v m ≡ some m'
    → IsMap m
    → IsMap m' × ((w : ℕ) → ¬ Mem (n, w) m')
unfolding take_entry
take_entry-IsMap n v [] m' h f = absurd (cc h)
take_entry-IsMap n v ((k, w) ∷ m) m' h f = elim (Bool-cases (same_name n k)) [
  | inl e ↦ elim (Bool-cases (w == v)) [
    | inl g ↦
        let h' : some m ≡ some m' = rw (e, g) at h in
        let tail : m ≡ m' = cc in rw (← tail, eq_of_same_name n k e) (f.1, f.0)
    | inr g ↦ let h' : none ≡ some m' = rw (e, g) at h in absurd (cc h')
  ]
  | inr e ↦ elim (Option-cases (take_entry n v m)) [
    | inl g ↦ let h' : none ≡ some m' = rw (e, g, take_entry) at h in absurd (cc h')
    | inr (rest, g) ↦
        let h' : some ((k, w) ∷ rest) ≡ some m' = rw (e, g, take_entry) at h in
        let shape : (k, w) ∷ rest ≡ m' = cc in
        let (kept, gone) = take_entry-IsMap n v m rest g f.1 in
        rw (← shape) (
          (
            λ x hx. f.0 x ((mem_iff (take_entry-Perm n v m rest g)).0 (mem-cons_of_mem (n, v) hx)),
            kept,
          ),
          λ x hx. gone x (mem_other n k x w rest e hx),
        )
  ]
]

pub mem-cons_mono {ℓ} :
    {A : Type ℓ} {a b : A} (s t : List A) → (Mem a s → Mem a t) → Mem a (b ∷ s) → Mem a (b ∷ t)
mem-cons_mono {b} s t f h =
    Or.elim Mem-prop (mem-cons.0 h) (λ e. mem-cons.1 ∣ inl e ∣₁) (λ m. mem-cons_of_mem b (f m))

same_name_sym : (n k : List ℕ) → same_name n k ≡ false → same_name k n ≡ false
same_name_sym n k differ = elim (Bool-cases (same_name k n)) [
  | inl e ↦ absurd (clash n k differ (sym (eq_of_same_name k n e)))
  | inr e ↦ e
]

-- An assignment adds at most the one entry.
put-mem :
    (n k : List ℕ) (v x : ℕ) (m : Names)
    → same_name k n ≡ false
    → Mem (k, x) (put n v m)
    → Mem (k, x) m
unfolding put
put-mem n k v x [] differ h = mem_other k n x v [] differ h
put-mem n k v x ((j, w) ∷ m) differ h = elim (Bool-cases (same_name n j)) [
  | inl e ↦
      let h' : Mem (k, x) ((n, v) ∷ m) = rw e at h in
      mem-cons_of_mem (j, w) (mem_other k n x v m differ h')
  | inr e ↦ mem-cons_mono (put n v m) m (put-mem n k v x m differ) (rw e at h)
]

pub put-IsMap : (n : List ℕ) (v : ℕ) (m : Names) → IsMap m → IsMap (put n v m)
unfolding put
put-IsMap n v [] f = (λ w. not-mem-nil, tt)
put-IsMap n v ((k, w) ∷ m) f = elim (Bool-cases (same_name n k)) [
  | inl e ↦ rw e (rw (eq_of_same_name n k e) (f.0, f.1))
  | inr e ↦ rw e (λ x h. f.0 x (put-mem n k v x m (same_name_sym n k e) h), put-IsMap n v m f.1)
]
