-- ===== src/FuncRetrieval/Arguments.antt =====
-- src/func_retrieval.cpp, finish_subprogram: how many parameters the function gets.
use idadwarf.Prelude.{
  ℕ, suc, ◌+◌, ◌≡◌, refl, ap, ◌∙◌, Bool, true, false, ◌&&◌, List, [], ◌∷◌, if◌then◌else◌, ◌==◌, ltb,
  length, arith, eq_of_==, Bool-cases, inl, inr,
}
use idadwarf.FuncRetrieval.Sdk.{FuncSdk}
use idadwarf.FuncRetrieval.Subprograms.{
  pop_back, struni_return, special_type, guessed_type, finished_type,
}
use idadwarf.Ida.{FuncArg, FuncInfo}
use idadwarf.Til.{TypeCoding}

length-pop_back : {A : Type 0} (x : A) (xs : List A) → length (pop_back (x ∷ xs)) ≡ length xs
unfolding pop_back
length-pop_back x [] = refl
length-pop_back x (y ∷ xs) = ap suc (length-pop_back y xs)

popped_one : {A : Type 0} (xs : List A) (n : ℕ) → length xs ≡ n + 1 → length (pop_back xs) ≡ n
popped_one [] n h = absurd (omega arith)
popped_one (x ∷ xs) n h = let k = length-pop_back x xs in omega arith

-- The parameters that were found where there are more than were guessed; else the guessed ones, less
-- the one that stands for the ellipsis.
abbrev pub nb_params : (ellipsis : Bool) → (nb_found nb_guessed : ℕ) → ℕ
nb_params ellipsis nb_found nb_guessed =
    if ltb nb_guessed nb_found
    then nb_found
    else if ellipsis && nb_guessed == nb_found + 1
    then nb_found
    else nb_guessed

module _ {Db : Type 0} (F : FuncSdk Db) (T : TypeCoding) (cm_cc_ellipsis : ℕ)
    (return_type : List ℕ) where
  length-special_type :
      (struni is_void ellipsis : Bool) (args : List FuncArg)
      → length (special_type F T.bt_ptr struni is_void ellipsis return_type args).args
        ≡ length args + (if struni then 1 else 0)
  unfolding special_type struni_return
  length-special_type true is_void ellipsis args = omega arith
  length-special_type false true ellipsis args = omega arith
  length-special_type false false ellipsis args = omega arith

  length-guessed_type :
      (struni ellipsis : Bool) (nb_found : ℕ) (old_info : FuncInfo)
      → length
          (guessed_type F T.bt_ptr cm_cc_ellipsis struni ellipsis return_type nb_found
            old_info).args
        ≡ (if ellipsis && length old_info.args == nb_found + 1
            then nb_found
            else length old_info.args)
          + (if struni then 1 else 0)
  unfolding guessed_type struni_return
  length-guessed_type struni ellipsis nb_found old_info =
      elim (Bool-cases (ellipsis && length old_info.args == nb_found + 1)) [
        | inl popped ↦ rw popped (popped_length struni (counted ellipsis popped))
        | inr kept ↦ rw kept (kept_length struni)
      ]
    where
      counted :
          (ellipsis : Bool)
          → (ellipsis && length old_info.args == nb_found + 1) ≡ true
          → length old_info.args ≡ nb_found + 1
      counted true h = eq_of_== _ _ h
      counted false h = absurd (cc h)

      kept_length :
          (struni : Bool)
          → length
              (if struni
                then struni_return F T.bt_ptr return_type (record old_info {
                  rettype = return_type;
                  cc = if ellipsis then cm_cc_ellipsis else old_info.cc;
                })
                else record old_info {
                  rettype = return_type;
                  cc = if ellipsis then cm_cc_ellipsis else old_info.cc;
                }).args
            ≡ length old_info.args + (if struni then 1 else 0)
      kept_length true = omega arith
      kept_length false = omega arith

      popped_length :
          (struni : Bool)
          → length old_info.args ≡ nb_found + 1
          → length (
              pop_back
                (if struni
                  then struni_return F T.bt_ptr return_type (record old_info {
                    rettype = return_type;
                    cc = if ellipsis then cm_cc_ellipsis else old_info.cc;
                  })
                  else record old_info {
                    rettype = return_type;
                    cc = if ellipsis then cm_cc_ellipsis else old_info.cc;
                  }).args)
            ≡ nb_found + (if struni then 1 else 0)
      popped_length true h = length-pop_back _ old_info.args ∙ h
      popped_length false h = let k = popped_one old_info.args nb_found h in omega arith

  -- The type that finish_subprogram builds has as many parameters as were found, if more were found
  -- than guessed or if IDA guessed one for the ellipsis, and else as many as were guessed; and one
  -- more for the result where it is a structure or a union.
  pub length-finished_type :
      (ellipsis struni : Bool) (info : List FuncArg) (old_info : FuncInfo)
      → length (finished_type F T cm_cc_ellipsis ellipsis struni return_type info old_info).args
        ≡ nb_params ellipsis (length info) (length old_info.args) + (if struni then 1 else 0)
  unfolding finished_type
  length-finished_type ellipsis struni info old_info =
      elim (Bool-cases (ltb (length old_info.args) (length info))) [
        | inl more ↦ rw more (length-special_type struni _ ellipsis info)
        | inr fewer ↦ rw fewer (length-guessed_type struni ellipsis (length info) old_info)
      ]
