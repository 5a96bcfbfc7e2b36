-- ===== src/FuncRetrieval/Calls.antt =====
-- src/func_retrieval.cpp, my_apply_callee_type: the loop over the instructions before a call.
use idadwarf.Prelude.{
  ℕ, zero, suc, ◌<◌, ◌≡◌, ◌≢◌, Bool, true, false, Option, none, some, if◌then◌else◌, ◌==◌, arith,
  Option-cases, inl, inr, refl, List, [], ◌∷◌, ◌≤◌, All, badaddr, length,
}
use idadwarf.FuncRetrieval.Callees.{
  comment_args, comment_insn, nn_call, comment_call, found_offsets, my_apply_callee_type,
  apply_to_calls, callee_types, add_callee_types,
}
use idadwarf.Cache.{die_func, ordinal}
use idadwarf.Session.{Host, World, exhausted}
use idadwarf.Session.Cached.Ends.{IsForward, Ends-for_entries}
use idadwarf.Session.Ends.{Ends-update_fueled}
use idadwarf.TypeRetrieval.Lookup.{returned}
use idadwarf.FuncRetrieval.Sdk.{FuncSdk, Insn}
use idadwarf.Ida.{FuncArg, FuncInfo}

-- The instruction before an address has a lower one.
abbrev pub GoesBack : {Db : Type 0} → FuncSdk Db → Type 0
GoesBack {Db} F =
    (db : Db) (addr prev_addr : ℕ) (cmd : Insn)
    → F.decode_prev_insn db addr ≡ some (prev_addr, cmd)
    → prev_addr < addr

module _ {Db : Type 0} (F : FuncSdk Db) (back : GoesBack F) (start_ea : ℕ) (args : List FuncArg)
    (offsets : List ℕ) where
  if_ends :
      {A : Type 0} (b c : Bool) (x z : A) (y : Option A)
      → y ≢ none
      → (if b then some x else if c then y else some z) ≢ none
  if_ends true c x z y h e = absurd (cc e)
  if_ends false true x z y h e = h e
  if_ends false false x z y h e = absurd (cc e)

  -- Where the instruction before an address has a lower one, the loop before a call ends with more
  -- rounds than its address.
  pub comment_args_ends :
      (fuel addr : ℕ) (found : ℕ × Db)
      → addr < fuel
      → comment_args F fuel start_ea args offsets addr found ≢ none
  unfolding comment_args
  comment_args_ends zero addr (n, db) h e = absurd (omega arith)
  comment_args_ends (suc fuel) addr (n, db) h e = elim (Option-cases (F.decode_prev_insn db addr)) [
    | inl none_there ↦ absurd (cc (rw (none_there, comment_args) at e))
    | inr ((prev_addr, cmd), there) ↦
        let lower = back db addr prev_addr cmd there in
        if_ends (cmd.itype == nn_call) _ db _ _
          (comment_args_ends fuel prev_addr (comment_insn F args offsets prev_addr cmd (n, db))
            (omega arith))
          (rw (there, comment_args) at e)
  ]

-- The addresses of calls have 32 bits.
abbrev pub AreAddresses : {Db : Type 0} → FuncSdk Db → Type 0
AreAddresses {Db} F = (db : Db) (startEA : ℕ) → All (λ addr. addr ≤ badaddr) (F.calls_to db startEA)

module _ {Db : Type 0} (F : FuncSdk Db) (back : GoesBack F) (fuel : ℕ)
    (enough : badaddr < fuel) where
  comment_call_ends :
      (start_ea : ℕ) (info : Option FuncInfo) (addr : ℕ) (db : Db)
      → addr ≤ badaddr
      → comment_call F fuel start_ea info addr db ≢ none
  unfolding comment_call
  comment_call_ends start_ea none addr db h e = absurd (cc e)
  comment_call_ends start_ea (some finfo) addr db h e =
      unless (length (found_offsets F (some finfo)) == 0)
        (comment_args_ends F back start_ea finfo.args (found_offsets F (some finfo)) fuel addr
          (0, db) (omega arith))
        e
    where
      unless : (b : Bool) {y : Option Db} → y ≢ none → (if b then some db else y) ≢ none
      unless true k e' = absurd (cc e')
      unless false k e' = k e'

  my_apply_callee_type_ends :
      (db : Db) (funptr addr : ℕ)
      → addr ≤ badaddr
      → my_apply_callee_type F fuel db funptr addr ≢ none
  unfolding my_apply_callee_type
  my_apply_callee_type_ends db funptr addr h = guessed (F.guess_func_tinfo db funptr)
    where
      guessed :
          (t : Option (List ℕ × List ℕ))
          → (elim t [
            | none ↦ some db
            | some (type, fields) ↦
                comment_call F fuel funptr (F.build_funcarg_info db type fields) addr db
          ])
            ≢ none
      guessed none e = absurd (cc e)
      guessed (some (type, fields)) e =
          comment_call_ends funptr (F.build_funcarg_info db type fields) addr db h e

  apply_to_calls_ends :
      (funptr : ℕ) (type fields calls : List ℕ) (db : Db)
      → All (λ addr. addr ≤ badaddr) calls
      → apply_to_calls F fuel funptr type fields calls db ≢ none
  unfolding apply_to_calls
  apply_to_calls_ends funptr type fields [] db h e = absurd (cc e)
  apply_to_calls_ends funptr type fields (from ∷ calls) db (h, hs) e =
      rest _ (my_apply_callee_type_ends (F.apply_callee_type db from type fields) funptr from h)
        (λ db'. apply_to_calls_ends funptr type fields calls db' hs) e
    where
      rest :
          (r : Option Db)
          → r ≢ none
          → ((db' : Db) → apply_to_calls F fuel funptr type fields calls db' ≢ none)
          → (elim r [ none ↦ none | some db' ↦ apply_to_calls F fuel funptr type fields calls db' ])
            ≢ none
      rest none k next = absurd (k refl)
      rest (some db') k next = next db'

  abbrev Answer : Type 0
  Answer = Option (Unit {0} × Db)

  callee_types_ends :
      AreAddresses F → (startEA : ℕ) (db : Db) → callee_types F fuel startEA db ≢ none
  unfolding callee_types
  callee_types_ends low startEA db = of_func (F.get_func db startEA)
    where
      ended :
          (r : Option Db)
          → r ≢ none
          → ◌≢◌ {A = Answer} (elim r [ none ↦ none | some db' ↦ some (tt, db') ]) none
      ended none k e = absurd (k refl)
      ended (some db') k e = absurd (cc e)

      of_type :
          (funptr : ℕ) (t : Option (List ℕ × List ℕ))
          → ◌≢◌ {A = Answer}
              (elim t [
                | none ↦ some (tt, db)
                | some (type, fields) ↦
                    elim (apply_to_calls F fuel funptr type fields (F.calls_to db startEA) db) [
                      | none ↦ none
                      | some db' ↦ some (tt, db')
                    ]
              ])
              none
      of_type funptr none e = absurd (cc e)
      of_type funptr (some (type, fields)) e =
          ended _
            (apply_to_calls_ends funptr type fields (F.calls_to db startEA) db (low db startEA)) e

      of_func :
          (f : Option ℕ)
          → ◌≢◌ {A = Answer}
              (elim f [
                | none ↦ some (tt, db)
                | some funptr ↦ elim (F.guess_func_tinfo db funptr) [
                  | none ↦ some (tt, db)
                  | some (type, fields) ↦
                      elim (apply_to_calls F fuel funptr type fields (F.calls_to db startEA) db) [
                        | none ↦ none
                        | some db' ↦ some (tt, db')
                      ]
                ]
              ])
              none
      of_func none e = absurd (cc e)
      of_func (some funptr) e = of_type funptr (F.guess_func_tinfo db funptr) e

module _ {H : Host} (F : FuncSdk H.ida.Db) where
  -- The comments at the calls of all cached functions end, where the netnode's indices go up to
  -- BADNODE, the instruction before an address has a lower one, calls have addresses of 32 bits, and
  -- the fuel of each loop is 2 ^ 32: what the loops do may throw, but none runs out of it.
  pub add_callee_types_ends :
      (fuel : ℕ) (w : World H)
      → IsForward H
      → GoesBack F
      → AreAddresses F
      → badaddr < fuel
      → (add_callee_types {H = H} F fuel w).0 ≢ exhausted
  unfolding add_callee_types returned
  add_callee_types_ends fuel w forward back low enough =
      (Ends-for_entries forward fuel die_func _ enough (λ c.
          Ends-update_fueled _
            (λ db. returned_some _ (callee_types_ends F back fuel enough low (ordinal c) db)))).at
        w
    where
      returned_some : {A : Type 0} (r : Option A) → r ≢ none → returned r ≢ none
      returned_some none h e = h refl
      returned_some (some a) h e = absurd (cc e)
