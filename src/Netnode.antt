-- ===== src/Netnode.antt =====
-- The IDA SDK's netnode, as far as src/die_cache.hpp and src/die_cache.cpp use it: the store behind
-- the cache of DIEs. It is not part of the repository, so it is a parameter of the model.
use idadwarf.Prelude.{ℕ, ◌≡◌, Option, some, if◌then◌else◌, ◌==◌}

-- `Entry` are the blobs under the default tag; the numbers are under a tag of their own. The laws
-- are those of sparse arrays: a read gives what was last written at the index under the tag.
pub record Netnode (Entry : Type 0) : Type 1 where
  pub Node : Type 0
  pub supval : Node → ℕ → Option Entry
  pub supset : Node → ℕ → Entry → Node
  pub altval : Node → ℕ → ℕ → Option ℕ
  pub altset : Node → ℕ → ℕ → ℕ → Node
  pub supval_supset :
      (n : Node) (i j : ℕ) (e : Entry)
      → supval (supset n i e) j ≡ (if i == j then some e else supval n j)
  pub supval_altset : (n : Node) (t i x j : ℕ) → supval (altset n t i x) j ≡ supval n j
  pub altval_supset :
      (n : Node) (i : ℕ) (e : Entry) (t j : ℕ) → altval (supset n i e) t j ≡ altval n t j
  pub altval_altset :
      (n : Node) (t u i x j : ℕ)
      → altval (altset n t i x) u j
        ≡ (if t == u then (if i == j then some x else altval n u j) else altval n u j)
