-- ===== src/Prelude/Words.antt =====
-- The widths of the plugin's build: addresses, node indices and ordinals of IDA 5.5 have 32 bits.
use Prim.Native.Nat.{ℕ, ◌-◌, ◌%◌, ◌^◌, ◌<◌}
use mathlib.Core.Path.{◌≡◌}
use native.Mathlib.Omega.{arith}

abbrev pub word_mod : ℕ
word_mod = 2 ^ 32

-- BADADDR, BADNODE: the largest word.
abbrev pub badaddr : ℕ
badaddr = 2 ^ 32 - 1

-- static_cast to nodeidx_t, sval_t, ea_t or uint32, as a bit pattern.
abbrev pub to_word : ℕ → ℕ
to_word x = x % word_mod

pub to_word_of_lt : (x : ℕ) → x < word_mod → to_word x ≡ x
to_word_of_lt x h = omega arith

pub to_word_lt : (x : ℕ) → to_word x < word_mod
to_word_lt x = omega arith
