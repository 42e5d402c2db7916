-- ===== src/Base/Int.antt =====
-- C++ `int` where the program prints it or casts it to `std::size_t`.
use Prim.Native.Nat.{ℕ, suc, ◌-◌}
use mathlib.Core.List.{◌++◌}
use mathlib.Core.Bool.{Bool, true, false}
use parser_framework.Base.Tests.{ltb}
use parser_framework.Base.Text.{Str, codes, to_string, size_mod}

-- `negsuc n` is -(n + 1).
pub data ℤ : Type 0 where
  pos : ℕ → ℤ
  negsuc : ℕ → ℤ

abbrev pub is_negative : ℤ → Bool
is_negative (pos n) = false
is_negative (negsuc n) = true

-- `a < b`
abbrev pub ltb_ℤ : ℤ → ℤ → Bool
ltb_ℤ (pos a) (pos b) = ltb a b
ltb_ℤ (pos a) (negsuc b) = false
ltb_ℤ (negsuc a) (pos b) = true
ltb_ℤ (negsuc a) (negsuc b) = ltb b a

-- `static_cast<std::size_t>(i)`
abbrev pub to_size : ℤ → ℕ
to_size (pos n) = n
to_size (negsuc n) = size_mod - suc n

-- `stream << i`
unfoldable pub int_to_string : ℤ → Str
unfolding to_string
int_to_string (pos n) = to_string n
int_to_string (negsuc n) = codes "-" ++ to_string (suc n)
