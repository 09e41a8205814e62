-- ===== src/Prelude/Int.antt =====
-- Python's `int`, as far as the program needs it: a sign, and range tests.
use Prim.Native.Nat.{ℕ, suc}
use mathlib.Core.List.{◌∷◌}
use linuxmuster_radius.Prelude.Strings.{Text, show_nat}
use mathlib.Core.Bool.{Bool, false, ◌&&◌}
use linuxmuster_radius.Prelude.Tests.{leb}

-- `negsuc n` is -(n + 1).
pub data ℤ : Type 0 where
  pos : ℕ → ℤ
  negsuc : ℕ → ℤ

-- `lo <= z <= hi`, for bounds that are not negative.
abbrev pub in_range : ℕ → ℕ → ℤ → Bool
in_range lo hi (pos n) = leb lo n && leb n hi
in_range lo hi (negsuc n) = false

-- `str(z)`
unfoldable pub show_int : ℤ → Text
unfolding show_nat
show_int (pos n) = show_nat n
show_int (negsuc n) = b'-' ∷ show_nat (suc n)
