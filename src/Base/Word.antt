-- ===== src/Base/Word.antt =====
-- uint32_t arithmetic: values are numbers below 2 ^ 32, with the wrap written out.
use Prim.Native.Nat.{ℕ, ◌+◌, ◌-◌, ◌/◌, ◌%◌, ◌^◌}
use mathlib.Core.Bool.{Bool}
use pollnet.Base.Tests.{leb, if◌then◌else◌}

abbrev pub add32 : ℕ → ℕ → ℕ
add32 a b = (a + b) % 2 ^ 32

abbrev pub sub32 : ℕ → ℕ → ℕ
sub32 a b = (a + 2 ^ 32 - b) % 2 ^ 32

-- `(int32_t)w < 0`
abbrev pub is_neg32 : ℕ → Bool
is_neg32 w = leb (2 ^ 31) w

-- `(int32_t)w >> k`, which keeps the sign.
abbrev pub asr32 : ℕ → ℕ → ℕ
asr32 w k = if leb (2 ^ 31) w then sub32 0 ((2 ^ 32 - w + 2 ^ k - 1) / 2 ^ k) else w / 2 ^ k

-- `std::abs((int32_t)w)`
abbrev pub abs32 : ℕ → ℕ
abs32 w = if leb (2 ^ 31) w then sub32 0 w else w

-- uint64_t, and `(int64_t)w >> k`
abbrev pub sub64 : ℕ → ℕ → ℕ
sub64 a b = (a + 2 ^ 64 - b) % 2 ^ 64

abbrev pub asr64 : ℕ → ℕ → ℕ
asr64 w k = if leb (2 ^ 63) w then sub64 0 ((2 ^ 64 - w + 2 ^ k - 1) / 2 ^ k) else w / 2 ^ k
