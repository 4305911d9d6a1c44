-- ===== src/Base/Int.antt =====
-- Go's signed numbers: `int`, `int32` and Prometheus gauges. `negsuc n` is -(n + 1).
use Prim.Native.Nat.{ℕ, zero, suc, ◌+◌}
use mathlib.Core.Bool.{Bool, true, false}
use native.Mathlib.Decide.{ℕ_discrete}
use multus_multivpc_cni.Base.Equality.{Eq}
use multus_multivpc_cni.Base.Tests.{ltb}

pub data ℤ : Type 0 where
  pos : ℕ → ℤ
  negsuc : ℕ → ℤ

-- `g.Inc()`
abbrev pub inc : ℤ → ℤ
inc (pos n) = pos (n + 1)
inc (negsuc zero) = pos 0
inc (negsuc (suc n)) = negsuc n

-- `g.Dec()`
abbrev pub dec : ℤ → ℤ
dec (pos zero) = negsuc 0
dec (pos (suc n)) = pos n
dec (negsuc n) = negsuc (n + 1)

-- `x < k` and `x <= 0` at a natural number `k`.
abbrev pub is_below : ℤ → ℕ → Bool
is_below (pos n) k = ltb n k
is_below (negsuc n) k = true

abbrev pub is_positive : ℤ → Bool
is_positive (pos n) = ltb 0 n
is_positive (negsuc n) = false

-- The value of a number that is not negative.
abbrev pub magnitude : ℤ → ℕ
magnitude (pos n) = n
magnitude (negsuc n) = 0

int-discrete : Discrete ℤ
int-discrete = hlevel ℕ_discrete

instance unfoldable pub int_eq : Eq ℤ
unfolding int-discrete ℕ_discrete
int_eq = record { dec = int-discrete }
