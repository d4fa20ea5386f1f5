-- ===== src/Prelude/Effects.antt =====
-- Fallible calls, and the unsigned 64-bit sums of the counters.
use Prim.Native.Nat.{ℕ, ◌+◌, ◌-◌, ◌%◌, ◌^◌, min}

-- `Result<A>`; the text of the error is not modelled.
pub data Io {ℓ} (A : Type ℓ) : Type ℓ where
  done : A → Io A
  fail : Io A

-- `a + b` on `u64`, as a release build computes it.
abbrev pub add64 : ℕ → ℕ → ℕ
add64 a b = (a + b) % 2 ^ 64

-- `a.saturating_add(b)` on `u64`; `a.saturating_sub(b)` is `a - b`.
abbrev pub saturating_add64 : ℕ → ℕ → ℕ
saturating_add64 a b = min (a + b) (2 ^ 64 - 1)
