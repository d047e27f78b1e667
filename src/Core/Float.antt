-- ===== src/Core/Float.antt =====
-- Python's `float`, known by its bit pattern; the arithmetic is the processor's, a parameter.
use air_store.Prelude.{ℕ, Bool}
use air_store.Prelude.Int.{ℤ}

pub record Float : Type 0 where
  -- `float(n)`, and `m / n` on two integers
  pub of_int : ℕ → ℕ
  pub ratio : ℕ → ℕ → ℕ
  pub ratio_int : ℤ → ℕ → ℕ
  -- the literal m * 10 ^ -k
  pub literal : ℕ → ℕ → ℕ
  pub add : ℕ → ℕ → ℕ
  pub mul : ℕ → ℕ → ℕ
  pub div : ℕ → ℕ → ℕ
  -- `round(x, 2)`
  pub round2 : ℕ → ℕ
  -- `max(x, y)` and `x < y`
  pub fmax : ℕ → ℕ → ℕ
  pub lt : ℕ → ℕ → Bool
