-- ===== src/Gmp.antt =====
-- What the program uses of GMP (<gmpxx.h>) beyond sums, products and comparisons of integers, and
-- ULONG_MAX of <climits>. None of it is code of this repository, so it is a parameter.
use rumur.Prelude.{ℕ, ◌^◌, ◌<◌, ◌≡◌, ◌≢◌}
use rumur.Prelude.Int.{ℤ, pos, ◌+ℤ◌, ◌*ℤ◌, ◌≤ℤ◌, ◌<ℤ◌}

pub record Gmp : Type 0 where
  -- the operators `/` and `%` of mpz_class
  pub tdiv_q : ℤ → ℤ → ℤ
  pub tdiv_r : ℤ → ℤ → ℤ
  -- the operators `&`, `|`, `^` and `~`
  pub and : ℤ → ℤ → ℤ
  pub ior : ℤ → ℤ → ℤ
  pub xor : ℤ → ℤ → ℤ
  pub complement : ℤ → ℤ
  pub mul_2exp : ℤ → ℕ → ℤ
  pub fdiv_q_2exp : ℤ → ℕ → ℤ
  -- `mpz_popcount`
  pub popcount : ℤ → ℕ
  -- ULONG_MAX, the greatest value that `fits_ulong_p` accepts
  pub ulong_max : ℕ
  pub ulong_max_pos : 0 < ulong_max

-- The documented behaviour that the theorems rely on.
pub record IsGmp (g : Gmp) : Type 0 where
  pub tdiv_q_zero : (b : ℤ) → b ≢ pos 0 → g.tdiv_q (pos 0) b ≡ pos 0
  pub tdiv_r_zero : (b : ℤ) → b ≢ pos 0 → g.tdiv_r (pos 0) b ≡ pos 0
  pub tdiv_q_mul : (a b : ℤ) → b ≢ pos 0 → g.tdiv_q (a *ℤ b) b ≡ a
  pub tdiv_r_mul : (a b : ℤ) → b ≢ pos 0 → g.tdiv_r (a *ℤ b) b ≡ pos 0
  pub and_zero_left : (b : ℤ) → g.and (pos 0) b ≡ pos 0
  pub and_zero_right : (a : ℤ) → g.and a (pos 0) ≡ pos 0
  pub mul_2exp_lem : (a : ℤ) (k : ℕ) → g.mul_2exp a k ≡ a *ℤ pos (2 ^ k)
  -- the quotient is rounded down
  pub fdiv_q_2exp_low : (a : ℤ) (k : ℕ) → g.fdiv_q_2exp a k *ℤ pos (2 ^ k) ≤ℤ a
  pub fdiv_q_2exp_high : (a : ℤ) (k : ℕ) → a <ℤ (g.fdiv_q_2exp a k +ℤ pos 1) *ℤ pos (2 ^ k)
