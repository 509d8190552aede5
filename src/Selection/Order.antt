-- ===== src/Selection/Order.antt =====
-- The order of Go's `int` on the priorities of main.go.
use llm_cluster_router.Prelude.{◌≡◌, ◌↔◌, Bool, true, false, ltb, ◌==◌, arith}
use llm_cluster_router.Prelude.Int.{ℤ, pos, negsuc}

unfoldable pub lt_int : ℤ → ℤ → Bool
lt_int (pos m) (pos n) = ltb m n
lt_int (pos m) (negsuc n) = false
lt_int (negsuc m) (pos n) = true
lt_int (negsuc m) (negsuc n) = ltb n m

unfoldable pub eq_int : ℤ → ℤ → Bool
eq_int (pos m) (pos n) = m == n
eq_int (pos m) (negsuc n) = false
eq_int (negsuc m) (pos n) = false
eq_int (negsuc m) (negsuc n) = m == n

pub eq_int_iff : (a b : ℤ) → (eq_int a b ≡ true) ↔ (a ≡ b)
unfolding eq_int
eq_int_iff (pos m) (pos n) = ground arith
eq_int_iff (pos m) (negsuc n) = ground arith
eq_int_iff (negsuc m) (pos n) = ground arith
eq_int_iff (negsuc m) (negsuc n) = ground arith

pub lt_int_irrefl : (a : ℤ) → lt_int a a ≡ false
unfolding lt_int
lt_int_irrefl (pos m) = ground arith
lt_int_irrefl (negsuc m) = ground arith

-- What is not below `b` is not below a `c` under `b` or beside it.
pub lt_int-false_trans : (a b c : ℤ) → lt_int a b ≡ false → lt_int b c ≡ false → lt_int a c ≡ false
unfolding lt_int
lt_int-false_trans (pos l) (pos m) (pos n) h h' = ground arith
lt_int-false_trans (pos l) (pos m) (negsuc n) h h' = ground arith
lt_int-false_trans (pos l) (negsuc m) (pos n) h h' = ground arith
lt_int-false_trans (pos l) (negsuc m) (negsuc n) h h' = ground arith
lt_int-false_trans (negsuc l) (pos m) (pos n) h h' = ground arith
lt_int-false_trans (negsuc l) (pos m) (negsuc n) h h' = ground arith
lt_int-false_trans (negsuc l) (negsuc m) (pos n) h h' = ground arith
lt_int-false_trans (negsuc l) (negsuc m) (negsuc n) h h' = ground arith

pub lt_int_asym : (a b : ℤ) → lt_int a b ≡ true → lt_int b a ≡ false
unfolding lt_int
lt_int_asym (pos m) (pos n) h = ground arith
lt_int_asym (pos m) (negsuc n) h = ground arith
lt_int_asym (negsuc m) (pos n) h = ground arith
lt_int_asym (negsuc m) (negsuc n) h = ground arith
