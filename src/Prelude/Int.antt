-- ===== src/Prelude/Int.antt =====
-- Signed integers over the native numbers: Go's `int` where the source admits a negative value.
use llm_cluster_router.Prelude.{ℕ, Bool, true, false, leb, if◌then◌else◌}

-- `negsuc n` is -(n + 1).
pub data ℤ : Type 0 where
  pos : ℕ → ℤ
  negsuc : ℕ → ℤ

-- The value of a setting for which anything not positive means its default `d`.
abbrev pub positive_or : ℕ → ℤ → ℕ
positive_or d (pos n) = if leb n 0 then d else n
positive_or d (negsuc n) = d

-- `0 <= x && x < n`, the bounds test of an index.
abbrev pub in_range : ℤ → ℕ → Bool
in_range (pos i) n = llm_cluster_router.Prelude.ltb i n
in_range (negsuc i) n = false
