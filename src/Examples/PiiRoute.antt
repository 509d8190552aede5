-- ===== src/Examples/PiiRoute.antt =====
-- A card number that passes the checksum, and the same number with one digit misread.
use llm_cluster_router.Prelude.{ℕ, List, [], ◌∷◌}

-- The digits 4111 1111 111 before the place, and 1111 1 behind it less one.
abbrev before : List ℕ
before = 52 ∷ 49 ∷ 49 ∷ 49 ∷ 49 ∷ 49 ∷ 49 ∷ 49 ∷ 49 ∷ 49 ∷ 49 ∷ []

abbrev behind : List ℕ
behind = 49 ∷ 49 ∷ 49 ∷ 49 ∷ []
