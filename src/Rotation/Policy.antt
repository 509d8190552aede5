-- ===== src/Rotation/Policy.antt =====
-- The selection policies of internal/channel/rotation.go. A policy is its cursor, an atomic uint64,
-- and a function from the cursor and the candidates to the next cursor and a position.
pub mod Minimum
use llm_cluster_router.Prelude.{
  ℕ, suc, ◌+◌, ◌%◌, ◌≡◌, ◌<◌, List, [], ◌∷◌, ◌++◌, Bool, true, false, ltb, ◌==◌, if◌then◌else◌,
  length, get_or,
}
use llm_cluster_router.Prelude.Int.{ℤ, pos, negsuc, in_range}
use llm_cluster_router.Rotation.Types.{KeyState}

abbrev pub uint64_mod : ℕ
uint64_mod = 18_446_744_073_709_551_616

-- `cursor.Add(1)`; `cursor.Add(1) - 1` is the cursor before it.
abbrev pub advance_cursor : ℕ → ℕ
advance_cursor c = (c + 1) % uint64_mod

-- `-1`.
abbrev pub declined : ℤ
declined = negsuc 0

-- `roundRobinPolicy.Select`.
unfoldable pub round_robin : ℕ → List KeyState → ℕ × ℤ
round_robin c [] = (c, declined)
round_robin c (x ∷ xs) = (advance_cursor c, pos (c % length (x ∷ xs)))

-- The loop of `pickMin` over the states from position `i` on: the best score and its positions.
unfoldable pub tied_from : (KeyState → ℕ) → ℕ → ℕ → List ℕ → List KeyState → List ℕ
tied_from score i best tied [] = tied
tied_from score i best tied (x ∷ xs) =
    tied_from score (i + 1) (if ltb (score x) best then score x else best)
      (if ltb (score x) best then i ∷ [] else if score x == best then tied ++ i ∷ [] else tied) xs

unfoldable pub pick_min : ℕ → (KeyState → ℕ) → List KeyState → ℕ × ℤ
unfolding tied_from
pick_min c score [] = (c, declined)
pick_min c score (x ∷ xs) =
    let tied = tied_from score 1 (score x) (0 ∷ []) xs in
    (advance_cursor c, pos (get_or tied (c % length tied) 0))

unfoldable pub by_load : KeyState → ℕ
by_load k = k.requests + k.in_flight

unfoldable pub least_used : ℕ → List KeyState → ℕ × ℤ
least_used c states = pick_min c by_load states

unfoldable pub any_estimated : List KeyState → Bool
any_estimated [] = false
any_estimated (x ∷ xs) = if x.estimated then true else any_estimated xs

unfoldable pub least_tokens : ℕ → List KeyState → ℕ × ℤ
unfolding any_estimated
least_tokens c states =
    if any_estimated states then pick_min c by_load states else pick_min c (λ k. k.tokens) states

-- What a policy promises of a set of candidates that is not empty: a position in it.
pub record IsPolicy {P : Type 0} (select : P → List KeyState → P × ℤ) : Type 0 where
  pub in_bounds :
      (p : P) (x : KeyState) (xs : List KeyState)
      → in_range (select p (x ∷ xs)).1 (length (x ∷ xs)) ≡ true
