-- ===== src/Circuit/Settings.antt =====
-- The breaker settings of a node: ResolvedCircuit of internal/config/config.go.
use llm_cluster_router.Prelude.{ℕ, ◌≡◌, ◌<◌, arith}
use llm_cluster_router.Prelude.Int.{ℤ, pos, negsuc, positive_or}
use llm_cluster_router.Circuit.{Gauges, new_breaker, default_cooldown}

-- `CircuitConfig`: a threshold and a cooldown, where anything not positive is unset.
pub record CircuitConfig : Type 0 where
  pub threshold : ℤ
  pub cooldown : ℤ

-- `ResolvedCircuit`: the node's own setting, else the global one, else the default.
unfoldable pub resolved_circuit : CircuitConfig → CircuitConfig → ℕ × ℕ
resolved_circuit node def = (
  positive_or (positive_or 5 def.threshold) node.threshold,
  positive_or (positive_or default_cooldown def.cooldown) node.cooldown,
)

positive_or-pos : (d : ℕ) (x : ℤ) → 0 < d → 0 < positive_or d x
positive_or-pos d (pos n) h = ground arith
positive_or-pos d (negsuc n) h = h

new_breaker_pos :
    (t c : ℕ) (g : Gauges)
    → 0 < t
    → 0 < c
    → ((new_breaker (pos t) (pos c) g).threshold ≡ t)
      × ((new_breaker (pos t) (pos c) g).cooldown ≡ c)
unfolding new_breaker
new_breaker_pos t c g h h' = ground arith

-- The breaker of a node has the resolved settings: they are positive, so that the defaults of
-- NewBreaker never replace them.
pub resolved_circuit-new_breaker :
    (node def : CircuitConfig) (g : Gauges)
    → let r = resolved_circuit node def in
      ((new_breaker (pos r.0) (pos r.1) g).threshold ≡ r.0)
      × ((new_breaker (pos r.0) (pos r.1) g).cooldown ≡ r.1)
unfolding resolved_circuit
resolved_circuit-new_breaker node def g =
    new_breaker_pos (resolved_circuit node def).0 (resolved_circuit node def).1 g
      (positive_or-pos (positive_or 5 def.threshold) node.threshold
        (positive_or-pos 5 def.threshold (omega arith)))
      (positive_or-pos (positive_or default_cooldown def.cooldown) node.cooldown
        (positive_or-pos default_cooldown def.cooldown (omega arith)))
