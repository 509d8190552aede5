-- ===== src/Examples/Circuit.antt =====
-- Breakers of two failures and five seconds, asked and told at a few instants.
use llm_cluster_router.Prelude.{ℕ, ◌≡◌, ◌↔◌, ◌<◌, refl, List, [], ◌∷◌}
use llm_cluster_router.Prelude.Int.{pos}
use llm_cluster_router.Circuit.{
  closed, open_, half_open, Gauges, Breaker, new_breaker, gauge_of, Call, allows, succeeds, fails,
  run,
}
use llm_cluster_router.Circuit.Settings.{CircuitConfig}
use llm_cluster_router.Circuit.Streaks.{streak, threshold_of, run-closed}

abbrev second : ℕ
second = 1_000_000_000

abbrev unset : Gauges
unset = record { closed_gauge = 0; open_gauge = 0; half_open_gauge = 0 }

abbrev calls : List (ℕ × Call)
calls = (1, fails) ∷ (2, succeeds) ∷ (3, fails) ∷ (4, allows) ∷ (5, fails) ∷ []

abbrev opened : Breaker
opened = record {
  state = open_;
  failures = 2;
  threshold = 2;
  cooldown = 5_000_000_000;
  opened_at = 5;
  node_name = "gpu-0";
  gauges = gauge_of open_;
}

abbrev trying : Breaker
trying = record opened { state = half_open; gauges = gauge_of half_open }

calls_open : (run (new_breaker (pos 2) (pos 5_000_000_000) unset) calls).state ≡ open_
unfolding run new_breaker
calls_open = refl

run-closed_example :
    ((run (new_breaker (pos 2) (pos 5_000_000_000) unset) calls).state ≡ closed)
    ↔ (streak 0 calls < threshold_of (pos 2))
run-closed_example = run-closed (pos 2) (pos 5_000_000_000) unset calls

abbrev node_circuit : CircuitConfig
node_circuit = record { threshold = pos 0; cooldown = pos 7 }

abbrev default_circuit : CircuitConfig
default_circuit = record { threshold = pos 9; cooldown = pos 0 }
