-- ===== src/Examples/BudgetAdvisory.antt =====
-- A token budget of 1000 with an estimate of 300, and a key with two leases in flight.
use llm_cluster_router.Prelude.{◌≡◌, refl, [], ◌∷◌, some, true}
use llm_cluster_router.Rotation.Types.{Budget, Settings, Key}
use llm_cluster_router.Rotation.Key.{fresh}
use llm_cluster_router.BudgetAdvisory.{RouteConfig, advisory_of, concurrent_leases}

abbrev budget : Budget
budget = record {
  window = 60;
  tokens = 1000;
  requests = 0;
  soft_ratio = record { num = 4; den = 5 };
  estimate_tokens = 300;
}

abbrev settings : Settings
settings = record { budget = budget; max_retry_after = 10; lease_timeout = 100 }

abbrev route : RouteConfig
route = record { name = "plan"; is_enabled = true; budget = some budget }

abbrev key : Key
key = record fresh { leases = 1 ∷ 2 ∷ [] }

four_leases : concurrent_leases (advisory_of route budget) ≡ 4
unfolding concurrent_leases
four_leases = refl
