-- ===== src/Selection/Health.antt =====
-- The health loop and the readiness gate of main.go: runHealthPass and Ready. The probe of a node,
-- an HTTP request, is its result.
use llm_cluster_router.Prelude.{
  ℕ, ◌+◌, List, [], ◌∷◌, Option, none, some, String, Bool, true, false, ltb, leb, if◌then◌else◌,
}
use llm_cluster_router.Circuit.{closed, open_, half_open, stats}
use llm_cluster_router.Selection.{Node}

-- The thresholds of `healthConfig`, which `LoadConfig` leaves positive.
pub record Thresholds : Type 0 where
  pub healthy_threshold : ℕ
  pub unhealthy_threshold : ℕ

-- The body of the pass for one node and the result of its probe.
unfoldable pub health_step : Thresholds → Node → Bool → Node
health_step hc n pass =
    if n.health_check_disabled
    then n
    else if pass
    then record n {
      consecutive_fail = 0;
      consecutive_pass = n.consecutive_pass + 1;
      healthy = if leb hc.healthy_threshold (n.consecutive_pass + 1) then true else n.healthy;
    }
    else record n {
      consecutive_pass = 0;
      consecutive_fail = n.consecutive_fail + 1;
      healthy = if leb hc.unhealthy_threshold (n.consecutive_fail + 1) then false else n.healthy;
    }

-- `runHealthPass`: each node is probed by its own goroutine, which touches that node only.
unfoldable pub run_health_pass : Thresholds → (Node → Bool) → List Node → List Node
unfolding health_step
run_health_pass hc probe [] = []
run_health_pass hc probe (n ∷ ns) = health_step hc n (probe n) ∷ run_health_pass hc probe ns

-- The passes of the health loop at one node, by the results of its probes.
unfoldable pub run_probes : Thresholds → Node → List Bool → Node
unfolding health_step
run_probes hc n [] = n
run_probes hc n (pass ∷ rest) = run_probes hc (health_step hc n pass) rest

unfoldable pub count_healthy : List Node → ℕ
count_healthy [] = 0
count_healthy (n ∷ ns) = (if n.healthy then 1 else 0) + count_healthy ns

abbrev pub is_open : ℕ → Node → Bool
is_open now n = elim n.breaker [
  | none ↦ false
  | some b ↦ elim (stats now b).state [ closed ↦ false | open_ ↦ true | half_open ↦ false ]
]

-- The third loop of `Ready`: the first node with an open breaker.
unfoldable pub first_open : ℕ → List Node → Option String
unfolding stats
first_open now [] = none
first_open now (n ∷ ns) = if is_open now n then some n.name else first_open now ns

pub data Readiness : Type 0 where
  ready no_healthy_node queue_full : Readiness
  breaker_open : String → Readiness

-- `Ready`, with the queue depth and its ceiling.
unfoldable pub ready_of : ℕ → ℕ → ℕ → List Node → Readiness
unfolding count_healthy first_open
ready_of now depth ceiling nodes =
    if leb (count_healthy nodes) 0
    then no_healthy_node
    else if ltb ceiling depth
    then queue_full
    else elim (first_open now nodes) [ none ↦ ready | some name ↦ breaker_open name ]
