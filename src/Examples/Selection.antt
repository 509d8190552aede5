-- ===== src/Examples/Selection.antt =====
-- Three nodes: two cheap ones in the first priority, one of them out of rotation, and a fallback.
use llm_cluster_router.Prelude.{
  ◌≡◌, refl, List, [], ◌∷◌, none, some, true, false, ◌&&◌, not, get_elem?, All, arith,
}
use llm_cluster_router.Prelude.Int.{pos, negsuc}
use llm_cluster_router.Selection.{Node, Query, contains, allows_class, chosen, no_node, select_node}
use llm_cluster_router.Selection.Order.{lt_int}
use llm_cluster_router.Selection.Choice.{Eligible}
use llm_cluster_router.Selection.Chosen.{select_node-chosen, select_node-safe}
use llm_cluster_router.Selection.Health.{Thresholds}

abbrev local : Node
local = record {
  name = "gpu-0";
  tier = "fast";
  priority = negsuc 0;
  weight = 2;
  models = "qwen" ∷ [];
  workloads = [];
  pii_local = true;
  health_check_disabled = false;
  healthy = true;
  consecutive_pass = 4;
  consecutive_fail = 0;
  breaker = none;
}

abbrev down : Node
down = record local { name = "gpu-1"; healthy = false }

abbrev cloud : Node
cloud = record local { name = "cloud"; priority = pos 10; weight = 1; pii_local = false }

abbrev nodes : List Node
nodes = cloud ∷ down ∷ local ∷ []

abbrev query : Query
query = record {
  model = "qwen";
  tier = "";
  excluded = [];
  workload_class = "customer";
  personal = true;
}

abbrev failed_over : Query
failed_over = record query { excluded = "gpu-0" ∷ [] }

picks_local : (select_node 5 query 7 nodes).2 ≡ chosen 2
unfolding select_node
picks_local = refl

refuses : (select_node 5 failed_over 7 nodes).2 ≡ no_node
unfolding select_node
refuses = refl

select_node-chosen_example :
    (n : Node) × (get_elem? nodes 2 ≡ some n)
    × Eligible 5 query n
    × All (λ m. ¬ (Eligible 5 query m × (lt_int m.priority n.priority ≡ true))) nodes
select_node-chosen_example =
    select_node-chosen 5 query 7 nodes 2 (omega arith, (omega arith, (omega arith, tt))) picks_local

select_node-safe_example :
    (allows_class local "customer" ≡ true)
    × ((true && not true) ≡ false)
    × (true ≡ true)
    × (contains [] "gpu-0" ≡ false)
select_node-safe_example =
    select_node-safe 5 query 7 nodes 2 (omega arith, (omega arith, (omega arith, tt))) picks_local
      refl

abbrev thresholds : Thresholds
thresholds = record { healthy_threshold = 1; unhealthy_threshold = 3 }
