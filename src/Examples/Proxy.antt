-- ===== src/Examples/Proxy.antt =====
-- Two nodes behind a request whose first one fails, and a few handlers at the gate.
use llm_cluster_router.Prelude.{
  ℕ, zero, suc, ◌+◌, ◌≡◌, ◌≤◌, refl, List, [], ◌∷◌, none, some, true, false, get_elem?, All, arith,
}
use llm_cluster_router.Prelude.Int.{pos}
use llm_cluster_router.KeyPool.{new_pool, size, next, all_cooling, mark_exhausted}
use llm_cluster_router.Selection.{Node, Query, select_node}
use llm_cluster_router.Selection.Order.{eq_int}
use llm_cluster_router.Proxy.{
  Upstream, no_upstream, failed, responded, Exchange, do_upstream, is_failover_status, is_quota_hit,
}
use llm_cluster_router.Proxy.Failover.{
  failover, start, max_failover_attempts, delete_name, relays_served, relays_held,
}
use llm_cluster_router.Proxy.Bodies.{elem}
use llm_cluster_router.Proxy.Accounts.{is_accounted, attempts, failover-accounts}
use llm_cluster_router.Proxy.Locality.{failover-local}
use llm_cluster_router.Proxy.Admission.{
  Limits, Event, arrives, moves, leaves_queue, begins_buffering, acquires, dequeues, ends,
  releases_buffer, run, idle,
}
use llm_cluster_router.Proxy.Admission.Counts.{total, ending}
use llm_cluster_router.Proxy.Admission.Bounds.{run_memory_bound, run_gives_back}

abbrev near : Node
near = record {
  name = "gpu-0";
  tier = "fast";
  priority = pos 0;
  weight = 1;
  models = "qwen" ∷ [];
  workloads = [];
  pii_local = true;
  health_check_disabled = false;
  healthy = true;
  consecutive_pass = 4;
  consecutive_fail = 0;
  breaker = none;
}

abbrev far : Node
far = record near { name = "cloud"; pii_local = false }

abbrev nodes : List Node
nodes = near ∷ far ∷ []

abbrev query : Query
query = record {
  model = "qwen";
  tier = "";
  excluded = [];
  workload_class = "internal";
  personal = false;
}

-- The first node answers 502, the second one 200.
abbrev wire : ℕ → ℕ → Exchange
wire k zero = record { sent = 10; first = responded 502 []; second = failed false; scored = 11 }
wire k (suc i) = record { sent = 20; first = responded 200 []; second = failed false; scored = 21 }

abbrev upstreams : List Upstream
upstreams = no_upstream ∷ no_upstream ∷ []

failover_serves : (failover wire 5 query 0 nodes upstreams).1 ≡ relays_served 1 1 200
unfolding failover select_node eq_int do_upstream is_failover_status
failover_serves = refl

failover-accounts_example :
    let x = failover wire 5 query 0 nodes upstreams in
    let (ch, o) = start 5 query 0 nodes upstreams in
    All (λ k. is_accounted x.0.closed x.1 k ≡ true) (attempts wire query max_failover_attempts o ch)
failover-accounts_example = failover-accounts wire 5 query 0 nodes upstreams

-- A pool with two keys at the first node, whose key hits its quota; the second node fails.
abbrev quota_wire : ℕ → ℕ → Exchange
quota_wire k zero = record {
  sent = 10;
  first = responded 429 [];
  second = failed false;
  scored = 11;
}
quota_wire k (suc i) = record {
  sent = 20;
  first = failed false;
  second = failed false;
  scored = 21;
}

abbrev pooled : List Upstream
pooled =
    record no_upstream { keys = some (new_pool ("a" ∷ "b" ∷ []) (pos 1000)) } ∷ no_upstream ∷ []

-- The response that is relayed in the end was closed when the other node was chosen.
relays_closed_response :
    let x = failover quota_wire 5 query 0 nodes pooled in
    (x.1 ≡ relays_held (record { attempt = 0; node = 0; status = 429 }))
    × (elem x.0.closed 0 ≡ true)
unfolding failover new_pool elem select_node eq_int do_upstream is_failover_status size next
    is_quota_hit all_cooling mark_exhausted delete_name
relays_closed_response = (refl, refl)

abbrev personal_query : Query
personal_query = record query { personal = true }

-- The near node as before, and a far node that answers otherwise.
abbrev other_far : ℕ → ℕ → Exchange
other_far k zero = wire k 0
other_far k (suc i) = record { sent = 20; first = failed true; second = failed false; scored = 90 }

far_is_remote :
    (k i : ℕ) (n : Node)
    → get_elem? nodes i ≡ some n
    → n.pii_local ≡ true
    → wire k i ≡ other_far k i
far_is_remote k zero n at here = refl
far_is_remote k (suc zero) n at here = ground (arith, at, here)
far_is_remote k (suc (suc i)) n at here = ground (arith, at)

failover-local_example :
    failover wire 5 personal_query 0 nodes upstreams
    ≡ failover other_far 5 personal_query 0 nodes upstreams
failover-local_example =
    failover-local wire other_far 5 personal_query 0 nodes upstreams
      (omega arith, (omega arith, tt)) refl far_is_remote

-- Three requests under a queue of one and one token, the first of which is about to return.
abbrev limits : Limits
limits = record { max_queue_depth = 1; max_concurrency = 1 }

abbrev events : List Event
events =
    arrives
    ∷ moves 0 begins_buffering
    ∷ moves 0 acquires
    ∷ moves 0 dequeues
    ∷ moves 0 ends
    ∷ arrives
    ∷ moves 1 begins_buffering
    ∷ moves 1 acquires
    ∷ moves 1 dequeues
    ∷ arrives
    ∷ moves 2 begins_buffering
    ∷ []

-- Three bodies, one more than the two limits together.
holds_three : (run limits idle events).buffering ≡ 3
unfolding run
holds_three = refl

run_memory_bound_example :
    ((run limits idle events).buffering ≤ 1 + 1 + total ending (run limits idle events).handlers)
    × ((run limits idle events).semaphore ≤ 1)
run_memory_bound_example = run_memory_bound limits events

-- One request that is served and one that is refused.
abbrev served : List Event
served =
    arrives
    ∷ arrives
    ∷ moves 0 begins_buffering
    ∷ moves 0 acquires
    ∷ moves 1 leaves_queue
    ∷ moves 0 dequeues
    ∷ moves 0 ends
    ∷ moves 0 releases_buffer
    ∷ []

run_gives_back_example :
    ((run limits idle served).queue_depth ≡ 0)
    × ((run limits idle served).buffering ≡ 0)
    × ((run limits idle served).semaphore ≡ 0)
unfolding run
run_gives_back_example = run_gives_back limits served (refl, (refl, tt))
