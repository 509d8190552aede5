-- ===== src/RouterConfig/Load.antt =====
-- `LoadConfig` of internal/config/config.go, behind the decoding of its file.
use llm_cluster_router.Prelude.{
  ℕ, List, [], ◌∷◌, Option, none, some, Bool, true, false, ◌==◌, if◌then◌else◌, length,
}
use llm_cluster_router.Prelude.Int.{ℤ, pos, negsuc}
use llm_cluster_router.Prelude.Bytes.{codes}
use llm_cluster_router.RouterConfig.{
  LoadError, body_read_timeout_negative, probe_interval_negative, probe_burst_negative, no_nodes,
  Loaded, load_failed, loaded, Defaults, HealthConfig, FairShareConfig, NodeConfig, RouterConfig,
  positive_else, text_else, default_circuit_threshold, default_circuit_cooldown,
  default_body_read_timeout, key_cooldown_of, default_metrics_addr, diagnostic_listen_addr,
}
use llm_cluster_router.RouterConfig.Nodes.{
  expand_env_value, validate_upstream_url, validate_auth_header, validate_workloads, expand_node,
}

abbrev pub is_negative : ℤ → Bool
is_negative x = elim x [ pos n ↦ false | negsuc _ ↦ true ]

-- The defaults, where the timeout of a body is not negative.
unfoldable pub fill_defaults : Defaults → Defaults
unfolding positive_else key_cooldown_of
fill_defaults d = record {
  max_queue_depth = positive_else 8 d.max_queue_depth;
  max_concurrency = positive_else 2 d.max_concurrency;
  request_timeout = positive_else 120_000_000_000 d.request_timeout;
  key_cooldown = key_cooldown_of d.key_cooldown;
  max_body_size = positive_else 1_048_576 d.max_body_size;
  body_read_timeout = positive_else default_body_read_timeout d.body_read_timeout;
  circuit = record {
    threshold = positive_else default_circuit_threshold d.circuit.threshold;
    cooldown = positive_else default_circuit_cooldown d.circuit.cooldown;
  };
}

unfoldable pub fill_health : HealthConfig → HealthConfig
unfolding positive_else
fill_health h = record h {
  interval = positive_else 15_000_000_000 h.interval;
  timeout = positive_else 5_000_000_000 h.timeout;
  path = text_else (codes "/health") h.path;
  unhealthy_threshold = positive_else 3 h.unhealthy_threshold;
  healthy_threshold = positive_else 1 h.healthy_threshold;
}

unfoldable pub fill_fair_share : FairShareConfig → FairShareConfig
unfolding positive_else
fill_fair_share f =
    if f.enabled
    then record f {
      max_requests_per_user = positive_else 10 f.max_requests_per_user;
      window = positive_else 60_000_000_000 f.window;
      burst = positive_else 3 f.burst;
    }
    else f

abbrev pub first_error : Option LoadError → Option LoadError → Option LoadError
first_error a b = elim a [ none ↦ b | some e ↦ some e ]

module _ (split : List ℕ → Option (List ℕ × List ℕ))
    (host_of lookup_env : List ℕ → Option (List ℕ)) where
  -- The addresses.
  unfoldable pub fill_addresses : RouterConfig → RouterConfig
  unfolding diagnostic_listen_addr
  fill_addresses c = record c {
    listen = text_else (codes ":8080") c.listen;
    metrics_addr = diagnostic_listen_addr split (text_else default_metrics_addr c.metrics_addr);
    debug_addr = diagnostic_listen_addr split c.debug_addr;
  }

  -- The error of a node whose values are expanded.
  unfoldable pub check_node : NodeConfig → Option LoadError
  unfolding validate_upstream_url validate_auth_header validate_workloads
  check_node n =
      first_error (validate_upstream_url host_of n.name n.url)
        (first_error (validate_auth_header n) (validate_workloads n))

  unfoldable pub cons_node : NodeConfig → Loaded (List NodeConfig) → Loaded (List NodeConfig)
  cons_node n (load_failed e) = load_failed e
  cons_node n (loaded ns) = loaded (n ∷ ns)

  -- The loop over the nodes.
  unfoldable pub load_nodes : List NodeConfig → Loaded (List NodeConfig)
  unfolding expand_node check_node cons_node
  load_nodes [] = loaded []
  load_nodes (n ∷ ns) = elim (check_node (expand_node lookup_env n)) [
    | none ↦ cons_node (expand_node lookup_env n) (load_nodes ns)
    | some e ↦ load_failed e
  ]

  unfoldable pub with_nodes : RouterConfig → Loaded (List NodeConfig) → Loaded RouterConfig
  with_nodes c (load_failed e) = load_failed e
  with_nodes c (loaded ns) = loaded (record c { nodes = ns })

  -- The configuration with every default.
  unfoldable pub fill : RouterConfig → RouterConfig
  unfolding fill_addresses fill_defaults fill_health fill_fair_share expand_env_value
  fill c = record (fill_addresses c) {
    defaults = fill_defaults c.defaults;
    health_check = fill_health c.health_check;
    fair_share = fill_fair_share c.fair_share;
    auth_token = expand_env_value lookup_env c.auth_token;
  }

  -- `LoadConfig`. The defaults that are filled in ahead of an error are not seen by its caller.
  unfoldable pub load_config : RouterConfig → Loaded RouterConfig
  unfolding fill load_nodes with_nodes
  load_config c =
      if is_negative c.defaults.body_read_timeout
      then load_failed body_read_timeout_negative
      else if is_negative c.health_check.live_probe.interval
      then load_failed probe_interval_negative
      else if is_negative c.health_check.live_probe.burst
      then load_failed probe_burst_negative
      else if length c.nodes == 0
      then load_failed no_nodes
      else with_nodes (fill c) (load_nodes c.nodes)
